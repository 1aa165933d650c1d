-- ===== src/Broadcaster/Tidy.antt =====
-- The texts of the events that pkg/web/broadcaster.go keeps.
use netping.Common.{
  ℕ, ◌≡◌, subst, Str, Option, none, some, List, [], ◌∷◌, ◌++◌, Time, length, All, All-append,
  All-drop, and_then, if_cases, ltb,
}
use netping.Utils.Spaces.{IsSpaced, sanitize_single_line-IsSpaced}
use netping.Utils.Lines.{IsLine, sanitize_single_line-IsLine}
use netping.Broadcaster.{
  ProbeEvent, Channel, Broadcaster, clip_history, new_broadcaster, set_max_history, subscribe,
  history_cap, remove_key, is_member, with_channels, unsubscribe, complete_event, broadcast,
  clear_history, receive,
}
use netping.Broadcaster.Safety.{
  Op, broadcasts, subscribes, unsubscribes, sets_max_history, clears_history, receives, step, run,
  run-new-IsSafe,
}

module _ {F64 : Type 0} where
  -- An event whose diagnostics and error are single lines without two spaces in a row.
  abbrev pub IsTidy : ProbeEvent F64 → Type 0
  IsTidy e = (IsLine e.diagnostics × IsSpaced e.diagnostics) × (IsLine e.error × IsSpaced e.error)

  abbrev Tidied : Broadcaster F64 → Type 0
  Tidied b = All IsTidy b.history

  -- Of a result, if there is one.
  abbrev OnSome : (Broadcaster F64 → Type 0) → Option (Broadcaster F64) → Type 0
  OnSome P none = Unit
  OnSome P (some b) = P b

  with_channels-Tidied :
      (b : Broadcaster F64) (o : Option (List (Channel F64)))
      → Tidied b
      → OnSome Tidied (with_channels b o)
  with_channels-Tidied b none h = tt
  with_channels-Tidied b (some cs) h = h

  All-clip_history :
      (n : ℕ) (es : List (ProbeEvent F64)) → All IsTidy es → All IsTidy (clip_history n es)
  All-clip_history n es h =
      if_cases (All IsTidy) (ltb n (length es)) (λ e. All-drop IsTidy _ es h) (λ e. h)

  complete_event-IsTidy :
      (format_time : Time → Str) (now : Time) (e : ProbeEvent F64)
      → IsTidy (complete_event format_time now e)
  unfolding complete_event
  complete_event-IsTidy format_time now e = (
    (sanitize_single_line-IsLine e.diagnostics, sanitize_single_line-IsSpaced e.diagnostics),
    (sanitize_single_line-IsLine e.error, sanitize_single_line-IsSpaced e.error),
  )

  step-Tidied : (op : Op F64) (b : Broadcaster F64) → Tidied b → OnSome Tidied (step op b)
  unfolding step broadcast subscribe unsubscribe set_max_history clear_history receive
  step-Tidied (broadcasts format_time now e) b h =
      with_channels-Tidied
        (record b {
          history =
              clip_history (history_cap b.max_history)
                (b.history ++ complete_event format_time now e ∷ []);
        })
        _
        (All-clip_history _ (b.history ++ complete_event format_time now e ∷ [])
          (All-append IsTidy b.history _ h (complete_event-IsTidy format_time now e, tt)))
  step-Tidied subscribes b h = h
  step-Tidied (unsubscribes k) b h =
      if_cases (OnSome Tidied) (is_member k b.subscribers)
        (λ m. with_channels-Tidied (record b { subscribers = remove_key k b.subscribers }) _ h)
        (λ m. h)
  step-Tidied (sets_max_history limit) b h = All-clip_history _ b.history h
  step-Tidied clears_history b h = tt
  step-Tidied (receives k) b h = h

  run-Tidied : (ops : List (Op F64)) (b : Broadcaster F64) → Tidied b → OnSome Tidied (run ops b)
  unfolding run
  run-Tidied [] b h = h
  run-Tidied (op ∷ ops) b h = go (step op b) (step-Tidied op b h) (run-Tidied ops)
    where
      go :
          (o : Option (Broadcaster F64))
          → OnSome Tidied o
          → ((b' : Broadcaster F64) → Tidied b' → OnSome Tidied (run ops b'))
          → OnSome Tidied (and_then o (run ops))
      go none k rest = tt
      go (some b') k rest = rest b' k

  -- After any calls on a new broadcaster (none of which panics), the diagnostics and the error of
  -- each event of the history are single lines without two spaces in a row: whatever was broadcast, the code of each of
  -- their characters is at least that of the space (32), or that of the escape (27), so that no line
  -- feed, carriage return or tab is left, and no space follows on a space.
  pub run-IsTidy :
      (ops : List (Op F64))
      → (b : Broadcaster F64) × (run ops new_broadcaster ≡ some b) × All IsTidy b.history
  run-IsTidy ops =
      let s = run-new-IsSafe ops in
      (
        s.after,
        s.result,
        subst (OnSome Tidied) (s.result) (run-Tidied ops new_broadcaster none_yet),
      )
    where
      none_yet : Tidied (new_broadcaster {F64 = F64})
      none_yet = unfold new_broadcaster in tt
