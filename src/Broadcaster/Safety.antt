-- ===== src/Broadcaster/Safety.antt =====
-- The calls of pkg/web/broadcaster.go in any order: none of them panics.
use netping.Common.{
  ℕ, suc, ◌≤◌, ◌<◌, Str, ◌≡◌, ◌∙◌, subst, ==_iff, and_then, if_cases, refl, true, false, Bool-cases,
  inl, inr, Option, some, List, [], ◌∷◌, ◌++◌, ℤ, pos, Time, length, length-drop, length-last, All,
  All-map, ◌==◌, arith,
}
use netping.Broadcaster.{
  ProbeEvent, Channel, Broadcaster, history_cap, limit_of, clip_history, new_broadcaster,
  set_max_history, subscribe, is_member, remove_key, close, unsubscribe, broadcast, clear_history,
  receive_from, receive, complete_event, with_channels,
}
use netping.Broadcaster.Channels.{is_open, Buffered, IsValid, Closed, send_all-Sent, close-Closed}

-- The calls of the methods, with the receive of a client.
pub data Op (F64 : Type 0) : Type 0 where
  broadcasts : (Time → Str) → Time → ProbeEvent F64 → Op F64
  subscribes : Op F64
  unsubscribes : ℕ → Op F64
  sets_max_history : ℤ → Op F64
  clears_history : Op F64
  receives : ℕ → Op F64

clip_bound {ℓ} : {A : Type ℓ} (n : ℕ) (xs : List A) → length (clip_history n xs) ≤ n
clip_bound n xs = ground (arith, length-last n xs)

history_cap_limit : (limit : ℤ) → history_cap (pos (limit_of limit)) ≡ limit_of limit
history_cap_limit limit = ground arith

All-remove_key :
    (P Q : ℕ → Type 0) (k : ℕ) (ks : List ℕ)
    → ((j : ℕ) → (j == k) ≡ false → P j → Q j)
    → All P ks
    → All Q (remove_key k ks)
All-remove_key P Q k [] f h = tt
All-remove_key P Q k (j ∷ ks) f h = elim (Bool-cases (j == k)) [
  | inl same ↦ rw same (All-remove_key P Q k ks f h.1)
  | inr other ↦ rw other (f j other h.0, All-remove_key P Q k ks f h.1)
]

member-All : (P : ℕ → Type 0) (k : ℕ) (ks : List ℕ) → is_member k ks ≡ true → All P ks → P k
member-All P k [] m h = cc
member-All P k (j ∷ ks) m h = elim (Bool-cases (j == k)) [
  | inl same ↦ subst P ((==_iff j k).0 same) h.0
  | inr other ↦ member-All P k ks (rw other at m) h.1
]

module _ {F64 : Type 0} where
  unfoldable pub step : Op F64 → Broadcaster F64 → Option (Broadcaster F64)
  step (broadcasts format_time now e) b = broadcast format_time now e b
  step subscribes b = some (subscribe b).0
  step (unsubscribes k) b = unsubscribe k b
  step (sets_max_history limit) b = some (set_max_history limit b)
  step clears_history b = some (clear_history b)
  step (receives k) b = some (receive k b)

  -- A step that does not panic and leads to a valid state.
  pub record IsSafe (r : Option (Broadcaster F64)) : Type 0 where
    pub after : Broadcaster F64
    pub result : r ≡ some after
    pub valid : IsValid after

  broadcast-IsSafe :
      (format_time : Time → Str) (now : Time) (e : ProbeEvent F64) (b : Broadcaster F64)
      → IsValid b
      → IsSafe (broadcast format_time now e b)
  unfolding broadcast
  broadcast-IsSafe format_time now e b v =
      let event = complete_event format_time now e in
      let s = send_all-Sent event b.subscribers b.channels v.opened v.buffered in
      record {
        after = record b {
          history = clip_history (history_cap b.max_history) (b.history ++ event ∷ []);
          channels = s.after;
        };
        result = rw (s.result);
        valid = record {
          opened =
              All-map (λ j. is_open j b.channels ≡ true) (λ j. is_open j s.after ≡ true)
                (λ j x. s.still_open j ∙ x) b.subscribers v.opened;
          named = v.named;
          buffered = s.buffered;
          bounded = clip_bound (history_cap b.max_history) (b.history ++ event ∷ []);
        };
      }

  subscribe-IsValid : (b : Broadcaster F64) → IsValid b → IsValid (subscribe b).0
  unfolding subscribe
  subscribe-IsValid b v = record {
    opened = (
      ground arith,
      All-map (λ j. is_open j b.channels ≡ true) _ (λ j x. ground arith) b.subscribers v.opened,
    );
    named = (
      omega arith,
      All-map (λ k. k < b.next_id) (λ k. k < suc b.next_id) (λ k x. omega arith) b.subscribers
          v.named,
    );
    buffered = (omega arith, v.buffered);
    bounded = v.bounded;
  }

  unsubscribe-IsSafe : (k : ℕ) (b : Broadcaster F64) → IsValid b → IsSafe (unsubscribe k b)
  unfolding unsubscribe
  unsubscribe-IsSafe k b v =
      if_cases IsSafe (is_member k b.subscribers)
        (λ m.
          closes (close-Closed k b.channels (member-All _ k b.subscribers m v.opened) v.buffered))
        (λ _. record { after = b; result = refl; valid = v })
    where
      closes :
          Closed k b.channels (close k b.channels)
          → IsSafe (
              with_channels
                (record b { subscribers = remove_key k b.subscribers })
                (close k b.channels))
      closes s = record {
        after = record b { subscribers = remove_key k b.subscribers; channels = s.after };
        result = rw (s.result);
        valid = record {
          opened =
              All-remove_key (λ j. is_open j b.channels ≡ true) (λ j. is_open j s.after ≡ true) k
                b.subscribers (λ j ne x. s.others_open j ne ∙ x) v.opened;
          named =
              All-remove_key (λ j. j < b.next_id) (λ j. j < b.next_id) k b.subscribers (λ j ne x. x)
                v.named;
          buffered = s.buffered;
          bounded = v.bounded;
        };
      }

  receive_from-is_open :
      (k j : ℕ) (cs : List (Channel F64)) → is_open j (receive_from k cs) ≡ is_open j cs
  unfolding receive_from
  receive_from-is_open k j [] = refl
  receive_from-is_open k j (c ∷ cs) = ground (arith, receive_from-is_open k j cs)

  receive_from-Buffered :
      (k : ℕ) (cs : List (Channel F64)) → Buffered cs → Buffered (receive_from k cs)
  unfolding receive_from
  receive_from-Buffered k [] h = tt
  receive_from-Buffered k (c ∷ cs) h =
      ground (arith, receive_from-Buffered k cs h.1, length-drop 1 c.buffer)

  receive-IsValid : (k : ℕ) (b : Broadcaster F64) → IsValid b → IsValid (receive k b)
  unfolding receive
  receive-IsValid k b v = record {
    opened =
        All-map (λ j. is_open j b.channels ≡ true)
          (λ j. is_open j (receive_from k b.channels) ≡ true)
          (λ j x. receive_from-is_open k j b.channels ∙ x) b.subscribers v.opened;
    named = v.named;
    buffered = receive_from-Buffered k b.channels v.buffered;
    bounded = v.bounded;
  }

  set_max_history-IsValid :
      (limit : ℤ) (b : Broadcaster F64) → IsValid b → IsValid (set_max_history limit b)
  unfolding set_max_history
  set_max_history-IsValid limit b v = record {
    opened = v.opened;
    named = v.named;
    buffered = v.buffered;
    bounded = rw (history_cap_limit limit) (clip_bound (limit_of limit) b.history);
  }

  -- No call on a valid broadcaster panics, be it by a send on a closed channel or by closing one
  -- twice, and it leads to a valid broadcaster: the subscribers' channels stay open, no buffer
  -- holds more than 32 events, and the history stays within its limit.
  pub step-IsSafe : (op : Op F64) (b : Broadcaster F64) → IsValid b → IsSafe (step op b)
  unfolding step
  step-IsSafe (broadcasts format_time now e) b v = broadcast-IsSafe format_time now e b v
  step-IsSafe subscribes b v = record {
    after = (subscribe b).0;
    result = refl;
    valid = subscribe-IsValid b v;
  }
  step-IsSafe (unsubscribes k) b v = unsubscribe-IsSafe k b v
  step-IsSafe (sets_max_history limit) b v = record {
    after = set_max_history limit b;
    result = refl;
    valid = set_max_history-IsValid limit b v;
  }
  step-IsSafe clears_history b v =
      unfold clear_history in
      record {
        after = clear_history b;
        result = refl;
        valid = record {
          opened = v.opened;
          named = v.named;
          buffered = v.buffered;
          bounded = omega arith;
        };
      }
  step-IsSafe (receives k) b v = record {
    after = receive k b;
    result = refl;
    valid = receive-IsValid k b v;
  }

  unfoldable pub run : List (Op F64) → Broadcaster F64 → Option (Broadcaster F64)
  run [] b = some b
  run (op ∷ ops) b = and_then (step op b) (run ops)

  run-IsSafe : (ops : List (Op F64)) (b : Broadcaster F64) → IsValid b → IsSafe (run ops b)
  unfolding run
  run-IsSafe [] b v = record { after = b; result = refl; valid = v }
  run-IsSafe (op ∷ ops) b v =
      let s = step-IsSafe op b v in
      let t = run-IsSafe ops s.after s.valid in
      record { after = t.after; result = rw (s.result) t.result; valid = t.valid }

  pub new-IsValid : IsValid (new_broadcaster {F64 = F64})
  unfolding new_broadcaster
  new-IsValid = record { opened = tt; named = tt; buffered = tt; bounded = omega arith }

  -- No sequence of calls on a new broadcaster panics, in whatever order the clients subscribe,
  -- receive and unsubscribe (also twice), and the state after it is valid.
  pub run-new-IsSafe : (ops : List (Op F64)) → IsSafe (run ops new_broadcaster)
  run-new-IsSafe ops = run-IsSafe ops new_broadcaster new-IsValid
