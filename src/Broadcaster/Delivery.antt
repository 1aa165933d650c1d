-- ===== src/Broadcaster/Delivery.antt =====
-- To whom `Broadcast` of pkg/web/broadcaster.go delivers an event.
use netping.Common.{
  ℕ, ◌<◌, ◌≡◌, ◌∙◌, refl, sym, Str, Bool, true, false, Bool-cases, inl, inr, Option, some, none,
  List, [], ◌∷◌, ◌++◌, Time, length, last, last_all, All, ltb, ◌==◌, ==_iff, subst, and_then,
  if_cases, arith, if◌then◌else◌,
}
use netping.Broadcaster.{
  ProbeEvent, Channel, Broadcaster, capacity, history_cap, clip_history, is_member, remove_key,
  with_channels, send, send_all, complete_event, broadcast, new_broadcaster, subscribe, unsubscribe,
  set_max_history, clear_history, receive, close,
}
use netping.Broadcaster.Channels.{IsValid, Sent, send_all-Sent}
use netping.Broadcaster.Safety.{
  Op, broadcasts, subscribes, unsubscribes, sets_max_history, clears_history, receives, step,
  step-IsSafe, run, new-IsValid, run-new-IsSafe,
}

-- The keys of a map.
abbrev pub Distinct : List ℕ → Type 0
Distinct [] = Unit
Distinct (k ∷ ks) = (is_member k ks ≡ false) × Distinct ks

fresh_key : (k : ℕ) (ks : List ℕ) → All (λ j. j < k) ks → is_member k ks ≡ false
fresh_key k [] h = refl
fresh_key k (j ∷ ks) h = let rest = fresh_key k ks h.1 in ground arith

is_member-remove_key :
    (i k : ℕ) (ks : List ℕ) → is_member i ks ≡ false → is_member i (remove_key k ks) ≡ false
is_member-remove_key i k [] h = refl
is_member-remove_key i k (j ∷ ks) h = elim (Bool-cases (j == i)) [
  | inl same ↦ absurd (let g = rw same at h in cc)
  | inr other ↦
      let rest = is_member-remove_key i k ks (rw other at h) in
      if_cases (λ x. is_member i x ≡ false) (j == k) (λ e. rest) (λ e. rw other rest)
]

remove_key-Distinct : (k : ℕ) (ks : List ℕ) → Distinct ks → Distinct (remove_key k ks)
remove_key-Distinct k [] d = tt
remove_key-Distinct k (j ∷ ks) d =
    if_cases Distinct (j == k) (λ e. remove_key-Distinct k ks d.1)
      (λ e. (is_member-remove_key j k ks d.0, remove_key-Distinct k ks d.1))

some-injective {ℓ} : {A : Type ℓ} (a b : A) → some a ≡ some b → a ≡ b
some-injective a b h = ground arith

module _ {F64 : Type 0} where
  -- What is waiting in a channel.
  abbrev pub buffer_of : ℕ → List (Channel F64) → List (ProbeEvent F64)
  buffer_of k [] = []
  buffer_of k (c ∷ cs) = if c.id == k then c.buffer else buffer_of k cs

  -- A buffer after an event was offered to it: full, it drops the event.
  abbrev pub offered : ProbeEvent F64 → List (ProbeEvent F64) → List (ProbeEvent F64)
  offered e buffer = if ltb (length buffer) capacity then buffer ++ e ∷ [] else buffer

  abbrev OnSome : Option (Broadcaster F64) → Type 0
  OnSome none = Unit
  OnSome (some b) = Distinct b.subscribers

  -- The channels `cs'`, if any, are `cs` with the event offered to those that the test picks.
  abbrev Delivered :
      ProbeEvent F64 → (ℕ → Bool) → List (Channel F64) → Option (List (Channel F64)) → ℕ → Type 0
  Delivered e to cs none j = Unit
  Delivered e to cs (some cs') j =
      buffer_of j cs' ≡ (if to j then offered e (buffer_of j cs) else buffer_of j cs)

  prepend-Delivered :
      (e : ProbeEvent F64) (k j : ℕ) (c : Channel F64) (cs : List (Channel F64))
      (r : Option (List (Channel F64)))
      → (c.id == k) ≡ false
      → Delivered e (λ i. i == k) cs r j
      → Delivered e (λ i. i == k) (c ∷ cs) (netping.Broadcaster.prepend c r) j
  prepend-Delivered e k j c cs none other h = tt
  prepend-Delivered e k j c cs (some cs') other h = ground arith

  send-Delivered :
      (e : ProbeEvent F64) (k j : ℕ) (cs : List (Channel F64))
      → Delivered e (λ i. i == k) cs (send e k cs) j
  unfolding send
  send-Delivered e k j [] = tt
  send-Delivered e k j (c ∷ cs) =
      if_cases C (c.id == k)
        (λ same.
          if_cases C c.is_closed (λ shut. tt)
            (λ open_now.
              if_cases C (ltb (length c.buffer) capacity) (λ room. ground arith)
                (λ full. ground arith)))
        (λ other. prepend-Delivered e k j c cs (send e k cs) other (send-Delivered e k j cs))
    where
      C : Option (List (Channel F64)) → Type 0
      C r = Delivered e (λ i. i == k) (c ∷ cs) r j

  -- Two deliveries in turn, to `k` and then to others.
  and_then-Delivered :
      (e : ProbeEvent F64) (k j : ℕ) (ks : List ℕ) (cs : List (Channel F64))
      (r : Option (List (Channel F64)))
      → is_member k ks ≡ false
      → Delivered e (λ i. i == k) cs r j
      → ((cs' : List (Channel F64)) → Delivered e (λ i. is_member i ks) cs' (send_all e ks cs') j)
      → Delivered e (λ i. is_member i (k ∷ ks)) cs (and_then r (send_all e ks)) j
  and_then-Delivered e k j ks cs none fresh first rest = tt
  and_then-Delivered e k j ks cs (some cs') fresh first rest = go (send_all e ks cs') (rest cs')
    where
      go :
          (r : Option (List (Channel F64)))
          → Delivered e (λ i. is_member i ks) cs' r j
          → Delivered e (λ i. is_member i (k ∷ ks)) cs r j
      go none h = tt
      go (some cs'') h = elim (Bool-cases (j == k)) [
        | inl same ↦
            let e1 : j ≡ k = (==_iff j k).0 same in
            let out : is_member j ks ≡ false = rw e1 fresh in
            let back : (k == j) ≡ true = (==_iff k j).1 (sym e1) in
            rw (back) (rw out at h ∙ rw same at first)
        | inr other ↦ let back : (k == j) ≡ false = ground arith in rw (back, h, first, other) refl
      ]

  send_all-Delivered :
      (e : ProbeEvent F64) (ks : List ℕ) (j : ℕ) (cs : List (Channel F64))
      → Distinct ks
      → Delivered e (λ i. is_member i ks) cs (send_all e ks cs) j
  unfolding send_all
  send_all-Delivered e [] j cs d = refl
  send_all-Delivered e (k ∷ ks) j cs d =
      and_then-Delivered e k j ks cs (send e k cs) d.0 (send-Delivered e k j cs)
        (λ cs'. send_all-Delivered e ks j cs' d.1)

  with_channels-subscribers :
      (b b' : Broadcaster F64) (o : Option (List (Channel F64)))
      → with_channels b o ≡ some b'
      → b'.subscribers ≡ b.subscribers
  with_channels-subscribers b b' none h = cc
  with_channels-subscribers b b' (some cs) h = ground arith

  step-Distinct :
      (op : Op F64) (b b' : Broadcaster F64)
      → IsValid b
      → Distinct b.subscribers
      → step op b ≡ some b'
      → Distinct b'.subscribers
  unfolding step broadcast unsubscribe
  step-Distinct (broadcasts format_time now e) b b' v d h =
      subst Distinct
        (sym (
          with_channels-subscribers
            (record b {
              history =
                  clip_history (history_cap b.max_history)
                    (b.history ++ complete_event format_time now e ∷ []);
            })
            b' _ h))
        d
  step-Distinct subscribes b b' v d h =
      subst (λ o. OnSome o) h (unfold subscribe in (fresh_key b.next_id b.subscribers v.named, d))
  step-Distinct (unsubscribes k) b b' v d h = subst OnSome h (removed (close k b.channels))
    where
      removed :
          (o : Option (List (Channel F64)))
          → OnSome (
              if is_member k b.subscribers
              then with_channels (record b { subscribers = remove_key k b.subscribers }) o
              else some b)
      removed none = if_cases OnSome (is_member k b.subscribers) (λ m. tt) (λ m. d)
      removed (some cs) =
          if_cases OnSome (is_member k b.subscribers) (λ m. remove_key-Distinct k b.subscribers d)
            (λ m. d)
  step-Distinct (sets_max_history limit) b b' v d h = subst OnSome h (unfold set_max_history in d)
  step-Distinct clears_history b b' v d h = subst OnSome h (unfold clear_history in d)
  step-Distinct (receives k) b b' v d h = subst OnSome h (unfold receive in d)

  run-Distinct :
      (ops : List (Op F64)) (b b' : Broadcaster F64)
      → IsValid b
      → Distinct b.subscribers
      → run ops b ≡ some b'
      → Distinct b'.subscribers
  unfolding run
  run-Distinct [] b b' v d h = subst OnSome h d
  run-Distinct (op ∷ ops) b b' v d h =
      let s = step-IsSafe op b v in
      run-Distinct ops s.after b' s.valid (step-Distinct op b s.after v d s.result)
        (rw (s.result) at h)

  clip_history_lem : (n : ℕ) (es : List (ProbeEvent F64)) → clip_history n es ≡ last n es
  clip_history_lem n es = elim (Bool-cases (ltb n (length es))) [
    | inl more ↦ rw more refl
    | inr few ↦ rw few (sym (last_all n es (ground arith)))
  ]

  -- What a broadcast of `event` from `b` leads to, in the history and in the channel `j`.
  pub record IsDelivered (event : ProbeEvent F64) (b : Broadcaster F64) (j : ℕ)
      (r : Option (Broadcaster F64)) : Type 0 where
    pub after : Broadcaster F64
    pub result : r ≡ some after
    pub subscribers : after.subscribers ≡ b.subscribers
    pub history : after.history ≡ last (history_cap b.max_history) (b.history ++ event ∷ [])
    pub buffer : buffer_of j after.channels ≡ (
        if is_member j b.subscribers
        then offered event (buffer_of j b.channels)
        else buffer_of j b.channels)

  broadcast-IsDelivered :
      (format_time : Time → Str) (now : Time) (e : ProbeEvent F64) (b : Broadcaster F64) (j : ℕ)
      → IsValid b
      → Distinct b.subscribers
      → IsDelivered (complete_event format_time now e) b j (broadcast format_time now e b)
  unfolding broadcast
  broadcast-IsDelivered format_time now e b j v d =
      go (send_all-Sent event b.subscribers b.channels v.opened v.buffered)
    where
      event : ProbeEvent F64
      event = complete_event format_time now e

      go :
          Sent b.channels (send_all event b.subscribers b.channels)
          → IsDelivered event b j (broadcast format_time now e b)
      go s = record {
        after = record b {
          history = clip_history (history_cap b.max_history) (b.history ++ event ∷ []);
          channels = s.after;
        };
        result = rw (s.result) refl;
        subscribers = refl;
        history = clip_history_lem (history_cap b.max_history) (b.history ++ event ∷ []);
        buffer =
            subst (λ r. Delivered event (λ i. is_member i b.subscribers) b.channels r j) (s.result)
              (send_all-Delivered event b.subscribers j b.channels d);
      }

  -- A broadcast, after any calls on a new broadcaster, appends the completed event to the history, of
  -- which the newest events up to the limit are kept, and delivers it once to each channel that is
  -- subscribed, at the end of its buffer, unless that holds 32 events, when the event is dropped; the
  -- other channels and the subscriptions are left alone.
  pub run-broadcast :
      (ops : List (Op F64)) (b : Broadcaster F64)
      → run ops new_broadcaster ≡ some b
      → (format_time : Time → Str) (now : Time) (e : ProbeEvent F64) (j : ℕ)
      → IsDelivered (complete_event format_time now e) b j (broadcast format_time now e b)
  run-broadcast ops b h format_time now e j =
      broadcast-IsDelivered format_time now e b j valid
        (run-Distinct ops new_broadcaster b new-IsValid (unfold new_broadcaster in tt) h)
    where
      valid : IsValid b
      valid =
          let s = run-new-IsSafe ops in
          subst IsValid (some-injective s.after b (sym (s.result) ∙ h)) s.valid
