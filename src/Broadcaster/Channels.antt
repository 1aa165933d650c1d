-- ===== src/Broadcaster/Channels.antt =====
-- The channels of pkg/web/broadcaster.go: no step sends on a closed channel or closes one twice.
use netping.Common.{
  ℕ, ◌≤◌, ◌<◌, ◌≡◌, ◌∙◌, ◌⊎◌, refl, Bool, true, false, not, Bool-cases, inl, inr, Option, some,
  List, [], ◌∷◌, ◌++◌, length, length-append, All, All-map, ltb, ◌==◌, arith, if◌then◌else◌,
}
use netping.Broadcaster.{
  ProbeEvent, Channel, Broadcaster, capacity, history_cap, close, send, send_all,
}

module _ {F64 : Type 0} where
  -- A channel of that name was made and is not closed.
  abbrev pub is_open : ℕ → List (Channel F64) → Bool
  is_open k [] = false
  is_open k (c ∷ cs) = if c.id == k then not c.is_closed else is_open k cs

  abbrev pub Buffered : List (Channel F64) → Type 0
  Buffered = All (λ c. length c.buffer ≤ capacity)

  -- What holds between two steps: the subscribers' channels are open, their names were given out,
  -- no buffer is over its capacity, and the history is within its limit.
  pub record IsValid (b : Broadcaster F64) : Type 0 where
    pub opened : All (λ k. is_open k b.channels ≡ true) b.subscribers
    pub named : All (λ k. k < b.next_id) b.subscribers
    pub buffered : Buffered b.channels
    pub bounded : length b.history ≤ history_cap b.max_history

  -- `cs'` has the channels of `cs` open.
  pub record Sent (cs : List (Channel F64)) (r : Option (List (Channel F64))) : Type 0 where
    pub after : List (Channel F64)
    pub result : r ≡ some after
    pub still_open : (j : ℕ) → is_open j after ≡ is_open j cs
    pub buffered : Buffered after

  send-Sent :
      (e : ProbeEvent F64) (k : ℕ) (cs : List (Channel F64))
      → is_open k cs ≡ true
      → Buffered cs
      → Sent cs (send e k cs)
  unfolding send
  send-Sent e k [] o h = cc
  send-Sent e k (c ∷ cs) o h = elim (Bool-cases (c.id == k)) [
    | inl same ↦ here same (ground arith) (Bool-cases (ltb (length c.buffer) capacity))
    | inr other ↦ later other (send-Sent e k cs (rw other at o) h.1)
  ]
    where
      later : (c.id == k) ≡ false → Sent cs (send e k cs) → Sent (c ∷ cs) (send e k (c ∷ cs))
      later other s = record {
        after = c ∷ s.after;
        result = rw (other, s.result);
        still_open = λ j. rw (s.still_open j);
        buffered = (h.0, s.buffered);
      }

      here :
          (c.id == k) ≡ true
          → c.is_closed ≡ false
          → (ltb (length c.buffer) capacity ≡ true) ⊎ (ltb (length c.buffer) capacity ≡ false)
          → Sent (c ∷ cs) (send e k (c ∷ cs))
      here same open_now (inl room) = record {
        after = record c { buffer = c.buffer ++ e ∷ [] } ∷ cs;
        result = rw (same, open_now, room);
        still_open = λ j. refl;
        buffered = (ground (arith, length-append c.buffer (e ∷ [])), h.1);
      }
      here same open_now (inr full) = record {
        after = c ∷ cs;
        result = rw (same, open_now, full);
        still_open = λ j. refl;
        buffered = h;
      }

  pub send_all-Sent :
      (e : ProbeEvent F64) (ks : List ℕ) (cs : List (Channel F64))
      → All (λ k. is_open k cs ≡ true) ks
      → Buffered cs
      → Sent cs (send_all e ks cs)
  unfolding send_all
  send_all-Sent e [] cs o h = record {
    after = cs;
    result = refl;
    still_open = λ j. refl;
    buffered = h;
  }
  send_all-Sent e (k ∷ ks) cs o h =
      let s = send-Sent e k cs o.0 h in
      let opens =
        All-map (λ j. is_open j cs ≡ true) (λ j. is_open j s.after ≡ true)
          (λ j x. s.still_open j ∙ x) ks o.1 in
      let t = send_all-Sent e ks s.after opens s.buffered in
      record {
        after = t.after;
        result = rw (s.result) t.result;
        still_open = λ j. t.still_open j ∙ s.still_open j;
        buffered = t.buffered;
      }

  -- `k` alone is closed in `cs'`.
  pub record Closed (k : ℕ) (cs : List (Channel F64)) (r : Option (List (Channel F64)))
      : Type 0 where
    pub after : List (Channel F64)
    pub result : r ≡ some after
    pub others_open : (j : ℕ) → (j == k) ≡ false → is_open j after ≡ is_open j cs
    pub shut : is_open k after ≡ false
    pub buffered : Buffered after

  pub close-Closed :
      (k : ℕ) (cs : List (Channel F64))
      → is_open k cs ≡ true
      → Buffered cs
      → Closed k cs (close k cs)
  unfolding close
  close-Closed k [] o h = cc
  close-Closed k (c ∷ cs) o h = elim (Bool-cases (c.id == k)) [
    | inl same ↦ here same (ground arith)
    | inr other ↦ later other (close-Closed k cs (rw other at o) h.1)
  ]
    where
      here : (c.id == k) ≡ true → c.is_closed ≡ false → Closed k (c ∷ cs) (close k (c ∷ cs))
      here same open_now = record {
        after = record c { is_closed = true } ∷ cs;
        result = rw (same, open_now);
        others_open = λ j ne. ground arith;
        shut = rw same;
        buffered = h;
      }

      later : (c.id == k) ≡ false → Closed k cs (close k cs) → Closed k (c ∷ cs) (close k (c ∷ cs))
      later other s = record {
        after = c ∷ s.after;
        result = rw (other, s.result);
        others_open = λ j ne. rw (s.others_open j ne);
        shut = rw (other, s.shut);
        buffered = (h.0, s.buffered);
      }
