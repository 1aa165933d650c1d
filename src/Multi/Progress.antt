-- ===== src/Multi/Progress.antt =====
-- The goroutines of pkg/probers/multi_prober.go never block each other for good.
use netping.Common.{
  ℕ, zero, suc, ◌+◌, ◌≤◌, ◌<◌, ◌≡◌, refl, ◌⊎◌, inl, inr, Bool, true, false, ◌||◌, ◌==◌, ltb, List,
  [], ◌∷◌, Str, Floats, arith, Bool-cases, inc,
}
use netping.Stats.{Statistics}
use netping.Prober.{ProbeResult}
use netping.Multi.{
  MultiProberOptions, Phase, checking, acquiring, probing, backing, releasing, recording, pausing,
  returned, Worker, at, has_room, slot_given, slot_taken, judge_multi, after_ping, recorded, Move,
  returns, goes_on, takes, pings, wakes, gives, records, pauses, Moves, here, there, Steps, started,
}
use netping.Multi.Slots.{holds, holders, is_returned, all_returned, Steps-holders}

module _ {F32 F64 : Type 0} (fl : Floats F32 F64) (sla_text : F32 → F64 → Str)
    (o : MultiProberOptions F64) where
  -- A goroutine that has a step, and a row of goroutines one of which has a step.
  abbrev CanMove : Bool → Worker F32 F64 → ℕ → Type 0
  CanMove b w i = (w' : Worker F32 F64) × (j : ℕ) × Move fl sla_text o b w i w' j

  abbrev pub SomeMove : Bool → List (Worker F32 F64) → ℕ → Type 0
  SomeMove b ws i = (ws' : List (Worker F32 F64)) × (j : ℕ) × Moves fl sla_text o b ws i ws' j

  -- Where a receive from the semaphore's channel would block, no goroutine has a slot.
  abbrev HasSlots : ℕ → ℕ → Type 0
  HasSlots held slots = (o.concurrency ≡ 0) ⊎ (held ≤ slots)

  full : (slots : ℕ) → HasSlots 1 slots → (o.concurrency == 0 || ltb 0 slots) ≡ true
  full slots h = ground arith

  check_move : (b : Bool) (w : Worker F32 F64) (i : ℕ) → w.phase ≡ checking → CanMove b w i
  check_move true w i e = (at returned w, i, returns e)
  check_move false w i e = (at acquiring w, i, goes_on e)

  move_or_wait :
      (b : Bool) (res : ProbeResult) (w : Worker F32 F64) (i : ℕ) (p : Phase F32)
      → w.phase ≡ p
      → HasSlots (holds p) i
      → (is_returned p ≡ true) ⊎ (CanMove b w i ⊎ ((holds p ≡ 0) × (has_room o i ≡ false)))
  unfolding holds
  move_or_wait b res w i checking e h = inr (inl (check_move b w i e))
  move_or_wait b res w i acquiring e h = elim (Bool-cases (has_room o i)) [
    | inl room ↦
        inr (inl (record w { phase = probing 0; seq = inc w.seq }, slot_taken o i, takes e room))
    | inr none_left ↦ inr (inr (refl, none_left))
  ]
  move_or_wait b res w i (probing n) e h =
      inr
        (inl (at (after_ping fl sla_text o n (judge_multi fl sla_text o res)) w, i, pings n res e))
  move_or_wait b res w i (backing n a) e h = inr (inl (at (probing (n + 1)) w, i, wakes n a e))
  move_or_wait b res w i (releasing a) e h =
      inr (inl (at (recording a) w, slot_given o i, gives a e (full i h)))
  move_or_wait b res w i (recording a) e h =
      inr (inl (recorded fl sla_text o 0 a w, i, records 0 a e))
  move_or_wait b res w i pausing e h = inr (inl (at checking w, i, pauses e))
  move_or_wait b res w i returned e h = inl refl

  abbrev Blocked : List (Worker F32 F64) → ℕ → Type 0
  Blocked ws i = (holders ws ≡ 0) × (has_room o i ≡ false)

  returned-holds : (p : Phase F32) → is_returned p ≡ true → holds p ≡ 0
  unfolding holds
  returned-holds returned h = refl
  returned-holds checking h = refl
  returned-holds acquiring h = refl
  returned-holds (probing n) h = cc
  returned-holds (backing n a) h = cc
  returned-holds (releasing a) h = cc
  returned-holds (recording a) h = refl
  returned-holds pausing h = refl

  all_returned-holders : (ws : List (Worker F32 F64)) → all_returned ws ≡ true → holders ws ≡ 0
  all_returned-holders [] h = refl
  all_returned-holders (w ∷ ws) h =
      omega (arith, returned-holds w.phase (ground arith), all_returned-holders ws (ground arith))

  add :
      (b : Bool) (w : Worker F32 F64) (ws : List (Worker F32 F64)) (i : ℕ)
      → (is_returned w.phase ≡ true)
        ⊎ (CanMove b w i ⊎ ((holds w.phase ≡ 0) × (has_room o i ≡ false)))
      → (all_returned ws ≡ true) ⊎ (SomeMove b ws i ⊎ Blocked ws i)
      → (all_returned (w ∷ ws) ≡ true) ⊎ (SomeMove b (w ∷ ws) i ⊎ Blocked (w ∷ ws) i)
  add b w ws i (inl e) (inl f) = inl (rw (e, f) refl)
  add b w ws i (inl e) (inr (inl (ws', j, m))) = inr (inl (w ∷ ws', j, there m))
  add b w ws i (inl e) (inr (inr (none_held, none_left))) =
      inr (inr (omega (arith, returned-holds w.phase e), none_left))
  add b w ws i (inr (inl (w', j, m))) rest = inr (inl (w' ∷ ws, j, here m))
  add b w ws i (inr (inr (not_held, none_left))) (inl f) =
      inr (inr (omega (arith, all_returned-holders ws f), none_left))
  add b w ws i (inr (inr waits)) (inr (inl (ws', j, m))) = inr (inl (w ∷ ws', j, there m))
  add b w ws i (inr (inr (not_held, none_left))) (inr (inr (none_held, k))) =
      inr (inr (omega arith, none_left))

  SomeMove-or_wait :
      (b : Bool) (res : ProbeResult) (ws : List (Worker F32 F64)) (i : ℕ)
      → HasSlots (holders ws) i
      → (all_returned ws ≡ true) ⊎ (SomeMove b ws i ⊎ Blocked ws i)
  SomeMove-or_wait b res [] i h = inl refl
  SomeMove-or_wait b res (w ∷ ws) i h =
      add b w ws i (move_or_wait b res w i w.phase refl (less h))
        (SomeMove-or_wait b res ws i (rest h))
    where
      less : HasSlots (holds w.phase + holders ws) i → HasSlots (holds w.phase) i
      less (inl e) = inl e
      less (inr k) = inr (omega arith)

      rest : HasSlots (holds w.phase + holders ws) i → HasSlots (holders ws) i
      rest (inl e) = inl e
      rest (inr k) = inr (omega arith)

  -- As long as some goroutine has not returned, some goroutine can go on, however they were scheduled
  -- so far: they never deadlock at the semaphore. (A ping answers at some time, here with `res`.)
  pub Steps-SomeMove :
      {b : Bool} {ws : List (Worker F32 F64)} {n slots : ℕ} (ss : List (Statistics F32 F64))
      (res : ProbeResult)
      → Steps fl sla_text o false (started ss) 0 n b ws slots
      → (all_returned ws ≡ true) ⊎ SomeMove b ws slots
  Steps-SomeMove {b} {ws} {slots} ss res run = elim (none_or_some o.concurrency) [
    | inl none ↦ unblocked (inl none) (λ k. ground arith)
    | inr some_slots ↦
        let h = Steps-holders fl sla_text o ss some_slots run in
        unblocked (inr (omega (arith, h.0))) (λ k. ground (arith, h.0))
  ]
    where
      none_or_some : (c : ℕ) → (c ≡ 0) ⊎ (0 < c)
      none_or_some zero = inl refl
      none_or_some (suc c) = inr (omega arith)

      unblocked :
          HasSlots (holders ws) slots
          → (Blocked ws slots → ⊥)
          → (all_returned ws ≡ true) ⊎ SomeMove b ws slots
      unblocked h k = elim (SomeMove-or_wait b res ws slots h) [
        | inl done ↦ inl done
        | inr (inl step) ↦ inr step
        | inr (inr blocked) ↦ absurd (k blocked)
      ]
