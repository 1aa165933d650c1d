-- ===== src/Multi/Slots.antt =====
-- The semaphore of pkg/probers/multi_prober.go: how many goroutines ping at once, and that they never
-- wait for each other for good.
use netping.Common.{
  ℕ, ◌+◌, ◌≤◌, ◌<◌, ◌≡◌, refl, Bool, true, false, List, [], ◌∷◌, Str, Floats, arith, ◌&&◌,
}
use netping.Stats.{Statistics}
use netping.Prober.{Attempt}
use netping.Multi.{
  MultiProberOptions, Phase, probing, backing, releasing, returned, Worker, judge_multi, after_ping,
  after_record, record_outcome, Move, returns, goes_on, takes, pings, wakes, is_cut, gives, records,
  pauses, leaves, Moves, here, there, Steps, stays, moves, stops, started,
}

module _ {F32 : Type 0} where
  -- Whether a goroutine has a slot.
  unfoldable pub holds : Phase F32 → ℕ
  holds (probing n) = 1
  holds (backing n a) = 1
  holds (releasing a) = 1
  holds _ = 0

  abbrev pub is_returned : Phase F32 → Bool
  is_returned returned = true
  is_returned _ = false

module _ {F32 F64 : Type 0} where
  -- The goroutines that have a slot, which those that ping are among.
  abbrev pub holders : List (Worker F32 F64) → ℕ
  holders [] = 0
  holders (w ∷ ws) = holds w.phase + holders ws

  abbrev pub all_returned : List (Worker F32 F64) → Bool
  all_returned [] = true
  all_returned (w ∷ ws) = is_returned w.phase && all_returned ws

  holders-started : (ss : List (Statistics F32 F64)) → holders (started ss) ≡ 0
  unfolding holds
  holders-started [] = refl
  holders-started (s ∷ ss) = omega (arith, holders-started ss)

module _ {F32 F64 : Type 0} (fl : Floats F32 F64) (sla_text : F32 → F64 → Str)
    (o : MultiProberOptions F64) where
  -- A step keeps the difference of the elements and the goroutines with a slot.
  abbrev Keeps : ℕ → ℕ → ℕ → ℕ → Type 0
  Keeps held slots held' slots' =
      (slots + held' ≡ slots' + held) × (slots ≤ o.concurrency → slots' ≤ o.concurrency)

  holds-after_ping : (n : ℕ) (a : Attempt F32) → holds (after_ping fl sla_text o n a) ≡ 1
  unfolding after_ping holds
  holds-after_ping n a = ground arith

  holds-after_record :
      (s : Statistics F32 F64) (seq : ℕ) → holds (after_record fl sla_text o s seq) ≡ 0
  unfolding after_record holds
  holds-after_record s seq = ground arith

  Move-Keeps :
      {b : Bool} {w w' : Worker F32 F64} {i j : ℕ}
      → 0 < o.concurrency
      → Move fl sla_text o b w i w' j
      → Keeps (holds w.phase) i (holds w'.phase) j
  unfolding holds
  Move-Keeps some_slots (returns e) = rw e (refl, λ h. h)
  Move-Keeps some_slots (goes_on e) = rw e (refl, λ h. h)
  Move-Keeps some_slots (takes e room) = rw e (ground arith, ground arith)
  Move-Keeps some_slots (pings n res e) =
      rw (e, holds-after_ping n (judge_multi fl sla_text o res)) (refl, λ h. h)
  Move-Keeps some_slots (wakes n a e) = rw e (refl, λ h. h)
  Move-Keeps some_slots (is_cut n a e) = rw e (refl, λ h. h)
  Move-Keeps some_slots (gives a e full) = rw e (ground arith, ground arith)
  Move-Keeps some_slots (records {w} now a e) =
      rw (e, holds-after_record (record_outcome fl sla_text o now a w.stats) w.seq) (refl, λ h. h)
  Move-Keeps some_slots (pauses e) = rw e (refl, λ h. h)
  Move-Keeps some_slots (leaves e) = rw e (refl, λ h. h)

  Moves-Keeps :
      {b : Bool} {ws ws' : List (Worker F32 F64)} {i j : ℕ}
      → 0 < o.concurrency
      → Moves fl sla_text o b ws i ws' j
      → Keeps (holders ws) i (holders ws') j
  Moves-Keeps some_slots (here m) = let h = Move-Keeps some_slots m in (omega (arith, h.0), h.1)
  Moves-Keeps some_slots (there m) = let h = Moves-Keeps some_slots m in (omega (arith, h.0), h.1)

  Steps-Keeps :
      {b c : Bool} {vs ws : List (Worker F32 F64)} {i j n : ℕ}
      → 0 < o.concurrency
      → i ≡ holders vs
      → i ≤ o.concurrency
      → Steps fl sla_text o b vs i n c ws j
      → (j ≡ holders ws) × (j ≤ o.concurrency)
  Steps-Keeps some_slots e h stays = (e, h)
  Steps-Keeps some_slots e h (moves run m) =
      let before = Steps-Keeps some_slots e h run in
      let k = Moves-Keeps some_slots m in (omega (arith, before.0, k.0), k.1 before.1)
  Steps-Keeps some_slots e h (stops run) = Steps-Keeps some_slots e h run

  -- With a limit of concurrency, the elements of the semaphore's channel are at all times as many as
  -- the goroutines between their send and their receive, and no more than the limit: at most that
  -- many goroutines ping or wait for a retry, however the goroutines are scheduled.
  pub Steps-holders :
      {b : Bool} {ws : List (Worker F32 F64)} {n slots : ℕ} (ss : List (Statistics F32 F64))
      → 0 < o.concurrency
      → Steps fl sla_text o false (started ss) 0 n b ws slots
      → (slots ≡ holders ws) × (holders ws ≤ o.concurrency)
  Steps-holders ss some_slots run =
      let h = Steps-Keeps some_slots (omega (arith, holders-started ss)) (omega arith) run in
      (h.0, omega (arith, h.0, h.1))
