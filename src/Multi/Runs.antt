-- ===== src/Multi/Runs.antt =====
-- Whole runs of pkg/probers/multi_prober.go: what the goroutines have counted, and that they end.
use netping.Common.{
  ℕ, suc, ◌+◌, ◌-◌, ◌*◌, ◌≤◌, ◌<◌, ◌≡◌, refl, inl, Bool, true, false, List, [], ◌∷◌, Str, Floats,
  arith, two64, All, All-map, length,
}
use netping.Stats.{Statistics}
use netping.Prober.{rounds}
use netping.Multi.{
  MultiProberOptions, Worker, Moves, here, there, Steps, stays, moves, stops, started,
}
use netping.Multi.Ends.{measure, IsCounted, Move-Good, in_flight, goes_again, tries, rank}

-- Statistics in which no outcome is recorded yet.
abbrev pub AreFresh : {F32 F64 : Type 0} → List (Statistics F32 F64) → Type 0
AreFresh ss = All (λ s. (s.total_successful_probes ≡ 0) × (s.total_unsuccessful_probes ≡ 0)) ss

module _ {F32 F64 : Type 0} (fl : Floats F32 F64) (sla_text : F32 → F64 → Str)
    (o : MultiProberOptions F64) where
  abbrev pub AreCounted : Bool → List (Worker F32 F64) → Type 0
  AreCounted b ws = All (IsCounted fl sla_text o b) ws

  abbrev measures : List (Worker F32 F64) → ℕ
  measures [] = 0
  measures (w ∷ ws) = measure fl sla_text o w + measures ws

  Moves-AreCounted :
      {b : Bool} {ws ws' : List (Worker F32 F64)} {i j : ℕ}
      → 0 < o.probe_count
      → o.probe_count < two64
      → Moves fl sla_text o b ws i ws' j
      → AreCounted b ws
      → AreCounted b ws' × (measures ws' < measures ws)
  Moves-AreCounted some_probe small (here m) h =
      let g = Move-Good fl sla_text o some_probe small m h.0 in ((g.0, h.1), omega (arith, g.1))
  Moves-AreCounted some_probe small (there m) h =
      let g = Moves-AreCounted some_probe small m h.1 in ((h.0, g.0), omega (arith, g.1))

  stopped-IsCounted :
      (w : Worker F32 F64) → IsCounted fl sla_text o false w → IsCounted fl sla_text o true w
  stopped-IsCounted w h = record {
    below = h.below;
    retried = h.retried;
    counted = h.counted;
    ended = λ x. inl refl;
  }

  -- the step that is left for the cancellation
  abbrev to_stop : Bool → ℕ
  to_stop true = 0
  to_stop false = 1

  Steps-AreCounted :
      {b c : Bool} {vs ws : List (Worker F32 F64)} {i j n : ℕ}
      → 0 < o.probe_count
      → o.probe_count < two64
      → AreCounted b vs
      → Steps fl sla_text o b vs i n c ws j
      → AreCounted c ws × (n + measures ws + to_stop c ≤ measures vs + to_stop b)
  Steps-AreCounted some_probe small h stays = (h, omega arith)
  Steps-AreCounted some_probe small h (moves run m) =
      let k = Steps-AreCounted some_probe small h run in
      let l = Moves-AreCounted some_probe small m k.0 in (l.0, omega (arith, k.1, l.1))
  Steps-AreCounted some_probe small h (stops {us} run) =
      let k = Steps-AreCounted some_probe small h run in
      (
        All-map (IsCounted fl sla_text o false) (IsCounted fl sla_text o true) stopped-IsCounted us
            k.0,
        omega (arith, k.1),
      )

  started-AreCounted :
      (ss : List (Statistics F32 F64))
      → 0 < o.probe_count
      → AreFresh ss
      → AreCounted false (started ss)
  unfolding in_flight goes_again tries
  started-AreCounted [] some_probe h = tt
  started-AreCounted (s ∷ ss) some_probe h = (
    record {
      below = omega arith;
      retried = omega arith;
      counted = omega (arith, h.0.0, h.0.1);
      ended = λ x. cc;
    },
    started-AreCounted ss some_probe h.1,
  )

  measures-started :
      (ss : List (Statistics F32 F64))
      → measures (started ss) ≡ length ss * (o.probe_count * (2 * rounds o.retries + 6) + 2)
  unfolding measure rank
  measures-started [] = omega arith
  measures-started (s ∷ ss) =
      let z : o.probe_count - 0 ≡ o.probe_count = omega arith in
      rw z (
        one_more (length ss) (o.probe_count * (2 * rounds o.retries + 6)) (measures (started ss))
          (measures-started ss))
    where
      one_more : (l k m : ℕ) → m ≡ l * (k + 2) → k + 2 + m ≡ suc l * (k + 2)
      one_more l k m h = omega (arith, h)

  -- A run with a number of probes to make (below 2^64), over fresh statistics, ends: whatever the
  -- pings answer and however the goroutines are scheduled, C probes with R retries take the T
  -- goroutines no more than T * (C * (2 * R + 6) + 2) steps, and one for the cancellation.
  pub Steps-bounded :
      {b : Bool} {ws : List (Worker F32 F64)} {n slots : ℕ} (ss : List (Statistics F32 F64))
      → 0 < o.probe_count
      → o.probe_count < two64
      → AreFresh ss
      → Steps fl sla_text o false (started ss) 0 n b ws slots
      → n ≤ length ss * (o.probe_count * (2 * rounds o.retries + 6) + 2) + 1
  Steps-bounded ss some_probe small fresh run =
      let k = Steps-AreCounted some_probe small (started-AreCounted ss some_probe fresh) run in
      omega (arith, k.1, measures-started ss)

  -- At each moment of a run with a number of probes to make (below 2^64), over fresh statistics, no
  -- goroutine has made more probes than that; the successes and failures in its statistics are all
  -- the probes that it has counted, but for one in flight; and where it has returned, the run was
  -- cancelled, or there is a limit of failures, or it has made all of its probes.
  pub Steps-IsCounted :
      {b : Bool} {ws : List (Worker F32 F64)} {n slots : ℕ} (ss : List (Statistics F32 F64))
      → 0 < o.probe_count
      → o.probe_count < two64
      → AreFresh ss
      → Steps fl sla_text o false (started ss) 0 n b ws slots
      → AreCounted b ws
  Steps-IsCounted ss some_probe small fresh run =
      (Steps-AreCounted some_probe small (started-AreCounted ss some_probe fresh) run).0
