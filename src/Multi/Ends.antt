-- ===== src/Multi/Ends.antt =====
-- What a goroutine of pkg/probers/multi_prober.go counts, and how far it is from its end.
use netping.Common.{
  ℕ, suc, ◌+◌, ◌-◌, ◌*◌, ◌≤◌, ◌<◌, ◌≡◌, refl, ap, ◌⊎◌, inl, inr, Bool, true, ◌&&◌, ltb, leb, Str,
  Time, Floats, arith, inc, inc_small, two64, if_cases,
}
use netping.Stats.{Statistics, record_success, record_failure}
use netping.Prober.{Attempt, rounds}
use netping.Multi.{
  MultiProberOptions, Phase, checking, acquiring, probing, backing, releasing, recording, pausing,
  returned, Worker, at, after_ping, after_record, record_outcome, recorded, Move, returns, goes_on,
  takes, pings, wakes, is_cut, gives, records, pauses, leaves,
}
use netping.Multi.Slots.{is_returned}

module _ {F32 : Type 0} where
  -- Whether a probe is counted in `seq` and not yet in the statistics.
  unfoldable pub in_flight : Phase F32 → ℕ
  in_flight (probing n) = 1
  in_flight (backing n a) = 1
  in_flight (releasing a) = 1
  in_flight (recording a) = 1
  in_flight _ = 0

  -- Whether a goroutine may come to count another probe.
  unfoldable pub goes_again : Phase F32 → ℕ
  goes_again checking = 1
  goes_again acquiring = 1
  goes_again pausing = 1
  goes_again _ = 0

  -- The attempts so far, where a retry is due.
  unfoldable pub tries : Phase F32 → ℕ
  tries (probing n) = n
  tries (backing n a) = suc n
  tries _ = 0

  -- How far a goroutine is from the end of its round, for `r` retries.
  unfoldable pub rank : ℕ → Phase F32 → ℕ
  rank r checking = 2
  rank r acquiring = 1
  rank r (probing n) = 6 + 2 * (r - n)
  rank r (backing n a) = 5 + 2 * (r - n)
  rank r (releasing a) = 5
  rank r (recording a) = 4
  rank r pausing = 3
  rank r returned = 0

round_cost :
    (c s r : ℕ)
    → s < c
    → (c - (s + 1)) * (2 * r + 6) + (6 + 2 * (r - 0)) < (c - s) * (2 * r + 6) + 1
round_cost c s r h = let e : c - s ≡ suc (c - (s + 1)) = omega arith in rw e (product (c - (s + 1)))
  where
    product : (d : ℕ) → d * (2 * r + 6) + (6 + 2 * (r - 0)) < suc d * (2 * r + 6) + 1
    product d = omega arith

module _ {F32 F64 : Type 0} (fl : Floats F32 F64) (sla_text : F32 → F64 → Str)
    (o : MultiProberOptions F64) where
  -- The steps that a goroutine has left at most.
  unfoldable pub measure : Worker F32 F64 → ℕ
  measure w = (o.probe_count - w.seq) * (2 * rounds o.retries + 6) + rank (rounds o.retries) w.phase

  -- A goroutine within its limits: it has counted no more probes than it is to make, and its
  -- statistics have an outcome for each of them but the one in flight; if it has returned, there was
  -- a cancellation or a limit of failures, or it has made all of its probes.
  pub record IsCounted (b : Bool) (w : Worker F32 F64) : Type 0 where
    pub below : w.seq + goes_again w.phase ≤ o.probe_count
    pub retried : tries w.phase ≤ rounds o.retries
    pub counted :
        w.stats.total_successful_probes + w.stats.total_unsuccessful_probes + in_flight w.phase
        ≡ w.seq
    pub ended :
        is_returned w.phase ≡ true
        → (b ≡ true) ⊎ ((0 < o.max_consecutive_fails) ⊎ (w.seq ≡ o.probe_count))

  outcome :
      (now : Time) (a : Attempt F32) (s : Statistics F32 F64)
      → s.total_successful_probes + s.total_unsuccessful_probes + 1 < two64
      → let t = record_outcome fl sla_text o now a s in
        t.total_successful_probes + t.total_unsuccessful_probes
        ≡ s.total_successful_probes + s.total_unsuccessful_probes + 1
  unfolding record_outcome record_success record_failure inc
  outcome now a s h = ground arith

  abbrev pub Good : Bool → Worker F32 F64 → Worker F32 F64 → Type 0
  Good b w w' = IsCounted b w' × (measure w' < measure w)

  -- A step that only goes on to the phase `q`.
  at-Good :
      {b : Bool} (w : Worker F32 F64) {p : Phase F32} (q : Phase F32)
      → w.phase ≡ p
      → IsCounted b w
      → goes_again q ≤ goes_again p
      → (tries p ≤ rounds o.retries → tries q ≤ rounds o.retries)
      → in_flight q ≡ in_flight p
      → (is_returned q ≡ true → b ≡ true)
      → (tries p ≤ rounds o.retries → rank (rounds o.retries) q < rank (rounds o.retries) p)
      → Good b w (at q w)
  unfolding measure
  at-Good w q e h again tried flight ends nearer =
      let a = ap goes_again e in
      let t = ap tries e in
      let f = ap in_flight e in
      let r = ap (rank (rounds o.retries)) e in
      let k = nearer (omega (arith, h.retried, t)) in
      (
        record {
          below = omega (arith, h.below, a);
          retried = tried (omega (arith, h.retried, t));
          counted = omega (arith, h.counted, f);
          ended = λ x. inl (ends x);
        },
        omega (arith, r, k),
      )

  takes-Good :
      {b : Bool} (w : Worker F32 F64)
      → o.probe_count < two64
      → w.phase ≡ acquiring
      → IsCounted b w
      → Good b w (record w { phase = probing 0; seq = inc w.seq })
  unfolding measure goes_again tries in_flight rank
  takes-Good w small e h =
      let a : goes_again w.phase ≡ 1 = ap goes_again e in
      let f : in_flight w.phase ≡ 0 = ap in_flight e in
      let r : rank (rounds o.retries) w.phase ≡ 1 = ap (rank (rounds o.retries)) e in
      let i : inc w.seq ≡ w.seq + 1 = inc_small w.seq (omega (arith, h.below, a)) in
      let cost = round_cost o.probe_count w.seq (rounds o.retries) (omega (arith, h.below, a)) in
      (
        record {
          below = omega (arith, h.below, a, i);
          retried = omega arith;
          counted = omega (arith, h.counted, f, i);
          ended = λ x. cc;
        },
        rw i (omega (arith, cost, r)),
      )

  pings-Good :
      {b : Bool} (w : Worker F32 F64) (n : ℕ) (a : Attempt F32)
      → w.phase ≡ probing n
      → IsCounted b w
      → Good b w (at (after_ping fl sla_text o n a) w)
  unfolding after_ping goes_again tries in_flight rank
  pings-Good {b} w n a e h =
      if_cases (λ q. Good b w (at q w)) (a.is_failure && ltb n (rounds o.retries))
        (λ c.
          let k : n < rounds o.retries = ground arith in
          at-Good w (backing n a) e h (omega arith) (λ t. omega arith) refl (λ x. cc)
            (λ t. omega arith))
        (λ c.
          at-Good w (releasing a) e h (omega arith) (λ t. omega arith) refl (λ x. cc)
            (λ t. omega arith))

  recorded_at :
      {b : Bool} (w : Worker F32 F64) (t : Statistics F32 F64) (a : Attempt F32) (q : Phase F32)
      → w.phase ≡ recording a
      → t.total_successful_probes + t.total_unsuccessful_probes ≡ w.seq
      → w.seq + goes_again q ≤ o.probe_count
      → tries q ≡ 0
      → in_flight q ≡ 0
      → (is_returned q ≡ true → (0 < o.max_consecutive_fails) ⊎ (w.seq ≡ o.probe_count))
      → rank (rounds o.retries) q < 4
      → Good b w (record { phase = q; seq = w.seq; stats = t })
  unfolding measure rank
  recorded_at w t a q e total below tried flight ended nearer =
      let r = ap (rank (rounds o.retries)) e in
      (
        record {
          below = below;
          retried = omega (arith, tried);
          counted = omega (arith, total, flight);
          ended = λ x. inr (ended x);
        },
        omega (arith, r, nearer),
      )

  records-Good :
      {b : Bool} (w : Worker F32 F64) (now : Time) (a : Attempt F32)
      → 0 < o.probe_count
      → o.probe_count < two64
      → w.phase ≡ recording a
      → IsCounted b w
      → Good b w (recorded fl sla_text o now a w)
  unfolding after_record goes_again tries in_flight rank
  records-Good {b} w now a some_probe small e h =
      if_cases (λ q. Good b w (record { phase = q; seq = w.seq; stats = t }))
        (ltb 0 o.max_consecutive_fails && leb o.max_consecutive_fails t.ongoing_unsuccessful_probes)
        (λ c.
          recorded_at w t a returned e total (omega (arith, below)) refl refl
            (λ x. inl (ground arith)) (omega arith))
        (λ c.
          if_cases (λ q. Good b w (record { phase = q; seq = w.seq; stats = t }))
            (ltb 0 o.probe_count && leb o.probe_count w.seq)
            (λ d.
              recorded_at w t a returned e total (omega (arith, below)) refl refl
                (λ x. inr (ground (arith, below))) (omega arith))
            (λ d.
              recorded_at w t a pausing e total (ground arith) refl refl (λ x. cc) (omega arith)))
    where
      t : Statistics F32 F64
      t = record_outcome fl sla_text o now a w.stats

      below : w.seq ≤ o.probe_count
      below = omega (arith, h.below)

      one : in_flight w.phase ≡ 1
      one = unfold in_flight in ap in_flight e

      total : t.total_successful_probes + t.total_unsuccessful_probes ≡ w.seq
      total =
          omega
            (arith, outcome now a w.stats (omega (arith, h.counted, one, below)), h.counted, one)

  pub Move-Good :
      {b : Bool} {w w' : Worker F32 F64} {i j : ℕ}
      → 0 < o.probe_count
      → o.probe_count < two64
      → Move fl sla_text o b w i w' j
      → IsCounted b w
      → Good b w w'
  unfolding goes_again tries in_flight rank
  Move-Good some_probe small (returns {w} e) h =
      at-Good w returned e h (omega arith) (λ t. omega arith) refl (λ x. refl) (λ t. omega arith)
  Move-Good some_probe small (goes_on {w} e) h =
      at-Good w acquiring e h (omega arith) (λ t. omega arith) refl (λ x. cc) (λ t. omega arith)
  Move-Good some_probe small (takes {w} e room) h = takes-Good w small e h
  Move-Good some_probe small (pings {w} n res e) h = pings-Good w n _ e h
  Move-Good some_probe small (wakes {w} n a e) h =
      at-Good w (probing (n + 1)) e h (omega arith) (λ t. omega arith) refl (λ x. cc)
        (λ t. omega arith)
  Move-Good some_probe small (is_cut {w} n a e) h =
      at-Good w (releasing a) e h (omega arith) (λ t. omega arith) refl (λ x. cc) (λ t. omega arith)
  Move-Good some_probe small (gives {w} a e full) h =
      at-Good w (recording a) e h (omega arith) (λ t. omega arith) refl (λ x. cc) (λ t. omega arith)
  Move-Good some_probe small (records {w} now a e) h = records-Good w now a some_probe small e h
  Move-Good some_probe small (pauses {w} e) h =
      at-Good w checking e h (omega arith) (λ t. omega arith) refl (λ x. cc) (λ t. omega arith)
  Move-Good some_probe small (leaves {w} e) h =
      at-Good w returned e h (omega arith) (λ t. omega arith) refl (λ x. refl) (λ t. omega arith)
