-- ===== src/Prober/Tick.antt =====
-- What one tick of the probing loop does, on every path (pkg/probers/probers.go).
use netping.Prober.Ledger.{
  Ledger, ledger, failed, succeeded, finalized, ledger-fail, ledger-succeed, ledger-finalize,
}
use netping.Common.{
  ◌≤◌, ◌<◌, ◌≡◌, ◌⊎◌, subst, refl, ap, ◌∙◌, Bool, true, false, ◌&&◌, Time, inc, Floats, ltb, leb,
  arith, Bool-cases, if_cases, if◌then◌else◌, inl, inr,
}
use netping.Prober.{
  ProbeResult, on_probe_result, World, Prober, Attempt, attempt, before_ping, after_failures,
  after_failure, on_failure, on_success, finish, end_of_probe, on_tick, fail_statistics,
}

-- What a change of the prober leaves alone, when it is only about addresses.
pub record Keeps {F32 F64 : Type 0} (p q : Prober F32 F64) : Type 0 where
  pub opts : q.opts ≡ p.opts
  pub count : q.probe_count ≡ p.probe_count
  pub ledgers : ledger q.statistics ≡ ledger p.statistics

module _ {F32 F64 W : Type 0} (fl : Floats F32 F64) (world : World F32 F64 W) where
  pub before_ping-Keeps : (p : Prober F32 F64) (w : W) → Keeps p (before_ping fl world p w).0
  unfolding before_ping netping.Dns.retry_resolve_hostname
  before_ping-Keeps p w = ground arith

  pub after_failures-Keeps : (p : Prober F32 F64) (w : W) → Keeps p (after_failures fl world p w).0
  unfolding after_failures netping.Dns.retry_resolve_hostname
  after_failures-Keeps p w = ground arith

  on_failure-Keeps :
      (t : Time) (res : ProbeResult) (p : Prober F32 F64) (w : W)
      → Keeps
          (record p { statistics = fail_statistics fl world t res.err p.statistics })
          (on_failure fl world t res p w).0
  unfolding on_failure
  on_failure-Keeps t res p w = after_failures-Keeps _ _

-- The ledger after a probe with the given verdict.
abbrev pub recorded : Time → Bool → Ledger → Ledger
recorded t is_failure l = if is_failure then failed t l else succeeded t l

-- The loop goes on after a probe with the given verdict: `q` is the prober `p` with the ledger `l`,
-- below the limit of consecutive failures and below that of probes.
pub record GoesOn {F32 F64 : Type 0} (p q : Prober F32 F64) (is_failure : Bool) (l : Ledger)
    : Type 0 where
  pub opts : q.opts ≡ p.opts
  pub ledgers : ledger q.statistics ≡ l
  pub fails :
      (is_failure ≡ false)
      ⊎ (p.opts.max_consecutive_fails ≡ 0)
      ⊎ (l.ongoing_failure < p.opts.max_consecutive_fails)
  pub counted :
      (p.opts.probes_before_quit ≡ 0)
      ⊎ ((q.probe_count ≡ inc p.probe_count) × (q.probe_count < p.opts.probes_before_quit))

-- The loop has returned with the prober `q` and the outside `w`: the last thing that it did was to
-- read the clock, and it closed the ledger `l` at the time read.
pub record Ends {F32 F64 W : Type 0} (world : World F32 F64 W) (q : Prober F32 F64) (w : W)
    (l : Ledger) : Type 0 where
  pub read_at : W
  pub last_read : w ≡ (world.clock read_at).1
  pub ledgers : ledger q.statistics ≡ finalized (world.clock read_at).0 l

-- A limit is reached: that of consecutive failures, by a failure, or that of probes.
abbrev pub IsDue : {F32 F64 : Type 0} → Prober F32 F64 → Bool → Ledger → Type 0
IsDue p is_failure l =
    ((is_failure ≡ true)
      × (0 < p.opts.max_consecutive_fails)
      × (p.opts.max_consecutive_fails ≤ l.ongoing_failure))
    ⊎ ((0 < p.opts.probes_before_quit) × (p.opts.probes_before_quit ≤ inc p.probe_count))

module _ {F32 F64 W : Type 0} (fl : Floats F32 F64) (world : World F32 F64 W) where
  pub finish-Ends :
      (p : Prober F32 F64) (w : W)
      → Ends world (finish fl world p w).0.0 (finish fl world p w).1 (ledger p.statistics)
  unfolding finish
  finish-Ends p w = record {
    read_at = w;
    last_read = refl;
    ledgers = ledger-finalize fl world (world.clock w).0 p.statistics;
  }

  pub finish_flag : (p : Prober F32 F64) (w : W) → (finish fl world p w).0.1 ≡ true
  unfolding finish
  finish_flag p w = refl

  abbrev pub Outcome : Prober F32 F64 → Bool → Ledger → (Prober F32 F64 × Bool) × W → Type 0
  Outcome p is_failure l r =
      ((r.0.1 ≡ false) × GoesOn p r.0.0 is_failure l)
      ⊎ ((r.0.1 ≡ true) × Ends world r.0.0 r.1 l × IsDue p is_failure l)

  abbrev pub BelowFails : Prober F32 F64 → Bool → Ledger → Type 0
  BelowFails p is_failure l =
      (is_failure ≡ false)
      ⊎ (p.opts.max_consecutive_fails ≡ 0)
      ⊎ (l.ongoing_failure < p.opts.max_consecutive_fails)

  -- The outcome reads the options, the count and the ledger of the prober alone.
  Outcome-Keeps :
      (p p' : Prober F32 F64) (is_failure : Bool) (l : Ledger) (r : (Prober F32 F64 × Bool) × W)
      → p'.opts ≡ p.opts
      → p'.probe_count ≡ p.probe_count
      → ledger p'.statistics ≡ l
      → Outcome p' is_failure (ledger p'.statistics) r
      → Outcome p is_failure l r
  Outcome-Keeps p p' is_failure l r o c e h =
      subst (λ x. Outcome (record p { opts = x }) is_failure l r) o
        (subst (λ n. Outcome (record p { opts = p'.opts; probe_count = n }) is_failure l r) c
          (subst (λ k. Outcome p'' is_failure k r) e (forget h)))
    where
      p'' : Prober F32 F64
      p'' = record p { opts = p'.opts; probe_count = p'.probe_count }

      forget :
          Outcome p' is_failure (ledger p'.statistics) r
          → Outcome p'' is_failure (ledger p'.statistics) r
      forget (inl (flag, g)) = inl (
        flag,
        record { opts = g.opts; ledgers = g.ledgers; fails = g.fails; counted = g.counted },
      )
      forget (inr (flag, x, due)) = inr (flag, x, due)

  end_of_probe-Outcome :
      (res : ProbeResult) (p : Prober F32 F64) (w : W) (is_failure : Bool)
      → BelowFails p is_failure (ledger p.statistics)
      → Outcome p is_failure (ledger p.statistics) (end_of_probe fl world res p w)
  unfolding end_of_probe
  end_of_probe-Outcome res p w is_failure below_fails =
      if_cases {A = (Prober F32 F64 × Bool) × W} (Outcome p is_failure (ledger p.statistics))
        (ltb 0 p.opts.probes_before_quit)
        (λ limited.
          if_cases {A = (Prober F32 F64 × Bool) × W} (Outcome p is_failure (ledger p.statistics))
            (leb p.opts.probes_before_quit (inc p.probe_count))
            (λ reached. inr (finish_flag q w', finish-Ends q w', inr (ground arith, ground arith)))
            (λ below. inl (
              refl,
              record {
                opts = refl;
                ledgers = refl;
                fails = below_fails;
                counted = inr (refl, ground arith);
              },
            )))
        (λ unlimited. inl (
          refl,
          record { opts = refl; ledgers = refl; fails = below_fails; counted = inl (ground arith) },
        ))
    where
      q : Prober F32 F64
      q = record p { probe_count = inc p.probe_count }

      w' : W
      w' = if p.opts.has_callback then world.call (on_probe_result res) p.statistics w else w

  -- The prober that makes the ping of a tick, and its attempt.
  abbrev pub prepared : Prober F32 F64 → W → Prober F32 F64 × W
  prepared p w = before_ping fl world p w

  abbrev pub attempt_of : Prober F32 F64 → W → Attempt F32 × W
  attempt_of p w = attempt fl world (prepared p w).0 (prepared p w).1

  after_failure-Outcome :
      (res : ProbeResult) (p : Prober F32 F64) (w : W)
      → Outcome p true (ledger p.statistics) (after_failure fl world res p w)
  unfolding after_failure
  after_failure-Outcome res p w =
      if_cases {A = (Prober F32 F64 × Bool) × W} (Outcome p true (ledger p.statistics))
        (ltb 0 p.opts.max_consecutive_fails
          && leb p.opts.max_consecutive_fails p.statistics.ongoing_unsuccessful_probes)
        (λ reached. inr (finish_flag p w, finish-Ends p w, inl (refl, ground arith, ground arith)))
        (λ below. end_of_probe-Outcome res p w true (inr (ground arith)))

  failure_path :
      (t : Time) (res : ProbeResult) (p p1 : Prober F32 F64) (w : W)
      → Keeps p p1
      → let q = on_failure fl world t res p1 w in
        Outcome p true (failed t (ledger p.statistics)) (after_failure fl world res q.0 q.1)
  failure_path t res p p1 w k =
      let k2 = on_failure-Keeps fl world t res p1 w in
      let q = on_failure fl world t res p1 w in
      Outcome-Keeps p q.0 true (failed t (ledger p.statistics)) (after_failure fl world res q.0 q.1)
        (k2.opts ∙ k.opts) (k2.count ∙ k.count)
        (k2.ledgers ∙ ledger-fail fl world t res.err p1.statistics ∙ ap (failed t) k.ledgers)
        (after_failure-Outcome res q.0 q.1)

  success_path :
      (t : Time) (a : Attempt F32) (p p1 : Prober F32 F64) (w : W)
      → Keeps p p1
      → let q = on_success fl world t a p1 w in
        Outcome p false (succeeded t (ledger p.statistics)) (end_of_probe fl world a.res q.0 q.1)
  unfolding on_success
  success_path t a p p1 w k =
      let q = on_success fl world t a p1 w in
      Outcome-Keeps p q.0 false (succeeded t (ledger p.statistics))
        (end_of_probe fl world a.res q.0 q.1) k.opts k.count
        (ledger-succeed fl world t a.rtt_ms a.res p1.statistics ∙ ap (succeeded t) k.ledgers)
        (end_of_probe-Outcome a.res q.0 q.1 false (inl refl))

  -- One tick, on every path: the ledger after it is the ledger before it with exactly one failure
  -- or one success recorded, whichever the attempt of the tick was. If the loop goes on, it is below
  -- its limit of consecutive failures (after a failure) and its limit of probes, where they are set,
  -- and has counted the probe towards the latter; if it returns, one of the two limits is reached
  -- and the ledger is closed.
  pub on_tick-Outcome :
      (t : Time) (p : Prober F32 F64) (w : W)
      → let failed_now = (attempt_of p w).0.is_failure in
        Outcome p failed_now (recorded t failed_now (ledger p.statistics)) (on_tick fl world t p w)
  unfolding on_tick
  on_tick-Outcome t p w =
      let k = before_ping-Keeps fl world p w in
      let (p1, w1) = prepared p w in
      let (a, w2) = attempt_of p w in
      elim (Bool-cases (attempt_of p w).0.is_failure) [
        | inl e ↦ rw e (failure_path t a.res p p1 w2 k)
        | inr e ↦ rw e (success_path t a p p1 w2 k)
      ]
