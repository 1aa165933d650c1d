-- ===== src/Prober/Limits.antt =====
-- When the probing loop ends, and what a probe counts (pkg/probers/probers.go).
use netping.Prober.Ledger.{ledger}
use netping.Prober.Tick.{Outcome, recorded, finish_flag, attempt_of, on_tick-Outcome}
use netping.Common.{
  ◌+◌, ◌≤◌, ◌<◌, ◌≡◌, ◌⊎◌, refl, ap, ◌∙◌, Bool, true, List, [], ◌∷◌, two64, inc, inc_small, Floats,
  length, arith, if◌then◌else◌, inl, inr,
}
use netping.Prober.{World, Prober, Signal, cancelled, tick, on_tick, probe}

module _ {F32 F64 W : Type 0} (fl : Floats F32 F64) (world : World F32 F64 W) where
  -- With a limit of probes that is not yet reached, `Probe` returns, whatever the pings, the sleeps
  -- and the resolver do, once it has received as many signals as there are probes left to the
  -- limit.
  pub probe_returns :
      (signals : List Signal) (p : Prober F32 F64) (w : W)
      → p.probe_count < p.opts.probes_before_quit
      → p.opts.probes_before_quit < two64
      → p.opts.probes_before_quit ≤ p.probe_count + length signals
      → (probe fl world signals p w).0.1 ≡ true
  unfolding probe
  probe_returns [] p w below small enough = absurd (omega arith)
  probe_returns (cancelled ∷ signals) p w below small enough = finish_flag fl world p w
  probe_returns (tick t ∷ signals) p w below small enough =
      next (on_tick-Outcome fl world t p w)
        (probe_returns signals (on_tick fl world t p w).0.0 (on_tick fl world t p w).1)
    where
      r : (Prober F32 F64 × Bool) × W
      r = on_tick fl world t p w

      counts :
          r.0.0.opts.probes_before_quit ≡ p.opts.probes_before_quit
          → (p.opts.probes_before_quit ≡ 0)
            ⊎ ((r.0.0.probe_count ≡ inc p.probe_count)
                × (r.0.0.probe_count < p.opts.probes_before_quit))
          → (r.0.0.probe_count < r.0.0.opts.probes_before_quit
              → r.0.0.opts.probes_before_quit < two64
              → r.0.0.opts.probes_before_quit ≤ r.0.0.probe_count + length signals
              → (probe fl world signals r.0.0 r.1).0.1 ≡ true)
          → (probe fl world signals r.0.0 r.1).0.1 ≡ true
      counts same (inl unlimited) rest = absurd (omega arith)
      counts same (inr (counted, further)) rest =
          let step : r.0.0.probe_count ≡ p.probe_count + 1 =
            counted ∙ inc_small p.probe_count (omega arith) in
          rest (omega arith) (omega arith) (omega arith)

      next :
          Outcome fl world p
            (attempt_of fl world p w).0.is_failure
            (recorded t (attempt_of fl world p w).0.is_failure (ledger p.statistics))
            r
          → (r.0.0.probe_count < r.0.0.opts.probes_before_quit
              → r.0.0.opts.probes_before_quit < two64
              → r.0.0.opts.probes_before_quit ≤ r.0.0.probe_count + length signals
              → (probe fl world signals r.0.0 r.1).0.1 ≡ true)
          → (if r.0.1 then r else probe fl world signals r.0.0 r.1).0.1 ≡ true
      next (inr (flag, ends, due)) rest = rw flag refl
      next (inl (flag, g)) rest =
          let same : r.0.0.opts.probes_before_quit ≡ p.opts.probes_before_quit =
            ap (λ o. o.probes_before_quit) g.opts in
          rw flag (counts same g.counted rest)
