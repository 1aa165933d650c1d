-- ===== src/Examples/Probing.antt =====
-- The theorems on the probing loop at concrete inputs.
use netping.Common.{ℕ, ◌-◌, ◌≤◌, ◌<◌, ◌≡◌, refl, true, List, [], ◌∷◌, pos, two63, arith}
use netping.Stats.{new_statistics}
use netping.Prober.{
  new_prober, tick, cancelled, probe, attempt, judge, retry_loop, retry_round, on_tick,
}
use netping.Prober.Ledger.{ledger}
use netping.Prober.Tick.{Outcome, recorded, attempt_of, on_tick-Outcome}
use netping.Prober.Retry.{IsJudged, attempt-IsJudged, attempt_pings, attempt_pings_used_up}
use netping.Prober.Limits.{probe_returns}
use netping.Prober.Outage.{IsFresh, IsAccounted, run_of, probe_accounts, probe_cancelled_at_once}
use netping.Examples.{naturals, outside, prober}

fresh : (retries limit : ℕ) → IsFresh (ledger (prober retries limit).statistics)
unfolding new_prober new_statistics
fresh retries limit = record {
  is_down = refl;
  down_since = refl;
  up_since = refl;
  downtime = refl;
  uptime = refl;
}

abbrev three_ticks : List netping.Prober.Signal
three_ticks = tick 100 ∷ tick 200 ∷ tick 300 ∷ []

probe_returns_example : (probe naturals outside three_ticks (prober 1 3) 0).0.1 ≡ true
probe_returns_example =
    probe_returns naturals outside three_ticks (prober 1 3) 0 (unfold new_prober in omega arith)
      (unfold new_prober in omega arith) (unfold new_prober in omega arith)

probe_accounts_example :
    IsAccounted naturals outside
      (run_of naturals outside three_ticks (prober 1 3) 0 [])
      (probe naturals outside three_ticks (prober 1 3) 0)
probe_accounts_example = probe_accounts naturals outside three_ticks (prober 1 3) 0 (fresh 1 3)

probe_cancelled_at_once_example :
    let r = probe naturals outside (cancelled ∷ []) (prober 0 0) 0 in
    (r.0.1 ≡ true) × (r.0.0.statistics.total_uptime ≡ pos (two63 - 1))
probe_cancelled_at_once_example =
    probe_cancelled_at_once naturals outside [] (prober 0 0) 0 (fresh 0 0) (omega arith)

on_tick-Outcome_example :
    let p = prober 1 3 in
    Outcome naturals outside p
      (attempt_of naturals outside p 0).0.is_failure
      (recorded 100 (attempt_of naturals outside p 0).0.is_failure (ledger p.statistics))
      (on_tick naturals outside 100 p 0)
on_tick-Outcome_example = on_tick-Outcome naturals outside 100 (prober 1 3) 0

attempt-IsJudged_example : IsJudged naturals outside 0 (attempt naturals outside (prober 1 3) 0).0
unfolding new_prober
attempt-IsJudged_example = attempt-IsJudged naturals outside (prober 1 3) 0

attempt_pings_example :
    (0 < (attempt naturals outside (prober 5 0) 0).1)
    × ((attempt naturals outside (prober 5 0) 0).1 ≤ 6)
unfolding new_prober
attempt_pings_example =
    attempt_pings naturals outside (λ w. w) (λ d w. refl) (λ d w. refl) (λ w. refl) (prober 5 0) 0
      (unfold new_prober in omega arith)

attempt_pings_used_up_example : (attempt naturals outside (prober 2 0) 0).1 ≡ 3
unfolding attempt judge retry_loop retry_round new_prober
attempt_pings_used_up_example =
    attempt_pings_used_up naturals outside (λ w. w) (λ d w. refl) (λ d w. refl) (λ w. refl)
      (prober 2 0) 0 (unfold new_prober in omega arith) (λ d w. refl) refused_again
  where
    refused_again : (attempt naturals outside (prober 2 0) 0).0.is_failure ≡ true
    refused_again = refl
