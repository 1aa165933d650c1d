-- ===== src/Examples/Parallel.antt =====
-- The theorems on the goroutines of several targets at a concrete run.
use netping.Common.{
  ℕ, ◌+◌, ◌*◌, ◌≡◌, ◌≤◌, ◌⊎◌, refl, Str, codes, true, false, none, List, [], ◌∷◌, arith, inc,
  length, pos, second, millisecond,
}
use netping.Stats.{Statistics, new_statistics}
use netping.Prober.{rounds}
use netping.Multi.{
  MultiProberOptions, Worker, acquiring, probing, goes_on, takes, here, there, Steps, stays, moves,
  started,
}
use netping.Multi.Slots.{holders, all_returned, Steps-holders}
use netping.Multi.Progress.{SomeMove, Steps-SomeMove}
use netping.Multi.Runs.{AreFresh, AreCounted, Steps-bounded, Steps-IsCounted}
use netping.Examples.{naturals, target, answer}

-- three probes of each target, one at a time
abbrev one_at_a_time : MultiProberOptions ℕ
one_at_a_time = record {
  probe_count = 3;
  interval = pos second;
  timeout = pos second;
  concurrency = 1;
  show_diags = false;
  no_color = true;
  quiet_mode = false;
  with_timestamp = false;
  show_source_address = false;
  show_failures_only = false;
  max_latency = 0;
  max_consecutive_fails = 0;
  retries = 2;
  initial_retry_backoff = pos millisecond;
  max_retry_backoff = pos second;
  retry_jitter = false;
  hide_live_logs = true;
}

abbrev too_slow : ℕ → ℕ → Str
too_slow rtt limit = codes "latency SLA breached"

abbrev two_targets : List (Statistics ℕ ℕ)
two_targets = new_statistics naturals 5 target ∷ new_statistics naturals 6 target ∷ []

two_targets-AreFresh : AreFresh two_targets
unfolding new_statistics
two_targets-AreFresh = ((refl, refl), ((refl, refl), tt))

-- both goroutines at work: the first has the slot, the second is at the semaphore
abbrev at_work : List (Worker ℕ ℕ)
at_work =
    record { phase = probing 0; seq = inc 0; stats = new_statistics naturals 5 target }
    ∷ record { phase = acquiring; seq = 0; stats = new_statistics naturals 6 target }
    ∷ []

three-Steps : Steps naturals too_slow one_at_a_time false (started two_targets) 0 3 false at_work 1
three-Steps =
    moves (moves (moves stays (here (goes_on refl))) (there (here (goes_on refl))))
      (here (takes refl refl))

Steps-holders_example : (1 ≡ holders at_work) × (holders at_work ≤ 1)
Steps-holders_example =
    Steps-holders naturals too_slow one_at_a_time two_targets (omega arith) three-Steps

Steps-SomeMove_example :
    (all_returned at_work ≡ true) ⊎ SomeMove naturals too_slow one_at_a_time false at_work 1
Steps-SomeMove_example =
    Steps-SomeMove naturals too_slow one_at_a_time two_targets (answer 7 none) three-Steps

Steps-bounded_example : 3 ≤ length two_targets * (3 * (2 * rounds 2 + 6) + 2) + 1
Steps-bounded_example =
    Steps-bounded naturals too_slow one_at_a_time two_targets (omega arith) (omega arith)
      two_targets-AreFresh three-Steps

Steps-IsCounted_example : AreCounted naturals too_slow one_at_a_time false at_work
Steps-IsCounted_example =
    Steps-IsCounted naturals too_slow one_at_a_time two_targets (omega arith) (omega arith)
      two_targets-AreFresh three-Steps
