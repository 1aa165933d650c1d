-- ===== src/Stats/Replay.antt =====
-- Histories of pkg/stats: a statistics record that started fresh, against the list of all outcomes
-- that were recorded in it, the newest first.
use netping.Common.{
  ℕ, suc, ◌+◌, ◌%◌, Str, ◌≡◌, refl, List, [], ◌∷◌, ◌++◌, Time, two64, inc, add_u64, Addr, Floats,
  length, arith,
}
use netping.Stats.{Statistics, Options, new_statistics, record_success, record_failure, snapshot}

-- One call of `RecordSuccess` or of `RecordFailure`.
pub data Outcome (F32 : Type 0) : Type 0 where
  success : F32 → Time → Outcome F32
  failure : Str → Time → Outcome F32

module _ {F32 : Type 0} where
  abbrev pub successes : List (Outcome F32) → ℕ
  successes [] = 0
  successes (success r t ∷ os) = suc (successes os)
  successes (failure e t ∷ os) = successes os

  abbrev pub failures : List (Outcome F32) → ℕ
  failures [] = 0
  failures (success r t ∷ os) = failures os
  failures (failure e t ∷ os) = suc (failures os)

  -- How many of the newest outcomes are successes, and how many are failures.
  abbrev pub success_streak : List (Outcome F32) → ℕ
  success_streak [] = 0
  success_streak (success r t ∷ os) = suc (success_streak os)
  success_streak (failure e t ∷ os) = 0

  abbrev pub failure_streak : List (Outcome F32) → ℕ
  failure_streak [] = 0
  failure_streak (success r t ∷ os) = 0
  failure_streak (failure e t ∷ os) = suc (failure_streak os)

  -- The round-trip times of the successes, the oldest first.
  abbrev pub samples : List (Outcome F32) → List F32
  samples [] = []
  samples (success r t ∷ os) = samples os ++ r ∷ []
  samples (failure e t ∷ os) = samples os

module _ {F32 F64 : Type 0} (fl : Floats F32 F64) where
  -- The methods called in turn, the newest call at the head.
  unfoldable pub replay : Statistics F32 F64 → List (Outcome F32) → Statistics F32 F64
  replay s [] = s
  replay s (success r t ∷ os) = record_success fl r t (replay s os)
  replay s (failure e t ∷ os) = record_failure fl e t (replay s os)

module _ {F32 F64 : Type 0} (fl : Floats F32 F64) (now : Time) (opts : Options) where
  abbrev pub history : List (Outcome F32) → Statistics F32 F64
  history os = replay fl (new_statistics fl now opts) os

  -- What the counters hold after a history.
  pub record Counted (os : List (Outcome F32)) (s : Statistics F32 F64) : Type 0 where
    pub total_success : s.total_successful_probes ≡ successes os % two64
    pub total_failure : s.total_unsuccessful_probes ≡ failures os % two64
    pub int_success : s.successful ≡ successes os % two64
    pub int_failure : s.failed ≡ failures os % two64
    pub ongoing_success : s.ongoing_successful_probes ≡ success_streak os % two64
    pub ongoing_failure : s.ongoing_unsuccessful_probes ≡ failure_streak os % two64

  -- After any history the counters are the numbers of successes and of failures, and the two
  -- "ongoing" counters the lengths of the newest run of successes and of failures (one of them is
  -- then 0), all of them modulo 2^64 as the machine counts.
  pub history-Counted : (os : List (Outcome F32)) → Counted os (history os)
  unfolding replay new_statistics
  history-Counted [] = ground arith
  history-Counted (success r t ∷ os) = step (history os) (history-Counted os)
    where
      step :
          (s : Statistics F32 F64)
          → Counted os s
          → Counted (success r t ∷ os) (record_success fl r t s)
      step s h = unfold record_success inc in ground arith
  history-Counted (failure e t ∷ os) = step (history os) (history-Counted os)
    where
      step :
          (s : Statistics F32 F64)
          → Counted os s
          → Counted (failure e t ∷ os) (record_failure fl e t s)
      step s h = unfold record_failure inc in ground arith

  success-add-failure : (os : List (Outcome F32)) → successes os + failures os ≡ length os
  success-add-failure [] = refl
  success-add-failure (success r t ∷ os) = omega (arith, success-add-failure os)
  success-add-failure (failure e t ∷ os) = omega (arith, success-add-failure os)

  -- The snapshot after a history reports as sent exactly the number of outcomes that were recorded
  -- (modulo 2^64), and as succeeded and failed the two parts of it.
  pub snapshot-history :
      (ip_string : Addr → Str) (uptime_string : Time → Time → Str) (later : Time)
      (os : List (Outcome F32))
      → let r = snapshot fl ip_string uptime_string later (history os) in
        (r.total_sent ≡ length os % two64)
        × (r.total_success ≡ successes os % two64)
        × (r.total_failed ≡ failures os % two64)
  unfolding snapshot add_u64
  snapshot-history ip_string uptime_string later os =
      omega (arith, history-Counted os, success-add-failure os)
