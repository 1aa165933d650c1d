-- ===== src/Prober/Outage.antt =====
-- The accounting of outages over a whole run of the probing loop (pkg/probers/probers.go).
use netping.Common.{
  ◌≡◌, ◌⊎◌, if_both_true, if_both_false, inl, inr, refl, ap, subst, ◌∙◌, Floats, Bool, true, false,
  List, [], ◌∷◌, pos, Time, Duration, add_i64, sub_time, two63, ◌-◌, ◌≤◌, ◌==◌, arith,
  if◌then◌else◌, ◌≤◌, ◌-◌,
}
use netping.Prober.{World, Prober, Signal, cancelled, tick, finish, on_tick, probe}
use netping.Prober.Ledger.{Ledger, ledger, finalized, ledger-finalize}
use netping.Prober.Tick.{
  Ends, Outcome, recorded, attempt_of, finish-Ends, finish_flag, on_tick-Outcome,
}

-- The probes of a run, each with its time and whether it failed, the newest first.
abbrev pub Run : Type 0
Run = List (Time × Bool)

-- The ledger after a run.
unfoldable pub observe : Ledger → Run → Ledger
observe l [] = l
observe l ((t, is_failure) ∷ run) = recorded t is_failure (observe l run)

-- The newest probe failed.
abbrev pub ends_down : Run → Bool
ends_down [] = false
ends_down ((t, is_failure) ∷ run) = is_failure

-- The time of the first probe of the newest unbroken row of failures.
abbrev pub outage_start : Run → Time
outage_start [] = 0
outage_start ((t, true) ∷ run) = if ends_down run then outage_start run else t
outage_start ((t, false) ∷ run) = outage_start run

-- The sum of the outages that a later success has ended, each from its first failure to that
-- success.
abbrev pub ended_downtime : Run → Duration
ended_downtime [] = pos 0
ended_downtime ((t, true) ∷ run) = ended_downtime run
ended_downtime ((t, false) ∷ run) =
    if ends_down run
    then add_i64 (ended_downtime run) (sub_time t (outage_start run))
    else ended_downtime run

-- The time of the first success of the newest row of successes, if the newest probe succeeded.
abbrev pub streak_start : Run → Time
streak_start [] = 0
streak_start ((t, true) ∷ run) = streak_start run
streak_start ((t, false) ∷ run) =
    if ends_down run then t else if streak_start run == 0 then t else streak_start run

pub record Accounts (run : Run) (l : Ledger) : Type 0 where
  pub is_down : l.is_down ≡ ends_down run
  pub down_since : l.down_since ≡ outage_start run
  pub up_since : l.up_since ≡ streak_start run
  pub downtime : l.downtime ≡ ended_downtime run
  pub uptime : l.uptime ≡ pos 0

-- A ledger with nothing in its account of outages, as that of fresh statistics.
abbrev pub IsFresh : Ledger → Type 0
IsFresh l = Accounts [] l

observe-Accounts : (l : Ledger) (run : Run) → IsFresh l → Accounts run (observe l run)
unfolding observe
observe-Accounts l [] fresh = fresh
observe-Accounts l ((t, true) ∷ run) fresh = ground (arith, observe-Accounts l run fresh)
observe-Accounts l ((t, false) ∷ run) fresh = ground (arith, observe-Accounts l run fresh)

finalized_totals :
    (l : Ledger) (run : Run) (now : Time)
    → Accounts run l
    → ((finalized now l).downtime ≡ (
        if ends_down run
        then add_i64 (ended_downtime run) (sub_time now (outage_start run))
        else ended_downtime run))
      × ((finalized now l).uptime
          ≡ (if ends_down run then pos 0 else add_i64 (pos 0) (sub_time now (streak_start run))))
finalized_totals l run now h =
    rw (h.is_down, h.down_since, h.up_since, h.downtime, h.uptime) (refl, refl)

module _ {F32 F64 W : Type 0} (fl : Floats F32 F64) (world : World F32 F64 W) where
  -- The probes that `probe` makes, in front of those of `made`.
  unfoldable pub run_of : List Signal → Prober F32 F64 → W → Run → Run
  run_of [] p w made = made
  run_of (cancelled ∷ signals) p w made = made
  run_of (tick t ∷ signals) p w made =
      let r = on_tick fl world t p w in
      let made' = (t, (attempt_of fl world p w).0.is_failure) ∷ made in
      let rest = run_of signals r.0.0 r.1 made' in if r.0.1 then made' else rest

  -- Still waiting with the ledger `l`, or returned with `l` closed.
  abbrev Reached : (Prober F32 F64 × Bool) × W → Ledger → Type 0
  Reached r l =
      ((r.0.1 ≡ false) × (ledger r.0.0.statistics ≡ l)) ⊎ ((r.0.1 ≡ true) × Ends world r.0.0 r.1 l)

  probe-Reached :
      (l : Ledger) (signals : List Signal) (p : Prober F32 F64) (w : W) (made : Run)
      → ledger p.statistics ≡ observe l made
      → Reached (probe fl world signals p w) (observe l (run_of signals p w made))
  unfolding probe run_of
  probe-Reached l [] p w made h = inl (refl, h)
  probe-Reached l (cancelled ∷ signals) p w made h = inr (
    finish_flag fl world p w,
    subst (Ends world (finish fl world p w).0.0 (finish fl world p w).1) h
        (finish-Ends fl world p w),
  )
  probe-Reached l (tick t ∷ signals) p w made h =
      next (on_tick-Outcome fl world t p w) (probe-Reached l signals r.0.0 r.1 made')
    where
      r : (Prober F32 F64 × Bool) × W
      r = on_tick fl world t p w

      failed_now : Bool
      failed_now = (attempt_of fl world p w).0.is_failure

      made' : Run
      made' = (t, failed_now) ∷ made

      observed : recorded t failed_now (ledger p.statistics) ≡ observe l made'
      observed = unfold observe in ap (recorded t failed_now) h

      Runs : (Prober F32 F64 × Bool) × W → Run → Type 0
      Runs x run = Reached x (observe l run)

      next :
          Outcome fl world p failed_now (recorded t failed_now (ledger p.statistics)) r
          → (ledger r.0.0.statistics ≡ observe l made'
              → Reached
                  (probe fl world signals r.0.0 r.1)
                  (observe l (run_of signals r.0.0 r.1 made')))
          → Reached
              (if r.0.1 then r else probe fl world signals r.0.0 r.1)
              (observe l (if r.0.1 then made' else run_of signals r.0.0 r.1 made'))
      next (inl (flag, g)) rest = if_both_false Runs r made' flag (rest (g.ledgers ∙ observed))
      next (inr (flag, ends, due)) rest =
          if_both_true Runs (probe fl world signals r.0.0 r.1) (run_of signals r.0.0 r.1 made') flag
            (inr (flag, subst (Ends world r.0.0 r.1) observed ends))

  -- What a run of probes leaves in the downtime and the uptime, while the loop waits and when it
  -- has returned.
  abbrev pub IsAccounted : Run → (Prober F32 F64 × Bool) × W → Type 0
  IsAccounted run r =
      let s = r.0.0.statistics in
      ((r.0.1 ≡ false) × (s.total_downtime ≡ ended_downtime run) × (s.total_uptime ≡ pos 0))
      ⊎ ((r.0.1 ≡ true)
          × ((read_at : W) × let now = (world.clock read_at).0 in
                (r.1 ≡ (world.clock read_at).1)
                × (s.total_downtime ≡ (
                    if ends_down run
                    then add_i64 (ended_downtime run) (sub_time now (outage_start run))
                    else ended_downtime run))
                × (s.total_uptime ≡ (
                    if ends_down run
                    then pos 0
                    else add_i64 (pos 0) (sub_time now (streak_start run))))))

  -- A run of the loop over fresh statistics, whatever the pings answer: while it waits, the
  -- downtime is the sum of the outages that a later success has ended (each from its first failure
  -- to that success), and the uptime is 0. When it has returned, the last thing that it did was to
  -- read the clock, and with `now` the time that it read, the outage at hand up to `now` is added
  -- to the downtime if the newest probe failed; if it did not, the uptime is the time from the
  -- first success of the newest row of successes (Go's zero time, if no probe was made) to `now`,
  -- and otherwise 0.
  pub probe_accounts :
      (signals : List Signal) (p : Prober F32 F64) (w : W)
      → IsFresh (ledger p.statistics)
      → IsAccounted (run_of signals p w []) (probe fl world signals p w)
  probe_accounts signals p w fresh =
      let run = run_of signals p w [] in
      let h = observe-Accounts (ledger p.statistics) run fresh in
      elim (probe-Reached (ledger p.statistics) signals p w [] (unfold observe in refl)) [
        | inl (flag, e) ↦
            inl (flag, ap (λ l. l.downtime) e ∙ h.downtime, ap (λ l. l.uptime) e ∙ h.uptime)
        | inr (flag, ends) ↦ inr (
          flag,
          (
            ends.read_at,
            (
              ends.last_read,
              ap (λ l. l.downtime) ends.ledgers
                  ∙ (finalized_totals _ run (world.clock ends.read_at).0 h).0,
              ap (λ l. l.uptime) ends.ledgers
                  ∙ (finalized_totals _ run (world.clock ends.read_at).0 h).1,
            ),
          ),
        )
      ]

  saturated : (now : Time) → two63 ≤ now → add_i64 (pos 0) (sub_time now 0) ≡ pos (two63 - 1)
  unfolding add_i64 sub_time
  saturated now h = ground arith

  -- If the context is cancelled before the first tick of a run over fresh statistics, at a time
  -- 2^63 nanoseconds or more after Go's zero time (as every present time is), the loop returns with an uptime of 2^63 - 1
  -- nanoseconds, which is some 292 years, though nothing was probed: the start of the uptime is
  -- still the zero time, and the difference saturates.
  pub probe_cancelled_at_once :
      (signals : List Signal) (p : Prober F32 F64) (w : W)
      → IsFresh (ledger p.statistics)
      → two63 ≤ (world.clock w).0
      → let r = probe fl world (cancelled ∷ signals) p w in
        (r.0.1 ≡ true) × (r.0.0.statistics.total_uptime ≡ pos (two63 - 1))
  unfolding probe finish
  probe_cancelled_at_once signals p w fresh h = (
    finish_flag fl world p w,
    ap (λ l. l.uptime) (ledger-finalize fl world (world.clock w).0 p.statistics)
        ∙ rw (fresh.is_down, fresh.uptime, fresh.up_since) (saturated (world.clock w).0 h),
  )
