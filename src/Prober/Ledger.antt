-- ===== src/Prober/Ledger.antt =====
-- What a probe does to the counters and to the times of outages (pkg/probers/probers.go).
use netping.Utils.{GoError}
use netping.Common.{
  Option, ℕ, ◌≡◌, refl, Bool, true, false, Time, Duration, inc, add_i64, sub_time, ◌==◌, Floats,
  arith, if◌then◌else◌,
}
use netping.Stats.{Statistics, record_success}
use netping.Prober.{ProbeResult, World, fail_statistics, succeed_statistics, finalize_statistics}

-- The fields of the statistics that decide on limits and outages, and that a re-resolution of the
-- hostname leaves alone.
pub record Ledger : Type 0 where
  pub total_success : ℕ
  pub total_failure : ℕ
  pub ongoing_failure : ℕ
  pub is_down : Bool
  pub down_since : Time
  pub up_since : Time
  pub downtime : Duration
  pub uptime : Duration

abbrev pub ledger : {F32 F64 : Type 0} → Statistics F32 F64 → Ledger
ledger s = record {
  total_success = s.total_successful_probes;
  total_failure = s.total_unsuccessful_probes;
  ongoing_failure = s.ongoing_unsuccessful_probes;
  is_down = s.dest_was_down;
  down_since = s.start_of_downtime;
  up_since = s.start_of_uptime;
  downtime = s.total_downtime;
  uptime = s.total_uptime;
}

-- The same updates on these fields alone.
abbrev pub failed : Time → Ledger → Ledger
failed t l = record l {
  total_failure = inc l.total_failure;
  ongoing_failure = inc l.ongoing_failure;
  is_down = true;
  down_since = if l.is_down then l.down_since else t;
}

abbrev pub succeeded : Time → Ledger → Ledger
succeeded t l = record l {
  total_success = inc l.total_success;
  ongoing_failure = 0;
  is_down = false;
  up_since = if l.is_down then t else if l.up_since == 0 then t else l.up_since;
  downtime = if l.is_down then add_i64 l.downtime (sub_time t l.down_since) else l.downtime;
}

abbrev pub finalized : Time → Ledger → Ledger
finalized now l = record l {
  downtime = if l.is_down then add_i64 l.downtime (sub_time now l.down_since) else l.downtime;
  uptime = if l.is_down then l.uptime else add_i64 l.uptime (sub_time now l.up_since);
}

module _ {F32 F64 W : Type 0} (fl : Floats F32 F64) (world : World F32 F64 W) where
  pub ledger-fail :
      (t : Time) (e : Option GoError) (s : Statistics F32 F64)
      → ledger (fail_statistics fl world t e s) ≡ failed t (ledger s)
  unfolding fail_statistics
  ledger-fail t e s = refl

  ledger-record_success :
      (t : Time) (r : F32) (s : Statistics F32 F64)
      → ledger (record_success fl r t s)
        ≡ record (ledger s) { total_success = inc s.total_successful_probes; ongoing_failure = 0 }
  unfolding record_success
  ledger-record_success t r s = ground arith

  pub ledger-succeed :
      (t : Time) (r : F32) (res : ProbeResult) (s : Statistics F32 F64)
      → ledger (succeed_statistics fl world t r res s) ≡ succeeded t (ledger s)
  unfolding succeed_statistics
  ledger-succeed t r res s = ground (arith, ledger-record_success t r s)

  pub ledger-finalize :
      (now : Time) (s : Statistics F32 F64)
      → ledger (finalize_statistics fl world now s) ≡ finalized now (ledger s)
  unfolding finalize_statistics
  ledger-finalize now s = ground arith
