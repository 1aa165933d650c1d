-- ===== src/Engine/Execution/Loop.antt =====
-- pkg/engine/dynamic.go: the retries of a probe, the loop over the probes.
use netping.Common.{
  ℕ, zero, suc, ◌+◌, codes, contains, to_upper, Bool, false, not, ◌&&◌, ◌==◌, ltb, Option, none,
  some, [], ◌∷◌, ◌++◌, pos, Time, Floats, length, is_some, if◌then◌else◌,
}
use netping.Consts.{protocol_str}
use netping.Stats.{Statistics, snapshot}
use netping.Utils.{GoError, calculate_backoff, draw_if, classify_error}
use netping.Prober.{rounds}
use netping.Engine.Responses.{TriggerResponse}
use netping.Engine.Plans.{Texts, Plan}
use netping.Engine.Execution.{
  Outside, Verdict, Run, no_result, rtt_millis, judge_trigger, millis, fail_trigger,
  succeed_trigger, item_of, event_of, ip_text,
}

-- A round of retrying: whether the sleep was cut short, the outside after it, and the new verdict
-- with the outside after its ping.
pub record TriggerRound (F64 W : Type 0) : Type 0 where
  pub is_cancelled : Bool
  pub slept : W
  pub next : Verdict F64
  pub pinged : W

-- `!strings.Contains(res.Err.Error(), "SLA threshold")`, where there is an error
abbrev pub may_retry : Option GoError → Bool
may_retry none = false
may_retry (some e) = not (contains (codes "SLA threshold") e.text)

module _ {F32 F64 : Type 0} where
  -- the locals before the loop
  abbrev pub start : Statistics F32 F64 → Run F32 F64
  start s = record {
    stat = s;
    items = [];
    last_res = no_result;
    last_error = [];
    last_code = [];
    events = [];
  }

module _ {F32 F64 : Type 0} (fl : Floats F32 F64) (texts : Texts F64) where
  -- a probe after its ping: the statistics, the item and the event
  unfoldable pub account : Plan F64 → ℕ → Verdict F64 → Time → Time → Run F32 F64 → Run F32 F64
  account plan i v now later run =
      let s =
        if v.is_failure
        then fail_trigger now (classify_error v.res.err) run.stat
        else succeed_trigger fl now v run.stat in
      let item = item_of fl texts i now v in
      let event =
        event_of fl texts plan now v (snapshot fl texts.ip_string texts.uptime_string later s) in
      record {
        stat = s;
        items = run.items ++ item ∷ [];
        last_res = v.res;
        last_error = item.error;
        last_code = item.error_code;
        events = if plan.is_broadcast then run.events ++ event ∷ [] else run.events;
      }

  -- the response, from a snapshot at the time `later`; `now` is the time of its timestamp
  unfoldable pub respond : Plan F64 → Time → Time → Run F32 F64 → TriggerResponse F64
  respond plan later now run =
      let res = run.last_res in
      let snap = snapshot fl texts.ip_string texts.uptime_string later run.stat in
      record {
        success = not (is_some res.err);
        target = plan.display;
        hostname = plan.target.host;
        ip = ip_text fl texts plan.ip;
        port = plan.target.port;
        protocol = to_upper (protocol_str plan.target.protocol);
        rtt_ms = rtt_millis fl res;
        dns_time_ms = millis fl texts res.dns_time;
        tcp_time_ms = millis fl texts res.tcp_time;
        tls_time_ms = millis fl texts res.tls_time;
        ttfb_ms = millis fl texts res.ttfb;
        http_status = res.http_status;
        cert_expiry = if res.cert_expiry == 0 then [] else texts.rfc3339 res.cert_expiry;
        diagnostics = res.diagnostics;
        error = run.last_error;
        error_code = run.last_code;
        timestamp = texts.rfc3339 now;
        total_sent = snap.total_sent;
        total_success = snap.total_success;
        total_failed = snap.total_failed;
        packet_loss = snap.packet_loss;
        avg_rtt_ms = fl.to64 snap.avg_rtt;
        min_rtt_ms = fl.to64 snap.min_rtt;
        max_rtt_ms = fl.to64 snap.max_rtt;
        probes = if ltb 1 (length run.items) then run.items else [];
        hops = [];
      }

module _ {F32 F64 W : Type 0} (fl : Floats F32 F64) (texts : Texts F64) (world : Outside W) where
  -- one round of the loop over `attempt`, for `attempt - 1`
  unfoldable pub trigger_round : Plan F64 → ℕ → W → TriggerRound F64 W
  trigger_round plan n w =
      let (drawn, w1) = draw_if plan.backoff.jitter world.draw w in
      let (is_cancelled, w2) = world.sleep (calculate_backoff fl drawn (pos n) plan.backoff) w1 in
      let (res, w3) = world.ping plan.timeout w2 in
      record {
        is_cancelled = is_cancelled;
        slept = w2;
        next = judge_trigger fl texts plan.max_latency_ms res;
        pinged = w3;
      }

  -- the loop over `attempt`, with the rounds left, `attempt - 1`, and the failed verdict so far
  unfoldable pub trigger_retries : Plan F64 → ℕ → ℕ → Verdict F64 → W → Verdict F64 × W
  trigger_retries plan zero n last w = (last, w)
  trigger_retries plan (suc left) n last w =
      let r = trigger_round plan n w in
      let again = trigger_retries plan left (n + 1) r.next r.pinged in
      if r.is_cancelled
      then (last, r.slept)
      else if r.next.is_failure
      then again
      else (r.next, r.pinged)

  -- the ping of a probe with its retries
  unfoldable pub trigger_attempt : Plan F64 → W → Verdict F64 × W
  unfolding trigger_retries
  trigger_attempt plan w =
      let (res, w1) = world.ping plan.timeout w in
      let first = judge_trigger fl texts plan.max_latency_ms res in
      if first.is_failure && ltb 0 plan.retries && may_retry first.res.err
      then trigger_retries plan (rounds plan.retries) 0 first w1
      else (first, w1)

  -- the round `i` of the loop over the probes
  unfoldable pub one_probe : Plan F64 → ℕ → Run F32 F64 → W → Run F32 F64 × W
  unfolding trigger_attempt account
  one_probe plan i run w =
      let w1 = if ltb 1 i then world.wait plan.interval w else w in
      let (v, w2) = trigger_attempt plan w1 in
      let (now, w3) = world.clock w2 in
      let (later, w4) = world.clock w3 in (account fl texts plan i v now later run, w4)

  -- the loop over the probes, with the probes left and the number of the next
  unfoldable pub probe_loop : Plan F64 → ℕ → ℕ → Run F32 F64 → W → Run F32 F64 × W
  unfolding one_probe
  probe_loop plan zero i run w = (run, w)
  probe_loop plan (suc left) i run w =
      let (r, w') = one_probe plan i run w in probe_loop plan left (i + 1) r w'

  -- `Execute` from the statistics on: the loop and the response
  unfoldable pub execute_plan :
      Plan F64 → Statistics F32 F64 → W → (Run F32 F64 × TriggerResponse F64) × W
  unfolding probe_loop respond
  execute_plan plan s w =
      let (run, w1) = probe_loop plan plan.count 1 (start s) w in
      let (later, w2) = world.clock w1 in
      let (now, w3) = world.clock w2 in ((run, respond fl texts plan later now run), w3)
