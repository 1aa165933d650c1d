-- ===== src/Examples/Requests.antt =====
-- The theorems on the registry of targets and on trigger requests at concrete inputs.
use netping.Common.{
  ℕ, ◌+◌, ◌*◌, ◌≡◌, refl, codes, true, false, none, some, List, [], ◌∷◌, pos, ipv4, no_addr, All,
  length, ltb, if◌then◌else◌, arith, second, millisecond,
}
use netping.Stats.{new_statistics}
use netping.Engine.Registry.{DynamicTarget, get_fleet_targets, target_count}
use netping.Engine.Registry.Fleet.{IsTracked}
use netping.Engine.Registry.Keeps.{Op, gets, registers, removes, calls, calls-IsTracked}
use netping.Engine.Requests.{TriggerRequest, resolve_trigger_target}
use netping.Engine.Requests.Targets.{HasPort, resolve_trigger_target-HasPort}
use netping.Engine.Plans.{Texts, Plan, plan_of}
use netping.Engine.Execution.{Outside, judge_trigger}
use netping.Engine.Execution.Loop.{trigger_attempt, execute_plan}
use netping.Engine.Execution.Verdicts.{trigger_attempt_answered}
use netping.Engine.Execution.Reports.{IsReport, IsResponse, execute_plan-IsReport}
use netping.Examples.{naturals, target, answer, refused}
use netping.Examples.Pools.{network, network-HasWords}

abbrev registered : DynamicTarget
registered = record {
  id = codes "t1";
  target = codes "web:443";
  host = codes "web";
  ip = no_addr;
  port = 443;
  protocol = codes "HTTPS";
  service_name = [];
  interval = pos second;
  stats = 0;
  cancel = some 3;
  created_at = 5;
}

abbrev some_calls : List (Op ℕ ℕ)
some_calls =
    removes (codes "t1")
    ∷ gets 20 (codes "db:5432") target
    ∷ registers registered (new_statistics naturals 10 target)
    ∷ gets 5 (codes "web:443") target
    ∷ []

calls-IsTracked_example :
    (length (get_fleet_targets (calls naturals some_calls))
      ≡ target_count (calls naturals some_calls))
    × All
        (IsTracked (calls naturals some_calls).stats)
        (get_fleet_targets (calls naturals some_calls))
calls-IsTracked_example = calls-IsTracked naturals some_calls

-- a request for four probes of a cluster, with two retries and a limit of 5 milliseconds
abbrev request : TriggerRequest ℕ
request = record {
  target = codes "mongodb+srv://cluster.example.org";
  host = [];
  port = 0;
  protocol = [];
  uri = [];
  timeout = [];
  count = 4;
  interval = [];
  retries = 2;
  retry_backoff = [];
  max_retry_backoff = [];
  retry_jitter = some false;
  max_latency_ms = 5 * millisecond;
  use_ipv4 = false;
  use_ipv6 = false;
  send_data = [];
  expect_data = [];
  fast_close = false;
  start_tls = false;
  service_name = [];
  dns_server = [];
  dns_hosts = [];
  traceroute = false;
  show_diags = false;
  broadcast = none;
  resolve_every_probe = false;
  retry_resolve_after = 0;
  max_consecutive_fails = 0;
  method = [];
  user_agent = [];
  waf = false;
}

resolve_trigger_target-HasPort_example : HasPort (resolve_trigger_target network request)
resolve_trigger_target-HasPort_example =
    resolve_trigger_target-HasPort network network-HasWords request (omega arith)

abbrev texts : Texts ℕ
texts = record {
  parse_duration = λ s. none;
  parse_float = λ s. none;
  fixed4 = λ x. codes "7.0000";
  seconds = λ d. 0;
  ip_string = λ ip. codes "192.0.2.1";
  rfc3339 = λ t. codes "2024-01-01T00:00:00Z";
  uptime_string = λ t u. codes "1s";
}

-- the first three pings are refused, the others answer after 7 milliseconds
abbrev pinging : Outside ℕ
pinging = record {
  ping = λ timeout w. (answer (7 * millisecond) (if ltb w 3 then some refused else none), w + 1);
  sleep = λ d w. (false, w);
  wait = λ d w. w;
  draw = λ w. (some 17, w);
  clock = λ w. (1000 + w, w);
}

abbrev plan : Plan ℕ
plan =
    plan_of naturals texts true
      (record {
        host = codes "a.example.org";
        port = 27018;
        protocol = netping.Consts.mongodbs;
        service_name = [];
      })
      (ipv4 16909060) request

execute_plan-IsReport_example :
    IsReport naturals plan
      (new_statistics naturals 5 target)
      plan.count
      (execute_plan naturals texts pinging plan (new_statistics naturals 5 target) 0).0.0
    × IsResponse naturals
        (execute_plan naturals texts pinging plan (new_statistics naturals 5 target) 0).0.0
        (execute_plan naturals texts pinging plan (new_statistics naturals 5 target) 0).0.1
execute_plan-IsReport_example =
    execute_plan-IsReport naturals texts pinging plan (new_statistics naturals 5 target) 0
      (unfold plan_of in omega arith) (unfold new_statistics in omega arith)
      (unfold new_statistics in omega arith)

trigger_attempt_answered_example :
    trigger_attempt naturals texts pinging plan 3
    ≡ (judge_trigger naturals texts plan.max_latency_ms (answer (7 * millisecond) none), 4)
trigger_attempt_answered_example = trigger_attempt_answered naturals texts pinging plan 3 refl
