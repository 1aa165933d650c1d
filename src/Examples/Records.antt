-- ===== src/Examples/Records.antt =====
-- The theorems on the statistics and on the broadcaster at concrete inputs.
use netping.Broadcaster.{broadcast, complete_event, subscribe, new_broadcaster}
use netping.Broadcaster.Delivery.{IsDelivered, run-broadcast}
use netping.Broadcaster.Safety.{step}
use netping.Common.{refl, false, some, All}
use netping.Broadcaster.Tidy.{IsTidy, run-IsTidy}
use netping.Common.{
  ℕ, ◌≡◌, Str, codes, true, List, [], ◌∷◌, reverse, pos, negsuc, select, take, drop, length, arith,
}
use netping.Stats.{snapshot}
use netping.Stats.Replay.{
  Outcome, success, failure, history, Counted, history-Counted, snapshot-history,
}
use netping.Stats.Window.{rtt-history}
use netping.Stats.Bounds.{HasExtremes, history-HasExtremes}
use netping.Broadcaster.{ProbeEvent, Broadcaster, matches, get_probes, page_limit, page_offset}
use netping.Broadcaster.History.{get_probes_lem}
use netping.Broadcaster.Safety.{
  subscribes, unsubscribes, broadcasts, receives, IsSafe, run, run-new-IsSafe,
}
use netping.Examples.{naturals, naturals_IsOrder, target}

abbrev outcomes : List (Outcome ℕ)
outcomes = success 9 400 ∷ success 12 300 ∷ failure (codes "timeout") 200 ∷ success 10 100 ∷ []

history-Counted_example : Counted naturals 50 target outcomes (history naturals 50 target outcomes)
history-Counted_example = history-Counted naturals 50 target outcomes

snapshot-history_example :
    let r = snapshot naturals (λ ip. []) (λ a b. []) 500 (history naturals 50 target outcomes) in
    (r.total_sent ≡ 4) × (r.total_success ≡ 3) × (r.total_failed ≡ 1)
snapshot-history_example = snapshot-history naturals 50 target (λ ip. []) (λ a b. []) 500 outcomes

rtt-history_example : (history naturals 50 target outcomes).rtt ≡ 10 ∷ 12 ∷ 9 ∷ []
rtt-history_example = rtt-history naturals 50 target outcomes

history-HasExtremes_example :
    HasExtremes naturals naturals_IsOrder outcomes (history naturals 50 target outcomes)
history-HasExtremes_example =
    history-HasExtremes naturals naturals_IsOrder 50 target outcomes (omega arith)

abbrev event : Str → ProbeEvent ℕ
event name = record {
  raw_time = 7;
  timestamp = [];
  sequence = 1;
  success = true;
  rtt = 12;
  target = name;
  hostname = name;
  ip = codes "1.2.3.4";
  port = 443;
  protocol = codes "TCP";
  diagnostics = [];
  error = [];
  dns_time = 0;
  tcp_time = 0;
  tls_time = 0;
  ttfb = 0;
  http_status = pos 0;
  total_sent = 1;
  total_success = 1;
  total_failed = 0;
  packet_loss = 0;
  avg_rtt = 12;
  min_rtt = 12;
  max_rtt = 12;
  p95_rtt = 12;
  p99_rtt = 12;
  jitter = 0;
  uptime_duration = [];
}

abbrev two_events : Broadcaster ℕ
two_events = record {
  subscribers = [];
  history = event (codes "a.example") ∷ event (codes "b.example") ∷ [];
  max_history = pos 1000;
  channels = [];
  next_id = 0;
}

get_probes_lem_example :
    let found = select (matches [] (codes "success")) (reverse two_events.history) in
    get_probes [] (codes "success") (pos 1) (negsuc 3) two_events
    ≡ (take (page_limit (pos 1)) (drop (page_offset (negsuc 3)) found), length found)
get_probes_lem_example = get_probes_lem [] (codes "success") (pos 1) (negsuc 3) two_events

run-new-IsSafe_example : IsSafe (
    run
      (subscribes
        ∷ broadcasts (λ t. []) 9 (event (codes "a.example"))
        ∷ receives 0
        ∷ unsubscribes 0
        ∷ unsubscribes 0
        ∷ broadcasts (λ t. []) 10 (event (codes "a.example"))
        ∷ [])
      (netping.Broadcaster.new_broadcaster {F64 = ℕ}))
run-new-IsSafe_example = run-new-IsSafe (
    subscribes
    ∷ broadcasts (λ t. []) 9 (event (codes "a.example"))
    ∷ receives 0
    ∷ unsubscribes 0
    ∷ unsubscribes 0
    ∷ broadcasts (λ t. []) 10 (event (codes "a.example"))
    ∷ [])

run-IsTidy_example :
    (b : Broadcaster ℕ) × (run
        (broadcasts
            (λ t. [])
            9
            (record (event (codes "a.example")) { error = codes "refused\n\tby peer" })
          ∷ [])
        netping.Broadcaster.new_broadcaster
      ≡ some b)
    × All IsTidy b.history
run-IsTidy_example = run-IsTidy (
    broadcasts (λ t. []) 9
      (record (event (codes "a.example")) { error = codes "refused\n\tby peer" })
    ∷ [])

abbrev one_client : Broadcaster ℕ
one_client = record {
  subscribers = 0 ∷ [];
  history = [];
  max_history = pos 1000000;
  channels = record { id = 0; buffer = []; is_closed = false } ∷ [];
  next_id = 1;
}

run-broadcast_example :
    IsDelivered
      (complete_event (λ t. []) 9 (event (codes "a.example")))
      one_client
      0
      (broadcast (λ t. []) 9 (event (codes "a.example")) one_client)
unfolding run step subscribe new_broadcaster
run-broadcast_example =
    run-broadcast (subscribes ∷ []) one_client refl (λ t. []) 9 (event (codes "a.example")) 0
