-- ===== src/Engine/Execution/Dispatch.antt =====
-- pkg/engine/dynamic.go: the ways through `Execute`.
use netping.Common.{
  ℕ, Str, is_empty, Bool, false, not, Option, none, some, List, Addr, no_addr, Floats, get_elem?,
  [], if◌then◌else◌,
}
use netping.Stats.{Statistics, Options}
use netping.Broadcaster.{ProbeEvent}
use netping.Dns.{Resolved, resolved, unresolved}
use netping.Config.{Lookups}
use netping.Engine.Registry.{Registry, get_or_create_stats, update}
use netping.Engine.Requests.{TriggerRequest, TriggerTarget, resolve_trigger_target}
use netping.Engine.Responses.{TriggerResponse}
use netping.Engine.Plans.{Texts, Plan, plan_of}
use netping.Engine.Execution.{Outside}
use netping.Utils.{GoError}
use netping.Engine.Execution.Trace.{TraceHop, execute_traceroute}
use netping.Engine.Execution.Loop.{execute_plan}

-- What `Execute` answers: the error of the context, the error that there is no target, or a response
-- with the events for the broadcaster.
pub data Answer (F64 : Type 0) : Type 0 where
  context_error : Answer F64
  invalid_target : Answer F64
  responds : TriggerResponse F64 → List (ProbeEvent F64) → Answer F64

abbrev addr_of : Resolved → Addr
addr_of (resolved ip) = ip
addr_of (unresolved e) = no_addr

module _ {F32 F64 W : Type 0} (fl : Floats F32 F64) (texts : Texts F64) (world : Outside W) where
  -- the options with which `GetOrCreateStats` makes statistics
  abbrev options_of : Plan F64 → Options
  options_of plan = record {
    hostname = plan.target.host;
    ip = plan.ip;
    port = plan.target.port;
    protocol = plan.target.protocol;
    target_is_ip = false;
    local_addr = none;
    with_timestamp = false;
    with_source_address = false;
    with_diags = false;
  }

  -- the probes on the statistics at `p` (which are there: a pointer comes from the registry)
  abbrev run_on :
      Plan F64
      → Registry F32 F64
      → ℕ
      → Option (Statistics F32 F64)
      → W
      → (Registry F32 F64 × Answer F64) × W
  run_on plan r p none w = ((r, invalid_target), w)
  run_on plan r p (some s) w =
      let ((run, response), w') = execute_plan fl texts world plan s w in
      ((record r { heap = update (λ _. run.stat) p r.heap }, responds response run.events), w')

  -- the execution of a plan on the statistics that the registry holds for its target
  unfoldable pub execute_on : Plan F64 → Registry F32 F64 → W → (Registry F32 F64 × Answer F64) × W
  unfolding execute_plan
  execute_on plan r w =
      let (now, w1) = world.clock w in
      let (r', p) = get_or_create_stats fl now plan.display (options_of plan) r in
      run_on plan r' p (get_elem? r'.heap p) w1

  abbrev trace_on :
      (Plan F64 → W → (List TraceHop × Option GoError) × W)
      → Plan F64
      → Registry F32 F64
      → W
      → (Registry F32 F64 × Answer F64) × W
  trace_on traceroute plan r w =
      let ((hops, e), w1) = traceroute plan w in
      let (now, w2) = world.clock w1 in
      ((r, responds (execute_traceroute fl texts plan hops e now) []), w2)

  abbrev on_target :
      (Plan F64 → W → (List TraceHop × Option GoError) × W)
      → (Str → W → Resolved × W)
      → Bool
      → TriggerRequest F64
      → Option TriggerTarget
      → Registry F32 F64
      → W
      → (Registry F32 F64 × Answer F64) × W
  on_target traceroute resolve has_broadcaster req none r w = ((r, invalid_target), w)
  on_target traceroute resolve has_broadcaster req (some t) r w =
      let (found, w') = resolve t.host w in
      let plan = plan_of fl texts has_broadcaster t no_addr req in
      let resolved_plan = plan_of fl texts has_broadcaster t (addr_of found) req in
      if is_empty t.host
      then (if req.traceroute then trace_on traceroute plan r w else execute_on plan r w)
      else if req.traceroute
      then trace_on traceroute resolved_plan r w'
      else execute_on resolved_plan r w'

  -- Execute; `is_admitted` says whether it got a worker's slot before the context was cancelled, and
  -- `traceroute` is RunTraceroute: the hops that it reports in order, and its error
  unfoldable pub execute :
      Lookups
      → (Plan F64 → W → (List TraceHop × Option GoError) × W)
      → (Str → W → Resolved × W)
      → Bool
      → Bool
      → TriggerRequest F64
      → Registry F32 F64
      → W
      → (Registry F32 F64 × Answer F64) × W
  unfolding execute_on
  execute net traceroute resolve has_broadcaster is_admitted req r w =
      if not is_admitted
      then ((r, context_error), w)
      else on_target traceroute resolve has_broadcaster req (resolve_trigger_target net req) r w
