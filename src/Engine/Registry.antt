-- ===== src/Engine/Registry.antt =====
-- pkg/engine/registry.go: `DynamicTargetRegistry`. The statistics of targets are shared objects: the
-- two maps hold pointers to them, which are places in `heap`, and an allocation is a new last place.
-- Map iteration is in the order of the list. The mutex makes each method one step.
pub mod Fleet
pub mod Keeps
use netping.Common.{
  ℕ, zero, suc, Str, str_eq, is_empty, Bool, true, false, not, ◌||◌, Option, none, some, List, [],
  ◌∷◌, ◌++◌, map, Time, Duration, Addr, Floats, length, get_elem?, Map, lookup, insert, delete,
  has_key, if◌then◌else◌,
}
use netping.Consts.{Protocol}
use netping.Stats.{Statistics, Options, new_statistics, reset}

-- DynamicTarget; `stats` is the pointer `Stats`, and `cancel` names the function `cancel`, if any
pub record DynamicTarget : Type 0 where
  pub id : Str
  pub target : Str
  pub host : Str
  pub ip : Addr
  pub port : ℕ
  pub protocol : Str
  pub service_name : Str
  pub interval : Duration
  pub stats : ℕ
  pub cancel : Option ℕ
  pub created_at : Time

-- `cancelled` are the functions `cancel` that were called, the newest first
pub record Registry (F32 F64 : Type 0) : Type 0 where
  pub targets : Map DynamicTarget
  pub stats : Map ℕ
  pub heap : List (Statistics F32 F64)
  pub cancelled : List ℕ

-- printers.FleetTarget, as far as the registry fills it in
pub record FleetTarget : Type 0 where
  pub target : Str
  pub host : Str
  pub port : ℕ
  pub protocol : Str
  pub service_name : Str
  pub stats : ℕ

-- the condition of `RemoveTarget`
abbrev pub is_named : Str → Str → DynamicTarget → Bool
is_named target_id k t =
    str_eq k target_id
    || str_eq t.target target_id
    || str_eq t.host target_id
    || str_eq t.id target_id

-- the entry at which the loop of `RemoveTarget` stops
unfoldable pub find_named : Str → Map DynamicTarget → Option (Str × DynamicTarget)
find_named target_id [] = none
find_named target_id ((k, t) ∷ m) =
    let rest = find_named target_id m in if is_named target_id k t then some (k, t) else rest

abbrev call_cancel : Option ℕ → List ℕ → List ℕ
call_cancel none fs = fs
call_cancel (some f) fs = f ∷ fs

-- `*p = f(*p)`
unfoldable pub update {ℓ} : {A : Type ℓ} → (A → A) → ℕ → List A → List A
update f p [] = []
update f zero (x ∷ xs) = f x ∷ xs
update f (suc p) (x ∷ xs) = x ∷ update f p xs

-- the first loop of `GetFleetTargets`
abbrev of_target : Str × DynamicTarget → FleetTarget
of_target (k, t) = record {
  target = t.target;
  host = t.host;
  port = t.port;
  protocol = t.protocol;
  service_name = t.service_name;
  stats = t.stats;
}

module _ {F32 F64 : Type 0} where
  -- NewDynamicTargetRegistry
  abbrev pub new_registry : Registry F32 F64
  new_registry = record { targets = []; stats = []; heap = []; cancelled = [] }

  -- RegisterTarget: the flag says whether there was an error
  unfoldable pub register_target : DynamicTarget → Registry F32 F64 → Registry F32 F64 × Bool
  register_target t r = if has_key t.target r.targets then (r, true) else (
    record r { targets = insert t.target t r.targets; stats = insert t.target t.stats r.stats },
    false,
  )

  abbrev remove_found : Option (Str × DynamicTarget) → Registry F32 F64 → Registry F32 F64 × Bool
  remove_found none r = (r, false)
  remove_found (some (k, t)) r = (
    record r {
      targets = delete k r.targets;
      stats = delete k r.stats;
      cancelled = call_cancel t.cancel r.cancelled;
    },
    true,
  )

  -- RemoveTarget
  unfoldable pub remove_target : Str → Registry F32 F64 → Registry F32 F64 × Bool
  unfolding find_named
  remove_target target_id r = remove_found (find_named target_id r.targets) r

  -- the entry of the second loop of `GetFleetTargets`, which reads the statistics; a pointer that
  -- is in no place of the heap has no entry
  abbrev of_stats : Str → ℕ → (Statistics F32 F64 → FleetTarget)
  of_stats key p s = record {
    target = key;
    host = s.hostname;
    port = s.port;
    protocol = netping.Consts.protocol_str s.protocol;
    service_name = [];
    stats = p;
  }

  abbrev cons_some : Option (Statistics F32 F64) → Str → ℕ → List FleetTarget → List FleetTarget
  cons_some none key p fs = fs
  cons_some (some s) key p fs = of_stats key p s ∷ fs

  -- the second loop of `GetFleetTargets`
  unfoldable pub ad_hoc : Map DynamicTarget → List (Statistics F32 F64) → Map ℕ → List FleetTarget
  ad_hoc targets heap [] = []
  ad_hoc targets heap ((key, p) ∷ m) =
      let rest = ad_hoc targets heap m in
      if has_key key targets then rest else cons_some (get_elem? heap p) key p rest

  -- GetFleetTargets
  unfoldable pub get_fleet_targets : Registry F32 F64 → List FleetTarget
  unfolding ad_hoc
  get_fleet_targets r = map of_target r.targets ++ ad_hoc r.targets r.heap r.stats

  -- TargetCount
  abbrev pub target_count : Registry F32 F64 → ℕ
  target_count r = length r.stats

module _ {F32 F64 : Type 0} (fl : Floats F32 F64) where
  -- the allocation in `GetOrCreateStats`, at the time `now`
  abbrev create : Time → Str → Options → Registry F32 F64 → Registry F32 F64 × ℕ
  create now key opts r = (
    record r {
      stats = insert key (length r.heap) r.stats;
      heap = r.heap ++ new_statistics fl now opts ∷ [];
    },
    length r.heap,
  )

  abbrev found_or : Option ℕ → Registry F32 F64 → Registry F32 F64 × ℕ → Registry F32 F64 × ℕ
  found_or (some p) r created = (r, p)
  found_or none r created = created

  -- GetOrCreateStats; the options are `host`, `ip`, `port` and `proto`
  unfoldable pub get_or_create_stats :
      Time → Str → Options → Registry F32 F64 → Registry F32 F64 × ℕ
  get_or_create_stats now key opts r = found_or (lookup key r.stats) r (create now key opts r)

  -- the loop of `Reset`
  unfoldable pub reset_all : Time → Map ℕ → List (Statistics F32 F64) → List (Statistics F32 F64)
  unfolding update
  reset_all now [] heap = heap
  reset_all now ((key, p) ∷ m) heap = reset_all now m (update (reset fl now) p heap)

  -- Reset
  unfoldable pub reset_registry : Time → Registry F32 F64 → Registry F32 F64
  unfolding reset_all
  reset_registry now r = record r { heap = reset_all now r.stats r.heap }
