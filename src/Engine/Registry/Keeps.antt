-- ===== src/Engine/Registry/Keeps.antt =====
-- Every method of pkg/engine/registry.go keeps the registry consistent.
use netping.Common.{
  ℕ, zero, suc, ◌<◌, ◌≡◌, refl, ap, ◌∙◌, Str, str_eq, str_eq_iff, str_eq_refl, Bool, false, Option,
  none, some, List, [], ◌∷◌, ◌++◌, Time, Floats, length, length-append, Map, IsMap, lookup, insert,
  delete, has_key, lookup-insert, lookup-delete, insert-IsMap, delete-IsMap, All, All-map,
  All-insert, All-delete, if_cases, arith,
}
use netping.Stats.{Statistics, Options, reset, new_statistics}
use netping.Engine.Registry.{
  DynamicTarget, Registry, find_named, update, new_registry, get_or_create_stats, register_target,
  remove_target, get_fleet_targets, target_count, reset_all, reset_registry, found_or, create,
  remove_found,
}
use netping.Engine.Registry.Fleet.{
  IsListed, IsFleet, IsTracked, length-fleet, fleet-IsTracked, entries,
}

-- The calls of the methods that change the registry. A target is registered with statistics of its
-- own, which the caller has made.
pub data Op (F32 F64 : Type 0) : Type 0 where
  gets : Time → Str → Options → Op F32 F64
  registers : DynamicTarget → Statistics F32 F64 → Op F32 F64
  removes : Str → Op F32 F64
  resets : Time → Op F32 F64

length-update {ℓ} :
    {A : Type ℓ} (f : A → A) (p : ℕ) (xs : List A) → length (update f p xs) ≡ length xs
unfolding update
length-update f p [] = refl
length-update f zero (x ∷ xs) = refl
length-update f (suc p) (x ∷ xs) = ap suc (length-update f p xs)

-- A key of the one map that a lookup in the other does not give is another key.
other_key :
    {V : Type 0} (k j : Str) (m : Map V) {v : V}
    → has_key k m ≡ false
    → lookup j m ≡ some v
    → str_eq k j ≡ false
other_key k j m new found = ground (arith, str_eq_iff k j)

insert-IsListed :
    (k : Str) (p : ℕ) (stats : Map ℕ) (ts : Map DynamicTarget)
    → All (λ e. str_eq k e.0 ≡ false) ts
    → All (IsListed stats) ts
    → All (IsListed (insert k p stats)) ts
insert-IsListed k p stats [] o h = tt
insert-IsListed k p stats ((j, t) ∷ ts) o h =
    ((h.0.0, rw (lookup-insert k j p stats, o.0) (h.0.1)), insert-IsListed k p stats ts o.1 h.1)

new_to_listed :
    (k : Str) (stats : Map ℕ) (ts : Map DynamicTarget)
    → has_key k stats ≡ false
    → All (IsListed stats) ts
    → All (λ e. str_eq k e.0 ≡ false) ts
new_to_listed k stats ts new =
    All-map (IsListed stats) (λ e. str_eq k e.0 ≡ false) (λ e h. other_key k e.0 stats new h.1) ts

new_to_targets :
    (k : Str) (ts : Map DynamicTarget)
    → IsMap ts
    → has_key k ts ≡ false
    → All (λ e. str_eq k e.0 ≡ false) ts
new_to_targets k ts m new =
    All-map (λ e. lookup e.0 ts ≡ some e.1) (λ e. str_eq k e.0 ≡ false)
      (λ e h. other_key k e.0 ts new h) ts (entries ts m)

delete-IsListed :
    (k : Str) (stats : Map ℕ) (ts : Map DynamicTarget)
    → All (IsListed stats) ts
    → All (IsListed (delete k stats)) (delete k ts)
delete-IsListed k stats ts =
    All-delete (IsListed stats) (IsListed (delete k stats)) k ts
      (λ j t other h. (h.0, rw (lookup-delete k j stats, other) (h.1)))

module _ {F32 F64 : Type 0} (fl : Floats F32 F64) where
  unfoldable pub step : Op F32 F64 → Registry F32 F64 → Registry F32 F64
  step (gets now key opts) r = (get_or_create_stats fl now key opts r).0
  step (registers t s) r =
      (register_target (record t { stats = length r.heap })
        (record r { heap = r.heap ++ s ∷ [] })).0
  step (removes target_id) r = (remove_target target_id r).0
  step (resets now) r = reset_registry fl now r

  length-reset_all :
      (now : Time) (m : Map ℕ) (heap : List (Statistics F32 F64))
      → length (reset_all fl now m heap) ≡ length heap
  unfolding reset_all
  length-reset_all now [] heap = refl
  length-reset_all now ((k, p) ∷ m) heap =
      length-reset_all now m (update (reset fl now) p heap) ∙ length-update (reset fl now) p heap

  grown :
      (heap : List (Statistics F32 F64)) (s : Statistics F32 F64) (m : Map ℕ)
      → All (λ e. e.1 < length heap) m
      → All (λ e. e.1 < length (heap ++ s ∷ [])) m
  grown heap s =
      All-map (λ e. e.1 < length heap) (λ e. e.1 < length (heap ++ s ∷ []))
        (λ e h. omega (arith, length-append heap (s ∷ [])))

  last_placed :
      (heap : List (Statistics F32 F64)) (s : Statistics F32 F64)
      → length heap < length (heap ++ s ∷ [])
  last_placed heap s = omega (arith, length-append heap (s ∷ []))

  grow :
      (s : Statistics F32 F64) (r : Registry F32 F64)
      → IsFleet r
      → IsFleet (record r { heap = r.heap ++ s ∷ [] })
  grow s r h = record {
    targets_map = h.targets_map;
    stats_map = h.stats_map;
    listed = h.listed;
    placed = grown r.heap s r.stats h.placed;
  }

  get_or_create_stats-IsFleet :
      (now : Time) (key : Str) (opts : Options) (r : Registry F32 F64)
      → IsFleet r
      → IsFleet (get_or_create_stats fl now key opts r).0
  unfolding get_or_create_stats
  get_or_create_stats-IsFleet now key opts r h = go (lookup key r.stats) refl
    where
      go :
          (o : Option ℕ)
          → lookup key r.stats ≡ o
          → IsFleet (found_or fl o r (create fl now key opts r)).0
      go (some p) e = h
      go none e =
          let s = new_statistics fl now opts in
          let new : has_key key r.stats ≡ false = rw e refl in
          record {
            targets_map = h.targets_map;
            stats_map = insert-IsMap key (length r.heap) r.stats h.stats_map;
            listed =
                insert-IsListed key (length r.heap) r.stats r.targets
                  (new_to_listed key r.stats r.targets new h.listed) h.listed;
            placed =
                All-insert (λ e. e.1 < length (r.heap ++ s ∷ [])) key (length r.heap) r.stats
                  (last_placed r.heap s) (grown r.heap s r.stats h.placed);
          }

  register_target-IsFleet :
      (t : DynamicTarget) (r : Registry F32 F64)
      → t.stats < length r.heap
      → IsFleet r
      → IsFleet (register_target t r).0
  unfolding register_target
  register_target-IsFleet t r there h =
      if_cases {A = Registry F32 F64 × Bool} (λ x. IsFleet x.0) (has_key t.target r.targets)
        (λ e. h)
        (λ new. record {
          targets_map = insert-IsMap t.target t r.targets h.targets_map;
          stats_map = insert-IsMap t.target t.stats r.stats h.stats_map;
          listed =
              All-insert (IsListed (insert t.target t.stats r.stats)) t.target t r.targets
                (
                  refl,
                  rw (lookup-insert t.target t.target t.stats r.stats, str_eq_refl t.target) refl,
                )
                (insert-IsListed t.target t.stats r.stats r.targets
                  (new_to_targets t.target r.targets h.targets_map new) h.listed);
          placed = All-insert (λ e. e.1 < length r.heap) t.target t.stats r.stats there h.placed;
        })

  remove_target-IsFleet :
      (target_id : Str) (r : Registry F32 F64) → IsFleet r → IsFleet (remove_target target_id r).0
  unfolding remove_target
  remove_target-IsFleet target_id r h = go (find_named target_id r.targets)
    where
      go : (o : Option (Str × DynamicTarget)) → IsFleet (remove_found o r).0
      go none = h
      go (some (k, t)) = record {
        targets_map = delete-IsMap k r.targets h.targets_map;
        stats_map = delete-IsMap k r.stats h.stats_map;
        listed = delete-IsListed k r.stats r.targets h.listed;
        placed =
            All-delete (λ e. e.1 < length r.heap) (λ e. e.1 < length r.heap) k r.stats
              (λ j p o x. x) h.placed;
      }

  reset_registry-IsFleet :
      (now : Time) (r : Registry F32 F64) → IsFleet r → IsFleet (reset_registry fl now r)
  unfolding reset_registry
  reset_registry-IsFleet now r h = record {
    targets_map = h.targets_map;
    stats_map = h.stats_map;
    listed = h.listed;
    placed = rw (length-reset_all now r.stats r.heap) h.placed;
  }

  step-IsFleet : (op : Op F32 F64) (r : Registry F32 F64) → IsFleet r → IsFleet (step op r)
  unfolding step
  step-IsFleet (gets now key opts) r h = get_or_create_stats-IsFleet now key opts r h
  step-IsFleet (registers t s) r h = register_target-IsFleet _ _ (last_placed r.heap s) (grow s r h)
  step-IsFleet (removes target_id) r h = remove_target-IsFleet target_id r h
  step-IsFleet (resets now) r h = reset_registry-IsFleet now r h

  -- The calls in turn, the newest at the head.
  unfoldable pub calls : List (Op F32 F64) → Registry F32 F64
  calls [] = new_registry
  calls (op ∷ ops) = step op (calls ops)

  pub calls-IsFleet : (ops : List (Op F32 F64)) → IsFleet (calls ops)
  unfolding calls
  calls-IsFleet [] = record { targets_map = tt; stats_map = tt; listed = tt; placed = tt }
  calls-IsFleet (op ∷ ops) = step-IsFleet op (calls ops) (calls-IsFleet ops)

  -- After any calls on a new registry, the fleet that it reports has as many entries as it counts
  -- targets, and each entry names a key of the registry with that key's statistics, be it a
  -- registered target or one that was only triggered.
  pub calls-IsTracked :
      (ops : List (Op F32 F64))
      → let r = calls ops in
        (length (get_fleet_targets r) ≡ target_count r)
        × All (IsTracked r.stats) (get_fleet_targets r)
  calls-IsTracked ops = (
    length-fleet (calls ops) (calls-IsFleet ops),
    fleet-IsTracked (calls ops) (calls-IsFleet ops),
  )
