-- ===== src/Engine/Registry/Fleet.antt =====
-- The fleet that pkg/engine/registry.go reports, after any calls.
use netping.Common.{
  ℕ, zero, suc, ◌+◌, ◌<◌, ◌≡◌, refl, ap, ◌∙◌, Str, str_eq_iff, str_eq_refl, true, false, Option,
  none, some, List, [], ◌∷◌, map, length, length-append, get_elem?, Map, IsMap, lookup, has_key,
  All, All-append, if_cases, arith, if◌then◌else◌,
}
use netping.Stats.{Statistics}
use netping.Engine.Registry.{
  DynamicTarget, Registry, FleetTarget, ad_hoc, get_fleet_targets, target_count, of_target,
  cons_some,
}

-- The keys of the second map that the first does not have.
outside {ℓ κ} : {V : Type ℓ} {U : Type κ} → Map V → Map U → ℕ
outside ts [] = 0
outside ts ((k, u) ∷ m) = let rest = outside ts m in if has_key k ts then rest else suc rest

outside_nil {ℓ κ} : (V : Type ℓ) {U : Type κ} (m : Map U) → outside {V = V} [] m ≡ length m
unfolding outside lookup
outside_nil V [] = refl
outside_nil V ((k, u) ∷ m) = ap suc (outside_nil V m)

module _ {ℓ κ} {V : Type ℓ} {U : Type κ} where
  outside_cons :
      (k : Str) (v : V) (ts : Map V) (m : Map U)
      → has_key k ts ≡ false
      → IsMap m
      → outside ts m
        ≡ (if has_key k m then suc (outside ((k, v) ∷ ts) m) else outside ((k, v) ∷ ts) m)
  unfolding outside lookup
  outside_cons k v ts [] new h = refl
  outside_cons k v ts ((j, u) ∷ m) new h =
      ground (arith, outside_cons k v ts m new h.1, str_eq_iff k j, str_eq_iff j k, h.0, new)

  -- The first map's keys are all in the second.
  length-outside :
      (ts : Map V) (m : Map U)
      → IsMap ts
      → IsMap m
      → All (λ e. has_key e.0 m ≡ true) ts
      → length ts + outside ts m ≡ length m
  length-outside [] m t h a = omega (arith, outside_nil V m)
  length-outside ((k, v) ∷ ts) m t h a =
      ground (arith, length-outside ts m t.1 h a.1, outside_cons k v ts m t.0 h, a.0)

-- The entries of targets are listed under their own names, with their statistics.
abbrev pub IsListed : Map ℕ → Str × DynamicTarget → Type 0
IsListed stats (k, t) = (t.target ≡ k) × (lookup k stats ≡ some t.stats)

listed_keys :
    (stats : Map ℕ) (ts : Map DynamicTarget)
    → All (IsListed stats) ts
    → All (λ e. has_key e.0 stats ≡ true) ts
listed_keys stats [] h = tt
listed_keys stats ((k, t) ∷ ts) h = (rw (h.0.1) refl, listed_keys stats ts h.1)

length-map {ℓ κ} :
    {A : Type ℓ} {B : Type κ} (f : A → B) (xs : List A) → length (map f xs) ≡ length xs
length-map f [] = refl
length-map f (x ∷ xs) = ap suc (length-map f xs)

get_elem?_lem :
    {A : Type 0} (xs : List A) (p : ℕ) → p < length xs → (x : A) × (get_elem? xs p ≡ some x)
get_elem?_lem [] p h = absurd (omega arith)
get_elem?_lem (x ∷ xs) zero h = (x, refl)
get_elem?_lem (x ∷ xs) (suc p) h = get_elem?_lem xs p (omega arith)

-- The entries of a map are found under their keys.
weaken :
    {V : Type 0} (k : Str) (v : V) (m xs : Map V)
    → has_key k m ≡ false
    → All (λ e. lookup e.0 m ≡ some e.1) xs
    → All (λ e. lookup e.0 ((k, v) ∷ m) ≡ some e.1) xs
unfolding lookup
weaken k v m [] new h = tt
weaken k v m ((j, w) ∷ xs) new h =
    (ground (arith, str_eq_iff k j, h.0, new), weaken k v m xs new h.1)

pub entries : {V : Type 0} (m : Map V) → IsMap m → All (λ e. lookup e.0 m ≡ some e.1) m
entries [] h = tt
entries ((k, v) ∷ m) h =
    (unfold lookup in rw (str_eq_refl k) refl, weaken k v m m h.0 (entries m h.1))

-- An entry of the fleet names a key of the registry, with that key's statistics.
abbrev pub IsTracked : Map ℕ → FleetTarget → Type 0
IsTracked stats f = lookup f.target stats ≡ some f.stats

targets-IsTracked :
    (stats : Map ℕ) (ts : Map DynamicTarget)
    → All (IsListed stats) ts
    → All (IsTracked stats) (map of_target ts)
targets-IsTracked stats [] h = tt
targets-IsTracked stats ((k, t) ∷ ts) h = (rw (h.0.0) (h.0.1), targets-IsTracked stats ts h.1)

module _ {F32 F64 : Type 0} where
  pub record IsFleet (r : Registry F32 F64) : Type 0 where
    pub targets_map : IsMap r.targets
    pub stats_map : IsMap r.stats
    pub listed : All (IsListed r.stats) r.targets
    pub placed : All (λ e. e.1 < length r.heap) r.stats

  length-ad_hoc :
      (ts : Map DynamicTarget) (heap : List (Statistics F32 F64)) (m : Map ℕ)
      → All (λ e. e.1 < length heap) m
      → length (ad_hoc ts heap m) ≡ outside ts m
  unfolding ad_hoc outside
  length-ad_hoc ts heap [] h = refl
  length-ad_hoc ts heap ((k, p) ∷ m) h =
      let there = get_elem?_lem heap p h.0 in
      rw (there.1) (ground (arith, length-ad_hoc ts heap m h.1))

  pub length-fleet :
      (r : Registry F32 F64) → IsFleet r → length (get_fleet_targets r) ≡ target_count r
  unfolding get_fleet_targets
  length-fleet r h =
      length-append (map of_target r.targets) (ad_hoc r.targets r.heap r.stats)
      ∙ omega (
        arith,
        length-map of_target r.targets,
        length-ad_hoc r.targets r.heap r.stats h.placed,
        length-outside r.targets r.stats h.targets_map h.stats_map
            (listed_keys r.stats r.targets h.listed),
      )

  ad_hoc-IsTracked :
      (ts : Map DynamicTarget) (heap : List (Statistics F32 F64)) (stats m : Map ℕ)
      → All (λ e. lookup e.0 stats ≡ some e.1) m
      → All (IsTracked stats) (ad_hoc ts heap m)
  unfolding ad_hoc
  ad_hoc-IsTracked ts heap stats [] h = tt
  ad_hoc-IsTracked ts heap stats ((k, p) ∷ m) h =
      if_cases (All (IsTracked stats)) (has_key k ts) (λ e. ad_hoc-IsTracked ts heap stats m h.1)
        (λ e. entry (get_elem? heap p) (ad_hoc-IsTracked ts heap stats m h.1))
    where
      entry :
          (o : Option (Statistics F32 F64))
          → All (IsTracked stats) (ad_hoc ts heap m)
          → All (IsTracked stats) (cons_some o k p (ad_hoc ts heap m))
      entry none rest = rest
      entry (some s) rest = (h.0, rest)

  pub fleet-IsTracked :
      (r : Registry F32 F64) → IsFleet r → All (IsTracked r.stats) (get_fleet_targets r)
  unfolding get_fleet_targets
  fleet-IsTracked r h =
      All-append (IsTracked r.stats) (map of_target r.targets) _
        (targets-IsTracked r.stats r.targets h.listed)
        (ad_hoc-IsTracked r.targets r.heap r.stats r.stats (entries r.stats h.stats_map))
