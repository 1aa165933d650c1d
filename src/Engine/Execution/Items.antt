-- ===== src/Engine/Execution/Items.antt =====
-- The items of a response to a trigger request (pkg/engine/dynamic.go), counted and listed.
use mathlib.Core.List.{map-append}
use netping.Common.{
  ℕ, zero, suc, ◌≡◌, refl, Str, Bool, true, false, Option, none, some, List, [], ◌∷◌, ◌++◌, map,
  arith, if◌then◌else◌,
}
use netping.Broadcaster.{ProbeEvent}
use netping.Engine.Responses.{SingleProbeItem}

-- 1 to n
abbrev pub one_to : ℕ → List ℕ
one_to zero = []
one_to (suc n) = one_to n ++ suc n ∷ []

module _ {F64 : Type 0} where
  abbrev pub hits : List (SingleProbeItem F64) → ℕ
  hits [] = 0
  hits (i ∷ is) = if i.success then suc (hits is) else hits is

  abbrev pub misses : List (SingleProbeItem F64) → ℕ
  misses [] = 0
  misses (i ∷ is) = if i.success then misses is else suc (misses is)

  pub hits-append :
      (is : List (SingleProbeItem F64)) (i : SingleProbeItem F64)
      → hits (is ++ i ∷ []) ≡ (if i.success then suc (hits is) else hits is)
  hits-append [] i = refl
  hits-append (j ∷ is) i = ground (arith, hits-append is i)

  pub misses-append :
      (is : List (SingleProbeItem F64)) (i : SingleProbeItem F64)
      → misses (is ++ i ∷ []) ≡ (if i.success then misses is else suc (misses is))
  misses-append [] i = refl
  misses-append (j ∷ is) i = ground (arith, misses-append is i)

  abbrev pub newest : List (SingleProbeItem F64) → Option (SingleProbeItem F64)
  newest [] = none
  newest (i ∷ []) = some i
  newest (i ∷ j ∷ is) = newest (j ∷ is)

  pub newest-append :
      (is : List (SingleProbeItem F64)) (i : SingleProbeItem F64) → newest (is ++ i ∷ []) ≡ some i
  newest-append [] i = refl
  newest-append (j ∷ []) i = refl
  newest-append (j ∷ k ∷ is) i = newest-append (k ∷ is) i

  -- What an event and an item have in common.
  abbrev pub of_event : ProbeEvent F64 → Bool × F64 × Str
  of_event e = (e.success, e.rtt, e.error)

  abbrev pub of_item : SingleProbeItem F64 → Bool × F64 × Str
  of_item i = (i.success, i.rtt_ms, i.error_code)

  pub next_events :
      (b : Bool) (e : ProbeEvent F64) (i : SingleProbeItem F64) (es : List (ProbeEvent F64))
      (is : List (SingleProbeItem F64))
      → of_event e ≡ of_item i
      → map of_event es ≡ (if b then map of_item is else [])
      → map of_event (if b then es ++ e ∷ [] else es)
        ≡ (if b then map of_item (is ++ i ∷ []) else [])
  next_events true e i es is same h =
      cc (map-append of_event es (e ∷ []), map-append of_item is (i ∷ []))
  next_events false e i es is same h = h
