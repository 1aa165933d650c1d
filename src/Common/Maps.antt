-- ===== src/Common/Maps.antt =====
-- Go maps with string keys as association lists. An update keeps the place of a key, and iteration
-- is in the order of the list: a theorem for every list holds for every order of iteration.
use Prim.Native.Nat.{suc}
use mathlib.Core.Path.{◌≡◌, refl, sym, subst}
use mathlib.Core.Logic.{inl, inr}
use mathlib.Core.Bool.{Bool, true, false}
use mathlib.Core.Option.{Option, none, some}
use mathlib.Core.List.{List, [], ◌∷◌}
use native.Mathlib.Omega.{arith}
use netping.Common.Tests.{if◌then◌else◌, Bool-cases, is_some}
use netping.Common.Lists.{length, All}
use netping.Common.Text.{Str, str_eq, str_eq_iff}

abbrev pub Map {ℓ} : Type ℓ → Type ℓ
Map V = List (Str × V)

other_way : (i k : Str) → str_eq i k ≡ false → str_eq k i ≡ false
other_way i k other = ground (arith, str_eq_iff i k, str_eq_iff k i)

module _ {ℓ} {V : Type ℓ} where
  -- `m[k]`
  unfoldable pub lookup : Str → Map V → Option V
  lookup k [] = none
  lookup k ((j, v) ∷ m) = let rest = lookup k m in if str_eq j k then some v else rest

  -- `_, ok := m[k]`
  abbrev pub has_key : Str → Map V → Bool
  has_key k m = is_some (lookup k m)

  -- `m[k] = v`
  unfoldable pub insert : Str → V → Map V → Map V
  insert k v [] = (k, v) ∷ []
  insert k v ((j, w) ∷ m) =
      let rest = insert k v m in if str_eq j k then (j, v) ∷ m else (j, w) ∷ rest

  -- `delete(m, k)`
  unfoldable pub delete : Str → Map V → Map V
  delete k [] = []
  delete k ((j, w) ∷ m) = let rest = delete k m in if str_eq j k then rest else (j, w) ∷ rest

  -- No key twice, as in every Go map.
  abbrev pub IsMap : Map V → Type 0
  IsMap [] = Unit
  IsMap ((k, v) ∷ m) = (has_key k m ≡ false) × IsMap m

  pub lookup-insert :
      (k j : Str) (v : V) (m : Map V)
      → lookup j (insert k v m) ≡ (if str_eq k j then some v else lookup j m)
  unfolding lookup insert
  lookup-insert k j v [] = refl
  lookup-insert k j v ((i, w) ∷ m) =
      ground (arith, str_eq_iff k j, str_eq_iff i k, str_eq_iff i j, lookup-insert k j v m)

  pub lookup-delete :
      (k j : Str) (m : Map V) → lookup j (delete k m) ≡ (if str_eq k j then none else lookup j m)
  unfolding lookup delete
  lookup-delete k j [] = ground arith
  lookup-delete k j ((i, w) ∷ m) =
      ground (arith, str_eq_iff k j, str_eq_iff i k, str_eq_iff i j, lookup-delete k j m)

  insert-fresh :
      (i k : Str) (v : V) (m : Map V)
      → str_eq i k ≡ false
      → has_key i m ≡ false
      → has_key i (insert k v m) ≡ false
  insert-fresh i k v m other h = rw (lookup-insert k i v m, other_way i k other) h

  delete-fresh :
      (i k : Str) (m : Map V)
      → str_eq i k ≡ false
      → has_key i m ≡ false
      → has_key i (delete k m) ≡ false
  delete-fresh i k m other h = rw (lookup-delete k i m, other_way i k other) h

  pub insert-IsMap : (k : Str) (v : V) (m : Map V) → IsMap m → IsMap (insert k v m)
  unfolding insert
  insert-IsMap k v [] h = unfold lookup in (refl, tt)
  insert-IsMap k v ((i, w) ∷ m) h = elim (Bool-cases (str_eq i k)) [
    | inl same ↦ rw same h
    | inr other ↦ rw other (insert-fresh i k v m other h.0, insert-IsMap k v m h.1)
  ]

  pub delete-IsMap : (k : Str) (m : Map V) → IsMap m → IsMap (delete k m)
  unfolding delete
  delete-IsMap k [] h = tt
  delete-IsMap k ((i, w) ∷ m) h = elim (Bool-cases (str_eq i k)) [
    | inl same ↦ rw same (delete-IsMap k m h.1)
    | inr other ↦ rw other (delete-fresh i k m other h.0, delete-IsMap k m h.1)
  ]

  absent : (i k : Str) (m : Map V) → has_key i m ≡ false → str_eq i k ≡ true → has_key k m ≡ false
  absent i k m h same = rw (sym ((str_eq_iff i k).0 same)) h

  -- Deleting a key that is there makes the map shorter by one.
  pub length-delete :
      (k : Str) (m : Map V)
      → IsMap m
      → length m ≡ (if has_key k m then suc (length (delete k m)) else length (delete k m))
  unfolding lookup delete
  length-delete k [] h = refl
  length-delete k ((i, w) ∷ m) h = elim (Bool-cases (str_eq i k)) [
    | inl same ↦ let gone = absent i k m h.0 same in ground (arith, length-delete k m h.1, same)
    | inr other ↦ ground (arith, length-delete k m h.1)
  ]

  -- An insertion of a new key makes the map longer by one, another leaves its length alone.
  pub length-insert :
      (k : Str) (v : V) (m : Map V)
      → length (insert k v m) ≡ (if has_key k m then length m else suc (length m))
  unfolding lookup insert
  length-insert k v [] = refl
  length-insert k v ((i, w) ∷ m) = ground (arith, length-insert k v m)

module _ {ℓ κ} {V : Type ℓ} where
  pub All-insert :
      (P : Str × V → Type κ) (k : Str) (v : V) (m : Map V)
      → P (k, v)
      → All P m
      → All P (insert k v m)
  unfolding insert
  All-insert P k v [] p h = (p, tt)
  All-insert P k v ((j, w) ∷ m) p h = elim (Bool-cases (str_eq j k)) [
    | inl same ↦ rw same (subst (λ x. P (x, v)) (sym ((str_eq_iff j k).0 same)) p, h.1)
    | inr other ↦ rw other (h.0, All-insert P k v m p h.1)
  ]

module _ {ℓ κ μ} {V : Type ℓ} where
  pub All-delete :
      (P : Str × V → Type κ) (Q : Str × V → Type μ) (k : Str) (m : Map V)
      → ((j : Str) (w : V) → str_eq k j ≡ false → P (j, w) → Q (j, w))
      → All P m
      → All Q (delete k m)
  unfolding delete
  All-delete P Q k [] f h = tt
  All-delete P Q k ((j, w) ∷ m) f h = elim (Bool-cases (str_eq j k)) [
    | inl same ↦ rw same (All-delete P Q k m f h.1)
    | inr other ↦ rw other (f j w (other_way j k other) h.0, All-delete P Q k m f h.1)
  ]
