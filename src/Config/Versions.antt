-- ===== src/Config/Versions.antt =====
-- internal/config/helpers.go: compareVersions, against the lexicographic order on lists of numbers.
use netping.Common.{
  ℕ, zero, suc, ◌<◌, ◌≡◌, refl, Str, codes, split_on, join, itoa, atoi, atoi-itoa, is_digit,
  itoa-is_digit, Lacks, split_on-join, ltb, ◌==◌, Bool, true, false, not, Option, none, some, List,
  [], ◌∷◌, map, ℤ, pos, negsuc, leb_ℤ, if◌then◌else◌, arith, All, All-map, two63,
}

abbrev lt_ℤ : ℤ → ℤ → Bool
lt_ℤ a b = not (leb_ℤ b a)

-- the comparison of two numbers, and what follows if they are the same
abbrev pub compare_then : ℤ → Option ℤ → Option ℤ → ℤ
compare_then rest none q = pos 0
compare_then rest (some p) none = pos 0
compare_then rest (some p) (some q) =
    if lt_ℤ p q then negsuc 0 else if lt_ℤ q p then pos 1 else rest

-- the loop over the parts, and the comparison of the lengths
unfoldable pub compare_parts : List Str → List Str → ℤ
compare_parts [] [] = pos 0
compare_parts [] (q ∷ qs) = negsuc 0
compare_parts (p ∷ ps) [] = pos 1
compare_parts (p ∷ ps) (q ∷ qs) = compare_then (compare_parts ps qs) (atoi p) (atoi q)

-- compareVersions
unfoldable pub compare_versions : Str → Str → ℤ
compare_versions v1 v2 = compare_parts (split_on b'.' v1) (split_on b'.' v2)

abbrev pub opposite : ℤ → ℤ
opposite (pos zero) = pos 0
opposite (pos (suc n)) = negsuc n
opposite (negsuc n) = pos (suc n)

-- The lexicographic comparison of two lists of numbers, a list before its extensions.
unfoldable pub compare_numbers : List ℕ → List ℕ → ℤ
compare_numbers [] [] = pos 0
compare_numbers [] (n ∷ ns) = negsuc 0
compare_numbers (m ∷ ms) [] = pos 1
compare_numbers (m ∷ ms) (n ∷ ns) =
    let rest = compare_numbers ms ns in
    if ltb m n then negsuc 0 else if ltb n m then pos 1 else rest

-- A version, a row of numbers with points in between.
abbrev pub version_text : List ℕ → Str
version_text ms = join (codes ".") (map itoa ms)

leb_ℤ_total : (a b : ℤ) → leb_ℤ a b ≡ false → leb_ℤ b a ≡ true
leb_ℤ_total (pos a) (pos b) h = ground arith
leb_ℤ_total (pos a) (negsuc b) h = ground arith
leb_ℤ_total (negsuc a) (pos b) h = ground arith
leb_ℤ_total (negsuc a) (negsuc b) h = ground arith

compare_then_flip :
    (r s : ℤ) (p q : Option ℤ) → s ≡ opposite r → compare_then s q p ≡ opposite (compare_then r p q)
compare_then_flip r s none none h = refl
compare_then_flip r s none (some q) h = refl
compare_then_flip r s (some p) none h = refl
compare_then_flip r s (some p) (some q) h = ground (arith, leb_ℤ_total p q)

compare_parts_flip : (ps qs : List Str) → compare_parts qs ps ≡ opposite (compare_parts ps qs)
unfolding compare_parts
compare_parts_flip [] [] = refl
compare_parts_flip [] (q ∷ qs) = refl
compare_parts_flip (p ∷ ps) [] = refl
compare_parts_flip (p ∷ ps) (q ∷ qs) =
    compare_then_flip (compare_parts ps qs) (compare_parts qs ps) (atoi p) (atoi q)
      (compare_parts_flip ps qs)

-- Comparing two texts the other way around gives the opposite answer, also where a part is no number.
pub compare_versions_flip :
    (v1 v2 : Str) → compare_versions v2 v1 ≡ opposite (compare_versions v1 v2)
unfolding compare_versions
compare_versions_flip v1 v2 = compare_parts_flip (split_on b'.' v1) (split_on b'.' v2)

point-Lacks : (s : Str) → All (λ c. is_digit c ≡ true) s → Lacks b'.' s
point-Lacks = All-map (λ c. is_digit c ≡ true) (λ c. (c == b'.') ≡ false) (λ c h. no_point c h)
  where
    no_point : (c : ℕ) → is_digit c ≡ true → (c == b'.') ≡ false
    no_point c h = unfold is_digit in ground arith

map-itoa-Lacks : (ms : List ℕ) → All (Lacks b'.') (map itoa ms)
map-itoa-Lacks [] = tt
map-itoa-Lacks (m ∷ ms) = (point-Lacks (itoa m) (itoa-is_digit m), map-itoa-Lacks ms)

split_on-version_text :
    (m : ℕ) (ms : List ℕ) → split_on b'.' (version_text (m ∷ ms)) ≡ map itoa (m ∷ ms)
split_on-version_text m ms = split_on-join b'.' (itoa m) (map itoa ms) (map-itoa-Lacks (m ∷ ms))

-- The numbers that fit an `int`.
abbrev pub AreInts : List ℕ → Type 0
AreInts ms = All (λ m. m < two63) ms

compare_then-pos :
    (rest : ℤ) (m n : ℕ)
    → compare_then rest (some (pos m)) (some (pos n))
      ≡ (if ltb m n then negsuc 0 else if ltb n m then pos 1 else rest)
compare_then-pos rest m n = ground arith

compare_parts-itoa :
    (ms ns : List ℕ)
    → AreInts ms
    → AreInts ns
    → compare_parts (map itoa ms) (map itoa ns) ≡ compare_numbers ms ns
unfolding compare_parts compare_numbers
compare_parts-itoa [] [] h k = refl
compare_parts-itoa [] (n ∷ ns) h k = refl
compare_parts-itoa (m ∷ ms) [] h k = refl
compare_parts-itoa (m ∷ ms) (n ∷ ns) h k =
    rw (atoi-itoa m h.0, atoi-itoa n k.0, compare_parts-itoa ms ns h.1 k.1)
      (compare_then-pos (compare_numbers ms ns) m n)

-- On versions that are rows of numbers below 2^63 with points in between, `compareVersions` is the
-- lexicographic comparison of the rows, where a row comes before its extensions.
pub compare_versions_lem :
    (m n : ℕ) (ms ns : List ℕ)
    → AreInts (m ∷ ms)
    → AreInts (n ∷ ns)
    → compare_versions (version_text (m ∷ ms)) (version_text (n ∷ ns))
      ≡ compare_numbers (m ∷ ms) (n ∷ ns)
unfolding compare_versions
compare_versions_lem m n ms ns h k =
    rw (split_on-version_text m ms, split_on-version_text n ns)
      (compare_parts-itoa (m ∷ ms) (n ∷ ns) h k)
