-- ===== src/Auth/Cache.antt =====
-- The cache of pkg/auth/verifier.go makes no difference to the answers of `VerifyKey`.
use netping.Common.{
  ℕ, ◌≡◌, refl, sym, ap, ap₂, subst, Str, str_eq, str_eq_iff, is_empty, Bool, false, ◌||◌,
  Bool-cases, inl, inr, Option, none, some, List, [], ◌∷◌, Time, All, length, leb, ltb, ◌==◌, arith,
  if_cases, if◌then◌else◌, add_time,
}
use netping.Auth.Verifier.{
  Crypto, Cache, CacheEntry, lookup, put, prune_expired, cache_text, check_hash, keep, answer,
  verify_key, max_cache_entries, verify_cache_ttl,
}

-- A key without the character NUL, which separates the key from the hash in the cached text.
abbrev pub IsNulFree : Str → Type 0
IsNulFree = All (λ c. (c == 0) ≡ false)

suc-join : (a b : ℕ) (s t : Str) → a ∷ s ≡ b ∷ t → (a ≡ b) × (s ≡ t)
suc-join a b s t e = ground arith

cache_text-injective :
    (k l h g : Str)
    → IsNulFree k
    → IsNulFree l
    → cache_text k h ≡ cache_text l g
    → (k ≡ l) × (h ≡ g)
cache_text-injective [] [] h g a b e = (refl, (suc-join 0 0 h g e).1)
cache_text-injective [] (y ∷ l) h g a b e = absurd (ground (arith, (suc-join 0 y _ _ e).0, b.0))
cache_text-injective (x ∷ k) [] h g a b e = absurd (ground (arith, (suc-join x 0 _ _ e).0, a.0))
cache_text-injective (x ∷ k) (y ∷ l) h g a b e =
    let u = suc-join x y (cache_text k h) (cache_text l g) e in
    let v = cache_text-injective k l h g a.1 b.1 u.1 in (ap₂ (λ c s. c ∷ s) u.0 v.0, v.1)

All-put :
    (P : Str × CacheEntry → Type 0) (d : Str) (e : CacheEntry) (c : Cache)
    → P (d, e)
    → All P c
    → All P (put d e c)
All-put P d e [] p h = (p, tt)
All-put P d e ((k, f) ∷ c) p h =
    if_cases (All P) (str_eq k d) (λ s. (p, h.1)) (λ s. (h.0, All-put P d e c p h.1))

All-prune_expired :
    (P : Str × CacheEntry → Type 0) (now : Time) (c : Cache) → All P c → All P (prune_expired now c)
All-prune_expired P now [] h = tt
All-prune_expired P now ((k, e) ∷ c) h =
    if_cases (All P) (ltb e.expires_at now) (λ s. All-prune_expired P now c h.1)
      (λ s. (h.0, All-prune_expired P now c h.1))

lookup-All :
    (P : Str × CacheEntry → Type 0) (d : Str) (e : CacheEntry) (c : Cache)
    → All P c
    → lookup d c ≡ some e
    → P (d, e)
lookup-All P d e [] h found = cc
lookup-All P d e ((k, f) ∷ c) h found = elim (Bool-cases (str_eq k d)) [
  | inl same ↦
      let taken : some f ≡ some e = rw same at found in
      subst (λ x. P (x, e)) ((str_eq_iff k d).0 same) (subst (λ x. P (k, x)) (ground arith) h.0)
  | inr other ↦ lookup-All P d e c h.1 (rw other at found)
]

-- The answer without a cache.
abbrev pub value_or_false : Option Bool → Bool
value_or_false none = false
value_or_false (some b) = b

module _ (cr : Crypto) where
  unfoldable pub is_match : Str → Str → Bool
  is_match key encoded =
      if is_empty key || is_empty encoded then false else value_or_false (check_hash cr key encoded)

-- The calls on the cache: `VerifyKey` at a time, and `ClearVerifyCache`.
pub data Call : Type 0 where
  verifies : Time → Str → Str → Call
  clears : Call

-- ClearVerifyCache
abbrev pub clear_verify_cache : Cache → Cache
clear_verify_cache cache = []

module _ (cr : Crypto) where
  -- The answers of a row of calls, the oldest first.
  unfoldable pub answers : List Call → Cache → List Bool
  answers [] cache = []
  answers (verifies now key encoded ∷ calls) cache =
      let r = verify_key cr now key encoded cache in r.0 ∷ answers calls r.1
  answers (clears ∷ calls) cache = answers calls (clear_verify_cache cache)

  -- The answers of the verification alone.
  unfoldable pub matches_of : List Call → List Bool
  matches_of [] = []
  matches_of (verifies now key encoded ∷ calls) = is_match cr key encoded ∷ matches_of calls
  matches_of (clears ∷ calls) = matches_of calls

  module _ (Asked : Str → Type 0)
      (collision_free : (s t : Str) → Asked s → Asked t → cr.sum256 s ≡ cr.sum256 t → s ≡ t) where
    -- An entry holds the answer for whatever text among those asked has its digest.
    abbrev pub Describes : Str × CacheEntry → Type 0
    Describes (d, e) =
        (key encoded : Str)
        → IsNulFree key
        → Asked (cache_text key encoded)
        → cr.sum256 (cache_text key encoded) ≡ d
        → check_hash cr key encoded ≡ some e.valid

    abbrev pub IsFaithful : Cache → Type 0
    IsFaithful cache = All Describes cache

    abbrev pub Answers : Bool × Cache → Bool → Type 0
    Answers r b = (r.0 ≡ b) × IsFaithful r.1

    described :
        (now : Time) (key encoded : Str) (matched : Bool)
        → IsNulFree key
        → Asked (cache_text key encoded)
        → check_hash cr key encoded ≡ some matched
        → Describes (
          cr.sum256 (cache_text key encoded),
          record { valid = matched; expires_at = add_time now verify_cache_ttl },
        )
    described now key encoded matched nul asked e key' encoded' nul' asked' same =
        let t =
          collision_free (cache_text key' encoded') (cache_text key encoded) asked' asked same in
        let u = cache_text-injective key' key encoded' encoded nul' nul t in rw (u.0, u.1) e

    keep-Answers :
        (now : Time) (key encoded : Str) (cache : Cache) (m : Option Bool)
        → IsNulFree key
        → Asked (cache_text key encoded)
        → IsFaithful cache
        → check_hash cr key encoded ≡ m
        → Answers (keep (cr.sum256 (cache_text key encoded)) now m cache) (value_or_false m)
    keep-Answers now key encoded cache none nul asked faithful e = (refl, faithful)
    keep-Answers now key encoded cache (some matched) nul asked faithful e = (
      refl,
      All-put Describes (cr.sum256 (cache_text key encoded)) _ _
          (described now key encoded matched nul asked e)
          (if_cases IsFaithful (leb max_cache_entries (length cache))
            (λ full. All-prune_expired Describes now cache faithful) (λ room. faithful)),
    )

    answer-Answers :
        (now : Time) (key encoded : Str) (cache : Cache) (o : Option CacheEntry)
        → IsNulFree key
        → Asked (cache_text key encoded)
        → IsFaithful cache
        → lookup (cr.sum256 (cache_text key encoded)) cache ≡ o
        → let m = check_hash cr key encoded in
          Answers
            (answer now o cache (keep (cr.sum256 (cache_text key encoded)) now m cache))
            (value_or_false m)
    answer-Answers now key encoded cache none nul asked faithful found =
        keep-Answers now key encoded cache (check_hash cr key encoded) nul asked faithful refl
    answer-Answers now key encoded cache (some e) nul asked faithful found =
        if_cases {A = Bool × Cache} (λ r. Answers r (value_or_false (check_hash cr key encoded)))
          (ltb now e.expires_at)
          (λ live. (
            sym (
                ap value_or_false
                  (lookup-All Describes _ e cache faithful found key encoded nul asked refl)),
            faithful,
          ))
          (λ stale.
            keep-Answers now key encoded cache (check_hash cr key encoded) nul asked faithful refl)

    pub verify_key-Answers :
        (now : Time) (key encoded : Str) (cache : Cache)
        → IsNulFree key
        → Asked (cache_text key encoded)
        → IsFaithful cache
        → Answers (verify_key cr now key encoded cache) (is_match cr key encoded)
    unfolding verify_key is_match
    verify_key-Answers now key encoded cache nul asked faithful =
        elim (Bool-cases (is_empty key || is_empty encoded)) [
          | inl e ↦ rw e (refl, faithful)
          | inr e ↦ rw e (answer-Answers now key encoded cache _ nul asked faithful refl)
        ]

    -- A call asks about a text among those, with a key that has no NUL.
    abbrev pub IsAsked : Call → Type 0
    IsAsked (verifies now key encoded) = IsNulFree key × Asked (cache_text key encoded)
    IsAsked clears = Unit

    answers_from :
        (calls : List Call) (cache : Cache)
        → All IsAsked calls
        → IsFaithful cache
        → answers calls cache ≡ matches_of calls
    unfolding answers matches_of
    answers_from [] cache asked faithful = refl
    answers_from (verifies now key encoded ∷ calls) cache asked faithful =
        let a = verify_key-Answers now key encoded cache asked.0.0 asked.0.1 faithful in
        ap₂ (λ b bs. b ∷ bs) a.0 (answers_from calls _ asked.1 a.1)
    answers_from (clears ∷ calls) cache asked faithful = answers_from calls [] asked.1 tt

    -- The cache of verified keys is transparent: in any row of verifications and clearings, at
    -- whatever times, from the empty cache, each verification answers what the check of the key
    -- against the hash gives without a cache. The conditions are that SHA-256 has no collision among
    -- the texts asked about and that no key contains a NUL.
    pub answers_lem : (calls : List Call) → All IsAsked calls → answers calls [] ≡ matches_of calls
    answers_lem calls asked = answers_from calls [] asked tt
