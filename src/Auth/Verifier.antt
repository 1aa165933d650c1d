-- ===== src/Auth/Verifier.antt =====
-- pkg/auth/verifier.go. SHA-256, Argon2id, base64 and the scanning of numbers by `fmt` are
-- parameters; a call of `VerifyKey` takes the time and the cache and returns the cache after it.
use netping.Common.{
  ℕ, ◌*◌, Str, codes, str_eq, is_empty, Bool, false, ◌||◌, Option, none, some, List, [], ◌∷◌, ◌++◌,
  ℤ, pos, negsuc, Time, Duration, second, add_time, length, and_then, ltb, leb, ◌==◌, if◌then◌else◌,
}

pub record Crypto : Type 0 where
  -- sha256.Sum256
  pub sum256 : Str → Str
  -- fmt.Sscanf with "v=%d" and with "m=%d,t=%d,p=%d" (memory, iterations, parallelism)
  pub scan_version : Str → Option ℤ
  pub scan_cost : Str → Option (ℕ × ℕ × ℕ)
  -- DecodeString of base64.RawStdEncoding and of base64.StdEncoding
  pub decode_raw : Str → Option Str
  pub decode_std : Str → Option Str
  -- argon2.IDKey of key, salt, iterations, memory, parallelism and length; argon2.Version
  pub id_key : Str → Str → ℕ → ℕ → ℕ → ℕ → Str
  pub argon_version : ℤ

abbrev pub max_decoded_hash_len : ℕ
max_decoded_hash_len = 1024

abbrev pub verify_cache_ttl : Duration
verify_cache_ttl = pos (30 * second)

abbrev pub max_cache_entries : ℕ
max_cache_entries = 10000

pub record CacheEntry : Type 0 where
  pub valid : Bool
  pub expires_at : Time

-- the map `verifyCache`
abbrev pub Cache : Type 0
Cache = List (Str × CacheEntry)

abbrev pub lookup : Str → Cache → Option CacheEntry
lookup d [] = none
lookup d ((k, e) ∷ c) = let rest = lookup d c in if str_eq k d then some e else rest

abbrev pub put : Str → CacheEntry → Cache → Cache
put d e [] = (d, e) ∷ []
put d e ((k, f) ∷ c) = let rest = put d e c in if str_eq k d then (d, e) ∷ c else (k, f) ∷ rest

-- pruneExpiredVerifyCache
abbrev pub prune_expired : Time → Cache → Cache
prune_expired now [] = []
prune_expired now ((k, e) ∷ c) =
    let rest = prune_expired now c in if ltb e.expires_at now then rest else (k, e) ∷ rest

-- strings.Split(s, "$")
abbrev to_first : ℕ → List Str → List Str
to_first c [] = (c ∷ []) ∷ []
to_first c (p ∷ ps) = (c ∷ p) ∷ ps

unfoldable pub split_dollar : Str → List Str
split_dollar [] = [] ∷ []
split_dollar (c ∷ s) = let rest = split_dollar s in if c == b'$' then [] ∷ rest else to_first c rest

abbrev same_int : ℤ → ℤ → Bool
same_int (pos m) (pos n) = m == n
same_int (negsuc m) (negsuc n) = m == n
same_int _ _ = false

-- the text whose digest is the key of the cache
abbrev pub cache_text : Str → Str → Str
cache_text key encoded = key ++ 0 ∷ encoded

-- `match` and what is kept of it
abbrev pub keep : Str → Time → Option Bool → Cache → Bool × Cache
keep d now none cache = (false, cache)
keep d now (some matched) cache = (
  matched,
  put d (record { valid = matched; expires_at = add_time now verify_cache_ttl })
      (if leb max_cache_entries (length cache) then prune_expired now cache else cache),
)

-- `if found && now.Before(entry.expiresAt) { return entry.valid }`, and the rest otherwise
abbrev pub answer : Time → Option CacheEntry → Cache → Bool × Cache → Bool × Cache
answer now none cache checked = checked
answer now (some e) cache checked = if ltb now e.expires_at then (e.valid, cache) else checked

module _ (cr : Crypto) where
  -- decodeB64
  unfoldable pub decode_b64 : Str → Option Str
  decode_b64 s = elim (cr.decode_raw s) [ some b ↦ some b | none ↦ cr.decode_std s ]

  -- from the test of the length of the hash to `match`
  abbrev compare : Str → Str → ℕ × ℕ × ℕ → Str → Option Bool
  compare key salt (memory, iterations, parallelism) decoded =
      if ltb max_decoded_hash_len (length decoded) || length decoded == 0
      then none
      else some (str_eq decoded (cr.id_key key salt iterations memory parallelism (length decoded)))

  abbrev check_parts : Str → List Str → Option Bool
  check_parts key (p ∷ kind ∷ version ∷ cost ∷ salt ∷ hash ∷ []) =
      if str_eq kind (codes "argon2id")
      then and_then (cr.scan_version version) (λ v.
        if same_int v cr.argon_version
        then and_then (cr.scan_cost cost) (λ c.
          and_then (decode_b64 salt) (λ s. and_then (decode_b64 hash) (λ h. compare key s c h)))
        else none)
      else none
  check_parts key _ = none

  -- from the split of the hash to `match`; `none` for the returns that leave the cache alone
  unfoldable pub check_hash : Str → Str → Option Bool
  unfolding split_dollar decode_b64
  check_hash key encoded = check_parts key (split_dollar encoded)

  -- VerifyKey
  unfoldable pub verify_key : Time → Str → Str → Cache → Bool × Cache
  unfolding check_hash
  verify_key now key encoded cache =
      let d = cr.sum256 (cache_text key encoded) in
      if is_empty key || is_empty encoded
      then (false, cache)
      else answer now (lookup d cache) cache (keep d now (check_hash key encoded) cache)
