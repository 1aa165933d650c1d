-- ===== src/Auth/Keystore.antt =====
-- pkg/auth/keystore.go: `Keystore` with `Reload`, `ValidateKey` and `KeyCount`. The file system and
-- the parser of JSON are parameters: what `os.Stat` and `os.ReadFile` of the file give.
use netping.Common.{
  ℕ, ◌+◌, Str, is_empty, Bool, false, ◌&&◌, not, Option, none, some, List, [], ◌∷◌, map, ◌++◌, Time,
  length, ltb, if◌then◌else◌,
}
use netping.Auth.Verifier.{Crypto, Cache, verify_key}

pub record KeyEntry : Type 0 where
  pub id : Str
  pub created_at : Time
  pub hash : Str
  pub note : Str

pub record Keystore : Type 0 where
  pub file_path : Str
  pub last_mod_time : Time
  pub keys : List KeyEntry
  pub inline_keys : List Str

pub data ReloadError : Type 0 where
  stat_failed read_failed parse_failed : ReloadError

-- What the file system answers in one call: the time of the last change, as `ValidateKey` and then
-- `Reload` read it, the bytes of the file, and what they are parsed to.
pub record File : Type 0 where
  pub modified : Option Time
  pub modified_again : Option Time
  pub contents : Option Str
  pub parse : Str → Option (List KeyEntry)

abbrev parsed : Time → Option (List KeyEntry) → Keystore → Keystore × Option ReloadError
parsed t none ks = (ks, some parse_failed)
parsed t (some keys) ks = (record ks { keys = keys; last_mod_time = t }, none)

abbrev read : File → Time → Option Str → Keystore → Keystore × Option ReloadError
read file t none ks = (ks, some read_failed)
read file t (some data_read) ks = parsed t (file.parse data_read) ks

abbrev refresh : File → Option Time → Keystore → Keystore × Option ReloadError
refresh file none ks = (ks, some stat_failed)
refresh file (some t) ks =
    if not (ltb ks.last_mod_time t) && ltb 0 (length ks.keys)
    then (ks, none)
    else read file t file.contents ks

-- Reload
unfoldable pub reload : File → Keystore → Keystore × Option ReloadError
reload file ks = if is_empty ks.file_path then (ks, none) else refresh file file.modified_again ks

-- `err == nil && info.ModTime().After(ks.lastModTime)`
abbrev pub is_newer : Option Time → Time → Bool
is_newer none last = false
is_newer (some t) last = ltb last t

-- the hot reload at the start of `ValidateKey`
unfoldable pub hot_reload : File → Keystore → Keystore
unfolding reload
hot_reload file ks =
    if not (is_empty ks.file_path) && is_newer file.modified ks.last_mod_time
    then (reload file ks).0
    else ks

-- the hashes in the order in which `ValidateKey` tries them
abbrev pub hashes : Keystore → List Str
hashes ks = map (λ e. e.hash) ks.keys ++ ks.inline_keys

-- KeyCount
unfoldable pub key_count : Keystore → ℕ
key_count ks = length ks.keys + length ks.inline_keys

module _ (cr : Crypto) where
  -- the two loops of `ValidateKey`; `clock n` is the time of the `n`-th call of `VerifyKey`
  unfoldable pub verify_any : (ℕ → Time) → ℕ → Str → List Str → Cache → Bool × Cache
  verify_any clock n key [] cache = (false, cache)
  verify_any clock n key (h ∷ hs) cache =
      let r = verify_key cr (clock n) key h cache in
      let rest = verify_any clock (n + 1) key hs r.1 in if r.0 then r else rest

  -- ValidateKey
  unfoldable pub validate_key :
      File → (ℕ → Time) → Str → Keystore × Cache → Bool × (Keystore × Cache)
  unfolding hot_reload verify_any
  validate_key file clock raw_key (ks, cache) =
      let fresh = hot_reload file ks in
      let r = verify_any clock 0 raw_key (hashes fresh) cache in
      if is_empty raw_key then (false, (ks, cache)) else (r.0, (fresh, r.1))
