-- ===== src/Auth/Middleware.antt =====
-- pkg/auth/middleware.go: `ExtractAPIKey` and `RequireAuth`. A request is what these read of it;
-- header values are taken as ASCII.
use netping.Common.{
  Str, codes, str_eq, is_empty, Bool, Option, none, some, [], trim_space, to_lower, has_prefix,
  drop, if◌then◌else◌,
}

pub record Request : Type 0 where
  pub method : Str
  pub x_api_key : Str
  pub authorization : Str

-- the `if authHeader != ""` of `ExtractAPIKey`
abbrev pub from_authorization : Str → Str
from_authorization auth_header =
    if is_empty auth_header
    then []
    else if has_prefix (codes "bearer ") (to_lower auth_header)
    then trim_space (drop 7 auth_header)
    else if has_prefix (codes "apikey ") (to_lower auth_header)
    then trim_space (drop 7 auth_header)
    else auth_header

-- ExtractAPIKey
unfoldable pub extract_api_key : Request → Str
unfolding trim_space to_lower
extract_api_key r =
    let key = trim_space r.x_api_key in
    if is_empty key then from_authorization (trim_space r.authorization) else key

-- What the handler of `RequireAuth` does: it answers 204 to a preflight, 401 without a validator or
-- for a key that is missing or invalid, or calls `next`.
pub data Reply : Type 0 where
  no_content not_configured unauthorized calls_next : Reply

module _ {S : Type 0} where
  -- `apiKey == "" || !validator.ValidateKey(apiKey)`; the validator changes the state `S`
  abbrev check_key : (Str → S → Bool × S) → Str → S → Reply × S
  check_key validate key s =
      let r = validate key s in
      if is_empty key then (unauthorized, s) else (if r.0 then calls_next else unauthorized, r.1)

  abbrev check_configured : Option (Str → S → Bool × S) → Str → S → Reply × S
  check_configured none key s = (not_configured, s)
  check_configured (some validate) key s = check_key validate key s

  -- RequireAuth
  unfoldable pub require_auth : Option (Str → S → Bool × S) → Request → S → Reply × S
  unfolding extract_api_key
  require_auth validator r s =
      if str_eq r.method (codes "OPTIONS")
      then (no_content, s)
      else check_configured validator (extract_api_key r) s
