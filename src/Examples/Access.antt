-- ===== src/Examples/Access.antt =====
-- The theorems on the authentication at concrete inputs: a hash of one byte, which is the length of
-- the key, and digests that are the texts themselves.
use netping.Common.{
  has_prefix, str_eq, ◌+◌, ◌≡◌, refl, Str, codes, true, false, none, some, List, [], ◌∷◌, ◌++◌, pos,
  length, trim_space, to_lower,
}
use netping.Auth.Verifier.{Crypto, decode_b64, check_hash, split_dollar}
use netping.Auth.Keystore.{Keystore, File, reload, hot_reload}
use netping.Auth.Middleware.{Request, no_content, unauthorized, calls_next, extract_api_key}
use netping.Auth.Cache.{
  IsNulFree, Call, verifies, clears, answers, answers_lem, is_match, matches_of,
}
use netping.Auth.Access.{Event, serve, replies, AreAsked, serve_lem}

abbrev toy : Crypto
toy = record {
  sum256 = λ s. s;
  scan_version = λ s. some (pos 19);
  scan_cost = λ s. some (65536, 3, 4);
  decode_raw = λ s. some s;
  decode_std = λ s. none;
  id_key = λ key salt iterations memory parallelism n. length key ∷ [];
  argon_version = pos 19;
}

-- "$argon2id$v=19$m=65536,t=3,p=4$salt$\x03"
abbrev stored : Str
stored = codes "$argon2id$v=19$m=65536,t=3,p=4$salt$" ++ 3 ∷ []

abbrev three_calls : List Call
three_calls =
    verifies 10 (codes "abc") stored
    ∷ verifies 20 (codes "abc") stored
    ∷ clears
    ∷ verifies 30 (codes "abcd") stored
    ∷ []

answers_lem_example : answers toy three_calls [] ≡ true ∷ true ∷ false ∷ []
unfolding is_match matches_of check_hash split_dollar decode_b64 str_eq
answers_lem_example =
    answers_lem toy (λ s. Unit) (λ s t a b e. e) three_calls
      ((abc, tt), ((abc, tt), (tt, (((refl, (refl, (refl, (refl, tt)))), tt), tt))))
  where
    abc : IsNulFree (codes "abc")
    abc = (refl, (refl, (refl, tt)))

abbrev request : Str → Str → Str → Request
request method key authorization = record {
  method = method;
  x_api_key = key;
  authorization = authorization;
}

-- the file of the key store is not there
abbrev no_file : File
no_file = record { modified = none; modified_again = none; contents = none; parse = λ s. none }

abbrev store : Keystore
store = record {
  file_path = codes "keys.json";
  last_mod_time = 0;
  keys = [];
  inline_keys = stored ∷ [];
}

abbrev event : Request → Event
event r = record { file = no_file; clock = λ n. 100 + n; request = r }

abbrev three_requests : List Event
three_requests =
    event (request (codes "OPTIONS") [] [])
    ∷ event (request (codes "GET") [] (codes "Bearer abc "))
    ∷ event (request (codes "GET") (codes "abcd") [])
    ∷ []

serve_lem_example :
    serve toy three_requests (store, []) ≡ no_content ∷ calls_next ∷ unauthorized ∷ []
unfolding replies is_match check_hash split_dollar decode_b64 hot_reload reload extract_api_key
    AreAsked trim_space to_lower has_prefix str_eq
serve_lem_example =
    serve_lem toy (λ s. Unit) (λ s t a b e. e) three_requests store
      (
        (tt, (tt, tt)),
        (
          ((refl, (refl, (refl, tt))), (tt, tt)),
          (((refl, (refl, (refl, (refl, tt)))), (tt, tt)), tt),
        ),
      )
