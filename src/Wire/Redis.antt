-- ===== src/Wire/Redis.antt =====
-- pkg/probers/redis.go: `Ping` of a Redis server. A panic while the answer to INFO is read is `none`.
use netping.Common.{
  ℕ, suc, ◌+◌, Str, codes, is_empty, str_eq, trim_space, has_prefix, contains, cut_before, drop,
  length, join, Bool, ◌||◌, Option, none, some, List, [], ◌∷◌, ◌++◌, Map, if◌then◌else◌,
}
use netping.Utils.{GoError}
use netping.Prober.{ProbeResult}
use netping.Wire.{Peer, write_error, wrapped, plain_error, not_dialed, failing, succeeding}
use netping.Wire.Memcached.{stat, text_part, or_line}
use netping.Wire.Resp.{
  Bulk, bulk, bad_length, cut_short, panics, read_resp_bulk_string, parse_redis_info,
}

abbrev after_line : Str → Option Str → Option (Str × Str)
after_line s none = none
after_line s (some l) = some (l ++ codes "\n", drop (suc (length l)) s)

-- ReadString('\n'): the line and what is left
unfoldable pub read_line : Str → Option (Str × Str)
read_line s = after_line s (cut_before (codes "\n") s)

abbrev or_else : Str → Str → Str
or_else [] t = t
or_else (c ∷ s) t = c ∷ s

abbrev version_part : Str → Str → List Str
version_part [] mode = []
version_part (c ∷ v) mode =
    (codes "Version: "
      ++ ((c ∷ v) ++ (codes " (" ++ (or_else mode (codes "standalone") ++ codes ")"))))
    ∷ []

-- the parts from the answer to INFO
unfoldable pub info_parts : Map Str → List Str
info_parts info =
    let uptime = stat (codes "uptime_in_days") info in
    version_part (or_else (stat (codes "redis_version") info) (stat (codes "valkey_version") info))
      (stat (codes "redis_mode") info)
    ++ (text_part (codes "Role: ") (stat (codes "role") info)
        ++ (text_part (codes "Clients: ") (stat (codes "connected_clients") info)
            ++ (text_part (codes "Mem: ") (stat (codes "used_memory_human") info)
                ++ (if is_empty uptime || str_eq uptime (codes "0")
                    then []
                    else (codes "Uptime: " ++ (uptime ++ codes "d")) ∷ []))))

abbrev of_bulk : Bulk → Option (List Str)
of_bulk (bulk s) = some (if is_empty s then [] else info_parts (parse_redis_info s))
of_bulk bad_length = some []
of_bulk cut_short = some []
of_bulk panics = none

-- the parts from the line that answers INFO, and what follows it
abbrev of_info_line : (ℕ → Bool) → Option (Str × Str) → Option (List Str)
of_info_line can_make none = some []
of_info_line can_make (some (line, stream)) =
    let s = trim_space line in
    if has_prefix (codes "$") s
    then of_bulk (read_resp_bulk_string can_make stream s)
    else if has_prefix (codes "-NOAUTH") s
    then some (codes "Response: +PONG" ∷ codes "Auth: Required (Protected)" ∷ [])
    else some []

abbrev of_info : (ℕ → Bool) → Str → Option GoError → Option (List Str)
of_info can_make stream (some e) = some []
of_info can_make stream none = of_info_line can_make (read_line stream)

abbrev finished : Peer → Str → Option (List Str) → Option ProbeResult
finished p line none = none
finished p line (some parts) = some (
    succeeding p (
      join (codes ", ")
        (or_line (codes "Response: " ++ line) (text_part [] p.tls_details ++ parts))))

-- the test of the answer to PING
abbrev is_pong : Str → Bool
is_pong s = str_eq s (codes "+PONG") || contains (codes "PONG") s || has_prefix (codes "-NOAUTH") s

-- after the line that answers PING; `n` is the number of the next write
abbrev ponged : (ℕ → Bool) → (Str → Str) → Peer → ℕ → Option (Str × Str) → Option ProbeResult
ponged can_make quoted p n none =
    some (failing p (wrapped (codes "redis ping read failed: ") p.read_error))
ponged can_make quoted p n (some (line, stream)) =
    let s = trim_space line in
    if is_pong s
    then finished p s (of_info can_make stream (write_error n p.write_errors))
    else some (failing p (plain_error (codes "unexpected redis response: " ++ quoted s)))

-- PING, as the write `n`
abbrev pinged : (ℕ → Bool) → (Str → Str) → Peer → ℕ → Str → Option GoError → Option ProbeResult
pinged can_make quoted p n stream (some e) =
    some (failing p (wrapped (codes "redis ping write failed: ") e))
pinged can_make quoted p n stream none = ponged can_make quoted p (n + 1) (read_line stream)

abbrev ping_from : (ℕ → Bool) → (Str → Str) → Peer → ℕ → Str → Option ProbeResult
ping_from can_make quoted p n stream =
    pinged can_make quoted p n stream (write_error n p.write_errors)

-- after the line that answers AUTH
abbrev authenticated : (ℕ → Bool) → (Str → Str) → Peer → Option (Str × Str) → Option ProbeResult
authenticated can_make quoted p none =
    some (failing p (wrapped (codes "redis auth read failed: ") p.read_error))
authenticated can_make quoted p (some (line, stream)) =
    if has_prefix (codes "+OK") line
    then ping_from can_make quoted p 1 stream
    else some (failing p (plain_error (codes "redis auth error: " ++ trim_space line)))

abbrev asked_auth : (ℕ → Bool) → (Str → Str) → Peer → Option GoError → Option ProbeResult
asked_auth can_make quoted p (some e) =
    some (failing p (wrapped (codes "redis auth write failed: ") e))
asked_auth can_make quoted p none = authenticated can_make quoted p (read_line p.received)

abbrev redis_dialed : (ℕ → Bool) → (Str → Str) → Str → Peer → Option GoError → Option ProbeResult
redis_dialed can_make quoted password p (some e) = some (not_dialed p e)
redis_dialed can_make quoted password p none =
    if is_empty password
    then ping_from can_make quoted p 0 p.received
    else asked_auth can_make quoted p (write_error 0 p.write_errors)

-- Ping; `can_make` says which slices can be made, and `quoted` is the verb %q
unfoldable pub redis_ping : (ℕ → Bool) → (Str → Str) → Str → Peer → Option ProbeResult
unfolding read_line info_parts
redis_ping can_make quoted password p = redis_dialed can_make quoted password p p.dial_error
