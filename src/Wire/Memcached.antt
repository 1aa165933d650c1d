-- ===== src/Wire/Memcached.antt =====
-- pkg/probers/memcached.go: `Ping` of a Memcached server.
use netping.Common.{
  suc, ◌/◌, Str, codes, is_empty, str_eq, trim_space, has_prefix, trim_prefix, fields, join, itoa,
  atoi, not, ◌||◌, Option, none, some, List, [], ◌∷◌, ◌++◌, ltb, ℤ, pos, negsuc, le_zero, leb_ℤ,
  add_i64, Floats, Map, lookup, insert, if◌then◌else◌,
}
use netping.Utils.{GoError}
use netping.Prober.{ProbeResult}
use netping.Wire.{
  Peer, lines_of, write_error, wrapped, plain_error, not_dialed, failing, succeeding,
}

-- the verb %d
abbrev pub int_text : ℤ → Str
int_text (pos n) = itoa n
int_text (negsuc n) = codes "-" ++ itoa (suc n)

-- `statsMap[fields[1]] = fields[2]`, where there are three fields
abbrev pub keep_stat : List Str → Map Str → Map Str
keep_stat (f ∷ key ∷ value ∷ fs) m = insert key value m
keep_stat _ m = m

-- the loop over the lines of the answer to stats
unfoldable pub read_stats : Map Str → List Str → Map Str
read_stats m [] = m
read_stats m (line ∷ lines) =
    let s = trim_space line in
    let kept = read_stats (keep_stat (fields s) m) lines in
    let rest = read_stats m lines in
    if str_eq s (codes "END") || str_eq s (codes "ERROR")
    then m
    else if has_prefix (codes "STAT ") s
    then kept
    else rest

abbrev pub or_empty : Option Str → Str
or_empty none = []
or_empty (some s) = s

-- `statsMap[key]`
abbrev pub stat : Str → Map Str → Str
stat key m = or_empty (lookup key m)

-- a part for a text that is not empty
abbrev pub text_part : Str → Str → List Str
text_part label s = if is_empty s then [] else (label ++ s) ∷ []

abbrev pub whole_hours : Option ℤ → List Str
whole_hours none = []
whole_hours (some (negsuc n)) = []
whole_hours (some (pos n)) =
    if ltb 0 n
    then (if ltb 0 (n / 86400)
        then (codes "Uptime: " ++ (itoa (n / 86400) ++ codes "d")) ∷ []
        else (codes "Uptime: " ++ (itoa (n / 3600) ++ codes "h")) ∷ [])
    else []

-- `bytes/1024` for at least 1024 bytes
abbrev pub kilobytes : ℤ → Str
kilobytes (pos n) = itoa (n / 1024)
kilobytes (negsuc n) = []

abbrev pub or_line : Str → List Str → List Str
or_line line [] = line ∷ []
or_line line (part ∷ parts) = part ∷ parts

-- the functions of the standard library: strconv.ParseInt's first result, and the verb %.1f
pub record Numerals (F64 : Type 0) : Type 0 where
  pub int_value : Str → ℤ
  pub fixed1 : F64 → Str

module _ {F32 F64 : Type 0} (fl : Floats F32 F64) (numerals : Numerals F64) where
  -- formatBytes
  unfoldable pub format_bytes : ℤ → Str
  format_bytes bytes =
      if leb_ℤ (pos 1073741824) bytes
      then numerals.fixed1 (fl.div64 (fl.of_int64 bytes) (fl.of_int64 (pos 1073741824)))
        ++ codes "G"
      else if leb_ℤ (pos 1048576) bytes
      then numerals.fixed1 (fl.div64 (fl.of_int64 bytes) (fl.of_int64 (pos 1048576))) ++ codes "M"
      else if leb_ℤ (pos 1024) bytes
      then kilobytes bytes ++ codes "K"
      else int_text bytes ++ codes "B"

  abbrev pub memory_part : ℤ → ℤ → List Str
  memory_part current limit =
      if not (le_zero limit)
      then (codes "Mem: " ++ (format_bytes current ++ (codes "/" ++ format_bytes limit))) ∷ []
      else if not (le_zero current)
      then (codes "Mem: " ++ format_bytes current) ∷ []
      else []

  abbrev pub hits_part : ℤ → ℤ → List Str
  hits_part hits misses =
      let total = add_i64 hits misses in
      let ratio =
        fl.mul64 (fl.div64 (fl.of_int64 hits) (fl.of_int64 total)) (fl.of_int64 (pos 100)) in
      if le_zero total
      then []
      else (codes "HitRatio: " ++ (numerals.fixed1 ratio ++ codes "%")) ∷ []

  -- the parts from the statistics
  unfoldable pub stats_parts : Map Str → List Str
  stats_parts m =
      text_part (codes "Conns: ") (stat (codes "curr_connections") m)
      ++ (text_part (codes "Items: ") (stat (codes "curr_items") m)
          ++ (memory_part (numerals.int_value (stat (codes "bytes") m))
                (numerals.int_value (stat (codes "limit_maxbytes") m))
              ++ (hits_part (numerals.int_value (stat (codes "get_hits") m))
                    (numerals.int_value (stat (codes "get_misses") m))
                  ++ whole_hours (atoi (stat (codes "uptime") m)))))

  abbrev pub harvested : List Str → Option GoError → List Str
  harvested lines none = stats_parts (read_stats [] lines)
  harvested lines (some e) = []

  -- the diagnostics for the line of the version and the lines after it
  unfoldable pub memcached_diagnostics : Peer → Str → List Str → Str
  unfolding read_stats stats_parts
  memcached_diagnostics p line lines = join (codes ", ") (
      or_line line (
        text_part [] p.tls_details
        ++ (text_part (codes "Version: ") (trim_space (trim_prefix (codes "VERSION") line))
            ++ harvested lines (write_error 1 p.write_errors))))

  abbrev pub versioned : (Str → Str) → Peer → List Str → ProbeResult
  versioned quoted p [] = failing p (wrapped (codes "memcached read failed: ") p.read_error)
  versioned quoted p (line ∷ lines) =
      let s = trim_space line in
      if not (has_prefix (codes "VERSION") s)
      then failing p (plain_error (codes "unexpected memcached response: " ++ quoted s))
      else succeeding p (memcached_diagnostics p s lines)

  abbrev pub asked : (Str → Str) → Peer → Option GoError → ProbeResult
  asked quoted p (some e) = failing p (wrapped (codes "memcached write failed: ") e)
  asked quoted p none = versioned quoted p (lines_of p.received)

  abbrev pub memcached_dialed : (Str → Str) → Peer → Option GoError → ProbeResult
  memcached_dialed quoted p (some e) = not_dialed p e
  memcached_dialed quoted p none = asked quoted p (write_error 0 p.write_errors)

  -- Ping; `quoted` is the verb %q
  unfoldable pub memcached_ping : (Str → Str) → Peer → ProbeResult
  memcached_ping quoted p = memcached_dialed quoted p p.dial_error
