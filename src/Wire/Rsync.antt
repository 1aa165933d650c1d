-- ===== src/Wire/Rsync.antt =====
-- pkg/probers/rsync.go: `Ping` of an rsync daemon.
use netping.Common.{
  ◌-◌, Str, codes, is_empty, trim_space, has_prefix, trim_prefix, fields, replace_char, join, itoa,
  Bool, not, ◌&&◌, ◌||◌, Option, none, some, List, [], ◌∷◌, ◌++◌, take, length, ltb, pos, Floats,
  if◌then◌else◌,
}
use netping.Utils.{GoError}
use netping.Prober.{ProbeResult}
use netping.Wire.{
  Peer, lines_of, write_error, wrapped, plain_error, not_dialed, failing, succeeding,
}

-- the loop over the fields after the version: the list of digests that the last of them names
unfoldable pub digests_of : Str → List Str → Str
digests_of digests [] = digests
digests_of digests (f ∷ fs) =
    if has_prefix (codes "digest=") f
    then digests_of (replace_char b',' b'|' (trim_prefix (codes "digest=") f)) fs
    else if has_prefix (codes "checksum=") f
    then digests_of (replace_char b',' b'|' (trim_prefix (codes "checksum=") f)) fs
    else digests_of digests fs

abbrev pub is_last_line : Str → Bool
is_last_line s =
    has_prefix (codes "@RSYNCD: EXIT") s
    || has_prefix (codes "@RSYNCD: AUTHREQD") s
    || has_prefix (codes "@ERROR:") s

abbrev pub cons_first : List Str → List Str → List Str
cons_first [] ms = ms
cons_first (f ∷ fs) ms = f ∷ ms

-- the loop over the lines of the answer to #list
unfoldable pub modules_of : List Str → List Str
modules_of [] = []
modules_of (line ∷ lines) =
    let s = trim_space line in
    let rest = modules_of lines in
    if is_last_line s
    then []
    else if not (is_empty s)
        && not (has_prefix (codes "@RSYNCD:") s)
        && not (has_prefix (codes "@ERROR:") s)
    then cons_first (fields s) rest
    else rest

-- the part on the modules
unfoldable pub modules_part : List Str → List Str
modules_part [] = []
modules_part (m ∷ ms) =
    if ltb 4 (length (m ∷ ms))
    then (codes "Modules: ["
        ++ (join (codes ", ") (take 4 (m ∷ ms))
            ++ (codes ", +" ++ (itoa (length (m ∷ ms) - 4) ++ codes " more]"))))
      ∷ []
    else (codes "Modules: [" ++ (join (codes ", ") (m ∷ ms) ++ codes "]")) ∷ []

-- the modules, unless #list could not be sent
abbrev pub listed : List Str → Option GoError → List Str
listed lines none = modules_part (modules_of lines)
listed lines (some e) = []

abbrev pub version_of : List Str → Str
version_of [] = codes "31.0"
version_of (v ∷ fs) = v

abbrev pub banner_part : Str → List Str → Str
banner_part greeting [] = codes "Banner: " ++ greeting
banner_part greeting (v ∷ fs) = codes "Protocol: RSYNCD " ++ v

abbrev pub later_fields : List Str → List Str
later_fields [] = []
later_fields (v ∷ fs) = fs

module _ {F32 F64 : Type 0} (fl : Floats F32 F64) (float_value : Str → F64) where
  -- the part on the checksums; `float_value` is the first result of strconv.ParseFloat
  unfoldable pub checksums_part : Str → List Str → Str
  checksums_part digests fs =
      let version = float_value (version_of fs) in
      if not (is_empty digests)
      then codes "Checksums: " ++ digests
      else if fl.le64 (fl.of_int64 (pos 32)) version
      then codes "Checksums: xxh128|xxh3|xxh64|md5|md4|sha1"
      else if fl.le64 (fl.of_int64 (pos 30)) version
      then codes "Checksums: MD5|MD4"
      else codes "Checksums: MD4"

  -- the diagnostics for a greeting and the lines after it
  unfoldable pub rsync_diagnostics : Peer → Str → List Str → Str
  unfolding digests_of modules_part
  rsync_diagnostics p greeting lines =
      let fs = fields (trim_space (trim_prefix (codes "@RSYNCD:") greeting)) in
      join (codes ", ") (
        banner_part greeting fs
        ∷ checksums_part (digests_of [] (later_fields fs)) fs
        ∷ listed lines (write_error 1 p.write_errors))

  -- after the greeting: the announcement of the client, and the list of the modules
  abbrev pub announced : Peer → Str → List Str → Option GoError → ProbeResult
  announced p greeting lines none = succeeding p (rsync_diagnostics p greeting lines)
  announced p greeting lines (some e) =
      failing p (wrapped (codes "failed to send rsyncd client greeting: ") e)

  -- `quoted` is the verb %q
  abbrev pub greeted : (Str → Str) → Peer → List Str → ProbeResult
  greeted quoted p [] = failing p (wrapped (codes "failed to read rsyncd greeting: ") p.read_error)
  greeted quoted p (line ∷ lines) =
      let greeting = trim_space line in
      if not (has_prefix (codes "@RSYNCD:") greeting)
      then failing p (plain_error (codes "unexpected rsyncd greeting: " ++ quoted greeting))
      else announced p greeting lines (write_error 0 p.write_errors)

  abbrev pub rsync_dialed : (Str → Str) → Peer → Option GoError → ProbeResult
  rsync_dialed quoted p (some e) = not_dialed p e
  rsync_dialed quoted p none = greeted quoted p (lines_of p.received)

  -- Ping
  unfoldable pub rsync_ping : (Str → Str) → Peer → ProbeResult
  rsync_ping quoted p = rsync_dialed quoted p p.dial_error
