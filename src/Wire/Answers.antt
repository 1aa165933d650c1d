-- ===== src/Wire/Answers.antt =====
-- When the pings of pkg/probers/rsync.go and pkg/probers/memcached.go succeed, and what they report.
use netping.Common.{
  ℕ, ◌≡◌, refl, Str, codes, is_empty, join, trim_space, has_prefix, trim_prefix, Bool, true, false,
  not, ◌&&◌, Option, none, some, List, [], ◌∷◌, ◌++◌, ℤ, pos, negsuc, le_zero, Floats, is_some, All,
  All-append, if_cases, Bool-cases, inl, inr, ltb, ◌/◌, add_i64, atoi, Map,
}
use netping.Utils.{GoError}
use netping.Prober.{ProbeResult}
use netping.Wire.{Peer, lines_of, write_error}
use netping.Wire.Rsync.{
  rsync_ping, rsync_dialed, greeted, announced, rsync_diagnostics, banner_part,
}
use netping.Wire.Memcached.{
  Numerals, memcached_ping, memcached_dialed, asked, versioned, memcached_diagnostics, text_part,
  memory_part, hits_part, whole_hours, stats_parts, harvested, or_line, read_stats, stat,
}

-- The result of a ping of the peer, for a test that says whether the peer answered as it should: there
-- is an error exactly if it did not; the latency is the time that was measured; and there are
-- diagnostics exactly if it did.
pub record IsAnswer (p : Peer) (answers : Bool) (r : ProbeResult) : Type 0 where
  pub success : is_some r.err ≡ not answers
  pub latency : r.rtt ≡ p.elapsed
  pub diagnostics : is_empty r.diagnostics ≡ not answers

-- Whether the first line that the peer sends begins with the text.
abbrev pub greets : Str → List Str → Bool
greets text [] = false
greets text (line ∷ lines) = has_prefix text (trim_space line)

abbrev IsSome : Str → Type 0
IsSome s = is_empty s ≡ false

is_empty-append_left : (s t : Str) → IsSome s → IsSome (s ++ t)
is_empty-append_left [] t h = cc
is_empty-append_left (c ∷ s) t h = refl

join-IsSome : (sep s : Str) (ss : List Str) → IsSome s → IsSome (join sep (s ∷ ss))
unfolding join
join-IsSome sep s [] h = h
join-IsSome sep s (t ∷ ss) h = is_empty-append_left s (sep ++ join sep (t ∷ ss)) h

banner_part-IsSome : (greeting : Str) (fs : List Str) → IsSome (banner_part greeting fs)
banner_part-IsSome greeting [] = refl
banner_part-IsSome greeting (v ∷ fs) = refl

has_prefix-IsSome : (c : ℕ) (p s : Str) → has_prefix (c ∷ p) s ≡ true → IsSome s
unfolding has_prefix
has_prefix-IsSome c p [] h = cc
has_prefix-IsSome c p (d ∷ s) h = refl

or_line-IsSome :
    (sep line : Str) (parts : List Str)
    → IsSome line
    → All IsSome parts
    → IsSome (join sep (or_line line parts))
or_line-IsSome sep line [] h k = join-IsSome sep line [] h
or_line-IsSome sep line (part ∷ parts) h k = join-IsSome sep part parts k.0

text_part-IsSome : (label s : Str) → All IsSome (text_part label s)
text_part-IsSome label s = elim (Bool-cases (is_empty s)) [
  | inl e ↦ rw e tt
  | inr e ↦ rw e (appended label s e, tt)
]
  where
    appended : (t u : Str) → IsSome u → IsSome (t ++ u)
    appended [] u h = h
    appended (c ∷ t) u h = refl

module _ {F32 F64 : Type 0} (fl : Floats F32 F64) (float_value : Str → F64) where
  -- The ping of an rsync daemon succeeds exactly if the dialer connects, the first line begins with
  -- "@RSYNCD:", and the announcement can be sent; it then has diagnostics, and none otherwise.
  pub rsync_ping-IsAnswer :
      (quoted : Str → Str) (p : Peer)
      → IsAnswer p
          (not (is_some p.dial_error)
            && greets (codes "@RSYNCD:") (lines_of p.received)
            && not (is_some (write_error 0 p.write_errors)))
          (rsync_ping fl float_value quoted p)
  unfolding rsync_ping
  rsync_ping-IsAnswer quoted p = from_dial p.dial_error
    where
      told :
          (greeting : Str) (lines : List Str)
          → IsSome (rsync_diagnostics fl float_value p greeting lines)
      told greeting lines =
          unfold rsync_diagnostics in join-IsSome _ _ _ (banner_part-IsSome greeting _)

      from_write :
          (greeting : Str) (lines : List Str) (w : Option GoError)
          → IsAnswer p (not (is_some w)) (announced fl float_value p greeting lines w)
      from_write greeting lines none = record {
        success = refl;
        latency = refl;
        diagnostics = told greeting lines;
      }
      from_write greeting lines (some e) = record {
        success = refl;
        latency = refl;
        diagnostics = refl;
      }

      from_lines :
          (lines : List Str)
          → IsAnswer p
              (greets (codes "@RSYNCD:") lines && not (is_some (write_error 0 p.write_errors)))
              (greeted fl float_value quoted p lines)
      from_lines [] = record { success = refl; latency = refl; diagnostics = refl }
      from_lines (line ∷ lines) =
          elim (Bool-cases (has_prefix (codes "@RSYNCD:") (trim_space line))) [
            | inl e ↦ rw e (from_write (trim_space line) lines (write_error 0 p.write_errors))
            | inr e ↦ rw e (record { success = refl; latency = refl; diagnostics = refl })
          ]

      from_dial :
          (d : Option GoError)
          → IsAnswer p
              (not (is_some d)
                && greets (codes "@RSYNCD:") (lines_of p.received)
                && not (is_some (write_error 0 p.write_errors)))
              (rsync_dialed fl float_value quoted p d)
      from_dial (some e) = record { success = refl; latency = refl; diagnostics = refl }
      from_dial none = from_lines (lines_of p.received)

memory-IsSome :
    {F32 F64 : Type 0} (fl : Floats F32 F64) (numerals : Numerals F64) (current limit : ℤ)
    → All IsSome (memory_part fl numerals current limit)
memory-IsSome fl numerals current limit =
    if_cases (All IsSome) (not (le_zero limit)) (λ e. (refl, tt))
      (λ e. if_cases (All IsSome) (not (le_zero current)) (λ f. (refl, tt)) (λ f. tt))

hits-IsSome :
    {F32 F64 : Type 0} (fl : Floats F32 F64) (numerals : Numerals F64) (hits misses : ℤ)
    → All IsSome (hits_part fl numerals hits misses)
hits-IsSome fl numerals hits misses =
    if_cases (All IsSome) (le_zero (add_i64 hits misses)) (λ e. tt) (λ e. (refl, tt))

whole_hours-IsSome : (o : Option ℤ) → All IsSome (whole_hours o)
whole_hours-IsSome none = tt
whole_hours-IsSome (some (negsuc n)) = tt
whole_hours-IsSome (some (pos n)) =
    if_cases (All IsSome) (ltb 0 n)
      (λ e. if_cases (All IsSome) (ltb 0 (n / 86400)) (λ f. (refl, tt)) (λ f. (refl, tt))) (λ e. tt)

module _ {F32 F64 : Type 0} (fl : Floats F32 F64) (numerals : Numerals F64) where
  stats_parts-IsSome : (m : Map Str) → All IsSome (stats_parts fl numerals m)
  unfolding stats_parts
  stats_parts-IsSome m =
      let conns = text_part (codes "Conns: ") (stat (codes "curr_connections") m) in
      let items = text_part (codes "Items: ") (stat (codes "curr_items") m) in
      let current = numerals.int_value (stat (codes "bytes") m) in
      let limit = numerals.int_value (stat (codes "limit_maxbytes") m) in
      let hits = numerals.int_value (stat (codes "get_hits") m) in
      let misses = numerals.int_value (stat (codes "get_misses") m) in
      let memory = memory_part fl numerals current limit in
      let ratio = hits_part fl numerals hits misses in
      let uptime = whole_hours (atoi (stat (codes "uptime") m)) in
      All-append IsSome conns (items ++ (memory ++ (ratio ++ uptime)))
        (text_part-IsSome (codes "Conns: ") (stat (codes "curr_connections") m))
        (All-append IsSome items (memory ++ (ratio ++ uptime))
          (text_part-IsSome (codes "Items: ") (stat (codes "curr_items") m))
          (All-append IsSome memory (ratio ++ uptime) (memory-IsSome fl numerals current limit) (
            All-append IsSome ratio uptime (hits-IsSome fl numerals hits misses)
              (whole_hours-IsSome (atoi (stat (codes "uptime") m))))))

  harvested-IsSome :
      (lines : List Str) (e : Option GoError) → All IsSome (harvested fl numerals lines e)
  harvested-IsSome lines none = stats_parts-IsSome (read_stats [] lines)
  harvested-IsSome lines (some e) = tt

  memcached_diagnostics-IsSome :
      (p : Peer) (line : Str) (lines : List Str)
      → IsSome line
      → IsSome (memcached_diagnostics fl numerals p line lines)
  unfolding memcached_diagnostics
  memcached_diagnostics-IsSome p line lines h =
      let tls = text_part [] p.tls_details in
      let label = codes "Version: " in
      let v = trim_space (trim_prefix (codes "VERSION") line) in
      let rest = harvested fl numerals lines (write_error 1 p.write_errors) in
      or_line-IsSome (codes ", ") line (tls ++ (text_part label v ++ rest)) h (
        All-append IsSome tls (text_part label v ++ rest) (text_part-IsSome [] p.tls_details) (
          All-append IsSome (text_part label v) rest (text_part-IsSome label v)
            (harvested-IsSome lines (write_error 1 p.write_errors))))

  -- The ping of a Memcached server succeeds exactly if the dialer connects, the question for the
  -- version can be sent, and the first line begins with "VERSION"; it then has diagnostics, and none
  -- otherwise.
  pub memcached_ping-IsAnswer :
      (quoted : Str → Str) (p : Peer)
      → IsAnswer p
          (not (is_some p.dial_error)
            && not (is_some (write_error 0 p.write_errors))
            && greets (codes "VERSION") (lines_of p.received))
          (memcached_ping fl numerals quoted p)
  unfolding memcached_ping
  memcached_ping-IsAnswer quoted p = from_dial p.dial_error
    where
      from_lines :
          (lines : List Str)
          → IsAnswer p (greets (codes "VERSION") lines) (versioned fl numerals quoted p lines)
      from_lines [] = record { success = refl; latency = refl; diagnostics = refl }
      from_lines (line ∷ lines) =
          elim (Bool-cases (has_prefix (codes "VERSION") (trim_space line))) [
            | inl e ↦ rw e (record {
              success = refl;
              latency = refl;
              diagnostics =
                  memcached_diagnostics-IsSome p (trim_space line) lines
                    (has_prefix-IsSome b'V' (codes "ERSION") (trim_space line) e);
            })
            | inr e ↦ rw e (record { success = refl; latency = refl; diagnostics = refl })
          ]

      from_write :
          (w : Option GoError)
          → IsAnswer p
              (not (is_some w) && greets (codes "VERSION") (lines_of p.received))
              (asked fl numerals quoted p w)
      from_write none = from_lines (lines_of p.received)
      from_write (some e) = record { success = refl; latency = refl; diagnostics = refl }

      from_dial :
          (d : Option GoError)
          → IsAnswer p
              (not (is_some d)
                && not (is_some (write_error 0 p.write_errors))
                && greets (codes "VERSION") (lines_of p.received))
              (memcached_dialed fl numerals quoted p d)
      from_dial (some e) = record { success = refl; latency = refl; diagnostics = refl }
      from_dial none = from_write (write_error 0 p.write_errors)
