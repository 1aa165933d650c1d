-- ===== src/Wire/Resp.antt =====
-- pkg/probers/redis.go: the reading of bulk strings and of the answer to INFO.
use mathlib.Core.List.{reverse-reverse}
use netping.Common.{
  ℕ, suc, ◌+◌, ◌<◌, ◌≡◌, refl, ap, Str, codes, is_empty, is_space, is_digit, trim_left, trim_space,
  has_prefix, trim_prefix, split_on, cut_before, drop, take, length, length-append, itoa, atoi,
  atoi-itoa, itoa-is_digit, Bool, true, false, not, ◌||◌, Option, none, some, List, [], ◌∷◌, ◌++◌,
  reverse, reverse-cons, ℤ, pos, negsuc, two63, leb, ltb, Map, insert, All, All-map, All-append,
  if◌then◌else◌, arith,
}

-- What `readRESPBulkString` answers: the data, its two errors, and the panic of make([]byte, length+2)
-- where the sum is negative or the slice cannot be made.
pub data Bulk : Type 0 where
  bulk : Str → Bulk
  bad_length cut_short panics : Bulk

-- the cases of the length; `can_make` says whether a slice of so many bytes can be made
abbrev pub bulk_of : (ℕ → Bool) → Str → Option ℤ → Bulk
bulk_of can_make stream none = bad_length
bulk_of can_make stream (some (negsuc n)) = bulk []
bulk_of can_make stream (some (pos n)) =
    if leb two63 (n + 2) || not (can_make (n + 2))
    then panics
    else if ltb (length stream) (n + 2)
    then cut_short
    else bulk (take n stream)

-- readRESPBulkString; `stream` is what the reader has yet to give
unfoldable pub read_resp_bulk_string : (ℕ → Bool) → Str → Str → Bulk
read_resp_bulk_string can_make stream first_line =
    bulk_of can_make stream (atoi (trim_space (trim_prefix (codes "$") first_line)))

abbrev pub keep_info : Str → Option Str → Map Str → Map Str
keep_info line none info = info
keep_info line (some key) info =
    insert (trim_space key) (trim_space (drop (suc (length key)) line)) info

-- the loop of parseRedisInfo
unfoldable pub read_info : Map Str → List Str → Map Str
read_info info [] = info
read_info info (l ∷ ls) =
    let line = trim_space l in
    let kept = read_info (keep_info line (cut_before (codes ":") line) info) ls in
    let skipped = read_info info ls in
    if is_empty line || has_prefix (codes "#") line then skipped else kept

-- parseRedisInfo
unfoldable pub parse_redis_info : Str → Map Str
unfolding read_info
parse_redis_info info = read_info [] (split_on b'\n' info)

abbrev Solid : Str → Type 0
Solid s = All (λ c. is_space c ≡ false) s

trim_left-Solid : (s : Str) → Solid s → trim_left s ≡ s
trim_left-Solid [] h = refl
trim_left-Solid (c ∷ s) h = rw (h.0) refl

reverse-Solid : (s : Str) → Solid s → Solid (reverse s)
reverse-Solid [] h = tt
reverse-Solid (c ∷ s) h =
    rw (reverse-cons c s)
      (All-append (λ d. is_space d ≡ false) (reverse s) (c ∷ []) (reverse-Solid s h.1) (h.0, tt))

trim_space-Solid : (s : Str) → Solid s → trim_space s ≡ s
unfolding trim_space
trim_space-Solid s h =
    rw (trim_left-Solid s h, trim_left-Solid (reverse s) (reverse-Solid s h)) (reverse-reverse s)

itoa-Solid : (n : ℕ) → Solid (itoa n)
itoa-Solid n =
    All-map (λ c. is_digit c ≡ true) (λ c. is_space c ≡ false) solid (itoa n) (itoa-is_digit n)
  where
    solid : (c : ℕ) → is_digit c ≡ true → is_space c ≡ false
    solid c h = unfold is_digit is_space in ground arith

take-append : (s t : Str) → take (length s) (s ++ t) ≡ s
take-append [] t = refl
take-append (c ∷ s) t = ap (λ r. c ∷ r) (take-append s t)

-- What precedes the data of a bulk string.
abbrev pub bulk_header : Str → Str
bulk_header data_bytes = codes "$" ++ itoa (length data_bytes)

bulk_of-bulk :
    (can_make : ℕ → Bool) (s rest : Str)
    → length s + 2 < two63
    → can_make (length s + 2) ≡ true
    → bulk_of can_make (s ++ (codes "\r\n" ++ rest)) (some (pos (length s))) ≡ bulk s
bulk_of-bulk can_make s rest small made =
    let t = codes "\r\n" ++ rest in
    let fits : leb two63 (length s + 2) ≡ false = ground arith in
    let there : ltb (length (s ++ t)) (length s + 2) ≡ false = ground (arith, length-append s t) in
    rw (fits, made, there) (ap bulk (take-append s t))

-- Reading a bulk string gives back the data that was written with its length and a line end, whatever
-- follows, where the buffer for the data and the line end can be made.
pub read_resp_bulk_string-bulk_header :
    (can_make : ℕ → Bool) (data_bytes rest : Str)
    → length data_bytes + 2 < two63
    → can_make (length data_bytes + 2) ≡ true
    → read_resp_bulk_string can_make (data_bytes ++ (codes "\r\n" ++ rest)) (bulk_header data_bytes)
      ≡ bulk data_bytes
unfolding read_resp_bulk_string trim_prefix has_prefix
read_resp_bulk_string-bulk_header can_make s rest small made =
    rw
      (
        trim_space-Solid (itoa (length s)) (itoa-Solid (length s)),
        atoi-itoa (length s) (omega arith),
      )
      (bulk_of-bulk can_make s rest small made)
