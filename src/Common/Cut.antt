-- ===== src/Common/Cut.antt =====
-- Cutting texts: `strings.Split`, `strings.Index`, `strings.TrimPrefix` and `strings.TrimSuffix`.
use Prim.Native.Nat.{ℕ, ◌-◌}
use mathlib.Core.Path.{◌≡◌, refl, ap, ◌∙◌}
use mathlib.Core.Bool.{true, false}
use mathlib.Core.Option.{Option, none, some}
use mathlib.Core.List.{List, [], ◌∷◌, ◌++◌, reverse, map}
use netping.Common.Tests.{◌==◌, if◌then◌else◌, ==_iff}
use netping.Common.Lists.{length, take, drop, All}
use netping.Common.Text.{Str, is_empty, has_prefix, has_suffix, is_space}

abbrev to_first : ℕ → List Str → List Str
to_first c [] = (c ∷ []) ∷ []
to_first c (p ∷ ps) = (c ∷ p) ∷ ps

-- strings.Split(s, sep) for a separator of one character
unfoldable pub split_on : ℕ → Str → List Str
split_on sep [] = [] ∷ []
split_on sep (c ∷ s) = let rest = split_on sep s in if c == sep then [] ∷ rest else to_first c rest

abbrev pub cons_to : ℕ → Option Str → Option Str
cons_to c none = none
cons_to c (some s) = some (c ∷ s)

-- `s[:i]` for `i := strings.Index(s, p)`, with the part first; `none` for -1
unfoldable pub cut_before : Str → Str → Option Str
unfolding has_prefix
cut_before p [] = if is_empty p then some [] else none
cut_before p (c ∷ s) =
    let rest = cons_to c (cut_before p s) in if has_prefix p (c ∷ s) then some [] else rest

-- strings.TrimPrefix(s, p) and strings.TrimSuffix(s, p), with the part first
unfoldable pub trim_prefix : Str → Str → Str
unfolding has_prefix
trim_prefix p s = if has_prefix p s then drop (length p) s else s

unfoldable pub trim_suffix : Str → Str → Str
unfolding has_suffix
trim_suffix p s = if has_suffix p s then take (length s - length p) s else s

-- strings.Join(ss, sep)
unfoldable pub join : Str → List Str → Str
join sep [] = []
join sep (s ∷ []) = s
join sep (s ∷ t ∷ ss) = s ++ (sep ++ join sep (t ∷ ss))

-- Splitting and joining again gives the text back.
join-to_first :
    (sep c : ℕ) (ps : List Str) (s : Str)
    → join (sep ∷ []) ps ≡ s
    → join (sep ∷ []) (to_first c ps) ≡ c ∷ s
unfolding join
join-to_first sep c [] s h = ap (λ t. c ∷ t) h
join-to_first sep c (p ∷ []) s h = ap (λ t. c ∷ t) h
join-to_first sep c (p ∷ q ∷ ps) s h = ap (λ t. c ∷ t) h

-- Texts without the separator.
abbrev pub Lacks : ℕ → Str → Type 0
Lacks sep s = All (λ c. (c == sep) ≡ false) s

split_on-none : (sep : ℕ) (s : Str) → Lacks sep s → split_on sep s ≡ s ∷ []
unfolding split_on
split_on-none sep [] h = refl
split_on-none sep (c ∷ s) h = rw (h.0, split_on-none sep s h.1) refl

split_on-append :
    (sep : ℕ) (s t : Str) → Lacks sep s → split_on sep (s ++ sep ∷ t) ≡ s ∷ split_on sep t
unfolding split_on
split_on-append sep [] t h = let e : (sep == sep) ≡ true = (==_iff sep sep).1 refl in rw e refl
split_on-append sep (c ∷ s) t h = rw (h.0, split_on-append sep s t h.1) refl

-- Joining texts without the separator and splitting again gives them back.
pub split_on-join :
    (sep : ℕ) (s : Str) (ss : List Str)
    → All (Lacks sep) (s ∷ ss)
    → split_on sep (join (sep ∷ []) (s ∷ ss)) ≡ s ∷ ss
unfolding join
split_on-join sep s [] h = split_on-none sep s h.0
split_on-join sep s (t ∷ ss) h =
    split_on-append sep s (join (sep ∷ []) (t ∷ ss)) h.0
    ∙ ap (λ ts. s ∷ ts) (split_on-join sep t ss h.1)

-- strings.Fields, with the word read so far, reversed
abbrev cons_word : Str → List Str → List Str
cons_word [] ws = ws
cons_word (c ∷ w) ws = reverse (c ∷ w) ∷ ws

unfoldable pub words_of : Str → Str → List Str
unfolding is_space
words_of w [] = cons_word w []
words_of w (c ∷ s) =
    let next = words_of [] s in
    let same = words_of (c ∷ w) s in if is_space c then cons_word w next else same

unfoldable pub fields : Str → List Str
unfolding words_of
fields s = words_of [] s

-- strings.ReplaceAll of one character by another
abbrev pub replace_char : ℕ → ℕ → Str → Str
replace_char a b s = map (λ c. if c == a then b else c) s
