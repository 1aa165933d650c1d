-- ===== src/Utils/Spaces.antt =====
-- What `SanitizeSingleLine` of pkg/utils/utils.go makes of rows of spaces.
use mathlib.Core.List.{reverse-reverse, tail-eq_of_cons-eq, head-eq_of_cons-eq}
use netping.Common.{
  ℕ, ◌≡◌, ap, sym, ◌∙◌, Str, is_empty, is_space, trim_left, trim_space, Bool, true, false, [], ◌∷◌,
  ◌++◌, reverse, reverse-cons, reverse-append, append_assoc, arith, if_cases,
}
use netping.Utils.{is_blank_char, collapse, sanitize_single_line}

-- A text without two spaces in a row.
abbrev pub IsSpaced : Str → Type 0
IsSpaced s = (before after : Str) → ¬ (s ≡ before ++ 32 ∷ 32 ∷ after)

not_blank_space : (r : ℕ) → is_blank_char r ≡ false → ¬ (r ≡ 32)
unfolding is_blank_char
not_blank_space r h e = ground arith

collapse_start : (s after : Str) → ¬ (collapse true s ≡ 32 ∷ after)
unfolding collapse
collapse_start [] after = λ e. cc
collapse_start (r ∷ s) after =
    if_cases (λ t. ¬ (t ≡ 32 ∷ after)) (is_blank_char r) (λ b. collapse_start s after)
      (λ b e. not_blank_space r b (head-eq_of_cons-eq e))

IsSpaced-space : (s : Str) → ((after : Str) → ¬ (s ≡ 32 ∷ after)) → IsSpaced s → IsSpaced (32 ∷ s)
IsSpaced-space s start h [] after e = start after (tail-eq_of_cons-eq e)
IsSpaced-space s start h (x ∷ before) after e = h before after (tail-eq_of_cons-eq e)

IsSpaced-cons : (r : ℕ) (s : Str) → ¬ (r ≡ 32) → IsSpaced s → IsSpaced (r ∷ s)
IsSpaced-cons r s k h [] after e = k (head-eq_of_cons-eq e)
IsSpaced-cons r s k h (x ∷ before) after e = h before after (tail-eq_of_cons-eq e)

nil-IsSpaced : IsSpaced []
nil-IsSpaced [] after e = cc
nil-IsSpaced (x ∷ before) after e = cc

collapse-IsSpaced : (last_was_space : Bool) (s : Str) → IsSpaced (collapse last_was_space s)
unfolding collapse
collapse-IsSpaced last_was_space [] = nil-IsSpaced
collapse-IsSpaced last_was_space (r ∷ s) =
    if_cases IsSpaced (is_blank_char r)
      (λ b.
        if_cases IsSpaced last_was_space (λ l. collapse-IsSpaced true s)
          (λ l. IsSpaced-space (collapse true s) (collapse_start s) (collapse-IsSpaced true s)))
      (λ b. IsSpaced-cons r (collapse false s) (not_blank_space r b) (collapse-IsSpaced false s))

IsSpaced-trim_left : (s : Str) → IsSpaced s → IsSpaced (trim_left s)
IsSpaced-trim_left [] h = h
IsSpaced-trim_left (c ∷ s) h =
    if_cases IsSpaced (is_space c)
      (λ e. IsSpaced-trim_left s (λ before after k. h (c ∷ before) after (ap (λ t. c ∷ t) k)))
      (λ e. h)

reverse_spaces :
    (before after : Str)
    → reverse (before ++ 32 ∷ 32 ∷ after) ≡ reverse after ++ 32 ∷ 32 ∷ reverse before
reverse_spaces before after = simp (reverse-append, reverse-cons, append_assoc)

IsSpaced-reverse : (s : Str) → IsSpaced s → IsSpaced (reverse s)
IsSpaced-reverse s h before after e =
    h (reverse after) (reverse before)
      (sym (reverse-reverse s) ∙ ap reverse e ∙ reverse_spaces before after)

IsSpaced-trim_space : (s : Str) → IsSpaced s → IsSpaced (trim_space s)
unfolding trim_space
IsSpaced-trim_space s h =
    IsSpaced-reverse _ (IsSpaced-trim_left _ (IsSpaced-reverse _ (IsSpaced-trim_left s h)))

pub sanitize_single_line-IsSpaced : (s : Str) → IsSpaced (sanitize_single_line s)
unfolding sanitize_single_line
sanitize_single_line-IsSpaced s =
    if_cases IsSpaced (is_empty s) (λ e. nil-IsSpaced)
      (λ e. IsSpaced-trim_space (collapse false s) (collapse-IsSpaced false s))
