-- ===== src/Utils/Lines.antt =====
-- What `SanitizeSingleLine` of pkg/utils/utils.go leaves of a text.
use netping.Common.{
  ℕ, ◌≤◌, ◌⊎◌, inl, ◌≡◌, Str, is_empty, is_space, trim_left, trim_space, Bool, true, false, [], ◌∷◌,
  reverse, reverse-cons, All, All-append, arith, if_cases,
}
use netping.Utils.{is_blank_char, collapse, sanitize_single_line}

-- A text whose characters have at least the code of the space (32), or that of the escape (27) of
-- terminal colours: it has no line feed (10), carriage return (13), tab (9, 11) or form feed (12).
abbrev pub IsLine : Str → Type 0
IsLine = All (λ c. (32 ≤ c) ⊎ (c ≡ 27))

module _ (P : ℕ → Type 0) where
  All-reverse : (s : Str) → All P s → All P (reverse s)
  All-reverse [] h = tt
  All-reverse (c ∷ s) h =
      rw (reverse-cons c s) (All-append P (reverse s) (c ∷ []) (All-reverse s h.1) (h.0, tt))

  All-trim_left : (s : Str) → All P s → All P (trim_left s)
  All-trim_left [] h = tt
  All-trim_left (c ∷ s) h = if_cases (All P) (is_space c) (λ e. All-trim_left s h.1) (λ e. h)

  All-trim_space : (s : Str) → All P s → All P (trim_space s)
  unfolding trim_space
  All-trim_space s h = All-reverse _ (All-trim_left _ (All-reverse _ (All-trim_left s h)))

kept_char : (c : ℕ) → is_blank_char c ≡ false → (32 ≤ c) ⊎ (c ≡ 27)
unfolding is_blank_char
kept_char c h = ground arith

collapse-IsLine : (last_was_space : Bool) (s : Str) → IsLine (collapse last_was_space s)
unfolding collapse
collapse-IsLine last_was_space [] = tt
collapse-IsLine last_was_space (c ∷ s) =
    if_cases IsLine (is_blank_char c)
      (λ blank.
        if_cases IsLine last_was_space (λ e. collapse-IsLine true s)
          (λ e. (inl (omega arith), collapse-IsLine true s)))
      (λ other. (kept_char c other, collapse-IsLine false s))

pub sanitize_single_line-IsLine : (s : Str) → IsLine (sanitize_single_line s)
unfolding sanitize_single_line
sanitize_single_line-IsLine s =
    if_cases IsLine (is_empty s) (λ e. tt)
      (λ e. All-trim_space _ (collapse false s) (collapse-IsLine false s))
