-- ===== src/Broadcaster/History.antt =====
-- The event history of pkg/web/broadcaster.go and its pages.
use netping.Common.{
  ℕ, ◌+◌, Str, ◌≡◌, sym, ap, ◌∙◌, Bool, ◌&&◌, Bool-cases, inl, inr, List, [], ◌∷◌, ◌++◌, reverse,
  append_assoc, append-nil, ℤ, length, take, drop, select, drop-append_le, drop_all, drop-nil,
  take-nil, ap₂, take-append_last, length-append, ltb, arith, if◌then◌else◌,
}
use netping.Broadcaster.{
  ProbeEvent, Broadcaster, page_limit, page_offset, matches, collect, get_probes,
}

module _ {F64 : Type 0} where
  -- The window of `GetProbes` over the matching events that were seen.
  abbrev page : ℕ → ℕ → List (ProbeEvent F64) → List (ProbeEvent F64)
  page limit offset seen = take limit (drop offset seen)

  page-append_last :
      (limit offset : ℕ) (seen : List (ProbeEvent F64)) (ev : ProbeEvent F64)
      → page limit offset (seen ++ ev ∷ []) ≡ (
          if ltb offset (length seen + 1) && ltb (length (page limit offset seen)) limit
          then page limit offset seen ++ ev ∷ []
          else page limit offset seen)
  page-append_last limit offset seen ev = elim (Bool-cases (ltb offset (length seen + 1))) [
    | inl e ↦
        rw (drop-append_le offset seen (ev ∷ []) (ground arith), e)
          (take-append_last limit (drop offset seen) ev)
    | inr e ↦ rw (
      e,
      drop_all offset seen (ground arith),
      drop_all offset (seen ++ ev ∷ []) (ground (arith, length-append seen (ev ∷ []))),
    )
  ]

  collect_lem :
      (p : ProbeEvent F64 → Bool) (limit offset : ℕ) (evs seen : List (ProbeEvent F64))
      → collect p limit offset evs (page limit offset seen) (length seen)
        ≡ (page limit offset (seen ++ select p evs), length (seen ++ select p evs))
  unfolding collect
  collect_lem p limit offset [] seen = rw append-nil
  collect_lem p limit offset (ev ∷ evs) seen = elim (Bool-cases (p ev)) [
    | inl e ↦ rw e (
        ap₂ (collect p limit offset evs) (sym (page-append_last limit offset seen ev))
          (sym (length-append seen (ev ∷ [])))
        ∙ collect_lem p limit offset evs (seen ++ ev ∷ [])
        ∙ ap (λ l. (page limit offset l, length l)) (append_assoc seen (ev ∷ []) (select p evs)))
    | inr e ↦ rw e (collect_lem p limit offset evs seen)
  ]

  -- `GetProbes` gives the page that its parameters ask for: of all the events of the history that
  -- match the target and the status, the newest first, those after the first `offset`, at most
  -- `limit` of them; and with it the number of all that match. (A limit that is not in 1..500 counts
  -- as 50, a negative offset as 0.)
  pub get_probes_lem :
      (target status : Str) (limit offset : ℤ) (b : Broadcaster F64)
      → let found = select (matches target status) (reverse b.history) in
        get_probes target status limit offset b
        ≡ (take (page_limit limit) (drop (page_offset offset) found), length found)
  unfolding get_probes
  get_probes_lem target status limit offset b =
      let l = page_limit limit in
      let o = page_offset offset in
      let p = matches target status in
      ap (λ seen. collect p l o (reverse b.history) seen 0)
        (sym (rw (drop-nil {A = ProbeEvent F64} o) (take-nil l)))
      ∙ collect_lem p l o (reverse b.history) []
