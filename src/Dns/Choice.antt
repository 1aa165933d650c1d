-- ===== src/Dns/Choice.antt =====
-- Which address `ResolveHostname` of internal/dns/dns.go chooses.
use mathlib.Core.List.{Memᴰ}
use netping.Common.{
  ℕ, zero, suc, ◌<◌, ◌≡◌, refl, sym, subst, ◌∙◌, ap, Str, Bool, true, false, ◌||◌, not, Bool-cases,
  inl, inr, Option, none, some, List, [], ◌∷◌, map, Addr, no_addr, ipv4, ipv6, is4, unmap, length,
  get_elem?, All, All-map, ◌==◌, arith, if_cases, if◌then◌else◌,
}
use netping.Dns.{
  Resolved, resolved, unresolved, is_ipv4, is_ipv6, filter_ipv4, filter_ipv6, unmap_addresses,
  select_random_ip, Resolver, dual_stack, choose,
}

abbrev pub any_ipv4 : List Addr → Bool
any_ipv4 [] = false
any_ipv4 (ip ∷ ips) = is_ipv4 ip || any_ipv4 ips

-- Whether a resolver accepts an address, where `has_ipv4` says whether the lookup gave some IPv4
-- address: with `-4` an IPv4 address, with `-6` an IPv6 address, and otherwise an IPv4 address if
-- there is one.
abbrev pub accepts : Resolver → Bool → Addr → Bool
accepts r has_ipv4 ip =
    if r.use_ipv4 then is4 ip else if r.use_ipv6 then is_ipv6 ip else not has_ipv4 || is4 ip

-- The answer to a lookup that gave `ips`: an accepted address, one of them (an IPv4 address inside
-- an IPv6 one is taken out), or an error if none of them is accepted.
abbrev pub IsChoice : Resolver → List Addr → Resolved → Type 0
IsChoice r ips (resolved ip) = Memᴰ ip (map unmap ips) × (accepts r (any_ipv4 ips) ip ≡ true)
IsChoice r ips (unresolved e) = All (λ ip. accepts r (any_ipv4 ips) (unmap ip) ≡ false) ips

is4-unmap : (a : Addr) → is4 (unmap a) ≡ is_ipv4 a
is4-unmap no_addr = refl
is4-unmap (ipv4 n) = refl
is4-unmap (ipv6 n z) = ground arith

is_ipv6-unmap : (a : Addr) → is_ipv6 (unmap a) ≡ is_ipv6 a
is_ipv6-unmap no_addr = refl
is_ipv6-unmap (ipv4 n) = refl
is_ipv6-unmap (ipv6 n z) = ground arith

unmap_ipv6 : (a : Addr) → is_ipv6 a ≡ true → unmap a ≡ a
unmap_ipv6 no_addr h = cc
unmap_ipv6 (ipv4 n) h = cc
unmap_ipv6 (ipv6 n z) h = ground arith

module _ (P : Addr → Type 0) where
  -- An address that satisfies `P` is the result.
  abbrev Picks : Resolved → Type 0
  Picks x = (ip : Addr) × (x ≡ resolved ip) × P ip

  get_elem?-All :
      (n : ℕ) (ips : List Addr)
      → n < length ips
      → All P ips
      → (ip : Addr) × (get_elem? ips n ≡ some ip) × P ip
  get_elem?-All n [] h a = absurd (omega arith)
  get_elem?-All zero (ip ∷ ips) h a = (ip, refl, a.0)
  get_elem?-All (suc n) (ip ∷ ips) h a = get_elem?-All n ips (omega arith) a.1

  module _ (draw : ℕ → Option ℕ) (in_range : (n k : ℕ) → draw n ≡ some k → k < n) where
    select_random_ip-Picks :
        (ips : List Addr)
        → (length ips == 0) ≡ false
        → All P ips
        → Picks (select_random_ip draw ips)
    unfolding select_random_ip
    select_random_ip-Picks [] h a = absurd (ground arith)
    select_random_ip-Picks (ip ∷ ips) h a = go (draw (length (ip ∷ ips))) refl
      where
        go :
            (o : Option ℕ)
            → draw (length (ip ∷ ips)) ≡ o
            → Picks (elim o [
              | none ↦ resolved ip
              | some n ↦ netping.Dns.pick (ip ∷ ips) (get_elem? (ip ∷ ips) n)
            ])
        go none e = (ip, refl, a.0)
        go (some n) e =
            let x = get_elem?-All n (ip ∷ ips) (in_range _ n e) a in (x.0, (rw (x.1) refl), x.2)

module _ (R Q : Addr → Type 0) where
  filter_ipv4-All :
      (ips : List Addr)
      → ((a : Addr) → R a → is_ipv4 a ≡ true → Q (unmap a))
      → All R ips
      → All Q (filter_ipv4 ips)
  unfolding filter_ipv4
  filter_ipv4-All [] f h = tt
  filter_ipv4-All (ip ∷ ips) f h =
      if_cases (All Q) (is_ipv4 ip) (λ e. (f ip h.0 e, filter_ipv4-All ips f h.1))
        (λ e. filter_ipv4-All ips f h.1)

  filter_ipv6-All :
      (ips : List Addr)
      → ((a : Addr) → R a → is_ipv6 a ≡ true → Q a)
      → All R ips
      → All Q (filter_ipv6 ips)
  unfolding filter_ipv6
  filter_ipv6-All [] f h = tt
  filter_ipv6-All (ip ∷ ips) f h =
      if_cases (All Q) (is_ipv6 ip) (λ e. (f ip h.0 e, filter_ipv6-All ips f h.1))
        (λ e. filter_ipv6-All ips f h.1)

  unmap_addresses-All :
      (ips : List Addr) → ((a : Addr) → R a → Q (unmap a)) → All R ips → All Q (unmap_addresses ips)
  unfolding unmap_addresses
  unmap_addresses-All [] f h = tt
  unmap_addresses-All (ip ∷ ips) f h = (f ip h.0, unmap_addresses-All ips f h.1)

filter_ipv4_empty : (ips : List Addr) → (length (filter_ipv4 ips) == 0) ≡ not (any_ipv4 ips)
unfolding filter_ipv4
filter_ipv4_empty [] = ground arith
filter_ipv4_empty (ip ∷ ips) = elim (Bool-cases (is_ipv4 ip)) [
  | inl e ↦ rw e (ground arith)
  | inr e ↦ rw e (filter_ipv4_empty ips)
]

no_ipv4 : (ips : List Addr) → any_ipv4 ips ≡ false → All (λ ip. is4 (unmap ip) ≡ false) ips
no_ipv4 [] h = tt
no_ipv4 (ip ∷ ips) h = elim (Bool-cases (is_ipv4 ip)) [
  | inl e ↦ absurd (let g = rw e at h in cc)
  | inr e ↦ (rw (is4-unmap ip) e, no_ipv4 ips (rw e at h))
]

no_ipv6 :
    (ips : List Addr)
    → (length (filter_ipv6 ips) == 0) ≡ true
    → All (λ ip. is_ipv6 (unmap ip) ≡ false) ips
unfolding filter_ipv6
no_ipv6 [] h = tt
no_ipv6 (ip ∷ ips) h = elim (Bool-cases (is_ipv6 ip)) [
  | inl e ↦ absurd (let g = rw e at h in ground (arith, g))
  | inr e ↦ (rw (is_ipv6-unmap ip) e, no_ipv6 ips (rw e at h))
]

-- Every address is one of its list.
IsIn : List Addr → Addr → Type 0
IsIn ips a = Memᴰ (unmap a) (map unmap ips)

All-IsIn : (ips : List Addr) → All (IsIn ips) ips
unfolding IsIn
All-IsIn [] = tt
All-IsIn (ip ∷ ips) =
    (Memᴰ.head refl, All-map (IsIn ips) (IsIn (ip ∷ ips)) (λ a m. Memᴰ.tail m) ips (All-IsIn ips))

dual_stack_lem :
    (has_global_ipv6 : Bool) (ips : List Addr)
    → dual_stack has_global_ipv6 ips ≡ (
        if any_ipv4 ips
        then filter_ipv4 ips
        else if length (filter_ipv6 ips) == 0
        then unmap_addresses ips
        else filter_ipv6 ips)
unfolding dual_stack
dual_stack_lem has_global_ipv6 ips = ground (arith, filter_ipv4_empty ips)

length-unmap_addresses : (ips : List Addr) → (length (unmap_addresses ips) == 0) ≡ true → ips ≡ []
unfolding unmap_addresses
length-unmap_addresses [] h = refl
length-unmap_addresses (ip ∷ ips) h = absurd (ground arith)

module _ (r : Resolver) (ips : List Addr) where
  abbrev IsGood : Addr → Type 0
  IsGood ip = Memᴰ ip (map unmap ips) × (accepts r (any_ipv4 ips) ip ≡ true)

  module _ (draw : ℕ → Option ℕ) (in_range : (n k : ℕ) → draw n ≡ some k → k < n) where
    picked :
        (xs : List Addr)
        → (length xs == 0) ≡ false
        → All IsGood xs
        → IsChoice r ips (select_random_ip draw xs)
    picked xs some_left good =
        let x = select_random_ip-Picks IsGood draw in_range xs some_left good in
        subst (IsChoice r ips) (sym (x.1)) (x.2)

    none_picked :
        (xs : List Addr) → ips ≡ [] → length xs ≡ 0 → IsChoice r ips (select_random_ip draw xs)
    unfolding select_random_ip
    none_picked [] e z = rw e tt
    none_picked (x ∷ xs) e z = absurd (omega arith)

    filter_ipv4-IsGood :
        (accepts_ipv4 : (a : Addr) → is4 a ≡ true → accepts r (any_ipv4 ips) a ≡ true)
        → All IsGood (filter_ipv4 ips)
    unfolding IsIn
    filter_ipv4-IsGood accepts_ipv4 =
        filter_ipv4-All (IsIn ips) IsGood ips
          (λ a m e. (m, accepts_ipv4 (unmap a) (is4-unmap a ∙ e))) (All-IsIn ips)

    filter_ipv6-IsGood :
        (accepts_ipv6 : (a : Addr) → is_ipv6 a ≡ true → accepts r (any_ipv4 ips) a ≡ true)
        → All IsGood (filter_ipv6 ips)
    unfolding IsIn
    filter_ipv6-IsGood accepts_ipv6 =
        filter_ipv6-All (IsIn ips) IsGood ips
          (λ a m e. (subst (λ x. Memᴰ x (map unmap ips)) (unmap_ipv6 a e) m, accepts_ipv6 a e))
          (All-IsIn ips)

    refused_ipv4 :
        r.use_ipv4 ≡ true
        → any_ipv4 ips ≡ false
        → All (λ ip. accepts r (any_ipv4 ips) (unmap ip) ≡ false) ips
    refused_ipv4 four none_left =
        All-map (λ ip. is4 (unmap ip) ≡ false) (λ ip. accepts r (any_ipv4 ips) (unmap ip) ≡ false)
          (λ a e. rw four e) ips (no_ipv4 ips none_left)

    refused_ipv6 :
        r.use_ipv4 ≡ false
        → r.use_ipv6 ≡ true
        → (length (filter_ipv6 ips) == 0) ≡ true
        → All (λ ip. accepts r (any_ipv4 ips) (unmap ip) ≡ false) ips
    refused_ipv6 not_four six none_left =
        All-map (λ ip. is_ipv6 (unmap ip) ≡ false)
          (λ ip. accepts r (any_ipv4 ips) (unmap ip) ≡ false) (λ a e. rw (not_four, six) e) ips
          (no_ipv6 ips none_left)

    abbrev Serves : List Addr → Type 0
    Serves xs = IsChoice r ips (select_random_ip draw xs)

    -- Without `-4` and `-6` and without an IPv4 address, every address will do.
    any_will_do :
        r.use_ipv4 ≡ false
        → r.use_ipv6 ≡ false
        → any_ipv4 ips ≡ false
        → (a : Addr) → accepts r (any_ipv4 ips) a ≡ true
    any_will_do not_four not_six none_left a = rw (not_four, not_six, none_left) refl

    unmapped : ((a : Addr) → accepts r (any_ipv4 ips) a ≡ true) → Serves (unmap_addresses ips)
    unfolding IsIn
    unmapped accepted = elim (Bool-cases (length (unmap_addresses ips) == 0)) [
      | inl e ↦ none_picked (unmap_addresses ips) (length-unmap_addresses ips e) (ground arith)
      | inr e ↦ picked (unmap_addresses ips) e (
          unmap_addresses-All (IsIn ips) IsGood ips (λ a m. (m, accepted (unmap a))) (All-IsIn ips))
    ]

    either :
        r.use_ipv4 ≡ false
        → r.use_ipv6 ≡ false
        → Serves (
            if any_ipv4 ips
            then filter_ipv4 ips
            else if length (filter_ipv6 ips) == 0
            then unmap_addresses ips
            else filter_ipv6 ips)
    either not_four not_six =
        if_cases Serves (any_ipv4 ips)
          (λ some_left.
            picked (filter_ipv4 ips) (filter_ipv4_empty ips ∙ ap not some_left)
              (filter_ipv4-IsGood (λ a e. rw (not_four, not_six, some_left) e)))
          (λ none_left.
            if_cases Serves (length (filter_ipv6 ips) == 0)
              (λ z. unmapped (any_will_do not_four not_six none_left))
              (λ s.
                picked (filter_ipv6 ips) s
                  (filter_ipv6-IsGood (λ a e. any_will_do not_four not_six none_left a))))

    -- With a random source that draws below its bound, the choice from the addresses of a lookup
    -- respects the resolver: it is one of them (an IPv4 address inside an IPv6 one taken out), with
    -- `-4` an IPv4 address, with `-6` an IPv6 address, and with neither an IPv4 address if there is
    -- one; and it is an error only if none of the addresses is like that.
    pub choose-IsChoice :
        (has_global_ipv6 : Bool) (hostname : Str)
        → IsChoice r ips (choose r has_global_ipv6 draw hostname ips)
    unfolding choose
    choose-IsChoice has_global_ipv6 hostname =
        if_cases (IsChoice r ips) r.use_ipv4
          (λ four.
            if_cases (IsChoice r ips) (length (filter_ipv4 ips) == 0)
              (λ z. refused_ipv4 four (let e = filter_ipv4_empty ips in ground arith))
              (λ s. picked (filter_ipv4 ips) s (filter_ipv4-IsGood (λ a e. rw four e))))
          (λ not_four.
            if_cases (IsChoice r ips) r.use_ipv6
              (λ six.
                if_cases (IsChoice r ips) (length (filter_ipv6 ips) == 0)
                  (refused_ipv6 not_four six)
                  (λ s.
                    picked (filter_ipv6 ips) s (filter_ipv6-IsGood (λ a e. rw (not_four, six) e))))
              (λ not_six.
                subst Serves (sym (dual_stack_lem has_global_ipv6 ips)) (either not_four not_six)))
