-- ===== src/Consts/Protocols/Normal.antt =====
-- The laws of the normalisation of pkg/consts/protocols.go.
use netping.Common.{
  Str, str_eq, trim_space, to_lower, ◌≡◌, refl, Bool, true, false, Option, none, some, List, [],
  ◌∷◌, arith, All, all_pass, All-all_pass, Bool-cases, inl, inr,
}
use netping.Consts.{Protocol, protocol_str, tcp, amqp, rabbitmq, custom}
use netping.Consts.Protocols.{
  protocol_aliases, lookup_alias, get_default_port, found_alias, normalize_protocol,
}

-- Whether a protocol is one of the declared constants.
abbrev pub is_constant : Protocol → Bool
is_constant (custom s) = false
is_constant _ = true

-- What the name of a constant is normalised to: the constant itself, and `amqp` to `rabbitmq`,
-- since the alias "amqp" stands for RABBITMQ.
abbrev pub canonical : Protocol → Protocol
canonical amqp = rabbitmq
canonical (custom s) = tcp
canonical p = p

-- The canonical name of each declared protocol is itself accepted as input: it is normalised to
-- that protocol (AMQP to RABBITMQ) with the protocol's default port, and reported as known.
pub normalize_protocol-protocol_str :
    (p : Protocol)
    → is_constant p ≡ true
    → normalize_protocol (protocol_str p) ≡ (canonical p, get_default_port p, true)
unfolding normalize_protocol protocol_str
normalize_protocol-protocol_str (custom s) h = ground arith
normalize_protocol-protocol_str tcp h = refl
normalize_protocol-protocol_str _ h = refl

-- A protocol that some alias stands for.
abbrev is_normal : Protocol → Bool
is_normal amqp = false
is_normal (custom s) = false
is_normal _ = true

lookup_alias-is_normal :
    (s : Str) (m : List (Str × Protocol)) {p : Protocol}
    → All (λ e. is_normal e.1 ≡ true) m
    → lookup_alias s m ≡ some p
    → is_normal p ≡ true
unfolding lookup_alias
lookup_alias-is_normal s [] a h = cc
lookup_alias-is_normal s ((k, q) ∷ m) {p} a h = elim (Bool-cases (str_eq k s)) [
  | inl e ↦ let found : some q ≡ some p = rw e at h in ground (arith, a.0)
  | inr e ↦ let rest : lookup_alias s m ≡ some p = rw e at h in lookup_alias-is_normal s m a.1 rest
]

canonical_of_is_normal : (p : Protocol) → is_normal p ≡ true → canonical p ≡ p
canonical_of_is_normal (custom s) h = cc
canonical_of_is_normal amqp h = cc
canonical_of_is_normal tcp h = refl
canonical_of_is_normal _ h = refl

constant_of_is_normal : (p : Protocol) → is_normal p ≡ true → is_constant p ≡ true
constant_of_is_normal (custom s) h = cc
constant_of_is_normal amqp h = cc
constant_of_is_normal tcp h = refl
constant_of_is_normal _ h = refl

normalize_protocol_lem :
    (s : Str)
    → normalize_protocol s ≡ found_alias (lookup_alias (to_lower (trim_space s)) protocol_aliases)
unfolding normalize_protocol
normalize_protocol_lem s = refl

aliases-is_normal : All (λ e. is_normal e.1 ≡ true) protocol_aliases
aliases-is_normal = All-all_pass (λ e. is_normal e.1) protocol_aliases all
  where
    all : all_pass (λ e. is_normal e.1) protocol_aliases ≡ true
    all = unfold protocol_aliases all_pass in refl

found_again :
    (o : Option Protocol)
    → ((p : Protocol) → o ≡ some p → is_normal p ≡ true)
    → (found_alias o).2 ≡ true
    → normalize_protocol (protocol_str (found_alias o).0) ≡ found_alias o
unfolding found_alias
found_again none normal h = cc
found_again (some p) normal h =
    let e = normal p refl in
    rw (normalize_protocol-protocol_str p (constant_of_is_normal p e), canonical_of_is_normal p e)

-- The protocol that an accepted input is normalised to has a name that is accepted too and gives
-- the same protocol and the same port; so the answer does not depend on whether the input or the
-- canonical name is normalised.
pub normalize_protocol_again :
    (s : Str)
    → (normalize_protocol s).2 ≡ true
    → normalize_protocol (protocol_str (normalize_protocol s).0) ≡ normalize_protocol s
normalize_protocol_again s = rw (normalize_protocol_lem s) (
    found_again (lookup_alias (to_lower (trim_space s)) protocol_aliases)
      (λ p. lookup_alias-is_normal (to_lower (trim_space s)) protocol_aliases aliases-is_normal))

-- White space around the input and the case of its letters make no difference.
pub normalize_protocol_fold :
    (s t : Str)
    → to_lower (trim_space s) ≡ to_lower (trim_space t)
    → normalize_protocol s ≡ normalize_protocol t
normalize_protocol_fold s t h = rw (normalize_protocol_lem s, normalize_protocol_lem t, h)
