-- ===== src/Config/Ports.antt =====
-- The ports of internal/config/helpers.go: which texts are ports, and which port a protocol gets.
use netping.Common.{
  ℕ, zero, suc, ◌<◌, ◌≡◌, ◌↔◌, refl, ap, Str, itoa, atoi, atoi-itoa, parse_uint, parse_uint-itoa,
  Bool, true, false, if◌then◌else◌, ltb, arith, Option, none, some, [], is_empty, and_then,
  scan_digits, Bool-cases, inl, inr, if_cases,
}
use netping.Consts.{Protocol, protocol_str, tcp, udp, icmp, custom}
use netping.Consts.Protocols.{get_default_port, found_alias, normalize_protocol}
use netping.Config.{
  ok, checked_port, positive_or, convert_and_validate_port, port_or, as_port, auto_port,
  resolve_protocol_and_port,
}

-- The constants whose default port the expansion does not find.
abbrev pub no_auto_port : Protocol → Bool
no_auto_port udp = true
no_auto_port icmp = true
no_auto_port _ = false

-- The ports that a text can name.
abbrev pub IsPort : ℕ → Type 0
IsPort n = (0 < n) × (n < 65536)

parse_uint_small : (limit : ℕ) (s : Str) (n : ℕ) → parse_uint limit s ≡ some n → n < limit
unfolding parse_uint
parse_uint_small limit s n h = elim (Bool-cases (is_empty s)) [
  | inl e ↦ let f : none ≡ some n = rw e at h in cc
  | inr e ↦ go (scan_digits 0 s) (rw e at h)
]
  where
    go :
        (o : Option ℕ) → and_then o (λ k. if ltb k limit then some k else none) ≡ some n → n < limit
    go none f = cc
    go (some k) f = ground arith

checked_port-IsPort :
    (s : Str) (o : Option ℕ) (n : ℕ)
    → ((k : ℕ) → o ≡ some k → k < 65536)
    → checked_port s o ≡ ok n
    → IsPort n × (o ≡ some n)
checked_port-IsPort s none n small h = cc
checked_port-IsPort s (some zero) n small h = cc
checked_port-IsPort s (some (suc k)) n small h =
    let e : suc k ≡ n = cc in
    let b : suc k < 65536 = small (suc k) refl in ((omega arith, omega arith), ap some e)

positive_or-IsPort :
    (p : ℕ) (o : Option ℕ)
    → ((k : ℕ) → o ≡ some k → k < 65536)
    → IsPort p
    → IsPort (positive_or p o)
positive_or-IsPort p none small h = h
positive_or-IsPort p (some zero) small h = h
positive_or-IsPort p (some (suc k)) small h = (omega arith, small (suc k) refl)

-- `convertAndValidatePort` answers with a port exactly if its text reads as a decimal number of the
-- range 1 to 65535, and the port is that number.
pub convert_and_validate_port_lem :
    (s : Str) (n : ℕ)
    → (convert_and_validate_port s ≡ ok n) ↔ (IsPort n × (parse_uint 65536 s ≡ some n))
unfolding convert_and_validate_port
convert_and_validate_port_lem s n = (
  checked_port-IsPort s (parse_uint 65536 s) n (parse_uint_small 65536 s),
  λ h. accepted n h.0 h.1,
)
  where
    accepted :
        (k : ℕ)
        → IsPort k
        → parse_uint 65536 s ≡ some k
        → checked_port s (parse_uint 65536 s) ≡ ok k
    accepted zero h e = absurd (omega arith)
    accepted (suc k) h e = rw e refl

-- `convertAndValidatePort` takes the decimal text of each port 1 to 65535 to that port.
pub convert_and_validate_port-itoa : (n : ℕ) → IsPort n → convert_and_validate_port (itoa n) ≡ ok n
convert_and_validate_port-itoa n h =
    (convert_and_validate_port_lem (itoa n) n).1 (h, parse_uint-itoa 65536 n h.1)

pub port_or-IsPort : (p : ℕ) (s : Str) → IsPort p → IsPort (port_or p s)
unfolding port_or
port_or-IsPort p s h = positive_or-IsPort p (parse_uint 65536 s) (parse_uint_small 65536 s) h

positive_or_small :
    (p : ℕ) (o : Option ℕ)
    → ((k : ℕ) → o ≡ some k → k < 65536)
    → p < 65536
    → positive_or p o < 65536
positive_or_small p none small h = h
positive_or_small p (some zero) small h = h
positive_or_small p (some (suc k)) small h = small (suc k) refl

pub port_or_small : (p : ℕ) (s : Str) → p < 65536 → port_or p s < 65536
unfolding port_or
port_or_small p s h = positive_or_small p (parse_uint 65536 s) (parse_uint_small 65536 s) h

get_default_port_small : (p : Protocol) → get_default_port p < 65536
unfolding get_default_port
get_default_port_small (custom s) = omega arith
get_default_port_small tcp = omega arith
get_default_port_small _ = omega arith

normalized_small : (o : Option Protocol) → (found_alias o).1 < 65536
unfolding found_alias
normalized_small none = omega arith
normalized_small (some p) = get_default_port_small p

as_port-itoa : (n : ℕ) → n < 65536 → IsPort (as_port (atoi (itoa n)))
as_port-itoa zero h = unfold atoi itoa in (omega arith, omega arith)
as_port-itoa (suc n) h = rw (atoi-itoa (suc n) (omega arith)) (ground arith)

as_port-none : IsPort (as_port (atoi []))
unfolding atoi
as_port-none = (omega arith, omega arith)

-- Whatever a protocol's name is, the port that a target without one gets is a port.
pub auto_port-IsPort : (p : Protocol) → IsPort (auto_port p)
unfolding auto_port resolve_protocol_and_port normalize_protocol
auto_port-IsPort p =
    if_cases (λ s. IsPort (as_port (atoi s))) _ {y = []}
      (λ e. as_port-itoa (normalize_protocol (protocol_str p)).1 (normalized_small _))
      (λ e. as_port-none)
