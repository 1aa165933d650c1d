-- ===== src/Common/Net.antt =====
-- netip.Addr of Go's standard library, as far as the program asks about it.
use Prim.Native.Nat.{ℕ, ◌/◌, ◌%◌}
use mathlib.Core.Bool.{Bool, true, false}
use netping.Common.Tests.{◌==◌, if◌then◌else◌}
use netping.Common.Text.{Str}

-- The zero Addr, an IPv4 address of 32 bits, an IPv6 address of 128 bits with its zone.
pub data Addr : Type 0 where
  no_addr : Addr
  ipv4 : ℕ → Addr
  ipv6 : ℕ → Str → Addr

-- Addr.IsValid
abbrev pub is_valid : Addr → Bool
is_valid no_addr = false
is_valid (ipv4 n) = true
is_valid (ipv6 n zone) = true

-- Addr.Is4, Addr.Is6 (which holds of the IPv4-mapped addresses too)
abbrev pub is4 : Addr → Bool
is4 no_addr = false
is4 (ipv4 n) = true
is4 (ipv6 n zone) = false

abbrev pub is6 : Addr → Bool
is6 no_addr = false
is6 (ipv4 n) = false
is6 (ipv6 n zone) = true

-- Addr.Is4In6: ::ffff:0:0/96
abbrev pub is4in6 : Addr → Bool
is4in6 no_addr = false
is4in6 (ipv4 n) = false
is4in6 (ipv6 n zone) = n / 4294967296 == 65535

-- Addr.Unmap
abbrev pub unmap : Addr → Addr
unmap no_addr = no_addr
unmap (ipv4 n) = ipv4 n
unmap (ipv6 n zone) = if n / 4294967296 == 65535 then ipv4 (n % 4294967296) else ipv6 n zone
