-- ===== src/Dns.antt =====
-- internal/dns/dns.go: the choice of an address for a hostname, and re-resolution. The resolver of
-- Go's `net`, `netip.ParseAddr` and the random source are parameters; texts of wrapped errors keep
-- the kind of the error and the hostname.
pub mod Choice
pub mod Changes
use netping.Common.{
  ℕ, Str, Bool, true, false, ◌&&◌, ◌||◌, not, Option, none, some, List, [], ◌∷◌, ◌++◌, map, select,
  Time, Addr, no_addr, ipv4, ipv6, is4, is6, is4in6, unmap, length, get_elem?, ltb, ◌==◌,
  if◌then◌else◌,
}
use netping.Stats.{Statistics, HostnameChange}

pub data DnsError : Type 0 where
  no_ipv4_address no_ipv6_address : Str → DnsError
  no_ip_addresses : DnsError
  lookup_failed : DnsError

pub data Resolved : Type 0 where
  resolved : Addr → Resolved
  unresolved : DnsError → Resolved

-- the conditions of `filterIPv4` and of `filterIPv6`
abbrev pub is_ipv4 : Addr → Bool
is_ipv4 ip = is4 ip || is4in6 ip

abbrev pub is_ipv6 : Addr → Bool
is_ipv6 ip = is6 ip && not (is4in6 ip)

-- filterIPv4
unfoldable pub filter_ipv4 : List Addr → List Addr
filter_ipv4 [] = []
filter_ipv4 (ip ∷ ips) = if is_ipv4 ip then unmap ip ∷ filter_ipv4 ips else filter_ipv4 ips

-- filterIPv6
unfoldable pub filter_ipv6 : List Addr → List Addr
filter_ipv6 [] = []
filter_ipv6 (ip ∷ ips) = if is_ipv6 ip then ip ∷ filter_ipv6 ips else filter_ipv6 ips

-- unmapAddresses
unfoldable pub unmap_addresses : List Addr → List Addr
unmap_addresses ips = map unmap ips

-- `ipAddrs[n.Int64()]`, with the index that the random source drew below the length
abbrev pub pick : List Addr → Option Addr → Resolved
pick ips (some ip) = resolved ip
pick ips none = unresolved no_ip_addresses

-- selectRandomIP; `draw n` is the result of `crand.Int` below `n`, `none` if it fails
unfoldable pub select_random_ip : (ℕ → Option ℕ) → List Addr → Resolved
select_random_ip draw [] = unresolved no_ip_addresses
select_random_ip draw (ip ∷ ips) = elim (draw (length (ip ∷ ips))) [
  | none ↦ resolved ip
  | some n ↦ pick (ip ∷ ips) (get_elem? (ip ∷ ips) n)
]

pub record Resolver : Type 0 where
  pub use_ipv4 : Bool
  pub use_ipv6 : Bool

-- the `default` case of the `switch`: both branches of `!HasGlobalIPv6()` take the IPv4 addresses
unfoldable pub dual_stack : Bool → List Addr → List Addr
unfolding filter_ipv4 filter_ipv6 unmap_addresses
dual_stack has_global_ipv6 ips =
    let v4s = filter_ipv4 ips in
    let v6s = filter_ipv6 ips in
    if ltb 0 (length v4s) && ltb 0 (length v6s)
    then (if not has_global_ipv6 then v4s else v4s)
    else if ltb 0 (length v4s)
    then v4s
    else if ltb 0 (length v6s)
    then v6s
    else unmap_addresses ips

-- the `switch` of `ResolveHostname` and what follows, over the addresses that the lookup gave
unfoldable pub choose : Resolver → Bool → (ℕ → Option ℕ) → Str → List Addr → Resolved
unfolding filter_ipv4 filter_ipv6 dual_stack select_random_ip
choose r has_global_ipv6 draw hostname ips =
    if r.use_ipv4
    then (if length (filter_ipv4 ips) == 0
        then unresolved (no_ipv4_address hostname)
        else select_random_ip draw (filter_ipv4 ips))
    else if r.use_ipv6
    then (if length (filter_ipv6 ips) == 0
        then unresolved (no_ipv6_address hostname)
        else select_random_ip draw (filter_ipv6 ips))
    else select_random_ip draw (dual_stack has_global_ipv6 ips)

abbrev after_lookup : Resolver → Bool → (ℕ → Option ℕ) → Str → Option (List Addr) → Resolved
after_lookup r has_global_ipv6 draw hostname none = unresolved lookup_failed
after_lookup r has_global_ipv6 draw hostname (some ips) = choose r has_global_ipv6 draw hostname ips

abbrev after_parse : Option Addr → Resolved → Resolved
after_parse (some ip) looked_up = resolved ip
after_parse none looked_up = looked_up

-- ResolveHostname; `parse_addr` is `netip.ParseAddr`, and `lookup` the `LookupNetIP` of the resolver
unfoldable pub resolve_hostname :
    (Str → Option Addr)
    → (Str → Option (List Addr))
    → Resolver
    → Bool
    → (ℕ → Option ℕ)
    → Str
    → Resolved
unfolding choose
resolve_hostname parse_addr lookup r has_global_ipv6 draw hostname =
    after_parse (parse_addr hostname)
      (after_lookup r has_global_ipv6 draw hostname (lookup hostname))

abbrev pub same_addr : Addr → Addr → Bool
same_addr no_addr no_addr = true
same_addr (ipv4 m) (ipv4 n) = m == n
same_addr (ipv6 m z) (ipv6 n y) = m == n && netping.Common.str_eq z y
same_addr _ _ = false

-- `len(changes) == 0 || changes[len(changes)-1].Addr != newIP`
abbrev pub is_new_addr : List HostnameChange → Addr → Bool
is_new_addr [] ip = true
is_new_addr (c ∷ []) ip = not (same_addr c.addr ip)
is_new_addr (c ∷ d ∷ cs) ip = is_new_addr (d ∷ cs) ip

module _ {F32 F64 : Type 0} where
  -- RetryResolveHostname at the time `now`, with what `ResolveHostname` returned
  unfoldable pub retry_resolve_hostname :
      Resolved → Time → Statistics F32 F64 → Statistics F32 F64 × Option DnsError
  retry_resolve_hostname (unresolved e) now s = (s, some e)
  retry_resolve_hostname (resolved ip) now s = (
    record s {
      ip = ip;
      hostname_changes =
          if is_new_addr s.hostname_changes ip
          then s.hostname_changes ++ record { addr = ip; changed = now } ∷ []
          else s.hostname_changes;
    },
    none,
  )
