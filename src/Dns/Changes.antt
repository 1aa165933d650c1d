-- ===== src/Dns/Changes.antt =====
-- The log of address changes that `RetryResolveHostname` of internal/dns/dns.go keeps.
use netping.Common.{
  ◌≡◌, refl, ap, ap₂, str_eq, str_eq_iff, true, false, List, [], ◌∷◌, ◌++◌, Time, Addr, no_addr,
  ipv4, ipv6, Floats, ◌==◌, ==_iff, arith, if_cases,
}
use netping.Stats.{Statistics, HostnameChange, Options, new_statistics}
use netping.Dns.{Resolved, resolved, unresolved, same_addr, is_new_addr, retry_resolve_hostname}

same_addr_lem : (a b : Addr) → same_addr a b ≡ true → a ≡ b
same_addr_lem no_addr no_addr h = refl
same_addr_lem no_addr (ipv4 n) h = cc
same_addr_lem no_addr (ipv6 n z) h = cc
same_addr_lem (ipv4 m) no_addr h = cc
same_addr_lem (ipv4 m) (ipv4 n) h = ap ipv4 ((==_iff m n).0 h)
same_addr_lem (ipv4 m) (ipv6 n z) h = cc
same_addr_lem (ipv6 m y) no_addr h = cc
same_addr_lem (ipv6 m y) (ipv4 n) h = cc
same_addr_lem (ipv6 m y) (ipv6 n z) h =
    let both : (m == n ≡ true) × (str_eq y z ≡ true) = ground arith in
    ap₂ ipv6 ((==_iff m n).0 both.0) ((str_eq_iff y z).0 both.1)

-- The newest address of a log.
abbrev pub last_addr : List HostnameChange → Addr
last_addr [] = no_addr
last_addr (c ∷ []) = c.addr
last_addr (c ∷ d ∷ cs) = last_addr (d ∷ cs)

-- No address follows itself.
abbrev pub Changing : List HostnameChange → Type 0
Changing [] = Unit
Changing (c ∷ []) = Unit
Changing (c ∷ d ∷ cs) = (same_addr c.addr d.addr ≡ false) × Changing (d ∷ cs)

-- The log has an entry, the newest is the address in use, and no address follows itself.
pub record IsLogged (ip : Addr) (cs : List HostnameChange) : Type 0 where
  pub newest : last_addr cs ≡ ip
  pub changing : Changing cs

append-Changing :
    (cs : List HostnameChange) (c : HostnameChange)
    → is_new_addr cs c.addr ≡ true
    → Changing cs
    → IsLogged c.addr (cs ++ c ∷ [])
append-Changing [] c new h = record { newest = refl; changing = tt }
append-Changing (b ∷ []) c new h = record { newest = refl; changing = (ground arith, tt) }
append-Changing (a ∷ b ∷ cs) c new h =
    let rest = append-Changing (b ∷ cs) c new h.1 in
    record { newest = rest.newest; changing = (h.0, rest.changing) }

not_new : (cs : List HostnameChange) (ip : Addr) → is_new_addr cs ip ≡ false → last_addr cs ≡ ip
not_new [] ip h = cc
not_new (c ∷ []) ip h = same_addr_lem c.addr ip (ground arith)
not_new (c ∷ d ∷ cs) ip h = not_new (d ∷ cs) ip h

module _ {F32 F64 : Type 0} where
  -- The re-resolutions of a target in turn, with their times, the newest at the head.
  unfoldable pub re_resolved : Statistics F32 F64 → List (Resolved × Time) → Statistics F32 F64
  re_resolved s [] = s
  re_resolved s ((answer, now) ∷ rs) = (retry_resolve_hostname answer now (re_resolved s rs)).0

  retry_resolve_hostname-IsLogged :
      (answer : Resolved) (now : Time) (s : Statistics F32 F64)
      → IsLogged s.ip s.hostname_changes
      → let t = (retry_resolve_hostname answer now s).0 in IsLogged t.ip t.hostname_changes
  unfolding retry_resolve_hostname
  retry_resolve_hostname-IsLogged (unresolved e) now s h = h
  retry_resolve_hostname-IsLogged (resolved ip) now s h =
      if_cases (IsLogged ip) (is_new_addr s.hostname_changes ip)
        (λ new.
          append-Changing s.hostname_changes (record { addr = ip; changed = now }) new h.changing)
        (λ old. record { newest = not_new s.hostname_changes ip old; changing = h.changing })

module _ {F32 F64 : Type 0} (fl : Floats F32 F64) (now : Time) (opts : Options) where
  -- After any re-resolutions of a target, failed ones included, that started from new statistics,
  -- the newest entry of the log of changes is the address in use, and no entry repeats the address
  -- of the one before it.
  pub re_resolved-IsLogged :
      (rs : List (Resolved × Time))
      → let s = re_resolved (new_statistics fl now opts) rs in IsLogged s.ip s.hostname_changes
  unfolding re_resolved
  re_resolved-IsLogged [] = unfold new_statistics in record { newest = refl; changing = tt }
  re_resolved-IsLogged ((answer, t) ∷ rs) =
      retry_resolve_hostname-IsLogged answer t (re_resolved (new_statistics fl now opts) rs)
        (re_resolved-IsLogged rs)
