-- ===== src/Wire.antt =====
-- What the pings over text lines share (pkg/probers/rsync.go, pkg/probers/memcached.go,
-- pkg/probers/redis.go): the peer, as
-- it turned out to behave.
pub mod Rsync
pub mod Memcached
pub mod Resp
pub mod Redis
pub mod Answers
use netping.Common.{
  ℕ, zero, suc, false, Str, codes, split_on, Option, none, some, List, [], ◌∷◌, ◌++◌, pos, Duration,
  ℤ,
}
use netping.Utils.{GoError}
use netping.Prober.{ProbeResult}
use netping.Engine.Execution.{no_result}

-- A dialed peer: the error of the dialer; the details of the TLS session, if there is one; what it
-- sends; the error of the read after that; the errors of the writes in turn, where a write
-- after the list succeeds; and the time since the start when a ping reads it (each path does once).
pub record Peer : Type 0 where
  pub dial_error : Option GoError
  pub local_addr : Option Str
  pub tls_details : Str
  pub received : Str
  pub read_error : GoError
  pub write_errors : List (Option GoError)
  pub elapsed : Duration

abbrev complete : List Str → List Str
complete [] = []
complete (p ∷ []) = []
complete (p ∷ q ∷ ps) = (p ++ codes "\n") ∷ complete (q ∷ ps)

-- the lines that ReadString('\n') gives in turn, before it fails
unfoldable pub lines_of : Str → List Str
lines_of s = complete (split_on b'\n' s)

-- the error of the write number `n`
abbrev pub write_error : ℕ → List (Option GoError) → Option GoError
write_error n [] = none
write_error zero (e ∷ es) = e
write_error (suc n) (e ∷ es) = write_error n es

-- fmt.Errorf(text + ": %w", err)
abbrev pub wrapped : Str → GoError → GoError
wrapped text e = record e { text = text ++ e.text }

-- an error of the program's own
abbrev pub plain_error : Str → GoError
plain_error text = record { text = text; is_timeout = false; errno = none }

-- the result of a ping that fails before it has a connection, and after
abbrev pub not_dialed : Peer → GoError → ProbeResult
not_dialed p e = record no_result { rtt = p.elapsed; err = some e }

abbrev pub failing : Peer → GoError → ProbeResult
failing p e = record no_result { local_addr = p.local_addr; rtt = p.elapsed; err = some e }

-- the result of a ping that succeeds
abbrev pub succeeding : Peer → Str → ProbeResult
succeeding p diagnostics = record no_result {
  local_addr = p.local_addr;
  rtt = p.elapsed;
  diagnostics = diagnostics;
}
