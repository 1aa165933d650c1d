-- ===== src/Lib.antt =====
-- A model of netping's core: the probing loop of a target, its statistics, the broadcaster of probe
-- events, the authentication of requests, the names and ports of the protocols, the construction of
-- pingers, the resolution of hostnames and the utilities that these use.
--
-- The parts and where they are modelled:
--   Consts, Consts/Protocols    pkg/consts/consts.go, pkg/consts/protocols.go: `Protocol`, the tables
--                               of ports and of aliases, GetDefaultPort, NormalizeProtocol
--   Stats                       pkg/stats/stats.go: `Statistics`, NewStatistics, RecordSuccess,
--                               RecordFailure, Snapshot, Reset, NewLongestTime
--   Utils                       pkg/utils/utils.go, pkg/utils/backoff.go: ClassifyError,
--                               SetLongestDuration, SanitizeSingleLine, CalculateBackoff
--   Dns                         internal/dns/dns.go: ResolveHostname, RetryResolveHostname
--   Prober                      pkg/probers/probers.go: NewProber, Probe, finalizeStatistics
--   Multi                       pkg/probers/multi_prober.go: Run, with its goroutines in any order
--   Broadcaster                 pkg/web/broadcaster.go: all methods, and the channels
--   Engine/Registry             pkg/engine/registry.go: all methods
--   Engine                      pkg/engine/dynamic.go, pkg/web/types.go: the requests (Requests), their
--                               settings (Plans), Execute (Execution), the answers (Responses)
--   Config                      internal/config/helpers.go: ports, protocols, ResolveTargetPool,
--                               compareVersions
--   Auth                        pkg/auth/verifier.go, keystore.go and middleware.go: VerifyKey, Reload,
--                               ValidateKey, ExtractAPIKey, RequireAuth
--   Pingers, Factory            the options of pkg/probers/*.go, what the constructors keep of them, and
--                               pkg/probers/factory.go: BuildPinger
--   Wire                        pkg/probers/rsync.go, pkg/probers/memcached.go, pkg/probers/redis.go:
--                               Ping, over what a peer sends and the errors of the connection
--   Common                      lists over the native numbers, texts, machine words, times, addresses
--   Examples                    the theorems at concrete inputs
--
-- How they interact: the command builds a pinger with `build_pinger` and a `Prober` over a fresh
-- `Statistics`. `probe` receives ticks and the cancellation; a tick (`on_tick`) pings, judges the
-- answer, retries with a backoff (Utils), records the outcome in the statistics, re-resolves the
-- hostname (Dns) and calls the printer and the callback. The broadcaster keeps the events that the
-- web server derives from the outcomes and hands them to its subscribers. In front of the server's
-- handlers `require_auth` extracts the key of a request and asks the key store, which asks
-- `verify_key` for each hash that it holds. A trigger request reaches `execute`, which names its
-- target, takes the target's statistics from the registry and makes its probes; the command's flags
-- give the pool of targets through `resolve_target_pool`.
--
-- How state is modelled: a Go structure is a record and a method that changes it returns the new
-- record; a method that holds a mutex is one step. The statistics that the registry's two maps share
-- are places in a heap. What the loop calls outside itself is the record
-- `Prober.World` over an arbitrary state `W`: a theorem over it holds for every behaviour of pings,
-- sleeps, clocks, random sources, resolvers and printers. The `select` of `Probe` reads a list of
-- signals. The goroutines of `MultiProber.Run` are a step relation over their points of interruption
-- (`Multi.Move`, `Multi.Steps`), and a theorem on it holds for every schedule. A panic of the broadcaster's channels is `none`.
--
-- Numbers: `uint` and counters are natural numbers modulo 2^64 (`inc`, `add_u64`); `int64` and
-- `time.Duration` are integers whose sums wrap (`add_i64`); a difference of times saturates as
-- `time.Time.Sub` does (`sub_time`). A time is a number of nanoseconds after Go's zero time.
-- float32 and float64 are parameters (`Floats`), with the laws of a strict order where a theorem
-- needs them. There is no fuel: the loop of retries recurses on the rounds that are left, and the
-- probing loop on the signals that it receives; Prober/Limits shows that it returns.
--
-- Not modelled: the other protocols on the wire, the sockets of traceroutes, the server, the printers,
-- the flags, the metrics, and the generation and the writing of keys. SHA-256, Argon2id, base64, JSON,
-- files, RunTraceroute, Go's lookup of names and its parsing of addresses and URLs are parameters of the
-- functions that use them, and so is the formatting of times and numbers.
-- A panic of `make` for a huge count in `Execute`, and one of Argon2id for a hash with t=0 or p=0, are
-- left out. `RemoveTarget` takes the first match in the order of insertion, where the order of a Go map
-- is random. `TrimSpace` knows all of Go's blanks; `ToLower` knows the letters with a lower case in
-- ASCII. Characters are code points.
pub mod Common
pub mod Consts
pub mod Stats
pub mod Utils
pub mod Dns
pub mod Prober
pub mod Broadcaster
pub mod Pingers
pub mod Factory
pub mod Engine
pub mod Config
pub mod Multi
pub mod Wire
pub mod Examples
pub mod Auth
