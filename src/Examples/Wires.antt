-- ===== src/Examples/Wires.antt =====
-- The theorems on pings over text lines at concrete peers.
use netping.Common.{
  Str, codes, is_some, not, ◌&&◌, ltb, ◌≡◌, refl, arith, some, none, [], ◌∷◌, ◌++◌, pos,
  millisecond, ◌*◌,
}
use netping.Wire.{Peer, lines_of, write_error}
use netping.Wire.Rsync.{rsync_ping}
use netping.Wire.Memcached.{Numerals, memcached_ping}
use netping.Wire.Answers.{IsAnswer, greets, rsync_ping-IsAnswer, memcached_ping-IsAnswer}
use netping.Wire.Resp.{bulk, bulk_header, read_resp_bulk_string, read_resp_bulk_string-bulk_header}
use netping.Examples.{naturals, refused}

abbrev quote : Str → Str
quote s = codes "\"" ++ (s ++ codes "\"")

-- an rsync daemon with two modules
abbrev daemon : Peer
daemon = record {
  dial_error = none;
  local_addr = some (codes "192.0.2.7:50000");
  tls_details = [];
  received =
      codes "@RSYNCD: 31.0 digest=md5,md4\npub   public files\nsrc   sources\n@RSYNCD: EXIT\n";
  read_error = refused;
  write_errors = [];
  elapsed = pos (3 * millisecond);
}

rsync_ping-IsAnswer_example :
    IsAnswer daemon
      (not (is_some daemon.dial_error)
        && greets (codes "@RSYNCD:") (lines_of daemon.received)
        && not (is_some (write_error 0 daemon.write_errors)))
      (rsync_ping naturals (λ s. 31) quote daemon)
rsync_ping-IsAnswer_example = rsync_ping-IsAnswer naturals (λ s. 31) quote daemon

-- a Memcached server that answers the second question with an error
abbrev cache_server : Peer
cache_server = record daemon {
  received = codes "VERSION 1.6.9\r\nERROR\r\n";
  write_errors = none ∷ some refused ∷ [];
}

abbrev numerals : Numerals netping.Common.ℕ
numerals = record { int_value = λ s. pos 0; fixed1 = λ x. codes "1.0" }

memcached_ping-IsAnswer_example :
    IsAnswer cache_server
      (not (is_some cache_server.dial_error)
        && not (is_some (write_error 0 cache_server.write_errors))
        && greets (codes "VERSION") (lines_of cache_server.received))
      (memcached_ping naturals numerals quote cache_server)
memcached_ping-IsAnswer_example = memcached_ping-IsAnswer naturals numerals quote cache_server

read_resp_bulk_string-bulk_header_example :
    read_resp_bulk_string
      (λ n. ltb n 281474976710656)
      (codes "redis_version:7.2.4\r\n" ++ (codes "\r\n" ++ codes "+OK\r\n"))
      (bulk_header (codes "redis_version:7.2.4\r\n"))
    ≡ bulk (codes "redis_version:7.2.4\r\n")
read_resp_bulk_string-bulk_header_example =
    read_resp_bulk_string-bulk_header (λ n. ltb n 281474976710656) (codes "redis_version:7.2.4\r\n")
      (codes "+OK\r\n") (omega arith) refl
