-- ===== src/Broadcaster.antt =====
-- pkg/web/broadcaster.go: the event history and the subscribers' channels. Each method holds the
-- mutex, so it is one step. The channels are those of the runtime, named by the order in which they
-- were made: a channel has a buffer of 32 events, and a send on a closed channel or a second close
-- is a panic, here `none`. The client's receive is a step of its own.
pub mod History
pub mod Channels
pub mod Safety
pub mod Tidy
pub mod Delivery
use netping.Common.{
  ℕ, suc, ◌+◌, ◌-◌, Str, codes, str_eq, is_empty, Bool, true, false, ◌&&◌, not, Option, none, some,
  List, [], ◌∷◌, ◌++◌, reverse, ℤ, pos, negsuc, le_zero, Time, length, last, and_then, ltb, ◌==◌,
  if◌then◌else◌,
}
use netping.Utils.{sanitize_single_line}

pub record ProbeEvent (F64 : Type 0) : Type 0 where
  pub raw_time : Time
  pub timestamp : Str
  pub sequence : ℕ
  pub success : Bool
  pub rtt : F64
  pub target : Str
  pub hostname : Str
  pub ip : Str
  pub port : ℕ
  pub protocol : Str
  pub diagnostics : Str
  pub error : Str
  pub dns_time : F64
  pub tcp_time : F64
  pub tls_time : F64
  pub ttfb : F64
  pub http_status : ℤ
  pub total_sent : ℕ
  pub total_success : ℕ
  pub total_failed : ℕ
  pub packet_loss : F64
  pub avg_rtt : F64
  pub min_rtt : F64
  pub max_rtt : F64
  pub p95_rtt : F64
  pub p99_rtt : F64
  pub jitter : F64
  pub uptime_duration : Str

-- A `chan ProbeEvent` of capacity 32.
pub record Channel (F64 : Type 0) : Type 0 where
  pub id : ℕ
  pub buffer : List (ProbeEvent F64)
  pub is_closed : Bool

abbrev pub capacity : ℕ
capacity = 32

-- `subscribers` are the channels in the map; `channels` are all that were made.
pub record Broadcaster (F64 : Type 0) : Type 0 where
  pub subscribers : List ℕ
  pub history : List (ProbeEvent F64)
  pub max_history : ℤ
  pub channels : List (Channel F64)
  pub next_id : ℕ

abbrev pub default_history : ℕ
default_history = 1000000

-- `maxHistory`, or 1000000 if it is not positive
abbrev pub history_cap : ℤ → ℕ
history_cap (pos n) = if n == 0 then default_history else n
history_cap (negsuc n) = default_history

-- `if len(h) > cap { h = h[len(h)-cap:] }`
abbrev pub clip_history {ℓ} : {A : Type ℓ} → ℕ → List A → List A
clip_history cap xs = if ltb cap (length xs) then last cap xs else xs

-- the two corrections of the limit in `SetMaxHistory`
abbrev pub limit_of : ℤ → ℕ
limit_of limit = let n = history_cap limit in if ltb 5000000 n then 5000000 else n

abbrev pub is_member : ℕ → List ℕ → Bool
is_member k [] = false
is_member k (j ∷ js) = if j == k then true else is_member k js

-- delete(m, k)
abbrev pub remove_key : ℕ → List ℕ → List ℕ
remove_key k [] = []
remove_key k (j ∷ js) = if j == k then remove_key k js else j ∷ remove_key k js

abbrev pub page_limit : ℤ → ℕ
page_limit (pos n) = if n == 0 then 50 else if ltb 500 n then 50 else n
page_limit (negsuc n) = 50

abbrev pub page_offset : ℤ → ℕ
page_offset (pos n) = n
page_offset (negsuc n) = 0

abbrev prepend {ℓ} : {A : Type ℓ} → A → Option (List A) → Option (List A)
prepend x none = none
prepend x (some xs) = some (x ∷ xs)

module _ {F64 : Type 0} where
  -- NewBroadcaster
  unfoldable pub new_broadcaster : Broadcaster F64
  new_broadcaster = record {
    subscribers = [];
    history = [];
    max_history = pos default_history;
    channels = [];
    next_id = 0;
  }

  -- SetMaxHistory
  unfoldable pub set_max_history : ℤ → Broadcaster F64 → Broadcaster F64
  set_max_history limit b = record b {
    max_history = pos (limit_of limit);
    history = clip_history (limit_of limit) b.history;
  }

  -- GetMaxHistory
  unfoldable pub get_max_history : Broadcaster F64 → ℕ
  get_max_history b = history_cap b.max_history

  -- GetHistory
  abbrev pub get_history : Broadcaster F64 → List (ProbeEvent F64)
  get_history b = b.history

  -- GetHistoryCount
  unfoldable pub get_history_count : Broadcaster F64 → ℕ
  get_history_count b = length b.history

  -- Subscribe
  unfoldable pub subscribe : Broadcaster F64 → Broadcaster F64 × ℕ
  subscribe b = (
    record b {
      subscribers = b.next_id ∷ b.subscribers;
      channels = record { id = b.next_id; buffer = []; is_closed = false } ∷ b.channels;
      next_id = suc b.next_id;
    },
    b.next_id,
  )

  -- close(ch): a panic if it is closed already, or is no channel
  unfoldable pub close : ℕ → List (Channel F64) → Option (List (Channel F64))
  close k [] = none
  close k (c ∷ cs) =
      let rest = prepend c (close k cs) in
      if c.id == k
      then (if c.is_closed then none else some (record c { is_closed = true } ∷ cs))
      else rest

  abbrev with_channels : Broadcaster F64 → Option (List (Channel F64)) → Option (Broadcaster F64)
  with_channels b none = none
  with_channels b (some cs) = some (record b { channels = cs })

  -- Unsubscribe
  unfoldable pub unsubscribe : ℕ → Broadcaster F64 → Option (Broadcaster F64)
  unfolding close
  unsubscribe k b =
      if is_member k b.subscribers
      then with_channels (record b { subscribers = remove_key k b.subscribers })
          (close k b.channels)
      else some b

  -- `select { case ch <- event: default: }`: a panic on a closed channel
  unfoldable pub send : ProbeEvent F64 → ℕ → List (Channel F64) → Option (List (Channel F64))
  send e k [] = none
  send e k (c ∷ cs) =
      let rest = prepend c (send e k cs) in
      if c.id == k
      then (if c.is_closed
          then none
          else if ltb (length c.buffer) capacity
          then some (record c { buffer = c.buffer ++ e ∷ [] } ∷ cs)
          else some (c ∷ cs))
      else rest

  -- the loop over the subscribers
  unfoldable pub send_all :
      ProbeEvent F64 → List ℕ → List (Channel F64) → Option (List (Channel F64))
  send_all e [] cs = some cs
  send_all e (k ∷ ks) cs = and_then (send e k cs) (send_all e ks)

  -- the time, the timestamp and the one-line texts that `Broadcast` fills in; `format_time` is
  -- `Format("15:04:05.000")`
  unfoldable pub complete_event : (Time → Str) → Time → ProbeEvent F64 → ProbeEvent F64
  complete_event format_time now e =
      let raw = if e.raw_time == 0 then now else e.raw_time in
      record e {
        raw_time = raw;
        timestamp = if is_empty e.timestamp then format_time raw else e.timestamp;
        diagnostics = sanitize_single_line e.diagnostics;
        error = sanitize_single_line e.error;
      }

  -- Broadcast, at the time `now`
  unfoldable pub broadcast :
      (Time → Str) → Time → ProbeEvent F64 → Broadcaster F64 → Option (Broadcaster F64)
  broadcast format_time now e b =
      let event = complete_event format_time now e in
      let b' = record b {
        history = clip_history (history_cap b.max_history) (b.history ++ event ∷ []);
      } in
      with_channels b' (send_all event b.subscribers b.channels)

  -- ClearHistory
  unfoldable pub clear_history : Broadcaster F64 → Broadcaster F64
  clear_history b = record b { history = [] }

  -- a receive by the client of a channel that has an event
  receive_from : ℕ → List (Channel F64) → List (Channel F64)
  receive_from k [] = []
  receive_from k (c ∷ cs) =
      if c.id == k
      then record c { buffer = netping.Common.drop 1 c.buffer } ∷ cs
      else c ∷ receive_from k cs

  unfoldable pub receive : ℕ → Broadcaster F64 → Broadcaster F64
  unfolding receive_from
  receive k b = record b { channels = receive_from k b.channels }

  -- the three tests of `GetProbes` that skip an event
  unfoldable pub matches : Str → Str → ProbeEvent F64 → Bool
  matches target status ev =
      if not (is_empty target)
        && not (str_eq ev.target target)
        && not (str_eq ev.hostname target)
        && not (str_eq ev.ip target)
      then false
      else if str_eq status (codes "success") && not ev.success
      then false
      else if str_eq status (codes "failed") && ev.success
      then false
      else true

  -- the loop of `GetProbes` over the events, newest first, with the events kept and their number
  unfoldable pub collect :
      (ProbeEvent F64 → Bool)
      → ℕ
      → ℕ
      → List (ProbeEvent F64)
      → List (ProbeEvent F64)
      → ℕ
      → List (ProbeEvent F64) × ℕ
  collect p limit offset [] filtered total = (filtered, total)
  collect p limit offset (ev ∷ evs) filtered total =
      collect p limit offset evs
        (if p ev && ltb offset (total + 1) && ltb (length filtered) limit
          then filtered ++ ev ∷ []
          else filtered)
        (if p ev then total + 1 else total)

  -- GetProbes
  unfoldable pub get_probes : Str → Str → ℤ → ℤ → Broadcaster F64 → List (ProbeEvent F64) × ℕ
  get_probes target status limit offset b =
      collect (matches target status) (page_limit limit) (page_offset offset) (reverse b.history) []
        0
