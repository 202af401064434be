-- ===== src/Reconnect.antt =====
-- internal/reconnect/reconnect.go: the client's reconnection, and the part of cmd/client/main.go that
-- waits for its errors. The proofs are in the modules below this one.
pub mod Retries
pub mod Rounds
use share_serial.Base.{
  ℕ, zero, suc, ◌+◌, Bool, true, false, ◌&&◌, Option, none, some, List, [], ◌∷◌, Text, ltb,
  if◌then◌else◌,
}
use share_serial.Channel
use share_serial.Channel.{Channel, Sent, sent, blocks, panics}

pub data RetryError : Type 0 where
  max_retry_exceeded dial_failed : RetryError

-- `dials` counts the calls of `net.Dial`. A limit `maxRetry` below 0 means the same as 0.
pub record ReconnectManager : Type 0 where
  pub server_addr : Text
  pub conn : Option ℕ
  pub connected : Bool
  pub max_retry : ℕ
  pub retry_count : ℕ
  pub stop_closed : Bool
  pub closed_conns : List ℕ
  pub dials : ℕ

unfoldable pub new_reconnect_manager : Text → ℕ → ReconnectManager
new_reconnect_manager addr max_retry = record {
  server_addr = addr;
  conn = none;
  connected = false;
  max_retry = max_retry;
  retry_count = 0;
  stop_closed = false;
  closed_conns = [];
  dials = 0;
}

-- What `net.Dial` gave: the tail of `Connect` and of `tryReconnect`.
unfoldable pub dialled : ReconnectManager → Option ℕ → ReconnectManager × Option RetryError
dialled m none = (record m { dials = m.dials + 1 }, some dial_failed)
dialled m (some c) =
    (record m { conn = some c; connected = true; retry_count = 0; dials = m.dials + 1 }, none)

unfoldable pub connect : ReconnectManager → Option ℕ → ReconnectManager × Option RetryError
unfolding dialled
connect m dial = dialled m dial

unfoldable pub close_conn : Option ℕ → List ℕ → List ℕ
close_conn none closed = closed
close_conn (some c) closed = c ∷ closed

-- The closed connection stays in `conn`.
unfoldable pub disconnect : ReconnectManager → ReconnectManager
unfolding close_conn
disconnect m = record m { closed_conns = close_conn m.conn m.closed_conns; connected = false }

unfoldable pub try_reconnect : ReconnectManager → Option ℕ → ReconnectManager × Option RetryError
unfolding dialled
try_reconnect m dial =
    let next = record m { retry_count = m.retry_count + 1 } in
    if ltb 0 m.max_retry && ltb m.max_retry (m.retry_count + 1)
    then (next, some max_retry_exceeded)
    else dialled next dial

-- The goroutine of `AutoReconnect`: looping, waiting to send an error, or returned.
pub data Loop : Type 0 where
  looping : Loop
  stuck : RetryError → Loop
  ended : Loop

pub record AutoReconnect : Type 0 where
  pub manager : ReconnectManager
  pub err_chan : Channel RetryError
  pub loop : Loop

unfoldable pub auto_reconnect : ReconnectManager → AutoReconnect
unfolding Channel.make
auto_reconnect m = record { manager = m; err_chan = Channel.make 1; loop = looping }

pub report : AutoReconnect → RetryError → Sent RetryError → AutoReconnect
report a e (sent ch) = record a { err_chan = ch }
report a e blocks = record a { loop = stuck e }
report a e panics = a

tried : AutoReconnect → ReconnectManager × Option RetryError → AutoReconnect
unfolding report Channel.send
tried a (m, none) = record a { manager = m }
tried a (m, some e) = let b = record a { manager = m } in report b e (Channel.send a.err_chan e)

loop_round : Loop → AutoReconnect → Option ℕ → AutoReconnect
unfolding tried try_reconnect
loop_round looping a dial =
    let m = a.manager in
    if m.stop_closed
    then record a { loop = ended }
    else if m.connected
    then a
    else tried a (try_reconnect m dial)
loop_round (stuck e) a dial = a
loop_round ended a dial = a

-- One round of the goroutine; `dial` is what `net.Dial` gives if it is called.
pub round : AutoReconnect → Option ℕ → AutoReconnect
unfolding loop_round
round a dial = loop_round a.loop a dial

-- A goroutine that waits to send its error sends it when there is room.
resumed : Loop → AutoReconnect → AutoReconnect
unfolding report Channel.send
resumed looping a = a
resumed (stuck e) a = let b = record a { loop = looping } in report b e (Channel.send a.err_chan e)
resumed ended a = a

received_from : List RetryError → AutoReconnect → AutoReconnect
unfolding resumed
received_from [] a = a
received_from (e ∷ rest) a =
    let ch = a.err_chan in resumed a.loop (record a { err_chan = record ch { queue = rest } })

-- Someone receives from the error channel, if an error is there.
pub receive : AutoReconnect → AutoReconnect
unfolding received_from
receive a = received_from a.err_chan.queue a

-- `none` is the panic of a second `Stop`.
unfoldable pub stop : ReconnectManager → Option ReconnectManager
stop m = if m.stop_closed then none else some (record m { stop_closed = true })

-- The `select` of cmd/client/main.go, with no signal pending: it goes on waiting, or shuts the client
-- down with the error that it received.
pub data Wait : Type 0 where
  waiting : Wait
  shut_down : RetryError → Wait

pub main_select : Channel RetryError → Wait
main_select ch = elim ch.queue [ [] ↦ waiting | e ∷ rest ↦ shut_down e ]

-- The stand-in for tests, which dials nothing: its methods do not fail, and its error channel stays
-- empty.
record MockReconnectManager : Type 0 where
  pub connected : Bool
  pub conn : Option ℕ

unfoldable new_mock_reconnect_manager : MockReconnectManager
new_mock_reconnect_manager = record { connected = false; conn = none }

unfoldable connect_mock : MockReconnectManager → MockReconnectManager
connect_mock m = record m { connected = true }

unfoldable disconnect_mock : MockReconnectManager → MockReconnectManager
disconnect_mock m = record m { connected = false }

unfoldable set_connection : MockReconnectManager → ℕ → MockReconnectManager
set_connection m c = record m { conn = some c }
