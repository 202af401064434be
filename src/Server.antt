-- ===== src/Server.antt =====
-- internal/server/server.go: `TCPServer`. Each connection has a handler goroutine; its program
-- counter is a `Handler`, and one step of it makes one call on shared state. The proofs are in the
-- modules below this one.
pub mod Handlers
pub mod Events
pub mod Writers
pub mod Exclusion
pub mod Delivery
pub mod Races
pub mod Contention
pub mod Lifecycle
pub mod Alone
pub mod Walks
use share_serial.Base.{
  ℕ, zero, suc, ◌+◌, ◌*◌, ◌≤◌, ◌≡◌, refl, Bool, true, false, not, ◌&&◌, Option, none, some, List,
  [], ◌∷◌, ◌++◌, map, Text, text_eq, Dict, lookup, insert, delete, length, ◌==◌, if◌then◌else◌,
}
use share_serial.Arbiter
use share_serial.Arbiter.{Arbiter, Error}
use share_serial.Channel
use share_serial.Channel.{Channel, Sent, sent, blocks, panics}

-- `handleClient`: waiting in `Read`, testing the owner, in the first `Acquire`, in the loop with so
-- many rounds left, testing the owner again, about to write, and returned.
pub data Handler : Type 0 where
  reading : Handler
  testing : Text → Handler
  acquiring : Text → Handler
  retrying : ℕ → Text → Handler
  checking : Text → Handler
  writing : Text → Handler
  gone : Handler

-- `serial` holds the chunks of the `Write` calls on the port, if there is one; `outputs` those on
-- the connections, with the client's id.
pub record TcpServer : Type 0 where
  pub addr : Text
  pub running : Bool
  pub listening : Bool
  pub clients : Dict ℕ
  pub arbiter : Arbiter
  pub serial : Option (List Text)
  pub broadcast : Channel Text
  pub handlers : Dict Handler
  pub outputs : List (Text × Text)
  pub closed_conns : List ℕ

-- 30 * time.Second, in nanoseconds.
abbrev pub lock_timeout : ℕ
lock_timeout = 30 * 1_000_000_000

pub new_tcp_server : TcpServer
unfolding Arbiter.new_arbiter Channel.make
new_tcp_server = record {
  addr = [];
  running = false;
  listening = false;
  clients = [];
  arbiter = Arbiter.new_arbiter lock_timeout;
  serial = none;
  broadcast = Channel.make 1024;
  handlers = [];
  outputs = [];
  closed_conns = [];
}

-- `listened` is what `net.Listen` gives: the listener's address, or an error.
unfoldable pub start : TcpServer → Option Text → TcpServer × Bool
start s none = (s, false)
start s (some a) = (record s { listening = true; addr = a; running = true }, true)

-- One round of `acceptLoop`: connection `conn`, whose remote address is `id`. The handler of an earlier
-- connection with this address is taken to have ended: an address is of one open connection.
unfoldable pub accept : TcpServer → Text → ℕ → TcpServer
accept s id conn = record s {
  clients = insert id conn s.clients;
  handlers = insert id reading s.handlers;
}

-- `Read` failed: the client leaves, and its lock with it.
pub disconnect : TcpServer → Text → TcpServer
unfolding Arbiter.force_release Arbiter.lock_owner
disconnect s id = record s {
  clients = delete id s.clients;
  arbiter =
      if text_eq (Arbiter.lock_owner s.arbiter) id
      then Arbiter.force_release s.arbiter id
      else s.arbiter;
  handlers = insert id gone s.handlers;
}

-- What `Read` gave to a handler that waits in it; an empty chunk is `n == 0`.
pub read_result : TcpServer → Text → Option Text → TcpServer
unfolding disconnect
read_result s id none = disconnect s id
read_result s id (some []) = s
read_result s id (some (b ∷ bs)) = record s { handlers = insert id (testing (b ∷ bs)) s.handlers }

-- The loop makes ten rounds.
abbrev pub retry_rounds : ℕ
retry_rounds = 10

-- The handler's next call on shared state.
pub advance : TcpServer → Text → Handler → TcpServer × Handler
unfolding Arbiter.acquire Arbiter.lock_owner
advance s id reading = (s, reading)
advance s id (testing c) =
    (s, if text_eq (Arbiter.lock_owner s.arbiter) id then checking c else acquiring c)
advance s id (acquiring c) =
    let (a, acquired, _) = Arbiter.acquire s.arbiter id in
    (record s { arbiter = a }, if acquired then checking c else retrying retry_rounds c)
advance s id (retrying zero c) = (s, checking c)
advance s id (retrying (suc k) c) =
    let (a, acquired, _) = Arbiter.acquire s.arbiter id in
    (record s { arbiter = a }, if acquired then checking c else retrying k c)
advance s id (checking c) = elim s.serial [
  | none ↦ (s, reading)
  | some w ↦ (s, if text_eq (Arbiter.lock_owner s.arbiter) id then writing c else reading)
]
advance s id (writing c) = elim s.serial [
  | none ↦ (s, reading)
  | some w ↦ (record s { serial = some (w ++ c ∷ []) }, reading)
]
advance s id gone = (s, gone)

pub run_handler : TcpServer → Text → Option Handler → TcpServer
unfolding advance
run_handler s id none = s
run_handler s id (some h) =
    let (t, h') = advance s id h in record t { handlers = insert id h' t.handlers }

-- The writes of one round of `broadcastLoop`.
pub writes_to : Dict ℕ → Text → List (Text × Text)
writes_to [] chunk = []
writes_to ((id, conn) ∷ m) chunk = (id, chunk) ∷ writes_to m chunk

-- One round of `broadcastLoop`, if a chunk waits. Each `Write` on a connection is taken to return; a
-- client that does not read can hold the loop up.
unfoldable pub broadcast_round : TcpServer → TcpServer
unfolding writes_to
broadcast_round s = elim s.broadcast.queue [
  | [] ↦ s
  | chunk ∷ rest ↦
      let ch = s.broadcast in
      record s {
        broadcast = record ch { queue = rest };
        outputs = s.outputs ++ writes_to s.clients chunk;
      }
]

unfoldable pub conns_of : Dict ℕ → List ℕ
conns_of [] = []
conns_of ((id, conn) ∷ m) = conn ∷ conns_of m

-- `none` is a panic: `close` of a closed channel.
unfoldable pub stop : TcpServer → Option TcpServer
unfolding conns_of Channel.close
stop s = if not s.running then some s else elim (Channel.close s.broadcast) [
  | none ↦ none
  | some ch ↦ some (record s {
    closed_conns = conns_of s.clients ++ s.closed_conns;
    clients = [];
    listening = false;
    broadcast = ch;
    running = false;
  })
]

unfoldable is_running : TcpServer → Bool
is_running s = s.running

unfoldable address : TcpServer → Text
address s = s.addr

unfoldable pub client_count : TcpServer → ℕ
client_count s = length s.clients

-- `Broadcast`: the send may block, and panics on a stopped server.
unfoldable pub broadcast_data : TcpServer → Text → Sent Text
unfolding Channel.send
broadcast_data s chunk = Channel.send s.broadcast chunk

unfoldable pub acquire_write_lock : TcpServer → Text → TcpServer × Bool × Option Error
unfolding Arbiter.acquire
acquire_write_lock s id =
    let (a, acquired, err) = Arbiter.acquire s.arbiter id in
    (record s { arbiter = a }, acquired, err)

unfoldable pub release_write_lock : TcpServer → Text → TcpServer
unfolding Arbiter.release
release_write_lock s id = record s { arbiter = (Arbiter.release s.arbiter id).0 }

unfoldable pub has_write_lock : TcpServer → Bool
unfolding Arbiter.is_locked
has_write_lock s = Arbiter.is_locked s.arbiter

unfoldable pub get_client_ids : Dict ℕ → List Text
get_client_ids [] = []
get_client_ids ((id, conn) ∷ m) = id ∷ get_client_ids m

pub set_serial : TcpServer → List Text → TcpServer
set_serial s w = record s { serial = some w }

-- The server as cmd/server/main.go makes it: with its port set, and started at an address.
unfoldable pub started : List Text → Text → TcpServer
unfolding start set_serial new_tcp_server
started w addr = (start (set_serial new_tcp_server w) (some addr)).0
