-- ===== src/MockServer.antt =====
-- internal/server/server.go: `MockServer`, the server that records what comes. The proofs are in the
-- modules below this one.
pub mod Recorded
pub mod MockClients
use share_serial.Base.{
  ℕ, ◌-◌, Bool, true, false, ◌&&◌, Option, none, some, List, [], ◌∷◌, ◌++◌, Text, text_eq, Dict,
  insert, delete, length, drop, ltb, ◌*◌, if◌then◌else◌,
}
use share_serial.Arbiter
use share_serial.Arbiter.{Arbiter, Error}
use share_serial.Server
use share_serial.Server.{lock_timeout, conns_of}

-- `sends` are the goroutines of `Broadcast` that write to a connection. The field `serial` is set but
-- never used.
pub record MockServer : Type 0 where
  pub running : Bool
  pub addr : Text
  pub listening : Bool
  pub clients : Dict ℕ
  pub arbiter : Arbiter
  pub recorded : Text
  pub max_buffer_size : ℕ
  pub sends : List (ℕ × Text)
  pub closed_conns : List ℕ

abbrev pub default_server_max_buffer_size : ℕ
default_server_max_buffer_size = 1 * 1024 * 1024

new_mock_server_with_serial : Arbiter → MockServer
new_mock_server_with_serial arb = record {
  running = false;
  addr = [];
  listening = false;
  clients = [];
  arbiter = arb;
  recorded = [];
  max_buffer_size = default_server_max_buffer_size;
  sends = [];
  closed_conns = [];
}

unfoldable pub new_mock_server : MockServer
unfolding new_mock_server_with_serial Arbiter.new_arbiter
new_mock_server = new_mock_server_with_serial (Arbiter.new_arbiter lock_timeout)

pub append_data_with_limit : MockServer → Text → MockServer
append_data_with_limit m chunk =
    let recorded = m.recorded ++ chunk in
    if ltb m.max_buffer_size (length recorded)
    then record m { recorded = drop (length recorded - m.max_buffer_size) recorded }
    else record m { recorded = recorded }

-- `listened` is what `net.Listen` gives: the listener's address, or an error.
unfoldable pub start : MockServer → Option Text → MockServer × Bool
start m none = (m, false)
start m (some a) = (record m { listening = true; addr = a; running = true }, true)

-- A round of the goroutine that accepts.
unfoldable pub accept : MockServer → Text → ℕ → MockServer
accept m id conn = record m { clients = insert id conn m.clients }

-- The goroutine of `handleMockConn`: in `Read`, about to call `IsLocked` or `Owner` or to append for a
-- chunk, about to leave after an error, or returned.
pub data MockHandler : Type 0 where
  mock_reading : MockHandler
  testing_lock testing_owner appending : Text → MockHandler
  mock_failed mock_returned : MockHandler

-- Its next step, for connection `conn` of client `id`; `got` is what `Read` gives if it is called.
unfoldable pub advance :
    MockServer → Text → ℕ → MockHandler → Option Text → MockServer × MockHandler
unfolding append_data_with_limit Arbiter.is_locked Arbiter.lock_owner
advance m id conn mock_reading none = (m, mock_failed)
advance m id conn mock_reading (some chunk) = (m, testing_lock chunk)
advance m id conn (testing_lock chunk) got =
    (m, if Arbiter.is_locked m.arbiter then testing_owner chunk else mock_reading)
advance m id conn (testing_owner chunk) got =
    (m, if text_eq (Arbiter.lock_owner m.arbiter) id then appending chunk else mock_reading)
advance m id conn (appending chunk) got = (append_data_with_limit m chunk, mock_reading)
advance m id conn mock_failed got =
    let left = record m { clients = delete id m.clients; closed_conns = conn ∷ m.closed_conns } in
    (left, mock_returned)
advance m id conn mock_returned got = (m, mock_returned)

unfoldable pub stop : MockServer → MockServer
unfolding conns_of
stop m = record m {
  running = false;
  closed_conns = conns_of m.clients ++ m.closed_conns;
  clients = [];
  listening = false;
}

unfoldable pub is_running : MockServer → Bool
is_running m = m.running

unfoldable pub address : MockServer → Text
address m = m.addr

unfoldable pub client_count : MockServer → ℕ
client_count m = length m.clients

unfoldable pub sends_to : List ℕ → Text → List (ℕ × Text)
sends_to [] chunk = []
sends_to (conn ∷ conns) chunk = (conn, chunk) ∷ sends_to conns chunk

pub broadcast : MockServer → Text → MockServer
unfolding append_data_with_limit sends_to conns_of
broadcast m chunk =
    let n = append_data_with_limit m chunk in
    record n { sends = n.sends ++ sends_to (conns_of n.clients) chunk }

unfoldable pub acquire_write_lock : MockServer → Text → MockServer × Bool × Option Error
unfolding Arbiter.acquire
acquire_write_lock m id =
    let (a, acquired, err) = Arbiter.acquire m.arbiter id in
    (record m { arbiter = a }, acquired, err)

unfoldable pub release_write_lock : MockServer → Text → MockServer
unfolding Arbiter.release
release_write_lock m id = record m { arbiter = (Arbiter.release m.arbiter id).0 }

unfoldable pub has_write_lock : MockServer → Bool
unfolding Arbiter.is_locked
has_write_lock m = Arbiter.is_locked m.arbiter

unfoldable get_client_ids : MockServer → List Text
unfolding Server.get_client_ids
get_client_ids m = Server.get_client_ids m.clients

-- `AddMockClient`: the client's connection is a stand-in, whose number is given.
unfoldable pub add_mock_client : MockServer → Text → ℕ → MockServer
add_mock_client m id conn = record m { clients = insert id conn m.clients }
