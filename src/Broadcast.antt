-- ===== src/Broadcast.antt =====
-- internal/broadcast/broadcast.go: the broadcaster, whose sends are goroutines of their own, and the
-- client with a bounded buffer that stands beside it. The proofs are in the modules below this one.
pub mod Newest
pub mod Order
use share_serial.Base.{
  ℕ, zero, suc, ◌+◌, ◌*◌, ◌-◌, Bool, true, false, Option, none, some, List, [], ◌∷◌, ◌++◌, Text,
  Dict, insert, delete, length, drop, ltb, ◌==◌, if◌then◌else◌,
}
use share_serial.Channel
use share_serial.Channel.{Channel, Sent, sent, blocks, panics}

pub record MockClient : Type 0 where
  pub id : Text
  pub delay : ℕ
  pub received : Text
  pub send_queue : Channel Text
  pub max_buffer_size : ℕ

-- 1 MB
abbrev pub default_max_buffer_size : ℕ
default_max_buffer_size = 1 * 1024 * 1024

new_mock_client_with_delay : Text → ℕ → MockClient
unfolding Channel.make
new_mock_client_with_delay id delay = record {
  id = id;
  delay = delay;
  received = [];
  send_queue = Channel.make 1024;
  max_buffer_size = default_max_buffer_size;
}

unfoldable new_mock_client : Text → MockClient
unfolding new_mock_client_with_delay
new_mock_client id = new_mock_client_with_delay id 0

pub append_with_limit : MockClient → Text → MockClient
append_with_limit mc chunk =
    let buf = mc.received ++ chunk in
    if ltb mc.max_buffer_size (length buf)
    then record mc { received = drop (length buf - mc.max_buffer_size) buf }
    else record mc { received = buf }

-- One round of `processQueue`; the delayed loop sleeps first, and does the same.
pub process_queue_round : MockClient → MockClient
unfolding append_with_limit
process_queue_round mc = elim mc.send_queue.queue [
  | [] ↦ mc
  | chunk ∷ rest ↦
      let ch = mc.send_queue in
      append_with_limit (record mc { send_queue = record ch { queue = rest } }) chunk
]

unfoldable pub send : MockClient → Text → Sent Text
unfolding Channel.send
send mc chunk = Channel.send mc.send_queue chunk

-- `clients` maps an id to a client's address; `sends` are the goroutines `go client.Send(data)` that
-- have not finished.
pub record Broadcaster : Type 0 where
  pub clients : Dict ℕ
  pub input : Channel Text
  pub heap : ℕ → MockClient
  pub sends : List (ℕ × Text)

unfoldable new_broadcaster : (ℕ → MockClient) → Broadcaster
unfolding Channel.make
new_broadcaster heap = record { clients = []; input = Channel.make 1024; heap = heap; sends = [] }

unfoldable add_client : Broadcaster → ℕ → Broadcaster
add_client bc r = record bc { clients = insert ((bc.heap r).id) r bc.clients }

unfoldable remove_client : Broadcaster → ℕ → Broadcaster
remove_client bc r = record bc { clients = delete ((bc.heap r).id) bc.clients }

unfoldable pub broadcast : Broadcaster → Text → Sent Text
unfolding Channel.send
broadcast bc chunk = Channel.send bc.input chunk

unfoldable pub client_count : Broadcaster → ℕ
client_count bc = length bc.clients

-- `none` is the panic of a second `Close`.
unfoldable pub close : Broadcaster → Option Broadcaster
unfolding Channel.close
close bc = elim (Channel.close bc.input) [ none ↦ none | some ch ↦ some (record bc { input = ch }) ]

unfoldable pub sends_to : Dict ℕ → Text → List (ℕ × Text)
sends_to [] chunk = []
sends_to ((id, r) ∷ m) chunk = (r, chunk) ∷ sends_to m chunk

-- One round of `process`: a goroutine for each client.
pub process_round : Broadcaster → Broadcaster
unfolding sends_to
process_round bc = elim bc.input.queue [
  | [] ↦ bc
  | chunk ∷ rest ↦
      let ch = bc.input in
      record bc {
        input = record ch { queue = rest };
        sends = bc.sends ++ sends_to bc.clients chunk;
      }
]

abbrev pub update : (ℕ → MockClient) → ℕ → MockClient → ℕ → MockClient
update h r mc k = if k == r then mc else h k

pub nth : ℕ → List (ℕ × Text) → Option (ℕ × Text)
nth i [] = none
nth zero (x ∷ xs) = some x
nth (suc i) (x ∷ xs) = nth i xs

pub without : ℕ → List (ℕ × Text) → List (ℕ × Text)
without i [] = []
without zero (x ∷ xs) = xs
without (suc i) (x ∷ xs) = x ∷ without i xs

-- The scheduler lets the `i`-th goroutine finish, if its client's queue has room.
pub finish_send : Broadcaster → ℕ → Broadcaster
unfolding nth without send
finish_send bc i = elim (nth i bc.sends) [
  | none ↦ bc
  | some (r, chunk) ↦ elim (send (bc.heap r) chunk) [
    | sent ch ↦
        let mc = bc.heap r in
        record bc {
          heap = update bc.heap r (record mc { send_queue = ch });
          sends = without i bc.sends;
        }
    | blocks ↦ bc
    | panics ↦ bc
  ]
]
