-- ===== src/Examples/Servers.antt =====
-- internal/server/server.go at concrete inputs.
use share_serial.Base.{
  member, ℕ, ◌≡◌, refl, some, List, [], ◌∷◌, ◌++◌, Text, text_eq, text_eq_iff, lookup, insert,
  length, arith,
}
use share_serial.Arbiter
use share_serial.Arbiter.{acquires, releases, tick, fires, expires}
use share_serial.Arbiter.Exclusion.{holder}
use share_serial.Arbiter.Invariant.{reached-Inv}
use share_serial.Server.{TcpServer, reading, testing, started, lock_timeout}
use share_serial.Server.Events.{
  Event, accepts, reads, runs, lock, broadcasts, round, stops, step, run,
}
use share_serial.Server.Handlers.{handle, handle_returns}
use share_serial.Server.Exclusion.{one_writer}
use share_serial.Server.Delivery.{chunks_for, broadcast_rounds, broadcast_in_order}
use share_serial.Server.Walks.{Action, happens, reorders, act, run_walks, events_of}
use share_serial.Server.Walks.Steps.{walk_order_unseen}
use share_serial.Server.Races.{race, BothWriting, two_writers}

abbrev alice : Text
alice = 97 ∷ []

abbrev bob : Text
bob = 98 ∷ []

abbrev chunk_x : Text
chunk_x = 120 ∷ []

abbrev chunk_y : Text
chunk_y = 121 ∷ []

-- Alice comes to her write, while Bob has a chunk and does not get the lock.
abbrev alice_first : List Event
alice_first =
    accepts alice 1
    ∷ accepts bob 2
    ∷ reads alice (some chunk_x)
    ∷ reads bob (some chunk_y)
    ∷ runs alice
    ∷ runs bob
    ∷ runs alice
    ∷ runs bob
    ∷ runs alice
    ∷ []

abbrev serving : TcpServer
serving = started [] (58 ∷ [])

one_writer_example : (alice ≡ alice) × (holder (run serving alice_first).arbiter ≡ some alice)
unfolding step run started lookup insert text_eq
one_writer_example =
    one_writer [] (58 ∷ []) alice_first alice alice chunk_x chunk_x
      ((λ e. cc), ((λ e. cc), (tt, (tt, (tt, (tt, (tt, (tt, (tt, tt))))))))) refl refl

-- Two chunks wait for Bob, who came while one was on its way.
abbrev two_chunks : List Event
two_chunks =
    accepts alice 1
    ∷ broadcasts chunk_x
    ∷ round
    ∷ broadcasts chunk_x
    ∷ accepts bob 2
    ∷ broadcasts chunk_y
    ∷ []

broadcast_in_order_example :
    let s = run serving two_chunks in
    let t = broadcast_rounds (length s.broadcast.queue) s in
    (chunks_for bob t.outputs ≡ chunks_for bob s.outputs ++ s.broadcast.queue)
    × (t.broadcast.queue ≡ [])
unfolding step run started insert text_eq
broadcast_in_order_example = broadcast_in_order [] (58 ∷ []) two_chunks bob refl

handle_returns_example :
    (handle 15 (λ k s. step s (lock (tick k))) serving alice (testing chunk_x)).1 ≡ reading
handle_returns_example = handle_returns (λ k s. step s (lock (tick k))) serving alice chunk_x

-- Alice has the lock and is about to test that once more; Bob has a chunk.
abbrev checks_again : List Event
checks_again =
    accepts alice 1
    ∷ accepts bob 2
    ∷ reads alice (some chunk_x)
    ∷ reads bob (some chunk_y)
    ∷ runs alice
    ∷ runs alice
    ∷ []

two_writers_example :
    let s = run serving checks_again in
    (i : ℕ) × BothWriting (run s (race s.arbiter.timeout i alice bob)) alice bob chunk_x chunk_y
unfolding step run started lookup Arbiter.run Arbiter.step insert text_eq
two_writers_example =
    two_writers (run serving checks_again) alice bob chunk_x chunk_y []
      (reached-Inv lock_timeout (acquires alice ∷ [])) (λ e. ground arith) (λ e. cc) refl refl refl
      refl refl

-- Bob comes to stand before Alice while a chunk waits.
abbrev bob_first : List Action
bob_first =
    happens (accepts alice 1)
    ∷ happens (accepts bob 2)
    ∷ happens (broadcasts chunk_x)
    ∷ reorders ((bob, 2) ∷ (alice, 1) ∷ [])
    ∷ happens round
    ∷ happens stops
    ∷ []

swapped :
    (id : Text)
    → lookup {V = ℕ} id ((bob, 2) ∷ (alice, 1) ∷ []) ≡ lookup id ((alice, 1) ∷ (bob, 2) ∷ [])
unfolding lookup
swapped id = ground (arith, text_eq_iff alice id, text_eq_iff bob id)

walk_order_unseen_example :
    let s = run serving (events_of bob_first) in
    let t = run_walks serving bob_first in
    ((id : Text) → lookup id t.clients ≡ lookup id s.clients)
    × ((id : Text) → chunks_for id t.outputs ≡ chunks_for id s.outputs)
    × ((c : ℕ) → member c t.closed_conns ≡ member c s.closed_conns)
    × (t.handlers ≡ s.handlers)
    × (t.arbiter ≡ s.arbiter)
    × (t.serial ≡ s.serial)
    × (t.broadcast ≡ s.broadcast)
    × (t.running ≡ s.running)
unfolding act step started insert text_eq
walk_order_unseen_example =
    walk_order_unseen [] (58 ∷ []) bob_first
      (tt, (tt, (tt, (((refl, (refl, tt)), swapped), (tt, (tt, tt))))))
