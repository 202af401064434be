-- ===== src/Examples/Clients.antt =====
-- The client side and the broadcaster at concrete inputs: internal/localproxy, internal/reconnect,
-- internal/broadcast.
use share_serial.Base.{◌+◌, ◌≤◌, ◌≡◌, refl, false, [], ◌∷◌, Text, concat, arith}
use share_serial.LocalProxy.{LocalProxy, new_local_proxy, buffer_size, buffer_limit}
use share_serial.LocalProxy.Replay.{remote_reads, Kept, remote_reads-Kept, buffer_bounded}
use share_serial.Reconnect.{ReconnectManager, new_reconnect_manager, auto_reconnect, looping}
use share_serial.Reconnect.Rounds.{
  run, rounds, receives, stops, received_rounds, auto_retries_bounded,
}
use share_serial.Broadcast.{MockClient}
use share_serial.Broadcast.Newest.{process_queue, process_queue-newest}

abbrev hello : Text
hello = 104 ∷ 105 ∷ []

abbrev proxy : LocalProxy
proxy = new_local_proxy 7701

remote_reads-Kept_example :
    Kept (remote_reads proxy (hello ∷ hello ∷ [])).remote_buffer (concat (hello ∷ hello ∷ []))
unfolding new_local_proxy
remote_reads-Kept_example = remote_reads-Kept proxy (hello ∷ hello ∷ []) refl

buffer_bounded_example : buffer_size (remote_reads proxy (hello ∷ hello ∷ [])) ≤ buffer_limit + 4095
unfolding new_local_proxy buffer_size
buffer_bounded_example =
    buffer_bounded proxy (hello ∷ hello ∷ []) (omega arith, (omega arith, tt)) (omega arith)

abbrev manager : ReconnectManager
manager = new_reconnect_manager (58 ∷ []) 3

auto_retries_bounded_example :
    let es = rounds ∷ rounds ∷ receives ∷ rounds ∷ stops ∷ receives ∷ rounds ∷ [] in
    ((run (auto_reconnect manager) es).manager.dials ≤ 3)
    × ((received_rounds 5 (auto_reconnect manager)).manager.dials ≡ 3)
    × ((received_rounds 5 (auto_reconnect manager)).loop ≡ looping)
unfolding new_reconnect_manager
auto_retries_bounded_example =
    auto_retries_bounded manager
      (rounds ∷ rounds ∷ receives ∷ rounds ∷ stops ∷ receives ∷ rounds ∷ []) 5 (omega arith) refl
      refl refl

-- A client with room for three bytes, for which two chunks wait.
abbrev small_client : MockClient
small_client = record {
  id = 97 ∷ [];
  delay = 0;
  received = [];
  send_queue = record { capacity = 1024; queue = hello ∷ hello ∷ []; closed = false };
  max_buffer_size = 3;
}

process_queue-newest_example :
    let done = process_queue 2 small_client in
    (done.received ≡ 105 ∷ hello) × (done.send_queue.queue ≡ [])
process_queue-newest_example = process_queue-newest small_client (omega arith)
