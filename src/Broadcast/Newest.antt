-- ===== src/Broadcast/Newest.antt =====
-- internal/broadcast/broadcast.go: what the bounded buffer of a client holds.
use share_serial.Base.{
  ℕ, zero, suc, ◌≤◌, ◌≡◌, refl, sym, ◌∙◌, ap, List, [], ◌∷◌, ◌++◌, append-nil, append_assoc, Text,
  concat, length, last, last_all, length-last, last-last_append, ltb, if_cases, arith,
}
use share_serial.Broadcast.{MockClient, append_with_limit, process_queue_round}

received-append_with_limit :
    (mc : MockClient) (chunk : Text)
    → (append_with_limit mc chunk).received ≡ last mc.max_buffer_size (mc.received ++ chunk)
unfolding append_with_limit
received-append_with_limit mc chunk =
    if_cases (λ (r : MockClient). r.received ≡ last mc.max_buffer_size (mc.received ++ chunk))
      (ltb mc.max_buffer_size (length (mc.received ++ chunk))) _ _ (λ _. refl)
      (λ h. sym (last_all mc.max_buffer_size (mc.received ++ chunk) (ground arith)))

max-append_with_limit :
    (mc : MockClient) (chunk : Text)
    → (append_with_limit mc chunk).max_buffer_size ≡ mc.max_buffer_size
unfolding append_with_limit
max-append_with_limit mc chunk = ground arith

-- The rounds of `processQueue`.
pub process_queue : ℕ → MockClient → MockClient
process_queue zero mc = mc
process_queue (suc n) mc = process_queue n (process_queue_round mc)

round-newest :
    (c : Text) (q : List Text) (mc : MockClient)
    → mc.send_queue.queue ≡ c ∷ q
    → ((process_queue_round mc).received ≡ last mc.max_buffer_size (mc.received ++ c))
      × ((process_queue_round mc).max_buffer_size ≡ mc.max_buffer_size)
      × ((process_queue_round mc).send_queue.queue ≡ q)
unfolding process_queue_round append_with_limit
round-newest c q mc e =
    let ch = mc.send_queue in
    let popped = record mc { send_queue = record ch { queue = q } } in
    rw (e, process_queue_round)
      (unfold append_with_limit in received-append_with_limit popped c, ground arith, ground arith)

rounds-newest :
    (q : List Text) (mc : MockClient)
    → mc.send_queue.queue ≡ q
    → length mc.received ≤ mc.max_buffer_size
    → ((process_queue (length q) mc).received ≡ last mc.max_buffer_size (mc.received ++ concat q))
      × ((process_queue (length q) mc).send_queue.queue ≡ [])
unfolding process_queue
rounds-newest [] mc e h = (
  sym (last_all mc.max_buffer_size (mc.received ++ []) (rw append-nil h) ∙ append-nil mc.received),
  e,
)
rounds-newest (c ∷ q) mc e h =
    let n = mc.max_buffer_size in
    let next = process_queue_round mc in
    let (received, same, queue) = round-newest c q mc e in
    let (all, empty) =
      rounds-newest q next queue
        (rw (received, same) (omega (arith, length-last n (mc.received ++ c)))) in
    (
      all
          ∙ rw (received, same)
              (last-last_append n (mc.received ++ c) (concat q)
                ∙ ap (last n) (append_assoc mc.received c (concat q))),
      empty,
    )

-- Once a client whose buffer is within its limit has worked off its queue, the buffer holds the newest
-- `MaxBufferSize` bytes of all that it held and was sent, in order, and the queue is empty.
pub process_queue-newest :
    (mc : MockClient)
    → length mc.received ≤ mc.max_buffer_size
    → let done = process_queue (length mc.send_queue.queue) mc in
      (done.received ≡ last mc.max_buffer_size (mc.received ++ concat mc.send_queue.queue))
      × (done.send_queue.queue ≡ [])
process_queue-newest mc h = rounds-newest mc.send_queue.queue mc refl h
