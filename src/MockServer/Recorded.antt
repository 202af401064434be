-- ===== src/MockServer/Recorded.antt =====
-- internal/server/server.go: what `MockServer` records, with its goroutines in any order.
pub mod Owners
use share_serial.Base.{
  ℕ, ◌≤◌, ◌≡◌, refl, sym, ap, ◌∙◌, Option, none, some, List, [], ◌∷◌, ◌++◌, append-nil,
  append_assoc, Text, text_eq_iff, length, last, last_all, length-last, last-last_append, ltb,
  if_cases, if◌then◌else◌, arith, ◌==◌, ◌⊎◌, ◌≢◌, Bool-cases, inl, inr,
}
use share_serial.Arbiter
use share_serial.MockServer.{
  MockServer, MockHandler, mock_reading, testing_lock, testing_owner, appending, mock_failed,
  mock_returned, append_data_with_limit, accept, advance, broadcast,
}

pub record Goroutine : Type 0 where
  pub id : Text
  pub conn : ℕ
  pub place : MockHandler

-- The goroutines of the connections have numbers.
pub record Running : Type 0 where
  pub server : MockServer
  pub handlers : ℕ → Option Goroutine

-- What happens: a client comes, whose goroutine gets a number; a step of a goroutine, with what `Read`
-- gives if it reads; a call of `Broadcast`; and everything that happens to the lock.
pub data Event : Type 0 where
  accepts : ℕ → Text → ℕ → Event
  advances : ℕ → Option Text → Event
  broadcasts : Text → Event
  lock : Arbiter.Event → Event

abbrev pub put : (ℕ → Option Goroutine) → ℕ → Goroutine → ℕ → Option Goroutine
put h k g j = if k == j then some g else h j

unfoldable pub advanced : Running → ℕ → Option Goroutine → Option Text → Running
unfolding advance
advanced s k none got = s
advanced s k (some g) got =
    let (m, place) = advance s.server g.id g.conn g.place got in
    record { server = m; handlers = put s.handlers k (record g { place = place }) }

unfoldable pub step : Running → Event → Running
unfolding accept advanced broadcast
step s (accepts k id conn) = record {
  server = accept s.server id conn;
  handlers = put s.handlers k (record { id = id; conn = conn; place = mock_reading });
}
step s (advances k got) = advanced s k (s.handlers k) got
step s (broadcasts chunk) = record s { server = broadcast s.server chunk }
step s (lock e) =
    let m = s.server in record s { server = record m { arbiter = Arbiter.step m.arbiter e } }

unfoldable pub run : Running → List Event → Running
unfolding step
run s [] = s
run s (e ∷ es) = run (step s e) es

-- The bytes that a step of a goroutine appends, and those that an event does.
abbrev pub appended : MockHandler → Text
appended mock_reading = []
appended (testing_lock chunk) = []
appended (testing_owner chunk) = []
appended (appending chunk) = chunk
appended mock_failed = []
appended mock_returned = []

abbrev pub appended_by : Option Goroutine → Text
appended_by none = []
appended_by (some g) = appended g.place

abbrev pub gives : Running → Event → Text
gives s (accepts k id conn) = []
gives s (advances k got) = appended_by (s.handlers k)
gives s (broadcasts chunk) = chunk
gives s (lock e) = []

abbrev pub given : Running → List Event → Text
given s [] = []
given s (e ∷ es) = gives s e ++ given (step s e) es

-- What keeps the newest bytes, and the limit.
record Leaves (m t : MockServer) (chunk : Text) : Type 0 where
  bytes : t.recorded ≡ last m.max_buffer_size (m.recorded ++ chunk)
  limit : t.max_buffer_size ≡ m.max_buffer_size

none-Leaves :
    (m : MockServer)
    → length m.recorded ≤ m.max_buffer_size
    → m.recorded ≡ last m.max_buffer_size (m.recorded ++ [])
none-Leaves m h =
    sym (
      ap (last m.max_buffer_size) (append-nil m.recorded) ∙ last_all m.max_buffer_size m.recorded h)

append-Leaves : (m : MockServer) (chunk : Text) → Leaves m (append_data_with_limit m chunk) chunk
unfolding append_data_with_limit
append-Leaves m chunk = record {
  bytes =
      if_cases (λ (r : MockServer). r.recorded ≡ last m.max_buffer_size (m.recorded ++ chunk))
        (ltb m.max_buffer_size (length (m.recorded ++ chunk))) _ _ (λ _. refl)
        (λ h. sym (last_all m.max_buffer_size (m.recorded ++ chunk) (ground arith)));
  limit = ground arith;
}

advance-Leaves :
    (m : MockServer) (id : Text) (conn : ℕ) (place : MockHandler) (got : Option Text)
    → length m.recorded ≤ m.max_buffer_size
    → Leaves m (advance m id conn place got).0 (appended place)
unfolding advance
advance-Leaves m id conn mock_reading none h = record { bytes = none-Leaves m h; limit = refl }
advance-Leaves m id conn mock_reading (some chunk) h = record {
  bytes = none-Leaves m h;
  limit = refl;
}
advance-Leaves m id conn (testing_lock chunk) got h = record {
  bytes = none-Leaves m h;
  limit = refl;
}
advance-Leaves m id conn (testing_owner chunk) got h = record {
  bytes = none-Leaves m h;
  limit = refl;
}
advance-Leaves m id conn (appending chunk) got h = append-Leaves m chunk
advance-Leaves m id conn mock_failed got h = record { bytes = none-Leaves m h; limit = refl }
advance-Leaves m id conn mock_returned got h = record { bytes = none-Leaves m h; limit = refl }

advanced-Leaves :
    (s : Running) (k : ℕ) (g : Option Goroutine) (got : Option Text)
    → length s.server.recorded ≤ s.server.max_buffer_size
    → Leaves s.server (advanced s k g got).server (appended_by g)
unfolding advanced
advanced-Leaves s k none got h = record { bytes = none-Leaves s.server h; limit = refl }
advanced-Leaves s k (some g) got h = advance-Leaves s.server g.id g.conn g.place got h

step-Leaves :
    (s : Running) (e : Event)
    → length s.server.recorded ≤ s.server.max_buffer_size
    → Leaves s.server (step s e).server (gives s e)
unfolding step accept broadcast
step-Leaves s (accepts k id conn) h = record { bytes = none-Leaves s.server h; limit = refl }
step-Leaves s (advances k got) h = advanced-Leaves s k (s.handlers k) got h
step-Leaves s (broadcasts chunk) h =
    let v = append-Leaves s.server chunk in record { bytes = v.bytes; limit = v.limit }
step-Leaves s (lock e) h = record { bytes = none-Leaves s.server h; limit = refl }

Leaves-fits :
    (m t : MockServer) (chunk : Text) → Leaves m t chunk → length t.recorded ≤ t.max_buffer_size
Leaves-fits m t chunk v =
    rw (v.bytes, v.limit) (omega (arith, length-last m.max_buffer_size (m.recorded ++ chunk)))

-- With the goroutines of its connections in any order, and between them calls of `Broadcast` and all
-- that happens to the lock, a server whose record is within its limit has recorded the newest
-- `MaxBufferSize` bytes, in order, of what was broadcast and what the goroutines came to append.
pub run-newest :
    (s : Running) (es : List Event)
    → length s.server.recorded ≤ s.server.max_buffer_size
    → (run s es).server.recorded ≡ last s.server.max_buffer_size (s.server.recorded ++ given s es)
unfolding run
run-newest s [] h = none-Leaves s.server h
run-newest s (e ∷ es) h =
    let n = s.server.max_buffer_size in
    let chunk = gives s e in
    let v = step-Leaves s e h in
    run-newest (step s e) es (Leaves-fits s.server (step s e).server chunk v)
    ∙ rw (v.bytes, v.limit)
        (last-last_append n (s.server.recorded ++ chunk) (given (step s e) es)
          ∙ ap (last n) (append_assoc s.server.recorded chunk (given (step s e) es)))
