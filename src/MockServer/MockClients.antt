-- ===== src/MockServer/MockClients.antt =====
-- internal/server/server.go: `MockClientConn`, the connection of a client of `MockServer` that a test adds.
use share_serial.Base.{
  ℕ, ◌≡◌, refl, sym, ap, ◌∙◌, Option, none, some, List, [], ◌∷◌, ◌++◌, append-nil, append_assoc,
  Text, concat, lookup, insert, lookup-insert, text_eq_refl, take, drop, ◌==◌, if◌then◌else◌, arith,
  take-append-drop, Bool-cases, Option-cases, inl, inr, true, false, Bool,
}
use share_serial.LocalProxy.Passed.{chunks_to}
use share_serial.MockServer.{MockServer, add_mock_client}

pub record MockClientConn : Type 0 where
  pub id : Text
  pub bytes : Text

-- `Read` into a buffer of `n` bytes, with what it gives.
pub read : MockClientConn → ℕ → MockClientConn × Text
read m n = elim m.bytes [
  | [] ↦ (m, [])
  | b ∷ bs ↦ (record m { bytes = drop n (b ∷ bs) }, take n (b ∷ bs))
]

pub write : MockClientConn → Text → MockClientConn
write m b = record m { bytes = m.bytes ++ b }

-- The objects behind the connections; a connection of the network has none.
abbrev pub Objects : Type 0
Objects = ℕ → Option MockClientConn

abbrev set : Objects → ℕ → MockClientConn → Objects
set o c m d = if c == d then some m else o d

-- `AddMockClient`, whose new object is `c`.
pub added : MockServer → Objects → Text → ℕ → MockServer × Objects
unfolding add_mock_client
added m o id c = (add_mock_client m id c, set o c (record { id = id; bytes = [] }))

-- `conn.Write(data)` of a goroutine of `Broadcast`.
pub writes : Objects → ℕ → Text → Objects
unfolding write
writes o c chunk = elim (o c) [ none ↦ o | some m ↦ set o c (write m chunk) ]

-- These goroutines run, in this order.
pub run_sends : Objects → List (ℕ × Text) → Objects
unfolding writes
run_sends o [] = o
run_sends o ((c, chunk) ∷ sends) = run_sends (writes o c chunk) sends

pub get_mock_client_data : MockServer → Objects → Text → Option Text
get_mock_client_data m o id = elim (lookup id m.clients) [
  | none ↦ none
  | some c ↦ elim (o c) [ none ↦ none | some conn ↦ some conn.bytes ]
]

-- A read gives the first bytes and leaves the others.
read-parts :
    (m : MockClientConn) (n : ℕ) → let (rest, got) = read m n in (got ++ rest.bytes ≡ m.bytes)
unfolding read
read-parts m n = ground (arith, take-append-drop n m.bytes)

writes-bytes :
    (o : Objects) (c d : ℕ) (m : MockClientConn) (chunk : Text)
    → o c ≡ some m
    → writes o d chunk c ≡ some (if d == c then write m chunk else m)
unfolding writes
writes-bytes o c d m chunk h = elim (Bool-cases (d == c)) [
  | inl f ↦
      let e : d ≡ c = ground (arith, f) in
      let here : o d ≡ some m = ap o e ∙ h in rw (writes, here, f) refl
  | inr f ↦ elim (Option-cases (o d)) [
    | inl g ↦ rw (writes, g, f) h
    | inr (n, g) ↦ rw (writes, g, f) h
  ]
]

abbrev holding : MockClientConn → Text → Option MockClientConn
holding m t = some (record m { bytes = t })

chosen :
    (b : Bool) (m n : MockClientConn)
    → ((b ≡ true) → some (if b then m else n) ≡ some m)
      × ((b ≡ false) → some (if b then m else n) ≡ some n)
chosen b m n = (λ h. rw h refl, λ h. rw h refl)

run_sends-bytes :
    (o : Objects) (c : ℕ) (m : MockClientConn) (sends : List (ℕ × Text))
    → o c ≡ some m
    → run_sends o sends c ≡ some (write m (concat (chunks_to c sends)))
unfolding run_sends write
run_sends-bytes o c m [] h = h ∙ ap (holding m) (sym (append-nil m.bytes))
run_sends-bytes o c m ((d, chunk) ∷ sends) h = elim (Bool-cases (d == c)) [
  | inl f ↦
      let rest = concat (chunks_to c sends) in
      let next : writes o d chunk c ≡ some (write m chunk) =
        writes-bytes o c d m chunk h ∙ (chosen (d == c) (write m chunk) m).0 f in
      rw f (
        run_sends-bytes (writes o d chunk) c (write m chunk) sends next
        ∙ ap (holding m) (append_assoc m.bytes chunk rest))
  | inr f ↦
      let next : writes o d chunk c ≡ some m =
        writes-bytes o c d m chunk h ∙ (chosen (d == c) (write m chunk) m).1 f in
      rw f (run_sends-bytes (writes o d chunk) c m sends next)
]

data_of :
    (m : MockServer) (o : Objects) (id : Text) (c : ℕ) (conn : MockClientConn)
    → lookup id m.clients ≡ some c
    → o c ≡ some conn
    → get_mock_client_data m o id ≡ some conn.bytes
unfolding get_mock_client_data
data_of m o id c conn h k = rw (get_mock_client_data, h, k) refl

-- Whatever goroutines of `Broadcast` run, and in whatever order, what `GetMockClientData` gives for a
-- client that was just added is what those for its connection wrote, in the order in which they ran.
pub run_sends-data :
    (m : MockServer) (o : Objects) (id : Text) (c : ℕ) (sends : List (ℕ × Text))
    → let (n, o') = added m o id c in
      get_mock_client_data n (run_sends o' sends) id ≡ some (concat (chunks_to c sends))
unfolding added add_mock_client write
run_sends-data m o id c sends =
    let new : MockClientConn = record { id = id; bytes = [] } in
    let here : lookup id (insert id c m.clients) ≡ some c =
      lookup-insert id id c m.clients ∙ ground (arith, text_eq_refl id) in
    let there = run_sends-bytes (set o c new) c new sends (ground arith) in
    data_of (add_mock_client m id c) (run_sends (set o c new) sends) id c
      (write new (concat (chunks_to c sends))) here there
