-- ===== src/Server/Walks.antt =====
-- internal/server/server.go: the order in which Go walks the map of clients, which is any order and
-- another one for each loop.
pub mod Steps
use share_serial.Base.{
  ℕ, zero, suc, ◌≡◌, refl, ap, sym, ◌∙◌, inl, inr, Bool, true, false, ◌||◌, ◌==◌, Option, none,
  some, List, [], ◌∷◌, ◌++◌, Text, text_eq_iff, Dict, has, lookup, insert, delete, IsDistinct,
  lookup-insert, lookup-delete, insert-IsDistinct, delete-IsDistinct, Bool-cases, if◌then◌else◌,
  arith, member,
}
use share_serial.Server.{
  TcpServer, Handler, reading, testing, acquiring, retrying, checking, writing, gone, advance,
  read_result, run_handler, writes_to, conns_of, disconnect, accept,
}
use share_serial.Server.Delivery.{chunks_for, chunks_for_round, chunks_for_absent}
use share_serial.Server.Events.{Event, deliver, step}

-- An event, or the map of clients comes to stand in another order.
pub data Action : Type 0 where
  happens : Event → Action
  reorders : Dict ℕ → Action

unfoldable pub act : TcpServer → Action → TcpServer
unfolding step
act s (happens e) = step s e
act s (reorders m) = record s { clients = m }

unfoldable pub run_walks : TcpServer → List Action → TcpServer
unfolding act
run_walks s [] = s
run_walks s (a ∷ as') = run_walks (act s a) as'

abbrev pub events_of : List Action → List Event
events_of [] = []
events_of (happens e ∷ as') = e ∷ events_of as'
events_of (reorders m ∷ as') = events_of as'

-- The same map: the same keys with the same values, each once.
abbrev pub SameMap : Dict ℕ → Dict ℕ → Type 0
SameMap m n = IsDistinct m × ((id : Text) → lookup id m ≡ lookup id n)

abbrev pub Allowed : TcpServer → Action → Type 0
Allowed s (happens e) = Unit {0}
Allowed s (reorders m) = SameMap m s.clients

abbrev pub AllAllowed : TcpServer → List Action → Type 0
AllAllowed s [] = Unit {0}
AllAllowed s (a ∷ as') = Allowed s a × AllAllowed (act s a) as'

is_some : Option ℕ → Bool
is_some none = false
is_some (some n) = true

has-is_some : (id : Text) (m : Dict ℕ) → has id m ≡ is_some (lookup id m)
unfolding is_some lookup
has-is_some id [] = refl
has-is_some id ((j, n) ∷ m) = ground (arith, has-is_some id m)

chunks_of_round :
    (id c : Text) (m : Dict ℕ)
    → IsDistinct m
    → chunks_for id (writes_to m c) ≡ (if has id m then c ∷ [] else [])
chunks_of_round id c m d = elim (Bool-cases (has id m)) [
  | inl there ↦ rw there (chunks_for_round id c m d there)
  | inr absent ↦ rw absent (chunks_for_absent id c m absent)
]

-- The key under which a connection stands.
key_of :
    (c : ℕ) (m : Dict ℕ)
    → member c (conns_of m) ≡ true
    → (id : Text) × (has id m ≡ true) × (IsDistinct m → lookup id m ≡ some c)
unfolding conns_of lookup
key_of c [] h = absurd (cc)
key_of c ((j, n) ∷ m) h = elim (Bool-cases (n == c)) [
  | inl here ↦ (j, ground (arith, text_eq_iff j j), λ d. ground (arith, text_eq_iff j j))
  | inr there ↦
      let (id, known, found) = key_of c m (ground (arith, there)) in
      (id, ground arith, λ d. ground (arith, found d.1, text_eq_iff j id))
]

member_of_lookup :
    (c : ℕ) (id : Text) (m : Dict ℕ) → lookup id m ≡ some c → member c (conns_of m) ≡ true
unfolding conns_of lookup
member_of_lookup c id [] h = absurd (cc)
member_of_lookup c id ((j, n) ∷ m) h = ground (arith, member_of_lookup c id m)

same_conns :
    (c : ℕ) (m n : Dict ℕ)
    → IsDistinct m
    → IsDistinct n
    → ((id : Text) → lookup id m ≡ lookup id n)
    → member c (conns_of m) ≡ member c (conns_of n)
same_conns c m n dm dn same = elim (Bool-cases (member c (conns_of m))) [
  | inl in_m ↦
      let (id, _, found) = key_of c m in_m in
      in_m ∙ sym (member_of_lookup c id n (sym (same id) ∙ found dm))
  | inr out_m ↦ elim (Bool-cases (member c (conns_of n))) [
    | inr out_n ↦ out_m ∙ sym out_n
    | inl in_n ↦
        let (id, _, found) = key_of c n in_n in
        absurd (cc (member_of_lookup c id m (same id ∙ found dn)))
  ]
]

same_chunks :
    (id c : Text) (m n : Dict ℕ)
    → IsDistinct m
    → IsDistinct n
    → lookup id m ≡ lookup id n
    → chunks_for id (writes_to m c) ≡ chunks_for id (writes_to n c)
same_chunks id c m n dm dn same =
    let known : has id m ≡ has id n = has-is_some id m ∙ ap is_some same ∙ sym (has-is_some id n) in
    chunks_of_round id c m dm ∙ rw known (sym (chunks_of_round id c n dn))
