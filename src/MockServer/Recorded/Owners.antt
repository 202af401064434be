-- ===== src/MockServer/Recorded/Owners.antt =====
-- internal/server/server.go: for whom the goroutines of `MockServer` append.
use share_serial.Base.{
  ℕ, ◌≡◌, refl, ap, ◌∙◌, Option, none, some, List, [], ◌∷◌, ◌++◌, Text, text_eq_iff, arith, ◌==◌,
  ◌⊎◌, ◌≢◌, Bool-cases, inl, inr,
}
use share_serial.Arbiter
use share_serial.MockServer.{
  MockServer, MockHandler, mock_reading, testing_lock, testing_owner, appending, mock_failed,
  mock_returned, accept, advance,
}
use share_serial.MockServer.Recorded.{
  Goroutine, Running, Event, accepts, advances, broadcasts, lock, put, advanced, step, run,
}

-- A goroutine with this id that is about to append this chunk, and that the client owned the lock.
abbrev pub Appends : Running → ℕ → Text → Text → Type 0
Appends s k id chunk =
    (g : Goroutine) × (s.handlers k ≡ some g) × (g.id ≡ id) × (g.place ≡ appending chunk)

abbrev pub Owned : Running → Text → List Event → Type 0
Owned s id es =
    (before : List Event) × (after : List Event) × (es ≡ before ++ after)
    × (Arbiter.lock_owner (run s before).server.arbiter ≡ id)

-- A step to the append was taken because the client was seen to own the lock.
advance-owner :
    (m : MockServer) (id : Text) (conn : ℕ) (place : MockHandler) (got : Option Text) (chunk : Text)
    → (advance m id conn place got).1 ≡ appending chunk
    → Arbiter.lock_owner m.arbiter ≡ id
unfolding advance
advance-owner m id conn mock_reading none chunk e = cc
advance-owner m id conn mock_reading (some c) chunk e = cc
advance-owner m id conn (testing_lock c) got chunk e = absurd (ground (arith, e))
advance-owner m id conn (testing_owner c) got chunk e =
    ground (arith, e, text_eq_iff (Arbiter.lock_owner m.arbiter) id)
advance-owner m id conn (appending c) got chunk e = cc
advance-owner m id conn mock_failed got chunk e = cc
advance-owner m id conn mock_returned got chunk e = cc

put-Appends :
    (s : Running) (m : MockServer) (j k : ℕ) (new : Goroutine) (id chunk : Text)
    → Appends (record { server = m; handlers = put s.handlers j new }) k id chunk
    → Appends s k id chunk ⊎ ((new.id ≡ id) × (new.place ≡ appending chunk))
put-Appends s m j k new id chunk (g, there, same, place) = elim (Bool-cases (j == k)) [
  | inl e ↦
      let found : some new ≡ some g = ground (arith, e, there) in
      let is : new ≡ g = ground (arith, found) in
      inr (ap (λ h. h.id) is ∙ same, ap (λ h. h.place) is ∙ place)
  | inr e ↦
      let kept : s.handlers k ≡ some g = ground (arith, e, there) in inl (g, kept, same, place)
]

advanced-Appends :
    (s : Running) (j : ℕ) (found : Option Goroutine) (got : Option Text) (k : ℕ) (id chunk : Text)
    → Appends (advanced s j found got) k id chunk
    → Appends s k id chunk ⊎ (Arbiter.lock_owner s.server.arbiter ≡ id)
unfolding advanced
advanced-Appends s j none got k id chunk a = inl a
advanced-Appends s j (some g) got k id chunk a =
    let (m, place) = advance s.server g.id g.conn g.place got in
    elim (put-Appends s m j k (record g { place = place }) id chunk a) [
      | inl b ↦ inl b
      | inr (same, e) ↦ inr (advance-owner s.server g.id g.conn g.place got chunk e ∙ same)
    ]

step-Appends :
    (s : Running) (e : Event) (k : ℕ) (id chunk : Text)
    → Appends (step s e) k id chunk
    → Appends s k id chunk ⊎ (Arbiter.lock_owner s.server.arbiter ≡ id)
unfolding step
step-Appends s (accepts j new conn) k id chunk a =
    let g : Goroutine = record { id = new; conn = conn; place = mock_reading } in
    elim (put-Appends s (accept s.server new conn) j k g id chunk a) [
      | inl b ↦ inl b
      | inr (same, e) ↦ cc
    ]
step-Appends s (advances j got) k id chunk a = advanced-Appends s j (s.handlers j) got k id chunk a
step-Appends s (broadcasts c) k id chunk a = inl a
step-Appends s (lock e) k id chunk a = inl a

run-Appends :
    (s : Running) (es : List Event) (k : ℕ) (id chunk : Text)
    → Appends (run s es) k id chunk
    → Appends s k id chunk ⊎ Owned s id es
unfolding run
run-Appends s [] k id chunk a = inl a
run-Appends s (e ∷ es) k id chunk a = elim (run-Appends (step s e) es k id chunk a) [
  | inr (before, after, parts, own) ↦ inr (e ∷ before, after, ap (◌∷◌ e) parts, own)
  | inl next ↦ elim (step-Appends s e k id chunk next) [
    | inl now ↦ inl now
    | inr own ↦ inr ([], e ∷ es, refl, own)
  ]
]

-- The goroutine `k` comes to append a chunk only for a client that was seen to own the lock: if it was
-- not about to append at first, and after any events it is, for the client `id`, then at some moment
-- among these events the lock's owner was `id`. The owner may be another one when it appends, as the
-- calls of `IsLocked`, `Owner` and the append are apart.
pub run-Owned :
    (s : Running) (es : List Event) (k : ℕ) (id chunk : Text)
    → ((g : Goroutine) → s.handlers k ≡ some g → g.place ≢ appending chunk)
    → Appends (run s es) k id chunk
    → Owned s id es
run-Owned s es k id chunk start a = elim (run-Appends s es k id chunk a) [
  | inl (g, there, same, place) ↦ absurd (start g there place)
  | inr owned ↦ owned
]
