-- ===== src/Server/Races.antt =====
-- internal/server/server.go: what the handlers of two clients can do to one another.
use share_serial.Base.{
  ℕ, ◌≡◌, ◌≢◌, refl, sym, ap, ◌∙◌, true, false, some, List, [], ◌∷◌, Text, text_eq, text_ne,
  text_eq_refl, lookup, lookup-insert, arith,
}
use share_serial.Arbiter
use share_serial.Arbiter.{Arbiter, tick, fires, expires}
use share_serial.Arbiter.Invariant.{Inv, run-Inv}
use share_serial.Arbiter.Expiry.{lock_expires}
use share_serial.Server.{
  TcpServer, Handler, testing, writing, acquiring, checking, advance, run_handler,
}
use share_serial.Server.Events.{Event, runs, lock, step, run}

-- Where two handlers stand, with the arbiter and the port of their server.
record At (s : TcpServer) (c : Text) (hc : Handler) (d : Text) (hd : Handler) (a : Arbiter)
    (w : List Text) : Type 0 where
  first : lookup c s.handlers ≡ some hc
  second : lookup d s.handlers ≡ some hd
  locks : s.arbiter ≡ a
  port : s.serial ≡ some w

At-swap :
    (s : TcpServer) (c : Text) (hc : Handler) (d : Text) (hd : Handler) (a : Arbiter)
    (w : List Text)
    → At s c hc d hd a w
    → At s d hd c hc a w
At-swap s c hc d hd a w p = record {
  first = p.second;
  second = p.first;
  locks = p.locks;
  port = p.port;
}

At-lock :
    (s : TcpServer) (c : Text) (hc : Handler) (d : Text) (hd : Handler) (a : Arbiter)
    (w : List Text) (e : Arbiter.Event)
    → At s c hc d hd a w
    → At (step s (lock e)) c hc d hd (Arbiter.step a e) w
unfolding step
At-lock s c hc d hd a w e p = record {
  first = p.first;
  second = p.second;
  locks = ap (λ b. Arbiter.step b e) p.locks;
  port = p.port;
}

module _ (s : TcpServer) (c : Text) (d : Text) (hd : Handler) (a : Arbiter) (w : List Text)
    (ne : c ≢ d) where
  -- A call of the first handler leaves the second where it stands.
  At-runs :
      (h : Handler) (b : Arbiter) (h' : Handler)
      → At s c h d hd a w
      → (advance s c h).1 ≡ h'
      → (advance s c h).0.arbiter ≡ b
      → (advance s c h).0.handlers ≡ s.handlers
      → (advance s c h).0.serial ≡ s.serial
      → At (step s (runs c)) c h' d hd b w
  unfolding step run_handler
  At-runs h b h' p eh eb same port =
      rw (p.first, run_handler)
        record {
          first = rw (same, eh, lookup-insert, text_eq_refl) refl;
          second = rw (same, lookup-insert, text_ne c d ne) p.second;
          locks = eb;
          port = port ∙ p.port;
        }

  At-check :
      (x : Text)
      → At s c (checking x) d hd a w
      → text_eq a.owner c ≡ true
      → At (step s (runs c)) c (writing x) d hd a w
  unfolding advance Arbiter.lock_owner
  At-check x p o =
      At-runs (checking x) a (writing x) p (ground (arith, p.port, p.locks))
        (ground (arith, p.port, p.locks)) (ground (arith, p.port)) (ground (arith, p.port))

  At-test :
      (x : Text)
      → At s c (testing x) d hd a w
      → text_eq a.owner c ≡ false
      → At (step s (runs c)) c (acquiring x) d hd a w
  unfolding advance Arbiter.lock_owner
  At-test x p o = At-runs (testing x) a (acquiring x) p (ground (arith, p.locks)) p.locks refl refl

  At-acquire :
      (x : Text)
      → At s c (acquiring x) d hd a w
      → a.locked ≡ false
      → At (step s (runs c)) c (checking x) d hd (Arbiter.acquire a c).0 w
  unfolding advance
  At-acquire x p l =
      At-runs (acquiring x) (Arbiter.acquire a c).0 (checking x) p
        (unfold Arbiter.acquire in ground (arith, p.locks))
        (ap (λ b. (Arbiter.acquire b c).0) p.locks) refl refl

-- The lock's time runs out between the handler of `c` and that of `d`.
abbrev pub race : ℕ → ℕ → Text → Text → List Event
race timeout i c d =
    runs c ∷ lock (tick timeout) ∷ lock (fires i) ∷ lock (expires i) ∷ runs d ∷ runs d ∷ runs d ∷ []

abbrev pub BothWriting : TcpServer → Text → Text → Text → Text → Type 0
BothWriting t c d x y =
    (lookup c t.handlers ≡ some (writing x)) × (lookup d t.handlers ≡ some (writing y))

expired : Arbiter → ℕ → Arbiter
expired a i = Arbiter.run a (tick a.timeout ∷ fires i ∷ expires i ∷ [])

owner-acquire :
    (b : Arbiter) (d : Text) → b.locked ≡ false → text_eq (Arbiter.acquire b d).0.owner d ≡ true
unfolding Arbiter.acquire
owner-acquire b d free = ground (arith, text_eq_refl d)

unowned :
    (a : Arbiter) (es : List Arbiter.Event) {d : Text}
    → d ≢ []
    → Inv a
    → (Arbiter.run a es).locked ≡ false
    → text_eq (Arbiter.run a es).owner d ≡ false
unowned a es {d} named v freed =
    let free = (run-Inv a es v).free_unowned freed in
    text_ne (Arbiter.run a es).owner d (λ e. named (sym e ∙ free))

both_writing :
    (s : TcpServer) (c d x y : Text) (w : List Text) (i : ℕ)
    → c ≢ d
    → s.serial ≡ some w
    → s.arbiter.owner ≡ c
    → lookup c s.handlers ≡ some (checking x)
    → lookup d s.handlers ≡ some (testing y)
    → (expired s.arbiter i).locked ≡ false
    → text_eq (expired s.arbiter i).owner d ≡ false
    → BothWriting (run s (race s.arbiter.timeout i c d)) c d x y
unfolding run expired Arbiter.run
both_writing s c d x y w i ne port o hc hd free other =
    let a = s.arbiter in
    let hx = writing x in
    let dc : d ≢ c = λ e. ne (sym e) in
    let p0 : At s c (checking x) d (testing y) a w = record {
      first = hc;
      second = hd;
      locks = refl;
      port = port;
    } in
    let p1 = At-check s c d (testing y) a w ne x p0 (rw o (text_eq_refl c)) in
    let s1 = step s (runs c) in
    let a2 = Arbiter.step a (tick a.timeout) in
    let p2 = At-lock s1 c hx d (testing y) a w (tick a.timeout) p1 in
    let s2 = step s1 (lock (tick a.timeout)) in
    let a3 = Arbiter.step a2 (fires i) in
    let p3 = At-lock s2 c hx d (testing y) a2 w (fires i) p2 in
    let s3 = step s2 (lock (fires i)) in
    let b = Arbiter.step a3 (expires i) in
    let p4 = At-lock s3 c hx d (testing y) a3 w (expires i) p3 in
    let s4 = step s3 (lock (expires i)) in
    let p5 = At-test s4 d c hx b w dc y (At-swap s4 c hx d (testing y) b w p4) other in
    let s5 = step s4 (runs d) in
    let p6 = At-acquire s5 d c hx b w dc y p5 free in
    let s6 = step s5 (runs d) in
    let t = (Arbiter.acquire b d).0 in
    let p7 = At-check s6 d c hx t w dc y p6 (owner-acquire b d free) in (p7.second, p7.first)

-- From every server with a sound lock: if `c` holds the lock and its handler is past the last sleep,
-- and the lock's time runs out between the handler's look at the owner and its `Write`, the handler of
-- another client `d` takes the lock and comes to its own `Write`: both are about to write.
pub two_writers :
    (s : TcpServer) (c d x y : Text) (w : List Text)
    → Inv s.arbiter
    → c ≢ d
    → d ≢ []
    → s.serial ≡ some w
    → s.arbiter.locked ≡ true
    → s.arbiter.owner ≡ c
    → lookup c s.handlers ≡ some (checking x)
    → lookup d s.handlers ≡ some (testing y)
    → (i : ℕ) × BothWriting (run s (race s.arbiter.timeout i c d)) c d x y
unfolding expired
two_writers s c d x y w v ne named port l o hc hd =
    let a = s.arbiter in
    let (i, at, freed) = lock_expires a v l in
    let es : List Arbiter.Event = tick a.timeout ∷ fires i ∷ expires i ∷ [] in
    (i, both_writing s c d x y w i ne port o hc hd freed (unowned a es named v freed))
