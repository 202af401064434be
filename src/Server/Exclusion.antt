-- ===== src/Server/Exclusion.antt =====
-- internal/server/server.go: no two clients write to the serial port at one time, unless a timer
-- takes the lock away.
use share_serial.Base.{
  ◌≡◌, ◌≢◌, ◌∙◌, inl, inr, Option, some, List, [], ◌∷◌, Text, lookup, Option-cases, arith,
}
use share_serial.Arbiter
use share_serial.Arbiter.{Arbiter}
use share_serial.Arbiter.Invariant.{step-Inv, new_arbiter-Inv}
use share_serial.Arbiter.Exclusion.{holder, step_refines}
use share_serial.Server.{Handler, reading, writing, TcpServer, started}
use share_serial.Server.Events.{
  Event, accepts, reads, runs, lock, broadcasts, round, stops, deliver, step, run,
}
use share_serial.Server.Writers.{
  IsExclusive, insert-WritersHold, insert-named, holder-acquires, run_handler-IsExclusive,
  read_result-IsExclusive,
}

-- A timer's callback is the one event of the lock that takes it from its holder; `Release` is never
-- called by a handler.
abbrev pub Quiet : Event → Type 0
Quiet (accepts id conn) = id ≢ []
Quiet (reads id r) = Unit {0}
Quiet (runs id) = Unit {0}
Quiet (lock (Arbiter.acquires c)) = Unit {0}
Quiet (lock (Arbiter.releases c)) = ⊥
Quiet (lock (Arbiter.force_releases c)) = ⊥
Quiet (lock (Arbiter.extends c d)) = Unit {0}
Quiet (lock (Arbiter.tick d)) = Unit {0}
Quiet (lock (Arbiter.fires i)) = Unit {0}
Quiet (lock (Arbiter.expires i)) = ⊥
Quiet (broadcasts c) = Unit {0}
Quiet round = Unit {0}
Quiet stops = Unit {0}

abbrev pub AllQuiet : List Event → Type 0
AllQuiet [] = Unit {0}
AllQuiet (e ∷ es) = Quiet e × AllQuiet es

holder-Quiet :
    (a : Arbiter) (e : Arbiter.Event) (j : Text)
    → Quiet (lock e)
    → holder a ≡ some j
    → holder (Arbiter.step a e) ≡ some j
holder-Quiet a (Arbiter.acquires c) j q h = holder-acquires a c j h
holder-Quiet a (Arbiter.releases c) j q h = absurd q
holder-Quiet a (Arbiter.force_releases c) j q h = absurd q
holder-Quiet a (Arbiter.extends c d) j q h = step_refines a (Arbiter.extends c d) ∙ h
holder-Quiet a (Arbiter.tick d) j q h = step_refines a (Arbiter.tick d) ∙ h
holder-Quiet a (Arbiter.fires i) j q h = step_refines a (Arbiter.fires i) ∙ h
holder-Quiet a (Arbiter.expires i) j q h = absurd q

deliver-IsExclusive :
    (s : TcpServer) (id : Text) (r : Option Text)
    → IsExclusive s
    → IsExclusive (step s (reads id r))
unfolding step
deliver-IsExclusive s id r v = elim (Option-cases (lookup id s.handlers)) [
  | inl e ↦ rw e v
  | inr (h, e) ↦ rw e (at h e)
]
  where
    at : (h : Handler) → lookup id s.handlers ≡ some h → IsExclusive (deliver s id r (some h))
    at reading e = read_result-IsExclusive s id r (v.named id reading e) v
    at _ e = v

unchanged-IsExclusive :
    (s t : TcpServer)
    → t.handlers ≡ s.handlers
    → t.arbiter ≡ s.arbiter
    → IsExclusive s
    → IsExclusive t
unchanged-IsExclusive s t eh ea v = record {
  named = rw eh v.named;
  sound = rw ea v.sound;
  writers = rw (eh, ea) v.writers;
}

step-IsExclusive : (s : TcpServer) (e : Event) → Quiet e → IsExclusive s → IsExclusive (step s e)
step-IsExclusive s (accepts id conn) q v =
    unfold step in
    record {
      named = insert-named s.handlers id reading q v.named;
      sound = v.sound;
      writers =
          insert-WritersHold s.handlers s.arbiter s.arbiter id reading (λ j _ h. h) (λ c e. cc)
            v.writers;
    }
step-IsExclusive s (reads id r) q v = deliver-IsExclusive s id r v
step-IsExclusive s (runs id) q v = unfold step in run_handler-IsExclusive s id v
step-IsExclusive s (lock e) q v =
    unfold step in
    record {
      named = v.named;
      sound = step-Inv s.arbiter e v.sound;
      writers = λ id c at. holder-Quiet s.arbiter e id q (v.writers id c at);
    }
step-IsExclusive s (broadcasts c) q v =
    unchanged-IsExclusive s (step s (broadcasts c)) (unfold step in ground arith)
      (unfold step in ground arith) v
step-IsExclusive s round q v =
    unchanged-IsExclusive s (step s round) (unfold step in ground arith)
      (unfold step in ground arith) v
step-IsExclusive s stops q v =
    unchanged-IsExclusive s (step s stops) (unfold step in ground arith)
      (unfold step in ground arith) v

run-IsExclusive :
    (s : TcpServer) (es : List Event) → AllQuiet es → IsExclusive s → IsExclusive (run s es)
unfolding run
run-IsExclusive s [] q v = v
run-IsExclusive s (e ∷ es) q v = run-IsExclusive (step s e) es q.1 (step-IsExclusive s e q.0 v)

started-IsExclusive : (w : List Text) (addr : Text) → IsExclusive (started w addr)
unfolding started lookup
started-IsExclusive w addr = record {
  named = λ id h e. cc;
  sound = new_arbiter-Inv _;
  writers = λ id c e. cc;
}

-- On every interleaving of a started server's goroutines in which no timer callback runs, none of the
-- outside calls that free the lock is made and no client has the empty id, two handlers about to
-- write to the serial port are one, and its client holds the write lock.
pub one_writer :
    (w : List Text) (addr : Text) (es : List Event) (i j c d : Text)
    → AllQuiet es
    → lookup i (run (started w addr) es).handlers ≡ some (writing c)
    → lookup j (run (started w addr) es).handlers ≡ some (writing d)
    → (i ≡ j) × (holder (run (started w addr) es).arbiter ≡ some i)
one_writer w addr es i j c d q hi hj =
    let v = run-IsExclusive (started w addr) es q (started-IsExclusive w addr) in
    let wi = v.writers i c hi in let wj = v.writers j d hj in (cc, wi)
