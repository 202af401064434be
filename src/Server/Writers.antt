-- ===== src/Server/Writers.antt =====
-- internal/server/server.go: which handlers may write to the serial port at one time.
use share_serial.Base.{
  zero, suc, ◌≡◌, ◌≢◌, refl, subst, ◌∙◌, inl, inr, false, Option, none, some, [], ◌∷◌, Text,
  text_eq, text_eq_iff, Dict, lookup, insert, lookup-insert, if_cases, Bool-cases, Option-cases,
  arith,
}
use share_serial.Arbiter
use share_serial.Arbiter.{Arbiter, step, acquires, force_releases}
use share_serial.Arbiter.Invariant.{Inv, step-Inv}
use share_serial.Arbiter.Exclusion.{holder, take_lock, leave_lock, step_refines}
use share_serial.Server.{
  Handler, reading, testing, acquiring, retrying, checking, writing, gone, TcpServer, disconnect,
  read_result, advance, run_handler,
}

-- Every handler about to write holds the lock.
abbrev pub WritersHold : Dict Handler → Arbiter → Type 0
WritersHold m a = (id c : Text) → lookup id m ≡ some (writing c) → holder a ≡ some id

pub insert-WritersHold :
    (m : Dict Handler) (a b : Arbiter) (id : Text) (h : Handler)
    → ((j : Text) → text_eq id j ≡ false → holder a ≡ some j → holder b ≡ some j)
    → ((c : Text) → h ≡ writing c → holder b ≡ some id)
    → WritersHold m a
    → WritersHold (insert id h m) b
insert-WritersHold m a b id h keep own w j c e = elim (Bool-cases (text_eq id j)) [
  | inl same ↦
      let e' : id ≡ j = ground (arith, text_eq_iff id j) in
      subst (λ (k : Text). holder b ≡ some k) e' (own c (ground (arith, lookup-insert id j h m)))
  | inr other ↦ keep j other (w j c (ground (arith, lookup-insert id j h m)))
]

pub holder-acquires :
    (a : Arbiter) (id j : Text) → holder a ≡ some j → holder (step a (acquires id)) ≡ some j
holder-acquires a id j h =
    subst (λ (v : Option Text). holder (step a (acquires id)) ≡ take_lock v id) h
      (step_refines a (acquires id))

holder-force_releases :
    (a : Arbiter) (id j : Text)
    → text_eq id j ≡ false
    → holder a ≡ some j
    → holder (step a (force_releases id)) ≡ some j
holder-force_releases a id j ne h =
    subst (λ (v : Option Text). holder (step a (force_releases id)) ≡ leave_lock v id) h
      (step_refines a (force_releases id))
    ∙ ground (arith, text_eq_iff id j, text_eq_iff j id)

-- No client has the empty id, the lock is sound, and whoever is about to write holds it.
pub record IsExclusive (s : TcpServer) : Type 0 where
  pub named : (id : Text) (h : Handler) → lookup id s.handlers ≡ some h → id ≢ []
  pub sound : Inv s.arbiter
  pub writers : WritersHold s.handlers s.arbiter

pub insert-named :
    (m : Dict Handler) (id : Text) (h : Handler)
    → id ≢ []
    → ((j : Text) (k : Handler) → lookup j m ≡ some k → j ≢ [])
    → (j : Text) (k : Handler) → lookup j (insert id h m) ≡ some k
    → j ≢ []
insert-named m id h ne old j k e = elim (Bool-cases (text_eq id j)) [
  | inl same ↦ ground (arith, text_eq_iff id j)
  | inr other ↦ old j k (ground (arith, lookup-insert id j h m))
]

-- What one call of a handler does to the lock and to itself.
advance_writes :
    (s : TcpServer) (id : Text) (h : Handler)
    → id ≢ []
    → Inv s.arbiter
    → (Inv (advance s id h).0.arbiter)
      × ((j : Text) → holder s.arbiter ≡ some j → holder (advance s id h).0.arbiter ≡ some j)
      × ((c : Text) → (advance s id h).1 ≡ writing c → holder (advance s id h).0.arbiter ≡ some id)
      × ((advance s id h).0.handlers ≡ s.handlers)
unfolding advance Arbiter.step
advance_writes s id reading ne v = (v, λ j e. e, λ c e. cc, refl)
advance_writes s id (testing c) ne v = (v, λ j e. e, λ d e. ground arith, refl)
advance_writes s id (acquiring c) ne v =
    (step-Inv s.arbiter (acquires id) v, holder-acquires s.arbiter id, λ d e. ground arith, refl)
advance_writes s id (retrying zero c) ne v = (v, λ j e. e, λ d e. cc, refl)
advance_writes s id (retrying (suc k) c) ne v =
    (step-Inv s.arbiter (acquires id) v, holder-acquires s.arbiter id, λ d e. ground arith, refl)
advance_writes s id (checking c) ne v = elim (Option-cases s.serial) [
  | inl e ↦ rw (e, advance) (v, λ j e. e, λ d e. cc, refl)
  | inr (w, e) ↦
      rw (e, advance)
        (v, λ j e. e, λ d at. ground (arith, text_eq_iff s.arbiter.owner id, v.free_unowned), refl)
]
advance_writes s id (writing c) ne v = elim (Option-cases s.serial) [
  | inl e ↦ rw (e, advance) (v, λ j e. e, λ d e. cc, refl)
  | inr (w, e) ↦ rw (e, advance) (v, λ j e. e, λ d e. cc, refl)
]
advance_writes s id gone ne v = (v, λ j e. e, λ c e. cc, refl)

ran-IsExclusive :
    (s : TcpServer) (id : Text) (h : Handler)
    → lookup id s.handlers ≡ some h
    → IsExclusive s
    → IsExclusive (run_handler s id (some h))
unfolding run_handler
ran-IsExclusive s id h e v =
    let ne = v.named id h e in
    let (sound, keep, own, same) = advance_writes s id h ne v.sound in
    record {
      named = rw same (insert-named s.handlers id (advance s id h).1 ne v.named);
      sound = sound;
      writers = rw same (
          insert-WritersHold s.handlers s.arbiter (advance s id h).0.arbiter id (advance s id h).1
            (λ j _. keep j) own v.writers);
    }

pub run_handler-IsExclusive :
    (s : TcpServer) (id : Text)
    → IsExclusive s
    → IsExclusive (run_handler s id (lookup id s.handlers))
run_handler-IsExclusive s id v = elim (Option-cases (lookup id s.handlers)) [
  | inl e ↦ rw e (unfold run_handler in v)
  | inr (h, e) ↦ rw e (ran-IsExclusive s id h e v)
]

disconnect-IsExclusive :
    (s : TcpServer) (id : Text) → id ≢ [] → IsExclusive s → IsExclusive (disconnect s id)
unfolding disconnect Arbiter.lock_owner Arbiter.step
disconnect-IsExclusive s id ne v = record {
  named = insert-named s.handlers id gone ne v.named;
  sound =
      if_cases Inv (text_eq s.arbiter.owner id) _ _
        (λ _. step-Inv s.arbiter (force_releases id) v.sound) (λ _. v.sound);
  writers =
      insert-WritersHold s.handlers s.arbiter (disconnect s id).arbiter id gone
        (λ j other h.
          if_cases (λ b. holder b ≡ some j) (text_eq s.arbiter.owner id) _ _
            (λ _. holder-force_releases s.arbiter id j other h) (λ _. h))
        (λ c e. cc) v.writers;
}

pub read_result-IsExclusive :
    (s : TcpServer) (id : Text) (r : Option Text)
    → id ≢ []
    → IsExclusive s
    → IsExclusive (read_result s id r)
unfolding read_result
read_result-IsExclusive s id none ne v = disconnect-IsExclusive s id ne v
read_result-IsExclusive s id (some []) ne v = v
read_result-IsExclusive s id (some (b ∷ bs)) ne v = record {
  named = insert-named s.handlers id (testing (b ∷ bs)) ne v.named;
  sound = v.sound;
  writers =
      insert-WritersHold s.handlers s.arbiter s.arbiter id (testing (b ∷ bs)) (λ j _ h. h)
        (λ c e. cc) v.writers;
}
