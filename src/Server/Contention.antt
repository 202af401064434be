-- ===== src/Server/Contention.antt =====
-- internal/server/server.go: what becomes of a chunk whose client never gets the lock.
use share_serial.Base.{
  ℕ, zero, suc, ◌≡◌, refl, inl, inr, true, false, some, Text, text_eq, arith, Option-cases,
}
use share_serial.Arbiter
use share_serial.Arbiter.{Arbiter, tick, fires, expires}
use share_serial.Server.{
  TcpServer, Handler, testing, writing, reading, gone, retrying, acquiring, checking, advance,
}
use share_serial.Server.Handlers.{handle}

-- What is left of the other threads when the handler does nothing.
only_others : ℕ → (ℕ → TcpServer → TcpServer) → TcpServer → TcpServer
only_others zero others s = s
only_others (suc n) others s = only_others n others (others n s)

-- The lock is held by another client than `id`.
abbrev pub IsTaken : Text → TcpServer → Type 0
IsTaken id s = (s.arbiter.locked ≡ true) × (text_eq s.arbiter.owner id ≡ false)

abbrev NotWriting : Handler → Type 0
NotWriting (writing c) = ⊥
NotWriting _ = Unit {0}

acquire_taken :
    (a : Arbiter) (id : Text)
    → a.locked ≡ true
    → Arbiter.acquire a id ≡ (a, false, some Arbiter.lock_already_held)
unfolding Arbiter.acquire
acquire_taken a id l = ground arith

advance_taken :
    (s : TcpServer) (id : Text) (h : Handler)
    → IsTaken id s
    → NotWriting h
    → ((advance s id h).0 ≡ s) × NotWriting (advance s id h).1
unfolding advance Arbiter.lock_owner
advance_taken s id reading t n = (refl, tt)
advance_taken s id (testing c) t n = (refl, rw t.1 tt)
advance_taken s id (acquiring c) t n = rw (acquire_taken s.arbiter id t.0) (refl, tt)
advance_taken s id (retrying zero c) t n = (refl, tt)
advance_taken s id (retrying (suc k) c) t n = rw (acquire_taken s.arbiter id t.0) (refl, tt)
advance_taken s id (checking c) t n = (
  ground arith,
  elim (Option-cases s.serial) [
    | inl e ↦ rw (e, advance) tt
    | inr (w, e) ↦ rw (e, advance, t.1) tt
  ],
)
advance_taken s id (writing c) t n = absurd n
advance_taken s id gone t n = (refl, tt)

handle_taken :
    (n : ℕ) (others : ℕ → TcpServer → TcpServer) (s : TcpServer) (id : Text) (h : Handler)
    → ((k : ℕ) (t : TcpServer) → IsTaken id t → IsTaken id (others k t))
    → IsTaken id s
    → NotWriting h
    → (handle n others s id h).0 ≡ only_others n others s
unfolding handle only_others
handle_taken zero others s id h keep t q = refl
handle_taken (suc n) others s id h keep t q =
    let taken = keep n s t in
    let (same, q') = advance_taken (others n s) id h taken q in
    rw (handle, same)
      (handle_taken n others (others n s) id (advance (others n s) id h).1 keep taken q')

-- A chunk of a client that finds the lock with another holder through all of its attempts is
-- dropped: in all its 15 steps the handler changes nothing, and nothing reaches the port.
contended_dropped :
    (others : ℕ → TcpServer → TcpServer) (s : TcpServer) (id chunk : Text)
    → ((k : ℕ) (t : TcpServer) → IsTaken id t → IsTaken id (others k t))
    → IsTaken id s
    → (handle 15 others s id (testing chunk)).0 ≡ only_others 15 others s
contended_dropped others s id chunk keep t = handle_taken 15 others s id (testing chunk) keep t tt
