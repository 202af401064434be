-- ===== src/Server/Alone.antt =====
-- internal/server/server.go: a handler while no other thread does anything.
use share_serial.Base.{
  ℕ, zero, suc, ◌≡◌, refl, ap, sym, ◌∙◌, true, false, some, List, [], ◌∷◌, ◌++◌, Text, text_eq,
  text_eq_refl, arith, append-nil, append_assoc, ◌⊎◌, inl, inr, Bool-cases,
}
use share_serial.Arbiter
use share_serial.Arbiter.{Arbiter}
use share_serial.Server.{
  TcpServer, Handler, testing, writing, reading, acquiring, checking, advance,
}
use share_serial.Server.Handlers.{handle}

abbrev pub alone : ℕ → TcpServer → TcpServer
alone n s = s

handle_idle : (n : ℕ) (s : TcpServer) (id : Text) → handle n alone s id reading ≡ (s, reading)
unfolding handle advance
handle_idle zero s id = refl
handle_idle (suc n) s id = handle_idle n s id

handle_step :
    (n : ℕ) (s t : TcpServer) (id : Text) (h k : Handler)
    → advance s id h ≡ (t, k)
    → handle (suc n) alone s id h ≡ handle n alone t id k
unfolding handle
handle_step n s t id h k e = rw e refl

-- The server after one more chunk for its port.
abbrev wrote : TcpServer → List Text → Text → TcpServer
wrote s w c = record s { serial = some (w ++ c ∷ []) }

checked :
    (s : TcpServer) (id c : Text) (w : List Text)
    → s.serial ≡ some w
    → text_eq s.arbiter.owner id ≡ true
    → advance s id (checking c) ≡ (s, writing c)
unfolding advance Arbiter.lock_owner
checked s id c w port own = ground arith

written :
    (s : TcpServer) (id c : Text) (w : List Text)
    → s.serial ≡ some w
    → advance s id (writing c) ≡ (wrote s w c, reading)
unfolding advance
written s id c w port = ground arith

from_checking :
    (n : ℕ) (s : TcpServer) (id c : Text) (w : List Text)
    → s.serial ≡ some w
    → text_eq s.arbiter.owner id ≡ true
    → handle (suc (suc n)) alone s id (checking c) ≡ (wrote s w c, reading)
from_checking n s id c w port own =
    handle_step (suc n) s s id (checking c) (writing c) (checked s id c w port own)
    ∙ handle_step n s (wrote s w c) id (writing c) reading (written s id c w port)
    ∙ handle_idle n (wrote s w c) id

-- The lock that a client with no lock takes.
abbrev taken : TcpServer → Text → TcpServer
taken s id =
    let a = s.arbiter in
    record s { arbiter = Arbiter.arm (record a { owner = id; locked = true }) id a.timeout }

owner-taken : (s : TcpServer) (id : Text) → text_eq (taken s id).arbiter.owner id ≡ true
unfolding Arbiter.arm
owner-taken s id = text_eq_refl id

acquired :
    (s : TcpServer) (id c : Text)
    → s.arbiter.locked ≡ false
    → advance s id (acquiring c) ≡ (taken s id, checking c)
unfolding advance Arbiter.acquire
acquired s id c free = ground arith

tested :
    (s : TcpServer) (id c : Text)
    → text_eq s.arbiter.owner id ≡ true
    → advance s id (testing c) ≡ (s, checking c)
unfolding advance Arbiter.lock_owner
tested s id c own = ground arith

untested :
    (s : TcpServer) (id c : Text)
    → text_eq s.arbiter.owner id ≡ false
    → advance s id (testing c) ≡ (s, acquiring c)
unfolding advance Arbiter.lock_owner
untested s id c own = ground arith

-- The lock is the client's, or nobody's.
abbrev pub MayWrite : Text → TcpServer → Type 0
MayWrite id s = (text_eq s.arbiter.owner id ≡ true) ⊎ (s.arbiter.locked ≡ false)

-- The server after the handler has dealt with these chunks.
unfoldable pub serve : TcpServer → Text → List Text → TcpServer
unfolding handle
serve s id [] = s
serve s id (c ∷ chunks) = serve (handle 15 alone s id (testing c)).0 id chunks

-- A handler whose client may write puts its chunk behind what the port was given, and its client still
-- may write.
one_chunk :
    (s : TcpServer) (id c : Text) (w : List Text)
    → s.serial ≡ some w
    → MayWrite id s
    → let t = (handle 15 alone s id (testing c)).0 in
      (t.serial ≡ some (w ++ c ∷ [])) × MayWrite id t
one_chunk s id c w port may = elim (Bool-cases (text_eq s.arbiter.owner id)) [
  | inl own ↦
      let all =
        handle_step 14 s s id (testing c) (checking c) (tested s id c own)
        ∙ from_checking 12 s id c w port own in
      rw all (refl, inl own)
  | inr other ↦
      let free : s.arbiter.locked ≡ false = ground arith in
      let all =
        handle_step 14 s s id (testing c) (acquiring c) (untested s id c other)
        ∙ handle_step 13 s (taken s id) id (acquiring c) (checking c) (acquired s id c free)
        ∙ from_checking 11 (taken s id) id c w port (owner-taken s id) in
      rw all (refl, inl (owner-taken s id))
]

-- While no other thread does anything, and the lock is the client's or nobody's, its handler writes
-- every chunk to the serial port, each once and in the order in which they came.
pub serve-serial :
    (s : TcpServer) (id : Text) (chunks w : List Text)
    → s.serial ≡ some w
    → MayWrite id s
    → (serve s id chunks).serial ≡ some (w ++ chunks)
unfolding serve
serve-serial s id [] w port may = port ∙ ap some (sym (append-nil w))
serve-serial s id (c ∷ chunks) w port may =
    let (next, still) = one_chunk s id c w port may in
    serve-serial (handle 15 alone s id (testing c)).0 id chunks (w ++ c ∷ []) next still
    ∙ ap some (append_assoc w (c ∷ []) chunks)
