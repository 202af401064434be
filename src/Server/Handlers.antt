-- ===== src/Server/Handlers.antt =====
-- internal/server/server.go: the handlers of `handleClient` under every interleaving.
use share_serial.Base.{ℕ, zero, suc, ◌+◌, ◌≤◌, ◌≡◌, ◌≢◌, refl, Text, arith, ◌-◌}
use share_serial.Server.{
  Handler, reading, testing, acquiring, retrying, checking, writing, gone, TcpServer, advance,
}

-- How many steps a handler makes at most before it reads again.
abbrev pub steps_left : Handler → ℕ
steps_left reading = 0
steps_left (testing c) = 15
steps_left (acquiring c) = 14
steps_left (retrying k c) = k + 3
steps_left (checking c) = 2
steps_left (writing c) = 1
steps_left gone = 0

advance_falls :
    (s : TcpServer) (id : Text) (h : Handler) → steps_left (advance s id h).1 ≤ steps_left h - 1
unfolding advance
advance_falls s id reading = omega arith
advance_falls s id (testing c) = ground arith
advance_falls s id (acquiring c) = ground arith
advance_falls s id (retrying zero c) = omega arith
advance_falls s id (retrying (suc k) c) = ground arith
advance_falls s id (checking c) = ground arith
advance_falls s id (writing c) = ground arith
advance_falls s id gone = omega arith

-- The handler's own steps, with `others` between them for what the rest of the program does.
unfoldable pub handle :
    ℕ → (ℕ → TcpServer → TcpServer) → TcpServer → Text → Handler → TcpServer × Handler
handle zero others s id h = (s, h)
handle (suc n) others s id h = let (t, h') = advance (others n s) id h in handle n others t id h'

advance-ne-gone : (s : TcpServer) (id : Text) (h : Handler) → h ≢ gone → (advance s id h).1 ≢ gone
unfolding advance
advance-ne-gone s id gone n = absurd (n refl)
advance-ne-gone s id reading n = n
advance-ne-gone s id (testing c) n = ground arith
advance-ne-gone s id (acquiring c) n = ground arith
advance-ne-gone s id (retrying zero c) n = λ e. cc
advance-ne-gone s id (retrying (suc k) c) n = ground arith
advance-ne-gone s id (checking c) n = ground arith
advance-ne-gone s id (writing c) n = ground arith

idle-reading : (h : Handler) → steps_left h ≤ 0 → h ≢ gone → h ≡ reading
idle-reading reading le n = refl
idle-reading gone le n = absurd (n refl)
idle-reading (testing c) le n = absurd (omega arith)
idle-reading (acquiring c) le n = absurd (omega arith)
idle-reading (retrying k c) le n = absurd (omega arith)
idle-reading (checking c) le n = absurd (omega arith)
idle-reading (writing c) le n = absurd (omega arith)

handle-reading :
    (n : ℕ) (others : ℕ → TcpServer → TcpServer) (s : TcpServer) (id : Text) (h : Handler)
    → steps_left h ≤ n
    → h ≢ gone
    → (handle n others s id h).1 ≡ reading
unfolding handle
handle-reading zero others s id h le n = idle-reading h le n
handle-reading (suc k) others s id h le n =
    handle-reading k others (advance (others k s) id h).0 id (advance (others k s) id h).1
      (omega (arith, advance_falls (others k s) id h)) (advance-ne-gone (others k s) id h n)

-- Whatever other threads do between its steps, a handler that was given a chunk is back in `Read`
-- after 15 steps of its own: it does not wait for the lock for ever.
pub handle_returns :
    (others : ℕ → TcpServer → TcpServer) (s : TcpServer) (id c : Text)
    → (handle 15 others s id (testing c)).1 ≡ reading
handle_returns others s id c = handle-reading 15 others s id (testing c) (omega arith) (λ e. cc)
