-- ===== src/Pump/Shutdown.antt =====
-- cmd/server/main.go: what the end of `main` does to the goroutine that reads the port.
use share_serial.Base.{ℕ, ◌≡◌, true, none, some, ◌∷◌, Text, arith}
use share_serial.Channel
use share_serial.Server
use share_serial.Pump.{
  Program, in_read, panicked, returned, at_select, step, step_at, has_read, after_broadcast,
  shut_down,
}

-- If the port speaks while a running server shuts down, the server panics: its goroutine, which is
-- in `Read` when `main` stops the server, then sends on the closed channel.
pub shut_down_panics :
    (p q : Program) (b : ℕ) (bs : Text)
    → p.server.running ≡ true
    → p.reader ≡ in_read
    → shut_down p ≡ some q
    → (step (step q (some (b ∷ bs))) none).reader ≡ panicked
unfolding step step_at has_read after_broadcast shut_down Server.stop Server.broadcast_data
    Channel.close Channel.send
shut_down_panics p q b bs running reading stopped = ground arith

-- A goroutine that is at its `select` returns instead.
shut_down_returns :
    (p q : Program) → p.reader ≡ at_select → shut_down p ≡ some q → (step q none).reader ≡ returned
unfolding step step_at shut_down
shut_down_returns p q h stopped = ground arith
