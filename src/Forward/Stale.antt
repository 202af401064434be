-- ===== src/Forward/Stale.antt =====
-- The goroutine from the server to the terminal: what it prints there, and what it closes.
use share_serial.Base.{
  ℕ, ◌≡◌, true, false, none, some, List, [], ◌∷◌, ◌++◌, Text, arith, append_assoc, append-nil, ap,
  ◌∙◌, sym, concat,
}
use share_serial.Reconnect
use share_serial.Reconnect.{ReconnectManager}
use share_serial.Forward.{
  Forwarder, bytes, read_error, at_head, failed, reader_step, step_at, at_loop_head, received,
}
use share_serial.Pty.Terminals.{Terminal, IsTerminal}

module _ {T : Terminal} (is : IsTerminal T) where
  -- The goroutine's steps while the connection gives these chunks: to the read and back, for each.
  abbrev pub receives : Forwarder T → List Text → Forwarder T
  receives f [] = f
  receives f (chunk ∷ chunks) =
      receives (reader_step T (reader_step T f (bytes chunk)) (bytes chunk)) chunks

  -- A goroutine that is about to read an open terminal's connection.
  abbrev pub IsReading : Forwarder T → ℕ → Type 0
  IsReading f c =
      (f.reader ≡ at_head)
      × (f.stop_closed ≡ false)
      × (f.manager.conn ≡ some c)
      × (is.opens f.device ≡ true)

  abbrev got : Forwarder T → Text → Forwarder T
  got f chunk = record f { error_count = 0; device = (T.write f.device chunk).0 }

  two_steps :
      (f : Forwarder T) (c : ℕ) (chunk : Text)
      → IsReading f c
      → reader_step T (reader_step T f (bytes chunk)) (bytes chunk) ≡ got f chunk
  unfolding reader_step step_at at_loop_head received
  two_steps f c chunk r = ground arith

  got-IsReading :
      (f : Forwarder T) (c : ℕ) (chunk : Text) → IsReading f c → IsReading (got f chunk) c
  got-IsReading f c chunk (a, s, k, o) = (a, s, k, is.write_opens f.device chunk o)

  -- What the server sends is passed on to the terminal's user, each byte once and in order, while the
  -- connection lasts.
  pub forwards_received :
      (f : Forwarder T) (c : ℕ) (chunks : List Text)
      → IsReading f c
      → is.shown (receives f chunks).device ≡ is.shown f.device ++ concat chunks
  forwards_received f c [] r = sym (append-nil (is.shown f.device))
  forwards_received f c (chunk ∷ chunks) r =
      ap (λ g. is.shown (receives g chunks).device) (two_steps f c chunk r)
      ∙ forwards_received (got f chunk) c chunks (got-IsReading f c chunk r)
      ∙ ap (λ (t : Text). t ++ concat chunks) (is.write_shown f.device chunk r.3)
      ∙ append_assoc (is.shown f.device) chunk (concat chunks)

-- If the reconnection succeeds between a failed read of the old connection and the goroutine's next
-- step, that step closes the new connection and marks the client as disconnected.
closes_new_connection :
    (T : Terminal) (f : Forwarder T) (c : ℕ) (next : ReconnectManager)
    → f.reader ≡ failed
    → Reconnect.try_reconnect f.manager (some c) ≡ (next, none)
    → let g = reader_step T (record f { manager = next }) read_error in
      (g.manager.conn ≡ some c)
      × (g.manager.connected ≡ false)
      × (g.manager.closed_conns ≡ c ∷ f.manager.closed_conns)
unfolding reader_step step_at Reconnect.try_reconnect Reconnect.dialled Reconnect.disconnect
    Reconnect.close_conn
closes_new_connection T f c next r e = ground arith
