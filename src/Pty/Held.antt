-- ===== src/Pty/Held.antt =====
-- internal/pty/real_pty_darwin.go: every method holds the mutex from its first line to its return,
-- `Read` too while it waits for the master.
use share_serial.Base.{
  ◌⊎◌, ℕ, ◌≡◌, refl, true, not, Option, none, some, List, [], ◌∷◌, Text, if◌then◌else◌,
}
use share_serial.Guarded
use share_serial.Guarded.{Guarded, Event, delivers}
use share_serial.Pty.{TermiosConfig}
use share_serial.Pty.Real.{System, World, RealPty, close_real_pty_darwin, set_termios_real}

pub data Call : Type 0 where
  call_read : ℕ → Call
  call_write : Text → Call
  call_read_slave : ℕ → Call
  call_close : Call
  call_is_open : Call
  call_set_termios : TermiosConfig → Call
  call_get_termios : Call
  call_symlink_path : Call

-- The terminal and the system that its calls change.
abbrev pub Terminal : Type 0
Terminal = World × RealPty

-- Reads and writes of an open terminal wait for the system; the other calls return. What the system
-- removes is given.
unfoldable pub finish : System → Terminal → Call → Option Terminal
unfolding close_real_pty_darwin set_termios_real
finish sys (w, r) (call_read n) = if not r.is_open then some (w, r) else none
finish sys (w, r) (call_write buf) = if not r.is_open then some (w, r) else none
finish sys (w, r) (call_read_slave n) = if not r.is_open then some (w, r) else none
finish sys (w, r) call_close = some (close_real_pty_darwin sys w r)
finish sys (w, r) call_is_open = some (w, r)
finish sys (w, r) (call_set_termios config) = some (w, set_termios_real r config)
finish sys (w, r) call_get_termios = some (w, r)
finish sys (w, r) call_symlink_path = some (w, r)

unfoldable pub deliver : Terminal → Call → Text → Option Terminal
deliver t (call_read n) chunk = some t
deliver t (call_write buf) chunk = some t
deliver t (call_read_slave n) chunk = some t
deliver t call_close chunk = none
deliver t call_is_open chunk = none
deliver t (call_set_termios config) chunk = none
deliver t call_get_termios chunk = none
deliver t call_symlink_path chunk = none

-- On macOS, while a `Read` of the open terminal waits, no other call is served, `Close` included:
-- whatever happens begins with an answer of the system.
read_holds :
    (sys : System) (w : World) (r : RealPty) (n : ℕ) (es : List (Event Call))
    (h : Guarded Terminal Call)
    → r.is_open ≡ true
    → Guarded.run (finish sys) deliver (record { state = (w, r); inside = some (call_read n) }) es
      ≡ some h
    → (es ≡ []) ⊎ ((chunk : Text) × (rest : List (Event Call)) × (es ≡ delivers chunk ∷ rest))
unfolding finish
read_holds sys w r n es h is_open ran =
    Guarded.waits (finish sys) deliver (record { state = (w, r); inside = some (call_read n) }) h
      (call_read n) es refl (rw is_open refl) ran
