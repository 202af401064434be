-- ===== src/Examples/Programs.antt =====
-- The programs of cmd/server, cmd/client and cmd/client-windows at concrete inputs.
use share_serial.Base.{
  inr, ◌+◌, ◌≡◌, ◌*◌, refl, true, false, none, some, List, [], ◌∷◌, ◌++◌, Text, insert, text_eq,
  arith, concat, replicate, suc, ℕ, ◌<◌,
}
use share_serial.Channel
use share_serial.Server
use share_serial.Server.{TcpServer, started}
use share_serial.Server.Delivery.{chunks_for, broadcast_rounds}
use share_serial.Forward
use share_serial.Pump.{Program, at_select, in_read, panicked}
use share_serial.Pump
use share_serial.Pump.Shutdown.{shut_down_panics}
use share_serial.Forward.{Forwarder, at_head}
use share_serial.Forward.Bytes.{writer_rounds, bytes_to, forwards_typed}
use share_serial.Forward.Stale.{receives}
use share_serial.Reconnect.{ReconnectManager, new_reconnect_manager}
use share_serial.Pty.{PtyRead, pty_empty, pty_bytes}
use share_serial.Pty.Real.{System, default_termios}
use share_serial.Pty.Terminals.{Line, IsRaw, RealTerminal, real_terminal, IsTerminal, real_laws}
use share_serial.LocalProxy
use share_serial.EndToEnd.{port_to_terminal, terminal_to_port}
use share_serial.EndToEnd.Windows.{port_to_local, local_to_port}
use share_serial.LocalProxy.{LocalProxy}
use share_serial.LocalProxy.Passed.{chunks_to, local_reads, typed}
use share_serial.LocalProxy.Replay.{Kept, remote_reads}
use share_serial.Base.{inl}
use share_serial.Server.Alone.{serve}
use share_serial.WindowsClient
use share_serial.WindowsClient.{ConnectionManager, ended, new_connection_manager}
use share_serial.WindowsClient.Retries.{steps, gives_up}
use share_serial.WindowsClient.Monitored.{
  Client, Event, loop_steps, monitors, reads_remote, accepts, Uses, happen, keeps_connection,
}

abbrev alice : Text
alice = 97 ∷ []

abbrev hello : Text
hello = 104 ∷ 105 ∷ []

-- A server with one client and a goroutine at its `select`.
abbrev serving : Program
serving = record {
  server = Server.accept (started [] (58 ∷ [])) alice 1;
  stop_closed = false;
  reader = at_select;
}

-- The server that reads its port, and what the end of `main` makes of it.
abbrev reading : Program
reading = record serving { reader = in_read }

abbrev stopped : Program
stopped = elim (Pump.shut_down reading) [ none ↦ reading | some q ↦ q ]

shut_down_panics_example : (Pump.step (Pump.step stopped (some hello)) none).reader ≡ panicked
unfolding Pump.shut_down Server.stop Server.accept started Channel.close
shut_down_panics_example = shut_down_panics reading stopped 104 (105 ∷ []) refl refl refl

-- A client that is connected, with "hi" typed.
abbrev manager : ReconnectManager
manager = record (new_reconnect_manager (58 ∷ []) 3) { conn = some 1; connected = true }

-- A real terminal whose line gives one byte at a time; its state is what was shown, and what was typed.
abbrev read_byte : Text × Text → ℕ → (Text × Text) × PtyRead
read_byte (seen, []) n = ((seen, []), pty_empty)
read_byte (seen, b ∷ bs) n = ((seen, bs), pty_bytes (b ∷ []))

abbrev slow_line : Line
slow_line = record {
  State = Text × Text;
  read_master = read_byte;
  write_master = λ s buf. ((s.0 ++ buf, s.1), true);
}

slow_waits : (s : Text × Text) (n : ℕ) → s.1 ≡ [] → read_byte s n ≡ (s, pty_empty)
slow_waits (seen, []) n e = refl
slow_waits (seen, b ∷ bs) n e = cc

slow_gives :
    (s : Text × Text) (n b : ℕ) (bs : Text)
    → 0 < n
    → s.1 ≡ b ∷ bs
    → (t : Text × Text) × (c : ℕ) × (cs : Text) × (read_byte s n ≡ (t, pty_bytes (c ∷ cs)))
      × ((c ∷ cs) ++ t.1 ≡ s.1)
slow_gives (seen, []) n b bs h e = cc
slow_gives (seen, c ∷ cs) n b bs h e = ((seen, cs), c, [], refl, refl)

abbrev slow_line_laws : IsRaw slow_line
slow_line_laws = record {
  shown = λ s. s.0;
  typed = λ s. s.1;
  write_shown = λ s buf. refl;
  read_waits = slow_waits;
  read_gives = slow_gives;
}

-- A system that refuses everything; it is asked only when the terminal is closed.
abbrev system : System
system = record {
  open_path = λ path. none;
  unlock = λ f. false;
  slave_id = λ f. none;
  get_termios = λ f. none;
  can_link = λ target path. false;
  can_remove = λ path. false;
}

abbrev terminal : RealTerminal slow_line
terminal = record {
  world = record { open_files = 5 ∷ 4 ∷ []; links = []; settings = [] };
  device = record {
    master = 4;
    slave = 5;
    slave_path = [];
    symlink_path = [];
    is_open = true;
    files_open = true;
    termios = default_termios;
  };
  state = (hello, hello);
}

abbrev slow_terminal : IsTerminal (real_terminal slow_line system)
slow_terminal = real_laws slow_line slow_line_laws system

abbrev forwarder : Forwarder (real_terminal slow_line system)
forwarder = record {
  manager = manager;
  device = terminal;
  stop_closed = false;
  reader = at_head;
  error_count = 0;
  printed = 0;
  writer_ended = false;
  sent = [];
}

forwards_typed_example :
    let g = writer_rounds 2 forwarder in
    (bytes_to g.sent ≡ bytes_to forwarder.sent ++ hello) × (slow_terminal.typed g.device ≡ [])
unfolding new_reconnect_manager real_laws
forwards_typed_example =
    forwards_typed slow_terminal 2 forwarder 1 (refl, refl, refl) refl refl (omega arith)

abbrev retrying : ConnectionManager
retrying = new_connection_manager (58 ∷ []) 2

gives_up_example :
    let l = steps (WindowsClient.start retrying none) (replicate (2 * suc 1 + 1) none) in
    (l.phase ≡ ended) × (l.manager.dials ≡ retrying.dials + (1 + 2)) × (l.manager.conn ≡ none)
unfolding new_connection_manager
gives_up_example = gives_up retrying 1 refl refl refl

-- The Windows client once it is connected.
abbrev windows_client : Client
windows_client = record {
  loop = WindowsClient.start retrying (some 1);
  monitor = record { last_conn = some 1; returned = false };
  proxy = (LocalProxy.start (LocalProxy.new_local_proxy 8888) 1 true).0;
}

abbrev lost : List Event
lost = accepts 5 ∷ reads_remote none ∷ loop_steps (some 2) ∷ monitors ∷ loop_steps (some 2) ∷ []

keeps_connection_example :
    Uses 1 (happen windows_client lost)
    × ((happen windows_client lost).loop.manager ≡ windows_client.loop.manager)
unfolding new_connection_manager WindowsClient.start WindowsClient.connect LocalProxy.start
    LocalProxy.new_local_proxy
keeps_connection_example = keeps_connection windows_client 1 lost (refl, refl, refl)

port_to_terminal_example :
    slow_terminal.shown (receives slow_terminal forwarder (hello ∷ hello ∷ [])).device
    ≡ hello
      ++ concat (
          chunks_for alice serving.server.outputs
          ++ (serving.server.broadcast.queue ++ (hello ∷ hello ∷ [])))
unfolding Server.accept started insert text_eq new_reconnect_manager real_laws Pump.step
    Server.broadcast_round broadcast_rounds chunks_for
port_to_terminal_example =
    port_to_terminal slow_terminal serving (hello ∷ hello ∷ []) alice forwarder 1
      (hello ∷ hello ∷ []) tt (refl, refl, refl, omega arith) (refl, tt) refl
      (refl, refl, refl, refl) refl

terminal_to_port_example :
    (v : List Text) × ((serve serving.server alice (hello ∷ [])).serial ≡ some v)
    × (concat v ≡ concat [] ++ (bytes_to forwarder.sent ++ hello))
unfolding Server.accept started new_reconnect_manager real_laws writer_rounds Forward.writer_round
terminal_to_port_example =
    terminal_to_port slow_terminal 2 forwarder 1 serving.server alice [] (hello ∷ [])
      (refl, refl, refl) refl refl (omega arith) refl (inr refl) refl

-- A proxy with two local connections, which has passed one chunk on.
abbrev local_proxy : LocalProxy
local_proxy = record {
  remote_conn = some 1;
  local_port = 8888;
  listening = true;
  running = true;
  stop_closed = false;
  local_conns = 5 ∷ 4 ∷ [];
  remote_buffer = hello;
  sends = (5, hello) ∷ (4, hello) ∷ [];
  replayed = [];
  to_remote = [];
  closed_conns = [];
}

abbrev local_kept : Kept local_proxy.remote_buffer hello
local_kept = record { missed = []; split = refl; full = inl refl }

port_to_local_example :
    let given = hello ++ hello in
    (concat (chunks_to 4 (remote_reads local_proxy (hello ∷ hello ∷ [])).sends)
      ≡ concat (chunks_to 4 local_proxy.sends) ++ given)
    × Kept (remote_reads local_proxy (hello ∷ hello ∷ [])).remote_buffer (hello ++ given)
unfolding Server.accept started insert text_eq Pump.step Server.broadcast_round broadcast_rounds
    chunks_for
port_to_local_example =
    port_to_local serving (hello ∷ hello ∷ []) alice local_proxy 4 hello (hello ∷ hello ∷ []) tt
      (refl, refl, refl, omega arith) (refl, tt) refl (refl, (refl, tt)) refl local_kept refl

local_to_port_example :
    (v : List Text) × ((serve serving.server alice (hello ∷ [])).serial ≡ some v)
    × (concat v
        ≡ concat []
          ++ (bytes_to local_proxy.to_remote
              ++ typed ((4, some (104 ∷ [])) ∷ (4, none) ∷ (5, some (105 ∷ [])) ∷ [])))
unfolding Server.accept started local_reads LocalProxy.handle_local_read
local_to_port_example =
    local_to_port local_proxy 1 ((4, some (104 ∷ [])) ∷ (4, none) ∷ (5, some (105 ∷ [])) ∷ [])
      serving.server alice [] (hello ∷ []) refl refl (inr refl) refl
