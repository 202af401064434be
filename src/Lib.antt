-- ===== src/Lib.antt =====
-- A verification library of ShareSerial, which shares one serial port among TCP clients.
--
-- The program's parts. A server (internal/server/server.go) accepts TCP clients and copies what
-- they send to the serial port (pkg/serial), one client at a time: the write lock is an arbiter
-- (pkg/arbiter/arbiter.go) with a timeout. What the port sends is broadcast to all clients. On the
-- other side a client (cmd/client/main.go) keeps its connection with internal/reconnect, and the
-- Windows client serves local programs with internal/localproxy. internal/config holds the settings
-- of both, and internal/broadcast a second broadcaster.
--
-- The modules, each with its proofs in the modules below it.
--   Base        lists, text, dictionaries and tests that the other modules share
--   Channel     buffered Go channels: a send that may block or panic, and close
--   Arbiter     pkg/arbiter/arbiter.go. `acquire`, `release`, `force_release`, `extend_timeout` are
--               its methods, `expire` the body of the timer's closure. A run is a list of `Event`s,
--               in which timers fire and callbacks get the mutex at any time.
--   Server      internal/server/server.go, `TCPServer`. A handler goroutine is a `Handler`, the
--               place it has reached in `handleClient`; `advance` makes its next call on shared
--               state. A run of the server is a list of `Server.Events.Event`s, an interleaving.
--   Broadcast   internal/broadcast/broadcast.go, with the goroutines of `process` as pending sends
--   LocalProxy  internal/localproxy/proxy.go, with the writes to local connections as pending sends
--   Reconnect   internal/reconnect/reconnect.go, and the `select` of cmd/client/main.go that waits
--               for its errors
--   Config      internal/config: the records and defaults; Config/Loader.antt is loader.go, and
--               Config/Ports.antt has the addresses and the `--server` flag of cmd/client/main.go;
--               Config/Sources.antt is `getConfigSource` of the programs, and
--               Config/Saved.antt the saving of a configuration
--   Serial      pkg/serial/serial.go; Serial/Real.antt is real_serial_linux.go, Serial/Locked.antt the
--               Windows and macOS ports, Serial/Scanners.antt the three scanners
--   Guarded     an object whose methods hold its mutex while they wait for a device
--   MockServer  the server of internal/server/server.go that records what comes, and the clients that
--               a test adds to it
--   LogParser   pkg/logparser/logparser.go. LogParser/Regexes.antt writes its two fixed regular
--               expressions out: `find_time`, `find_level` give the group of the leftmost match.
--   Cli         internal/cli/cli.go and cmd/cli/main.go; Cli/Entries.antt has the parts of a log line,
--               Cli/Commands.antt `Execute` and the requests
--   Pty         internal/pty/pty.go, the stand-in for a virtual terminal; Pty/Real.antt the real ones
--               of Linux and macOS, Pty/Held.antt the mutex of the latter, and Pty/Terminals.antt
--               the interface `PTYDevice`, which both implement
--   Pump        cmd/server/main.go and cmd/server-windows/main.go: from the port to the server
--   Forward     cmd/client/main.go: between the connection of Reconnect and any terminal of Pty
--   EndToEnd    the server with the client, and in EndToEnd/Windows.antt with the Windows client
--   Startup     the four programs' `main` from the flags to the goroutines: Startup/Servers.antt and
--               Startup/Clients.antt, and clients that are given a server's address
--   WindowsClient  cmd/client-windows/main.go, with LocalProxy
--   WindowsServer  the monitor of cmd/server-windows/main.go
--   Report      cmd/report-generator/main.go: test logs; Report/Generated.antt is `GenerateReport`, and
--               Report/Pages has the Markdown and HTML pages, line by line, and `main`
--   Examples    runs at concrete inputs
--
-- How the models stand to the code. A Go string or byte slice is a list of numbers. A map is an
-- association list in which a key stands once; the order in which Go walks a map is that of the
-- list, which Server/Walks.antt lets change at any time. A connection is a number. What the
-- network, a file, the YAML library or the serial library gives is an argument, or a parameter
-- with its calls as fields. The report's pages and the command line's log lines, which may go
-- beyond ASCII, are lists of code points. A panic of `close` is `none`, and one of a send its own
-- outcome. A remote address is taken to be of one open connection at a time, and a `Write` on a
-- connection to return. What the system does with a real terminal's bytes is a parameter, with the
-- order of the bytes as hypothesis (Pty/Terminals.antt). Time is a number of nanoseconds
-- that only `tick` moves; a timer may start its callback at any time from its deadline on. A Go
-- `int` that the program computes with wraps around at 64 bits where it reads a port; the numbers
-- of the configuration are integers.
--
-- Bounds and fuel. `decimal` and `digits` have as much fuel as the number they print, which has no
-- more digits than that. `handle` makes 15 steps, which is as many as a handler makes for one chunk.
-- A goroutine that loops is a step or a round; the theorems say how many are enough.
--
-- Not modelled: the texts of the report's JSON, its time and its pass rate, which are parameters;
-- what the JSON, YAML and regular expression libraries do, which are parameters; a `Write` on a
-- connection that waits for its reader; printing, logging, the text of the help and the
-- list of common ports; the programs in tests/simulation.
pub mod Base
pub mod Arbiter
pub mod Channel
pub mod Guarded
pub mod Server
pub mod MockServer
pub mod Pump
pub mod WindowsServer
pub mod Broadcast
pub mod LocalProxy
pub mod Reconnect
pub mod Config
pub mod Serial
pub mod LogParser
pub mod Cli
pub mod Pty
pub mod Report
pub mod WindowsClient
pub mod Forward
pub mod EndToEnd
pub mod Startup
pub mod Examples
