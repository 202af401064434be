-- ===== src/Startup.antt =====
-- The beginnings of the four programs' `main`, from their flags to their goroutines: cmd/server/main.go
-- and cmd/server-windows/main.go in Startup/Servers.antt, cmd/client/main.go and
-- cmd/client-windows/main.go in Startup/Clients.antt.
pub mod Servers
pub mod Clients
pub mod Meeting
pub mod Windows
use share_serial.Base.{List, Text}
use share_serial.Config.Loader.{Loaded, config, failed}

-- What a program uses when its configuration cannot be loaded.
pub or_default : {C : Type 0} → C → Loaded C → C
or_default d (config c) = c
or_default d (failed e) = d

-- What comes of `main` before its goroutines run.
pub data Startup (R : Type 0) : Type 0 where
  version_shown : Startup R
  ports_shown : List Text → Startup R
  fatal : Startup R
  runs : R → Startup R
