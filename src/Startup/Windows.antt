-- ===== src/Startup/Windows.antt =====
-- cmd/client-windows/main.go and cmd/server/main.go: a Windows client that is given the server's address.
use share_serial.Base.{
  ℕ, ◌<◌, ◌≡◌, refl, ap, sym, ◌∙◌, Bool, Option, some, List, [], ◌∷◌, Text, pos, Lacks, arith, inl,
  inr, Option-cases, Bool-cases, ◌⊎◌,
}
use share_serial.Config.{ServerConfig, ClientConfig}
use share_serial.Config.Ports.{listen_address, server_address}
use share_serial.LocalProxy
use share_serial.Serial.Real.{SerialLibrary}
use share_serial.WindowsClient.{ReconnectLoop, step, start, new_connection_manager}
use share_serial.WindowsClient.Retries.{step-address, start-address}
use share_serial.WindowsClient.Monitored.{Client, Event, happen, Uses, keeps_connection}
use share_serial.Startup.{runs}
use share_serial.Startup.Servers.{ServerFlags, RunningServer, server_main}
use share_serial.Startup.Clients.{
  ClientFlags, RunningWindowsClient, client_config, waited, proxy_started, windows_client_main,
  limit,
}
use share_serial.Startup.Meeting.{
  Splits, client_config-address, listen_address-address_of, server_main-runs,
}
use Prim.Native.Nat.{◌^◌}

-- One of the calls gave this connection for this address.
abbrev pub Gave : Text → ℕ → List (Text → Option ℕ) → Type 0
Gave a c [] = ⊥
Gave a c (dial ∷ dials) = (dial a ≡ some c) ⊎ Gave a c dials

Gave-address :
    {a b : Text} (c : ℕ) (dials : List (Text → Option ℕ)) → a ≡ b → Gave a c dials → Gave b c dials
Gave-address c dials e g = rw⁻¹ e g

-- A loop with this address, whose connection a call gave.
abbrev IsDialled : Text → List (Text → Option ℕ) → ReconnectLoop → Type 0
IsDialled a dials l =
    (l.manager.server_addr ≡ a) × ((c : ℕ) → l.manager.conn ≡ some c → Gave a c dials)

step-IsDialled :
    (a : Text) (dials : List (Text → Option ℕ)) (l : ReconnectLoop) (dial : Text → Option ℕ)
    → ((c : ℕ) → dial a ≡ some c → Gave a c dials)
    → IsDialled a dials l
    → IsDialled a dials (step l (dial l.manager.server_addr))
step-IsDialled a dials l dial gave h =
    let (kept, cases) = step-address l (dial l.manager.server_addr) in
    (
      kept ∙ h.0,
      λ c e. elim cases [
        | inl same ↦ h.1 c (sym same ∙ e)
        | inr new ↦ gave c (ap dial (sym h.0) ∙ (sym new ∙ e))
      ],
    )

waited-IsDialled :
    (a : Text) (dials after : List (Text → Option ℕ)) (l : ReconnectLoop)
    → ((c : ℕ) → Gave a c after → Gave a c dials)
    → IsDialled a dials l
    → IsDialled a dials (waited l after)
unfolding waited
waited-IsDialled a dials [] l within h = h
waited-IsDialled a dials (dial ∷ after) l within h =
    waited-IsDialled a dials after (step l (dial l.manager.server_addr)) (λ c g. within c (inr g))
      (step-IsDialled a dials l dial (λ c e. within c (inl e)) h)

abbrev waits : Text → ℕ → (Text → Option ℕ) → List (Text → Option ℕ) → ReconnectLoop
waits addr n dial dials = waited (start (new_connection_manager addr n) (dial addr)) dials

waits-IsDialled :
    (addr : Text) (n : ℕ) (dial : Text → Option ℕ) (dials : List (Text → Option ℕ))
    → IsDialled addr (dial ∷ dials) (waits addr n dial dials)
unfolding new_connection_manager
waits-IsDialled addr n dial dials =
    let (kept, conn) = start-address (new_connection_manager addr n) (dial addr) refl in
    waited-IsDialled addr (dial ∷ dials) dials (start (new_connection_manager addr n) (dial addr))
      (λ c g. inr g) (kept, λ c e. inl (sym conn ∙ e))

abbrev pub program : RunningWindowsClient → Client
program c = record { loop = c.conn_mgr; monitor = c.monitor; proxy = c.proxy }

-- What runs uses one connection, which a call gave for the address of the configuration.
windows_client_main-runs :
    (unmarshal : Text → Option ClientConfig) (fs : Text → Option Text)
    (split : Text → Option (Text × Text)) (dial : Text → Option ℕ) (dials : List (Text → Option ℕ))
    (listened : Bool) (local_port : ℕ) (flags : ClientFlags) (w : RunningWindowsClient)
    → windows_client_main unmarshal fs split dial dials listened local_port flags ≡ runs w
    → let a = server_address (client_config unmarshal fs split flags) in
      (w.conn_mgr.manager.server_addr ≡ a)
      × ((c : ℕ) × Uses c (program w) × Gave a c (dial ∷ dials))
unfolding windows_client_main proxy_started LocalProxy.start
windows_client_main-runs unmarshal fs split dial dials listened local_port flags w e =
    let cfg = client_config unmarshal fs split flags in
    let a = server_address cfg in
    let n = limit cfg.reconnect.max_retry in
    let l = waits a n dial dials in
    let dialled : IsDialled a (dial ∷ dials) l = waits-IsDialled a n dial dials in
    elim (Option-cases l.manager.conn) [
      | inl f ↦ absurd (ground (arith, f))
      | inr (c, f) ↦ elim (Bool-cases listened) [
        | inl g ↦
            let same : w.conn_mgr ≡ l = ground (arith, f, g) in
            let uses : Uses c (program w) = ground (arith, f, g) in
            (ap (λ v. v.manager.server_addr) same ∙ dialled.0, (c, uses, dialled.1 c f))
        | inr g ↦ absurd (ground (arith, f, g))
      ]
    ]

-- A Windows client that is started with the server's listen address as its `--server` flag meets the
-- server and keeps to it, whatever the configuration files of both are, and however many calls of
-- `net.Dial` failed first: a call gave its connection for the text on which the server listens, and
-- after any events until it is stopped its manager, its monitor and its local proxy use
-- this connection, and the manager has that text as its address. The host has no colon and no bracket,
-- and the port is an int64 that is not negative.
pub windows_client_keeps_server :
    (lib : SerialLibrary) (unmarshal : Text → Option ServerConfig) (fs listen : Text → Option Text)
    (server_flags : ServerFlags) (unmarshal' : Text → Option ClientConfig)
    (fs' : Text → Option Text) (split : Text → Option (Text × Text)) (dial : Text → Option ℕ)
    (dials : List (Text → Option ℕ)) (listened : Bool) (local_port : ℕ) (client_flags : ClientFlags)
    (s : RunningServer lib) (w : RunningWindowsClient) (n : ℕ) (es : List Event)
    → Splits split
    → server_main lib unmarshal fs listen server_flags ≡ runs s
    → windows_client_main unmarshal' fs' split dial dials listened local_port client_flags ≡ runs w
    → s.cfg.server.port ≡ pos n
    → n < 2 ^ 63
    → Lacks b':' s.cfg.server.address
    → Lacks b'[' s.cfg.server.address
    → Lacks b']' s.cfg.server.address
    → client_flags.server_addr ≡ listen_address s.cfg
    → (listen (listen_address s.cfg) ≡ some s.program.server.addr)
      × ((happen (program w) es).loop.manager.server_addr ≡ listen_address s.cfg)
      × ((c : ℕ) × Gave (listen_address s.cfg) c (dial ∷ dials) × Uses c (happen (program w) es))
windows_client_keeps_server lib unmarshal fs listen server_flags unmarshal' fs' split dial dials
      listened local_port client_flags s w n es splits run_s run_w port bound colon left right
      flag =
    let here = listen_address-address_of s.cfg n port in
    let parts = splits s.cfg.server.address n colon left right in
    let dialled =
      client_config-address unmarshal' fs' split client_flags s.cfg.server.address n parts bound
        (flag ∙ here)
      ∙ sym here in
    let (addr, (c, uses, gave)) =
      windows_client_main-runs unmarshal' fs' split dial dials listened local_port client_flags w
        run_w in
    let (kept, same) = keeps_connection (program w) c es uses in
    (
      server_main-runs lib unmarshal fs listen server_flags s run_s,
      ap (λ m. m.server_addr) same ∙ (addr ∙ dialled),
      (c, Gave-address c (dial ∷ dials) dialled gave, kept),
    )
