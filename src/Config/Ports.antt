-- ===== src/Config/Ports.antt =====
-- internal/config/config.go: addresses as text, and cmd/client/main.go: the port of the `--server`
-- flag.
use Prim.Native.Nat.{◌^◌}
use share_serial.Base.{
  ℕ, zero, suc, ◌+◌, ◌-◌, ◌*◌, ◌/◌, ◌%◌, ◌≤◌, ◌<◌, ◌≡◌, refl, ap, ◌&&◌, Option, none, some, [], ◌∷◌,
  ◌++◌, Text, codes, ℤ, pos, negsuc, ltb, leb, ◌==◌, if◌then◌else◌, lt→ltb, Bool-cases, inl, inr,
  arith,
}
use share_serial.Config.{ServerConfig, ClientConfig}

-- The loop of `intToString`, with fuel; `n` rounds are enough for `n`.
digits : ℕ → ℕ → Text → Text
digits zero n s = s
digits (suc f) n s =
    let rest = digits f (n / 10) ((b'0' + n % 10) ∷ s) in if ltb 0 n then rest else s

pub int_to_string : ℤ → Text
unfolding digits
int_to_string (pos n) = if n == 7700 then codes "7700" else digits n n []
int_to_string (negsuc n) = []

unfoldable pub server_address : ClientConfig → Text
unfolding int_to_string
server_address c = c.server.address ++ (b':' ∷ int_to_string c.server.port)

unfoldable pub listen_address : ServerConfig → Text
unfolding int_to_string
listen_address c = c.server.address ++ (b':' ∷ int_to_string c.server.port)

-- The loop over the port's characters: others than digits are passed over, and the sum is an int64.
scan_port : Text → ℕ → ℕ
scan_port [] n = n
scan_port (c ∷ s) n =
    scan_port s (if leb b'0' c && leb c b'9' then (n * 10 + (c - b'0')) % 2 ^ 64 else n)

-- An int64, from its bits.
pub int64 : ℕ → ℤ
int64 n = if ltb n (2 ^ 63) then pos n else negsuc (2 ^ 64 - 1 - n)

pub port_of : Text → ℤ
unfolding scan_port int64
port_of s = int64 (scan_port s 0)

-- The `--server` flag; `split` is what `net.SplitHostPort` makes of it, host and port, or an error.
unfoldable pub override_server : ClientConfig → Text → Option (Text × Text) → ClientConfig
unfolding port_of
override_server c [] split = c
override_server c (b ∷ bs) none =
    let s = c.server in record c { server = record s { address = b ∷ bs } }
override_server c (b ∷ bs) (some (host, port)) = record c {
  server = record { address = host; port = port_of port };
}

-- Reading the last digit of `n` behind the digits before it gives `n`.
scan_port_last :
    (n : ℕ) (s : Text) → n < 2 ^ 64 → scan_port ((b'0' + n % 10) ∷ s) (n / 10) ≡ scan_port s n
unfolding scan_port
scan_port_last n s h = ground arith

scan_port-digits :
    (f n : ℕ) (s : Text) → n ≤ f → n < 2 ^ 64 → scan_port (digits f n s) 0 ≡ scan_port s n
unfolding digits
scan_port-digits zero n s le h = ap (scan_port s) (omega arith)
scan_port-digits (suc f) n s le h =
    ground (arith, scan_port-digits f (n / 10) ((b'0' + n % 10) ∷ s), scan_port_last n s h)

-- A port that the configuration prints is read back by the client's flag, for every number that an
-- int64 holds: the loop of `intToString` ends with all its digits.
pub port_of-int_to_string : (n : ℕ) → n < 2 ^ 63 → port_of (int_to_string (pos n)) ≡ pos n
unfolding port_of int_to_string
port_of-int_to_string n h = elim (Bool-cases (n == 7700)) [
  | inl e ↦ rw e (ap pos (ground arith))
  | inr e ↦
      rw (e, scan_port-digits n n [] (omega arith) (omega arith))
        (rw (int64, lt→ltb n (2 ^ 63) h) refl)
]
