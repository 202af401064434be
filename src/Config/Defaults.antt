-- ===== src/Config/Defaults.antt =====
-- internal/config/defaults.go: what the defaults leave and what they fill.
use share_serial.Base.{
  zero, suc, ◌≡◌, ◌≢◌, refl, ◌⊎◌, inl, inr, [], ◌∷◌, Text, ℤ, pos, negsuc, arith,
}
use mathlib.Core.List.{cons-ne-nil}
use share_serial.Config.{
  ServerConfig, ClientConfig, default_server_config, default_client_config, text_or, int_or,
  apply_defaults, apply_client_defaults,
}

text_or_idem : (v d : Text) → text_or (text_or v d) d ≡ text_or v d
unfolding text_or
text_or_idem [] [] = refl
text_or_idem [] (b ∷ bs) = refl
text_or_idem (b ∷ bs) d = refl

int_or_idem : (v d : ℤ) → int_or (int_or v d) d ≡ int_or v d
unfolding int_or
int_or_idem v d = ground arith

-- A field is as it was given, or it was not given and is the default's.
abbrev pub Filled : {A : Type 0} → A → A → A → A → Type 0
Filled unset given d result =
    ((given ≢ unset) × (result ≡ given)) ⊎ ((given ≡ unset) × (result ≡ d))

text_or-Filled : (v d : Text) → Filled [] v d (text_or v d)
unfolding text_or
text_or-Filled [] d = inr (refl, refl)
text_or-Filled (b ∷ bs) d = inl (cons-ne-nil b bs, refl)

int_or-Filled : (v d : ℤ) → Filled (pos 0) v d (int_or v d)
unfolding int_or
int_or-Filled (pos zero) d = inr (refl, refl)
int_or-Filled (pos (suc n)) d = inl (λ e. ground arith, ground arith)
int_or-Filled (negsuc n) d = inl (λ e. cc, refl)

-- `ApplyDefaults` keeps each field that the file gives and fills each other one from the defaults, but
-- for the arbiter's release flag and the log file, which it leaves as they are; and a second
-- application changes nothing.
apply_defaults_fields :
    (c : ServerConfig)
    → let r = apply_defaults c in
      let d = default_server_config in
      Filled [] c.serial.path d.serial.path r.serial.path
      × Filled (pos 0) c.serial.baud_rate d.serial.baud_rate r.serial.baud_rate
      × Filled (pos 0) c.serial.data_bits d.serial.data_bits r.serial.data_bits
      × Filled (pos 0) c.serial.stop_bits d.serial.stop_bits r.serial.stop_bits
      × Filled [] c.serial.parity d.serial.parity r.serial.parity
      × Filled (pos 0) c.server.port d.server.port r.server.port
      × Filled [] c.server.address d.server.address r.server.address
      × Filled (pos 0) c.arbiter.timeout d.arbiter.timeout r.arbiter.timeout
      × Filled [] c.log.level d.log.level r.log.level
      × (r.arbiter.auto_release ≡ c.arbiter.auto_release)
      × (r.log.file ≡ c.log.file)
      × (apply_defaults r ≡ r)
unfolding apply_defaults
apply_defaults_fields c = (
  text_or-Filled c.serial.path _,
  int_or-Filled c.serial.baud_rate _,
  int_or-Filled c.serial.data_bits _,
  int_or-Filled c.serial.stop_bits _,
  text_or-Filled c.serial.parity _,
  int_or-Filled c.server.port _,
  text_or-Filled c.server.address _,
  int_or-Filled c.arbiter.timeout _,
  text_or-Filled c.log.level _,
  refl,
  refl,
  simp (text_or_idem, int_or_idem),
)

-- `ApplyClientDefaults` does the same for the client, and leaves the reconnection switch and the log
-- file as they are.
apply_client_defaults_fields :
    (c : ClientConfig)
    → let r = apply_client_defaults c in
      let d = default_client_config in
      Filled [] c.server.address d.server.address r.server.address
      × Filled (pos 0) c.server.port d.server.port r.server.port
      × Filled [] c.pty.path d.pty.path r.pty.path
      × Filled (pos 0) c.pty.baud_rate d.pty.baud_rate r.pty.baud_rate
      × Filled (pos 0) c.reconnect.interval d.reconnect.interval r.reconnect.interval
      × Filled (pos 0) c.reconnect.max_retry d.reconnect.max_retry r.reconnect.max_retry
      × Filled [] c.log.level d.log.level r.log.level
      × (r.reconnect.enabled ≡ c.reconnect.enabled)
      × (r.log.file ≡ c.log.file)
      × (apply_client_defaults r ≡ r)
unfolding apply_client_defaults
apply_client_defaults_fields c = (
  text_or-Filled c.server.address _,
  int_or-Filled c.server.port _,
  text_or-Filled c.pty.path _,
  int_or-Filled c.pty.baud_rate _,
  int_or-Filled c.reconnect.interval _,
  int_or-Filled c.reconnect.max_retry _,
  text_or-Filled c.log.level _,
  refl,
  refl,
  simp (text_or_idem, int_or_idem),
)

-- A `max_retry` of 0 in the client's configuration, which the reconnection would take as no limit,
-- becomes 10: after the defaults it is never 0.
never_unlimited :
    (c : ClientConfig)
    → ((apply_client_defaults c).reconnect.max_retry ≢ pos 0)
      × ((c.reconnect.max_retry ≢ pos 0) ⊎ ((apply_client_defaults c).reconnect.max_retry ≡ pos 10))
unfolding apply_client_defaults int_or
never_unlimited c = (ground arith, ground arith)
