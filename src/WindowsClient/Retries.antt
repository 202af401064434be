-- ===== src/WindowsClient/Retries.antt =====
-- The retries of `reconnectLoop`, and what stops them.
use share_serial.Base.{
  ℕ, zero, suc, ◌+◌, ◌*◌, ◌<◌, ◌≡◌, refl, true, false, Option, none, some, List, [], ◌∷◌, arith,
  replicate, ap, ◌∙◌, ◌⊎◌, Option-cases, Bool, inl, inr,
}
use share_serial.WindowsClient.{
  ConnectionManager, ReconnectLoop, Phase, looking, connecting, ended, start, step, step_in, look,
  connect, connected, stop, close_conn, Phase,
}

pub steps : ReconnectLoop → List (Option ℕ) → ReconnectLoop
unfolding step
steps l [] = l
steps l (dial ∷ dials) = steps (step l dial) dials

pub step_keeps :
    (l : ReconnectLoop) (c : ℕ) (dial : Option ℕ)
    → l.manager.conn ≡ some c
    → (step l dial).manager ≡ l.manager
unfolding step step_in look connect connected
step_keeps l c dial h = ground arith

look-manager : (l : ReconnectLoop) → (look l).manager ≡ l.manager
unfolding look
look-manager l = elim (Option-cases l.manager.conn) [
  | inl e ↦ ground (arith, e)
  | inr (c, e) ↦ ground (arith, e)
]

-- A call of `connect` changes no address, and leaves the connection or takes what was dialled.
abbrev Dials : ConnectionManager → Option ℕ → ConnectionManager → Type 0
Dials m d n = (n.server_addr ≡ m.server_addr) × ((n.conn ≡ m.conn) ⊎ (n.conn ≡ d))

connect-Dials : (m : ConnectionManager) (d : Option ℕ) → Dials m d (connect m d).0
unfolding connect
connect-Dials m d = elim (Option-cases m.conn) [
  | inl e ↦ elim (Option-cases d) [
    | inl f ↦ rw (e, f) (refl, inl refl)
    | inr (c, f) ↦ rw (e, f) (refl, inr refl)
  ]
  | inr (c, e) ↦ rw e (refl, inl refl)
]

connected-manager :
    (l : ReconnectLoop) (r : ConnectionManager × Bool) → (connected l r).manager ≡ r.0
unfolding connected
connected-manager l (m, true) = refl
connected-manager l (m, false) = refl

step_in-Dials :
    (p : Phase) (l : ReconnectLoop) (d : Option ℕ) → Dials l.manager d (step_in p l d).manager
unfolding step_in
step_in-Dials looking l d = rw (look-manager l) (refl, inl refl)
step_in-Dials connecting l d =
    rw (connected-manager l (connect l.manager d)) (connect-Dials l.manager d)
step_in-Dials ended l d = (refl, inl refl)

pub step-address :
    (l : ReconnectLoop) (d : Option ℕ)
    → ((step l d).manager.server_addr ≡ l.manager.server_addr)
      × (((step l d).manager.conn ≡ l.manager.conn) ⊎ ((step l d).manager.conn ≡ d))
unfolding step
step-address l d = step_in-Dials l.phase l d

pub start-address :
    (m : ConnectionManager) (d : Option ℕ)
    → m.conn ≡ none
    → ((start m d).manager.server_addr ≡ m.server_addr) × ((start m d).manager.conn ≡ d)
unfolding start connect
start-address m none h = rw h (refl, refl)
start-address m (some c) h = rw h (refl, refl)

-- Once the manager has a connection, its loop never dials again, whatever happens to the connection:
-- no number of steps changes the manager.
never_redials :
    (l : ReconnectLoop) (c : ℕ) (dials : List (Option ℕ))
    → l.manager.conn ≡ some c
    → (steps l dials).manager ≡ l.manager
unfolding steps
never_redials l c [] h = refl
never_redials l c (dial ∷ dials) h =
    never_redials (step l dial) c dials (ap (λ m. m.conn) (step_keeps l c dial h) ∙ h)
    ∙ step_keeps l c dial h

-- A loop that looks at a running manager with no connection.
abbrev IsWaiting : ReconnectLoop → Type 0
IsWaiting l =
    (l.manager.conn ≡ none)
    × (l.manager.running ≡ true)
    × (l.manager.stop_closed ≡ false)
    × (l.phase ≡ looking)

-- The loop after an attempt that fails.
abbrev failed : ReconnectLoop → ReconnectLoop
failed l = record l {
  manager = record l.manager { dials = l.manager.dials + 1 };
  retry_count = l.retry_count + 1;
  phase = looking;
}

attempt_fails :
    (l : ReconnectLoop)
    → IsWaiting l
    → l.retry_count < l.manager.max_retry
    → step (step l none) none ≡ failed l
unfolding step step_in look connect connected
attempt_fails l (empty, running, unstopped, at_look) less =
    rw (at_look, unstopped, running, empty) ground arith

last_look :
    (l : ReconnectLoop)
    → IsWaiting l
    → 0 < l.manager.max_retry
    → l.retry_count ≡ l.manager.max_retry
    → step l none ≡ record l { retry_count = l.retry_count + 1; phase = ended }
unfolding step step_in look
last_look l w positive e = ground arith

two_steps :
    (k : ℕ) (l : ReconnectLoop)
    → steps l (replicate (2 * suc k + 1) none)
      ≡ steps (step (step l none) none) (replicate (2 * k + 1) none)
unfolding steps replicate
two_steps k l = let count : 2 * suc k + 1 ≡ suc (suc (2 * k + 1)) = omega arith in rw count refl

gives_up_after :
    (k : ℕ) (l : ReconnectLoop)
    → IsWaiting l
    → 0 < l.manager.max_retry
    → l.manager.max_retry ≡ l.retry_count + k
    → let end = steps l (replicate (2 * k + 1) none) in
      (end.phase ≡ ended) × (end.manager.dials ≡ l.manager.dials + k) × (end.manager.conn ≡ none)
unfolding steps replicate
gives_up_after zero l w positive e =
    let seen = last_look l w positive (ground arith) in rw seen (refl, ground arith, w.0)
gives_up_after (suc k) l w positive e =
    rw (two_steps k l, attempt_fails l w (ground arith))
      (ground (arith, gives_up_after k (failed l) (w.0, w.1, w.2, refl) positive (ground arith)))

-- With a limit of `n + 1` and a server that is away, a manager that has no connection and is not
-- stopped dials `n + 1` times after the dial of `Start`, and its loop returns; `2 * n + 3` steps
-- are enough.
pub gives_up :
    (m : ConnectionManager) (n : ℕ)
    → m.conn ≡ none
    → m.stop_closed ≡ false
    → m.max_retry ≡ suc n
    → let l = steps (start m none) (replicate (2 * suc n + 1) none) in
      (l.phase ≡ ended) × (l.manager.dials ≡ m.dials + (n + 2)) × (l.manager.conn ≡ none)
unfolding start connect
gives_up m n h s r = ground (arith, gives_up_after (suc n) (start m none))

-- `Stop` between the loop's look at the manager and its call of `connect` loses: the
-- connection that the call then makes is set in the stopped manager and is not closed.
late_connection :
    (l : ReconnectLoop) (c : ℕ) (stopped : ConnectionManager)
    → IsWaiting l
    → l.manager.max_retry ≡ 0
    → stop (step l none).manager ≡ some stopped
    → (stopped.running ≡ false)
      × ((step (record (step l none) { manager = stopped }) (some c)).manager
          ≡ record stopped { conn = some c; dials = stopped.dials + 1 })
unfolding step step_in look connect connected stop close_conn
late_connection l c stopped w r h = ground arith
