-- ===== src/LocalProxy/Lifecycle.antt =====
-- internal/localproxy/proxy.go: `Start`, `Stop` and the change of the remote connection.
use share_serial.Base.{ℕ, ◌≡◌, refl, true, none, some, arith}
use share_serial.LocalProxy.{LocalProxy, start, stop}

-- A running proxy that was stopped and then started again panics on its next `Stop`: the stop
-- channel is closed a second time.
proxy_restart_panics :
    (p q : LocalProxy) (remote : ℕ)
    → p.running ≡ true
    → stop p ≡ some q
    → ((start q remote true).1 ≡ true) × (stop (start q remote true).0 ≡ none)
unfolding stop start
proxy_restart_panics p q remote on e = (refl, ground arith)
