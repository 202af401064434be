-- ===== src/Channel.antt =====
-- Buffered Go channels, as far as the program uses them: a send that may block or panic, a receive,
-- and `close`.
use share_serial.Base.{
  ℕ, Bool, true, false, Option, none, some, List, [], ◌∷◌, ◌++◌, length, ltb, if◌then◌else◌,
}

pub record Channel {ℓ} (A : Type ℓ) : Type ℓ where
  pub capacity : ℕ
  pub queue : List A
  pub closed : Bool

-- `make(chan A, n)`
unfoldable pub make {ℓ} : {A : Type ℓ} → ℕ → Channel A
make n = record { capacity = n; queue = []; closed = false }

-- A send on a full channel blocks, on a closed one it panics.
pub data Sent {ℓ} (A : Type ℓ) : Type ℓ where
  sent : Channel A → Sent A
  blocks : Sent A
  panics : Sent A

-- `ch <- x`
unfoldable pub send {ℓ} : {A : Type ℓ} → Channel A → A → Sent A
send ch x =
    if ch.closed
    then panics
    else if ltb (length ch.queue) ch.capacity
    then sent (record ch { queue = ch.queue ++ x ∷ [] })
    else blocks

-- `close(ch)`; `none` is the panic of a second close.
unfoldable pub close {ℓ} : {A : Type ℓ} → Channel A → Option (Channel A)
close ch = if ch.closed then none else some (record ch { closed = true })
