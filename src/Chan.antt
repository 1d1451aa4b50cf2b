-- ===== src/Chan.antt =====
-- Go's buffered channels, as the code uses them: a send or a receive in a `select` with a
-- `default`, which does not block, and close.
use gopl.Prelude.{
  refl, ◌⊎◌, inl, inr, ℕ, ◌≤◌, ◌≡◌, Bool, false, List, [], ◌∷◌, ◌++◌, arith, ltb, if◌then◌else◌,
  length, length-append,
}

-- The oldest message is at the head.
pub record Chan {ℓ} (A : Type ℓ) : Type ℓ where
  pub buf : List A
  pub cap : ℕ
  pub closed : Bool

-- What a send in a `select` with a `default` does: it is taken, or the channel is full, or the
-- channel is closed, at which Go panics.
pub data Sent {ℓ} (A : Type ℓ) : Type ℓ where
  sent : Chan A → Sent A
  full : Sent A
  send_panic : Sent A

-- What a receive in a `select` with a `default` does.
pub data Received {ℓ} (A : Type ℓ) : Type ℓ where
  received : A → Chan A → Received A
  recv_closed : Received A
  recv_default : Received A

module _ {ℓ} {A : Type ℓ} where
  abbrev pub make : ℕ → Chan A
  make n = record { buf = []; cap = n; closed = false }

  unfoldable pub try_send : Chan A → A → Sent A
  try_send c a =
      if c.closed
      then send_panic
      else if ltb (length c.buf) c.cap
      then sent (record c { buf = c.buf ++ a ∷ [] })
      else full

  abbrev pub take_head : List A → Chan A → Received A
  take_head [] c = if c.closed then recv_closed else recv_default
  take_head (a ∷ rest) c = received a (record c { buf = rest })

  unfoldable pub try_recv : Chan A → Received A
  try_recv c = take_head c.buf c

  -- The buffer holds no more than the capacity.
  abbrev pub IsBounded : Chan A → Type 0
  IsBounded c = length c.buf ≤ c.cap

  pub try_send-IsBounded : (c d : Chan A) (a : A) → try_send c a ≡ sent d → IsBounded d
  unfolding try_send
  try_send-IsBounded c d a h = ground (arith, length-append c.buf (a ∷ []))

  pub try_recv-cases :
      (c : Chan A)
      → ((a : A) × (d : Chan A) × (try_recv c ≡ received a d))
        ⊎ (try_recv c ≡ recv_closed)
        ⊎ (try_recv c ≡ recv_default)
  try_recv-cases c =
      elim (try_recv c)
        as (λ (r : Received A).
          ((a : A) × (d : Chan A) × (r ≡ received a d)) ⊎ (r ≡ recv_closed) ⊎ (r ≡ recv_default)) [
            | received a d ↦ inl (a, d, refl)
            | recv_closed ↦ inr (inl refl)
            | recv_default ↦ inr (inr refl)
          ]
