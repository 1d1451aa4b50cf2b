-- ===== src/ClientConn/Ownership/Receiving.antt =====
-- What RoutineReadResponse of rpc/client_conn.go does to the calls that the connection holds.
use text.Mathlib.Text.{◌==◌ as text_beq}
use gopl.Prelude.{ℕ, refl, inl, inr, none, some, Option, List, ◌∷◌, Bool-cases}
use gopl.Keys.{nat_eq}
use gopl.RpcError.{GoError}
use gopl.Header.{TResponseHeader, has_data}
use gopl.Codec.{IClientCodec}
use gopl.Call.{Store}
use gopl.ClientConn.{TClientConn, ConnState}
use gopl.ClientConn.Receiving.{note_error, skip_body, read_body, dispatch}
use gopl.ClientConn.Receiving.Responses.{skip_body-kept}
use gopl.ClientConn.Ownership.{IsOwned}
use gopl.ClientConn.Ownership.Sending.{Owned}
use gopl.ClientConn.Ownership.Moves.{fill-IsOwned, when_call_done-IsOwned}

module _ {V S : Type 0} (codec : IClientCodec V S) where
  skip_body-Owned :
      (h : TResponseHeader) (σ : ConnState V S) (hand : List ℕ)
      → Owned σ hand
      → Owned (skip_body codec h σ).0 hand
  skip_body-Owned h σ hand o = let (c, s) = skip_body-kept codec h σ in rw (c, s) o

  note_error-IsOwned :
      (x : ℕ) (e : Option GoError) (c : TClientConn) (s : Store V) (hand : List ℕ)
      → IsOwned c s (x ∷ hand)
      → IsOwned c (note_error x e s) (x ∷ hand)
  unfolding note_error
  note_error-IsOwned x none c s hand o = o
  note_error-IsOwned x (some e) c s hand o = fill-IsOwned x _ c s hand refl o

  read_body-Owned :
      (x : ℕ) (h : TResponseHeader) (σ : ConnState V S) (hand : List ℕ)
      → Owned σ (x ∷ hand)
      → Owned (read_body codec x h σ).0 (x ∷ hand)
  unfolding read_body
  read_body-Owned x h σ hand o = elim (Bool-cases (has_data h)) [
    | inr e ↦ rw e o
    | inl e ↦
        rw e (note_error-IsOwned x _ σ.conn _ hand (fill-IsOwned x _ σ.conn σ.store hand refl o))
  ]

  -- A call that was taken out of `pending` for a header is finished.
  pub dispatch-Owned :
      (x : ℕ) (h : TResponseHeader) (σ : ConnState V S) (hand : List ℕ)
      → Owned σ (x ∷ hand)
      → Owned (dispatch codec (some x) h σ).0 hand
  unfolding dispatch
  dispatch-Owned x h σ hand o = elim (Bool-cases (text_beq h.error_msg "")) [
    | inl e ↦ rw e (when_call_done-IsOwned x _ _ hand (read_body-Owned x h σ hand o))
    | inr e ↦ rw e (
        when_call_done-IsOwned x _ _ hand
          (skip_body-Owned h _ (x ∷ hand) (fill-IsOwned x _ _ σ.store hand refl o)))
  ]

  pub skipped-Owned :
      (h : TResponseHeader) (σ : ConnState V S) (hand : List ℕ)
      → Owned σ hand
      → Owned (dispatch codec none h σ).0 hand
  unfolding dispatch
  skipped-Owned h σ hand o = skip_body-Owned h σ hand o
