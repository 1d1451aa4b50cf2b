-- ===== src/ServerConn/Accounts/Settled.antt =====
-- What pendingWg.Wait() of rpc/server_conn.go tells: where the counter is zero, no response is left.
use gopl.Prelude.{ℕ, zero, suc, ◌≤◌, ◌≡◌, refl, ap, subst, inl, inr, List, [], ◌∷◌, length, arith}
use gopl.Prelude.Run.{Run, finished, bind-finished, finished_inj}
use gopl.Chan.{try_recv-cases}
use gopl.Codec.{IServerCodec}
use gopl.Server.{GoType}
use gopl.ServerConn.{TServerConn, TServerGroupResponse}
use gopl.ServerConn.Responses.{do_call_response, write_one, wg_done}
use gopl.ServerConn.Accounts.Collecting.{group_calls}
use gopl.ServerConn.Sender.{
  Sender, waits, gathering, writing, counting, halted, take_response, sender_piece,
}
use gopl.ServerConn.Accounts.{owed}
use gopl.ServerConn.Accounts.Pieces.{sender_hand, sender_owing}
use gopl.ServerConn.Accounts.Running.{
  Running, reads, handles, sends, returns, Steps, here, next_step,
}
use gopl.ServerConn.Accounts.InOrder.{InOrder}

-- A group that is written does not count for less than it has.
abbrev pub Fits : Sender → Type 0
Fits (writing group n) = length group ≤ n
Fits waits = Unit
Fits (gathering n group) = Unit
Fits (counting n) = Unit
Fits halted = Unit

module _ {V S : Type 0} where
  ends-Fits :
      (s t : Sender) (c d : TServerConn V S)
      → Fits s
      → ◌≡◌ {A = Run (TServerConn V S × Sender)} (finished (c, s)) (finished (d, t))
      → Fits t
  ends-Fits s t c d f e = subst Fits (ap (λ p. p.1) (finished_inj e)) f

  take_response-Fits :
      (n : ℕ) (group : List TServerGroupResponse) (otherwise s : Sender) (c d : TServerConn V S)
      → take_response n group otherwise c ≡ finished (d, s)
      → Fits otherwise
      → Fits s
  unfolding take_response
  take_response-Fits n group otherwise s c d e f = elim (try_recv-cases c.done_chan) [
    | inl (x, ch, r) ↦
        let (h, p, q) =
          bind-finished (do_call_response (c.calls x)) _ (d, s) (rw (take_response, r) at e) in
        ends-Fits _ s _ d tt q
    | inr (inl r) ↦ ends-Fits halted s c d tt (rw (take_response, r) at e)
    | inr (inr r) ↦ ends-Fits otherwise s c d f (rw (take_response, r) at e)
  ]

module _ {V S : Type 0} (codec : IServerCodec V S) where
  sender_piece-Fits :
      (s t : Sender) (c d : TServerConn V S)
      → sender_piece codec s c ≡ finished (d, t)
      → Fits s
      → Fits t
  unfolding sender_piece
  sender_piece-Fits waits t c d e f = take_response-Fits 100 [] waits t c d e tt
  sender_piece-Fits (gathering zero group) t c d e f =
      ends-Fits (writing group (length group)) t c d (omega arith) e
  sender_piece-Fits (gathering (suc n) group) t c d e f =
      take_response-Fits n group (writing group (length group)) t c d e (omega arith)
  sender_piece-Fits (writing [] n) t c d e f = ends-Fits (counting n) t _ d tt e
  sender_piece-Fits (writing (r ∷ rest) n) t c d e f =
      let (b, p, q) = bind-finished (write_one codec r (c.calls r.call).reply c) _ (d, t) e in
      ends-Fits (writing rest n) t b d (omega arith) q
  sender_piece-Fits (counting zero) t c d e f = ends-Fits waits t c d tt e
  sender_piece-Fits (counting (suc n)) t c d e f =
      let (b, p, q) = bind-finished (wg_done 1 c) _ (d, t) e in ends-Fits (counting n) t b d tt q
  sender_piece-Fits halted t c d e f = ends-Fits halted t c d tt e

module _ {V S : Type 0} (codec : IServerCodec V S) (new_value : GoType → V) where
  pub Steps-Fits : {ρ σ : Running V S} → Steps codec new_value ρ σ → Fits ρ.sender → Fits σ.sender
  Steps-Fits here f = f
  Steps-Fits (next_step r (reads services e)) f = Steps-Fits r f
  Steps-Fits (next_step r (handles env d o n e)) f = Steps-Fits r f
  Steps-Fits (next_step {σ = σ} r (sends d s e)) f =
      sender_piece-Fits codec σ.sender s σ.conn d e (Steps-Fits r f)
  Steps-Fits (next_step r (returns x ret d h e)) f = Steps-Fits r f

empty_of_length {ℓ} : {A : Type ℓ} (xs : List A) → length xs ≤ 0 → xs ≡ []
empty_of_length [] h = refl
empty_of_length (x ∷ xs) h = absurd (omega arith)

hand_empty : (s : Sender) → Fits s → sender_owing s ≡ 0 → sender_hand s ≡ []
hand_empty waits f e = refl
hand_empty (gathering n group) f e = ap group_calls (empty_of_length group (omega (arith, e)))
hand_empty (writing group n) f e = ap group_calls (empty_of_length group (omega (arith, e, f)))
hand_empty (counting n) f e = refl
hand_empty halted f e = refl

module _ {V S : Type 0} where
  -- Where pendingWg is zero, nothing waits, is on its way or is still to be answered.
  pub record IsSettled (ρ : Running V S) : Type 0 where
    pub none_waits : ρ.conn.done_chan.buf ≡ []
    pub none_in_hand : sender_hand ρ.sender ≡ []
    pub none_uncounted : sender_owing ρ.sender ≡ 0
    pub none_owed : owed ρ.conn.calls ρ.held ≡ 0

  pub settles : (ρ : Running V S) → Fits ρ.sender → InOrder ρ → ρ.conn.pending_wg ≡ 0 → IsSettled ρ
  settles ρ f a e =
      let none_uncounted : sender_owing ρ.sender ≡ 0 = omega (arith, a.accounted.counted, e) in
      record {
        none_waits = empty_of_length ρ.conn.done_chan.buf (omega (arith, a.accounted.counted, e));
        none_in_hand = hand_empty ρ.sender f none_uncounted;
        none_uncounted = none_uncounted;
        none_owed = omega (arith, a.accounted.counted, e);
      }
