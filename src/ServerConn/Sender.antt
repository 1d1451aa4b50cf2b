-- ===== src/ServerConn/Sender.antt =====
-- RoutineWriteResponse, doWriteResponse and SendGroupResponse of rpc/server_conn.go, cut where other
-- routines may go on: at every receive, and in a group at every response and at every
-- pendingWg.Done(). The mutex around writing only takes orders away.
mod Agrees
use gopl.Prelude.{ℕ, zero, suc, false, true, Bool, List, [], ◌∷◌, ◌++◌, length}
use gopl.Prelude.Run.{Run, finished, ◌>>=◌}
use gopl.Chan.{received, recv_closed, recv_default, try_recv}
use gopl.Codec.{IServerCodec}
use gopl.ServerConn.{TServerConn, TServerGroupResponse}
use gopl.ServerConn.Responses.{do_call_response, write_one, wg_done}

-- Where RoutineWriteResponse is: waiting for a call; uniting others with it, for so many rounds;
-- writing the rest of a group that counts for so many; counting these down; or at its end.
pub data Sender : Type 0 where
  waits : Sender
  gathering : ℕ → List TServerGroupResponse → Sender
  writing : List TServerGroupResponse → ℕ → Sender
  counting : ℕ → Sender
  halted : Sender

abbrev pub is_halted : Sender → Bool
is_halted waits = false
is_halted (gathering n group) = false
is_halted (writing group n) = false
is_halted (counting n) = false
is_halted halted = true

module _ {V S : Type 0} where
  -- A receive from doneChan, for a group that is then to be gathered for `n` rounds.
  unfoldable pub take_response :
      ℕ → List TServerGroupResponse → Sender → TServerConn V S → Run (TServerConn V S × Sender)
  unfolding do_call_response try_recv
  take_response n group otherwise c = elim (try_recv c.done_chan) [
    | received x d ↦ do_call_response (c.calls x) >>= λ h.
        finished
          (record c { done_chan = d }, gathering n (group ++ record { resp = h; call = x } ∷ []))
    | recv_closed ↦ finished (c, halted)
    | recv_default ↦ finished (c, otherwise)
  ]

module _ {V S : Type 0} (codec : IServerCodec V S) where
  -- The next piece of RoutineWriteResponse, doWriteResponse and SendGroupResponse.
  unfoldable pub sender_piece : Sender → TServerConn V S → Run (TServerConn V S × Sender)
  unfolding take_response write_one wg_done
  sender_piece waits c = take_response 100 [] waits c
  sender_piece (gathering zero group) c = finished (c, writing group (length group))
  sender_piece (gathering (suc n) group) c = take_response n group (writing group (length group)) c
  sender_piece (writing [] n) c =
      finished (record c { codec = (codec.flush c.codec).0 }, counting n)
  sender_piece (writing (r ∷ rest) n) c =
      write_one codec r (c.calls r.call).reply c >>= λ d. finished (d, writing rest n)
  sender_piece (counting zero) c = finished (c, waits)
  sender_piece (counting (suc n)) c = wg_done 1 c >>= λ d. finished (d, counting n)
  sender_piece halted c = finished (c, halted)
