-- ===== src/ServerConn/Accounts/Drained.antt =====
-- A connection of rpc/server_conn.go on which nothing is left to be answered and doneChan is closed.
use gopl.Prelude.{
  ℕ, zero, suc, ◌≤◌, ◌≡◌, refl, false, true, Option, List, [], ◌∷◌, length, arith, count, ==_iff,
}
use gopl.Prelude.Run.{Run, finished}
use gopl.Chan.{try_recv}
use gopl.RpcError.{GoError}
use gopl.Call.{put}
use gopl.Codec.{IServerCodec}
use gopl.ServerConn.{TFuncCall, TServerConn, TServerGroupResponse, free_func_call}
use gopl.ServerConn.Responses.{do_call, when_func_call_done}
use gopl.ServerConn.Sender.{
  Sender, waits, gathering, writing, counting, halted, take_response, sender_piece,
}
use gopl.ServerConn.Accounts.{owed}
use gopl.ServerConn.Accounts.Pieces.{sender_hand, sender_owing}
use gopl.ServerConn.Accounts.Running.{Running}

pub owed_zero :
    {V : Type 0} (f : ℕ → TFuncCall V) (xs : List ℕ)
    → owed f xs ≡ 0
    → (x : ℕ) → 1 ≤ count x xs
    → (f x).done ≡ false
owed_zero f [] e x h = absurd (omega arith)
owed_zero f (y ∷ ys) e x h = ground (arith, owed_zero f ys (omega (arith, e)) x, ==_iff y x)

module _ {V S : Type 0} where
  -- Nothing comes through doneChan any more, and no method that runs will send on it.
  pub record IsDrained (ρ : Running V S) : Type 0 where
    pub none_waits : ρ.conn.done_chan.buf ≡ []
    pub shut : ρ.conn.done_chan.closed ≡ true
    pub none_in_hand : sender_hand ρ.sender ≡ []
    pub none_uncounted : sender_owing ρ.sender ≡ 0
    pub quiet : (x : ℕ) → 1 ≤ count x ρ.held → (ρ.conn.calls x).done ≡ false

  -- A piece of RoutineWriteResponse then ends well and changes the codec only.
  pub record Rests (c : TServerConn V S) (m : Run (TServerConn V S × Sender)) : Type 0 where
    pub codec_after : S
    pub sender : Sender
    pub ends : m ≡ finished (record c { codec = codec_after }, sender)
    pub none_in_hand : sender_hand sender ≡ []
    pub none_uncounted : sender_owing sender ≡ 0

  take_response-Rests :
      (n : ℕ) (otherwise : Sender) (group : List TServerGroupResponse) (c : TServerConn V S)
      → c.done_chan.buf ≡ []
      → c.done_chan.closed ≡ true
      → Rests c (take_response n group otherwise c)
  unfolding take_response try_recv
  take_response-Rests n otherwise group c b e = record {
    codec_after = c.codec;
    sender = halted;
    ends = ground arith;
    none_in_hand = refl;
    none_uncounted = refl;
  }

  -- A method that runs frees its call when it returns.
  pub do_call-quiet :
      (x : ℕ) (ret : List (Option GoError)) (c : TServerConn V S)
      → (c.calls x).done ≡ false
      → do_call x ret c
        ≡ finished (
            free_func_call x
              (record c { calls = put x (record (c.calls x) { ret = ret }) c.calls }))
  unfolding do_call when_func_call_done
  do_call-quiet x ret c e = ground arith

  pub returned_quiet :
      (x z : ℕ) (ret : List (Option GoError)) (c : TServerConn V S)
      → (c.calls z).done ≡ false
      → let v = record (c.calls x) { ret = ret } in
        ((free_func_call x (record c { calls = put x v c.calls })).calls z).done ≡ false
  unfolding free_func_call
  returned_quiet x z ret c e = ground arith

module _ {V S : Type 0} (codec : IServerCodec V S) where
  pub sender_piece-Rests :
      (s : Sender) (c : TServerConn V S)
      → c.done_chan.buf ≡ []
      → c.done_chan.closed ≡ true
      → sender_hand s ≡ []
      → sender_owing s ≡ 0
      → Rests c (sender_piece codec s c)
  unfolding sender_piece
  sender_piece-Rests waits c b e h o = take_response-Rests 100 waits [] c b e
  sender_piece-Rests (gathering zero []) c b e h o = record {
    codec_after = c.codec;
    sender = writing [] 0;
    ends = refl;
    none_in_hand = refl;
    none_uncounted = refl;
  }
  sender_piece-Rests (gathering zero (r ∷ group)) c b e h o = absurd (omega (arith, o))
  sender_piece-Rests (gathering (suc n) group) c b e h o =
      take_response-Rests n (writing group (length group)) group c b e
  sender_piece-Rests (writing [] n) c b e h o = record {
    codec_after = (codec.flush c.codec).0;
    sender = counting n;
    ends = refl;
    none_in_hand = refl;
    none_uncounted = o;
  }
  sender_piece-Rests (writing (r ∷ rest) n) c b e h o = absurd (cc)
  sender_piece-Rests (counting zero) c b e h o = record {
    codec_after = c.codec;
    sender = waits;
    ends = refl;
    none_in_hand = refl;
    none_uncounted = refl;
  }
  sender_piece-Rests (counting (suc n)) c b e h o = absurd (omega (arith, o))
  sender_piece-Rests halted c b e h o = record {
    codec_after = c.codec;
    sender = halted;
    ends = refl;
    none_in_hand = refl;
    none_uncounted = refl;
  }
