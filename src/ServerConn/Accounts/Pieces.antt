-- ===== src/ServerConn/Accounts/Pieces.antt =====
-- What the pieces of RoutineWriteResponse of rpc/server_conn.go do to the accounts of a connection.
use gopl.Prelude.{
  ℕ, zero, suc, ◌+◌, ◌-◌, ◌≡◌, refl, ap, inl, inr, false, none, some, Option, List, [], ◌∷◌, ◌++◌,
  length, length-append, arith, count, count-append, count_head, Bool-cases,
}
use gopl.Prelude.Run.{Run, finished, ◌>>=◌}
use gopl.Chan.{try_recv, take_head}
use gopl.Header.{TResponseHeader}
use gopl.Codec.{IServerCodec}
use gopl.ServerConn.{TServerConn, TServerGroupResponse, is_nil, free_func_call}
use gopl.ServerConn.Responses.{do_call_response, write_one}
use gopl.ServerConn.Accounts.{IsAccounted, IsAccounted-same, IsAccounted-codec}
use gopl.ServerConn.Accounts.Moves.{
  take-IsAccounted, free-IsAccounted, free-Untouched, Untouched, wg_done-IsAccounted, weaken,
}
use gopl.ServerConn.Accounts.Collecting.{group_calls, do_call_response-finished}
use gopl.ServerConn.Sender.{
  Sender, waits, gathering, writing, counting, halted, is_halted, take_response, sender_piece,
}

abbrev pub sender_hand : Sender → List ℕ
sender_hand waits = []
sender_hand (gathering n group) = group_calls group
sender_hand (writing group n) = group_calls group
sender_hand (counting n) = []
sender_hand halted = []

-- How much of pendingWg the group of a sender stands for.
abbrev pub sender_owing : Sender → ℕ
sender_owing waits = 0
sender_owing (gathering n group) = length group
sender_owing (writing group n) = n
sender_owing (counting n) = n
sender_owing halted = 0

count-joined :
    (z x : ℕ) (h : TResponseHeader) (group : List TServerGroupResponse) (held : List ℕ)
    → count z (group_calls (group ++ record { resp = h; call = x } ∷ []) ++ held)
      ≡ count z (x ∷ group_calls group ++ held)
count-joined z x h [] held = refl
count-joined z x h (r ∷ rest) held = omega (arith, count-joined z x h rest held)

module _ {V S : Type 0} where
  drop-IsAccounted :
      (x : ℕ) (c : TServerConn V S) (held : List ℕ) (owing : ℕ)
      → IsAccounted c (x ∷ held) owing
      → IsAccounted c held owing
  drop-IsAccounted x c held owing a = record {
    owned = λ z. omega (arith, a.owned z);
    made = λ z h. a.made z (omega arith);
    ready = λ z h. a.ready z (omega arith);
    announced = a.announced;
    counted = a.counted;
    still_open = a.still_open;
  }

  -- How a piece ends well: not by a panic, nor as the last one, and with the accounts in order.
  pub record PieceFine (held : List ℕ) (owing : ℕ) (c : TServerConn V S)
      (m : Run (TServerConn V S × Sender)) : Type 0 where
    pub conn : TServerConn V S
    pub sender : Sender
    pub ends : m ≡ finished (conn, sender)
    pub goes_on : is_halted sender ≡ false
    pub accounted : IsAccounted conn (sender_hand sender ++ held) (sender_owing sender + owing)
    pub untouched : Untouched held c conn

  take_response-idle :
      (n : ℕ) (group : List TServerGroupResponse) (otherwise : Sender) (c : TServerConn V S)
      → c.done_chan.buf ≡ []
      → c.done_chan.closed ≡ false
      → take_response n group otherwise c ≡ finished (c, otherwise)
  unfolding take_response try_recv
  take_response-idle n group otherwise c e o = ground arith

  take_response-take :
      (n x : ℕ) (xs : List ℕ) (h : TResponseHeader) (group : List TServerGroupResponse)
      (otherwise : Sender) (c : TServerConn V S)
      → c.done_chan.buf ≡ x ∷ xs
      → do_call_response (c.calls x) ≡ finished h
      → take_response n group otherwise c
        ≡ finished (
          record c { done_chan = record c.done_chan { buf = xs } },
          gathering n (group ++ record { resp = h; call = x } ∷ []),
        )
  unfolding take_response try_recv
  take_response-take n x xs h group otherwise c e r = rw (e, take_response, take_head, r) refl

  take_response-Fine :
      (buf : List ℕ) (n : ℕ) (group : List TServerGroupResponse) (otherwise : Sender)
      (c : TServerConn V S) (held : List ℕ) (owing : ℕ)
      → c.done_chan.buf ≡ buf
      → is_halted otherwise ≡ false
      → IsAccounted c (sender_hand otherwise ++ held) (sender_owing otherwise + owing)
      → IsAccounted c (group_calls group ++ held) (length group + owing)
      → PieceFine held owing c (take_response n group otherwise c)
  take_response-Fine [] n group otherwise c held owing e g a b = record {
    conn = c;
    sender = otherwise;
    ends = take_response-idle n group otherwise c e b.still_open;
    goes_on = g;
    accounted = a;
    untouched = λ x h. refl;
  }
  take_response-Fine (x ∷ xs) n group otherwise c held owing e g a b =
      let (h, r) =
        do_call_response-finished (c.calls x)
          (b.ready x (omega (arith, ap (count x) e, count_head x xs))) in
      let d = record c { done_chan = record c.done_chan { buf = xs } } in
      let joined = group ++ record { resp = h; call = x } ∷ [] in
      record {
        conn = d;
        sender = gathering n joined;
        ends = take_response-take n x xs h group otherwise c e r;
        goes_on = refl;
        accounted =
            IsAccounted-same d (x ∷ group_calls group ++ held) (group_calls joined ++ held)
              (suc (length group + owing)) (length joined + owing)
              (λ z. count-joined z x h group held)
              (omega (arith, length-append group (record { resp = h; call = x } ∷ [])))
              (take-IsAccounted c x xs (group_calls group ++ held) (length group + owing) e b);
        untouched = λ z m. refl;
      }

module _ {V S : Type 0} (codec : IServerCodec V S) where
  -- Writing the response of a held call frees it, or leaves it to nobody.
  write_one-Fine :
      (r : TServerGroupResponse) (o : Option V) (c : TServerConn V S) (held : List ℕ) (owing : ℕ)
      → is_nil o ≡ false
      → IsAccounted c (r.call ∷ held) owing
      → (d : TServerConn V S) × (write_one codec r o c ≡ finished d)
        × IsAccounted d held owing
        × Untouched held c d
  unfolding write_one
  write_one-Fine r none c held owing h a = cc
  write_one-Fine r (some v) c held owing h a =
      let y = (codec.write_response c.codec r.resp (some v)).0 in
      let b = record c { codec = y } in
      let a' = IsAccounted-codec c y (r.call ∷ held) owing a in
      elim (Bool-cases (c.calls r.call).done) [
        | inl e ↦ (
          free_func_call r.call b,
          ground arith,
          free-IsAccounted r.call b held owing a',
          free-Untouched r.call b held owing a',
        )
        | inr e ↦ (b, ground arith, drop-IsAccounted r.call b held owing a', λ z m. refl)
      ]

  pub sender_piece-Fine :
      (s : Sender) (c : TServerConn V S) (held : List ℕ) (owing : ℕ)
      → is_halted s ≡ false
      → IsAccounted c (sender_hand s ++ held) (sender_owing s + owing)
      → PieceFine held owing c (sender_piece codec s c)
  unfolding sender_piece
  sender_piece-Fine waits c held owing g a =
      take_response-Fine c.done_chan.buf 100 [] waits c held owing refl refl a a
  sender_piece-Fine (gathering zero group) c held owing g a = record {
    conn = c;
    sender = writing group (length group);
    ends = refl;
    goes_on = refl;
    accounted = a;
    untouched = λ x h. refl;
  }
  sender_piece-Fine (gathering (suc n) group) c held owing g a =
      take_response-Fine c.done_chan.buf n group (writing group (length group)) c held owing refl
        refl a a
  sender_piece-Fine (writing [] n) c held owing g a =
      let y = (codec.flush c.codec).0 in
      record {
        conn = record c { codec = y };
        sender = counting n;
        ends = refl;
        goes_on = refl;
        accounted = IsAccounted-codec c y held (n + owing) a;
        untouched = λ x h. refl;
      }
  sender_piece-Fine (writing (r ∷ rest) n) c held owing g a =
      let hand = group_calls rest ++ held in
      let (d, e, q, u) =
        write_one-Fine r (c.calls r.call).reply c hand (n + owing)
          (a.ready r.call (omega (arith, count_head r.call hand))) a in
      record {
        conn = d;
        sender = writing rest n;
        ends = ap (λ m. m >>= λ d. finished (d, writing rest n)) e;
        goes_on = refl;
        accounted = q;
        untouched = λ x h. u x (omega (arith, count-append x (group_calls rest) held));
      }
  sender_piece-Fine (counting zero) c held owing g a = record {
    conn = c;
    sender = waits;
    ends = refl;
    goes_on = refl;
    accounted = a;
    untouched = λ x h. refl;
  }
  sender_piece-Fine (counting (suc n)) c held owing g a =
      let (e, q) =
        wg_done-IsAccounted 1 c held (n + owing)
          (weaken c held _ (1 + (n + owing)) (omega arith) a) in
      record {
        conn = record c { pending_wg = c.pending_wg - 1 };
        sender = counting n;
        ends = ap (λ m. m >>= λ d. finished (d, counting n)) e;
        goes_on = refl;
        accounted = q;
        untouched = λ x h. refl;
      }
  sender_piece-Fine halted c held owing g a = cc
