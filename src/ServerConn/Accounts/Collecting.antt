-- ===== src/ServerConn/Accounts/Collecting.antt =====
-- What the loop of doWriteResponse of rpc/server_conn.go takes from doneChan.
use gopl.Prelude.{
  count_head, ==_iff, ℕ, zero, suc, ◌+◌, ◌≤◌, ◌≡◌, refl, ap, false, true, none, some, Option, List,
  [], ◌∷◌, ◌++◌, map, length, arith, count, count-append,
}
use gopl.Prelude.Run.{finished}
use gopl.Chan.{try_recv, take_head}
use gopl.Header.{TResponseHeader}
use gopl.Codec.{IServerCodec}
use gopl.ServerConn.{TFuncCall, TServerConn, TServerGroupResponse, is_nil}
use gopl.ServerConn.Responses.{do_call_response, collect, with_reply}
use gopl.ServerConn.Accounts.{IsAccounted, IsAccounted-same}
use gopl.ServerConn.Accounts.Moves.{take-IsAccounted}

abbrev pub group_calls : List TServerGroupResponse → List ℕ
group_calls = map λ r. r.call

module _ {V : Type 0} where
  with_reply-finished :
      (o : Option V) (f : V → TResponseHeader)
      → is_nil o ≡ false
      → (h : TResponseHeader) × (with_reply o f ≡ finished h)
  with_reply-finished none f h = cc
  with_reply-finished (some v) f h = (f v, refl)

  pub do_call_response-finished :
      (call : TFuncCall V)
      → is_nil call.reply ≡ false
      → (h : TResponseHeader) × (do_call_response call ≡ finished h)
  unfolding do_call_response
  do_call_response-finished call h = with_reply-finished call.reply _ h

module _ {V S : Type 0} where
  -- What `collect` leaves: the calls that it took are held, and only the channel has changed.
  pub record Collects (n : ℕ) (c d : TServerConn V S) (rest : List TServerGroupResponse)
      (held : List ℕ) (owing : ℕ) : Type 0 where
    pub accounted : IsAccounted d (group_calls rest ++ held) (length rest + owing)
    pub calls : d.calls ≡ c.calls
    pub done : (x : ℕ) → 1 ≤ count x (group_calls rest) → (c.calls x).done ≡ true

module _ {V S : Type 0} (codec : IServerCodec V S) where
  collect-stop :
      (n : ℕ) (c : TServerConn V S)
      → c.done_chan.buf ≡ []
      → c.done_chan.closed ≡ false
      → collect codec (suc n) c ≡ finished (c, some [])
  unfolding collect try_recv
  collect-stop n c e o = ground arith

  collect-take :
      (n : ℕ) (c : TServerConn V S) (x : ℕ) (xs : List ℕ) (h : TResponseHeader)
      (d : TServerConn V S) (rest : List TServerGroupResponse)
      → c.done_chan.buf ≡ x ∷ xs
      → do_call_response (c.calls x) ≡ finished h
      → collect codec n (record c { done_chan = record c.done_chan { buf = xs } })
        ≡ finished (d, some rest)
      → collect codec (suc n) c ≡ finished (d, some (record { resp = h; call = x } ∷ rest))
  unfolding collect try_recv
  collect-take n c x xs h d rest e r k = rw (e, collect, take_head, r, k) refl

  pub collect-Collects :
      (n : ℕ) (buf : List ℕ) (c : TServerConn V S) (held : List ℕ) (owing : ℕ)
      → c.done_chan.buf ≡ buf
      → IsAccounted c held owing
      → (d : TServerConn V S) × (rest : List TServerGroupResponse) × (collect codec n c
          ≡ finished (d, some rest))
        × Collects n c d rest held owing
  unfolding collect
  collect-Collects zero buf c held owing e a = (
    c,
    [],
    refl,
    record {
      accounted = IsAccounted-same c held held owing (0 + owing) (λ x. refl) (omega arith) a;
      calls = refl;
      done = λ x h. absurd (omega arith);
    },
  )
  collect-Collects (suc n) [] c held owing e a = (
    c,
    [],
    collect-stop n c e a.still_open,
    record {
      accounted = IsAccounted-same c held held owing (0 + owing) (λ x. refl) (omega arith) a;
      calls = refl;
      done = λ x h. absurd (omega arith);
    },
  )
  collect-Collects (suc n) (x ∷ xs) c held owing e a =
      let b = record c { done_chan = record c.done_chan { buf = xs } } in
      let (h, r) =
        do_call_response-finished (c.calls x)
          (a.ready x (omega (arith, ap (count x) e, count_head x xs))) in
      let (d, rest, k, q) =
        collect-Collects n xs b (x ∷ held) (suc owing) refl
          (take-IsAccounted c x xs held owing e a) in
      (
        d,
        record { resp = h; call = x } ∷ rest,
        collect-take n c x xs h d rest e r k,
        record {
          accounted =
              IsAccounted-same d (group_calls rest ++ x ∷ held) (x ∷ group_calls rest ++ held)
                (length rest + suc owing) _
                (λ z. omega (
                  arith,
                  count-append z (group_calls rest) (x ∷ held),
                  count-append z (group_calls rest) held,
                ))
                (omega arith) q.accounted;
          calls = q.calls;
          done = λ z m. ground (
            arith,
            q.done z,
            a.announced x (omega (arith, ap (count x) e, count_head x xs)),
            ==_iff x z,
          );
        },
      )
