-- ===== src/ServerConn/Accounts/Moves.antt =====
-- How calls change hands on a connection of rpc/server_conn.go: each move keeps the accounts.
use gopl.Prelude.{
  length-append, if◌then◌else◌, ==_iff, ℕ, suc, ◌+◌, ◌-◌, ◌≤◌, ◌≡◌, refl, ap, false, true, List, [],
  ◌∷◌, ◌++◌, length, arith, count, count-append,
}
use gopl.Prelude.Run.{finished}
use gopl.Call.{put}
use gopl.ServerConn.{TFuncCall, TServerConn, is_nil, free_func_call}
use gopl.ServerConn.Responses.{wg_done}
use gopl.ServerConn.Accounts.{IsAccounted, IsAccounted-same}

module _ {V S : Type 0} where
  -- Taking a call out of doneChan leaves it held.
  pub take-IsAccounted :
      (c : TServerConn V S) (x : ℕ) (rest held : List ℕ) (owing : ℕ)
      → c.done_chan.buf ≡ x ∷ rest
      → IsAccounted c held owing
      → IsAccounted
          (record c { done_chan = record c.done_chan { buf = rest } })
          (x ∷ held)
          (suc owing)
  take-IsAccounted c x rest held owing e a =
      let moved : (z : ℕ) → count z c.done_chan.buf ≡ count z (x ∷ rest) = λ z. ap (count z) e in
      record {
        owned = λ z. omega (arith, a.owned z, moved z);
        made = λ z h. a.made z (omega (arith, moved z));
        ready = λ z h. a.ready z (omega (arith, moved z));
        announced = λ z h. a.announced z (omega (arith, moved z));
        counted = omega (arith, a.counted, ap length e);
        still_open = a.still_open;
      }

  pub free-IsAccounted :
      (x : ℕ) (c : TServerConn V S) (held : List ℕ) (owing : ℕ)
      → IsAccounted c (x ∷ held) owing
      → IsAccounted (free_func_call x c) held owing
  unfolding free_func_call
  free-IsAccounted x c held owing a = record {
    owned = λ z. omega (arith, a.owned z);
    made = λ z h. a.made z (omega arith);
    ready = λ z h. ground (arith, a.ready z, a.owned x, ==_iff x z);
    announced = λ z h. ground (arith, a.announced z, a.owned x, ==_iff x z);
    counted = a.counted;
    still_open = a.still_open;
  }

  -- Only calls that were held otherwise are as they were.
  abbrev pub Untouched : List ℕ → TServerConn V S → TServerConn V S → Type 0
  Untouched held c d = (x : ℕ) → 1 ≤ count x held → d.calls x ≡ c.calls x

  pub free-Untouched :
      (x : ℕ) (c : TServerConn V S) (held : List ℕ) (owing : ℕ)
      → IsAccounted c (x ∷ held) owing
      → Untouched held c (free_func_call x c)
  unfolding free_func_call
  free-Untouched x c held owing a z h = ground (arith, a.owned x, ==_iff x z)

  -- What is still held when the response to `x` was written.
  abbrev pub left_held : ℕ → List ℕ → TServerConn V S → List ℕ
  left_held x held c = if (c.calls x).done then held else x ∷ held

  pub wg_done-IsAccounted :
      (n : ℕ) (c : TServerConn V S) (held : List ℕ) (owing : ℕ)
      → IsAccounted c held (n + owing)
      → (wg_done n c ≡ finished (record c { pending_wg = c.pending_wg - n }))
        × IsAccounted (record c { pending_wg = c.pending_wg - n }) held owing
  unfolding wg_done
  wg_done-IsAccounted n c held owing a = (
    ground (arith, a.counted),
    record {
      owned = a.owned;
      made = a.made;
      ready = a.ready;
      announced = a.announced;
      counted = omega (arith, a.counted);
      still_open = a.still_open;
    },
  )

  pub weaken :
      (c : TServerConn V S) (held : List ℕ) (owing owing' : ℕ)
      → owing' ≤ owing
      → IsAccounted c held owing
      → IsAccounted c held owing'
  weaken c held owing owing' l = IsAccounted-same c held held owing owing' (λ x. refl) l

  -- A held call that is to be freed goes into doneChan.
  pub send-IsAccounted :
      (x : ℕ) (c : TServerConn V S) (held : List ℕ) (owing : ℕ)
      → (c.calls x).done ≡ true
      → IsAccounted c (x ∷ held) (suc owing)
      → IsAccounted
          (record c { done_chan = record c.done_chan { buf = c.done_chan.buf ++ x ∷ [] } })
          held
          owing
  send-IsAccounted x c held owing e a =
      let buf = c.done_chan.buf in
      record {
        owned = λ z. omega (arith, a.owned z, count-append z buf (x ∷ []));
        made = λ z h. a.made z (omega (arith, count-append z buf (x ∷ [])));
        ready = λ z h. a.ready z (omega (arith, count-append z buf (x ∷ [])));
        announced = λ z h. ground (arith, a.announced z, count-append z buf (x ∷ []), ==_iff x z);
        counted = omega (arith, a.counted, length-append buf (x ∷ []));
        still_open = a.still_open;
      }

  -- A held call may get other contents, if it has a reply.
  pub fill-IsAccounted :
      (x : ℕ) (v : TFuncCall V) (c : TServerConn V S) (held : List ℕ) (owing : ℕ)
      → is_nil v.reply ≡ false
      → IsAccounted c (x ∷ held) owing
      → IsAccounted (record c { calls = put x v c.calls }) (x ∷ held) owing
  fill-IsAccounted x v c held owing e a = record {
    owned = a.owned;
    made = a.made;
    ready = λ z h. ground (arith, a.ready z);
    announced = λ z h. ground (arith, a.announced z, a.owned x, ==_iff x z);
    counted = a.counted;
    still_open = a.still_open;
  }

  pub fill-Untouched :
      (x : ℕ) (v : TFuncCall V) (c : TServerConn V S) (held : List ℕ) (owing : ℕ)
      → IsAccounted c (x ∷ held) owing
      → Untouched held c (record c { calls = put x v c.calls })
  fill-Untouched x v c held owing a z h = ground (arith, a.owned x, ==_iff x z)
