-- ===== src/ClientConn/Ownership/Moves.antt =====
-- How calls change hands on the client's side of a connection: each move keeps the calls owned.
use gopl.Prelude.{
  ℕ, ◌+◌, ◌<◌, ◌≡◌, refl, ap, ◌∙◌, ◌≢◌, some, List, ◌∷◌, arith, count, count_head, ==_iff,
}
use gopl.Keys.{nat_eq}
use gopl.GoMap.{lookup, delete}
use gopl.Chan.{Chan}
use gopl.RpcError.{GoError}
use gopl.Call.{Store, TCall, set_call, set_chan, set_error, free_call, when_call_done}
use gopl.Call.Completion.{when_call_done_cases}
use gopl.Client.Calls.{fail_call}
use gopl.ClientConn.{TClientConn, make_request_header}
use gopl.ClientConn.Pending.{seq_limit}
use gopl.ClientConn.Ownership.{
  IsOwned, input, seqs_of, count-assign, count-delete, count-delete_found,
}

module _ {V : Type 0} where
  -- A call in hand may get other contents, with the same channel.
  pub fill-IsOwned :
      (x : ℕ) (v : TCall V) (c : TClientConn) (s : Store V) (hand : List ℕ)
      → v.done ≡ (s.calls x).done
      → IsOwned c s (x ∷ hand)
      → IsOwned c (set_call x v s) (x ∷ hand)
  fill-IsOwned x v c s hand d o = record {
    once = o.once;
    made = o.made;
    routed = λ z h. ground (arith, o.routed z, ==_iff x z);
    blank = λ z h. ground (arith, o.blank z, o.once x, ==_iff x z);
    seqs = o.seqs;
    below = o.below;
  }

  free-IsOwned :
      (x : ℕ) (c : TClientConn) (s : Store V) (hand : List ℕ)
      → IsOwned c s (x ∷ hand)
      → IsOwned c (free_call x s) hand
  unfolding free_call
  free-IsOwned x c s hand o = record {
    once = λ z. omega (arith, o.once z);
    made = λ z h. o.made z (omega arith);
    routed = λ z h. ground (arith, o.routed z, o.once x, ==_iff x z);
    blank = λ z h. ground (arith, o.blank z, ==_iff x z);
    seqs = o.seqs;
    below = o.below;
  }

  -- The connection lets go of a call.
  pub let_go-IsOwned :
      (x : ℕ) (c : TClientConn) (s : Store V) (hand : List ℕ)
      → IsOwned c s (x ∷ hand)
      → IsOwned c s hand
  let_go-IsOwned x c s hand o = record {
    once = λ z. omega (arith, o.once z);
    made = λ z h. o.made z (omega arith);
    routed = λ z h. o.routed z (omega arith);
    blank = o.blank;
    seqs = o.seqs;
    below = o.below;
  }

  pub chan-IsOwned :
      (ch : ℕ) (d : Chan ℕ) (c : TClientConn) (s : Store V) (hand : List ℕ)
      → ch ≢ c.input_call_chan
      → IsOwned c s hand
      → IsOwned c (set_chan ch d s) hand
  chan-IsOwned ch d c s hand n o =
      let same : input c (set_chan ch d s) ≡ input c s =
        ground (arith, ==_iff ch c.input_call_chan) in
      record {
        once = λ z. omega (arith, o.once z, ap (count z) same);
        made = λ z h. o.made z (omega (arith, ap (count z) same));
        routed = λ z h. o.routed z (omega (arith, ap (count z) same));
        blank = o.blank;
        seqs = o.seqs;
        below = o.below;
      }

  -- A call in hand is finished: it goes to whoever waits for it, or it is freed.
  pub when_call_done-IsOwned :
      (x : ℕ) (c : TClientConn) (s : Store V) (hand : List ℕ)
      → IsOwned c s (x ∷ hand)
      → IsOwned c (when_call_done x s) hand
  when_call_done-IsOwned x c s hand o =
      let gone = let_go-IsOwned x c s hand o in
      when_call_done_cases (λ t. IsOwned c t hand) x s (free-IsOwned x c s hand o) gone
        λ ch d e f.
          chan-IsOwned ch d c s hand
            (λ q. o.routed x (omega (arith, count_head x hand)) (e ∙ ap some q)) gone

  pub fail_call-IsOwned :
      (e : GoError) (x : ℕ) (c : TClientConn) (s : Store V) (hand : List ℕ)
      → IsOwned c s (x ∷ hand)
      → IsOwned c (fail_call e x s) hand
  unfolding fail_call
  fail_call-IsOwned e x c s hand o =
      when_call_done-IsOwned x c (set_error x (some e) s) hand (fill-IsOwned x _ c s hand refl o)

  -- A call is taken from the input channel.
  pub take-IsOwned :
      (x : ℕ) (rest : List ℕ) (c : TClientConn) (s : Store V) (hand : List ℕ)
      → input c s ≡ x ∷ rest
      → IsOwned c s hand
      → IsOwned c
          (set_chan c.input_call_chan (record (s.chans c.input_call_chan) { buf = rest }) s)
          (x ∷ hand)
  take-IsOwned x rest c s hand e o =
      let t = set_chan c.input_call_chan (record (s.chans c.input_call_chan) { buf = rest }) s in
      let now : input c t ≡ rest = ground arith in
      let k = λ (z : ℕ). ap (count z) e in
      let l = λ (z : ℕ). ap (count z) now in
      record {
        once = λ z. omega (arith, o.once z, k z, l z);
        made = λ z h. o.made z (omega (arith, k z, l z));
        routed = λ z h. o.routed z (omega (arith, k z, l z));
        blank = o.blank;
        seqs = o.seqs;
        below = o.below;
      }

  -- A call in hand becomes pending under the next number.
  pub register-IsOwned :
      (x : ℕ) (c : TClientConn) (s : Store V) (hand : List ℕ)
      → c.seq + 1 < seq_limit
      → IsOwned c s (x ∷ hand)
      → IsOwned (make_request_header x c s).0 s hand
  unfolding make_request_header
  register-IsOwned x c s hand l o =
      let unused : count c.seq (seqs_of c.pending) ≡ 0 = ground (arith, o.below c.seq) in
      let (a, b) = count-assign c.seq x c.pending unused in
      record {
        once = λ z. omega (arith, o.once z, a z);
        made = λ z h. o.made z (omega (arith, a z));
        routed = λ z h. o.routed z (omega (arith, a z));
        blank = o.blank;
        seqs = λ k. ground (arith, o.seqs k, b k, ==_iff c.seq k);
        below = λ k h. ground (arith, o.below k, b k, ==_iff c.seq k);
      }

  -- A pending call comes into hand.
  pub unpend-IsOwned :
      (k x : ℕ) (c : TClientConn) (s : Store V) (hand : List ℕ)
      → lookup k c.pending ≡ some x
      → IsOwned c s hand
      → IsOwned (record c { pending = delete k c.pending }) s (x ∷ hand)
  unpend-IsOwned k x c s hand e o =
      let a = λ (z : ℕ). count-delete_found k x c.pending e z in
      let b = λ (j : ℕ). (count-delete k c.pending).1 j in
      record {
        once = λ z. omega (arith, o.once z, a z);
        made = λ z h. o.made z (omega (arith, a z));
        routed = λ z h. o.routed z (omega (arith, a z));
        blank = o.blank;
        seqs = λ j. omega (arith, o.seqs j, b j);
        below = λ j h. o.below j (omega (arith, b j));
      }

  pub delete-IsOwned :
      (k : ℕ) (c : TClientConn) (s : Store V) (hand : List ℕ)
      → IsOwned c s hand
      → IsOwned (record c { pending = delete k c.pending }) s hand
  delete-IsOwned k c s hand o =
      let (a, b) = count-delete k c.pending in
      record {
        once = λ z. omega (arith, o.once z, a z);
        made = λ z h. o.made z (omega (arith, a z));
        routed = λ z h. o.routed z (omega (arith, a z));
        blank = o.blank;
        seqs = λ j. omega (arith, o.seqs j, b j);
        below = λ j h. o.below j (omega (arith, b j));
      }
