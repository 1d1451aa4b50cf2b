-- ===== src/ClientConn/Ownership/Users.antt =====
-- What the users of a connection of rpc/client_conn.go do to the calls that it holds.
use gopl.Prelude.{
  ℕ, ◌+◌, ◌<◌, ◌≡◌, ap, ◌≢◌, none, some, Option, List, [], ◌∷◌, ◌++◌, arith, count, count-append,
  ==_iff,
}
use gopl.Call.{cancel_call, Store, TCall, set_call, set_chan, take_at, hand_out, stamp, free_call}
use gopl.Call.Pool.{take_at-count}
use gopl.ClientConn.{TClientConn}
use gopl.ClientConn.Ownership.{IsOwned, input, calls_of}

module _ {V : Type 0} where
  -- A call that a user holds: it was made, and the connection, its routines, in whose hands `hand`
  -- are, and the pool do not have it.
  pub record IsUsers (c : TClientConn) (s : Store V) (hand : List ℕ) (x : ℕ) : Type 0 where
    pub made : x < s.next_call
    pub elsewhere :
        count x hand + count x (input c s) + count x (calls_of c.pending) + count x s.pool ≡ 0

  -- The store after a user put a call into the input channel.
  abbrev pub enqueued : ℕ → TClientConn → Store V → Store V
  enqueued x c s =
      set_chan c.input_call_chan
        (record (s.chans c.input_call_chan) { buf = (s.chans c.input_call_chan).buf ++ x ∷ [] }) s

  pub stamp-IsOwned :
      (i now : ℕ) (o : Option (ℕ × List ℕ)) (c : TClientConn) (s : Store V) (hand : List ℕ)
      → take_at i s.pool ≡ o
      → IsOwned c s hand
      → IsOwned c (stamp now (hand_out o s)).0 hand
  unfolding hand_out stamp
  stamp-IsOwned i now none c s hand t o = record {
    once = o.once;
    made = λ z h. omega (arith, o.made z);
    routed = λ z h. ground (arith, o.routed z, o.made z, ==_iff s.next_call z);
    blank = λ z h. ground (arith, o.blank z, o.made z, ==_iff s.next_call z);
    seqs = o.seqs;
    below = o.below;
  }
  stamp-IsOwned i now (some (x, rest)) c s hand t o =
      let k = λ (z : ℕ). take_at-count i s.pool z t in
      record {
        once = λ z. omega (arith, o.once z, k z);
        made = λ z h. o.made z (omega (arith, k z));
        routed = λ z h. ground (arith, o.routed z, o.once x, k x, ==_iff x z);
        blank = λ z h. ground (arith, o.blank z, o.once x, k x, k z, ==_iff x z);
        seqs = o.seqs;
        below = o.below;
      }

  pub enqueued-IsOwned :
      (x : ℕ) (c : TClientConn) (s : Store V) (hand : List ℕ)
      → IsUsers c s hand x
      → (s.calls x).done ≢ some c.input_call_chan
      → IsOwned c s hand
      → IsOwned c (enqueued x c s) hand
  enqueued-IsOwned x c s hand u n o =
      let now : input c (enqueued x c s) ≡ input c s ++ x ∷ [] = ground arith in
      let k = λ (z : ℕ). ap (count z) now in
      let l = λ (z : ℕ). count-append z (input c s) (x ∷ []) in
      record {
        once = λ z. ground (arith, o.once z, k z, l z, u.elsewhere, ==_iff x z);
        made = λ z h. ground (arith, o.made z, k z, l z, u.made, ==_iff x z);
        routed = λ z h. ground (arith, o.routed z, k z, l z, n, ==_iff x z);
        blank = o.blank;
        seqs = o.seqs;
        below = o.below;
      }

  pub users_fill-IsOwned :
      (x : ℕ) (v : TCall V) (c : TClientConn) (s : Store V) (hand : List ℕ)
      → IsUsers c s hand x
      → IsOwned c s hand
      → IsOwned c (set_call x v s) hand
  users_fill-IsOwned x v c s hand u o = record {
    once = o.once;
    made = o.made;
    routed = λ z h. ground (arith, o.routed z, u.elsewhere, ==_iff x z);
    blank = λ z h. ground (arith, o.blank z, u.elsewhere, ==_iff x z);
    seqs = o.seqs;
    below = o.below;
  }

  pub users_free-IsOwned :
      (x : ℕ) (c : TClientConn) (s : Store V) (hand : List ℕ)
      → IsUsers c s hand x
      → IsOwned c s hand
      → IsOwned c (free_call x s) hand
  unfolding free_call
  users_free-IsOwned x c s hand u o = record {
    once = λ z. ground (arith, o.once z, u.elsewhere, ==_iff x z);
    made = λ z h. ground (arith, o.made z, u.made, ==_iff x z);
    routed = λ z h. ground (arith, o.routed z, u.elsewhere, ==_iff x z);
    blank = λ z h. ground (arith, o.blank z, ==_iff x z);
    seqs = o.seqs;
    below = o.below;
  }

  -- A user cancels a call that is not in the pool, also one that the connection has.
  pub users_cancel-IsOwned :
      (x : ℕ) (c : TClientConn) (s : Store V) (hand : List ℕ)
      → count x s.pool ≡ 0
      → IsOwned c s hand
      → IsOwned c (cancel_call x s) hand
  unfolding cancel_call
  users_cancel-IsOwned x c s hand n o = record {
    once = o.once;
    made = o.made;
    routed = λ z h. ground (arith, o.routed z, ==_iff x z);
    blank = λ z h. ground (arith, o.blank z, n, ==_iff x z);
    seqs = o.seqs;
    below = o.below;
  }
