-- ===== src/ClientConn/Pending.antt =====
-- The numbers under which rpc/client_conn.go keeps the calls that wait for a response.
use gopl.Prelude.{ℕ, ◌+◌, ◌<◌, ◌≡◌, refl, none, some, [], ◌∷◌, arith, All, All-map}
use gopl.Keys.{nat_eq}
use gopl.GoMap.{GoMap, lookup, assign, lookup-assign}
use gopl.Call.{Store}
use gopl.ClientConn.{TClientConn, next_seq, make_request_header}

abbrev pub seq_limit : ℕ
seq_limit = 0x1_0000_0000_0000_0000

-- Every pending number was given out before the next one.
pub record IsNumbered (c : TClientConn) : Type 0 where
  pub below : All (λ p. p.0 < c.seq) c.pending

assign-below :
    (k v n : ℕ) (m : GoMap ℕ ℕ) → k < n → All (λ p. p.0 < n) m → All (λ p. p.0 < n) (assign k v m)
unfolding assign
assign-below k v n [] l h = (l, tt)
assign-below k v n ((j, w) ∷ m) l h = ground (arith, assign-below k v n m l h.1)

lookup-above : (k : ℕ) (m : GoMap ℕ ℕ) → All (λ p. p.0 < k) m → lookup k m ≡ none
unfolding lookup
lookup-above k [] h = refl
lookup-above k ((j, w) ∷ m) h = ground (arith, lookup-above k m h.1)

-- The number of a request is new, its call is pending under it and no other entry changes, and
-- the next number is above all again.
pub record Registers (call : ℕ) (c d : TClientConn) (seq : ℕ) : Type 0 where
  pub unused : lookup seq c.pending ≡ none
  pub pending : lookup seq d.pending ≡ some call
  pub kept : (k call' : ℕ) → lookup k c.pending ≡ some call' → lookup k d.pending ≡ some call'
  pub numbered : IsNumbered d

-- While the numbers of the pending requests are below the next one, and that is not the last of a
-- uint64, makeRequestHeader gives a request a number that is not in use, under which its call is
-- pending then; every other pending call stays so, and the numbers are below the next one again.
pub make_request_header-Registers :
    {V : Type 0} (call : ℕ) (c : TClientConn) (s : Store V)
    → IsNumbered c
    → c.seq + 1 < seq_limit
    → Registers call c (make_request_header call c s).0 (make_request_header call c s).1.seq
unfolding make_request_header
make_request_header-Registers call c s n l =
    let above = lookup-above c.seq c.pending n.below in
    record {
      unused = above;
      pending = ground (arith, lookup-assign c.seq c.seq call c.pending);
      kept = λ k call' h. ground (arith, lookup-assign c.seq k call c.pending, above);
      numbered = record {
        below =
            assign-below c.seq call (next_seq c.seq) c.pending (omega arith)
              (All-map (λ p h. omega arith) c.pending n.below);
      };
    }
