-- ===== src/ServerConn/Accounts.antt =====
-- Who holds a call of a connection of rpc/server_conn.go, and what pendingWg counts.
pub mod Moves
pub mod Collecting
pub mod Writing
pub mod Routines
pub mod Reading
pub mod Pieces
pub mod Running
pub mod InOrder
pub mod Steps
pub mod Settled
pub mod Drained
pub mod Closing
pub mod Dispatch
mod Tests
use gopl.Prelude.{
  ℕ, suc, ◌+◌, ◌≤◌, ◌<◌, ◌≡◌, refl, false, true, Bool, List, [], ◌∷◌, ◌++◌, length, arith, count,
  count-append, if◌then◌else◌,
}
use gopl.ServerConn.{TFuncCall, TServerConn, is_nil}

-- `held` are the calls that a routine holds, in whatever order: each made call is held, waits in
-- doneChan or is pooled, once at most. What is held or waits has a reply, what waits is to be
-- freed, and pendingWg is at least what waits and `owing` more.
pub record IsAccounted {V S : Type 0} (c : TServerConn V S) (held : List ℕ) (owing : ℕ)
    : Type 0 where
  pub owned : (x : ℕ) → count x held + count x c.done_chan.buf + count x c.pool ≤ 1
  pub made : (x : ℕ) → 1 ≤ count x held + count x c.done_chan.buf + count x c.pool → x < c.next_call
  pub ready :
      (x : ℕ) → 1 ≤ count x held + count x c.done_chan.buf → is_nil (c.calls x).reply ≡ false
  pub announced : (x : ℕ) → 1 ≤ count x c.done_chan.buf → (c.calls x).done ≡ true
  pub counted : length c.done_chan.buf + owing ≤ c.pending_wg
  pub still_open : c.done_chan.closed ≡ false

module _ {V S : Type 0} where
  -- The order in which calls are held does not matter.
  pub IsAccounted-same :
      (c : TServerConn V S) (held held' : List ℕ) (owing owing' : ℕ)
      → ((x : ℕ) → count x held' ≡ count x held)
      → owing' ≤ owing
      → IsAccounted c held owing
      → IsAccounted c held' owing'
  IsAccounted-same c held held' owing owing' e l a = record {
    owned = λ x. omega (arith, e x, a.owned x);
    made = λ x h. a.made x (omega (arith, e x));
    ready = λ x h. a.ready x (omega (arith, e x));
    announced = a.announced;
    counted = omega (arith, a.counted);
    still_open = a.still_open;
  }

  -- The codec is not part of the accounts.
  pub IsAccounted-codec :
      (c : TServerConn V S) (y : S) (held : List ℕ) (owing : ℕ)
      → IsAccounted c held owing
      → IsAccounted (record c { codec = y }) held owing
  IsAccounted-codec c y held owing a = record {
    owned = a.owned;
    made = a.made;
    ready = a.ready;
    announced = a.announced;
    counted = a.counted;
    still_open = a.still_open;
  }

module _ {V : Type 0} where
  -- How many of the held calls are still to be answered.
  abbrev pub owed : (ℕ → TFuncCall V) → List ℕ → ℕ
  owed calls [] = 0
  owed calls (x ∷ xs) = (if (calls x).done then 1 else 0) + owed calls xs

  pub owed-same :
      (f g : ℕ → TFuncCall V) (xs : List ℕ)
      → ((x : ℕ) → 1 ≤ count x xs → (f x).done ≡ (g x).done)
      → owed f xs ≡ owed g xs
  owed-same f g [] h = refl
  owed-same f g (x ∷ xs) h = ground (arith, h x, owed-same f g xs (λ y k. h y (omega arith)))
