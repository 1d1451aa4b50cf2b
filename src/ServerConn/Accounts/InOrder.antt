-- ===== src/ServerConn/Accounts/InOrder.antt =====
-- The accounts of a connection of rpc/server_conn.go with its routines: what pendingWg is to count,
-- and how what is owed changes with the calls that run.
use gopl.Prelude.{
  ℕ, ◌+◌, ◌≤◌, ◌≡◌, refl, ap, Option, List, [], ◌∷◌, arith, count, if◌then◌else◌, ==_iff, none,
  some, ◌++◌, count-append, false,
}
use gopl.Client.Choose.{remove_first}
use gopl.ServerConn.{TFuncCall, TServerConn, new_server_conn}
use gopl.ServerConn.Requests.{Round, next, spawned, ended, Read}
use gopl.ServerConn.Accounts.{IsAccounted, owed, owed-same}
use gopl.ServerConn.Accounts.Moves.{Untouched}
use gopl.ServerConn.Accounts.Reading.{round_held, round_owing}
use gopl.ServerConn.Sender.{is_halted}
use gopl.ServerConn.Accounts.Pieces.{sender_hand, sender_owing}
use gopl.ServerConn.Accounts.Running.{Running, started}

pub owed-remove_first :
    {V : Type 0} (f : ℕ → TFuncCall V) (x : ℕ) (held : List ℕ)
    → 1 ≤ count x held
    → owed f held ≡ (if (f x).done then 1 else 0) + owed f (remove_first x held)
unfolding remove_first
owed-remove_first f x [] h = absurd (omega arith)
owed-remove_first f x (y ∷ ys) h = ground (arith, owed-remove_first f x ys, ==_iff y x)

abbrev pub reading : {V : Type 0} → Option (Read V) → ℕ
reading none = 0
reading (some r) = 1

pub count-round :
    (r : Round) (hand held : List ℕ) (z : ℕ)
    → count z (hand ++ round_held r held) ≡ count z (round_held r (hand ++ held))
count-round next hand held z = refl
count-round ended hand held z = refl
count-round (spawned x) hand held z =
    omega (arith, count-append z hand (x ∷ held), count-append z hand held)

module _ {V S : Type 0} where
  -- What pendingWg is to count beside the calls that wait.
  abbrev pub owing : Running V S → ℕ
  owing ρ = sender_owing ρ.sender + (reading ρ.reader + owed ρ.conn.calls ρ.held)

  -- The accounts are in order.
  pub record InOrder (ρ : Running V S) : Type 0 where
    pub accounted : IsAccounted ρ.conn (sender_hand ρ.sender ++ ρ.held) (owing ρ)
    pub goes_on : is_halted ρ.sender ≡ false

  -- What was not touched is owed as before.
  pub owed-Untouched :
      (c d : TServerConn V S) (held : List ℕ)
      → Untouched held c d
      → owed d.calls held ≡ owed c.calls held
  owed-Untouched c d held u = owed-same d.calls c.calls held (λ x m. ap (λ f. f.done) (u x m))

  pub Untouched-right :
      (hand held : List ℕ) (c d : TServerConn V S)
      → Untouched (hand ++ held) c d
      → Untouched held c d
  Untouched-right hand held c d u x h = u x (omega (arith, count-append x hand held))

  pub owed-round :
      (r : Round) (c d : TServerConn V S) (held : List ℕ) (n : ℕ)
      → Untouched held c d
      → round_owing r d (n + owed c.calls held) ≡ n + owed d.calls (round_held r held)
  owed-round next c d held n u = omega (arith, owed-Untouched c d held u)
  owed-round ended c d held n u = omega (arith, owed-Untouched c d held u)
  owed-round (spawned x) c d held n u = omega (arith, owed-Untouched c d held u)

  pub started-InOrder : (y : S) (n : ℕ) → InOrder (started y n)
  unfolding new_server_conn
  started-InOrder y n = record {
    accounted = record {
      owned = λ x. omega arith;
      made = λ x h. absurd (omega arith);
      ready = λ x h. absurd (omega arith);
      announced = λ x h. absurd (omega arith);
      counted = omega arith;
      still_open = refl;
    };
    goes_on = refl;
  }
