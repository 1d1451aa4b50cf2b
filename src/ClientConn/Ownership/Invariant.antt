-- ===== src/ClientConn/Ownership/Invariant.antt =====
-- Whatever the users and the routines of a connection of rpc/client_conn.go do, its calls are owned.
use gopl.ClientConn.Ownership.Sending.{Owned}
use gopl.ClientConn.Ownership.Steps.{Running, hand_of, Steps}

module _ {V S : Type 0} where
  -- The calls of a running connection are owned, each once, those in its routines' hands too.
  abbrev pub InOrder : Running V S → Type 0
  InOrder ρ = Owned ρ.state (hand_of ρ)
