-- ===== src/ClientConn/Ownership/Sending.antt =====
-- What RoutineWriteRequst of rpc/client_conn.go does to the calls that the connection holds.
use gopl.Prelude.{ℕ, zero, suc, ◌+◌, ◌<◌, ◌≡◌, Bool, List, [], ◌∷◌, arith}
use gopl.Keys.{nat_eq}
use gopl.Chan.{Received, received, recv_closed, recv_default, try_recv, take_head}
use gopl.Codec.{IClientCodec}
use gopl.Call.{Store, set_chan}
use gopl.ClientConn.{TClientConn, ConnState, make_request_header}
use gopl.ClientConn.Pending.{seq_limit}
use gopl.ClientConn.Sending.{prepend, add_request, gather, send_ping, on_exit}
use gopl.ClientConn.Ownership.{IsOwned, input}
use gopl.ClientConn.Ownership.Moves.{take-IsOwned, register-IsOwned}

module _ {V : Type 0} where
  -- The numbers do not run out in a round that takes `n` calls.
  gather-take :
      (n x : ℕ) (rest : List ℕ) (c : TClientConn) (s : Store V)
      → input c s ≡ x ∷ rest
      → let t = set_chan c.input_call_chan (record (s.chans c.input_call_chan) { buf = rest }) s in
        gather (suc n) c s ≡ prepend (add_request x c t).1 (gather n (add_request x c t).0 t)
  unfolding gather try_recv
  gather-take n x rest c s e = rw (e, gather, take_head)

  gather-stop :
      (n : ℕ) (c : TClientConn) (s : Store V)
      → input c s ≡ []
      → ((gather (suc n) c s).conn ≡ c) × ((gather (suc n) c s).store ≡ s)
  unfolding gather try_recv
  gather-stop n c s e = ground arith

  pub gather-IsOwned :
      (n : ℕ) (buf : List ℕ) (c : TClientConn) (s : Store V) (hand : List ℕ)
      → input c s ≡ buf
      → c.seq + n < seq_limit
      → IsOwned c s hand
      → IsOwned (gather n c s).conn (gather n c s).store hand
  unfolding gather make_request_header add_request
  gather-IsOwned zero buf c s hand e l o = o
  gather-IsOwned (suc n) [] c s hand e l o = let (p, q) = gather-stop n c s e in rw (p, q) o
  gather-IsOwned (suc n) (x ∷ rest) c s hand e l o =
      let t = set_chan c.input_call_chan (record (s.chans c.input_call_chan) { buf = rest }) s in
      rw (gather-take n x rest c s e) (
        gather-IsOwned n rest (make_request_header x c t).0 t hand (ground arith) (omega arith)
          (register-IsOwned x c t hand (omega arith) (take-IsOwned x rest c s hand e o)))

-- The calls of a connection and its store.
abbrev pub Owned : {V S : Type 0} → ConnState V S → List ℕ → Type 0
Owned σ hand = IsOwned σ.conn σ.store hand

module _ {V S : Type 0} (codec : IClientCodec V S) where
  send_ping-kept :
      (σ : ConnState V S)
      → ((send_ping codec σ).0.conn ≡ σ.conn) × ((send_ping codec σ).0.store ≡ σ.store)
  unfolding send_ping
  send_ping-kept σ = ground arith

  pub send_ping-Owned :
      (σ : ConnState V S) (hand : List ℕ) → Owned σ hand → Owned (send_ping codec σ).0 hand
  send_ping-Owned σ hand o = let (c, s) = send_ping-kept σ in rw (c, s) o

  pub on_exit-Owned :
      (r : Received Bool) (σ : ConnState V S) (hand : List ℕ)
      → Owned σ hand
      → Owned (on_exit codec r σ).0 hand
  unfolding on_exit
  on_exit-Owned (received b d) σ hand o = record {
    once = o.once;
    made = o.made;
    routed = o.routed;
    blank = o.blank;
    seqs = o.seqs;
    below = o.below;
  }
  on_exit-Owned recv_closed σ hand o = o
  on_exit-Owned recv_default σ hand o = o
