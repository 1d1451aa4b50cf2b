-- ===== src/ClientConn/Start.antt =====
-- rpc/client_conn.go: Start of a TClientConn. `dial` is net.Dial, whose connection is of a type `N`,
-- and `codec_factory` makes the codec. The routines that Start starts are those of
-- ClientConn/Sending and ClientConn/Receiving.
use gopl.Prelude.{Bool, false, Option, String}
use gopl.Prelude.Int.{ℤ}
use gopl.RpcError.{GoError, Result, ok, err}
use gopl.Call.{Store}
use gopl.ClientConn.{TClientConn, ConnState}
use gopl.ClientConn.NetAddr.{get_net_addr}

module _ {V S N : Type 0} (dial : String → String → Result N) (codec_factory : N → S) where
  unfoldable pub after_dial : Result N → TClientConn → Store V → Result (ConnState V S)
  after_dial (err e) c s = err e
  after_dial (ok n) c s = ok (record { conn = c; codec = codec_factory n; store = s })

  unfoldable pub after_net_addr :
      Result (String × String) → TClientConn → Store V → Result (ConnState V S)
  unfolding after_dial
  after_net_addr (err e) c s = err e
  after_net_addr (ok (net, addr)) c s = after_dial (dial net addr) c s

  -- The arguments are those of getNetAddr, whose `remove` a client does not use.
  unfoldable pub start_conn :
      (String → Option ℤ)
      → (String → Bool)
      → (String → Option GoError)
      → TClientConn
      → Store V
      → Result (ConnState V S)
  unfolding after_net_addr get_net_addr
  start_conn atoi missing remove c s =
      after_net_addr (get_net_addr atoi missing remove c.addr false) c s
