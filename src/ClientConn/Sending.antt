-- ===== src/ClientConn/Sending.antt =====
-- rpc/client_conn.go: sendCall, sendGroupCall, sendPing, and a round of RoutineWriteRequst.
pub mod Group
pub mod Cleanup
use gopl.Prelude.{
  ℕ, zero, suc, Bool, true, false, ◌||◌, Option, none, some, List, [], ◌∷◌, if◌then◌else◌,
}
use gopl.Keys.{nat_eq}
use gopl.GoMap.{lookup, delete}
use gopl.Chan.{Chan, Received, received, recv_closed, recv_default, try_recv}
use gopl.RpcError.{GoError, err_shutdown, err_input_call_chan_closed}
use gopl.Header.{TRequestHeader, request_flag_ping, ping_method}
use gopl.Codec.{IClientCodec}
use gopl.Call.{Store, set_chan}
use gopl.Client.Calls.{fail_call}
use gopl.ClientConn.{TClientConn, TClientGroupRequest, ConnState, make_request_header}

abbrev pub unite_package_num : ℕ
unite_package_num = 100

-- pingRequestHreader
abbrev pub ping_request_header : TRequestHeader
ping_request_header = record { service_method = ping_method; seq = 0; flag = request_flag_ping }

-- What a round took from the input channel: the connection and the store as they are then, the
-- group, and whether the channel was found closed.
pub record Gathered (V : Type 0) : Type 0 where
  pub conn : TClientConn
  pub store : Store V
  pub group : List TClientGroupRequest
  pub closed : Bool

-- Which case of the `select` of RoutineWriteRequst is taken.
pub data WriteEvent : Type 0 where
  input_ready ping_timer exit_ready : WriteEvent

module _ {V : Type 0} where
  abbrev pub prepend : TClientGroupRequest → Gathered V → Gathered V
  prepend r g = record g { group = r ∷ g.group }

  -- One call becomes a request of the group.
  unfoldable pub add_request : ℕ → TClientConn → Store V → TClientConn × TClientGroupRequest
  unfolding make_request_header
  add_request call c s =
      let (d, header) = make_request_header call c s in (d, record { req = header; call = call })

  -- The loop that unites what waits in the input channel, for the rounds that are left.
  unfoldable pub gather : ℕ → TClientConn → Store V → Gathered V
  unfolding try_recv add_request
  gather zero c s = record { conn = c; store = s; group = []; closed = false }
  gather (suc n) c s = elim (try_recv (s.chans c.input_call_chan)) [
    | received call d ↦
        let t = set_chan c.input_call_chan d s in
        prepend (add_request call c t).1 (gather n (add_request call c t).0 t)
    | recv_closed ↦ record { conn = c; store = s; group = []; closed = true }
    | recv_default ↦ record { conn = c; store = s; group = []; closed = false }
  ]

  -- The cleanup of sendGroupCall for one request: its call may have been taken out of `pending`.
  unfoldable pub clean_call : GoError → Option ℕ → Store V → Store V
  unfolding fail_call
  clean_call e none s = s
  clean_call e (some call) s = fail_call e call s

  unfoldable pub cleanup :
      GoError → List TClientGroupRequest → TClientConn → Store V → TClientConn × Store V
  unfolding clean_call
  cleanup e [] c s = (c, s)
  cleanup e (r ∷ rest) c s =
      cleanup e rest (record c { pending = delete r.req.seq c.pending })
        (clean_call e (lookup r.req.seq c.pending) s)

module _ {V S : Type 0} (codec : IClientCodec V S) where
  open codec use {write_request, flush}

  -- Writes until an error.
  unfoldable pub write_group : List TClientGroupRequest → Store V → S → S × Option GoError
  write_group [] s x = (x, none)
  write_group (r ∷ rest) s x =
      let (y, e) = write_request x r.req (s.calls r.call).args in
      elim e [ none ↦ write_group rest s y | some error ↦ (y, some error) ]

  -- The loop, and then Flush where it wrote everything.
  unfoldable pub write_and_flush : List TClientGroupRequest → Store V → S → S × Option GoError
  unfolding write_group
  write_and_flush group s x =
      let (y, e) = write_group group s x in elim e [ none ↦ flush y | some error ↦ (y, some error) ]

  unfoldable pub after_write :
      S × Option GoError
      → List TClientGroupRequest
      → TClientConn
      → Store V
      → ConnState V S × Option GoError
  unfolding cleanup
  after_write (y, none) group c s = (record { conn = c; codec = y; store = s }, none)
  after_write (y, some e) group c s =
      let (d, t) = cleanup e group c s in (record { conn = d; codec = y; store = t }, some e)

  unfoldable pub send_group_call :
      List TClientGroupRequest → ConnState V S → ConnState V S × Option GoError
  unfolding write_and_flush after_write
  send_group_call group σ = after_write (write_and_flush group σ.store σ.codec) group σ.conn σ.store

  unfoldable pub after_gather : Gathered V → S → ConnState V S × Option GoError
  unfolding send_group_call
  after_gather g x =
      let σ : ConnState V S = record { conn = g.conn; codec = x; store = g.store } in
      if g.closed then (σ, some err_shutdown) else send_group_call g.group σ

  unfoldable pub send_call : ℕ → ConnState V S → ConnState V S × Option GoError
  unfolding add_request gather after_gather fail_call
  send_call call σ =
      let (c, r) = add_request call σ.conn σ.store in
      if σ.conn.shutdown || σ.conn.closing
      then (record σ { store = fail_call err_shutdown call σ.store }, some err_shutdown)
      else after_gather (prepend r (gather unite_package_num c σ.store)) σ.codec

  unfoldable pub send_ping : ConnState V S → ConnState V S × Option GoError
  send_ping σ =
      let (y, e) = write_request σ.codec ping_request_header none in
      elim e [
        | none ↦ (record σ { codec = (flush y).0 }, (flush y).1)
        | some error ↦ (record σ { codec = y }, some error)
      ]

  unfoldable pub on_input : Received ℕ → ConnState V S → ConnState V S × Option GoError
  unfolding send_call
  on_input (received call d) σ =
      send_call call (record σ { store = set_chan σ.conn.input_call_chan d σ.store })
  on_input recv_closed σ = (σ, some err_input_call_chan_closed)
  on_input recv_default σ = (σ, none)

  unfoldable pub on_exit : Received Bool → ConnState V S → ConnState V S × Option GoError
  on_exit (received b d) σ =
      (record σ { conn = record σ.conn { exit_notify = d } }, some err_shutdown)
  on_exit recv_closed σ = (σ, some err_shutdown)
  on_exit recv_default σ = (σ, none)

  -- One round; the loop goes on while there is no error. A case that is not ready is not taken.
  unfoldable pub write_round : WriteEvent → ConnState V S → ConnState V S × Option GoError
  unfolding on_input on_exit send_ping try_recv
  write_round input_ready σ = on_input (try_recv (σ.store.chans σ.conn.input_call_chan)) σ
  write_round ping_timer σ = send_ping σ
  write_round exit_ready σ = on_exit (try_recv σ.conn.exit_notify) σ
