-- ===== src/ClientConn.antt =====
-- rpc/client_conn.go: one connection of a client to a server.
-- The two routines of a connection and its users share it under its mutex: each locked section is
-- a function here. `order` is the order in which the runtime ranges over the pending calls.
pub mod Sending
pub mod Receiving
mod Tests
pub mod Pending
pub mod NetAddr
pub mod Start
pub mod Ownership
use Prim.Native.Nat.{bit_or}
use text.Mathlib.Text.{◌==◌ as text_beq}
use gopl.Prelude.{
  ℕ, zero, suc, ◌+◌, ◌%◌, Bool, true, false, ◌||◌, Option, none, some, String, List, [], ◌∷◌, ◌==◌,
  if◌then◌else◌,
}
use gopl.Prelude.Run.{Run, finished, panics, blocks}
use gopl.Keys.{nat_eq}
use gopl.GoMap.{GoMap, lookup, assign, delete}
use gopl.Chan.{
  Chan, Sent, sent, full, send_panic, Received, received, recv_closed, recv_default, make, try_send,
  try_recv,
}
use gopl.RpcError.{
  GoError, rpc_error, eof, unexpected_eof, other, err_shutdown, err_input_call_chan_closed,
  new_rpc_error, error_type_unknown, error_text, Result, ok, err,
}
use gopl.Header.{
  TRequestHeader, TResponseHeader, request_flag_null, request_flag_ping, request_flag_dummy_return,
  ping_method, response_is_ping, has_data,
}
use gopl.Codec.{IClientCodec}
use gopl.Call.{Store, TCall, set_call, set_chan, set_error, when_call_done}
use gopl.Client.Calls.{fail_call}

pub record TClientConn : Type 0 where
  pub addr : String
  pub input_call_chan : ℕ
  pub exit_notify : Chan Bool
  pub seq : ℕ
  pub pending : GoMap ℕ ℕ
  pub closing : Bool
  pub shutdown : Bool

pub record TClientGroupRequest : Type 0 where
  pub req : TRequestHeader
  pub call : ℕ

unfoldable pub new_client_conn : String → ℕ → TClientConn
new_client_conn addr input_call_chan = record {
  addr = addr;
  input_call_chan = input_call_chan;
  exit_notify = make 1;
  seq = 0;
  pending = [];
  closing = false;
  shutdown = false;
}

-- A connection that was started, with its codec and the calls that it shares.
pub record ConnState (V S : Type 0) : Type 0 where
  pub conn : TClientConn
  pub codec : S
  pub store : Store V

-- A uint64 counts up.
abbrev pub next_seq : ℕ → ℕ
next_seq seq = (seq + 1) % 0x1_0000_0000_0000_0000

module _ {V : Type 0} where
  abbrev pub reply_is_nil : TCall V → Bool
  reply_is_nil c = elim c.reply [ none ↦ true | some v ↦ false ]

  unfoldable pub request_flag : TCall V → ℕ
  request_flag c =
      let dummy =
        if reply_is_nil c
        then bit_or request_flag_null request_flag_dummy_return
        else request_flag_null in
      if text_beq c.sevice_method ping_method then bit_or dummy request_flag_ping else dummy

  unfoldable pub make_request_header : ℕ → TClientConn → Store V → TClientConn × TRequestHeader
  unfolding request_flag
  make_request_header call c s = (
    record c { seq = next_seq c.seq; pending = assign c.seq call c.pending },
    record {
      service_method = (s.calls call).sevice_method;
      seq = c.seq;
      flag = request_flag (s.calls call);
    },
  )
