-- ===== src/ServerConn.antt =====
-- rpc/server_conn.go: the responses of a connection of the server.
-- Calls of methods are shared by pointer and pooled as those of the client are: a call is known
-- by its number.
pub mod Responses
pub mod Sender
pub mod Stream
pub mod Requests
pub mod Rounds
pub mod Accounts
mod Tests
use Prim.Native.Nat.{bit_or}
use text.Mathlib.Text.{◌==◌ as text_beq}
use gopl.Prelude.{
  ℕ, zero, suc, Bool, true, false, not, Option, none, some, String, List, [], ◌∷◌, if◌then◌else◌,
}
use gopl.Chan.{Chan, make}
use gopl.RpcError.{GoError, error_text}
use gopl.Header.{
  TRequestHeader, TResponseHeader, request_is_ping, response_flag_null, response_flag_ping,
  response_flag_no_data,
}
use gopl.Call.{put}

-- `ret` are the results of the method, errors or nil; a `reply` of `none` is the zero value of
-- reflect, whose Interface() panics. `done` says whether the channel Done is set.
pub record TFuncCall (V : Type 0) : Type 0 where
  pub method_name : String
  pub arg : Option V
  pub reply : Option V
  pub ret : List (Option GoError)
  pub header : TRequestHeader
  pub done : Bool

pub record TServerGroupResponse : Type 0 where
  pub resp : TResponseHeader
  pub call : ℕ

-- A connection, with the calls that it shares. `pending_wg` is the counter of the WaitGroup.
pub record TServerConn (V S : Type 0) : Type 0 where
  pub codec : S
  pub calls : ℕ → TFuncCall V
  pub next_call : ℕ
  pub pool : List ℕ
  pub done_chan : Chan ℕ
  pub pending_wg : ℕ

abbrev pub add_flag : Bool → ℕ → ℕ → ℕ
add_flag test bit flag = if test then bit_or flag bit else flag

-- The text of the error that a method returned.
unfoldable pub returned_error : List (Option GoError) → String
returned_error [] = ""
returned_error (none ∷ rest) = ""
returned_error (some e ∷ rest) = error_text e

module _ {V : Type 0} where
  -- TFuncCall{}, to which Reset sets a call.
  abbrev pub zero_func_call : TFuncCall V
  zero_func_call = record {
    method_name = "";
    arg = none;
    reply = none;
    ret = [];
    header = record { service_method = ""; seq = 0; flag = 0 };
    done = false;
  }

  -- The method needSendRespWhenDone: Done is not nil.
  abbrev pub need_send_resp_when_done : TFuncCall V → Bool
  need_send_resp_when_done call = call.done

  abbrev pub is_nil : Option V → Bool
  is_nil none = true
  is_nil (some v) = false

  -- An error text drops the reply.
  unfoldable pub make_resp_header : TRequestHeader → Option V → String → TResponseHeader
  make_resp_header h reply errmsg =
      let failed = not (text_beq errmsg "") in
      record {
        service_method = h.service_method;
        seq = h.seq;
        error_msg = errmsg;
        flag =
            add_flag (is_nil (if failed then none else reply)) response_flag_no_data
              (add_flag (request_is_ping h) response_flag_ping response_flag_null);
      }

module _ {V S : Type 0} where
  unfoldable pub free_func_call : ℕ → TServerConn V S → TServerConn V S
  free_func_call call c = record c { calls = put call zero_func_call c.calls; pool = call ∷ c.pool }

module _ {V S : Type 0} where
  -- NewServerConn, for the codec that its factory makes. A doneChan of capacity 0 would take nothing
  -- here, where Go hands a call over to a routine that waits.
  unfoldable pub new_server_conn : S → ℕ → TServerConn V S
  new_server_conn codec max_wait_resp = record {
    codec = codec;
    calls = λ c. zero_func_call;
    next_call = 0;
    pool = [];
    done_chan = make max_wait_resp;
    pending_wg = 0;
  }
