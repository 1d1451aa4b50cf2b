-- ===== src/RpcError.antt =====
-- rpc/error.go: the library's errors, and which of them may be retried.
pub mod Laws
use gopl.Prelude.{◌≡◌, Bool, true, false, ◌||◌, Option, none, some, String}
use gopl.Prelude.Int.{ℤ, pos, eqb_ℤ}

abbrev pub error_type_ok : ℤ
error_type_ok = pos 0

abbrev pub error_type_unknown : ℤ
error_type_unknown = pos 1

abbrev pub error_type_no_server : ℤ
error_type_no_server = pos 2

abbrev pub error_type_server_pause : ℤ
error_type_server_pause = pos 3

abbrev pub error_type_server_connect_failed : ℤ
error_type_server_connect_failed = pos 4

abbrev pub error_type_chan_full : ℤ
error_type_chan_full = pos 5

abbrev pub error_type_input_call_chan_closed : ℤ
error_type_input_call_chan_closed = pos 6

abbrev pub error_type_shutdown : ℤ
error_type_shutdown = pos 7

abbrev pub error_type_request_timeout : ℤ
error_type_request_timeout = pos 8

pub record TRpcError : Type 0 where
  pub typ : ℤ
  pub msg : String

abbrev pub new_rpc_error : ℤ → String → TRpcError
new_rpc_error typ msg = record { typ = typ; msg = msg }

-- A non-nil Go `error`: the library's own, as a value or behind a pointer; the two errors of
-- package io that the code compares with; any other one with its text. A nil is `none`.
pub data GoError : Type 0 where
  rpc_error : TRpcError → GoError
  rpc_error_ptr : TRpcError → GoError
  eof : GoError
  unexpected_eof : GoError
  other : String → GoError

abbrev pub err_no_server : GoError
err_no_server = rpc_error (new_rpc_error error_type_no_server "not connect to any server")

abbrev pub err_server_pause : GoError
err_server_pause = rpc_error (new_rpc_error error_type_server_pause "server pause")

abbrev pub err_server_connect_failed : GoError
err_server_connect_failed =
    rpc_error (new_rpc_error error_type_server_connect_failed "failed when connecting to server")

abbrev pub err_chan_full : GoError
err_chan_full = rpc_error (new_rpc_error error_type_chan_full "call chan full")

abbrev pub err_input_call_chan_closed : GoError
err_input_call_chan_closed =
    rpc_error (new_rpc_error error_type_input_call_chan_closed "client input call chan closed")

abbrev pub err_shutdown : GoError
err_shutdown = rpc_error (new_rpc_error error_type_shutdown "connection is shut down")

abbrev pub err_request_timeout : GoError
err_request_timeout = rpc_error (new_rpc_error error_type_request_timeout "request time out")

unfoldable pub is_rpc_error : Option GoError → Bool
is_rpc_error (some (rpc_error_ptr e)) = true
is_rpc_error (some (rpc_error e)) = true
is_rpc_error _ = false

unfoldable pub is_rpc_error_type : Option GoError → ℤ → Bool
is_rpc_error_type (some (rpc_error_ptr e)) typ = eqb_ℤ e.typ typ
is_rpc_error_type (some (rpc_error e)) typ = eqb_ℤ e.typ typ
is_rpc_error_type _ typ = false

-- The method CanRetry.
can_retry_type : TRpcError → Bool
can_retry_type e =
    eqb_ℤ e.typ error_type_server_connect_failed
    || eqb_ℤ e.typ error_type_chan_full
    || eqb_ℤ e.typ error_type_shutdown

-- The function canRetry.
unfoldable pub can_retry : Option GoError → Bool
unfolding can_retry_type
can_retry (some (rpc_error_ptr e)) = can_retry_type e
can_retry (some (rpc_error e)) = can_retry_type e
can_retry _ = false

-- The method Error of each kind of error.
unfoldable pub error_text : GoError → String
error_text (rpc_error e) = e.msg
error_text (rpc_error_ptr e) = e.msg
error_text eof = "EOF"
error_text unexpected_eof = "unexpected EOF"
error_text (other s) = s

-- A pair of a result and an error, of which the code looks at one.
pub data Result {ℓ} (A : Type ℓ) : Type ℓ where
  ok : A → Result A
  err : GoError → Result A
