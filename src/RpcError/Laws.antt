-- ===== src/RpcError/Laws.antt =====
-- How the three classifications of rpc/error.go agree.
use gopl.Prelude.{◌≡◌, true, ◌||◌, Option, none, some, arith}
use gopl.RpcError.{
  GoError, rpc_error, rpc_error_ptr, is_rpc_error, is_rpc_error_type, can_retry,
  error_type_server_connect_failed, error_type_chan_full, error_type_shutdown,
}

-- An error may be retried exactly when its type, read through IsRpcErrorType, is one of the three
-- that mean the request was not sent; and then it is one of the library's errors.
can_retry_lem :
    (e : Option GoError)
    → (can_retry e ≡ (
        is_rpc_error_type e error_type_server_connect_failed
        || is_rpc_error_type e error_type_chan_full
        || is_rpc_error_type e error_type_shutdown))
      × (can_retry e ≡ true → is_rpc_error e ≡ true)
unfolding can_retry is_rpc_error_type is_rpc_error
can_retry_lem none = ground arith
can_retry_lem (some (rpc_error e)) = ground arith
can_retry_lem (some (rpc_error_ptr e)) = ground arith
can_retry_lem (some e) = ground arith
