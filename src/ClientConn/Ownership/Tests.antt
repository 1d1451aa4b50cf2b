-- ===== src/ClientConn/Ownership/Tests.antt =====
-- A run of rpc/client_conn.go: a user makes a call and queues it, and its response is read before
-- the flush of the request reports an error.
use gopl.Prelude.{ℕ, suc, ◌≡◌, refl, none, some, [], ◌∷◌}
use gopl.Prelude.Int.{pos}
use gopl.GoMap.{lookup, assign, delete}
use gopl.Chan.{make, try_recv}
use gopl.RpcError.{GoError, other, ok}
use gopl.Header.{TResponseHeader, response_is_ping}
use gopl.Codec.{IClientCodec}
use gopl.Call.{TCall, zero_call, set_call, new_call, when_call_done}
use gopl.ClientConn.{TClientGroupRequest, ConnState, new_client_conn}
use gopl.ClientConn.Sending.{write_and_flush}
use gopl.ClientConn.Receiving.{dispatch}
use gopl.ClientConn.Ownership.Users.{enqueued}
use gopl.ClientConn.Ownership.Routines.{
  selecting, reading, stopped, lock_call, lock_cleanup, lock_response,
}
use gopl.ClientConn.Ownership.Steps.{
  Running, with_store, got, locked, responded, answered, wrote, cleaned, Steps,
}

abbrev header : TResponseHeader
header = record { service_method = "test.Echo"; seq = 0; error_msg = ""; flag = 0 }

abbrev broken_pipe : GoError
broken_pipe = other "broken pipe"

-- A codec that answers the request with the number 0, and cannot flush.
abbrev codec : IClientCodec ℕ ℕ
codec = record {
  write_request = λ n h v. (suc n, none);
  read_response_header = λ n. (suc n, ok header);
  read_response_body = λ n v. (suc n, some n, none);
  flush = λ n. (n, some broken_pipe);
  close = λ n. (n, none);
}

-- A new connection, whose input channel is 0.
abbrev conn_state : ConnState ℕ ℕ
conn_state = record {
  conn = new_client_conn "a:1" 0;
  codec = 0;
  store = record {
    calls = λ x. zero_call;
    next_call = 0;
    pool = [];
    chans = λ ch. make 8;
    next_chan = 2;
  };
}

abbrev filled : TCall ℕ
filled = record {
  sevice_method = "test.Echo";
  args = some 1;
  reply = none;
  extra = none;
  error = none;
  done = some 1;
  start_time = 7;
  cancel = pos 0;
}

abbrev request : TClientGroupRequest
request = record { req = record { service_method = "test.Echo"; seq = 0; flag = 4 }; call = 0 }

abbrev start : Running ℕ ℕ
start = record { state = conn_state; writer = selecting; reader = reading }

abbrev made : Running ℕ ℕ
made = with_store (new_call 0 7 start.state.store).0 start

abbrev ready : Running ℕ ℕ
ready = with_store (set_call 0 filled made.state.store) made

abbrev queued : Running ℕ ℕ
queued = with_store (enqueued 0 ready.state.conn ready.state.store) ready

abbrev received : Running ℕ ℕ
received = got 0 [] queued

abbrev written : Running ℕ ℕ
written = locked (lock_call 0 received.state.conn received.state.store) received

abbrev arrived : Running ℕ ℕ
arrived = responded 1 (lock_response header written.state.conn) written

abbrev finished : Running ℕ ℕ
finished = answered (dispatch codec (some 0) header arrived.state) arrived

abbrev failed : Running ℕ ℕ
failed =
    wrote (request ∷ [])
      (write_and_flush codec (request ∷ []) finished.state.store finished.state.codec) finished

abbrev swept : Running ℕ ℕ
swept = cleaned (lock_cleanup broken_pipe request [] failed.state.conn) failed

abbrev after : Running ℕ ℕ
after = record swept { writer = stopped }

-- The call was announced on its own channel 1, once, and nothing is pending.
after_lem : ((after.state.store.chans 1).buf ≡ 0 ∷ []) × (after.state.conn.pending ≡ [])
unfolding response_is_ping lock_call lock_response lock_cleanup dispatch when_call_done
    new_client_conn assign lookup delete new_call write_and_flush try_recv
after_lem = (refl, refl)
