-- ===== src/ServerConn/Requests.antt =====
-- rpc/server_conn.go: ReadRequest, and a round of RoutineRun.
-- `new_value` is reflect.New, `dispatch` the function that the server's user sets.
use Prim.Native.String.{◌++◌ as text_append}
use text.Mathlib.Text.{◌==◌ as text_beq}
use gopl.Prelude.{ℕ, suc, ◌+◌, Bool, true, false, Option, none, some, List, ◌==◌, if◌then◌else◌}
use gopl.Prelude.Run.{Run, finished, panics, blocks, ◌>>=◌}
use gopl.Chan.{received, recv_closed, recv_default, try_recv}
use gopl.RpcError.{GoError, eof, unexpected_eof, other, error_text, Result, ok, err}
use gopl.Header.{TRequestHeader, request_is_ping, dummy_return}
use gopl.Codec.{IServerCodec}
use gopl.Call.{put, take_at}
use gopl.Server.{GoType, TMethodType, TService, Services, get_service_method}
use gopl.ServerConn.{TServerConn, zero_func_call}
use gopl.ServerConn.Responses.{do_write_response, send_response}

-- What ReadRequest returns: an error at which reading stops; a header that was read and an error
-- after it; a ping; or a request with its argument.
pub data Read (V : Type 0) : Type 0 where
  no_header : GoError → Read V
  bad_request : TRequestHeader → GoError → Read V
  ping : TRequestHeader → Read V
  request : TRequestHeader → TService → TMethodType → Option V → Read V

-- How a round of RoutineRun ends: the loop goes on, goes on with a routine started for a call, or
-- ends.
pub data Round : Type 0 where
  next : Round
  spawned : ℕ → Round
  ended : Round

unfoldable pub header_error : GoError → GoError
header_error eof = eof
header_error unexpected_eof = unexpected_eof
header_error e = other (text_append "server cannot decode request: " (error_text e))

module _ {V S : Type 0} (codec : IServerCodec V S) (new_value : GoType → V) where
  open codec use {read_request_header, read_request_body}

  -- The body of a request whose header was bad is read into nothing.
  unfoldable pub with_method : Result (TService × TMethodType) → TRequestHeader → S → S × Read V
  with_method (err e) h x = ((read_request_body x none).0, bad_request h e)
  with_method (ok (s, mtype)) h x =
      let (y, arg, e) = read_request_body x (some (new_value mtype.arg_type)) in
      (y, elim e [ none ↦ request h s mtype arg | some error ↦ bad_request h error ])

  unfoldable pub with_header : Services → S × Result TRequestHeader → S × Read V
  unfolding with_method get_service_method request_is_ping header_error
  with_header services (x, err e) = (x, no_header (header_error e))
  with_header services (x, ok h) =
      if request_is_ping h
      then (x, ping h)
      else with_method (get_service_method services h.service_method) h x

  unfoldable pub read_request : Services → S → S × Read V
  unfolding with_header
  read_request services x = with_header services (read_request_header x)

module _ {V S : Type 0} where
  -- NewFuncCall, where the pool hands out its call `i` or a new one.
  unfoldable pub new_func_call : Option (ℕ × List ℕ) → TServerConn V S → TServerConn V S × ℕ
  new_func_call (some (call, rest)) c = (record c { pool = rest }, call)
  new_func_call none c = (
    record c { calls = put c.next_call zero_func_call c.calls; next_call = suc c.next_call },
    c.next_call,
  )

-- FDispatchCall: it says whether it took the call, and may fail.
abbrev pub FDispatchCall : Type 0 → Type 0 → Type 0
FDispatchCall V S = ℕ → TServerConn V S → TServerConn V S × Bool × Option GoError

-- The method dispatchRequest of TServer; `none` means that SetDispatchFunc was not called.
abbrev pub dispatch_request : {V S : Type 0} → Option (FDispatchCall V S) → FDispatchCall V S
dispatch_request none call c = (c, false, none)
dispatch_request (some f) call c = f call c

-- The method SetDispatchFunc, on that field of the server.
abbrev pub set_dispatch_func :
    {V S : Type 0} → FDispatchCall V S → Option (FDispatchCall V S) → Option (FDispatchCall V S)
set_dispatch_func f old = some f

-- What the environment decides in a round: whether SetReadDeadline fails, whether the server still
-- runs when the request was read, which call the pool hands out, and what dispatchRequest does.
pub record RoundEnv (V S : Type 0) : Type 0 where
  pub deadline : Option GoError
  pub running : Bool
  pub pick : ℕ
  pub dispatch : FDispatchCall V S

module _ {V S : Type 0} where
  -- pendingWg.Wait(), which blocks until the counter is zero.
  unfoldable pub wait_pending : TServerConn V S → Run (TServerConn V S × Round)
  wait_pending c = if c.pending_wg == 0 then finished (c, ended) else blocks

module _ {V S : Type 0} (codec : IServerCodec V S) where
  open codec use {close}

  unfoldable pub after_dispatch :
      TRequestHeader → ℕ → TServerConn V S × Bool × Option GoError → Run (TServerConn V S × Round)
  unfolding send_response
  after_dispatch h call (c, b, some e) = do
    d ← send_response codec h none (error_text e) c
    finished (d, next)
  after_dispatch h call (c, b, none) = finished (c, if b then next else spawned call)

  -- Where the peer wants no result, the response is written before the method is called.
  unfoldable pub start_call :
      RoundEnv V S → TRequestHeader → ℕ → TServerConn V S → Run (TServerConn V S × Round)
  unfolding after_dispatch do_write_response dummy_return
  start_call env h call c =
      let early =
        do_write_response codec call c >>= λ p. after_dispatch h call (env.dispatch call p.0) in
      let later = record c { calls = put call (record (c.calls call) { done = true }) c.calls } in
      if dummy_return h then early else after_dispatch h call (env.dispatch call later)

  -- After the loop: close(doneChan), which panics where it is closed, and codec.Close().
  unfoldable pub end_run : TServerConn V S → Run (TServerConn V S)
  end_run c =
      if c.done_chan.closed
      then panics
      else finished
          (record c { done_chan = record c.done_chan { closed = true }; codec = (close c.codec).0 })

  -- What the deferred function of RoutineRun does when it recovers from a panic.
  abbrev pub recover_run : TServerConn V S → Run (TServerConn V S)
  unfolding end_run
  recover_run c = end_run c

  -- A round of RoutineWriteResponse, which goes on while the second value is `true`. An empty
  -- channel is waited for.
  unfoldable pub write_response_round : TServerConn V S → Run (TServerConn V S × Bool)
  unfolding do_write_response try_recv
  write_response_round c = elim (try_recv c.done_chan) [
    | received call d ↦ do_write_response codec call (record c { done_chan = d })
    | recv_closed ↦ finished (c, false)
    | recv_default ↦ finished (c, true)
  ]

module _ {V S : Type 0} (codec : IServerCodec V S) (new_value : GoType → V) where
  unfoldable pub handle : RoundEnv V S → Read V → TServerConn V S → Run (TServerConn V S × Round)
  unfolding send_response new_func_call start_call take_at
  handle env (no_header e) c = finished (c, ended)
  handle env (bad_request h e) c =
      let answered = send_response codec h none (error_text e) c >>= λ d. finished (d, next) in
      if text_beq h.service_method "" then finished (c, next) else answered
  handle env (ping h) c = send_response codec h none "" c >>= λ d. finished (d, next)
  handle env (request h s mtype arg) c =
      let (d, call) = new_func_call (take_at env.pick c.pool) c in
      start_call codec env h call (record d {
        calls =
            put call
              (record (d.calls call) {
                method_name = h.service_method;
                arg = arg;
                reply = some (new_value mtype.reply_type);
                header = h;
                done = false;
              })
              d.calls;
      })

  unfoldable pub run_round :
      RoundEnv V S → Services → TServerConn V S → Run (TServerConn V S × Round)
  unfolding read_request handle wait_pending
  run_round env services c =
      let (x, r) = read_request codec new_value services c.codec in
      let d = record c { codec = x } in
      let go =
        if env.running
        then handle env r (record d { pending_wg = d.pending_wg + 1 })
        else wait_pending d in
      elim env.deadline [ none ↦ go | some e ↦ finished (c, ended) ]
