-- ===== src/ServerConn/Accounts/Tests.antt =====
-- Runs of the routines of rpc/server_conn.go over a stream on which one request waits.
use gopl.Prelude.{All, length, ◌+◌, ◌≤◌, ◌≢◌, ℕ, ◌≡◌, refl, true, false, none, some, [], ◌∷◌, arith}
use gopl.Prelude.Run.{finished, panics}
use gopl.Keys.{text_eq}
use gopl.GoMap.{lookup}
use gopl.RpcError.{other, ok}
use gopl.Header.{TRequestHeader, dummy_return, request_is_ping}
use gopl.Codec.{IServerCodec}
use gopl.Call.{put, take_at}
use gopl.Client.Choose.{remove_first}
use gopl.Server.{GoType, named, ptr, TMethodType, TService, Services, get_service_method}
use gopl.ServerConn.{TFuncCall, TServerConn, zero_func_call, new_server_conn}
use gopl.ServerConn.Responses.{do_call, do_write_response}
use gopl.ServerConn.Requests.{
  next, ended, end_run, RoundEnv, request, spawned, read_request, run_round,
}
use gopl.ServerConn.Sender.{halted, Sender, gathering, is_halted, sender_piece}
use gopl.ServerConn.Accounts.Running.{
  Running, started, handle_next, read_next, Steps, here, next_step, reads, handles, sends, returns,
}
use gopl.ServerConn.Accounts.InOrder.{owing}
use gopl.ServerConn.Accounts.Settled.{IsSettled}
use gopl.ServerConn.Accounts.Closing.{Ending, ended_here, sends_on, closed, stops_cleanly}
use gopl.ServerConn.Accounts.Steps.{never_panics}
use gopl.ServerConn.Accounts.Dispatch.{AnswersTwice, dispatch_error-AnswersTwice}

-- A codec that has read and written so many messages; each request is `h`.
abbrev counting : TRequestHeader → IServerCodec ℕ ℕ
counting h = record {
  read_request_header = λ n. (n, ok h);
  read_request_body = λ n v. (n, some 7, none);
  write_response = λ n h v. (n, none);
  flush = λ n. (n, none);
  close = λ n. (n, none);
}

abbrev echo_type : TMethodType
echo_type = record {
  method = record { name = "Echo"; pkg_path = ""; ins = []; outs = [] };
  arg_type = named "int" "";
  reply_type = ptr (named "int" "");
}

abbrev echo_service : TService
echo_service = record {
  name = "test";
  typ = ptr (named "Echo" "test");
  method = ("Echo", echo_type) ∷ [];
}

abbrev services : Services
services = ("test", echo_service) ∷ []

abbrev asked : TRequestHeader
asked = record { service_method = "test.Echo"; seq = 3; flag = 0 }

-- The peer wants no result.
abbrev told : TRequestHeader
told = record { service_method = "test.Echo"; seq = 3; flag = 4 }

abbrev zero_value : GoType → ℕ
zero_value t = 0

abbrev env : RoundEnv ℕ ℕ
env = record { deadline = none; running = true; pick = 0; dispatch = λ call c. (c, false, none) }

abbrev fresh : TServerConn ℕ ℕ
fresh = record {
  codec = 0;
  calls = λ c. zero_func_call;
  next_call = 0;
  pool = [];
  done_chan = record { buf = []; cap = 8; closed = false };
  pending_wg = 0;
}

abbrev running : TServerConn ℕ ℕ
running =
    let v : TFuncCall ℕ = record zero_func_call {
      method_name = "test.Echo";
      arg = some 7;
      reply = some 0;
      header = asked;
    } in
    record fresh {
      calls = put 0 (record v { done = true }) (put 0 v (put 0 zero_func_call fresh.calls));
      next_call = 1;
      pending_wg = 1;
    }

-- Two requests were read, counted and started.
abbrev begun : Running ℕ ℕ
begun = record (started 0 8) { conn = running; held = 0 ∷ [] }

abbrev begun_twice : Running ℕ ℕ
begun_twice =
    let v = record (running.calls 0) { done = false } in
    record begun {
      conn = record running {
        calls = put 1 (record v { done = true }) (put 1 v (put 1 zero_func_call running.calls));
        next_call = 2;
        pending_wg = 2;
      };
      held = 1 ∷ 0 ∷ [];
    }

abbrev returned : Running ℕ ℕ
returned =
    let c = begun_twice.conn in
    record begun_twice {
      conn = record c {
        calls = put 0 (record (c.calls 0) { ret = none ∷ [] }) c.calls;
        done_chan = record { buf = 0 ∷ []; cap = 8; closed = false };
      };
      held = 1 ∷ [];
    }

-- RoutineWriteResponse has received its call.
abbrev gathered : Running ℕ ℕ
gathered = record returned {
  conn = record returned.conn { done_chan = record { buf = []; cap = 8; closed = false } };
  sender = gathering 100 (
      record {
        resp = record { service_method = "test.Echo"; seq = 3; error_msg = ""; flag = 0 };
        call = 0;
      }
      ∷ []);
}

-- And another request was read.
abbrev after : Running ℕ ℕ
after = record gathered {
  conn = record gathered.conn { pending_wg = 3 };
  reader = some (request asked echo_service echo_type (some 7));
}

reads_asked :
    read_next (counting asked) zero_value services fresh
    ≡ (record fresh { pending_wg = 1 }, request asked echo_service echo_type (some 7))
unfolding read_next read_request request_is_ping get_service_method lookup
reads_asked = refl

begins : Steps (counting asked) zero_value (started 0 8) begun
unfolding read_next handle_next request_is_ping get_service_method lookup dummy_return take_at
    new_server_conn
begins =
    next_step (next_step here (reads services refl))
      (handles env running (spawned 0) (λ x d. refl) refl)

-- The first call runs to its end and is gathered for an answer, while the second runs and another
-- request is read.
proceeds : Steps (counting asked) zero_value (started 0 8) after
unfolding read_next handle_next request_is_ping get_service_method lookup dummy_return take_at
    remove_first do_call sender_piece
proceeds =
    next_step
      (next_step
        (next_step
          (next_step (next_step begins (reads services refl))
            (handles env begun_twice.conn (spawned 1) (λ x d. refl) refl))
          (returns 0 (none ∷ []) returned.conn (omega arith) refl))
        (sends gathered.conn gathered.sender refl))
      (reads services refl)

never_panics_example :
    (length after.conn.done_chan.buf + owing after ≤ after.conn.pending_wg)
    × ((d : TServerConn ℕ ℕ) × (s : Sender) × (sender_piece (counting asked) after.sender after.conn
          ≡ finished (d, s))
        × (is_halted s ≡ false))
    × (handle_next (counting asked) zero_value env after.reader after.conn ≢ panics)
    × All (λ x. do_call x [] after.conn ≢ panics) (1 ∷ [])
never_panics_example =
    never_panics (counting asked) zero_value 0 8 after env [] proceeds (λ x d. refl)

abbrev failing : RoundEnv ℕ ℕ
failing = record env { dispatch = λ call c. (c, false, some (other "busy")) }

reads_told :
    read_request (counting told) zero_value services 0
    ≡ (0, request told echo_service echo_type (some 7))
unfolding read_request request_is_ping get_service_method lookup
reads_told = refl

told_wants_none : dummy_return told ≡ true
unfolding dummy_return
told_wants_none = refl

-- Another request is pending.
dispatch_error-AnswersTwice_example :
    (d : TServerConn ℕ ℕ) × (run_round
        (counting told)
        zero_value
        failing
        services
        (record fresh { pending_wg = 1 })
      ≡ finished (record d { pending_wg = 0 }, next))
    × AnswersTwice (counting told) told 0 (other "busy") 0 d.codec
dispatch_error-AnswersTwice_example =
    dispatch_error-AnswersTwice (counting told) zero_value failing services
      (record fresh { pending_wg = 1 }) 0 told echo_service echo_type (some 7) (other "busy") refl
      refl (λ z d. (false, refl)) reads_told told_wants_none refl refl

-- A request whose result is not wanted was answered, and its method runs.
abbrev busy : Running ℕ ℕ
busy = record (started 0 8) {
  conn = record fresh {
    calls =
        let v : TFuncCall ℕ = record zero_func_call {
          method_name = "test.Echo";
          arg = some 7;
          reply = some 0;
          header = told;
        } in
        put 0 v (put 0 zero_func_call fresh.calls);
    next_call = 1;
  };
  held = 0 ∷ [];
}

gets_busy : Steps (counting told) zero_value (started 0 8) busy
unfolding read_next handle_next request_is_ping get_service_method lookup dummy_return take_at
    new_server_conn do_write_response
gets_busy =
    next_step (next_step here (reads services refl))
      (handles env busy.conn (spawned 0) (λ x d. refl) refl)

abbrev stopping : RoundEnv ℕ ℕ
stopping = record env { running = false }

waits_no_more :
    run_round (counting told) zero_value stopping services busy.conn ≡ finished (busy.conn, ended)
unfolding run_round request_is_ping get_service_method lookup
waits_no_more = refl

-- RoutineWriteResponse has found doneChan closed.
abbrev left : Running ℕ ℕ
left = record busy { conn = closed (counting told) busy.conn; sender = halted }

goes_left : Ending (counting told) (record busy { conn = closed (counting told) busy.conn }) left
unfolding sender_piece
goes_left = sends_on left.conn halted ended_here refl

stops_cleanly_example :
    IsSettled busy
    × (end_run (counting told) busy.conn ≡ finished (closed (counting told) busy.conn))
    × ((e : TServerConn ℕ ℕ) × (s : Sender) × (sender_piece (counting told) left.sender left.conn
          ≡ finished (e, s)))
    × All (λ x. (e : TServerConn ℕ ℕ) × (do_call x [] left.conn ≡ finished e)) (0 ∷ [])
stops_cleanly_example =
    stops_cleanly (counting told) zero_value 0 8 busy left stopping services busy.conn [] gets_busy
      refl refl waits_no_more goes_left
