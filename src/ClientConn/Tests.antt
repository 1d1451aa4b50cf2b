-- ===== src/ClientConn/Tests.antt =====
-- Runs of rpc/client_conn.go: a connection with one pending call.
use Prim.Native.Char.{code}
use gopl.Prelude.{
  ◌-◌, Option, String, ℕ, suc, ◌≤◌, ◌≡◌, refl, ◌≢◌, true, false, none, some, [], ◌∷◌, arith, All,
  length,
}
use gopl.Prelude.Int.{ℤ, pos}
use gopl.ClientConn.NetAddr.{get_net_addr, get_net_addr_agree}
use gopl.Prelude.Run.{finished}
use gopl.Keys.{nat_eq}
use gopl.GoMap.{lookup}
use gopl.Chan.{make}
use gopl.RpcError.{GoError, error_text, eof, unexpected_eof, can_retry, err, ok}
use gopl.Header.{TResponseHeader, response_is_ping}
use gopl.Codec.{IClientCodec}
use gopl.Call.{Store, zero_call, is_canceled}
use gopl.Client.Calls.{sync_wait}
use gopl.Client.Calls.Failing.{FailedWith}
use gopl.ClientConn.{TClientConn, TClientGroupRequest, ConnState, make_request_header}
use gopl.ClientConn.Pending.{Registers, make_request_header-Registers}
use gopl.ClientConn.Sending.{Gathered, write_and_flush, send_group_call, send_call}
use gopl.ClientConn.Sending.Group.{count_up, group_calls, group_seqs, send_call-unites}
use gopl.ClientConn.Sending.Cleanup.{CleansUp, send_group_call-CleansUp}
use gopl.ClientConn.Receiving.{on_header, on_shut_down, shutdown_error}
use gopl.ClientConn.Receiving.Responses.{response_once, response_error}
use gopl.ClientConn.Receiving.Shutdown.{on_shut_down_once}

-- A codec that has counted the requests; each write fails.
abbrev broken : IClientCodec ℕ ℕ
broken = record {
  write_request = λ n h v. (suc n, some unexpected_eof);
  read_response_header = λ n. (n, err eof);
  read_response_body = λ n v. (n, v, none);
  flush = λ n. (n, none);
  close = λ n. (n, none);
}

-- Two calls wait in the input channel 0.
abbrev store : Store ℕ
store = record {
  calls = λ c. zero_call;
  next_call = 3;
  pool = [];
  chans = λ ch. record { buf = 1 ∷ 2 ∷ []; cap = 8; closed = false };
  next_chan = 1;
}

-- Call 0 is pending under the number 6.
abbrev conn : TClientConn
conn = record {
  addr = "a:1";
  input_call_chan = 0;
  exit_notify = make 1;
  seq = 7;
  pending = (6, 0) ∷ [];
  closing = false;
  shutdown = false;
}

abbrev state : ConnState ℕ ℕ
state = record { conn = conn; codec = 0; store = store }

abbrev request : TClientGroupRequest
request = record { req = record { service_method = "test.Echo"; seq = 6; flag = 0 }; call = 0 }

make_request_header-Registers_example :
    Registers 1 conn (make_request_header 1 conn store).0 (make_request_header 1 conn store).1.seq
make_request_header-Registers_example =
    make_request_header-Registers 1 conn store (record { below = omega arith }) (omega arith)

send_call-unites_example :
    (g : Gathered ℕ) × (send_call broken 0 state
      ≡ send_group_call broken g.group (record { conn = g.conn; codec = 0; store = g.store }))
    × (group_calls g.group ≡ 0 ∷ 1 ∷ 2 ∷ [])
    × (group_seqs g.group ≡ count_up (length g.group) 7)
    × ((g.store.chans 0).buf ≡ [])
    × (length g.group ≤ 101)
send_call-unites_example = send_call-unites broken 0 state refl refl refl

send_group_call-CleansUp_example :
    let w = write_and_flush broken (request ∷ []) store 0 in
    let (τ, e) = send_group_call broken (request ∷ []) state in
    (w.1 ≡ none → (τ ≡ record state { codec = w.0 }) × (e ≡ none))
    × ((x : GoError) → w.1 ≡ some x → (e ≡ some x) × CleansUp x (request ∷ []) conn τ.conn τ.store)
send_group_call-CleansUp_example = send_group_call-CleansUp broken (request ∷ []) state

abbrev failure : TResponseHeader
failure = record { service_method = "test.Echo"; seq = 6; error_msg = "no"; flag = 4 }

not_ping : response_is_ping failure ≡ false
unfolding response_is_ping
not_ping = refl

response_once_example :
    let τ = (on_header broken failure state).0 in
    (lookup 6 τ.conn.pending ≡ none)
    × ((k : ℕ) → 6 ≢ k → lookup k τ.conn.pending ≡ lookup k conn.pending)
    × ((on_header broken failure τ).0.store ≡ τ.store)
response_once_example = response_once broken failure failure state not_ping not_ping refl

found : lookup 6 conn.pending ≡ some 0
unfolding lookup
found = refl

-- A SyncCall waits for the call on channel 3.
abbrev awaited : ConnState ℕ ℕ
awaited = record state {
  store = record store {
    calls = λ c. record (store.calls c) { done = some 3 };
    chans = λ ch. make 1;
  };
}

uncanceled : is_canceled awaited.store 0 ≡ false
unfolding is_canceled
uncanceled = refl

response_error_example :
    let τ = (on_header broken failure awaited).0 in
    (t : Store ℕ) × (e : GoError) × (sync_wait 3 τ.store ≡ finished (some (t, some e)))
    × (error_text e ≡ "no")
    × (can_retry (some e) ≡ false)
    × (lookup 6 τ.conn.pending ≡ none)
    × (t.pool ≡ 0 ∷ store.pool)
response_error_example =
    response_error broken failure awaited 0 3 not_ping found refl refl uncanceled refl

on_shut_down_once_example :
    (d : TClientConn) × (t : Store ℕ) × (on_shut_down eof conn.pending conn store
      ≡ finished (d, t, true))
    × (d.shutdown ≡ true)
    × (d.exit_notify.buf ≡ true ∷ [])
    × All (λ p. FailedWith (shutdown_error eof false) t p.1) conn.pending
    × (on_shut_down unexpected_eof [] d t ≡ finished (d, t, false))
on_shut_down_once_example =
    on_shut_down_once eof unexpected_eof conn.pending [] conn store refl refl

-- A port of one digit.
unfoldable digit : String → Option ℤ
digit String.[] = none
digit (String.◌∷◌ c s) = some (pos (code c - 48))

listens :
    get_net_addr digit (λ path. false) (λ path. none) "/tmp/echo:0" true ≡ ok ("unix", "/tmp/echo")
unfolding get_net_addr digit
listens = refl

get_net_addr_agree_example :
    get_net_addr digit (λ path. false) (λ path. none) "/tmp/echo:0" false ≡ ok ("unix", "/tmp/echo")
get_net_addr_agree_example =
    get_net_addr_agree digit (λ path. false) (λ path. none) "/tmp/echo:0" ("unix", "/tmp/echo")
      listens
