-- ===== src/Exchange/Tests.antt =====
-- A group of two answers of rpc/server_conn.go and the client of rpc/client_conn.go that reads it.
mod Group
use gopl.Prelude.{
  ℕ, zero, suc, ◌+◌, ◌≡◌, refl, false, true, Option, none, some, List, [], ◌∷◌, ◌++◌, arith,
}
use gopl.Prelude.Run.{finished}
use gopl.Keys.{nat_eq}
use gopl.GoMap.{lookup, delete}
use gopl.Chan.{make, try_send}
use gopl.RpcError.{GoError, Result, eof, ok, err}
use gopl.Header.{TRequestHeader, TResponseHeader, request_is_ping}
use gopl.Call.{TCall, zero_call, when_call_done}
use gopl.ClientConn.{ConnState, new_client_conn}
use gopl.ClientConn.Receiving.{read_responses}
use gopl.GobCodec.{Message, response, body, Stream, TGobCodec, server_codec, client_codec}
use gopl.ServerConn.{TFuncCall, TServerConn, zero_func_call, new_server_conn, returned_error}
use gopl.ServerConn.Responses.{do_write_response}
use gopl.ServerConn.Stream.{IsReliable}
use gopl.Exchange.{Served, nobody, serves, wire, waiting, answer}
use gopl.Exchange.Reading.{IsWire, IsClient}
use gopl.Exchange.Arriving.{replies_arrive}

abbrev Tape : Type 0
Tape = List (Message ℕ)

abbrev pop_response : Tape → Tape × Result TResponseHeader
pop_response (response h ∷ rest) = (rest, ok h)
pop_response x = (x, err eof)

abbrev pop_body : Tape → Option ℕ → Tape × Option ℕ × Option GoError
pop_body (body v ∷ rest) o = (rest, some v, none)
pop_body x o = (x, o, some eof)

-- What is written goes to the end, what is read comes from the head.
abbrev tape : Stream ℕ Tape
tape = record {
  encode = λ x m. (x ++ m ∷ [], none);
  decode_request = λ x. (x, err eof);
  decode_response = pop_response;
  decode_body = pop_body;
  flush_buffer = λ x. (x, none);
  close_rwc = λ x. (x, none);
}

tape-IsReliable : IsReliable tape (λ x. x)
tape-IsReliable = record { encodes = λ x m. refl; appends = λ x m. refl; keeps = λ x. refl }

tape-IsWire : IsWire tape (λ o v. some v) (λ x. x)
tape-IsWire = record {
  headers = λ x h rest e. rw e (refl, refl);
  bodies = λ x v rest o e. rw e (refl, refl, refl);
}

abbrev echo : ℕ → TRequestHeader
echo seq = record { service_method = "test.Echo"; seq = seq; flag = 0 }

-- The request with the number n asks for n + 2.
abbrev asked : ℕ → TFuncCall ℕ
asked n = record zero_func_call {
  method_name = "test.Echo";
  reply = some (n + 2);
  header = echo n;
  done = true;
}

-- Call 0 answers the request 4, all others the request 3.
abbrev calls : ℕ → TFuncCall ℕ
calls zero = asked 4
calls (suc n) = asked 3

abbrev server : TServerConn ℕ (TGobCodec Tape)
server = record (new_server_conn (record { stream = []; closed = false }) 8) {
  calls = calls;
  next_call = 2;
  pending_wg = 2;
}

abbrev answers : List (TRequestHeader × ℕ)
answers = (echo 3, 5) ∷ (echo 4, 6) ∷ []

abbrev waits : TCall ℕ
waits = record zero_call { reply = some 0; done = some 1 }

abbrev client : ConnState ℕ (TGobCodec Tape)
client = record {
  conn = record (new_client_conn "a:1" 0) { seq = 5; pending = (3, 0) ∷ (4, 1) ∷ [] };
  codec = record { stream = wire answers; closed = false };
  store = record {
    calls = λ x. waits;
    next_call = 2;
    pool = [];
    chans = λ ch. make 8;
    next_chan = 2;
  };
}

both : Served server.calls (1 ∷ 0 ∷ []) answers
unfolding new_server_conn returned_error request_is_ping
both =
    serves 1 (echo 3) 5 refl refl refl refl refl
      (serves 0 (echo 4) 6 refl refl refl refl refl nobody)

-- The spec's run finishes both calls.
answer_lem :
    let (c, s) = answer (λ o v. some v) answers client.conn client.store in
    (c.pending ≡ []) × ((s.chans 1).buf ≡ 0 ∷ 1 ∷ []) × ((s.calls 0).reply ≡ some 5)
unfolding answer lookup delete when_call_done try_send new_client_conn
answer_lem = (refl, refl, refl)

replies_arrive_example :
    let done = answer (λ o v. some v) answers client.conn client.store in
    (d : TServerConn ℕ (TGobCodec Tape)) × (τ : ConnState ℕ (TGobCodec Tape)) × (do_write_response
        (server_codec tape)
        1
        (waiting (0 ∷ []) server)
      ≡ finished (d, true))
    × (d.codec.stream ≡ wire answers)
    × (d.pending_wg + 2 ≡ 2)
    × (read_responses (client_codec tape) 2 client ≡ read_responses (client_codec tape) 0 τ)
    × IsClient (λ x. x) done.0 done.1 [] τ
unfolding new_server_conn
replies_arrive_example =
    replies_arrive tape (λ x. x) tape-IsReliable tape (λ o v. some v) (λ x. x) tape-IsWire 1
      (0 ∷ []) answers server [] 0 client both (omega arith) (omega arith) refl
