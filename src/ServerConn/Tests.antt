-- ===== src/ServerConn/Tests.antt =====
-- Runs of rpc/server_conn.go over a stream that keeps what was written.
use Prim.Native.String.{◌++◌ as text_append}
use gopl.Prelude.{ℕ, ◌≡◌, refl, true, false, String, none, some, List, [], ◌∷◌, ◌++◌, arith}
use gopl.Prelude.Run.{finished, blocks}
use gopl.Chan.{make}
use gopl.RpcError.{GoError, other, eof, err, ok, error_text}
use gopl.Header.{TRequestHeader, TResponseHeader, has_data, request_is_ping}
use gopl.Call.{zero_call}
use gopl.ClientConn.{ConnState, new_client_conn}
use gopl.ClientConn.Receiving.{skip_body}
use gopl.GobCodec.{
  Message, response, body, Stream, TGobCodec, server_codec, client_codec, read_request_header,
  read_body,
}
use gopl.ServerConn.{TFuncCall, TServerConn, zero_func_call}
use gopl.ServerConn.Responses.{do_call_response, send_group_response}
use gopl.Server.{GoType, get_service_method}
use gopl.ServerConn.Requests.{RoundEnv, next, run_round}
use gopl.ServerConn.Rounds.{IsAnswered, empty_method_blocks, run_round-unknown}
use gopl.ServerConn.Stream.{IsReliable, group_error_desync}

abbrev tape : Stream ℕ (List (Message ℕ))
tape = record {
  encode = λ x m. (x ++ m ∷ [], none);
  decode_request = λ x. (x, err eof);
  decode_response = λ x. (x, err eof);
  decode_body = λ x v. (x, v, some eof);
  flush_buffer = λ x. (x, none);
  close_rwc = λ x. (x, none);
}

tape-IsReliable : IsReliable tape (λ x. x)
tape-IsReliable = record { encodes = λ x m. refl; appends = λ x m. refl; keeps = λ x. refl }

abbrev echo : TRequestHeader
echo = record { service_method = "test.Echo"; seq = 3; flag = 0 }

-- Call 0 returned an error; its reply is 5.
abbrev failed : TFuncCall ℕ
failed = record zero_func_call {
  reply = some 5;
  ret = some (other "no") ∷ [];
  header = echo;
  done = true;
}

abbrev conn : TServerConn ℕ (TGobCodec (List (Message ℕ)))
conn = record {
  codec = record { stream = []; closed = false };
  calls = λ c. failed;
  next_call = 1;
  pool = [];
  done_chan = make 8;
  pending_wg = 1;
}

abbrev peer : ConnState ℕ (TGobCodec (List (Message ℕ)))
peer = record {
  conn = new_client_conn "a:1" 0;
  codec = record { stream = []; closed = false };
  store = record {
    calls = λ c. zero_call;
    next_call = 0;
    pool = [];
    chans = λ ch. make 1;
    next_chan = 0;
  };
}

group_error_desync_example :
    (h : TResponseHeader) × (d : TServerConn ℕ (TGobCodec (List (Message ℕ)))) × (do_call_response
        failed
      ≡ finished h)
    × (send_group_response (server_codec tape) (record { resp = h; call = 0 } ∷ []) conn
        ≡ finished d)
    × (has_data h ≡ false)
    × (d.codec.stream ≡ response h ∷ body 5 ∷ [])
    × (skip_body (client_codec tape) h peer ≡ (peer, none))
unfolding error_text
group_error_desync_example =
    group_error_desync tape (λ x. x) tape-IsReliable 0 5 (other "no") [] conn peer refl refl refl
      (omega arith)

-- Each request header that is read is `h`.
abbrev asking : TRequestHeader → Stream ℕ (List (Message ℕ))
asking h = record tape { decode_request = λ x. (x, ok h) }

asking-IsReliable : (h : TRequestHeader) → IsReliable (asking h) (λ x. x)
asking-IsReliable h = record { encodes = λ x m. refl; appends = λ x m. refl; keeps = λ x. refl }

abbrev nameless : TRequestHeader
nameless = record { service_method = ""; seq = 3; flag = 0 }

abbrev zero_value : GoType → ℕ
zero_value t = 0

abbrev env : RoundEnv ℕ (TGobCodec (List (Message ℕ)))
env = record { deadline = none; running = true; pick = 0; dispatch = λ call c. (c, false, none) }

abbrev stopped : RoundEnv ℕ (TGobCodec (List (Message ℕ)))
stopped = record env { running = false }

abbrev ill_formed : String → GoError
ill_formed s = other (text_append "rpc: service/method request ill-formed: " s)

nameless_asks : request_is_ping nameless ≡ false
unfolding request_is_ping
nameless_asks = refl

nameless_unknown : get_service_method [] "" ≡ err (ill_formed "")
unfolding get_service_method
nameless_unknown = refl

abbrev dotless : TRequestHeader
dotless = record { service_method = "Echo"; seq = 3; flag = 0 }

dotless_asks : request_is_ping dotless ≡ false
unfolding request_is_ping
dotless_asks = refl

dotless_unknown : get_service_method [] "Echo" ≡ err (ill_formed "Echo")
unfolding get_service_method
dotless_unknown = refl

header_read :
    (h : TRequestHeader)
    → (server_codec (asking h)).read_request_header conn.codec ≡ (conn.codec, ok h)
unfolding read_request_header
header_read h = refl

body_read :
    (h : TRequestHeader)
    → ((server_codec (asking h)).read_request_body conn.codec none).0 ≡ conn.codec
unfolding read_body
body_read h = refl

empty_method_blocks_example :
    (d : TServerConn ℕ (TGobCodec (List (Message ℕ)))) × (run_round
        (server_codec (asking nameless))
        zero_value
        env
        []
        conn
      ≡ finished (d, next))
    × (d.pending_wg ≡ 2)
    × (d.codec ≡ ((server_codec (asking nameless)).read_request_body conn.codec none).0)
    × (run_round (server_codec (asking nameless)) zero_value stopped [] d ≡ blocks)
empty_method_blocks_example =
    empty_method_blocks (server_codec (asking nameless)) zero_value [] env stopped conn conn.codec
      nameless (ill_formed "") refl refl refl refl (header_read nameless) nameless_asks
      nameless_unknown refl

run_round-unknown_example :
    (d : TServerConn ℕ (TGobCodec (List (Message ℕ)))) × (run_round
        (server_codec (asking dotless))
        zero_value
        env
        []
        conn
      ≡ finished (d, next))
    × IsAnswered (λ x. x) dotless (error_text (ill_formed "Echo")) [] conn d
run_round-unknown_example =
    run_round-unknown (asking dotless) (λ x. x) (asking-IsReliable dotless) zero_value [] env conn
      [] dotless (ill_formed "Echo") refl refl refl dotless_asks dotless_unknown refl
