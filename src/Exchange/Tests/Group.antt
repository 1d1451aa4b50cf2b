-- ===== src/Exchange/Tests/Group.antt =====
-- A group of two calls of rpc/client_conn.go, served by rpc/server_conn.go and answered.
use gopl.Prelude.{
  ℕ, ◌*◌, ◌+◌, ◌≡◌, refl, true, false, Option, none, some, List, [], ◌∷◌, ◌++◌, arith,
}
use gopl.Prelude.Run.{finished}
use gopl.Keys.{text_eq}
use gopl.GoMap.{lookup}
use gopl.Chan.{make}
use gopl.RpcError.{GoError, Result, eof, ok, err}
use gopl.Header.{TRequestHeader, TResponseHeader, request_is_ping, dummy_return}
use gopl.Call.{TCall, zero_call}
use gopl.Server.{GoType, named, ptr, TMethodType, Services, get_service_method}
use gopl.ClientConn.{TClientGroupRequest, ConnState, new_client_conn}
use gopl.ClientConn.Sending.{send_group_call}
use gopl.ClientConn.Receiving.{read_responses}
use gopl.GobCodec.{Message, request, response, body, Stream, TGobCodec, server_codec, client_codec}
use gopl.ServerConn.{TServerConn, new_server_conn}
use gopl.ServerConn.Requests.{RoundEnv}
use gopl.ServerConn.Stream.{IsReliable}
use gopl.ServerConn.Accounts.{IsAccounted}
use gopl.Exchange.{wire, answer}
use gopl.Exchange.Reading.{IsWire, IsClient}
use gopl.Exchange.Asking.{nobody, asks, asked}
use gopl.Exchange.Serving.{IsServing}
use gopl.Exchange.Requests.{IsDuplex, IsServed}
use gopl.Exchange.RoundTrip.{round_trip}
use gopl.Exchange.Serve.{serve, Serves}

abbrev Messages : Type 0
Messages = List (Message ℕ)

-- What was written, and what arrived.
record Wires : Type 0 where
  out : Messages
  inbox : Messages

abbrev pop_request : Wires → Messages → Wires × Result TRequestHeader
pop_request x (request h ∷ rest) = (record x { inbox = rest }, ok h)
pop_request x l = (x, err eof)

abbrev pop_response : Wires → Messages → Wires × Result TResponseHeader
pop_response x (response h ∷ rest) = (record x { inbox = rest }, ok h)
pop_response x l = (x, err eof)

abbrev pop_body : Wires → Option ℕ → Messages → Wires × Option ℕ × Option GoError
pop_body x o (body v ∷ rest) = (record x { inbox = rest }, some v, none)
pop_body x o l = (x, o, some eof)

abbrev wires : Stream ℕ Wires
wires = record {
  encode = λ x m. (record x { out = x.out ++ m ∷ [] }, none);
  decode_request = λ x. pop_request x x.inbox;
  decode_response = λ x. pop_response x x.inbox;
  decode_body = λ x o. pop_body x o x.inbox;
  flush_buffer = λ x. (x, none);
  close_rwc = λ x. (x, none);
}

abbrev out : Wires → Messages
out x = x.out

abbrev inbox : Wires → Messages
inbox x = x.inbox

wires-IsReliable : IsReliable wires out
wires-IsReliable = record { encodes = λ x m. refl; appends = λ x m. refl; keeps = λ x. refl }

abbrev merge : Option ℕ → ℕ → Option ℕ
merge o v = some v

wires-IsWire : IsWire wires merge inbox
wires-IsWire = record {
  headers = λ x h rest e. rw e (refl, refl);
  bodies = λ x v rest o e. rw e (refl, refl, refl);
}

wires-IsDuplex : IsDuplex wires merge out inbox
wires-IsDuplex = record {
  requests = λ x h rest e. rw e (refl, refl, refl);
  bodies = λ x v rest o e. rw e (refl, refl, refl, refl);
}

abbrev echo_type : TMethodType
echo_type = record {
  method = record { name = "Echo"; pkg_path = ""; ins = []; outs = [] };
  arg_type = named "int" "";
  reply_type = ptr (named "int" "");
}

abbrev services : Services
services =
    (
      "test",
      record { name = "test"; typ = ptr (named "Echo" "test"); method = ("Echo", echo_type) ∷ [] },
    )
    ∷ []

abbrev echo : ℕ → TRequestHeader
echo seq = record { service_method = "test.Echo"; seq = seq; flag = 0 }

-- The method adds two.
abbrev method : TRequestHeader → Option ℕ → ℕ
method h none = 0
method h (some v) = v + 2

abbrev zero_value : GoType → ℕ
zero_value t = 0

abbrev requests : List (TRequestHeader × ℕ)
requests = (echo 3, 30) ∷ (echo 4, 40) ∷ []

abbrev answers : List (TRequestHeader × ℕ)
answers = (echo 3, 32) ∷ (echo 4, 42) ∷ []

abbrev group : List TClientGroupRequest
group = record { req = echo 3; call = 0 } ∷ record { req = echo 4; call = 1 } ∷ []

-- The call k asks for 30 or 40.
abbrev calls : ℕ → TCall ℕ
calls k = record zero_call { args = some (30 + 10 * k); reply = some 0; done = some 1 }

abbrev codec_of : Messages → Messages → TGobCodec Wires
codec_of o i = record { stream = record { out = o; inbox = i }; closed = false }

abbrev client : ConnState ℕ (TGobCodec Wires)
client = record {
  conn = record (new_client_conn "a:1" 0) { seq = 5; pending = (3, 0) ∷ (4, 1) ∷ [] };
  codec = codec_of [] [];
  store = record { calls = calls; next_call = 2; pool = []; chans = λ ch. make 8; next_chan = 2 };
}

abbrev server : TServerConn ℕ (TGobCodec Wires)
server = new_server_conn (codec_of [] (asked requests)) 8

abbrev env : RoundEnv ℕ (TGobCodec Wires)
env = record { deadline = none; running = true; pick = 0; dispatch = λ call c. (c, false, none) }

env-IsServing : IsServing env
env-IsServing = record { deadline = refl; running = refl; undispatched = λ x d. refl }

echo-IsServed : (n : ℕ) → IsServed services (echo n)
unfolding request_is_ping dummy_return get_service_method lookup
echo-IsServed n = record {
  no_ping = refl;
  wants_result = refl;
  service = record {
    name = "test";
    typ = ptr (named "Echo" "test");
    method = ("Echo", echo_type) ∷ [];
  };
  method = echo_type;
  known = refl;
}

server-IsAccounted : IsAccounted server [] 0
unfolding new_server_conn
server-IsAccounted = record {
  owned = λ x. omega arith;
  made = λ x h. absurd (omega arith);
  ready = λ x h. absurd (omega arith);
  announced = λ x h. absurd (omega arith);
  counted = omega arith;
  still_open = refl;
}

round_trip_example :
    let done = answer merge answers client.conn client.store in
    (b : TGobCodec Wires) × (d : TServerConn ℕ (TGobCodec Wires)) × (τ : ConnState ℕ
      (TGobCodec Wires))
    × (send_group_call (client_codec wires) group client ≡ (record client { codec = b }, none))
    × (b.stream.out ≡ asked requests)
    × (serve (server_codec wires) zero_value services method (env ∷ env ∷ []) server
        ≡ finished (d, true))
    × Serves out answers server d
    × (read_responses (client_codec wires) 2 (record client { codec = codec_of [] (wire answers) })
        ≡ read_responses (client_codec wires) 0 τ)
    × IsClient inbox done.0 done.1 [] τ
unfolding new_server_conn get_service_method lookup
round_trip_example =
    round_trip wires out inbox wires-IsReliable merge wires-IsWire wires out inbox wires-IsReliable
      merge wires-IsDuplex zero_value services method group requests client (env ∷ env ∷ []) server
      [] 0 (codec_of [] (wire answers)) [] [] 0 (λ x. refl)
      (asks (record { req = echo 3; call = 0 }) 30 refl
        (asks (record { req = echo 4; call = 1 }) 40 refl nobody))
      (omega arith) (omega arith) refl (env-IsServing, (env-IsServing, tt))
      (echo-IsServed 3, (echo-IsServed 4, tt)) server-IsAccounted refl (omega arith) refl refl
