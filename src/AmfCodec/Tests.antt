-- ===== src/AmfCodec/Tests.antt =====
-- Runs of TAmfCodec of rpc/codec.go, over a connection of bytes, of which a request is one.
use gopl.Prelude.{ℕ, ◌≡◌, refl, ap, none, [], ◌∷◌, arith, take, drop, length}
use gopl.RpcError.{Result, ok, err, eof}
use gopl.Header.{TRequestHeader}
use gopl.AmfCodec.{
  Bytes, Packages, AmfStream, new_amf_codec, amf_to_json, to_json, read_request_header,
}
use gopl.AmfCodec.Lost.{IsConn, request_lost}

abbrev header : ℕ → TRequestHeader
header b = record { service_method = "test.Echo"; seq = b; flag = 0 }

abbrev decode_one : Bytes → Bytes × Result TRequestHeader
decode_one [] = ([], err eof)
decode_one (b ∷ rest) = (rest, ok (header b))

-- Objects are numbers.
abbrev lib : Packages ℕ
lib = record {
  json_unmarshal = λ bytes a. (length bytes, none);
  json_marshal = λ a. ok (a ∷ []);
  amf_decode = λ bytes a. (length bytes, none);
  amf_encode = λ a. (none, a ∷ []);
}

abbrev io : AmfStream ℕ Bytes
io = record {
  read_rwc = λ n x. (drop n x, ok (take n x));
  decode_request = decode_one;
  decode_response = λ x. (x, err eof);
  decode_body = λ x v. (x, v, none);
  encode = λ x m. (x, none);
  flush_writer = λ x. (x, none);
  close_rwc = λ x. (x, none);
}

io-IsConn : IsConn io (λ x. x)
io-IsConn = record {
  gives = λ n x h. refl;
  takes = λ n x h. refl;
  decodes = λ x y e. ap (λ l. (decode_one l).1) e;
}

logged : amf_to_json lib 0 (5 ∷ 6 ∷ []) ≡ ok (2 ∷ [])
unfolding amf_to_json to_json
logged = refl

-- The request 5 has arrived.
request_lost_example : (read_request_header lib 0 io (new_amf_codec (5 ∷ 6 ∷ []))).1 ≡ err eof
unfolding new_amf_codec
request_lost_example =
    request_lost lib 0 io (λ x. x) io-IsConn (new_amf_codec (5 ∷ 6 ∷ [])) (2 ∷ []) [] (omega arith)
      (omega arith) logged refl
