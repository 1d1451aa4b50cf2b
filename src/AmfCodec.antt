-- ===== src/AmfCodec.antt =====
-- rpc/codec.go: TAmfCodec, the codecs TCodecJson and TCodecAmf of byte slices, and AmfToJson. The
-- packages amf and json, the buffer and the network are not in the repository: they are the
-- operations of an `AmfStream`, whose state is of a type `E` of its own, and of `Packages`.
pub mod Lost
mod Tests
use gopl.Prelude.{ℕ, Bool, true, false, Option, none, some, List, [], ◌∷◌, if◌then◌else◌}
use gopl.RpcError.{GoError, Result, ok, err}
use gopl.Header.{TRequestHeader, TResponseHeader}
use gopl.Codec.{IClientCodec, IServerCodec}
use gopl.GobCodec.{Message, request, response, body}

-- A byte slice.
abbrev pub Bytes : Type 0
Bytes = List ℕ

-- The interface ICodec. A Decode gives what its pointer points to afterwards.
pub record ICodec (A : Type 0) : Type 0 where
  pub decode : Bytes → A → A × Option GoError
  pub encode : A → Result Bytes

-- What the code uses of the packages json and amf: Unmarshal and Marshal, and Decode and Encode
-- with a new buffer.
pub record Packages (A : Type 0) : Type 0 where
  pub json_unmarshal : Bytes → A → A × Option GoError
  pub json_marshal : A → Result Bytes
  pub amf_decode : Bytes → A → A × Option GoError
  pub amf_encode : A → Option GoError × Bytes

module _ {A : Type 0} (lib : Packages A) where
  open lib use {json_unmarshal, json_marshal, amf_decode, amf_encode}

  -- The method Decode of TCodecJson: empty data leave the object as it is.
  unfoldable pub json_codec_decode : Bytes → A → A × Option GoError
  json_codec_decode [] a = (a, none)
  json_codec_decode (b ∷ bytes) a = json_unmarshal (b ∷ bytes) a

  -- gJsonCodec
  abbrev pub json_codec : ICodec A
  json_codec = record { decode = json_codec_decode; encode = json_marshal }

  -- The method Encode of TCodecAmf: the bytes of the buffer, where there is no error.
  unfoldable pub amf_codec_encode : A → Result Bytes
  amf_codec_encode a =
      let (e, buffer) = amf_encode a in elim e [ none ↦ ok buffer | some x ↦ err x ]

  -- gAmfCodec
  abbrev pub amf_codec : ICodec A
  amf_codec = record { decode = amf_decode; encode = amf_codec_encode }

  -- The rest of AmfToJson, after its Decode.
  unfoldable pub to_json : A × Option GoError → Result Bytes
  to_json (mp, none) = json_codec.encode mp
  to_json (mp, some e) = err e

  -- The first argument is the empty map that the data are decoded into.
  unfoldable pub amf_to_json : A → Bytes → Result Bytes
  unfolding to_json
  amf_to_json mp bytes = to_json (amf_codec.decode bytes mp)

-- What a TAmfCodec uses: Read, Close and amf.Decode of the connection, amf.Encode and Flush of the
-- buffer. The number is the length of the slice that Read may fill.
pub record AmfStream (V E : Type 0) : Type 0 where
  pub read_rwc : ℕ → E → E × Result Bytes
  pub decode_request : E → E × Result TRequestHeader
  pub decode_response : E → E × Result TResponseHeader
  pub decode_body : E → Option V → E × Option V × Option GoError
  pub encode : E → Message V → E × Option GoError
  pub flush_writer : E → E × Option GoError
  pub close_rwc : E → E × Option GoError

pub record TAmfCodec (E : Type 0) : Type 0 where
  pub stream : E
  pub closed : Bool

unfoldable pub new_amf_codec : {E : Type 0} → E → TAmfCodec E
new_amf_codec rwc = record { stream = rwc; closed = false }

module _ {V E A : Type 0} (lib : Packages A) (empty : A) (io : AmfStream V E) where
  open io use {
    read_rwc, decode_request, decode_response, decode_body, encode, flush_writer, close_rwc,
  }

  -- The end of ReadRequestHeader, when what was read was turned into json for the log.
  unfoldable pub after_log : Result Bytes → E → E × Result TRequestHeader
  after_log (ok json) x = decode_request x
  after_log (err e) x = (x, err e)

  unfoldable pub after_read : E × Result Bytes → E × Result TRequestHeader
  unfolding after_log amf_to_json
  after_read (x, ok bytes) = after_log (amf_to_json lib empty bytes) x
  after_read (x, err e) = (x, err e)

  unfoldable pub read_request_header : TAmfCodec E → TAmfCodec E × Result TRequestHeader
  unfolding after_read
  read_request_header c =
      let (x, r) = after_read (read_rwc 1024 c.stream) in (record c { stream = x }, r)

  unfoldable pub read_request_body :
      TAmfCodec E → Option V → TAmfCodec E × Option V × Option GoError
  read_request_body c v = let (x, w, e) = decode_body c.stream v in (record c { stream = x }, w, e)

  unfoldable pub close : TAmfCodec E → TAmfCodec E × Option GoError
  close c =
      let (x, e) = close_rwc c.stream in
      if c.closed then (c, none) else (record { stream = x; closed = true }, e)

  unfoldable pub flush : TAmfCodec E → TAmfCodec E × Option GoError
  flush c = let (x, e) = flush_writer c.stream in (record c { stream = x }, e)

  -- WriteResponse after an amf.Encode that failed: where Flush works, the connection is closed.
  unfoldable pub encode_failed :
      GoError → TAmfCodec E × Option GoError → TAmfCodec E × Option GoError
  unfolding close
  encode_failed e (c, none) = ((close c).0, some e)
  encode_failed e (c, some f) = (c, some e)

  unfoldable pub encode_or_close : Message V → TAmfCodec E → TAmfCodec E × Option GoError
  unfolding encode_failed flush
  encode_or_close m c =
      let (x, e) = encode c.stream m in
      let d : TAmfCodec E = record c { stream = x } in
      elim e [ none ↦ (d, none) | some error ↦ encode_failed error (flush d) ]

  unfoldable pub write_response :
      TAmfCodec E → TResponseHeader → Option V → TAmfCodec E × Option GoError
  unfolding encode_or_close
  write_response c h v =
      let (d, e) = encode_or_close (response h) c in
      elim e [
        | none ↦ elim v [ none ↦ (d, none) | some b ↦ encode_or_close (body b) d ]
        | some error ↦ (d, some error)
      ]

  unfoldable pub write_request :
      TAmfCodec E → TRequestHeader → Option V → TAmfCodec E × Option GoError
  write_request c h v =
      let (x, e) = encode c.stream (request h) in
      elim e [
        | none ↦ elim v [
          | none ↦ (record c { stream = x }, none)
          | some b ↦ let (y, f) = encode x (body b) in (record c { stream = y }, f)
        ]
        | some error ↦ (record c { stream = x }, some error)
      ]

  unfoldable pub read_response_header : TAmfCodec E → TAmfCodec E × Result TResponseHeader
  read_response_header c = let (x, r) = decode_response c.stream in (record c { stream = x }, r)

  unfoldable pub read_response_body :
      TAmfCodec E → Option V → TAmfCodec E × Option V × Option GoError
  read_response_body c v = let (x, w, e) = decode_body c.stream v in (record c { stream = x }, w, e)

  -- NewWebClientCodec and NewWebServerCodec make a TAmfCodec.
  abbrev pub web_client_codec : IClientCodec V (TAmfCodec E)
  web_client_codec = record {
    write_request = write_request;
    read_response_header = read_response_header;
    read_response_body = read_response_body;
    flush = flush;
    close = close;
  }

  abbrev pub web_server_codec : IServerCodec V (TAmfCodec E)
  web_server_codec = record {
    read_request_header = read_request_header;
    read_request_body = read_request_body;
    write_response = write_response;
    flush = flush;
    close = close;
  }
