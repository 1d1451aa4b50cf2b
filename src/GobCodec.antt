-- ===== src/GobCodec.antt =====
-- rpc/codec.go: TGobCodec. The gob encoder and decoder, the buffer and the network are not in the
-- repository: they are the operations of a `Stream`, whose state is of a type `E` of its own.
use gopl.Prelude.{Bool, true, Option, none, some, if◌then◌else◌}
use gopl.RpcError.{GoError, Result}
use gopl.Header.{TRequestHeader, TResponseHeader}
use gopl.Codec.{IClientCodec, IServerCodec}

-- What an encoder is given.
pub data Message (V : Type 0) : Type 0 where
  request : TRequestHeader → Message V
  response : TResponseHeader → Message V
  body : V → Message V

pub record Stream (V E : Type 0) : Type 0 where
  pub encode : E → Message V → E × Option GoError
  pub decode_request : E → E × Result TRequestHeader
  pub decode_response : E → E × Result TResponseHeader
  pub decode_body : E → Option V → E × Option V × Option GoError
  pub flush_buffer : E → E × Option GoError
  pub close_rwc : E → E × Option GoError

pub record TGobCodec (E : Type 0) : Type 0 where
  pub stream : E
  pub closed : Bool

module _ {V E : Type 0} (io : Stream V E) where
  open io use {encode, decode_request, decode_response, decode_body, flush_buffer, close_rwc}

  unfoldable pub close : TGobCodec E → TGobCodec E × Option GoError
  close c =
      let (x, e) = close_rwc c.stream in
      if c.closed then (c, none) else (record { stream = x; closed = true }, e)

  unfoldable pub flush : TGobCodec E → TGobCodec E × Option GoError
  flush c = let (x, e) = flush_buffer c.stream in (record c { stream = x }, e)

  unfoldable pub put_message : Message V → TGobCodec E → TGobCodec E × Option GoError
  put_message m c = let (x, e) = encode c.stream m in (record c { stream = x }, e)

  -- A nil body is not encoded.
  unfoldable pub put_body : Option V → TGobCodec E → TGobCodec E × Option GoError
  unfolding put_message
  put_body none c = (c, none)
  put_body (some v) c = put_message (body v) c

  unfoldable pub then_body : Option V → TGobCodec E × Option GoError → TGobCodec E × Option GoError
  unfolding put_body
  then_body v (c, none) = put_body v c
  then_body v (c, some e) = (c, some e)

  unfoldable pub write_request :
      TGobCodec E → TRequestHeader → Option V → TGobCodec E × Option GoError
  unfolding put_message then_body
  write_request c h v = then_body v (put_message (request h) c)

  unfoldable pub close_if_flushed : TGobCodec E × Option GoError → TGobCodec E
  unfolding close
  close_if_flushed (c, none) = (close c).0
  close_if_flushed (c, some e) = c

  -- After an encoding error the buffer is flushed, and where that works the connection is closed.
  unfoldable pub give_up : TGobCodec E × Option GoError → TGobCodec E × Option GoError
  unfolding close_if_flushed flush
  give_up (c, none) = (c, none)
  give_up (c, some e) = (close_if_flushed (flush c), some e)

  unfoldable pub write_response :
      TGobCodec E → TResponseHeader → Option V → TGobCodec E × Option GoError
  unfolding put_message then_body give_up
  write_response c h v = give_up (then_body v (put_message (response h) c))

  unfoldable pub read_request_header : TGobCodec E → TGobCodec E × Result TRequestHeader
  read_request_header c = let (x, r) = decode_request c.stream in (record c { stream = x }, r)

  unfoldable pub read_response_header : TGobCodec E → TGobCodec E × Result TResponseHeader
  read_response_header c = let (x, r) = decode_response c.stream in (record c { stream = x }, r)

  -- ReadRequestBody and ReadResponseBody.
  unfoldable pub read_body : TGobCodec E → Option V → TGobCodec E × Option V × Option GoError
  read_body c v = let (x, r, e) = decode_body c.stream v in (record c { stream = x }, r, e)

  -- NewClientCodec and NewServerCodec make a TGobCodec.
  abbrev pub client_codec : IClientCodec V (TGobCodec E)
  client_codec = record {
    write_request = write_request;
    read_response_header = read_response_header;
    read_response_body = read_body;
    flush = flush;
    close = close;
  }

  abbrev pub server_codec : IServerCodec V (TGobCodec E)
  server_codec = record {
    read_request_header = read_request_header;
    read_request_body = read_body;
    write_response = write_response;
    flush = flush;
    close = close;
  }
