-- ===== src/Codec.antt =====
-- rpc/codec.go: the interface of the codecs. Encoding itself (gob, amf, the network) is not in
-- the repository, so a codec is a parameter of the code that uses it: its state is of a type `S`
-- of its own. A body that is read into a nil is dropped; otherwise the codec gives what the
-- pointer points to afterwards.
use gopl.Prelude.{Option}
use gopl.RpcError.{GoError, Result}
use gopl.Header.{TRequestHeader, TResponseHeader}

pub record IClientCodec (V S : Type 0) : Type 0 where
  pub write_request : S → TRequestHeader → Option V → S × Option GoError
  pub read_response_header : S → S × Result TResponseHeader
  pub read_response_body : S → Option V → S × Option V × Option GoError
  pub flush : S → S × Option GoError
  pub close : S → S × Option GoError

pub record IServerCodec (V S : Type 0) : Type 0 where
  pub read_request_header : S → S × Result TRequestHeader
  pub read_request_body : S → Option V → S × Option V × Option GoError
  pub write_response : S → TResponseHeader → Option V → S × Option GoError
  pub flush : S → S × Option GoError
  pub close : S → S × Option GoError
