-- ===== src/Exchange/Requests.antt =====
-- What ReadRequest of rpc/server_conn.go makes of a request that arrived.
use gopl.Prelude.{◌≡◌, ap, ◌∙◌, false, Option, none, some, List, ◌∷◌}
use gopl.RpcError.{GoError, Result, ok, err}
use gopl.Header.{TRequestHeader, request_is_ping, dummy_return}
use gopl.Server.{GoType, TService, TMethodType, Services, get_service_method}
use gopl.GobCodec.{
  Message, request, body, Stream, TGobCodec, server_codec, read_request_header, read_body,
}
use gopl.ServerConn.Requests.{
  Read, bad_request, request as asks, read_request, with_header, with_method,
}

-- What the library says of the stream of a server: requests and their bodies arrive in order, a
-- body makes `merge o v` of what it is read into, and reading leaves alone what was written.
pub record IsDuplex {V E : Type 0} (io : Stream V E) (merge : Option V → V → Option V)
    (sent arrived : E → List (Message V)) : Type 0 where
  pub requests :
      (x : E) (h : TRequestHeader) (rest : List (Message V))
      → arrived x ≡ request h ∷ rest
      → ((io.decode_request x).1 ≡ ok h)
        × (arrived (io.decode_request x).0 ≡ rest)
        × (sent (io.decode_request x).0 ≡ sent x)
  pub bodies :
      (x : E) (v : V) (rest : List (Message V)) (o : Option V)
      → arrived x ≡ body v ∷ rest
      → ((io.decode_body x o).1 ≡ merge o v)
        × ((io.decode_body x o).2 ≡ none)
        × (arrived (io.decode_body x o).0 ≡ rest)
        × (sent (io.decode_body x o).0 ≡ sent x)

-- A request for a method that the server knows, which is no ping and wants its result.
pub record IsServed (services : Services) (h : TRequestHeader) : Type 0 where
  pub no_ping : request_is_ping h ≡ false
  pub wants_result : dummy_return h ≡ false
  pub service : TService
  pub method : TMethodType
  pub known : get_service_method services h.service_method ≡ ok (service, method)

module _ {V : Type 0} where
  -- The argument that ReadRequest makes of a body: the method that was looked up says its type.
  abbrev pub argument :
      (GoType → V) → (Option V → V → Option V) → Result (TService × TMethodType) → V → Option V
  argument new_value merge (ok (s, m)) v = merge (some (new_value m.arg_type)) v
  argument new_value merge (err e) v = none

  abbrev pub argument_of :
      (GoType → V) → (Option V → V → Option V) → Services → TRequestHeader → V → Option V
  argument_of new_value merge services h v =
      argument new_value merge (get_service_method services h.service_method) v

module _ {V E : Type 0} (io : Stream V E) (merge : Option V → V → Option V)
    (sent arrived : E → List (Message V)) (duplex : IsDuplex io merge sent arrived)
    (new_value : GoType → V) (services : Services) where
  with_method-asks :
      (s : TService) (m : TMethodType) (h : TRequestHeader) (v : V) (y : TGobCodec E)
      → (io.decode_body y.stream (some (new_value m.arg_type))).1
        ≡ merge (some (new_value m.arg_type)) v
      → (io.decode_body y.stream (some (new_value m.arg_type))).2 ≡ none
      → with_method (server_codec io) new_value (ok (s, m)) h y ≡ (
        record y { stream = (io.decode_body y.stream (some (new_value m.arg_type))).0 },
        asks h s m (merge (some (new_value m.arg_type)) v),
      )
  unfolding with_method read_body
  with_method-asks s m h v y b n =
      let x = (io.decode_body y.stream (some (new_value m.arg_type))).0 in
      let ends : Option V → Option GoError → TGobCodec E × Read V = λ arg e. (
        record y { stream = x },
        elim e [ none ↦ asks h s m arg | some error ↦ bad_request h error ],
      ) in
      ap (ends (io.decode_body y.stream (some (new_value m.arg_type))).1) n
      ∙ ap (λ arg. ends arg none) b

  pub read_request-asks :
      (h : TRequestHeader) (v : V) (rest : List (Message V)) (x : TGobCodec E)
      (k : IsServed services h)
      → arrived x.stream ≡ request h ∷ body v ∷ rest
      → (y : TGobCodec E) × (read_request (server_codec io) new_value services x
          ≡ (y, asks h k.service k.method (argument_of new_value merge services h v)))
        × (arrived y.stream ≡ rest)
        × (sent y.stream ≡ sent x.stream)
  unfolding read_request with_header read_request_header
  read_request-asks h v rest x k a =
      let z = (io.decode_request x.stream).0 in
      let y : TGobCodec E = record x { stream = z } in
      let (head, left, kept) = duplex.requests x.stream h (body v ∷ rest) a in
      let o = some (new_value k.method.arg_type) in
      let (b, n, left', kept') = duplex.bodies z v rest o left in
      (
        record x { stream = (io.decode_body z o).0 },
        ap (λ r. with_header (server_codec io) new_value services (y, r)) head
            ∙ rw (k.no_ping, k.known) (with_method-asks k.service k.method h v y b n),
        left',
        kept' ∙ kept,
      )
