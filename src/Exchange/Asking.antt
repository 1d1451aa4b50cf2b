-- ===== src/Exchange/Asking.antt =====
-- What a group of requests of rpc/client_conn.go is on the wire.
use gopl.Prelude.{
  ℕ, ◌≡◌, refl, ap, ◌∙◌, sym, Option, none, some, List, [], ◌∷◌, ◌++◌, append_assoc, append-nil,
}
use gopl.RpcError.{GoError}
use gopl.Header.{TRequestHeader}
use gopl.Call.{Store, TCall}
use gopl.Codec.{IClientCodec}
use gopl.ClientConn.{TClientGroupRequest, ConnState}
use gopl.ClientConn.Sending.{write_group, write_and_flush, after_write, send_group_call}
use gopl.GobCodec.{
  Message, request, body, Stream, TGobCodec, client_codec, write_request, flush, put_body,
  then_body,
}
use gopl.ServerConn.Stream.{IsReliable, sent-put_two, put_one, put_message-fine, sent-flush}

module _ {V : Type 0} where
  -- Each call of a group has arguments; the second list has the header of each request with them.
  pub data Asks (calls : ℕ → TCall V)
      : List TClientGroupRequest → List (TRequestHeader × V) → Type 0 where
    nobody : Asks calls [] []
    asks :
        {group : List TClientGroupRequest} {requests : List (TRequestHeader × V)}
        (r : TClientGroupRequest) (v : V)
        → (calls r.call).args ≡ some v
        → Asks calls group requests
        → Asks calls (r ∷ group) ((r.req, v) ∷ requests)

  -- What is on the wire for requests: a header and its argument for each.
  abbrev pub asked : List (TRequestHeader × V) → List (Message V)
  asked [] = []
  asked ((h, v) ∷ rest) = request h ∷ body v ∷ asked rest

module _ {V S : Type 0} (codec : IClientCodec V S) where
  write_group-next :
      (r : TClientGroupRequest) (rest : List TClientGroupRequest) (s : Store V) (x y : S)
      (o : Option V)
      → (s.calls r.call).args ≡ o
      → codec.write_request x r.req o ≡ (y, none)
      → write_group codec (r ∷ rest) s x ≡ write_group codec rest s y
  unfolding write_group
  write_group-next r rest s x y o a w =
      let then : S × Option GoError → S × Option GoError =
        λ p. elim p.1 [ none ↦ write_group codec rest s p.0 | some e ↦ (p.0, some e) ] in
      ap (λ o. then (codec.write_request x r.req o)) a ∙ ap then w

  write_and_flush-fine :
      (group : List TClientGroupRequest) (σ : ConnState V S) (y z : S)
      → write_group codec group σ.store σ.codec ≡ (y, none)
      → codec.flush y ≡ (z, none)
      → send_group_call codec group σ ≡ (record σ { codec = z }, none)
  unfolding send_group_call write_and_flush after_write
  write_and_flush-fine group σ y z w f =
      let then : S × Option GoError → ConnState V S × Option GoError =
        λ p. after_write codec p group σ.conn σ.store in
      ap (λ p. then (elim p.1 [ none ↦ codec.flush p.0 | some e ↦ (p.0, some e) ])) w ∙ ap then f

module _ {V E : Type 0} (io : Stream V E) (sent : E → List (Message V))
    (reliable : IsReliable io sent) where
  -- The codec after a request with an argument.
  abbrev put_two : TRequestHeader → V → TGobCodec E → TGobCodec E
  put_two h v c = put_one io sent reliable (body v) (put_one io sent reliable (request h) c)

  write_request-fine :
      (c : TGobCodec E) (h : TRequestHeader) (v : V)
      → write_request io c h (some v) ≡ (put_two h v c, none)
  unfolding write_request then_body put_body
  write_request-fine c h v =
      ap (then_body io (some v)) (put_message-fine io sent reliable (request h) c)
      ∙ put_message-fine io sent reliable (body v) (put_one io sent reliable (request h) c)

  write_group-Asks :
      (group : List TClientGroupRequest) (requests : List (TRequestHeader × V)) (s : Store V)
      (c : TGobCodec E)
      → Asks s.calls group requests
      → (d : TGobCodec E) × (write_group (client_codec io) group s c ≡ (d, none))
        × (sent d.stream ≡ sent c.stream ++ asked requests)
  unfolding write_group
  write_group-Asks [] _ s c nobody = (c, refl, sym (append-nil (sent c.stream)))
  write_group-Asks (r ∷ group) _ s c (asks {requests = rest} _ v a k) =
      let (d, run, written) = write_group-Asks group rest s (put_two r.req v c) k in
      (
        d,
        write_group-next (client_codec io) r group s c (put_two r.req v c) (some v) a
              (write_request-fine c r.req v)
            ∙ run,
        written
            ∙ ap (λ l. l ++ asked rest) (sent-put_two io sent reliable (request r.req) (body v) c)
            ∙ append_assoc (sent c.stream) (request r.req ∷ body v ∷ []) (asked rest),
      )

  -- Where flushing works too, sendGroupCall of calls with arguments changes nothing but the codec,
  -- and writes each request with its argument.
  pub send_group_call-Asks :
      (group : List TClientGroupRequest) (requests : List (TRequestHeader × V))
      (σ : ConnState V (TGobCodec E))
      → ((x : E) → (io.flush_buffer x).1 ≡ none)
      → Asks σ.store.calls group requests
      → (d : TGobCodec E) × (send_group_call (client_codec io) group σ
          ≡ (record σ { codec = d }, none))
        × (sent d.stream ≡ sent σ.codec.stream ++ asked requests)
  unfolding flush
  send_group_call-Asks group requests σ flushes k =
      let (d, run, written) = write_group-Asks group requests σ.store σ.codec k in
      (
        (flush io d).0,
        write_and_flush-fine (client_codec io) group σ d (flush io d).0 run
            (ap (λ e. ((flush io d).0, e)) (flushes d.stream)),
        sent-flush io sent reliable d ∙ written,
      )
