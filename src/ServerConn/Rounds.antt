-- ===== src/ServerConn/Rounds.antt =====
-- How a round of RoutineRun of rpc/server_conn.go answers a request, and what it counts.
use text.Mathlib.Text.{◌==◌ as text_beq}
use gopl.Prelude.{
  ◌+◌, ◌<◌, ◌≡◌, refl, ap, ◌∙◌, true, false, none, List, [], ◌∷◌, ◌++◌, arith, String,
}
use gopl.Prelude.Run.{Run, finished, blocks, ◌>>=◌}
use gopl.RpcError.{GoError, error_text, ok, err}
use gopl.Header.{TRequestHeader, TResponseHeader, request_is_ping, response_is_ping, has_data}
use gopl.Codec.{IServerCodec}
use gopl.GobCodec.{
  Message, response, Stream, TGobCodec, server_codec, read_request_header, read_body,
}
use gopl.Server.{GoType, Services, get_service_method}
use gopl.ServerConn.{TServerConn, make_resp_header}
use gopl.ServerConn.Responses.{send_response}
use gopl.ServerConn.Requests.{
  Read, bad_request, ping, Round, next, RoundEnv, read_request, with_header, with_method, handle,
  wait_pending, run_round,
}
use gopl.ServerConn.Stream.{IsReliable, send_response-sent, has_data-make_resp_header}

module _ {V S : Type 0} (codec : IServerCodec V S) (new_value : GoType → V)
    (services : Services) where
  open codec use {read_request_header, read_request_body}

  -- What ReadRequest makes of a header, by whether it is a ping and its method is known.
  read_request-ping :
      (x y : S) (h : TRequestHeader)
      → read_request_header x ≡ (y, ok h)
      → request_is_ping h ≡ true
      → read_request codec new_value services x ≡ (y, ping h)
  unfolding read_request with_header
  read_request-ping x y h r p = ap (with_header codec new_value services) r ∙ rw p refl

  read_request-unknown :
      (x y : S) (h : TRequestHeader) (e : GoError)
      → read_request_header x ≡ (y, ok h)
      → request_is_ping h ≡ false
      → get_service_method services h.service_method ≡ err e
      → read_request codec new_value services x ≡ ((read_request_body y none).0, bad_request h e)
  unfolding read_request with_header with_method
  read_request-unknown x y h e r p m =
      ap (with_header codec new_value services) r
      ∙ rw p (ap (λ q. with_method codec new_value q h y) m)

  pub run_round-read :
      (env : RoundEnv V S) (c : TServerConn V S) (y : S) (q : Read V)
      → env.deadline ≡ none
      → env.running ≡ true
      → read_request codec new_value services c.codec ≡ (y, q)
      → run_round codec new_value env services c
        ≡ handle codec new_value env q (record c { codec = y; pending_wg = c.pending_wg + 1 })
  unfolding run_round
  run_round-read env c y q d r e = rw (d, r, e) refl

  run_round-stopped :
      (env : RoundEnv V S) (c : TServerConn V S)
      → env.deadline ≡ none
      → env.running ≡ false
      → 0 < c.pending_wg
      → run_round codec new_value env services c ≡ blocks
  unfolding run_round wait_pending
  run_round-stopped env c d r w = ground arith

  -- A request with an empty method name that is no ping is not answered, but it is counted: after
  -- its round the counter of the pending requests is one higher and nothing was written, and once
  -- the server is stopped, the next round of RoutineRun blocks until somebody counts it down.
  pub empty_method_blocks :
      (env env' : RoundEnv V S) (c : TServerConn V S) (y : S) (h : TRequestHeader) (e : GoError)
      → env.deadline ≡ none
      → env.running ≡ true
      → env'.deadline ≡ none
      → env'.running ≡ false
      → read_request_header c.codec ≡ (y, ok h)
      → request_is_ping h ≡ false
      → get_service_method services h.service_method ≡ err e
      → text_beq h.service_method "" ≡ true
      → (d : TServerConn V S) × (run_round codec new_value env services c ≡ finished (d, next))
        × (d.pending_wg ≡ c.pending_wg + 1)
        × (d.codec ≡ (read_request_body y none).0)
        × (run_round codec new_value env' services d ≡ blocks)
  unfolding handle
  empty_method_blocks env env' c y h e dl run dl' run' r p m t =
      let x = (read_request_body y none).0 in
      let d = record c { codec = x; pending_wg = c.pending_wg + 1 } in
      (
        d,
        run_round-read env c x (bad_request h e) dl run (read_request-unknown c.codec y h e r p m)
            ∙ rw t refl,
        refl,
        refl,
        run_round-stopped env' d dl' run' (omega arith),
      )

module _ {V E : Type 0} (sent : E → List (Message V)) where
  -- What is left when `h` was answered with the text `errmsg` alone, on a connection that had read
  -- up to the stream `x`: one header more was sent, and no body behind it.
  pub record IsAnswered (h : TRequestHeader) (errmsg : String) (x : E)
      (c d : TServerConn V (TGobCodec E)) : Type 0 where
    pub answer : TResponseHeader
    pub wrote : sent d.codec.stream ≡ sent x ++ response answer ∷ []
    pub seq : answer.seq ≡ h.seq
    pub service_method : answer.service_method ≡ h.service_method
    pub error_msg : answer.error_msg ≡ errmsg
    pub no_data : has_data answer ≡ false
    pub same_kind : response_is_ping answer ≡ request_is_ping h
    pub counted : d.pending_wg ≡ c.pending_wg

module _ {V E : Type 0} (io : Stream V E) (sent : E → List (Message V))
    (reliable : IsReliable io sent) (new_value : GoType → V) (services : Services) where
  abbrev then_next : Run (TServerConn V (TGobCodec E)) → Run (TServerConn V (TGobCodec E) × Round)
  then_next q = q >>= λ d. finished (d, next)

  send_response-IsAnswered :
      (h : TRequestHeader) (errmsg : String) (y : TGobCodec E) (c : TServerConn V (TGobCodec E))
      → let b = record c { codec = y; pending_wg = c.pending_wg + 1 } in
        (d : TServerConn V (TGobCodec E)) × (then_next
            (send_response (server_codec io) h none errmsg b)
          ≡ finished (d, next))
        × IsAnswered sent h errmsg y.stream c d
  unfolding make_resp_header
  send_response-IsAnswered h errmsg y c =
      let b = record c { codec = y; pending_wg = c.pending_wg + 1 } in
      let (d, r, s, n, w) = send_response-sent io sent reliable h errmsg b (omega arith) in
      (
        d,
        ap then_next r,
        record {
          answer = make_resp_header {V = V} h none errmsg;
          wrote = s;
          seq = refl;
          service_method = refl;
          error_msg = refl;
          no_data = n;
          same_kind = (has_data-make_resp_header {V = V} h none errmsg).1;
          counted = omega (arith, w);
        },
      )

  -- While the server runs and on a stream that works, a round that reads a ping answers it with a
  -- ping without data and without an error text, and goes on with the same count of pending requests.
  run_round-ping :
      (env : RoundEnv V (TGobCodec E)) (c : TServerConn V (TGobCodec E)) (x : E)
      (h : TRequestHeader)
      → env.deadline ≡ none
      → env.running ≡ true
      → io.decode_request c.codec.stream ≡ (x, ok h)
      → request_is_ping h ≡ true
      → (d : TServerConn V (TGobCodec E)) × (run_round (server_codec io) new_value env services c
          ≡ finished (d, next))
        × IsAnswered sent h "" x c d
  unfolding handle read_request_header
  run_round-ping env c x h dl run r p =
      let y = record c.codec { stream = x } in
      let (d, s, a) = send_response-IsAnswered h "" y c in
      (
        d,
        run_round-read (server_codec io) new_value services env c y (ping h) dl run
              (read_request-ping (server_codec io) new_value services c.codec y h (rw r refl) p)
            ∙ s,
        a,
      )

  -- While the server runs and on a stream that works, a round that reads a request of a method with
  -- a name that is not registered skips its body and sends one header and no data: it has the number
  -- and the method of the request, and the text of the lookup's error. The loop goes on, with the same
  -- count of pending requests.
  pub run_round-unknown :
      (env : RoundEnv V (TGobCodec E)) (c : TServerConn V (TGobCodec E)) (x : E)
      (h : TRequestHeader) (e : GoError)
      → env.deadline ≡ none
      → env.running ≡ true
      → io.decode_request c.codec.stream ≡ (x, ok h)
      → request_is_ping h ≡ false
      → get_service_method services h.service_method ≡ err e
      → text_beq h.service_method "" ≡ false
      → (d : TServerConn V (TGobCodec E)) × (run_round (server_codec io) new_value env services c
          ≡ finished (d, next))
        × IsAnswered sent h (error_text e) (io.decode_body x none).0 c d
  unfolding handle read_request_header read_body
  run_round-unknown env c x h e dl run r p m t =
      let y = record c.codec { stream = (io.decode_body x none).0 } in
      let (d, s, a) = send_response-IsAnswered h (error_text e) y c in
      (
        d,
        run_round-read (server_codec io) new_value services env c y (bad_request h e) dl run (
              read_request-unknown (server_codec io) new_value services c.codec
                (record c.codec { stream = x }) h e (rw r refl) p m)
            ∙ rw t s,
        a,
      )
