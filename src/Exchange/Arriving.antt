-- ===== src/Exchange/Arriving.antt =====
-- The answers of a group, from doneChan of the server, rpc/server_conn.go, to the calls that wait
-- in its client, rpc/client_conn.go.
use gopl.Prelude.{ℕ, ◌+◌, ◌≤◌, ◌≡◌, true, false, Option, List, [], ◌∷◌, ◌++◌, length, All}
use gopl.Prelude.Run.{finished}
use gopl.Header.{TRequestHeader, request_is_ping}
use gopl.ClientConn.{ConnState}
use gopl.ClientConn.Receiving.{read_responses}
use gopl.GobCodec.{Message, Stream, TGobCodec, server_codec, client_codec}
use gopl.ServerConn.{TFuncCall, TServerConn}
use gopl.ServerConn.Responses.{do_write_response}
use gopl.ServerConn.Stream.{IsReliable}
use gopl.Exchange.{Served, nobody, serves, wire, waiting, answer}
use gopl.Exchange.Answering.{do_write_response-Served}
use gopl.Exchange.Reading.{IsWire, IsClient, read_responses-answers}

no_pings :
    {V : Type 0} (f : ℕ → TFuncCall V) (xs : List ℕ) (answers : List (TRequestHeader × V))
    → Served f xs answers
    → All (λ p. request_is_ping p.0 ≡ false) answers
no_pings f [] _ nobody = tt
no_pings f (x ∷ xs) _ (serves {answers = rest} _ h v i r e p k s) = (p, no_pings f xs rest s)

module _ {V E F : Type 0} (server : Stream V E) (sent : E → List (Message V))
    (reliable : IsReliable server sent) (client : Stream V F) (merge : Option V → V → Option V)
    (arrived : F → List (Message V)) (is_wire : IsWire client merge arrived) where
  -- A call is taken from an open doneChan in which at most 100 others wait; they are different calls
  -- that have replies, succeeded, answer no pings and are counted as pending. Over streams that work,
  -- doWriteResponse then writes the answer to each once, in the order of the channel, and counts them
  -- down. A client for which those messages arrive reads them without an error, in as many rounds as
  -- there are answers, and what they do to it is what `answer` says: each finishes the call that is
  -- pending under the number of its request, with the reply of the method.
  pub replies_arrive :
      (x : ℕ) (xs : List ℕ) (answers : List (TRequestHeader × V)) (c : TServerConn V (TGobCodec E))
      (rest : List (Message V)) (fuel : ℕ) (σ : ConnState V (TGobCodec F))
      → Served c.calls (x ∷ xs) answers
      → length xs ≤ 100
      → length (x ∷ xs) ≤ c.pending_wg
      → arrived σ.codec.stream ≡ wire answers ++ rest
      → let done = answer merge answers σ.conn σ.store in
        (d : TServerConn V (TGobCodec E)) × (τ : ConnState V (TGobCodec F)) × (do_write_response
            (server_codec server)
            x
            (waiting xs c)
          ≡ finished (d, true))
        × (sent d.codec.stream ≡ sent c.codec.stream ++ wire answers)
        × (d.pending_wg + length (x ∷ xs) ≡ c.pending_wg)
        × (read_responses (client_codec client) (length answers + fuel) σ
            ≡ read_responses (client_codec client) fuel τ)
        × IsClient arrived done.0 done.1 rest τ
  replies_arrive x xs answers c rest fuel σ s few counted a =
      let (d, run, written, wg) =
        do_write_response-Served server sent reliable x xs answers c s few counted in
      let (τ, runs, is_client) =
        read_responses-answers client merge arrived is_wire answers rest fuel σ
          (no_pings c.calls (x ∷ xs) answers s) a in
      (d, τ, run, written, wg, runs, is_client)
