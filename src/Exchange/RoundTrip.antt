-- ===== src/Exchange/RoundTrip.antt =====
-- A group of calls of a client, rpc/client_conn.go, from sendGroupCall over the routines of its
-- server, rpc/server_conn.go, and back to RoutineReadResponse.
use gopl.Prelude.{
  ℕ, ◌+◌, ◌≤◌, ◌≡◌, ap, ◌∙◌, sym, true, Option, none, List, [], ◌++◌, length, length-map, All,
}
use gopl.Prelude.Run.{Run, finished}
use gopl.RpcError.{GoError}
use gopl.Header.{TRequestHeader}
use gopl.Server.{GoType, Services}
use gopl.ClientConn.{TClientGroupRequest, ConnState}
use gopl.ClientConn.Sending.{send_group_call}
use gopl.ClientConn.Receiving.{read_responses}
use gopl.GobCodec.{Message, Stream, TGobCodec, server_codec, client_codec}
use gopl.ServerConn.{TServerConn}
use gopl.ServerConn.Requests.{RoundEnv}
use gopl.ServerConn.Stream.{IsReliable}
use gopl.ServerConn.Accounts.{IsAccounted}
use gopl.Exchange.{wire, answer}
use gopl.Exchange.Reading.{IsWire, IsClient, read_responses-answers}
use gopl.Exchange.Asking.{Asks, asked, send_group_call-Asks}
use gopl.Exchange.Serving.{IsServing}
use gopl.Exchange.Requests.{IsDuplex, IsServed}
use gopl.Exchange.Serve.{serve, Serves, serve-Serves, answers_to, answers-NoPings}

module _ {V E F : Type 0} (client : Stream V F) (out inbox : F → List (Message V))
    (reliable : IsReliable client out) (merge : Option V → V → Option V)
    (is_wire : IsWire client merge inbox) (server : Stream V E)
    (sent arrived : E → List (Message V)) (reliable' : IsReliable server sent)
    (merge' : Option V → V → Option V) (duplex : IsDuplex server merge' sent arrived)
    (new_value : GoType → V) (services : Services) (method : TRequestHeader → Option V → V) where
  -- Over streams that work, sendGroupCall of calls with arguments changes nothing but the codec,
  -- and writes each request with its argument. Let these messages arrive at the server, of a group
  -- of at most 101, none of them a ping, all for methods that it knows and with their results
  -- wanted, on a connection whose accounts are in order and in whose doneChan no call waits and all
  -- of them have room. Then as many rounds of RoutineRun, while the server runs and dispatches
  -- nothing, start a routine for each; and when the methods have returned nil in the order of the
  -- requests, a round of RoutineWriteResponse writes one answer to each, with the method's reply to
  -- the argument, and pendingWg is as it was. Let these answers arrive at the client:
  -- RoutineReadResponse reads them without an error, in as many rounds, and what they do is what
  -- `answer` says: each finishes the call that is pending under its request's number, with that
  -- reply.
  pub round_trip :
      (group : List TClientGroupRequest) (requests : List (TRequestHeader × V))
      (σ : ConnState V (TGobCodec F)) (envs : List (RoundEnv V (TGobCodec E)))
      (c : TServerConn V (TGobCodec E)) (held : List ℕ) (owing : ℕ) (y : TGobCodec F)
      (rest rest' : List (Message V)) (fuel : ℕ)
      → ((x : F) → (client.flush_buffer x).1 ≡ none)
      → Asks σ.store.calls group requests
      → 1 ≤ length requests
      → length requests ≤ 101
      → length envs ≡ length requests
      → All IsServing envs
      → All (λ p. IsServed services p.0) requests
      → IsAccounted c held owing
      → c.done_chan.buf ≡ []
      → length requests ≤ c.done_chan.cap
      → arrived c.codec.stream ≡ asked requests ++ rest
      → inbox y.stream ≡ wire (answers_to new_value merge' services method requests) ++ rest'
      → let done =
          answer merge (answers_to new_value merge' services method requests) σ.conn σ.store in
        (b : TGobCodec F) × (d : TServerConn V (TGobCodec E)) × (τ : ConnState V (TGobCodec F))
        × (send_group_call (client_codec client) group σ ≡ (record σ { codec = b }, none))
        × (out b.stream ≡ out σ.codec.stream ++ asked requests)
        × (serve (server_codec server) new_value services method envs c ≡ finished (d, true))
        × Serves sent (answers_to new_value merge' services method requests) c d
        × (read_responses (client_codec client) (length requests + fuel) (record σ { codec = y })
            ≡ read_responses (client_codec client) fuel τ)
        × IsClient inbox done.0 done.1 rest' τ
  round_trip group requests σ envs c held owing y rest rest' fuel f k some_calls few l es ks a idle
        room r i =
      let (b, sends, written) = send_group_call-Asks client out reliable group requests σ f k in
      let (d, serves, done) =
        serve-Serves server sent arrived reliable' merge' duplex new_value services method envs
          requests rest c held owing some_calls few l es ks a idle room r in
      let (τ, reads, is_client) =
        read_responses-answers client merge inbox is_wire
          (answers_to new_value merge' services method requests) rest' fuel (record σ { codec = y })
          (answers-NoPings new_value merge' services method requests ks) i in
      let n : length requests ≡ length (answers_to new_value merge' services method requests) =
        sym (length-map requests _) in
      let go : ℕ → Run (ConnState V (TGobCodec F) × GoError) =
        λ n. read_responses (client_codec client) (n + fuel) (record σ { codec = y }) in
      (b, d, τ, sends, written, serves, done, ap go n ∙ reads, is_client)
