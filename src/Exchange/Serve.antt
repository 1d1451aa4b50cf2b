-- ===== src/Exchange/Serve.antt =====
-- A group of requests at the routines of a server, rpc/server_conn.go: from the wire to the wire.
use gopl.Prelude.{
  ℕ, ◌+◌, ◌≤◌, ◌≡◌, refl, ap, ◌∙◌, sym, true, false, Bool, Option, List, [], ◌∷◌, ◌++◌, length, map,
  All, arith,
}
use gopl.Prelude.Run.{Run, finished, ◌>>=◌}
use gopl.Chan.{Chan, received, recv_closed, recv_default, try_recv}
use gopl.Header.{TRequestHeader, request_is_ping}
use gopl.Codec.{IServerCodec}
use gopl.Server.{GoType, Services}
use gopl.GobCodec.{Message, Stream, TGobCodec, server_codec}
use gopl.ServerConn.{TServerConn}
use gopl.ServerConn.Responses.{do_write_response}
use gopl.ServerConn.Requests.{Round, next, spawned, ended, RoundEnv, write_response_round}
use gopl.ServerConn.Stream.{IsReliable}
use gopl.ServerConn.Accounts.{IsAccounted}
use gopl.Exchange.{wire, waiting, Served}
use gopl.Exchange.Answering.{do_write_response-Served}
use gopl.Exchange.Asking.{asked}
use gopl.Exchange.Serving.{IsServing}
use gopl.Exchange.Started.{length-Started, run_rounds, run_rounds-StartsAll}
use gopl.Exchange.Requests.{IsDuplex, IsServed, argument_of}
use gopl.Exchange.Returning.{return_all, answers_of, return_all-ReturnsAll}

-- The calls that rounds started.
abbrev pub started_calls : List Round → List ℕ
started_calls [] = []
started_calls (spawned x ∷ rs) = x ∷ started_calls rs
started_calls (next ∷ rs) = started_calls rs
started_calls (ended ∷ rs) = started_calls rs

started_calls-spawned : (xs : List ℕ) → started_calls (map spawned xs) ≡ xs
started_calls-spawned [] = refl
started_calls-spawned (x ∷ xs) = ap (λ l. x ∷ l) (started_calls-spawned xs)

module _ {V S : Type 0} (codec : IServerCodec V S) (new_value : GoType → V) (services : Services)
    (method : TRequestHeader → Option V → V) where
  -- A server that reads a request in each of some rounds of RoutineRun; then the methods return in
  -- the order of the requests, and RoutineWriteResponse does a round.
  unfoldable pub serve : List (RoundEnv V S) → TServerConn V S → Run (TServerConn V S × Bool)
  unfolding run_rounds return_all write_response_round
  serve envs c = do
    (d, rs) ← run_rounds codec new_value services envs c
    e ← return_all method (started_calls rs) d
    write_response_round codec e

  serve-steps :
      (envs : List (RoundEnv V S)) (xs : List ℕ) (c d e : TServerConn V S)
      → run_rounds codec new_value services envs c ≡ finished (d, map spawned xs)
      → return_all method xs d ≡ finished e
      → serve envs c ≡ write_response_round codec e
  unfolding serve
  serve-steps envs xs c d e run ret = rw (run, started_calls-spawned xs, ret) refl

abbrev chan_of : List ℕ → ℕ → Bool → Chan ℕ
chan_of xs n b = record { buf = xs; cap = n; closed = b }

module _ {V S : Type 0} (codec : IServerCodec V S) where
  write_round-waiting :
      (x n : ℕ) (xs : List ℕ) (e : TServerConn V S)
      → e.done_chan ≡ record { buf = x ∷ xs; cap = n; closed = false }
      → write_response_round codec e ≡ do_write_response codec x (waiting xs e)
  unfolding write_response_round try_recv
  write_round-waiting x n xs e h =
      let go : Chan ℕ → Run (TServerConn V S × Bool) = λ ch. elim (try_recv ch) [
        | received call d ↦ do_write_response codec call (record e { done_chan = d })
        | recv_closed ↦ finished (e, false)
        | recv_default ↦ finished (e, true)
      ] in
      let rest : ℕ → Chan ℕ = λ m. record { buf = xs; cap = m; closed = false } in
      ap go h
      ∙ ap (λ m. do_write_response codec x (record e { done_chan = rest m }))
          (sym (ap (λ ch. ch.cap) h))

-- What the server has done with a group.
pub record Serves {V E : Type 0} (sent : E → List (Message V)) (answers : List (TRequestHeader × V))
    (c d : TServerConn V (TGobCodec E)) : Type 0 where
  pub wrote : sent d.codec.stream ≡ sent c.codec.stream ++ wire answers
  pub counted : d.pending_wg ≡ c.pending_wg

module _ {V : Type 0} (new_value : GoType → V) (merge : Option V → V → Option V)
    (services : Services) (method : TRequestHeader → Option V → V) where
  -- The answers to requests, by the methods that the server has for them.
  abbrev pub answers_to : List (TRequestHeader × V) → List (TRequestHeader × V)
  answers_to = answers_of method (argument_of new_value merge services)

  pub answers-NoPings :
      (requests : List (TRequestHeader × V))
      → All (λ p. IsServed services p.0) requests
      → All (λ p. request_is_ping p.0 ≡ false) (answers_to requests)
  answers-NoPings [] ks = tt
  answers-NoPings ((h, v) ∷ rest) (k, ks) = (k.no_ping, answers-NoPings rest ks)

module _ {V E : Type 0} (server : Stream V E) (sent arrived : E → List (Message V))
    (reliable : IsReliable server sent) (merge : Option V → V → Option V)
    (duplex : IsDuplex server merge sent arrived) (new_value : GoType → V) (services : Services)
    (method : TRequestHeader → Option V → V) where
  abbrev answers : List (TRequestHeader × V) → List (TRequestHeader × V)
  answers = answers_to new_value merge services method

  writes-Serves :
      (xs : List ℕ) (requests : List (TRequestHeader × V)) (c e : TServerConn V (TGobCodec E))
      → 1 ≤ length xs
      → length xs ≤ 101
      → Served e.calls xs (answers requests)
      → e.done_chan ≡ record { buf = xs; cap = c.done_chan.cap; closed = false }
      → sent e.codec.stream ≡ sent c.codec.stream
      → e.pending_wg ≡ c.pending_wg + length xs
      → (d : TServerConn V (TGobCodec E)) × (write_response_round (server_codec server) e
          ≡ finished (d, true))
        × Serves sent (answers requests) c d
  writes-Serves [] requests c e some_calls few s ch unsent n = absurd (omega (arith, some_calls))
  writes-Serves (x ∷ xs) requests c e some_calls few s ch unsent n =
      let (d, run, written, wg) =
        do_write_response-Served server sent reliable x xs (answers requests) e s
          (omega (arith, few)) (omega (arith, n)) in
      (
        d,
        write_round-waiting (server_codec server) x c.done_chan.cap xs e ch ∙ run,
        record {
          wrote = written ∙ ap (λ l. l ++ wire (answers requests)) unsent;
          counted = omega (arith, wg, n);
        },
      )

  pub serve-Serves :
      (envs : List (RoundEnv V (TGobCodec E))) (requests : List (TRequestHeader × V))
      (rest : List (Message V)) (c : TServerConn V (TGobCodec E)) (held : List ℕ) (owing : ℕ)
      → 1 ≤ length requests
      → length requests ≤ 101
      → length envs ≡ length requests
      → All IsServing envs
      → All (λ p. IsServed services p.0) requests
      → IsAccounted c held owing
      → c.done_chan.buf ≡ []
      → length requests ≤ c.done_chan.cap
      → arrived c.codec.stream ≡ asked requests ++ rest
      → (d : TServerConn V (TGobCodec E)) × (serve
            (server_codec server)
            new_value
            services
            method
            envs
            c
          ≡ finished (d, true))
        × Serves sent (answers requests) c d
  serve-Serves envs requests rest c held owing some_calls few l es ks a idle room r =
      let arg = argument_of new_value merge services in
      let (d, xs, run, st) =
        run_rounds-StartsAll server merge sent arrived duplex new_value services envs requests rest
          c held owing l es ks a r in
      let n = length-Started arg xs requests d st.calls in
      let (e, ret, all) =
        return_all-ReturnsAll method services arg xs requests d ks st.calls
          (ap (λ ch. ch.closed) st.chan ∙ a.still_open)
          (omega (
            arith,
            n,
            room,
            ap (λ ch. length ch.buf) st.chan,
            ap length idle,
            ap (λ ch. ch.cap) st.chan,
          )) in
      let ch : e.done_chan ≡ record { buf = xs; cap = c.done_chan.cap; closed = false } =
        all.chan
        ∙ ap (λ ch. chan_of (ch.buf ++ xs) ch.cap ch.closed) st.chan
        ∙ ap (λ b. chan_of (b ++ xs) c.done_chan.cap c.done_chan.closed) idle
        ∙ ap (chan_of xs c.done_chan.cap) a.still_open in
      let (f, wr, done) =
        writes-Serves xs requests c e (omega (arith, n, some_calls)) (omega (arith, n, few))
          all.served ch (ap (λ (y : TGobCodec E). sent y.stream) all.wire ∙ st.unsent)
          (omega (arith, all.counted, st.counted, n)) in
      (
        f,
        serve-steps (server_codec server) new_value services method envs xs c d e run ret ∙ wr,
        done,
      )
