-- ===== src/Exchange/Started.antt =====
-- What RoutineRun of rpc/server_conn.go makes of the requests of a group that arrived.
use gopl.Prelude.{
  ℕ, suc, ◌+◌, ◌≡◌, refl, ap, ◌∙◌, Option, List, [], ◌∷◌, ◌++◌, length, map, All, arith, count,
  ==_iff, count_head, count-append, All-map,
}
use gopl.Prelude.Run.{Run, finished, ◌>>=◌}
use gopl.Header.{TRequestHeader}
use gopl.Codec.{IServerCodec}
use gopl.Server.{GoType, Services}
use gopl.GobCodec.{Message, Stream, TGobCodec, server_codec}
use gopl.ServerConn.{TServerConn}
use gopl.ServerConn.Requests.{Round, spawned, RoundEnv, run_round}
use gopl.ServerConn.Accounts.{IsAccounted, IsAccounted-same}
use gopl.ServerConn.Accounts.Moves.{Untouched}
use gopl.Exchange.Asking.{asked}
use gopl.Exchange.Serving.{IsServing, IsCallOf, IsCallOf-same, run_round-Starts}
use gopl.Exchange.Requests.{IsDuplex, IsServed, argument_of, read_request-asks}

module _ {V : Type 0} where
  -- Different calls, one for each request in their order.
  abbrev pub Started :
      {S : Type 0}
      → (TRequestHeader → V → Option V)
      → List ℕ
      → List (TRequestHeader × V)
      → TServerConn V S
      → Type 0
  Started arg [] [] c = Unit
  Started arg (x ∷ xs) ((h, v) ∷ rest) c =
      IsCallOf h (arg h v) x c × (count x xs ≡ 0) × Started arg xs rest c
  Started arg xs requests c = ⊥

module _ {V S : Type 0} where
  pub length-Started :
      (arg : TRequestHeader → V → Option V) (xs : List ℕ) (requests : List (TRequestHeader × V))
      (c : TServerConn V S)
      → Started arg xs requests c
      → length xs ≡ length requests
  length-Started arg [] [] c s = refl
  length-Started arg [] (q ∷ qs) c s = absurd s
  length-Started arg (x ∷ xs) [] c s = absurd s
  length-Started arg (x ∷ xs) ((h, v) ∷ qs) c (k, once, s) = ap suc (length-Started arg xs qs c s)

module _ {V S : Type 0} (codec : IServerCodec V S) (new_value : GoType → V)
    (services : Services) where
  -- The rounds of RoutineRun, one after the other; what they started comes in their order.
  unfoldable pub run_rounds :
      List (RoundEnv V S) → TServerConn V S → Run (TServerConn V S × List Round)
  unfolding run_round
  run_rounds [] c = finished (c, [])
  run_rounds (env ∷ envs) c = do
    (d, r) ← run_round codec new_value env services c
    (e, rs) ← run_rounds envs d
    finished (e, r ∷ rs)

module _ {V E : Type 0} (io : Stream V E) (merge : Option V → V → Option V)
    (sent arrived : E → List (Message V)) (duplex : IsDuplex io merge sent arrived)
    (new_value : GoType → V) (services : Services) where
  run_rounds-next :
      (env : RoundEnv V (TGobCodec E)) (envs : List (RoundEnv V (TGobCodec E)))
      (c d e : TServerConn V (TGobCodec E)) (r : Round) (rs : List Round)
      → run_round (server_codec io) new_value env services c ≡ finished (d, r)
      → run_rounds (server_codec io) new_value services envs d ≡ finished (e, rs)
      → run_rounds (server_codec io) new_value services (env ∷ envs) c ≡ finished (e, r ∷ rs)
  unfolding run_rounds
  run_rounds-next env envs c d e r rs one more = rw (one, more) refl

  -- What the rounds for a group leave.
  pub record StartsAll (requests : List (TRequestHeader × V)) (xs : List ℕ)
      (rest : List (Message V)) (held : List ℕ) (owing : ℕ) (c d : TServerConn V (TGobCodec E))
      : Type 0 where
    pub calls : Started (argument_of new_value merge services) xs requests d
    pub others : All (λ x. count x held ≡ 0) xs
    pub accounted : IsAccounted d (xs ++ held) (length requests + owing)
    pub untouched : Untouched held c d
    pub chan : d.done_chan ≡ c.done_chan
    pub counted : d.pending_wg ≡ c.pending_wg + length requests
    pub unread : arrived d.codec.stream ≡ rest
    pub unsent : sent d.codec.stream ≡ sent c.codec.stream

  pub run_rounds-StartsAll :
      (envs : List (RoundEnv V (TGobCodec E))) (requests : List (TRequestHeader × V))
      (rest : List (Message V)) (c : TServerConn V (TGobCodec E)) (held : List ℕ) (owing : ℕ)
      → length envs ≡ length requests
      → All IsServing envs
      → All (λ p. IsServed services p.0) requests
      → IsAccounted c held owing
      → arrived c.codec.stream ≡ asked requests ++ rest
      → (d : TServerConn V (TGobCodec E)) × (xs : List ℕ) × (run_rounds
            (server_codec io)
            new_value
            services
            envs
            c
          ≡ finished (d, map spawned xs))
        × StartsAll requests xs rest held owing c d
  unfolding run_rounds
  run_rounds-StartsAll [] [] rest c held owing l es ks a r = (
    c,
    [],
    refl,
    record {
      calls = tt;
      others = tt;
      accounted = IsAccounted-same c held held owing (0 + owing) (λ x. refl) (omega arith) a;
      untouched = λ x h. refl;
      chan = refl;
      counted = omega arith;
      unread = r;
      unsent = refl;
    },
  )
  run_rounds-StartsAll [] (q ∷ qs) rest c held owing l es ks a r = absurd (omega (arith, l))
  run_rounds-StartsAll (e ∷ es) [] rest c held owing l fs ks a r = absurd (omega (arith, l))
  run_rounds-StartsAll (e ∷ es) ((h, v) ∷ qs) rest c held owing l (f, fs) (k, ks) a r =
      let (y, read, left, kept) =
        read_request-asks io merge sent arrived duplex new_value services h v (asked qs ++ rest)
          c.codec k r in
      let (x, b, run, st) =
        run_round-Starts (server_codec io) new_value e services h k.service k.method
          (argument_of new_value merge services h v) y c held owing f k.wants_result read a in
      let (d, xs, more, all) =
        run_rounds-StartsAll es qs rest b (x ∷ held) (suc owing) (omega (arith, l)) fs ks
          st.accounted (ap (λ q. arrived q.stream) st.read ∙ left) in
      (
        d,
        x ∷ xs,
        run_rounds-next e es c b d (spawned x) (map spawned xs) run more,
        record {
          calls = (
            IsCallOf-same h (argument_of new_value merge services h v) x b d
                (all.untouched x (count_head x held)) st.call,
            omega (arith, all.accounted.owned x, count-append x xs (x ∷ held), count_head x held),
            all.calls,
          );
          others = (
            ground (arith, st.accounted.owned x, ==_iff x x),
            All-map (λ z n. omega (arith, n)) xs all.others,
          );
          accounted =
              IsAccounted-same d (xs ++ x ∷ held) (x ∷ xs ++ held) (length qs + suc owing) _
                (λ z. omega (arith, count-append z xs (x ∷ held), count-append z xs held))
                (omega arith) all.accounted;
          untouched = λ z n. all.untouched z (omega (arith, n)) ∙ st.untouched z n;
          chan = all.chan ∙ st.chan;
          counted = omega (arith, all.counted, st.counted);
          unread = all.unread;
          unsent = all.unsent ∙ ap (λ (q : TGobCodec E). sent q.stream) st.read ∙ kept;
        },
      )
