-- ===== src/Exchange/Serving.antt =====
-- How a connection of rpc/server_conn.go starts the calls of requests that arrived.
use gopl.Prelude.{
  ℕ, suc, ◌+◌, ◌≡◌, refl, ap, ◌∙◌, true, false, Option, none, some, List, ◌∷◌, arith,
}
use gopl.Prelude.Run.{finished}
use gopl.Header.{TRequestHeader, dummy_return}
use gopl.Codec.{IServerCodec}
use gopl.Call.{put, take_at}
use gopl.Server.{GoType, TService, TMethodType, Services}
use gopl.ServerConn.{TFuncCall, TServerConn, is_nil}
use gopl.ServerConn.Requests.{
  spawned, RoundEnv, request as asks, new_func_call, start_call, after_dispatch, handle,
  read_request, run_round,
}
use gopl.ServerConn.Rounds.{run_round-read}
use gopl.ServerConn.Accounts.{IsAccounted}
use gopl.ServerConn.Accounts.Moves.{Untouched, fill-IsAccounted, fill-Untouched}
use gopl.ServerConn.Accounts.Reading.{NoDispatch, new_func_call-IsAccounted}
use gopl.ServerConn.Accounts.Dispatch.{new_func_call-kept}

-- A round on a server that runs, without a function for dispatching.
pub record IsServing {V S : Type 0} (env : RoundEnv V S) : Type 0 where
  pub deadline : env.deadline ≡ none
  pub running : env.running ≡ true
  pub undispatched : NoDispatch env

module _ {V S : Type 0} where
  -- The call of a request, as RoutineRun fills it and before its method returns.
  pub record IsCallOf (h : TRequestHeader) (arg : Option V) (x : ℕ) (c : TServerConn V S)
      : Type 0 where
    pub asked_by : (c.calls x).header ≡ h
    pub given : (c.calls x).arg ≡ arg
    pub named : (c.calls x).method_name ≡ h.service_method
    pub has_reply : is_nil (c.calls x).reply ≡ false
    pub to_answer : (c.calls x).done ≡ true

  pub IsCallOf-same :
      (h : TRequestHeader) (arg : Option V) (x : ℕ) (c d : TServerConn V S)
      → d.calls x ≡ c.calls x
      → IsCallOf h arg x c
      → IsCallOf h arg x d
  IsCallOf-same h arg x c d e k = record {
    asked_by = ap (λ f. f.header) e ∙ k.asked_by;
    given = ap (λ f. f.arg) e ∙ k.given;
    named = ap (λ f. f.method_name) e ∙ k.named;
    has_reply = ap (λ f. is_nil f.reply) e ∙ k.has_reply;
    to_answer = ap (λ f. f.done) e ∙ k.to_answer;
  }

  -- What a round that starts the call `x` of a request leaves.
  pub record Starts (h : TRequestHeader) (arg : Option V) (x : ℕ) (y : S) (held : List ℕ)
      (owing : ℕ) (c d : TServerConn V S) : Type 0 where
    pub call : IsCallOf h arg x d
    pub read : d.codec ≡ y
    pub chan : d.done_chan ≡ c.done_chan
    pub counted : d.pending_wg ≡ c.pending_wg + 1
    pub accounted : IsAccounted d (x ∷ held) (suc owing)
    pub untouched : Untouched held c d

module _ {V S : Type 0} (codec : IServerCodec V S) (new_value : GoType → V) where
  handle-Starts :
      (env : RoundEnv V S) (h : TRequestHeader) (s : TService) (m : TMethodType) (arg : Option V)
      (c : TServerConn V S) (held : List ℕ) (owing : ℕ)
      → NoDispatch env
      → dummy_return h ≡ false
      → IsAccounted c held (suc owing)
      → (x : ℕ) × (d : TServerConn V S) × (handle codec new_value env (asks h s m arg) c
          ≡ finished (d, spawned x))
        × IsCallOf h arg x d
        × (d.codec ≡ c.codec)
        × (d.done_chan ≡ c.done_chan)
        × (d.pending_wg ≡ c.pending_wg)
        × IsAccounted d (x ∷ held) (suc owing)
        × Untouched held c d
  unfolding handle start_call after_dispatch
  handle-Starts env h s m arg c held owing n dm a =
      let o = take_at env.pick c.pool in
      let (b, x) = new_func_call o c in
      let v : TFuncCall V = record (b.calls x) {
        method_name = h.service_method;
        arg = arg;
        reply = some (new_value m.reply_type);
        header = h;
        done = false;
      } in
      let b' = record b { calls = put x v b.calls } in
      let w = record (b'.calls x) { done = true } in
      let d = record b' { calls = put x w b'.calls } in
      let (ch, wg, cod) = new_func_call-kept o c in
      let (q, u) = new_func_call-IsAccounted env.pick o c v held (suc owing) refl refl a in
      (
        x,
        d,
        rw dm (ap (after_dispatch codec h x) (n x d)),
        record {
          asked_by = ground arith;
          given = ground arith;
          named = ground arith;
          has_reply = ground arith;
          to_answer = ground arith;
        },
        cod,
        ch,
        wg,
        fill-IsAccounted x w b' held (suc owing) (ground arith) q,
        λ z k. fill-Untouched x w b' held (suc owing) q z k ∙ u z k,
      )

  pub run_round-Starts :
      (env : RoundEnv V S) (services : Services) (h : TRequestHeader) (s : TService)
      (m : TMethodType) (arg : Option V) (y : S) (c : TServerConn V S) (held : List ℕ) (owing : ℕ)
      → IsServing env
      → dummy_return h ≡ false
      → read_request codec new_value services c.codec ≡ (y, asks h s m arg)
      → IsAccounted c held owing
      → (x : ℕ) × (d : TServerConn V S) × (run_round codec new_value env services c
          ≡ finished (d, spawned x))
        × Starts h arg x y held owing c d
  run_round-Starts env services h s m arg y c held owing e dm r a =
      let b = record c { codec = y; pending_wg = c.pending_wg + 1 } in
      let (x, d, run, call, cod, ch, wg, q, u) =
        handle-Starts env h s m arg b held owing e.undispatched dm (record {
          owned = a.owned;
          made = a.made;
          ready = a.ready;
          announced = a.announced;
          counted = omega (arith, a.counted);
          still_open = a.still_open;
        }) in
      (
        x,
        d,
        run_round-read codec new_value services env c y (asks h s m arg) e.deadline e.running r
            ∙ run,
        record { call = call; read = cod; chan = ch; counted = wg; accounted = q; untouched = u },
      )
