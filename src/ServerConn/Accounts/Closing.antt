-- ===== src/ServerConn/Accounts/Closing.antt =====
-- How a connection of rpc/server_conn.go ends after TServer.Stop: RoutineRun waits for pendingWg and
-- closes doneChan, while RoutineWriteResponse and methods go on.
use gopl.Prelude.{
  All, All-of_count, ℕ, ◌≤◌, ◌≡◌, refl, ap, sym, subst, ◌∙◌, inl, inr, false, true, none, Option,
  List, arith, count, Bool-cases, ◌==◌, ==_iff,
}
use gopl.Prelude.Run.{finished, finished_inj}
use gopl.RpcError.{GoError}
use gopl.Codec.{IServerCodec}
use gopl.Server.{GoType, Services}
use gopl.Client.Choose.{remove_first}
use gopl.Client.Choose.Removal.{count-remove_first}
use gopl.ServerConn.{TServerConn, free_func_call}
use gopl.ServerConn.Responses.{do_call}
use gopl.ServerConn.Requests.{ended, RoundEnv, run_round, wait_pending, end_run, read_request}
use gopl.ServerConn.Sender.{Sender, sender_piece}
use gopl.ServerConn.Accounts.Running.{Running, started, Steps}
use gopl.ServerConn.Accounts.InOrder.{started-InOrder}
use gopl.ServerConn.Accounts.Steps.{Steps-InOrder}
use gopl.ServerConn.Accounts.Settled.{Steps-Fits, IsSettled, settles}
use gopl.ServerConn.Accounts.Drained.{
  owed_zero, IsDrained, sender_piece-Rests, do_call-quiet, returned_quiet,
}

module _ {V S : Type 0} (codec : IServerCodec V S) where
  -- After RoutineRun: RoutineWriteResponse does its next piece, or a method returns.
  pub data Ending (ρ : Running V S) : Running V S → Type 0 where
    ended_here : Ending ρ ρ
    sends_on :
        {σ : Running V S} (d : TServerConn V S) (s : Sender)
        → Ending ρ σ
        → sender_piece codec σ.sender σ.conn ≡ finished (d, s)
        → Ending ρ (record σ { conn = d; sender = s })
    returns_late :
        {σ : Running V S} (x : ℕ) (ret : List (Option GoError)) (d : TServerConn V S)
        → Ending ρ σ
        → 1 ≤ count x σ.held
        → do_call x ret σ.conn ≡ finished d
        → Ending ρ (record σ { conn = d; held = remove_first x σ.held })

  -- The connection once RoutineRun has closed doneChan and the codec.
  abbrev pub closed : TServerConn V S → TServerConn V S
  closed c = record c {
    done_chan = record c.done_chan { closed = true };
    codec = (codec.close c.codec).0;
  }

  settled-IsDrained :
      (ρ : Running V S) (y : S)
      → IsSettled ρ
      → IsDrained (record ρ { conn = closed (record ρ.conn { codec = y }) })
  settled-IsDrained ρ y s = record {
    none_waits = s.none_waits;
    shut = refl;
    none_in_hand = s.none_in_hand;
    none_uncounted = s.none_uncounted;
    quiet = owed_zero ρ.conn.calls ρ.held s.none_owed;
  }

  sends_on-IsDrained :
      (σ : Running V S) (d : TServerConn V S) (s : Sender)
      → sender_piece codec σ.sender σ.conn ≡ finished (d, s)
      → IsDrained σ
      → IsDrained (record σ { conn = d; sender = s })
  sends_on-IsDrained σ d s e a =
      let p =
        sender_piece-Rests codec σ.sender σ.conn a.none_waits a.shut a.none_in_hand
          a.none_uncounted in
      subst (λ (q : TServerConn V S × Sender). IsDrained (record σ { conn = q.0; sender = q.1 }))
        (finished_inj (sym p.ends ∙ e))
        (record {
          none_waits = a.none_waits;
          shut = a.shut;
          none_in_hand = p.none_in_hand;
          none_uncounted = p.none_uncounted;
          quiet = a.quiet;
        })

  returns_late-IsDrained :
      (σ : Running V S) (x : ℕ) (ret : List (Option GoError)) (d : TServerConn V S)
      → 1 ≤ count x σ.held
      → do_call x ret σ.conn ≡ finished d
      → IsDrained σ
      → IsDrained (record σ { conn = d; held = remove_first x σ.held })
  unfolding free_func_call
  returns_late-IsDrained σ x ret d h e a =
      subst (λ d. IsDrained (record σ { conn = d; held = remove_first x σ.held }))
        (finished_inj (sym (do_call-quiet x ret σ.conn (a.quiet x h)) ∙ e))
        (record {
          none_waits = a.none_waits;
          shut = a.shut;
          none_in_hand = a.none_in_hand;
          none_uncounted = a.none_uncounted;
          quiet = λ z k.
              returned_quiet x z ret σ.conn
                (a.quiet z (omega (arith, count-remove_first x σ.held h z)));
        })

  Ending-IsDrained : {ρ σ : Running V S} → Ending ρ σ → IsDrained ρ → IsDrained σ
  Ending-IsDrained ended_here a = a
  Ending-IsDrained (sends_on {σ = σ} d s r e) a = sends_on-IsDrained σ d s e (Ending-IsDrained r a)
  Ending-IsDrained (returns_late {σ = σ} x ret d r h e) a =
      returns_late-IsDrained σ x ret d h e (Ending-IsDrained r a)

module _ {V S : Type 0} (codec : IServerCodec V S) (new_value : GoType → V) where
  run_round-stopped :
      (env : RoundEnv V S) (services : Services) (c : TServerConn V S)
      → env.deadline ≡ none
      → env.running ≡ false
      → run_round codec new_value env services c
        ≡ wait_pending (record c { codec = (read_request codec new_value services c.codec).0 })
  unfolding run_round
  run_round-stopped env services c e t = rw (e, t) refl

  -- Where a round of RoutineRun on a server that was stopped ends, pendingWg.Wait() came through.
  waited :
      (env : RoundEnv V S) (services : Services) (c d : TServerConn V S)
      → env.deadline ≡ none
      → env.running ≡ false
      → run_round codec new_value env services c ≡ finished (d, ended)
      → (c.pending_wg ≡ 0)
        × (record c { codec = (read_request codec new_value services c.codec).0 } ≡ d)
  unfolding wait_pending
  waited env services c d e t h =
      let b = record c { codec = (read_request codec new_value services c.codec).0 } in
      let h' : wait_pending b ≡ finished (d, ended) =
        sym (run_round-stopped env services c e t) ∙ h in
      elim (Bool-cases (c.pending_wg == 0)) [
        | inl z ↦
            ((==_iff c.pending_wg 0).0 z, ap (λ p. p.0) (finished_inj (rw (wait_pending, z) at h')))
        | inr z ↦ let h'' = rw (wait_pending, z) at h' in absurd (cc)
      ]

  -- On a new connection, after any order of the pieces of its routines: when RoutineRun finds the
  -- server stopped and its pendingWg.Wait() comes through, no call waits in doneChan, none is in the
  -- hands of RoutineWriteResponse or counted down late, and no method that runs is to be answered.
  -- Closing doneChan does not panic then; and however RoutineWriteResponse and the methods that still
  -- run go on after it, the next piece of the one and the return of each of the others end without a
  -- panic or a wait.
  pub stops_cleanly :
      (y : S) (max_wait_resp : ℕ) (ρ σ : Running V S) (env : RoundEnv V S) (services : Services)
      (d : TServerConn V S) (ret : List (Option GoError))
      → Steps codec new_value (started y max_wait_resp) ρ
      → env.deadline ≡ none
      → env.running ≡ false
      → run_round codec new_value env services ρ.conn ≡ finished (d, ended)
      → Ending codec (record ρ { conn = closed codec d }) σ
      → IsSettled ρ
        × (end_run codec d ≡ finished (closed codec d))
        × ((e : TServerConn V S) × (s : Sender) × (sender_piece codec σ.sender σ.conn
              ≡ finished (e, s)))
        × All (λ x. (e : TServerConn V S) × (do_call x ret σ.conn ≡ finished e)) σ.held
  unfolding end_run
  stops_cleanly y max_wait_resp ρ σ env services d ret r e t h w =
      let a = Steps-InOrder codec new_value r (started-InOrder y max_wait_resp) in
      let (zero_pending, same) = waited env services ρ.conn d e t h in
      let settled = settles ρ (Steps-Fits codec new_value r tt) a zero_pending in
      let open_still : d.done_chan.closed ≡ false =
        ap (λ c. c.done_chan.closed) (sym same) ∙ a.accounted.still_open in
      let drained =
        subst (λ d. IsDrained (record ρ { conn = closed codec d })) same
          (settled-IsDrained codec ρ _ settled) in
      let b = Ending-IsDrained codec w drained in
      let p =
        sender_piece-Rests codec σ.sender σ.conn b.none_waits b.shut b.none_in_hand
          b.none_uncounted in
      (
        settled,
        ground (arith, open_still),
        (_, _, p.ends),
        All-of_count σ.held (λ x k. (_, do_call-quiet x ret σ.conn (b.quiet x k))),
      )
