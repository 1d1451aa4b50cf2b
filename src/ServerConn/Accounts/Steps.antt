-- ===== src/ServerConn/Accounts/Steps.antt =====
-- The accounts of a connection of rpc/server_conn.go hold in any order of its routines' pieces.
use gopl.Prelude.{
  All, All-of_count, ℕ, ◌+◌, ◌≤◌, ◌≡◌, refl, ap, sym, subst, ◌∙◌, inl, inr, ◌≢◌, Option, List, ◌∷◌,
  length, arith, count, ◌⊎◌, suc, none, some, ◌++◌, count-append, false,
}
use gopl.Prelude.Run.{finished_inj, finished, panics, blocks}
use gopl.RpcError.{GoError}
use gopl.Codec.{IServerCodec}
use gopl.Server.{GoType, Services}
use gopl.Client.Choose.{remove_first}
use gopl.Client.Choose.Removal.{count-remove_first}
use gopl.ServerConn.{TServerConn}
use gopl.ServerConn.Responses.{do_call}
use gopl.ServerConn.Requests.{Round, next, RoundEnv, Read}
use gopl.ServerConn.Accounts.{IsAccounted, IsAccounted-same, owed}
use gopl.ServerConn.Accounts.Moves.{weaken}
use gopl.ServerConn.Accounts.Routines.{do_call-IsAccounted}
use gopl.ServerConn.Accounts.Reading.{round_held, RoundFine, NoDispatch, handle-Fine}
use gopl.ServerConn.Sender.{Sender, is_halted, sender_piece}
use gopl.ServerConn.Accounts.Pieces.{sender_hand, sender_owing, sender_piece-Fine}
use gopl.ServerConn.Accounts.Running.{
  Running, started, handle_next, read_next, Step, reads, handles, sends, returns, Steps, here,
  next_step,
}
use gopl.ServerConn.Accounts.InOrder.{
  reading, owing, InOrder, owed-Untouched, Untouched-right, owed-round, count-round,
  started-InOrder, owed-remove_first,
}

module _ {V S : Type 0} (codec : IServerCodec V S) (new_value : GoType → V) where
  handle_next-Fine :
      (env : RoundEnv V S) (o : Option (Read V)) (c : TServerConn V S) (held : List ℕ) (n : ℕ)
      → NoDispatch env
      → IsAccounted c held (reading o + n)
      → RoundFine held n c (handle_next codec new_value env o c)
  unfolding handle_next
  handle_next-Fine env none c held n no_dispatch a =
      (c, next, refl, weaken c held _ n (omega arith) a, λ x h. refl)
  handle_next-Fine env (some r) c held n no_dispatch a =
      handle-Fine codec new_value env r c held n no_dispatch
        (weaken c held _ (suc n) (omega arith) a)

  -- The reader's turn: the other hands keep what they hold.
  handles-Fine :
      (env : RoundEnv V S) (ρ : Running V S)
      → NoDispatch env
      → InOrder ρ
      → (d : TServerConn V S) × (r : Round) × (handle_next codec new_value env ρ.reader ρ.conn
          ≡ finished (d, r))
        × InOrder (record ρ { conn = d; reader = none; held = round_held r ρ.held })
  handles-Fine env ρ n a =
      let hand = sender_hand ρ.sender in
      let m = sender_owing ρ.sender in
      let rest = owed ρ.conn.calls ρ.held in
      let (d, r, e, q, u) =
        handle_next-Fine env ρ.reader ρ.conn (hand ++ ρ.held) (m + rest) n
          (weaken ρ.conn (hand ++ ρ.held) (owing ρ) _ (omega arith) a.accounted) in
      let w = owed-round r ρ.conn d ρ.held m (Untouched-right hand ρ.held ρ.conn d u) in
      (
        d,
        r,
        e,
        record {
          accounted =
              IsAccounted-same d (round_held r (hand ++ ρ.held)) (hand ++ round_held r ρ.held) _
                (m + (0 + owed d.calls (round_held r ρ.held))) (count-round r hand ρ.held)
                (omega (arith, w)) q;
          goes_on = a.goes_on;
        },
      )

  sends-Fine :
      (ρ : Running V S)
      → InOrder ρ
      → (d : TServerConn V S) × (s : Sender) × (sender_piece codec ρ.sender ρ.conn
          ≡ finished (d, s))
        × InOrder (record ρ { conn = d; sender = s })
  sends-Fine ρ a =
      let rest = reading ρ.reader + owed ρ.conn.calls ρ.held in
      let p = sender_piece-Fine codec ρ.sender ρ.conn ρ.held rest a.goes_on a.accounted in
      let w = owed-Untouched ρ.conn p.conn ρ.held p.untouched in
      (
        p.conn,
        p.sender,
        p.ends,
        record {
          accounted =
              weaken p.conn (sender_hand p.sender ++ ρ.held) (sender_owing p.sender + rest) _
                (omega (arith, w)) p.accounted;
          goes_on = p.goes_on;
        },
      )

  returns-Fine :
      (x : ℕ) (ret : List (Option GoError)) (ρ : Running V S)
      → 1 ≤ count x ρ.held
      → InOrder ρ
      → (do_call x ret ρ.conn ≡ blocks)
        ⊎ ((d : TServerConn V S) × (do_call x ret ρ.conn ≡ finished d)
            × InOrder (record ρ { conn = d; held = remove_first x ρ.held }))
  returns-Fine x ret ρ h a =
      let hand = sender_hand ρ.sender in
      let others = hand ++ remove_first x ρ.held in
      let left =
        sender_owing ρ.sender + (reading ρ.reader + owed ρ.conn.calls (remove_first x ρ.held)) in
      elim (do_call-IsAccounted x ret ρ.conn others left (
        IsAccounted-same ρ.conn (hand ++ ρ.held) (x ∷ others) (owing ρ) _
          (λ z. omega (
            arith,
            count-append z hand ρ.held,
            count-append z hand (remove_first x ρ.held),
            count-remove_first x ρ.held h z,
          ))
          (omega (arith, owed-remove_first ρ.conn.calls x ρ.held h)) a.accounted)) [
            | inl b ↦ inl b
            | inr (d, e, q, u) ↦
                let w =
                  owed-Untouched ρ.conn d (remove_first x ρ.held)
                    (Untouched-right hand (remove_first x ρ.held) ρ.conn d u) in
                inr (
                  d,
                  e,
                  record {
                    accounted = weaken d others left _ (omega (arith, w)) q;
                    goes_on = a.goes_on;
                  },
                )
          ]

  reads-InOrder :
      (services : Services) (ρ : Running V S)
      → ρ.reader ≡ none
      → InOrder ρ
      → InOrder (record ρ {
        conn = (read_next codec new_value services ρ.conn).0;
        reader = some (read_next codec new_value services ρ.conn).1;
      })
  unfolding read_next
  reads-InOrder services ρ e a =
      let b = a.accounted in
      record {
        accounted = record {
          owned = b.owned;
          made = b.made;
          ready = b.ready;
          announced = b.announced;
          counted = omega (arith, b.counted, ap reading e);
          still_open = b.still_open;
        };
        goes_on = a.goes_on;
      }

  Step-InOrder : {ρ σ : Running V S} → Step codec new_value ρ σ → InOrder ρ → InOrder σ
  Step-InOrder {ρ} (reads services e) a = reads-InOrder services ρ e a
  Step-InOrder {ρ} (handles env d r n e) a =
      let (d', r', f, q) = handles-Fine env ρ n a in
      subst
        (λ (p : TServerConn V S × Round).
          InOrder (record ρ { conn = p.0; reader = none; held = round_held p.1 ρ.held }))
        (finished_inj {a = (d', r')} {b = (d, r)} (sym f ∙ e)) q
  Step-InOrder {ρ} (sends d s e) a =
      let (d', s', f, q) = sends-Fine ρ a in
      subst (λ (p : TServerConn V S × Sender). InOrder (record ρ { conn = p.0; sender = p.1 }))
        (finished_inj {a = (d', s')} {b = (d, s)} (sym f ∙ e)) q
  Step-InOrder {ρ} (returns x ret d h e) a = elim (returns-Fine x ret ρ h a) [
    | inl b ↦ absurd (cc)
    | inr (d', f, q) ↦
        subst (λ d. InOrder (record ρ { conn = d; held = remove_first x ρ.held }))
          (finished_inj {a = d'} {b = d} (sym f ∙ e)) q
  ]

  pub Steps-InOrder : {ρ σ : Running V S} → Steps codec new_value ρ σ → InOrder ρ → InOrder σ
  Steps-InOrder here a = a
  Steps-InOrder (next_step r s) a = Step-InOrder s (Steps-InOrder r a)

  handles-fine :
      (env : RoundEnv V S) (ρ : Running V S)
      → NoDispatch env
      → InOrder ρ
      → handle_next codec new_value env ρ.reader ρ.conn ≢ panics
  handles-fine env ρ n a e = let (d, r, f, q) = handles-Fine env ρ n a in cc

  sends-fine :
      (ρ : Running V S)
      → InOrder ρ
      → (d : TServerConn V S) × (s : Sender) × (sender_piece codec ρ.sender ρ.conn
          ≡ finished (d, s))
        × (is_halted s ≡ false)
  sends-fine ρ a = let (d, s, f, q) = sends-Fine ρ a in (d, s, f, q.goes_on)

  returns-fine :
      (x : ℕ) (ret : List (Option GoError)) (ρ : Running V S)
      → InOrder ρ
      → 1 ≤ count x ρ.held
      → do_call x ret ρ.conn ≢ panics
  returns-fine x ret ρ a h e = elim (returns-Fine x ret ρ h a) [ inl b ↦ cc | inr (d, f, q) ↦ cc ]

  -- On a new connection, for any codec and without a function for dispatching, in whatever order
  -- its routines do their pieces and methods return, until RoutineRun closes doneChan: RoutineRun
  -- reads and counts a request, or deals with it, as one piece; RoutineWriteResponse receives a
  -- call, writes a response, flushes or counts down once, as one piece. Then pendingWg counts at
  -- least the calls that wait in doneChan, the responses that were not counted down yet, the
  -- request that was read, and the calls that run and are to be answered; the next piece of
  -- RoutineWriteResponse does not panic or end the routine; and neither the handling of the request
  -- that was read nor the return of a method that runs panics.
  pub never_panics :
      (y : S) (max_wait_resp : ℕ) (ρ : Running V S) (env : RoundEnv V S)
      (ret : List (Option GoError))
      → Steps codec new_value (started y max_wait_resp) ρ
      → NoDispatch env
      → (length ρ.conn.done_chan.buf + owing ρ ≤ ρ.conn.pending_wg)
        × ((d : TServerConn V S) × (s : Sender) × (sender_piece codec ρ.sender ρ.conn
              ≡ finished (d, s))
            × (is_halted s ≡ false))
        × (handle_next codec new_value env ρ.reader ρ.conn ≢ panics)
        × All (λ x. do_call x ret ρ.conn ≢ panics) ρ.held
  never_panics y max_wait_resp ρ env ret r n =
      let a = Steps-InOrder r (started-InOrder y max_wait_resp) in
      (
        a.accounted.counted,
        sends-fine ρ a,
        handles-fine env ρ n a,
        All-of_count ρ.held (λ x h. returns-fine x ret ρ a h),
      )
