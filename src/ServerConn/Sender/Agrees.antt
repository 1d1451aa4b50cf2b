-- ===== src/ServerConn/Sender/Agrees.antt =====
-- The pieces of RoutineWriteResponse of rpc/server_conn.go, done in a row, are its rounds.
use gopl.Prelude.{
  ◌≢◌, append-nil, append_assoc, ℕ, zero, suc, ◌-◌, ◌≡◌, refl, ap, sym, subst, ◌∙◌, inl, inr, true,
  false, none, some, Option, List, [], ◌∷◌, ◌++◌, ltb, length, arith, Bool-cases,
}
use gopl.Prelude.Run.{Run, finished, ◌>>=◌, bind-finished, finished_inj}
use gopl.Chan.{Chan, received, recv_closed, recv_default, try_recv, try_recv-cases}
use gopl.Header.{TResponseHeader}
use gopl.Codec.{IServerCodec}
use gopl.ServerConn.{TServerConn, TServerGroupResponse}
use gopl.ServerConn.Responses.{
  do_call_response, write_one, write_all, wg_done, send_group_response, collect, after_collect,
  do_write_response,
}
use gopl.ServerConn.Requests.{write_response_round}
use gopl.ServerConn.Sender.{
  Sender, waits, gathering, writing, counting, take_response, sender_piece,
}

module _ {V S : Type 0} where
  wg_done-zero : (c : TServerConn V S) → wg_done 0 c ≡ finished c
  unfolding wg_done
  wg_done-zero c =
      let same : c.pending_wg - 0 ≡ c.pending_wg = omega arith in
      let none_below : ltb c.pending_wg 0 ≡ false = ground arith in
      rw none_below (ap (λ n. finished (record c { pending_wg = n })) same)

  wg_done-suc :
      (n : ℕ) (c d : TServerConn V S)
      → wg_done (suc n) c ≡ finished d
      → let b = record c { pending_wg = c.pending_wg - 1 } in
        (wg_done 1 c ≡ finished b) × (wg_done n b ≡ finished d)
  unfolding wg_done
  wg_done-suc n c d e = elim (Bool-cases (ltb c.pending_wg (suc n))) [
    | inl t ↦ absurd (ground (arith, e))
    | inr t ↦
        let same : c.pending_wg - 1 - n ≡ c.pending_wg - suc n = omega arith in
        let enough : ltb c.pending_wg 1 ≡ false = ground arith in
        let left : ltb (c.pending_wg - 1) n ≡ false = ground arith in
        let last : finished (record c { pending_wg = c.pending_wg - suc n }) ≡ finished d =
          ground (arith, e) in
        (rw enough refl, rw left (ap (λ n. finished (record c { pending_wg = n })) same ∙ last))
  ]

module _ {V S : Type 0} (codec : IServerCodec V S) where
  -- The routine gets from one place to another, with no other routine in between.
  data Goes : TServerConn V S → Sender → TServerConn V S → Sender → Type 0 where
    there : {c : TServerConn V S} {s : Sender} → Goes c s c s
    goes :
        {c d e : TServerConn V S} {s t u : Sender}
        → sender_piece codec s c ≡ finished (d, t)
        → Goes d t e u
        → Goes c s e u

  Goes-trans :
      {c d e : TServerConn V S} {s t u : Sender} → Goes c s d t → Goes d t e u → Goes c s e u
  Goes-trans there h = h
  Goes-trans (goes p g) h = goes p (Goes-trans g h)

  count-Goes :
      (n : ℕ) (c d : TServerConn V S) → wg_done n c ≡ finished d → Goes c (counting n) d waits
  unfolding sender_piece
  count-Goes zero c d e =
      let same : c ≡ d = finished_inj (sym (wg_done-zero c) ∙ e) in
      subst (λ d. Goes c (counting 0) d waits) same (goes refl there)
  count-Goes (suc n) c d e =
      let b = record c { pending_wg = c.pending_wg - 1 } in
      let (one, more) = wg_done-suc n c d e in
      goes (ap (λ m. m >>= λ d. finished (d, counting n)) one) (count-Goes n b d more)

  write_all-Goes :
      (group : List TServerGroupResponse) (n : ℕ) (c d : TServerConn V S)
      → write_all codec group c ≡ finished d
      → Goes c (writing group n) d (writing [] n)
  unfolding write_all sender_piece
  write_all-Goes [] n c d e =
      subst (λ d. Goes c (writing [] n) d (writing [] n)) (finished_inj e) there
  write_all-Goes (r ∷ rest) n c d e =
      let (b, p, q) = bind-finished (write_one codec r (c.calls r.call).reply c) _ d e in
      goes (ap (λ m. m >>= λ d. finished (d, writing rest n)) p) (write_all-Goes rest n b d q)

  prepended :
      (r : TServerGroupResponse) (o : Option (List TServerGroupResponse)) (b c d : TServerConn V S)
      (n : ℕ) (rest : List TServerGroupResponse)
      → collect codec n c ≡ finished (b, o)
      → ◌≡◌ {A = Run (TServerConn V S × Option (List TServerGroupResponse))}
          (finished (b, elim o [ none ↦ none | some rest ↦ some (r ∷ rest) ]))
          (finished (d, some rest))
      → (tail : List TServerGroupResponse) × (collect codec n c ≡ finished (d, some tail))
        × (rest ≡ r ∷ tail)
  prepended r none b c d n rest e h = absurd (cc)
  prepended r (some tail) b c d n rest e h =
      let same : b ≡ d = cc in (tail, e ∙ ap (λ b. finished (b, some tail)) same, cc)

  collect-received :
      (n x : ℕ) (ch : Chan ℕ) (c d : TServerConn V S) (rest : List TServerGroupResponse)
      → try_recv c.done_chan ≡ received x ch
      → collect codec (suc n) c ≡ finished (d, some rest)
      → (h : TResponseHeader) × (tail : List TServerGroupResponse) × (do_call_response (c.calls x)
          ≡ finished h)
        × (collect codec n (record c { done_chan = ch }) ≡ finished (d, some tail))
        × (rest ≡ record { resp = h; call = x } ∷ tail)
  unfolding collect
  collect-received n x ch c d rest r e =
      let e' = rw (collect, r) at e in
      let (h, p, q) = bind-finished (do_call_response (c.calls x)) _ (d, some rest) e' in
      let ((b, o), t, u) =
        bind-finished (collect codec n (record c { done_chan = ch })) _ (d, some rest) q in
      let (tail, v, w) = prepended (record { resp = h; call = x }) o b _ d n rest t u in
      (h, tail, p, v, w)

  collect-default :
      (n : ℕ) (c d : TServerConn V S) (rest : List TServerGroupResponse)
      → try_recv c.done_chan ≡ recv_default
      → collect codec (suc n) c ≡ finished (d, some rest)
      → (c ≡ d) × (rest ≡ [])
  unfolding collect
  collect-default n c d rest r e = let e' = rw (collect, r) at e in (cc, cc)

  collect-closed :
      (n : ℕ) (c d : TServerConn V S) (rest : List TServerGroupResponse)
      → try_recv c.done_chan ≡ recv_closed
      → collect codec (suc n) c ≢ finished (d, some rest)
  unfolding collect
  collect-closed n c d rest r e = let e' = rw (collect, r) at e in cc

  send_group_response-Goes :
      (group : List TServerGroupResponse) (c d : TServerConn V S)
      → send_group_response codec group c ≡ finished d
      → Goes c (writing group (length group)) d waits
  unfolding send_group_response sender_piece
  send_group_response-Goes group c d e =
      let n = length group in
      let (b, p, q) = bind-finished (write_all codec group c) _ d e in
      Goes-trans (write_all-Goes group n c b p) (goes refl (count-Goes n _ d q))

  -- The loop of doWriteResponse, for a group that has been begun.
  collect-Goes :
      (n : ℕ) (group rest : List TServerGroupResponse) (c d : TServerConn V S)
      → collect codec n c ≡ finished (d, some rest)
      → Goes c (gathering n group) d (writing (group ++ rest) (length (group ++ rest)))
  unfolding collect sender_piece take_response
  collect-Goes zero group rest c d e =
      let same : c ≡ d = cc in
      let none_left : rest ≡ [] = cc in
      rw (none_left, append-nil group)
        (subst (λ d. Goes c (gathering 0 group) d (writing group (length group))) same
          (goes refl there))
  collect-Goes (suc n) group rest c d e = elim (try_recv-cases c.done_chan) [
    | inl (x, ch, r) ↦
        let (h, tail, p, q, w) = collect-received n x ch c d rest r e in
        let b = record c { done_chan = ch } in
        let joined = group ++ record { resp = h; call = x } ∷ [] in
        let first : take_response n group (writing group (length group)) c
            ≡ finished (b, gathering n joined) =
          rw (take_response, r, p) refl in
        let rejoined : group ++ rest ≡ joined ++ tail =
          rw w (sym (append_assoc group (record { resp = h; call = x } ∷ []) tail)) in
        rw rejoined (goes first (collect-Goes n joined tail b d q))
    | inr (inl r) ↦ absurd (collect-closed n c d rest r e)
    | inr (inr r) ↦
        let (same, none_left) = collect-default n c d rest r e in
        let first : take_response n group (writing group (length group)) c
            ≡ finished (c, writing group (length group)) =
          rw (take_response, r) refl in
        rw (none_left, append-nil group)
          (subst (λ d. Goes c (gathering (suc n) group) d (writing group (length group))) same
            (goes first there))
  ]

  after_collect-sends :
      (r : TServerGroupResponse) (o : Option (List TServerGroupResponse)) (b d : TServerConn V S)
      → after_collect codec r o b ≡ finished (d, true)
      → (rest : List TServerGroupResponse) × (o ≡ some rest)
        × (send_group_response codec (r ∷ rest) b ≡ finished d)
  unfolding after_collect
  after_collect-sends r none b d e = absurd (cc)
  after_collect-sends r (some rest) b d e =
      let (f, p, q) = bind-finished (send_group_response codec (r ∷ rest) b) _ (d, true) e in
      let same : f ≡ d = cc in (rest, refl, p ∙ ap finished same)

  do_write_response-Goes :
      (x : ℕ) (c d : TServerConn V S)
      → do_write_response codec x c ≡ finished (d, true)
      → (h : TResponseHeader) × (do_call_response (c.calls x) ≡ finished h)
        × Goes c (gathering 100 (record { resp = h; call = x } ∷ [])) d waits
  unfolding do_write_response
  do_write_response-Goes x c d e =
      let (h, p, q) = bind-finished (do_call_response (c.calls x)) _ (d, true) e in
      let ((b, o), r, t) = bind-finished (collect codec 100 c) _ (d, true) q in
      let first : TServerGroupResponse = record { resp = h; call = x } in
      let (rest, u, v) = after_collect-sends first o b d t in
      (
        h,
        p,
        Goes-trans (collect-Goes 100 (first ∷ []) rest c b (r ∙ ap (λ o. finished (b, o)) u))
            (send_group_response-Goes (first ∷ rest) b d v),
      )

  -- A round that goes on.
  write_response_round-Goes :
      (c d : TServerConn V S)
      → write_response_round codec c ≡ finished (d, true)
      → Goes c waits d waits
  unfolding write_response_round sender_piece take_response
  write_response_round-Goes c d e = elim (try_recv-cases c.done_chan) [
    | inl (x, ch, r) ↦
        let b = record c { done_chan = ch } in
        let (h, p, g) = do_write_response-Goes x b d (rw (write_response_round, r) at e) in
        let first : take_response 100 [] waits c
            ≡ finished (b, gathering 100 (record { resp = h; call = x } ∷ [])) =
          rw (take_response, r, p) refl in
        goes first g
    | inr (inl r) ↦ let e' = rw (write_response_round, r) at e in absurd (cc)
    | inr (inr r) ↦
        let e' = rw (write_response_round, r) at e in
        let same : c ≡ d = cc in subst (λ d. Goes c waits d waits) same there
  ]
