-- ===== src/ServerConn/Accounts/Writing.antt =====
-- What writing responses does to the accounts of a connection of rpc/server_conn.go.
use gopl.Prelude.{
  subst, if◌then◌else◌, Bool-cases, count_head, ==_iff, ℕ, suc, ◌+◌, ◌-◌, ◌≤◌, ◌≡◌, refl, ap, ◌∙◌,
  inl, inr, false, true, none, some, Option, List, [], ◌∷◌, ◌++◌, length, arith, count,
  count-append,
}
use gopl.Prelude.Run.{finished, ◌>>=◌}
use gopl.Codec.{IServerCodec}
use gopl.ServerConn.{TServerConn, TServerGroupResponse, is_nil, free_func_call}
use gopl.ServerConn.Responses.{
  write_one, write_all, send_group_response, collect, after_collect, do_write_response, wg_done,
}
use gopl.ServerConn.Accounts.{IsAccounted, IsAccounted-same, IsAccounted-codec}
use gopl.ServerConn.Accounts.Moves.{
  Untouched, free-IsAccounted, free-Untouched, left_held, wg_done-IsAccounted,
}
use gopl.ServerConn.Accounts.Collecting.{group_calls, do_call_response-finished, collect-Collects}

module _ {V S : Type 0} (codec : IServerCodec V S) where
  -- The connection after one response: only the codec has changed, and a call to be freed is free.
  abbrev wrote_one : ℕ → S → TServerConn V S → TServerConn V S
  wrote_one x y c =
      let d = record c { codec = y } in if (c.calls x).done then free_func_call x d else d

  write_one-finished :
      (r : TServerGroupResponse) (o : Option V) (c : TServerConn V S)
      → is_nil o ≡ false
      → (y : S) × (write_one codec r o c ≡ finished (wrote_one r.call y c))
  unfolding write_one
  write_one-finished r none c h = cc
  write_one-finished r (some v) c h = ((codec.write_response c.codec r.resp (some v)).0, refl)

  write_all-next :
      (r : TServerGroupResponse) (rest : List TServerGroupResponse) (c d : TServerConn V S)
      → write_one codec r (c.calls r.call).reply c ≡ finished d
      → write_all codec (r ∷ rest) c ≡ write_all codec rest d
  unfolding write_all
  write_all-next r rest c d e = ap (λ m. m >>= write_all codec rest) e

  -- Writing the responses of calls that are to be freed frees them all.
  pub write_all-IsAccounted :
      (group : List TServerGroupResponse) (c : TServerConn V S) (held : List ℕ) (owing : ℕ)
      → IsAccounted c (group_calls group ++ held) owing
      → ((x : ℕ) → 1 ≤ count x (group_calls group) → (c.calls x).done ≡ true)
      → (d : TServerConn V S) × (write_all codec group c ≡ finished d)
        × IsAccounted d held owing
        × Untouched held c d
  unfolding write_all free_func_call
  write_all-IsAccounted [] c held owing a k = (c, refl, a, λ x h. refl)
  write_all-IsAccounted (r ∷ rest) c held owing a k =
      let (y, w) =
        write_one-finished r (c.calls r.call).reply c
          (a.ready r.call (omega (arith, count_head r.call (group_calls rest ++ held)))) in
      let b = record c { codec = y } in
      let freed = free_func_call r.call b in
      let a' = IsAccounted-codec c y (r.call ∷ group_calls rest ++ held) owing a in
      let same = free-Untouched r.call b (group_calls rest ++ held) owing a' in
      let done_first : (c.calls r.call).done ≡ true =
        k r.call (count_head r.call (group_calls rest)) in
      let first : write_one codec r (c.calls r.call).reply c ≡ finished freed = ground (arith, w) in
      let (d, e, f, u) =
        write_all-IsAccounted rest freed held owing
          (free-IsAccounted r.call b (group_calls rest ++ held) owing a')
          (λ x m.
            rw (same x (omega (arith, count-append x (group_calls rest) held)))
              (k x (omega arith))) in
      (
        d,
        write_all-next r rest c freed first ∙ e,
        f,
        λ x m. u x m ∙ same x (omega (arith, count-append x (group_calls rest) held)),
      )

  -- The first response of a group may be of a call that is not to be freed yet.
  write_head-IsAccounted :
      (r : TServerGroupResponse) (rest : List TServerGroupResponse) (c : TServerConn V S)
      (held : List ℕ) (owing : ℕ)
      → IsAccounted c (r.call ∷ group_calls rest ++ held) owing
      → ((x : ℕ) → 1 ≤ count x (group_calls rest) → (c.calls x).done ≡ true)
      → (d : TServerConn V S) × (write_all codec (r ∷ rest) c ≡ finished d)
        × IsAccounted d (left_held r.call held c) owing
        × Untouched (left_held r.call held c) c d
  write_head-IsAccounted r rest c held owing a k = elim (Bool-cases (c.calls r.call).done) [
    | inl e ↦ rw e (
        write_all-IsAccounted (r ∷ rest) c held owing a
          (λ x m. ground (arith, k x, ==_iff r.call x)))
    | inr e ↦
        let (y, w) =
          write_one-finished r (c.calls r.call).reply c
            (a.ready r.call (omega (arith, count_head r.call (group_calls rest ++ held)))) in
        let b = record c { codec = y } in
        let (d, f, q, u) =
          write_all-IsAccounted rest b (r.call ∷ held) owing
            (IsAccounted-same b (r.call ∷ group_calls rest ++ held)
              (group_calls rest ++ r.call ∷ held) owing owing
              (λ z. omega (
                arith,
                count-append z (group_calls rest) (r.call ∷ held),
                count-append z (group_calls rest) held,
              ))
              (omega arith) (IsAccounted-codec c y _ owing a))
            k in
        rw e (d, write_all-next r rest c b (ground (arith, w)) ∙ f, q, u)
  ]

  send_group-IsAccounted :
      (r : TServerGroupResponse) (rest : List TServerGroupResponse) (c : TServerConn V S)
      (held : List ℕ) (owing : ℕ)
      → IsAccounted c (r.call ∷ group_calls rest ++ held) (suc (length rest) + owing)
      → ((x : ℕ) → 1 ≤ count x (group_calls rest) → (c.calls x).done ≡ true)
      → (d : TServerConn V S) × (send_group_response codec (r ∷ rest) c ≡ finished d)
        × IsAccounted d (left_held r.call held c) owing
        × Untouched (left_held r.call held c) c d
  unfolding send_group_response
  send_group-IsAccounted r rest c held owing a k =
      let (d, e, q, u) = write_head-IsAccounted r rest c held (suc (length rest) + owing) a k in
      let b = record d { codec = (codec.flush d.codec).0 } in
      let (f, g) =
        wg_done-IsAccounted (suc (length rest)) b (left_held r.call held c) owing
          (IsAccounted-codec d _ _ _ q) in
      (
        record b { pending_wg = b.pending_wg - suc (length rest) },
        ap
              (λ m. m >>= λ d.
                wg_done (suc (length rest)) (record d { codec = (codec.flush d.codec).0 }))
              e
            ∙ f,
        g,
        u,
      )

  -- doWriteResponse of a call that is held, and for which pendingWg counts one: it ends, and frees
  -- the call, if it is to be freed, and those that waited with it.
  pub do_write_response-IsAccounted :
      (x : ℕ) (c : TServerConn V S) (held : List ℕ) (owing : ℕ)
      → IsAccounted c (x ∷ held) (suc owing)
      → (d : TServerConn V S) × (do_write_response codec x c ≡ finished (d, true))
        × IsAccounted d (left_held x held c) owing
        × Untouched (left_held x held c) c d
  unfolding do_write_response after_collect
  do_write_response-IsAccounted x c held owing a =
      let (h, r) =
        do_call_response-finished (c.calls x) (a.ready x (omega (arith, count_head x held))) in
      let (b, rest, k, q) =
        collect-Collects codec 100 c.done_chan.buf c (x ∷ held) (suc owing) refl a in
      let (d, e, f, u) =
        send_group-IsAccounted (record { resp = h; call = x }) rest b held owing
          (IsAccounted-same b (group_calls rest ++ x ∷ held) (x ∷ group_calls rest ++ held)
            (length rest + suc owing) _
            (λ z. omega (
              arith,
              count-append z (group_calls rest) (x ∷ held),
              count-append z (group_calls rest) held,
            ))
            (omega arith) q.accounted)
          (λ z m. rw q.calls (q.done z m)) in
      let same : left_held x held b ≡ left_held x held c =
        ap (λ f. if (f x).done then held else x ∷ held) q.calls in
      (
        d,
        ap
              (λ m. m >>= λ h. collect codec 100 c >>= λ p.
                after_collect codec (record { resp = h; call = x }) p.1 p.0)
              r
            ∙ ap (λ m. m >>= λ p. after_collect codec (record { resp = h; call = x }) p.1 p.0) k
            ∙ ap (λ m. m >>= λ d. finished (d, true)) e,
        subst (λ l. IsAccounted d l owing) same f,
        λ z m. subst (λ l. Untouched l b d) same u z m ∙ ap (λ f. f z) q.calls,
      )
