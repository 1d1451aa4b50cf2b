-- ===== src/Exchange/Answering.antt =====
-- What a group of answers of rpc/server_conn.go is on the wire.
use gopl.Prelude.{
  ℕ, zero, suc, ◌+◌, ◌-◌, ◌≤◌, ◌≡◌, refl, ap, ◌∙◌, sym, true, some, List, [], ◌∷◌, ◌++◌,
  append_assoc, append-nil, arith, count, length, ==_iff,
}
use gopl.Prelude.Run.{finished}
use gopl.Chan.{try_recv}
use gopl.Codec.{IServerCodec}
use gopl.Header.{TRequestHeader, TResponseHeader}
use gopl.GobCodec.{Message, response, body, Stream, TGobCodec, server_codec, flush}
use gopl.ServerConn.{TFuncCall, TServerConn, free_func_call, make_resp_header, returned_error}
use gopl.ServerConn.Responses.{
  do_call_response, write_one, write_all, send_group_response, collect, after_collect,
  do_write_response,
}
use gopl.ServerConn.Stream.{IsReliable, wrote, sent-wrote, sent-flush, wg_done-fine}
use gopl.Exchange.{Served, nobody, serves, wire, unite, waiting}

do_call_response-served :
    {V : Type 0} (f : TFuncCall V) (h : TRequestHeader) (v : V)
    → f.header ≡ h
    → f.reply ≡ some v
    → returned_error f.ret ≡ ""
    → do_call_response f ≡ finished (make_resp_header h (some v) "")
unfolding do_call_response
do_call_response-served f h v i r e = rw (i, r, e) refl

-- Served looks at the calls of the list only.
Served-agree :
    {V : Type 0} (f g : ℕ → TFuncCall V) (xs : List ℕ) (answers : List (TRequestHeader × V))
    → ((y : ℕ) → 1 ≤ count y xs → f y ≡ g y)
    → Served f xs answers
    → Served g xs answers
Served-agree f g [] _ same nobody = nobody
Served-agree f g (x ∷ xs) _ same (serves {answers = rest} _ h v i r e p k s) =
    let at = same x (ground (arith, ==_iff x x)) in
    serves x h v (rw (sym at) i) (rw (sym at) r) (rw (sym at) e) p k
      (Served-agree f g xs rest (λ y l. same y (omega (arith, l))) s)

module _ {V S : Type 0} (codec : IServerCodec V S) where
  collect-Served :
      (n : ℕ) (xs : List ℕ) (answers : List (TRequestHeader × V)) (c : TServerConn V S)
      → length xs ≤ n
      → Served c.calls xs answers
      → collect codec n (waiting xs c) ≡ finished (waiting [] c, some (unite xs answers))
  unfolding collect try_recv
  collect-Served zero [] _ c l nobody = refl
  collect-Served zero (x ∷ xs) _ c l s = absurd (omega (arith, l))
  collect-Served (suc n) [] _ c l nobody = refl
  collect-Served (suc n) (x ∷ xs) _ c l (serves {answers = rest} _ h v i r e p k s) =
      rw
        (
          do_call_response-served (c.calls x) h v i r e,
          collect-Served n xs rest c (omega (arith, l)) s,
        )
        refl

module _ {V E : Type 0} (io : Stream V E) (sent : E → List (Message V))
    (reliable : IsReliable io sent) where
  wrote-Served :
      (x : ℕ) (xs : List ℕ) (r : TResponseHeader) (v : V) (rest : List (TRequestHeader × V))
      (c : TServerConn V (TGobCodec E))
      → count x xs ≡ 0
      → Served c.calls xs rest
      → Served (wrote io sent reliable r x v c).calls xs rest
  unfolding free_func_call
  wrote-Served x xs r v rest c k s =
      Served-agree c.calls (wrote io sent reliable r x v c).calls xs rest
        (λ y l. ground (arith, k, ==_iff x y)) s

  write_all-Served :
      (xs : List ℕ) (answers : List (TRequestHeader × V)) (c : TServerConn V (TGobCodec E))
      → Served c.calls xs answers
      → (d : TServerConn V (TGobCodec E)) × (write_all (server_codec io) (unite xs answers) c
          ≡ finished d)
        × (sent d.codec.stream ≡ sent c.codec.stream ++ wire answers)
        × (d.pending_wg ≡ c.pending_wg)
  unfolding write_all write_one
  write_all-Served [] _ c nobody = (c, refl, sym (append-nil (sent c.codec.stream)), refl)
  write_all-Served (x ∷ xs) _ c (serves {answers = rest} _ h v i r e p k s) =
      let resp = make_resp_header h (some v) "" in
      let b = wrote io sent reliable resp x v c in
      let (written, wg) = sent-wrote io sent reliable resp x v c in
      let (d, run, after, wg') = write_all-Served xs rest b (wrote-Served x xs resp v rest c k s) in
      (
        d,
        rw (r) run,
        after
            ∙ ap (λ l. l ++ wire rest) written
            ∙ append_assoc (sent c.codec.stream) (response resp ∷ body v ∷ []) (wire rest),
        wg' ∙ wg,
      )

  length-unite :
      (f : ℕ → TFuncCall V) (xs : List ℕ) (answers : List (TRequestHeader × V))
      → Served f xs answers
      → length (unite xs answers) ≡ length xs
  length-unite f [] _ nobody = refl
  length-unite f (x ∷ xs) _ (serves {answers = rest} _ h v i r e p k s) =
      ap suc (length-unite f xs rest s)

  send_group_response-Served :
      (xs : List ℕ) (answers : List (TRequestHeader × V)) (c : TServerConn V (TGobCodec E))
      → Served c.calls xs answers
      → length xs ≤ c.pending_wg
      → (d : TServerConn V (TGobCodec E)) × (send_group_response
            (server_codec io)
            (unite xs answers)
            c
          ≡ finished d)
        × (sent d.codec.stream ≡ sent c.codec.stream ++ wire answers)
        × (d.pending_wg + length xs ≡ c.pending_wg)
  unfolding send_group_response
  send_group_response-Served xs answers c s l =
      let (b, run, written, wg) = write_all-Served xs answers c s in
      let n = length-unite c.calls xs answers s in
      let flushed = record b { codec = (flush io b.codec).0 } in
      (
        record flushed { pending_wg = b.pending_wg - length (unite xs answers) },
        rw run (wg_done-fine (length (unite xs answers)) flushed (omega (arith, n, wg, l))),
        sent-flush io sent reliable b.codec ∙ written,
        omega (arith, n, wg, l),
      )

  -- A call taken from doneChan and the others that wait there are answered in one group, each once.
  pub do_write_response-Served :
      (x : ℕ) (xs : List ℕ) (answers : List (TRequestHeader × V)) (c : TServerConn V (TGobCodec E))
      → Served c.calls (x ∷ xs) answers
      → length xs ≤ 100
      → length (x ∷ xs) ≤ c.pending_wg
      → (d : TServerConn V (TGobCodec E)) × (do_write_response (server_codec io) x (waiting xs c)
          ≡ finished (d, true))
        × (sent d.codec.stream ≡ sent c.codec.stream ++ wire answers)
        × (d.pending_wg + length (x ∷ xs) ≡ c.pending_wg)
  unfolding do_write_response after_collect
  do_write_response-Served x xs _ c (serves {answers = rest} _ h v i r e p k s) few counted =
      let b = waiting [] c in
      let (d, run, written, wg) =
        send_group_response-Served (x ∷ xs) ((h, v) ∷ rest) b (serves x h v i r e p k s) counted in
      (
        d,
        rw
            (
              do_call_response-served (c.calls x) h v i r e,
              collect-Served (server_codec io) 100 xs rest c few s,
              run,
            )
            refl,
        written,
        wg,
      )
