-- ===== src/Client/Calls/Outcomes.antt =====
-- What SyncCall of rpc/client.go returns where the call is not sent.
use gopl.Prelude.{ℕ, ◌≡◌, ap, subst, All, false, Option, some, [], ◌∷◌, arith}
use gopl.Prelude.Run.{finished}
use gopl.Chan.{make, try_recv}
use gopl.RpcError.{GoError, err}
use gopl.Call.{
  Store, zero_call, set_chan, set_error, make_chan, new_call, free_call, is_canceled,
  when_call_done,
}
use gopl.Call.Pool.{
  IsPooled, IsHeld, All-put, new_call-IsNew, set_call-IsPooled, free_call-IsPooled,
}
use gopl.Call.Completion.{when_call_done-Completes, when_call_done-IsPooled}
use gopl.Client.{TClient, get_server_info}
use gopl.Client.Choose.{choice, choose_server_for_req, after_pick}
use gopl.Client.Calls.{Request, Env, fail_call, fill, after_choice, send_call, sync_send, sync_wait}

module _ {V : Type 0} where
  sync_wait-received :
      (ch call : ℕ) (s : Store V) (o : Option GoError)
      → (s.chans ch).buf ≡ call ∷ []
      → (s.calls call).error ≡ o
      → sync_wait ch s
        ≡ finished (some (free_call call (set_chan ch (record (s.chans ch) { buf = [] }) s), o))
  unfolding sync_wait try_recv
  sync_wait-received ch call s o e f = ground arith

  -- A call that fails while its own channel is empty is what the wait receives.
  pub sync_wait-fail_call :
      (ch call : ℕ) (e : GoError) (s : Store V)
      → (s.calls call).done ≡ some ch
      → is_canceled s call ≡ false
      → s.chans ch ≡ make 1
      → (t : Store V) × (sync_wait ch (fail_call e call s) ≡ finished (some (t, some e)))
        × (t.pool ≡ call ∷ s.pool)
        × (IsPooled s → IsHeld s call → IsPooled t)
  unfolding fail_call is_canceled free_call
  sync_wait-fail_call ch call e s d n m =
      let x = set_error call (some e) s in
      let y = when_call_done call x in
      let (buf, same) =
        (when_call_done-Completes call x).delivered ch (ground arith) (ground arith) (ground arith)
          (ground arith) in
      let buf' : (y.chans ch).buf ≡ call ∷ [] = ground arith in
      let error : (y.calls call).error ≡ some e = ground (arith, same.calls) in
      (
        free_call call (set_chan ch (record (y.chans ch) { buf = [] }) y),
        sync_wait-received ch call y (some e) buf' error,
        ap (λ l. call ∷ l) (ground (arith, same.pool)),
        λ p h.
            let q =
              when_call_done-IsPooled call x (set_call-IsPooled call _ s p h)
                (record { made = h.made; unpooled = h.unpooled }) in
            free_call-IsPooled call (set_chan ch (record (y.chans ch) { buf = [] }) y)
              (record { blank = q.blank; made = q.made; distinct = q.distinct })
              (record { made = rw same.next h.made; unpooled = rw same.pool h.unpooled }),
      )

  -- The call that SyncCall makes, before it is sent.
  abbrev prepared : ℕ → ℕ → Request V → Store V → Store V
  unfolding fill make_chan
  prepared i now request s =
      let (t, call) = new_call i now s in
      let (u, ch) = make_chan 1 t in fill call request (some ch) u

  choose-unpicked :
      (env : Env) (e : GoError) (c : TClient) (s : Store V)
      → get_server_info env.intn env.order c ≡ err e
      → choose_server_for_req env.intn env.order env.start c s ≡ finished (choice c s (err e))
  unfolding choose_server_for_req after_pick
  choose-unpicked env e c s h = ap (λ r. after_pick r env.start c s) h

  send_call-unpicked :
      (env : Env) (call : ℕ) (e : GoError) (c : TClient) (s : Store V)
      → get_server_info env.intn env.order c ≡ err e
      → send_call env call c s ≡ finished (c, fail_call e call s)
  unfolding send_call after_choice
  send_call-unpicked env call e c s h = rw (choose-unpicked env e c s h)

  -- Where no server can be chosen and the pool is in order, SyncCall does not block: it returns the
  -- error of the choice; its call, the one that NewCall made, is put back on top of what NewCall left
  -- of the pool, and is zero again; and the pool is in order.
  pub sync_call-unpicked :
      (env : Env) (i now : ℕ) (request : Request V) (e : GoError) (c : TClient) (s : Store V)
      → IsPooled s
      → get_server_info env.intn env.order c ≡ err e
      → (t u : Store V) × (ch : ℕ) × (sync_send env i now request c s ≡ finished (c, t, ch))
        × (sync_wait ch t ≡ finished (some (u, some e)))
        × (u.pool ≡ (new_call i now s).1 ∷ (new_call i now s).0.pool)
        × (u.calls (new_call i now s).1 ≡ zero_call)
        × IsPooled u
  unfolding sync_send is_canceled
  sync_call-unpicked env i now request e c s p h =
      let n = new_call-IsNew i now s p in
      let call = (new_call i now s).1 in
      let v = prepared i now request s in
      let ch = (new_call i now s).0.next_chan in
      let (u, w, back, q) =
        sync_wait-fail_call ch call e v (ground arith) (ground (arith, n.zeroed)) (ground arith) in
      let pooled : IsPooled v = record {
        blank = All-put call _ zero_call _ _ n.held.unpooled n.pooled.blank;
        made = n.pooled.made;
        distinct = n.pooled.distinct;
      } in
      let after = q pooled (record { made = n.held.made; unpooled = n.held.unpooled }) in
      (
        fail_call e call v,
        u,
        ch,
        rw (send_call-unpicked env call e c v h),
        w,
        back,
        (subst (All λ x. u.calls x ≡ zero_call) back after.blank).0,
        after,
      )
