-- ===== src/ClientConn/Receiving/Responses.antt =====
-- What a response does to the call that waits for it.
use text.Mathlib.Text.{◌==◌ as text_beq}
use gopl.Prelude.{
  ℕ, ◌≡◌, refl, ap, ◌≢◌, ◌∙◌, ◌∷◌, false, Option, none, some, arith, Bool-cases, inl, inr,
}
use gopl.Keys.{nat_eq}
use gopl.GoMap.{lookup, delete, lookup-delete}
use gopl.Chan.{make}
use gopl.RpcError.{GoError, error_text, rpc_error, new_rpc_error, error_type_unknown, can_retry}
use gopl.Header.{TResponseHeader, response_is_ping}
use gopl.Codec.{IClientCodec}
use gopl.Call.{Store, is_canceled, when_call_done}
use gopl.Client.Calls.{fail_call, sync_wait}
use gopl.Client.Calls.Outcomes.{sync_wait-fail_call}
use gopl.Prelude.Run.{finished}
use gopl.ClientConn.{TClientConn, ConnState}
use gopl.ClientConn.Receiving.{skip_body, read_body, dispatch, on_header}

module _ {V S : Type 0} (codec : IClientCodec V S) where
  pub skip_body-kept :
      (h : TResponseHeader) (σ : ConnState V S)
      → ((skip_body codec h σ).0.conn ≡ σ.conn) × ((skip_body codec h σ).0.store ≡ σ.store)
  unfolding skip_body
  skip_body-kept h σ = ground arith

  read_body-conn :
      (call : ℕ) (h : TResponseHeader) (σ : ConnState V S)
      → (read_body codec call h σ).0.conn ≡ σ.conn
  unfolding read_body
  read_body-conn call h σ = ground arith

  dispatch-conn :
      (o : Option ℕ) (h : TResponseHeader) (σ : ConnState V S)
      → (dispatch codec o h σ).0.conn ≡ σ.conn
  unfolding dispatch
  dispatch-conn none h σ = (skip_body-kept h σ).0
  dispatch-conn (some call) h σ = elim (Bool-cases (text_beq h.error_msg "")) [
    | inl e ↦ rw e (read_body-conn call h σ)
    | inr e ↦ rw e (skip_body-kept h _).0
  ]

  -- What a response that is no ping leaves of the pending calls.
  on_header-pending :
      (h : TResponseHeader) (σ : ConnState V S)
      → response_is_ping h ≡ false
      → (on_header codec h σ).0.conn.pending ≡ delete h.seq σ.conn.pending
  unfolding on_header
  on_header-pending h σ p =
      rw p (ap (λ (c : TClientConn). c.pending) (dispatch-conn (lookup h.seq σ.conn.pending) h _))

  on_header-missing :
      (h : TResponseHeader) (σ : ConnState V S)
      → response_is_ping h ≡ false
      → lookup h.seq σ.conn.pending ≡ none
      → (on_header codec h σ).0.store ≡ σ.store
  unfolding on_header dispatch
  on_header-missing h σ p l = rw (p, l, dispatch) (skip_body-kept h _).1

  -- A response that is no ping takes its call out of the pending ones and leaves the others, so a
  -- second one with the same number finishes no call: it leaves the store as it was.
  pub response_once :
      (h h' : TResponseHeader) (σ : ConnState V S)
      → response_is_ping h ≡ false
      → response_is_ping h' ≡ false
      → h'.seq ≡ h.seq
      → let τ = (on_header codec h σ).0 in
        (lookup h.seq τ.conn.pending ≡ none)
        × ((k : ℕ) → h.seq ≢ k → lookup k τ.conn.pending ≡ lookup k σ.conn.pending)
        × ((on_header codec h' τ).0.store ≡ τ.store)
  response_once h h' σ p p' e =
      let τ = (on_header codec h σ).0 in
      let taken = on_header-pending h σ p in
      let gone : lookup h.seq τ.conn.pending ≡ none =
        rw (taken, lookup-delete h.seq h.seq σ.conn.pending) (ground arith) in
      (
        gone,
        λ k n. rw (taken, lookup-delete h.seq k σ.conn.pending) (ground arith),
        on_header-missing h' τ p' (rw e gone),
      )

  fails_call :
      (h : TResponseHeader) (σ : ConnState V S) (call : ℕ)
      → response_is_ping h ≡ false
      → lookup h.seq σ.conn.pending ≡ some call
      → text_beq h.error_msg "" ≡ false
      → (on_header codec h σ).0.store
        ≡ fail_call (rpc_error (new_rpc_error error_type_unknown h.error_msg)) call σ.store
  unfolding on_header dispatch fail_call
  fails_call h σ call p l m =
      rw (p, l, dispatch, m) (ap (when_call_done call) (skip_body-kept h _).1)

  -- A SyncCall waits on a channel of its own, which is empty, for a pending call that is not
  -- canceled. When a response that is no ping comes with the call's number and an error text, the
  -- wait ends, whether or not skipping the response's body works: SyncCall returns an error of that
  -- text, which is not one to retry, the number is no more pending, and the call is put back on top
  -- of the pool.
  pub response_error :
      (h : TResponseHeader) (σ : ConnState V S) (call ch : ℕ)
      → response_is_ping h ≡ false
      → lookup h.seq σ.conn.pending ≡ some call
      → text_beq h.error_msg "" ≡ false
      → (σ.store.calls call).done ≡ some ch
      → is_canceled σ.store call ≡ false
      → σ.store.chans ch ≡ make 1
      → let τ = (on_header codec h σ).0 in
        (t : Store V) × (e : GoError) × (sync_wait ch τ.store ≡ finished (some (t, some e)))
        × (error_text e ≡ h.error_msg)
        × (can_retry (some e) ≡ false)
        × (lookup h.seq τ.conn.pending ≡ none)
        × (t.pool ≡ call ∷ σ.store.pool)
  unfolding can_retry error_text
  response_error h σ call ch p l m d n c =
      let e = rpc_error (new_rpc_error error_type_unknown h.error_msg) in
      let (t, w, back, kept) = sync_wait-fail_call ch call e σ.store d n c in
      (
        t,
        e,
        ap (sync_wait ch) (fails_call h σ call p l m) ∙ w,
        refl,
        refl,
        rw (on_header-pending h σ p, lookup-delete h.seq h.seq σ.conn.pending) (ground arith),
        back,
      )
