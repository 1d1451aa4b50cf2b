-- ===== src/ClientConn/Sending/Cleanup.antt =====
-- What sendGroupCall of rpc/client_conn.go leaves when writing fails.
use gopl.Prelude.{
  ℕ, ◌≡◌, refl, ap, inl, inr, Bool, true, false, ◌||◌, Option, none, some, List, [], ◌∷◌, arith,
  if◌then◌else◌, ◌==◌, Bool-cases, ==_iff, subst,
}
use gopl.Keys.{nat_eq}
use gopl.GoMap.{lookup, delete, lookup-delete}
use gopl.RpcError.{GoError}
use gopl.Codec.{IClientCodec}
use gopl.Call.{Store}
use gopl.Client.Calls.Failing.{FailedWith, fail_call-Fails}
use gopl.ClientConn.{TClientConn, TClientGroupRequest, ConnState}
use gopl.ClientConn.Sending.{clean_call, cleanup, write_and_flush, after_write, send_group_call}

-- Whether a sequence number is one of the group's.
abbrev pub in_group : ℕ → List TClientGroupRequest → Bool
in_group k [] = false
in_group k (r ∷ rest) = r.req.seq == k || in_group k rest

module _ {V : Type 0} where
  pub lookup-cleanup :
      (e : GoError) (group : List TClientGroupRequest) (c : TClientConn) (s : Store V) (k : ℕ)
      → lookup k (cleanup e group c s).0.pending
        ≡ (if in_group k group then none else lookup k c.pending)
  unfolding cleanup
  lookup-cleanup e [] c s k = refl
  lookup-cleanup e (r ∷ rest) c s k = ground (
    arith,
    lookup-cleanup e rest (record c { pending = delete r.req.seq c.pending })
        (clean_call e (lookup r.req.seq c.pending) s) k,
    lookup-delete r.req.seq k c.pending,
  )

  clean_call-still :
      (e : GoError) (o : Option ℕ) (s : Store V) (x : ℕ)
      → FailedWith e s x
      → FailedWith e (clean_call e o s) x
  unfolding clean_call
  clean_call-still e none s x f = f
  clean_call-still e (some c) s x f = (fail_call-Fails e c s).still x f

  cleanup-still :
      (e : GoError) (group : List TClientGroupRequest) (c : TClientConn) (s : Store V) (x : ℕ)
      → FailedWith e s x
      → FailedWith e (cleanup e group c s).1 x
  unfolding cleanup
  cleanup-still e [] c s x f = f
  cleanup-still e (r ∷ rest) c s x f =
      cleanup-still e rest (record c { pending = delete r.req.seq c.pending })
        (clean_call e (lookup r.req.seq c.pending) s) x
        (clean_call-still e (lookup r.req.seq c.pending) s x f)

  clean_call-failed :
      (e : GoError) (o : Option ℕ) (s : Store V) (call : ℕ)
      → o ≡ some call
      → FailedWith e (clean_call e o s) call
  unfolding clean_call
  clean_call-failed e o s call h = rw h (fail_call-Fails e call s).failed

  cleanup-failed :
      (e : GoError) (group : List TClientGroupRequest) (c : TClientConn) (s : Store V) (k call : ℕ)
      → in_group k group ≡ true
      → lookup k c.pending ≡ some call
      → FailedWith e (cleanup e group c s).1 call
  unfolding cleanup
  cleanup-failed e [] c s k call g p = ground arith
  cleanup-failed e (r ∷ rest) c s k call g p =
      let d = record c { pending = delete r.req.seq c.pending } in
      let t = clean_call e (lookup r.req.seq c.pending) s in
      elim (Bool-cases (r.req.seq == k)) [
        | inl same ↦ cleanup-still e rest d t call (
            clean_call-failed e (lookup r.req.seq c.pending) s call
              (rw ((==_iff r.req.seq k).0 same) p))
        | inr another ↦
            cleanup-failed e rest d t k call (ground arith)
              (ground (arith, lookup-delete r.req.seq k c.pending))
      ]

  -- What sendGroupCall leaves of a group whose writing failed with `e`.
  pub record CleansUp (e : GoError) (group : List TClientGroupRequest) (c : TClientConn)
      (d : TClientConn) (t : Store V) : Type 0 where
    pub gone : (k : ℕ) → in_group k group ≡ true → lookup k d.pending ≡ none
    pub kept : (k : ℕ) → in_group k group ≡ false → lookup k d.pending ≡ lookup k c.pending
    pub failed :
        (k call : ℕ)
        → in_group k group ≡ true
        → lookup k c.pending ≡ some call
        → FailedWith e t call

  cleanup-CleansUp :
      (e : GoError) (group : List TClientGroupRequest) (c : TClientConn) (s : Store V)
      → CleansUp e group c (cleanup e group c s).0 (cleanup e group c s).1
  cleanup-CleansUp e group c s = record {
    gone = λ k g. ground (arith, lookup-cleanup e group c s k);
    kept = λ k g. ground (arith, lookup-cleanup e group c s k);
    failed = cleanup-failed e group c s;
  }

module _ {V S : Type 0} (codec : IClientCodec V S) where
  after_write-Cleans :
      (r : S × Option GoError) (group : List TClientGroupRequest) (c : TClientConn) (s : Store V)
      → (r.1 ≡ none
          → after_write codec r group c s ≡ (record { conn = c; codec = r.0; store = s }, none))
        × ((e : GoError)
            → r.1 ≡ some e
            → ((after_write codec r group c s).1 ≡ some e)
              × CleansUp e group c
                  (after_write codec r group c s).0.conn
                  (after_write codec r group c s).0.store)
  unfolding after_write
  after_write-Cleans (y, none) group c s = (λ h. refl, λ e h. cc)
  after_write-Cleans (y, some x) group c s = (
    λ h. cc,
    λ e h.
        let same : x ≡ e = ground arith in
        (
          h,
          subst (λ z. CleansUp z group c (cleanup x group c s).0 (cleanup x group c s).1) same
              (cleanup-CleansUp x group c s),
        ),
  )

  -- Where writing and flushing a group works, only the codec changes. Where it fails with an error,
  -- that is returned, no request of the group is pending any more, and every call that was pending
  -- under one of its numbers holds the error or is freed; the other requests stay pending.
  pub send_group_call-CleansUp :
      (group : List TClientGroupRequest) (σ : ConnState V S)
      → let w = write_and_flush codec group σ.store σ.codec in
        let (τ, e) = send_group_call codec group σ in
        (w.1 ≡ none → (τ ≡ record σ { codec = w.0 }) × (e ≡ none))
        × ((x : GoError) → w.1 ≡ some x → (e ≡ some x) × CleansUp x group σ.conn τ.conn τ.store)
  unfolding send_group_call
  send_group_call-CleansUp group σ =
      let (fine, bad) =
        after_write-Cleans (write_and_flush codec group σ.store σ.codec) group σ.conn σ.store in
      (λ h. (ap (λ p. p.0) (fine h), ap (λ p. p.1) (fine h)), bad)
