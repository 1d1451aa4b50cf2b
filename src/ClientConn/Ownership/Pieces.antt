-- ===== src/ClientConn/Ownership/Pieces.antt =====
-- The pieces of Ownership/Routines, done one after the other, are sendCall and the cleanup of
-- sendGroupCall of rpc/client_conn.go.
use gopl.Prelude.{
  ℕ, ◌≡◌, refl, inl, inr, none, some, ◌||◌, Option, List, [], ◌∷◌, Bool-cases, subst,
}
use gopl.Keys.{nat_eq}
use gopl.GoMap.{lookup, delete}
use gopl.RpcError.{GoError, err_shutdown}
use gopl.Codec.{IClientCodec}
use gopl.Call.{Store}
use gopl.Client.Calls.{fail_call}
use gopl.ClientConn.{TClientConn, TClientGroupRequest, ConnState}
use gopl.ClientConn.Sending.{
  Gathered, prepend, add_request, gather, unite_package_num, clean_call, cleanup, after_gather,
  send_group_call, send_call,
}
use gopl.ClientConn.Ownership.Routines.{
  Writer, writing, cleaning, failing, lock_call, lock_cleanup, unlocked, after_lookup,
}
use gopl.ClientConn.Ownership.Steps.{Running, Step, Steps, here, next, cleans, fails, cleaned}

module _ {V S : Type 0} (codec : IClientCodec V S) where
  -- What is left of sendCall after its locked section.
  abbrev finish : Writer → ConnState V S → ConnState V S × Option GoError
  finish (writing group) σ = send_group_call codec group σ
  finish (failing e x rest) σ = (record σ { store = fail_call e x σ.store }, some e)
  finish w σ = (σ, some err_shutdown)

  after_gather-unlocked :
      (g : Gathered V) (y : S)
      → let (c, s, w) = unlocked g in
        after_gather codec g y ≡ finish w (record { conn = c; codec = y; store = s })
  unfolding after_gather
  after_gather-unlocked g y = elim (Bool-cases g.closed) [ inl e ↦ rw e refl | inr e ↦ rw e refl ]

  -- sendCall is its locked section and what is left then.
  send_call-lock_call :
      (x : ℕ) (σ : ConnState V S)
      → let (c, s, w) = lock_call x σ.conn σ.store in
        send_call codec x σ ≡ finish w (record σ { conn = c; store = s })
  unfolding send_call lock_call
  send_call-lock_call x σ = elim (Bool-cases (σ.conn.shutdown || σ.conn.closing)) [
    | inl e ↦ rw e refl
    | inr e ↦
        let (d, r) = add_request x σ.conn σ.store in
        rw e (after_gather-unlocked (prepend r (gather unite_package_num d σ.store)) σ.codec)
  ]

  Steps-trans : {ρ π ν : Running V S} → Steps codec ρ π → Steps codec π ν → Steps codec ρ ν
  Steps-trans r here = r
  Steps-trans r (next s t) = next (Steps-trans r s) t

  -- The connection in the middle of a cleanup.
  abbrev at_cleanup :
      GoError → List TClientGroupRequest → TClientConn × Store V → Running V S → Running V S
  at_cleanup e group (c, s) ρ = record ρ {
    state = record ρ.state { conn = c; store = s };
    writer = cleaning e group;
  }

  lock_cleanup-Step :
      (e : GoError) (q : TClientGroupRequest) (rest : List TClientGroupRequest) (c : TClientConn)
      (s : Store V) (ρ : Running V S) (o : Option ℕ)
      → lookup q.req.seq c.pending ≡ o
      → let π = at_cleanup e (q ∷ rest) (c, s) ρ in
        Step codec π
          (cleaned (record c { pending = delete q.req.seq c.pending }, after_lookup o e rest) π)
  unfolding lock_cleanup
  lock_cleanup-Step e q rest c s ρ o l =
      let π = at_cleanup e (q ∷ rest) (c, s) ρ in
      let d = record c { pending = delete q.req.seq c.pending } in
      subst (λ o. Step codec π (cleaned (d, after_lookup o e rest) π)) l (cleans e q rest refl)

  clean_one-Steps :
      (e : GoError) (q : TClientGroupRequest) (rest : List TClientGroupRequest) (c : TClientConn)
      (s : Store V) (ρ : Running V S) (o : Option ℕ)
      → lookup q.req.seq c.pending ≡ o
      → Steps codec (at_cleanup e (q ∷ rest) (c, s) ρ) (
          at_cleanup e rest (record c { pending = delete q.req.seq c.pending }, clean_call e o s) ρ)
  unfolding clean_call
  clean_one-Steps e q rest c s ρ none l = next here (lock_cleanup-Step e q rest c s ρ none l)
  clean_one-Steps e q rest c s ρ (some x) l =
      next (next here (lock_cleanup-Step e q rest c s ρ (some x) l)) (fails e x rest refl)

  -- With no other steps in between, the pieces of a cleanup do what `cleanup` does.
  cleanup-Steps :
      (e : GoError) (group : List TClientGroupRequest) (c : TClientConn) (s : Store V)
      (ρ : Running V S)
      → Steps codec (at_cleanup e group (c, s) ρ) (at_cleanup e [] (cleanup e group c s) ρ)
  unfolding cleanup
  cleanup-Steps e [] c s ρ = here
  cleanup-Steps e (q ∷ rest) c s ρ =
      let o = lookup q.req.seq c.pending in
      Steps-trans (clean_one-Steps e q rest c s ρ o refl) (
        cleanup-Steps e rest (record c { pending = delete q.req.seq c.pending }) (clean_call e o s)
          ρ)
