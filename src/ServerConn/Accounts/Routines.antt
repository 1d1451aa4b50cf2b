-- ===== src/ServerConn/Accounts/Routines.antt =====
-- What RoutineDoCall of rpc/server_conn.go does to the accounts of a connection.
use gopl.Prelude.{
  ltb, ℕ, suc, ◌+◌, ◌≡◌, ◌∙◌, ◌⊎◌, inl, inr, Option, List, [], ◌∷◌, ◌++◌, length, arith, count_head,
  if◌then◌else◌, Bool-cases,
}
use gopl.Prelude.Run.{finished, blocks}
use gopl.Chan.{try_send}
use gopl.RpcError.{GoError}
use gopl.Call.{put}
use gopl.ServerConn.{TServerConn, free_func_call}
use gopl.ServerConn.Responses.{do_call, when_func_call_done, after_done}
use gopl.ServerConn.Accounts.{IsAccounted}
use gopl.ServerConn.Accounts.Moves.{
  send-IsAccounted, fill-IsAccounted, fill-Untouched, Untouched, weaken, free-IsAccounted,
  free-Untouched,
}

module _ {V S : Type 0} where
  -- A call that a method has returned from. It waits or is freed, or there is no room yet.
  pub do_call-IsAccounted :
      (x : ℕ) (ret : List (Option GoError)) (c : TServerConn V S) (held : List ℕ) (owing : ℕ)
      → IsAccounted c (x ∷ held) ((if (c.calls x).done then 1 else 0) + owing)
      → (do_call x ret c ≡ blocks)
        ⊎ ((d : TServerConn V S) × (do_call x ret c ≡ finished d)
            × IsAccounted d held owing
            × Untouched held c d)
  unfolding do_call when_func_call_done after_done try_send
  do_call-IsAccounted x ret c held owing a =
      let b = record c { calls = put x (record (c.calls x) { ret = ret }) c.calls } in
      let a' =
        fill-IsAccounted x (record (c.calls x) { ret = ret }) c held _
          (a.ready x (omega (arith, count_head x held))) a in
      let u = fill-Untouched x (record (c.calls x) { ret = ret }) c held _ a in
      elim (Bool-cases (c.calls x).done) [
        | inr e ↦ inr (
          free_func_call x b,
          ground arith,
          free-IsAccounted x b held owing (weaken b _ _ owing (ground arith) a'),
          λ z m. free-Untouched x b held _ a' z m ∙ u z m,
        )
        | inl e ↦ elim (Bool-cases (ltb (length c.done_chan.buf) c.done_chan.cap)) [
          | inr f ↦ inl (ground (arith, a.still_open))
          | inl f ↦ inr (
            record b { done_chan = record b.done_chan { buf = b.done_chan.buf ++ x ∷ [] } },
            ground (arith, a.still_open),
            send-IsAccounted x b held owing (ground arith)
                (weaken b _ _ (suc owing) (ground arith) a'),
            u,
          )
        ]
      ]
