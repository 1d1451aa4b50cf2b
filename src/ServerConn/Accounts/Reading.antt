-- ===== src/ServerConn/Accounts/Reading.antt =====
-- What a round of RoutineRun of rpc/server_conn.go does to the accounts of the connection.
use text.Mathlib.Text.{◌==◌ as text_beq}
use gopl.Prelude.{
  ℕ, suc, ◌+◌, ◌-◌, ◌≡◌, refl, ap, ◌∙◌, inl, inr, false, true, none, some, Option, List, ◌∷◌, arith,
  count_head, if◌then◌else◌, Bool-cases, ==_iff, String, subst,
}
use gopl.Prelude.Run.{Run, finished, ◌>>=◌}
use gopl.RpcError.{error_text}
use gopl.Header.{TRequestHeader, dummy_return}
use gopl.Codec.{IServerCodec}
use gopl.Call.{put, take_at}
use gopl.Call.Pool.{take_at-count}
use gopl.Server.{GoType}
use gopl.ServerConn.{TFuncCall, TServerConn, is_nil, make_resp_header}
use gopl.ServerConn.Responses.{send_response, flush_if_written}
use gopl.ServerConn.Requests.{
  Read, no_header, bad_request, ping, request, Round, next, spawned, ended, RoundEnv,
  dispatch_request, new_func_call, start_call, after_dispatch, handle,
}
use gopl.ServerConn.Accounts.{IsAccounted, IsAccounted-codec}
use gopl.ServerConn.Accounts.Moves.{
  fill-IsAccounted, fill-Untouched, Untouched, weaken, left_held, wg_done-IsAccounted,
}
use gopl.ServerConn.Accounts.Writing.{do_write_response-IsAccounted}

module _ {V S : Type 0} where
  -- The call that NewFuncCall hands out is held.
  pub new_func_call-IsAccounted :
      (i : ℕ) (o : Option (ℕ × List ℕ)) (c : TServerConn V S) (v : TFuncCall V) (held : List ℕ)
      (owing : ℕ)
      → take_at i c.pool ≡ o
      → is_nil v.reply ≡ false
      → IsAccounted c held owing
      → let (d, x) = new_func_call o c in
        let e = record d { calls = put x v d.calls } in
        IsAccounted e (x ∷ held) owing × Untouched held c e
  unfolding new_func_call
  new_func_call-IsAccounted i none c v held owing t e a = (
    record {
      owned = λ z. ground (arith, a.owned z, a.made z, ==_iff c.next_call z);
      made = λ z h. ground (arith, a.made z, ==_iff c.next_call z);
      ready = λ z h. ground (arith, a.ready z, ==_iff c.next_call z);
      announced = λ z h. ground (arith, a.announced z, a.made z, ==_iff c.next_call z);
      counted = a.counted;
      still_open = a.still_open;
    },
    λ z h. ground (arith, a.made z, ==_iff c.next_call z),
  )
  new_func_call-IsAccounted i (some (x, rest)) c v held owing t e a =
      let k = λ (z : ℕ). take_at-count i c.pool z t in
      (
        record {
          owned = λ z. omega (arith, a.owned z, k z);
          made = λ z h. a.made z (omega (arith, k z));
          ready = λ z h. ground (arith, a.ready z);
          announced = λ z h. ground (arith, a.announced z, a.owned z, k z, ==_iff x z);
          counted = a.counted;
          still_open = a.still_open;
        },
        λ z h. ground (arith, a.owned z, k z, ==_iff x z),
      )

-- What is held after a round.
abbrev pub round_held : Round → List ℕ → List ℕ
round_held (spawned x) held = x ∷ held
round_held next held = held
round_held ended held = held

module _ {V S : Type 0} where
  -- What is owed after a round.
  abbrev pub round_owing : Round → TServerConn V S → ℕ → ℕ
  round_owing (spawned x) d owing = (if (d.calls x).done then 1 else 0) + owing
  round_owing next d owing = owing
  round_owing ended d owing = owing

  -- How a round ends well: not by a panic, and with the accounts in order.
  abbrev pub RoundFine : List ℕ → ℕ → TServerConn V S → Run (TServerConn V S × Round) → Type 0
  RoundFine held owing c m =
      (d : TServerConn V S) × (r : Round) × (m ≡ finished (d, r))
      × IsAccounted d (round_held r held) (round_owing r d owing)
      × Untouched held c d

  -- No function for dispatching is set, so every call gets a routine of its own.
  abbrev pub NoDispatch : RoundEnv V S → Type 0
  NoDispatch env = (x : ℕ) (d : TServerConn V S) → env.dispatch x d ≡ dispatch_request none x d

module _ {V S : Type 0} (codec : IServerCodec V S) where
  send_response-Fine :
      (h : TRequestHeader) (text : String) (c : TServerConn V S) (held : List ℕ) (owing : ℕ)
      → IsAccounted c held (suc owing)
      → RoundFine held owing c (send_response codec h none text c >>= λ d. finished (d, next))
  unfolding send_response
  send_response-Fine h text c held owing a =
      let y =
        flush_if_written codec
          (codec.write_response c.codec (make_resp_header {V = V} h none text) none) in
      let (e, b) =
        wg_done-IsAccounted 1 (record c { codec = y }) held owing
          (weaken _ held _ _ (omega arith) (IsAccounted-codec c y held _ a)) in
      (
        record c { codec = y; pending_wg = c.pending_wg - 1 },
        next,
        ap (λ m. m >>= λ d. finished (d, next)) e,
        b,
        λ x h. refl,
      )

  start_call-Fine :
      (env : RoundEnv V S) (h : TRequestHeader) (x : ℕ) (c : TServerConn V S) (held : List ℕ)
      (owing : ℕ)
      → NoDispatch env
      → (c.calls x).done ≡ false
      → IsAccounted c (x ∷ held) (suc owing)
      → RoundFine held owing c (start_call codec env h x c)
  unfolding start_call after_dispatch
  start_call-Fine env h x c held owing no_dispatch n a = elim (Bool-cases (dummy_return h)) [
    | inl e ↦
        let (d, f, q, u) = do_write_response-IsAccounted codec x c held owing a in
        let kept : left_held x held c ≡ x ∷ held = ground arith in
        let u' : Untouched (x ∷ held) c d = subst (λ l. Untouched l c d) kept u in
        let q' : IsAccounted d (x ∷ held) owing = subst (λ l. IsAccounted d l owing) kept q in
        let same : d.calls x ≡ c.calls x = u' x (count_head x held) in
        rw e (
          d,
          spawned x,
          ap (λ m. m >>= λ p. after_dispatch codec h x (env.dispatch x p.0)) f
              ∙ ap (after_dispatch codec h x) (no_dispatch x d),
          weaken d (x ∷ held) owing _ (ground (arith, same)) q',
          λ z m. u' z (omega arith),
        )
    | inr e ↦
        let v = record (c.calls x) { done = true } in
        let later = record c { calls = put x v c.calls } in
        rw e (
          later,
          spawned x,
          ap (after_dispatch codec h x) (no_dispatch x later),
          weaken later (x ∷ held) (suc owing) _ (ground arith) (
              fill-IsAccounted x v c held (suc owing) (a.ready x (omega (arith, count_head x held)))
                a),
          fill-Untouched x v c held (suc owing) a,
        )
  ]

module _ {V S : Type 0} (codec : IServerCodec V S) (new_value : GoType → V) where
  -- The same, with the calls before the round as they were before it was counted.
  pub handle-Fine :
      (env : RoundEnv V S) (r : Read V) (c : TServerConn V S) (held : List ℕ) (owing : ℕ)
      → NoDispatch env
      → IsAccounted c held (suc owing)
      → RoundFine held owing c (handle codec new_value env r c)
  unfolding handle
  handle-Fine env (no_header e) c held owing n a =
      (c, ended, refl, weaken c held _ owing (omega arith) a, λ x h. refl)
  handle-Fine env (bad_request h e) c held owing n a =
      elim (Bool-cases (text_beq h.service_method "")) [
        | inl t ↦ rw t (c, next, refl, weaken c held _ owing (omega arith) a, λ x h. refl)
        | inr t ↦ rw t (send_response-Fine codec h (error_text e) c held owing a)
      ]
  handle-Fine env (ping h) c held owing n a = send_response-Fine codec h "" c held owing a
  handle-Fine env (request h s mtype arg) c held owing n a =
      let o = take_at env.pick c.pool in
      let (d, x) = new_func_call o c in
      let v : TFuncCall V = record (d.calls x) {
        method_name = h.service_method;
        arg = arg;
        reply = some (new_value mtype.reply_type);
        header = h;
        done = false;
      } in
      let (b, u) = new_func_call-IsAccounted env.pick o c v held (suc owing) refl refl a in
      let (e, r, f, q, w) =
        start_call-Fine codec env h x (record d { calls = put x v d.calls }) held owing n
          (ground arith) b in
      (e, r, f, q, λ z m. w z m ∙ u z m)
