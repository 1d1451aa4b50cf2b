-- ===== src/ServerConn/Accounts/Dispatch.antt =====
-- What a failing dispatch function does to a connection of rpc/server_conn.go.
use gopl.Prelude.{
  ℕ, ◌+◌, ◌-◌, ◌≤◌, subst, Bool-cases, inl, inr, ◌==◌, if◌then◌else◌, ◌≡◌, refl, ap, ◌∙◌, false,
  true, none, some, Bool, Option, List, [], arith,
}
use gopl.Prelude.Run.{Run, finished, panics, ◌>>=◌}
use gopl.Chan.{try_recv}
use gopl.RpcError.{GoError, error_text}
use gopl.Header.{TResponseHeader, TRequestHeader, dummy_return}
use gopl.Codec.{IServerCodec}
use gopl.Call.{put, take_at}
use gopl.Server.{GoType, TService, TMethodType, Services}
use gopl.ServerConn.{TFuncCall, TServerConn, make_resp_header, returned_error}
use gopl.ServerConn.Responses.{
  do_call_response, do_write_response, collect, flush_if_written, after_collect,
  send_group_response, write_all, write_one, send_response, wg_done,
}
use gopl.ServerConn.Rounds.{run_round-read}
use gopl.ServerConn.Requests.{
  Round, next, request, RoundEnv, new_func_call, start_call, after_dispatch, handle, run_round,
  read_request,
}

module _ {V S : Type 0} (codec : IServerCodec V S) where
  -- What a write leaves of a codec that is flushed after a write without an error.
  abbrev flushed : S × Option GoError → S
  flushed (x, none) = (codec.flush x).0
  flushed (x, some e) = x

  -- The codec after a group with a reply, and after an answer without one.
  abbrev pub wrote_reply : TResponseHeader → V → S → S
  wrote_reply h v x = (codec.flush (codec.write_response x h (some v)).0).0

  abbrev pub wrote_error : TResponseHeader → S → S
  wrote_error h x = flushed (codec.write_response x h none)

  -- Two answers to the request `h`, the first with the reply `v`, the second with the error `e`, that
  -- lead from the codec `x` to `z`.
  pub record AnswersTwice (h : TRequestHeader) (v : V) (e : GoError) (x z : S) : Type 0 where
    pub first : TResponseHeader
    pub second : TResponseHeader
    pub first_seq : first.seq ≡ h.seq
    pub second_seq : second.seq ≡ h.seq
    pub second_error : second.error_msg ≡ error_text e
    pub written : z ≡ wrote_error second (wrote_reply first v x)

  -- A call that nobody frees, answered alone.
  do_write_response-alone :
      (x : ℕ) (v : V) (c : TServerConn V S)
      → c.done_chan.buf ≡ []
      → c.done_chan.closed ≡ false
      → (c.calls x).reply ≡ some v
      → (c.calls x).done ≡ false
      → 1 ≤ c.pending_wg
      → let h = make_resp_header (c.calls x).header (some v) (returned_error (c.calls x).ret) in
        do_write_response codec x c
        ≡ finished
            (record c { codec = wrote_reply h v c.codec; pending_wg = c.pending_wg - 1 }, true)
  unfolding do_write_response after_collect send_group_response write_all write_one wg_done collect
      do_call_response try_recv
  do_write_response-alone x v c e o r d w = ground arith

  -- What a WaitGroup at `n` makes of the connection `d` when it is counted down.
  abbrev pub counted_down : ℕ → TServerConn V S → Run (TServerConn V S × Round)
  counted_down n d = if n == 0 then panics else finished (record d { pending_wg = n - 1 }, next)

  flush_if_written-flushed : (p : S × Option GoError) → flush_if_written codec p ≡ flushed p
  unfolding flush_if_written
  flush_if_written-flushed (x, none) = refl
  flush_if_written-flushed (x, some e) = refl

  after_dispatch-failed :
      (h : TRequestHeader) (x : ℕ) (b : Bool) (e : GoError) (c : TServerConn V S)
      → after_dispatch codec h x (c, b, some e)
        ≡ counted_down c.pending_wg (record c {
          codec = wrote_error (make_resp_header {V = V} h none (error_text e)) c.codec;
        })
  unfolding after_dispatch send_response wg_done
  after_dispatch-failed h x b e c =
      ap (λ y. wg_done 1 (record c { codec = y }) >>= λ d. finished (d, next))
        (flush_if_written-flushed
          (codec.write_response c.codec (make_resp_header {V = V} h none (error_text e)) none))
      ∙ elim (Bool-cases (c.pending_wg == 0)) [ inl z ↦ ground arith | inr z ↦ ground arith ]

  -- The function set for dispatching fails with the error `e`.
  abbrev pub FailsWith : RoundEnv V S → GoError → Type 0
  FailsWith env e = (z : ℕ) (d : TServerConn V S) → (b : Bool) × (env.dispatch z d ≡ (d, b, some e))

  start_call-failed :
      (env : RoundEnv V S) (h : TRequestHeader) (x : ℕ) (v : V) (e : GoError) (c : TServerConn V S)
      → FailsWith env e
      → dummy_return h ≡ true
      → c.done_chan.buf ≡ []
      → c.done_chan.closed ≡ false
      → (c.calls x).reply ≡ some v
      → (c.calls x).done ≡ false
      → (c.calls x).header ≡ h
      → 1 ≤ c.pending_wg
      → (d : TServerConn V S) × (start_call codec env h x c ≡ counted_down (c.pending_wg - 1) d)
        × AnswersTwice h v e c.codec d.codec
  unfolding start_call make_resp_header
  start_call-failed env h x v e c fails t b o r n same w =
      let first = make_resp_header (c.calls x).header (some v) (returned_error (c.calls x).ret) in
      let second = make_resp_header {V = V} h none (error_text e) in
      let mid = record c { codec = wrote_reply first v c.codec; pending_wg = c.pending_wg - 1 } in
      let (taken, f) = fails x mid in
      (
        record mid { codec = wrote_error second mid.codec },
        rw t (
            ap (λ m. m >>= λ p. after_dispatch codec h x (env.dispatch x p.0))
              (do_write_response-alone x v c b o r n w)
            ∙ ap (after_dispatch codec h x) f
            ∙ after_dispatch-failed h x taken e mid),
        record {
          first = first;
          second = second;
          first_seq = ap (λ (k : TRequestHeader). k.seq) same;
          second_seq = refl;
          second_error = refl;
          written = refl;
        },
      )

module _ {V S : Type 0} where
  pub new_func_call-kept :
      (o : Option (ℕ × List ℕ)) (c : TServerConn V S)
      → let d = (new_func_call o c).0 in
        (d.done_chan ≡ c.done_chan) × (d.pending_wg ≡ c.pending_wg) × (d.codec ≡ c.codec)
  unfolding new_func_call
  new_func_call-kept none c = (refl, refl, refl)
  new_func_call-kept (some (x, rest)) c = (refl, refl, refl)

module _ {V S : Type 0} (codec : IServerCodec V S) (new_value : GoType → V) where
  handle-failed :
      (env : RoundEnv V S) (h : TRequestHeader) (s : TService) (mtype : TMethodType)
      (arg : Option V) (e : GoError) (c : TServerConn V S)
      → FailsWith codec env e
      → dummy_return h ≡ true
      → c.done_chan.buf ≡ []
      → c.done_chan.closed ≡ false
      → 1 ≤ c.pending_wg
      → (d : TServerConn V S) × (handle codec new_value env (request h s mtype arg) c
          ≡ counted_down codec (c.pending_wg - 1) d)
        × AnswersTwice codec h (new_value mtype.reply_type) e c.codec d.codec
  unfolding handle
  handle-failed env h s mtype arg e c fails dm b o w =
      let (d, x) = new_func_call (take_at env.pick c.pool) c in
      let (ch, wg, cod) = new_func_call-kept (take_at env.pick c.pool) c in
      let v : TFuncCall V = record (d.calls x) {
        method_name = h.service_method;
        arg = arg;
        reply = some (new_value mtype.reply_type);
        header = h;
        done = false;
      } in
      let (z, run, twice) =
        start_call-failed codec env h x (new_value mtype.reply_type) e
          (record d { calls = put x v d.calls }) fails dm (ap (λ k. k.buf) ch ∙ b)
          (ap (λ k. k.closed) ch ∙ o) (ground arith) (ground arith) (ground arith)
          (omega (arith, wg, w)) in
      (
        z,
        run ∙ ap (λ n. counted_down codec (n - 1) z) wg,
        subst (λ y. AnswersTwice codec h (new_value mtype.reply_type) e y z.codec) cod twice,
      )

  -- The function that a server set for dispatching fails, on a connection that runs and in whose
  -- channel no call waits, for a request whose peer wants no result. Then the round of RoutineRun
  -- answers the request twice, first with a reply and then with the error, and counts pendingWg down
  -- twice for it: it panics if no other request is pending, and else goes on with one pending request
  -- less than before.
  pub dispatch_error-AnswersTwice :
      (env : RoundEnv V S) (services : Services) (c : TServerConn V S) (y : S) (h : TRequestHeader)
      (s : TService) (mtype : TMethodType) (arg : Option V) (e : GoError)
      → env.deadline ≡ none
      → env.running ≡ true
      → FailsWith codec env e
      → read_request codec new_value services c.codec ≡ (y, request h s mtype arg)
      → dummy_return h ≡ true
      → c.done_chan.buf ≡ []
      → c.done_chan.closed ≡ false
      → (d : TServerConn V S) × (run_round codec new_value env services c ≡ (
          if c.pending_wg == 0
          then panics
          else finished (record d { pending_wg = c.pending_wg - 1 }, next)))
        × AnswersTwice codec h (new_value mtype.reply_type) e y d.codec
  dispatch_error-AnswersTwice env services c y h s mtype arg e dl run fails r dm b o =
      let read = record c { codec = y; pending_wg = c.pending_wg + 1 } in
      let (d, q, twice) = handle-failed env h s mtype arg e read fails dm b o (omega arith) in
      let less : c.pending_wg + 1 - 1 ≡ c.pending_wg = omega arith in
      (
        d,
        run_round-read codec new_value services env c y (request h s mtype arg) dl run r
            ∙ q
            ∙ ap (λ n. counted_down codec n d) less,
        twice,
      )
