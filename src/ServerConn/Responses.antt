-- ===== src/ServerConn/Responses.antt =====
-- rpc/server_conn.go: SendResponse, doWriteResponse, SendGroupResponse and RoutineDoCall.
use gopl.Prelude.{
  ℕ, zero, suc, ◌-◌, Bool, true, false, Option, none, some, String, List, [], ◌∷◌, ltb, length,
  if◌then◌else◌,
}
use gopl.Prelude.Run.{Run, finished, panics, blocks, ◌>>=◌}
use gopl.Chan.{
  Sent, sent, full, send_panic, received, recv_closed, recv_default, try_send, try_recv,
}
use gopl.RpcError.{GoError}
use gopl.Header.{TRequestHeader, TResponseHeader}
use gopl.Codec.{IServerCodec}
use gopl.Call.{put}
use gopl.ServerConn.{
  TFuncCall, TServerGroupResponse, TServerConn, make_resp_header, returned_error, free_func_call,
  need_send_resp_when_done,
}

module _ {V : Type 0} where
  abbrev pub with_reply : Option V → (V → TResponseHeader) → Run TResponseHeader
  with_reply none f = panics
  with_reply (some v) f = finished (f v)

  unfoldable pub do_call_response : TFuncCall V → Run TResponseHeader
  unfolding make_resp_header returned_error
  do_call_response call =
      with_reply call.reply λ v. make_resp_header call.header (some v) (returned_error call.ret)

module _ {V S : Type 0} where
  -- pendingWg.Done(), n times: a counter below zero panics.
  unfoldable pub wg_done : ℕ → TServerConn V S → Run (TServerConn V S)
  wg_done n c =
      if ltb c.pending_wg n then panics else finished (record c { pending_wg = c.pending_wg - n })

  -- RoutineDoCall after the method returned `ret`; WhenFuncCallDone sends on doneChan, where a
  -- full channel blocks until there is room and a closed one panics.
  unfoldable pub after_done : Sent ℕ → TServerConn V S → Run (TServerConn V S)
  after_done (sent d) c = finished (record c { done_chan = d })
  after_done full c = blocks
  after_done send_panic c = panics

  unfoldable pub when_func_call_done : ℕ → TServerConn V S → Run (TServerConn V S)
  unfolding after_done free_func_call try_send
  when_func_call_done call c =
      let notice = after_done (try_send c.done_chan call) c in
      if need_send_resp_when_done (c.calls call) then notice else finished (free_func_call call c)

  unfoldable pub do_call : ℕ → List (Option GoError) → TServerConn V S → Run (TServerConn V S)
  unfolding when_func_call_done
  do_call call ret c =
      when_func_call_done call
        (record c { calls = put call (record (c.calls call) { ret = ret }) c.calls })

module _ {V S : Type 0} (codec : IServerCodec V S) where
  open codec use {write_response, flush}

  unfoldable pub flush_if_written : S × Option GoError → S
  flush_if_written (x, none) = (flush x).0
  flush_if_written (x, some e) = x

  -- Errors are logged only.
  unfoldable pub send_response :
      TRequestHeader → Option V → String → TServerConn V S → Run (TServerConn V S)
  unfolding make_resp_header flush_if_written wg_done
  send_response h reply errmsg c = wg_done 1 (record c {
    codec = flush_if_written (write_response c.codec (make_resp_header h reply errmsg) reply);
  })

  -- The loop of SendGroupResponse: it writes the reply of each call, and frees the calls that were
  -- sent through doneChan.
  unfoldable pub write_one :
      TServerGroupResponse → Option V → TServerConn V S → Run (TServerConn V S)
  unfolding free_func_call
  write_one r none c = panics
  write_one r (some v) c =
      let d = record c { codec = (write_response c.codec r.resp (some v)).0 } in
      finished (if need_send_resp_when_done (c.calls r.call) then free_func_call r.call d else d)

  unfoldable pub write_all : List TServerGroupResponse → TServerConn V S → Run (TServerConn V S)
  unfolding write_one
  write_all [] c = finished c
  write_all (r ∷ rest) c = write_one r (c.calls r.call).reply c >>= write_all rest

  unfoldable pub send_group_response :
      List TServerGroupResponse → TServerConn V S → Run (TServerConn V S)
  unfolding write_all wg_done
  send_group_response group c = do
    d ← write_all group c
    wg_done (length group) (record d { codec = (flush d.codec).0 })

  -- The loop that unites what waits in doneChan; `none` means that the channel was closed.
  unfoldable pub collect :
      ℕ → TServerConn V S → Run (TServerConn V S × Option (List TServerGroupResponse))
  unfolding do_call_response try_recv
  collect zero c = finished (c, some [])
  collect (suc n) c = elim (try_recv c.done_chan) [
    | received call d ↦ do_call_response (c.calls call) >>= λ h.
        collect n (record c { done_chan = d }) >>= λ p.
        finished (
          p.0,
          elim p.1 [ none ↦ none | some rest ↦ some (record { resp = h; call = call } ∷ rest) ],
        )
    | recv_closed ↦ finished (c, none)
    | recv_default ↦ finished (c, some [])
  ]

  unfoldable pub after_collect :
      TServerGroupResponse
      → Option (List TServerGroupResponse)
      → TServerConn V S
      → Run (TServerConn V S × Bool)
  unfolding send_group_response
  after_collect r none c = finished (c, false)
  after_collect r (some rest) c = do d ← send_group_response (r ∷ rest) c; finished (d, true)

  unfoldable pub do_write_response : ℕ → TServerConn V S → Run (TServerConn V S × Bool)
  unfolding collect after_collect do_call_response
  do_write_response call c = do
    h ← do_call_response (c.calls call)
    (d, rest) ← collect 100 c
    after_collect (record { resp = h; call = call }) rest d
