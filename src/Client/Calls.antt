-- ===== src/Client/Calls.antt =====
-- rpc/client.go: SendCall, AsyncCall and SyncCall.
-- `intn`, `order` and `start` are those of chooseServerForReq, `i` and `now` those of NewCall.
-- SyncCall blocks on its channel: it is the part before, sync_send, and the part after,
-- sync_wait; what the other routines do in between is not part of it.
pub mod Outcomes
pub mod Failing
use gopl.Prelude.{ℕ, Bool, Option, none, some, String}
use gopl.Prelude.Int.{ℤ}
use gopl.Prelude.Run.{Run, finished, panics, ◌>>=◌}
use gopl.Keys.{text_eq}
use gopl.GoMap.{lookup}
use gopl.Chan.{
  Chan, Sent, sent, full, send_panic, Received, received, recv_closed, recv_default, try_send,
  try_recv,
}
use gopl.RpcError.{GoError, Result, ok, err, err_chan_full}
use gopl.Call.{Store, set_call, set_chan, set_error, make_chan, new_call, free_call, when_call_done}
use gopl.Client.{TServerInfo, Servers, TClient}
use gopl.Client.Choose.{Choice, choose_server_for_req}

-- What a call is made of.
pub record Request (V : Type 0) : Type 0 where
  pub service_method : String
  pub args : Option V
  pub reply : Option V

-- What the environment decides while a call is sent.
pub record Env : Type 0 where
  pub intn : ℤ → ℤ
  pub order : Servers
  pub start : ℕ → Option GoError

module _ {V : Type 0} where
  -- aCall.Error = e; WhenCallDone(aCall)
  unfoldable pub fail_call : GoError → ℕ → Store V → Store V
  fail_call e call s = when_call_done call (set_error call (some e) s)

  -- The `select` of SendCall.
  unfoldable pub after_queue : Sent ℕ → ℕ → ℕ → Store V → Run (Store V)
  unfolding fail_call
  after_queue (sent d) ch call s = finished (set_chan ch d s)
  after_queue full ch call s = finished (fail_call err_chan_full call s)
  after_queue send_panic ch call s = panics

  unfoldable pub queue_call : Option TServerInfo → ℕ → Store V → Run (Store V)
  unfolding after_queue try_send
  queue_call none call s = finished s
  queue_call (some info) call s =
      after_queue (try_send (s.chans info.call_chan) call) info.call_chan call s

  unfoldable pub after_choice : Result String → ℕ → TClient → Store V → Run (Store V)
  unfolding fail_call queue_call
  after_choice (err e) call c s = finished (fail_call e call s)
  after_choice (ok addr) call c s = queue_call (lookup addr c.map_server_info) call s

  unfoldable pub send_call : Env → ℕ → TClient → Store V → Run (TClient × Store V)
  unfolding after_choice
  send_call env call c s = do
    chosen ← choose_server_for_req env.intn env.order env.start c s
    t ← after_choice chosen.result call chosen.client chosen.store
    finished (chosen.client, t)

  -- The assignments to the fields of a new call.
  unfoldable pub fill : ℕ → Request V → Option ℕ → Store V → Store V
  fill call request done s =
      set_call call
        (record (s.calls call) {
          sevice_method = request.service_method;
          args = request.args;
          reply = request.reply;
          done = done;
        })
        s

  unfoldable pub async_call :
      Env → ℕ → ℕ → Request V → Option ℕ → TClient → Store V → Run (TClient × Store V × Option ℕ)
  unfolding fill
  async_call env i now request done c s = do
    let (t, call) = new_call i now s
    (d, u) ← send_call env call c (fill call request done t)
    finished (d, u, elim done [ none ↦ none | some ch ↦ some call ])

  -- SyncCall up to its `select`: the channel that it then waits on.
  unfoldable pub sync_send :
      Env → ℕ → ℕ → Request V → TClient → Store V → Run (TClient × Store V × ℕ)
  unfolding fill make_chan
  sync_send env i now request c s = do
    let (t, call) = new_call i now s
    let (u, ch) = make_chan 1 t
    (d, v) ← send_call env call c (fill call request (some ch) u)
    finished (d, v, ch)

  -- The rest of SyncCall: `none` while nothing is in the channel. A closed channel yields nil, at
  -- which it panics; nothing closes the channel.
  unfoldable pub sync_wait : ℕ → Store V → Run (Option (Store V × Option GoError))
  unfolding try_recv
  sync_wait ch s = elim (try_recv (s.chans ch)) [
    | received call d ↦ finished (some (free_call call (set_chan ch d s), ((s.calls call).error)))
    | recv_closed ↦ panics
    | recv_default ↦ finished none
  ]
