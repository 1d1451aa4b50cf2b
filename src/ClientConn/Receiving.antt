-- ===== src/ClientConn/Receiving.antt =====
-- rpc/client_conn.go: RoutineReadResponse, onShutDown and Close.
pub mod Responses
pub mod Shutdown
use Prim.Native.String.{◌++◌ as text_append}
use text.Mathlib.Text.{◌==◌ as text_beq}
use gopl.Prelude.{
  ℕ, zero, suc, Bool, true, false, not, ◌&&◌, Option, none, some, String, List, [], ◌∷◌,
  if◌then◌else◌,
}
use gopl.Prelude.Run.{Run, finished, panics, blocks, out_of_fuel, ◌>>=◌}
use gopl.Keys.{nat_eq}
use gopl.GoMap.{GoMap, lookup, delete}
use gopl.Chan.{Chan, Sent, sent, full, send_panic, try_send}
use gopl.RpcError.{
  GoError, rpc_error, eof, unexpected_eof, other, err_shutdown, new_rpc_error, error_type_unknown,
  error_text, Result, ok, err,
}
use gopl.Header.{TResponseHeader, response_is_ping, has_data}
use gopl.Codec.{IClientCodec}
use gopl.Call.{Store, set_call, set_error, when_call_done}
use gopl.Client.{TClient}
use gopl.Client.Choose.{on_conn_shutdown}
use gopl.Client.Calls.{fail_call}
use gopl.ClientConn.{TClientConn, ConnState}

-- errors.New(prefix + err.Error())
unfoldable pub wrap_error : String → Option GoError → Option GoError
wrap_error prefix none = none
wrap_error prefix (some e) = some (other (text_append prefix (error_text e)))

module _ {V : Type 0} where
  -- A nil reply stays nil.
  abbrev pub decoded : Option V → Option V → Option V
  decoded none v = none
  decoded (some reply) v = v

  unfoldable pub note_error : ℕ → Option GoError → Store V → Store V
  note_error call none s = s
  note_error call (some e) s = set_error call (some e) s

module _ {V S : Type 0} (codec : IClientCodec V S) where
  open codec use {read_response_header, read_response_body, close}

  -- Reads the body of a response into nothing, if it has one.
  unfoldable pub skip_body : TResponseHeader → ConnState V S → ConnState V S × Option GoError
  unfolding has_data wrap_error
  skip_body h σ =
      let (x, v, e) = read_response_body σ.codec none in
      if has_data h
      then (record σ { codec = x }, wrap_error "reading error body: " e)
      else (σ, none)

  -- Reads the body of a response into the call's reply, if it has one. The error goes to the call.
  unfoldable pub read_body : ℕ → TResponseHeader → ConnState V S → ConnState V S × Option GoError
  unfolding has_data note_error wrap_error
  read_body call h σ =
      let (x, v, e) = read_response_body σ.codec (σ.store.calls call).reply in
      let c = σ.store.calls call in
      let t = set_call call (record c { reply = decoded c.reply v }) σ.store in
      if has_data h
      then (record σ { codec = x; store = note_error call (wrap_error "reading body " e) t }, e)
      else (σ, none)

  abbrev pub finish_call : ℕ → ConnState V S × Option GoError → ConnState V S × Option GoError
  finish_call call (σ, e) = (record σ { store = when_call_done call σ.store }, e)

  -- The `switch` on the call that the response's number was pending for.
  unfoldable pub dispatch :
      Option ℕ → TResponseHeader → ConnState V S → ConnState V S × Option GoError
  unfolding skip_body read_body
  dispatch none h σ = skip_body h σ
  dispatch (some call) h σ =
      let failed = skip_body h (record σ {
        store =
            set_error call (some (rpc_error (new_rpc_error error_type_unknown h.error_msg)))
              σ.store;
      }) in
      if text_beq h.error_msg ""
      then finish_call call (read_body call h σ)
      else finish_call call failed

  unfoldable pub on_header : TResponseHeader → ConnState V S → ConnState V S × Option GoError
  unfolding dispatch response_is_ping
  on_header h σ =
      let taken = record σ { conn = record σ.conn { pending = delete h.seq σ.conn.pending } } in
      if response_is_ping h then (σ, none) else dispatch (lookup h.seq σ.conn.pending) h taken

  unfoldable pub after_header :
      S × Result TResponseHeader → ConnState V S → ConnState V S × Option GoError
  unfolding on_header
  after_header (x, err e) σ = (record σ { codec = x }, some e)
  after_header (x, ok h) σ = on_header h (record σ { codec = x })

  -- One round of the loop.
  unfoldable pub read_round : ConnState V S → ConnState V S × Option GoError
  unfolding after_header
  read_round σ = after_header (read_response_header σ.codec) σ

  -- The loop of RoutineReadResponse: it runs until there is an error.
  unfoldable pub read_responses : ℕ → ConnState V S → Run (ConnState V S × GoError)
  unfolding read_round
  read_responses zero σ = out_of_fuel
  read_responses (suc fuel) σ =
      let (τ, e) = read_round σ in
      elim e [ none ↦ read_responses fuel τ | some error ↦ finished (τ, error) ]

  unfoldable pub close_conn : ConnState V S → ConnState V S × Option GoError
  close_conn σ =
      let (x, e) = close σ.codec in
      if σ.conn.closing
      then (σ, some err_shutdown)
      else (record σ { conn = record σ.conn { closing = true }; codec = x }, e)

-- The error that the pending calls get when reading ended with `e`.
unfoldable pub shutdown_error : GoError → Bool → GoError
shutdown_error eof closing = if closing then err_shutdown else unexpected_eof
shutdown_error e closing = e

module _ {V : Type 0} where
  -- Every pending call fails; `pending` itself is only read.
  unfoldable pub fail_pending : GoError → GoMap ℕ ℕ → Store V → Store V
  unfolding fail_call
  fail_pending e [] s = s
  fail_pending e ((seq, call) ∷ rest) s = fail_pending e rest (fail_call e call s)

  abbrev pub after_notify : Sent Bool → TClientConn → Store V → Run (TClientConn × Store V × Bool)
  after_notify (sent d) c s = finished (record c { exit_notify = d }, s, true)
  after_notify full c s = blocks
  after_notify send_panic c s = panics

  -- onShutDown under its mutex; `order` is how the runtime ranges over `pending`. The last value
  -- says whether the parent's onConnShutdown is called afterwards.
  unfoldable pub on_shut_down :
      GoError → GoMap ℕ ℕ → TClientConn → Store V → Run (TClientConn × Store V × Bool)
  unfolding fail_pending shutdown_error try_send
  on_shut_down e order c s =
      let down =
        after_notify (try_send c.exit_notify true) (record c { shutdown = true })
          (fail_pending (shutdown_error e c.closing) order s) in
      if c.shutdown then finished (c, s, false) else down

  -- The end of RoutineReadResponse: onShutDown, and the parent's onConnShutdown after it.
  unfoldable pub end_reading :
      GoError
      → GoMap ℕ ℕ
      → ℕ
      → TClientConn
      → Store V
      → TClient
      → Run (TClientConn × Store V × TClient)
  unfolding on_shut_down
  end_reading e order conn c s client = do
    (d, t, notify) ← on_shut_down e order c s
    finished (d, t, if notify then on_conn_shutdown c.addr conn client else client)
