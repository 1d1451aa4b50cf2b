-- ===== src/Call.antt =====
-- rpc/call.go: TCall, its pool, and how a finished call is announced.
-- Calls and channels are shared by pointer, so they stand in a store: a call or a channel is known
-- by its number. sync.Pool may hand out any call that it holds, or a new one: which one is an
-- argument of new_call. The time is an argument too.
pub mod Pool
pub mod Completion
mod Tests
use gopl.Prelude.{
  ℕ, zero, suc, ◌+◌, Bool, true, false, not, Option, none, some, String, List, [], ◌∷◌, ◌==◌,
  if◌then◌else◌,
}
use gopl.Prelude.Int.{ℤ, pos, ◌+ℤ◌, ltb_ℤ, to_int32}
use gopl.Chan.{Chan, Sent, sent, full, send_panic, make, try_send}
use gopl.RpcError.{GoError}

-- `V` is the type of the values that an `interface{}` holds; `none` is nil. `done` is a channel.
pub record TCall (V : Type 0) : Type 0 where
  pub sevice_method : String
  pub args : Option V
  pub reply : Option V
  pub extra : Option V
  pub error : Option GoError
  pub done : Option ℕ
  pub start_time : ℕ
  pub cancel : ℤ

-- The memory that the calls live in: every number below `next_call` is a call that was made, and
-- `pool` holds those that wait in gCallPool.
pub record Store (V : Type 0) : Type 0 where
  pub calls : ℕ → TCall V
  pub next_call : ℕ
  pub pool : List ℕ
  pub chans : ℕ → Chan ℕ
  pub next_chan : ℕ

abbrev pub put {ℓ} : {A : Type ℓ} → ℕ → A → (ℕ → A) → ℕ → A
put k v f j = if k == j then v else f j

-- What a pool with the choice `i` hands out: the call at that place, if there is one.
unfoldable pub take_at : ℕ → List ℕ → Option (ℕ × List ℕ)
take_at i [] = none
take_at zero (c ∷ cs) = some (c, cs)
take_at (suc i) (c ∷ cs) = elim (take_at i cs) [ none ↦ none | some (d, ds) ↦ some (d, c ∷ ds) ]

module _ {V : Type 0} where
  -- TCall{}
  abbrev pub zero_call : TCall V
  zero_call = record {
    sevice_method = "";
    args = none;
    reply = none;
    extra = none;
    error = none;
    done = none;
    start_time = 0;
    cancel = pos 0;
  }

  abbrev pub set_call : ℕ → TCall V → Store V → Store V
  set_call c x s = record s { calls = put c x s.calls }

  abbrev pub set_chan : ℕ → Chan ℕ → Store V → Store V
  set_chan ch x s = record s { chans = put ch x s.chans }

  abbrev pub set_error : ℕ → Option GoError → Store V → Store V
  set_error c e s = set_call c (record (s.calls c) { error = e }) s

  -- make(chan *TCall, n)
  unfoldable pub make_chan : ℕ → Store V → Store V × ℕ
  make_chan n s = (
    record s { chans = put s.next_chan (make n) s.chans; next_chan = s.next_chan + 1 },
    s.next_chan,
  )

  -- gCallPool.Get(): a pooled call, or the zero call that New makes.
  unfoldable pub hand_out : Option (ℕ × List ℕ) → Store V → Store V × ℕ
  hand_out (some (c, rest)) s = (record s { pool = rest }, c)
  hand_out none s = (
    record s { calls = put s.next_call zero_call s.calls; next_call = s.next_call + 1 },
    s.next_call,
  )

  -- call.Cancel = 0; call.StartTime = time.Now()
  unfoldable pub stamp : ℕ → Store V × ℕ → Store V × ℕ
  stamp now (t, c) = (set_call c (record (t.calls c) { cancel = pos 0; start_time = now }) t, c)

  unfoldable pub new_call : ℕ → ℕ → Store V → Store V × ℕ
  unfolding hand_out stamp take_at
  new_call i now s = stamp now (hand_out (take_at i s.pool) s)

  -- The method Reset.
  abbrev pub reset : ℕ → Store V → Store V
  reset c s = set_call c zero_call s

  unfoldable pub free_call : ℕ → Store V → Store V
  free_call c s = let t = reset c s in record t { pool = c ∷ t.pool }

  unfoldable pub cancel_call : ℕ → Store V → Store V
  unfolding to_int32 ◌+ℤ◌
  cancel_call c s =
      set_call c (record (s.calls c) { cancel = to_int32 ((s.calls c).cancel +ℤ pos 1) }) s

  unfoldable pub is_canceled : Store V → ℕ → Bool
  is_canceled s c = ltb_ℤ (pos 0) (s.calls c).cancel

  unfoldable pub need_done_notify : Store V → ℕ → Bool
  need_done_notify s c = elim (s.calls c).done [ none ↦ false | some ch ↦ true ]

  -- The `select` of done: a send on a closed channel panics, and the deferred function frees the
  -- call; a full channel drops the notice.
  after_send : Sent ℕ → ℕ → ℕ → Store V → Store V
  unfolding free_call
  after_send (sent d) ch c s = set_chan ch d s
  after_send full ch c s = s
  after_send send_panic ch c s = free_call c s

  -- A send on a nil channel is never ready, so the `default` is taken.
  notify : Option ℕ → ℕ → Store V → Store V
  unfolding after_send try_send
  notify none c s = s
  notify (some ch) c s = after_send (try_send (s.chans ch) c) ch c s

  -- The method done.
  unfoldable pub done_call : ℕ → Store V → Store V
  unfolding notify is_canceled free_call
  done_call c s = if is_canceled s c then free_call c s else notify (s.calls c).done c s

  unfoldable pub when_call_done : ℕ → Store V → Store V
  unfolding done_call need_done_notify free_call
  when_call_done c s = if need_done_notify s c then done_call c s else free_call c s
