-- ===== src/ClientConn/Ownership/Steps.antt =====
-- The users of a connection of rpc/client_conn.go and its two routines, in any order.
use gopl.Prelude.{count, ℕ, ◌+◌, ◌<◌, ◌≡◌, ◌≢◌, none, some, Option, List, [], ◌∷◌, ◌++◌}
use gopl.Chan.{Chan, recv_closed, try_recv}
use gopl.RpcError.{GoError, ok, err}
use gopl.Header.{TResponseHeader}
use gopl.Codec.{IClientCodec}
use gopl.Call.{Store, TCall, set_call, set_chan, new_call, free_call, cancel_call}
use gopl.Client.Calls.{fail_call}
use gopl.ClientConn.{TClientConn, TClientGroupRequest, ConnState}
use gopl.ClientConn.Pending.{seq_limit}
use gopl.ClientConn.Sending.{write_and_flush, send_ping, on_exit}
use gopl.ClientConn.Receiving.{dispatch}
use gopl.ClientConn.Ownership.{input}
use gopl.ClientConn.Ownership.Users.{IsUsers, enqueued}
use gopl.ClientConn.Ownership.Routines.{
  Writer, selecting, took, writing, cleaning, failing, stopped, Reader, reading, answering,
  skipping, broken, writer_hand, reader_hand, after_flush, after_ping, after_body, lock_call,
  lock_cleanup, lock_response,
}

-- A connection that runs, and where its routines are.
pub record Running (V S : Type 0) : Type 0 where
  pub state : ConnState V S
  pub writer : Writer
  pub reader : Reader

module _ {V S : Type 0} where
  -- The calls that the routines hold.
  abbrev pub hand_of : Running V S → List ℕ
  hand_of ρ = writer_hand ρ.writer ++ reader_hand ρ.reader

  abbrev pub with_store : Store V → Running V S → Running V S
  with_store s ρ = record ρ { state = record ρ.state { store = s } }

  -- A user's call, while the connection runs.
  abbrev pub UsersCall : Running V S → ℕ → Type 0
  UsersCall ρ x = IsUsers ρ.state.conn ρ.state.store (hand_of ρ) x

  abbrev pub got : ℕ → List ℕ → Running V S → Running V S
  got x rest ρ =
      let ch = ρ.state.conn.input_call_chan in
      let s = set_chan ch (record (ρ.state.store.chans ch) { buf = rest }) ρ.state.store in
      record ρ { state = record ρ.state { store = s }; writer = took x }

  abbrev pub selected : ConnState V S × Option GoError → Running V S → Running V S
  selected (σ, e) ρ = record ρ { state = σ; writer = after_ping e }

  abbrev pub locked : TClientConn × Store V × Writer → Running V S → Running V S
  locked (c, s, w) ρ = record ρ { state = record ρ.state { conn = c; store = s }; writer = w }

  abbrev pub cleaned : TClientConn × Writer → Running V S → Running V S
  cleaned (c, w) ρ = record ρ { state = record ρ.state { conn = c }; writer = w }

  abbrev pub responded : S → TClientConn × Reader → Running V S → Running V S
  responded y (c, r) ρ = record ρ { state = record ρ.state { conn = c; codec = y }; reader = r }

  abbrev pub wrote : List TClientGroupRequest → S × Option GoError → Running V S → Running V S
  wrote group (y, e) ρ = record ρ {
    state = record ρ.state { codec = y };
    writer = after_flush e group;
  }

  abbrev pub answered : ConnState V S × Option GoError → Running V S → Running V S
  answered (σ, e) ρ = record ρ { state = σ; reader = after_body e }

module _ {V S : Type 0} (codec : IClientCodec V S) where
  -- A user makes, fills, frees or queues a call that it holds, or cancels one that is not pooled, or
  -- something is done with a channel that is not the input channel; or a routine goes on to where it takes or leaves the mutex.
  pub data Step (ρ : Running V S) : Running V S → Type 0 where
    makes : (i now : ℕ) → Step ρ (with_store (new_call i now ρ.state.store).0 ρ)
    fills :
        (x : ℕ) (v : TCall V) → UsersCall ρ x → Step ρ (with_store (set_call x v ρ.state.store) ρ)
    frees : (x : ℕ) → UsersCall ρ x → Step ρ (with_store (free_call x ρ.state.store) ρ)
    cancels :
        (x : ℕ)
        → count x ρ.state.store.pool ≡ 0
        → Step ρ (with_store (cancel_call x ρ.state.store) ρ)
    queues :
        (x : ℕ)
        → UsersCall ρ x
        → (ρ.state.store.calls x).done ≢ some ρ.state.conn.input_call_chan
        → Step ρ (with_store (enqueued x ρ.state.conn ρ.state.store) ρ)
    elsewhere :
        (ch : ℕ) (d : Chan ℕ)
        → ch ≢ ρ.state.conn.input_call_chan
        → Step ρ (with_store (set_chan ch d ρ.state.store) ρ)
    receives :
        (x : ℕ) (rest : List ℕ)
        → ρ.writer ≡ selecting
        → input ρ.state.conn ρ.state.store ≡ x ∷ rest
        → Step ρ (got x rest ρ)
    closes :
        ρ.writer ≡ selecting
        → try_recv (ρ.state.store.chans ρ.state.conn.input_call_chan) ≡ recv_closed
        → Step ρ (record ρ { writer = stopped })
    pings : ρ.writer ≡ selecting → Step ρ (selected (send_ping codec ρ.state) ρ)
    exits :
        ρ.writer ≡ selecting
        → Step ρ (selected (on_exit codec (try_recv ρ.state.conn.exit_notify) ρ.state) ρ)
    locks :
        (x : ℕ)
        → ρ.writer ≡ took x
        → ρ.state.conn.seq + 101 < seq_limit
        → Step ρ (locked (lock_call x ρ.state.conn ρ.state.store) ρ)
    writes :
        (group : List TClientGroupRequest)
        → ρ.writer ≡ writing group
        → Step ρ (wrote group (write_and_flush codec group ρ.state.store ρ.state.codec) ρ)
    cleans :
        (e : GoError) (q : TClientGroupRequest) (rest : List TClientGroupRequest)
        → ρ.writer ≡ cleaning e (q ∷ rest)
        → Step ρ (cleaned (lock_cleanup e q rest ρ.state.conn) ρ)
    fails :
        (e : GoError) (x : ℕ) (rest : List TClientGroupRequest)
        → ρ.writer ≡ failing e x rest
        → Step ρ (record (with_store (fail_call e x ρ.state.store) ρ) { writer = cleaning e rest })
    ends : (e : GoError) → ρ.writer ≡ cleaning e [] → Step ρ (record ρ { writer = stopped })
    reads :
        (y : S) (h : TResponseHeader)
        → ρ.reader ≡ reading
        → codec.read_response_header ρ.state.codec ≡ (y, ok h)
        → Step ρ (responded y (lock_response h ρ.state.conn) ρ)
    breaks :
        (y : S) (e : GoError)
        → ρ.reader ≡ reading
        → codec.read_response_header ρ.state.codec ≡ (y, err e)
        → Step ρ (responded y (ρ.state.conn, broken) ρ)
    answers :
        (x : ℕ) (h : TResponseHeader)
        → ρ.reader ≡ answering x h
        → Step ρ (answered (dispatch codec (some x) h ρ.state) ρ)
    skips :
        (h : TResponseHeader)
        → ρ.reader ≡ skipping h
        → Step ρ (answered (dispatch codec none h ρ.state) ρ)

  pub data Steps (ρ : Running V S) : Running V S → Type 0 where
    here : Steps ρ ρ
    next : {π ν : Running V S} → Steps ρ π → Step π ν → Steps ρ ν
