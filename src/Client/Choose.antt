-- ===== src/Client/Choose.antt =====
-- rpc/client.go: the connections of a server, and chooseServerForReq.
-- `start` is what TClientConn.Start returns: it dials, outside the mutex.
pub mod ConnLimit
pub mod Drain
pub mod Stale
pub mod Removal
pub mod Connected
pub mod Weighed
pub mod Kept
use gopl.Prelude.{
  ℕ, zero, suc, ◌+◌, Bool, true, false, ◌&&◌, ◌||◌, not, Option, none, some, String, List, [], ◌∷◌,
  ◌++◌, ◌==◌, ltb, leb, if◌then◌else◌, length,
}
use gopl.Prelude.Int.{ℤ, pos, ltb_ℤ, leb_ℤ}
use gopl.Prelude.Run.{Run, finished, panics, out_of_fuel, ◌>>=◌}
use gopl.Keys.{text_eq}
use gopl.GoMap.{lookup}
use gopl.Chan.{Chan, Received, received, recv_closed, recv_default, try_recv}
use gopl.RpcError.{GoError, other, Result, ok, err}
use gopl.Call.{Store, set_chan, set_error, when_call_done}
use gopl.Client.{
  TServerInfo, Servers, TClient, set_info, is_norm, is_pause, get_server_info,
  remote_server_status_connect_failed,
}

abbrev pub contains : ℕ → List ℕ → Bool
contains c [] = false
contains c (d ∷ ds) = d == c || contains c ds

-- What the loop of onConnShutdown, from the front, takes out of the list.
unfoldable pub remove_first : ℕ → List ℕ → List ℕ
remove_first c [] = []
remove_first c (d ∷ ds) = if d == c then ds else d ∷ remove_first c ds

-- What the loop of removeConn, from the back, takes out of the list.
unfoldable pub remove_last : ℕ → List ℕ → List ℕ
remove_last c [] = []
remove_last c (d ∷ ds) =
    let rest = d ∷ remove_last c ds in if contains c ds then rest else if d == c then ds else rest

-- addConn: NewClientConn makes the connection, and it goes to the back of the list.
unfoldable pub add_conn : String → TServerInfo → TClient → TClient × ℕ
add_conn addr info c = (
  record (set_info addr (record info { conn_list = info.conn_list ++ c.next_conn ∷ [] }) c) {
    next_conn = c.next_conn + 1;
  },
  c.next_conn,
)

-- removeConn returns how many connections are left.
unfoldable pub remove_conn : String → TServerInfo → ℕ → TClient → TClient × ℕ
unfolding remove_last
remove_conn addr info conn c =
    let left = remove_last conn info.conn_list in
    (set_info addr (record info { conn_list = left }) c, length left)

-- The third locked section, after Start failed: `true` if no connection is left.
unfoldable pub drop_conn : String → TServerInfo → ℕ → TClient → TClient × Bool
unfolding remove_conn
drop_conn addr info conn c =
    let (d, left) = remove_conn addr info conn c in
    let failed =
      set_info addr
        (record info {
          conn_list = remove_last conn info.conn_list;
          status = remote_server_status_connect_failed;
        })
        d in
    if left == 0 then (failed, true) else (d, false)

unfoldable pub valid_server_num : Servers → ℕ
valid_server_num [] = 0
valid_server_num ((k, i) ∷ rest) =
    (if is_norm i || is_pause i then 1 else 0) + valid_server_num rest

abbrev pub connect_failed : GoError
connect_failed = other "server connect failed"

-- What chooseServerForReq leaves: `notified` says whether it called the callback.
pub record Choice (V : Type 0) : Type 0 where
  pub client : TClient
  pub store : Store V
  pub result : Result String
  pub notified : Bool

module _ {V : Type 0} where
  -- len(serverInfo.CallChan)
  abbrev pub waiting : TServerInfo → Store V → ℕ
  waiting info s = length (s.chans info.call_chan).buf

  -- The test under the read lock: a connection is there, and no call waits or no more may be made.
  unfoldable pub is_ready : TServerInfo → Store V → Bool
  is_ready info s =
      ltb 0 (length info.conn_list)
      && (leb (waiting info s) 0 || leb_ℤ info.max_conn_num (pos (length info.conn_list)))

  -- The test again under the lock, so that two routines do not both make the connection.
  unfoldable pub needs_conn : TServerInfo → Store V → Bool
  needs_conn info s =
      length info.conn_list == 0
      || (ltb 0 (waiting info s) && ltb_ℤ (pos (length info.conn_list)) info.max_conn_num)

  -- The second locked section.
  unfoldable pub reserve_conn : String → TServerInfo → TClient → Store V → TClient × Option ℕ
  unfolding add_conn needs_conn
  reserve_conn addr info c s =
      let (d, conn) = add_conn addr info c in
      if needs_conn info s then (d, some conn) else (c, none)

  -- The loop that empties a call channel and fails every call in it. A closed channel yields nil,
  -- at which the loop panics; the fuel bounds its rounds.
  unfoldable pub drain : ℕ → ℕ → Store V → Run (Store V)
  unfolding try_recv
  drain zero ch s = out_of_fuel
  drain (suc fuel) ch s = elim (try_recv (s.chans ch)) [
    | received c d ↦
        drain fuel ch (when_call_done c (set_error c (some connect_failed) (set_chan ch d s)))
    | recv_closed ↦ panics
    | recv_default ↦ finished s
  ]

  -- `true` where the callback is called: no server is left and a callback is set.
  unfoldable pub on_connect_failed : TServerInfo → TClient → Store V → Run (Store V × Bool)
  unfolding drain valid_server_num
  on_connect_failed info c s = do
    t ← drain (suc (waiting info s)) info.call_chan s
    finished (t, valid_server_num c.map_server_info == 0 && c.on_client_invalid)

  abbrev pub choice : TClient → Store V → Result String → Choice V
  choice c s r = record { client = c; store = s; result = r; notified = false }

  -- The entry of an address that getServerInfo returned is always in the table, so the cases for
  -- `none` are never met.
  unfoldable pub after_start_failed :
      Option TServerInfo → String → ℕ → GoError → TClient → Store V → Run (Choice V)
  unfolding drop_conn on_connect_failed
  after_start_failed none addr conn e c s = finished (choice c s (ok addr))
  after_start_failed (some info) addr conn e c s =
      let (d, gone) = drop_conn addr info conn c in
      let fail = do
        (t, called) ← on_connect_failed info d s
        finished (record (choice d t (err e)) { notified = called })
      in if gone then fail else finished (choice d s (ok addr))

  unfoldable pub after_start : Option GoError → String → ℕ → TClient → Store V → Run (Choice V)
  unfolding after_start_failed
  after_start none addr conn c s = finished (choice c s (ok addr))
  after_start (some e) addr conn c s =
      after_start_failed (lookup addr c.map_server_info) addr conn e c s

  unfoldable pub after_reserve :
      TClient × Option ℕ → (ℕ → Option GoError) → String → Store V → Run (Choice V)
  unfolding after_start
  after_reserve (c, none) start addr s = finished (choice c s (ok addr))
  after_reserve (c, some conn) start addr s = after_start (start conn) addr conn c s

  unfoldable pub at_server :
      Option TServerInfo → (ℕ → Option GoError) → String → TClient → Store V → Run (Choice V)
  unfolding is_ready reserve_conn after_reserve
  at_server none start addr c s = finished (choice c s (ok addr))
  at_server (some info) start addr c s =
      if is_ready info s
      then finished (choice c s (ok addr))
      else after_reserve (reserve_conn addr info c s) start addr s

  unfoldable pub after_pick :
      Result String → (ℕ → Option GoError) → TClient → Store V → Run (Choice V)
  unfolding at_server
  after_pick (err e) start c s = finished (choice c s (err e))
  after_pick (ok addr) start c s = at_server (lookup addr c.map_server_info) start addr c s

  -- The whole function, where no other routine runs between its locked sections.
  unfoldable pub choose_server_for_req :
      (ℤ → ℤ) → Servers → (ℕ → Option GoError) → TClient → Store V → Run (Choice V)
  unfolding get_server_info after_pick
  choose_server_for_req intn order start c s = after_pick (get_server_info intn order c) start c s

-- The loop of onConnShutdown, on the entry of the connection's address.
unfoldable pub shutdown_entry : Option TServerInfo → String → ℕ → TClient → TClient
unfolding remove_first
shutdown_entry none addr conn c = c
shutdown_entry (some info) addr conn c =
    set_info addr (record info { conn_list = remove_first conn info.conn_list }) c

unfoldable pub on_conn_shutdown : String → ℕ → TClient → TClient
unfolding shutdown_entry
on_conn_shutdown addr conn c = shutdown_entry (lookup addr c.map_server_info) addr conn c
