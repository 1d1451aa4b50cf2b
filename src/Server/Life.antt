-- ===== src/Server/Life.antt =====
-- The life cycle of a TServer of rpc/server.go.
use gopl.Prelude.{
  ℕ, zero, suc, ◌≡◌, refl, false, List, [], ◌∷◌, arith, ◌∙◌, ◌||◌, ◌&&◌, ltb, count, ==_iff,
}
use gopl.Prelude.Run.{finished, out_of_fuel}
use gopl.Server.State.{
  Deadlines, expire_conn, stop_conns, TServer, Accepted, failed, server_status_running,
  server_status_stoping, start, accept_conn, accept_loop, stop, one_server_conn_start,
  one_server_conn_stop, is_running,
}

-- One routine runs one operation of the server.
pub data Step (s : TServer) : TServer → Type 0 where
  starts : Step s (start s)
  accepts : (conn : ℕ) → Step s (accept_conn conn s)
  stops : (expired : Deadlines) → Step s (stop expired s).0
  conn_starts : Step s (one_server_conn_start s)
  conn_stops : (conn : ℕ) (t : TServer) → one_server_conn_stop conn s ≡ finished t → Step s t

pub data Steps (s : TServer) : TServer → Type 0 where
  here : Steps s s
  next : {t u : TServer} → Steps s t → Step t u → Steps s u

conn_stop-status :
    (conn : ℕ) (s t : TServer) → one_server_conn_stop conn s ≡ finished t → t.status ≡ s.status
unfolding one_server_conn_stop
conn_stop-status conn s t e = ground arith

Step-stoping :
    {s t : TServer} → Step s t → s.status ≡ server_status_stoping → t.status ≡ server_status_stoping
unfolding start accept_conn stop one_server_conn_start
Step-stoping starts h = ground arith
Step-stoping (accepts conn) h = h
Step-stoping (stops expired) h = ground arith
Step-stoping conn_starts h = h
Step-stoping {s} (conn_stops conn t e) h = conn_stop-status conn s t e ∙ h

Steps-stoping :
    {s t : TServer}
    → Steps s t
    → s.status ≡ server_status_stoping
    → t.status ≡ server_status_stoping
Steps-stoping here h = h
Steps-stoping (next r x) h = Step-stoping x (Steps-stoping r h)

stop-status :
    (expired : Deadlines) (s : TServer)
    → s.status ≡ server_status_running
    → (stop expired s).0.status ≡ server_status_stoping
unfolding stop
stop-status expired s h = ground arith

stop_conns-count :
    (conns : List ℕ) (expired : Deadlines) (x : ℕ)
    → stop_conns conns expired x ≡ (expired x || ltb 0 (count x conns))
unfolding stop_conns
stop_conns-count [] expired x = ground arith
stop_conns-count (conn ∷ rest) expired x =
    stop_conns-count rest (expire_conn conn expired) x ∙ ground (arith, ==_iff conn x)

-- Stop of a server that runs lets the deadline of each connection in the list pass, and no other.
pub stop-deadlines :
    (expired : Deadlines) (s : TServer) (x : ℕ)
    → (stop expired s).1 x ≡ (expired x || (is_running s && ltb 0 (count x s.server_conn_list)))
unfolding stop
stop-deadlines expired s x = ground (arith, stop_conns-count s.server_conn_list expired x)

stop-stoping :
    (expired : Deadlines) (s : TServer)
    → s.status ≡ server_status_stoping
    → (stop expired s).1 ≡ expired
unfolding stop
stop-stoping expired s h = ground arith

-- Stop of a running server lets the read deadline of each connection in its list pass, and of no
-- other one. Whatever operations of the server follow, also Start, it does not run again, and a second
-- Stop changes no deadline.
pub stop_forever :
    (expired later : Deadlines) (s t : TServer)
    → s.status ≡ server_status_running
    → Steps (stop expired s).0 t
    → ((x : ℕ) → (stop expired s).1 x ≡ (expired x || ltb 0 (count x s.server_conn_list)))
      × (is_running t ≡ false)
      × ((stop later t).1 ≡ later)
stop_forever expired later s t h r =
    let end = Steps-stoping r (stop-status expired s h) in
    (λ x. stop-deadlines expired s x ∙ ground (arith, h), ground arith, stop-stoping later t end)

accept_loop-failing :
    (fuel : ℕ) (accept : ℕ → Accepted) (k : ℕ) (s : TServer)
    → ((j : ℕ) → accept j ≡ failed)
    → accept_loop fuel accept k s ≡ out_of_fuel
unfolding accept_loop
accept_loop-failing zero accept k s h = refl
accept_loop-failing (suc fuel) accept k s h =
    rw (h k, accept_loop) (accept_loop-failing fuel accept (suc k) s h)

-- Once a running server was stopped, and every Accept of its closed listener fails with an error
-- that is no timeout, the loop of Start does not end, however many rounds it runs.
pub start_never_returns :
    (expired : Deadlines) (s : TServer) (accept : ℕ → Accepted) (fuel k : ℕ)
    → s.status ≡ server_status_running
    → ((j : ℕ) → accept j ≡ failed)
    → ((stop expired s).0.status ≡ server_status_stoping)
      × (accept_loop fuel accept k (stop expired s).0 ≡ out_of_fuel)
start_never_returns expired s accept fuel k h f =
    (stop-status expired s h, accept_loop-failing fuel accept k (stop expired s).0 f)
