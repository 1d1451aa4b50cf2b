-- ===== src/Server/State.antt =====
-- rpc/server.go: the status of a TServer and its connections.
use gopl.Prelude.{
  Option, none, some, true, false, ℕ, zero, suc, ◌+◌, ◌-◌, Bool, String, List, [], ◌∷◌, ◌++◌, ◌==◌,
  if◌then◌else◌,
}
use gopl.Prelude.Int.{ℤ}
use gopl.Prelude.Run.{Run, ◌>>=◌, finished, panics, out_of_fuel}
use gopl.RpcError.{GoError, Result, ok, err}
use gopl.Client.Choose.{remove_first}
use gopl.Call.{put}
use gopl.ClientConn.NetAddr.{get_net_addr}
use gopl.Server.{Services}

-- The status of a server.
abbrev pub server_status_new : ℕ
server_status_new = 0

abbrev pub server_status_running : ℕ
server_status_running = 1

abbrev pub server_status_stoping : ℕ
server_status_stoping = 2

abbrev pub server_status_stoped : ℕ
server_status_stoped = 3

-- The list of connections, each known by a number, and the counter of serverConnWg.
pub record TServer : Type 0 where
  pub addr : String
  pub service_map : Services
  pub server_conn_wg : ℕ
  pub server_conn_list : List ℕ
  pub status : ℕ

-- NewServer, where listening on the address works.
unfoldable pub new_server : String → TServer
new_server addr = record {
  addr = addr;
  service_map = [];
  server_conn_wg = 0;
  server_conn_list = [];
  status = server_status_new;
}

-- The rest of NewServer, once getNetAddr told the network and the address; `listen` is the error of
-- net.Listen.
unfoldable pub after_listen_addr :
    (String → String → Option GoError) → Result (String × String) → String → Result TServer
unfolding new_server
after_listen_addr listen (err e) addr = err e
after_listen_addr listen (ok (net, path)) addr = elim (listen net path) [
  | none ↦ ok (new_server addr)
  | some e ↦ err e
]

-- The whole of NewServer, with the arguments of getNetAddr.
unfoldable pub open_server :
    (String → Option ℤ)
    → (String → Bool)
    → (String → Option GoError)
    → (String → String → Option GoError)
    → String
    → Result TServer
unfolding after_listen_addr get_net_addr
open_server atoi missing remove listen addr =
    after_listen_addr listen (get_net_addr atoi missing remove addr true) addr

-- Start up to its loop.
unfoldable pub start : TServer → TServer
start s = if s.status == server_status_new then record s { status = server_status_running } else s

-- What Accept returns: a connection, or an error that is a timeout, or another one.
pub data Accepted : Type 0 where
  accepted : ℕ → Accepted
  timed_out : Accepted
  failed : Accepted

unfoldable pub accept_conn : ℕ → TServer → TServer
accept_conn conn s = record s { server_conn_list = s.server_conn_list ++ conn ∷ [] }

-- The loop of Start, which ends at a timeout only; `accept` is what Accept returns in each round.
unfoldable pub accept_loop : ℕ → (ℕ → Accepted) → ℕ → TServer → Run TServer
unfolding accept_conn
accept_loop zero accept k s = out_of_fuel
accept_loop (suc fuel) accept k s = elim (accept k) [
  | accepted conn ↦ accept_loop fuel accept (suc k) (accept_conn conn s)
  | timed_out ↦ finished s
  | failed ↦ accept_loop fuel accept (suc k) s
]

-- Whether the last read deadline that was set on a connection is one that is over.
abbrev pub Deadlines : Type 0
Deadlines = ℕ → Bool

-- Stop of a TServerConn: SetReadDeadline(time.Now()).
abbrev pub expire_conn : ℕ → Deadlines → Deadlines
expire_conn conn expired = put conn true expired

-- The begin of a round of RoutineRun, which sets the deadline anew.
abbrev pub renew_conn : ℕ → Deadlines → Deadlines
renew_conn conn expired = put conn false expired

-- The loop of Stop over the list of connections.
unfoldable pub stop_conns : List ℕ → Deadlines → Deadlines
stop_conns [] expired = expired
stop_conns (conn ∷ rest) expired = stop_conns rest (expire_conn conn expired)

unfoldable pub stop : Deadlines → TServer → TServer × Deadlines
unfolding stop_conns
stop expired s =
    if s.status == server_status_running
    then (record s { status = server_status_stoping }, stop_conns s.server_conn_list expired)
    else (s, expired)

unfoldable pub one_server_conn_start : TServer → TServer
one_server_conn_start s = record s { server_conn_wg = s.server_conn_wg + 1 }

-- serverConnWg.Done: a counter below zero panics.
unfoldable pub conn_done : TServer → Run TServer
conn_done s =
    if s.server_conn_wg == 0
    then panics
    else finished (record s { server_conn_wg = s.server_conn_wg - 1 })

-- The locked section of OneServerConnStop, whose loop takes the first of the connection out.
unfoldable pub unlist_conn : ℕ → TServer → TServer
unfolding remove_first
unlist_conn conn s = record s { server_conn_list = remove_first conn s.server_conn_list }

unfoldable pub one_server_conn_stop : ℕ → TServer → Run TServer
unfolding conn_done unlist_conn
one_server_conn_stop conn s = conn_done s >>= λ t. finished (unlist_conn conn t)

abbrev pub is_running : TServer → Bool
is_running s = s.status == server_status_running
