-- ===== src/Client.antt =====
-- rpc/client.go: the table of servers of a TClient.
-- A *TServerInfo is known by its key in the table, since no entry is ever removed; a connection
-- is known by a number, and `next_conn` is the next one that NewClientConn makes. The mutex makes
-- each locked section one function.
pub mod Pick
pub mod Table
pub mod Unordered
pub mod Choose
mod Tests
pub mod Calls
use Prim.Native.String.{◌++◌ as text_append}
use gopl.Prelude.{
  ℕ, suc, ◌+◌, Bool, true, false, ◌&&◌, ◌||◌, not, Option, none, some, String, List, [], ◌∷◌, map,
  ◌==◌, ltb, if◌then◌else◌, length,
}
use gopl.Prelude.Int.{ℤ, pos, ◌+ℤ◌, ltb_ℤ, leb_ℤ, eqb_ℤ, to_int}
use gopl.Keys.{text_eq}
use gopl.GoMap.{GoMap, lookup, assign}
use gopl.RpcError.{GoError, other, err_no_server, err_server_pause, Result, ok, err}
use gopl.Call.{Store, make_chan}

abbrev pub remote_server_status_norm : ℤ
remote_server_status_norm = pos 0

abbrev pub remote_server_status_pause : ℤ
remote_server_status_pause = pos 1

abbrev pub remote_server_status_connect_failed : ℤ
remote_server_status_connect_failed = pos 2

-- From rpc/type.go; the durations are in nanoseconds.
pub record TClientConfig : Type 0 where
  pub max_wait_call : ℕ
  pub max_retry_num : ℕ
  pub request_timeout : ℤ
  pub ping_interval : ℤ

abbrev pub def_client_config : TClientConfig
def_client_config = record {
  max_wait_call = 1024;
  max_retry_num = 1;
  request_timeout = pos 3_000_000_000;
  ping_interval = pos 60_000_000_000;
}

pub record TServerInfo : Type 0 where
  pub addr : String
  pub weight : ℤ
  pub max_conn_num : ℤ
  pub call_chan : ℕ
  pub conn_list : List ℕ
  pub status : ℤ

pub record TServerInfoReport : Type 0 where
  pub addr : String
  pub weight : ℤ
  pub max_conn_num : ℤ
  pub cur_conn_num : ℕ
  pub status : ℤ

abbrev pub Servers : Type 0
Servers = GoMap String TServerInfo

-- `on_client_invalid` says whether a callback is set.
pub record TClient : Type 0 where
  pub server_name : String
  pub map_server_info : Servers
  pub total_weight : ℤ
  pub config : TClientConfig
  pub on_client_invalid : Bool
  pub next_conn : ℕ

unfoldable pub new_client : String → Option TClientConfig → TClient
new_client name config = record {
  server_name = name;
  map_server_info = [];
  total_weight = pos 0;
  config = elim config [ none ↦ def_client_config | some given ↦ given ];
  on_client_invalid = false;
  next_conn = 0;
}

abbrev pub get_service_name : TClient → String
get_service_name c = c.server_name

abbrev pub set_on_invalid_callback : TClient → TClient
set_on_invalid_callback c = record c { on_client_invalid = true }

abbrev pub is_norm : TServerInfo → Bool
is_norm i = eqb_ℤ i.status remote_server_status_norm

abbrev pub is_pause : TServerInfo → Bool
is_pause i = eqb_ℤ i.status remote_server_status_pause

-- The loop of updateTotalWeight, which adds in an int.
unfoldable pub sum_weights : ℤ → Servers → ℤ
sum_weights sum [] = sum
sum_weights sum ((k, i) ∷ rest) =
    sum_weights (if is_norm i then to_int (sum +ℤ i.weight) else sum) rest

unfoldable pub update_total_weight : TClient → TClient
update_total_weight c = record c { total_weight = sum_weights (pos 0) c.map_server_info }

abbrev pub set_info : String → TServerInfo → TClient → TClient
set_info addr info c = record c { map_server_info = assign addr info c.map_server_info }

module _ {V : Type 0} where
  -- The two branches of AddServer, by what the table holds.
  unfoldable pub add_entry :
      Option TServerInfo → String → ℤ → ℤ → TClient → Store V → TClient × Store V
  add_entry (some info) addr weight max_conn_num c s =
      (set_info addr (record info { weight = weight; max_conn_num = max_conn_num }) c, s)
  add_entry none addr weight max_conn_num c s =
      let (t, ch) = make_chan c.config.max_wait_call s in
      (
        set_info addr
            (record {
              addr = addr;
              weight = weight;
              max_conn_num = max_conn_num;
              call_chan = ch;
              conn_list = [];
              status = remote_server_status_norm;
            })
            c,
        t,
      )

  unfoldable pub add_server : String → ℤ → ℤ → TClient → Store V → TClient × Store V
  unfolding add_entry update_total_weight
  add_server addr weight max_conn_num c s =
      let (d, t) = add_entry (lookup addr c.map_server_info) addr weight max_conn_num c s in
      (update_total_weight d, t)

unfoldable pub change_entry : Option TServerInfo → String → ℤ → TClient → TClient × Option GoError
unfolding update_total_weight
change_entry (some info) addr status c =
    (update_total_weight (set_info addr (record info { status = status }) c), none)
change_entry none addr status c = (
  c,
  some (other (text_append "not found server:" (text_append c.server_name (text_append "_" addr)))),
)

unfoldable pub change_server_status : String → ℤ → TClient → TClient × Option GoError
unfolding change_entry
change_server_status addr status c = change_entry (lookup addr c.map_server_info) addr status c

abbrev pub report : String × TServerInfo → TServerInfoReport
report (k, i) = record {
  addr = i.addr;
  weight = i.weight;
  max_conn_num = i.max_conn_num;
  cur_conn_num = length i.conn_list;
  status = i.status;
}

-- `order` is the order in which the runtime ranges over the table.
unfoldable pub get_all_server_info : Servers → List TServerInfoReport
get_all_server_info order = map report order

-- The loop of getServerInfo: the sum of the weights so far, and the error to return so far. What
-- a `let` binds is computed only on the branch that reads it.
unfoldable pub pick_server : ℤ → ℤ → GoError → Servers → Result String
pick_server rand_num sum e [] = err e
pick_server rand_num sum e ((k, i) ∷ rest) =
    let skipped = pick_server rand_num sum err_server_pause rest in
    let passed = pick_server rand_num (to_int (sum +ℤ i.weight)) e rest in
    if is_pause i
    then skipped
    else if leb_ℤ rand_num (to_int (sum +ℤ i.weight))
    then ok k
    else passed

-- `intn` stands for rand.Intn, `order` for the order in which the runtime ranges over the table.
unfoldable pub get_server_info : (ℤ → ℤ) → Servers → TClient → Result String
unfolding pick_server
get_server_info intn order c =
    pick_server (if ltb_ℤ (pos 0) c.total_weight then intn c.total_weight else pos 0) (pos 0)
      err_no_server order
