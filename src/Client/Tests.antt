-- ===== src/Client/Tests.antt =====
-- Runs of rpc/client.go: a client of two servers.
use mathlib.Core.List.{Permᴰ}
use mathlib.Core.Quot
use gopl.Prelude.{
  ◌↔◌, Bool, ℕ, ◌≡◌, refl, ◌≢◌, true, false, none, some, String, [], ◌∷◌, arith, All,
}
use gopl.Prelude.Int.{ℤ, pos, to_int, ◌+ℤ◌}
use gopl.Prelude.Run.{finished}
use gopl.Keys.{text_eq}
use gopl.GoMap.{lookup, assign}
use gopl.RpcError.{eof, err_no_server, ok, err}
use gopl.Call.{new_call, Store, set_chan, zero_call, make_chan}
use gopl.Call.Pool.{IsPooled}
use gopl.Client.{
  TServerInfo, Servers, TClient, new_client, def_client_config, remote_server_status_norm,
  remote_server_status_connect_failed, update_total_weight, add_server, get_server_info,
  sum_weights, get_all_server_info,
}
use gopl.Client.Pick.{
  live_weight, IsIntn, IsWeighed, Picks, paused_error, get_server_info-Picks,
  unit_weight_never_chosen,
}
use gopl.Client.Unordered.{UnorderedReports, ranges_agree}
use gopl.Client.Choose.Kept.{queues_or_fails}
use gopl.Client.Choose.Weighed.{Steps-Picks}
use gopl.Client.Choose.{
  on_conn_shutdown, choice, choose_server_for_req, reserve_conn, drop_conn, on_connect_failed,
}
use gopl.Client.Choose.Connected.{IsConnected, choose_server_for_req-IsConnected}
use gopl.Client.Choose.ConnLimit.{AllInLimit, reserve, shutdown, add, here, next, Steps-AllInLimit}
use gopl.Client.Choose.Drain.{Failed, IsLost, on_connect_failed-finished}
use gopl.Client.Choose.Stale.{IsExact, drop_conn-stale}
use gopl.Client.Calls.{after_choice, Request, Env, sync_send, sync_wait}
use gopl.Client.Calls.Outcomes.{sync_call-unpicked}

abbrev server : String → ℕ → TServerInfo
server addr weight = record {
  addr = addr;
  weight = pos weight;
  max_conn_num = pos 2;
  call_chan = 0;
  conn_list = 4 ∷ [];
  status = remote_server_status_norm;
}

abbrev table : Servers
table = ("a:1", server "a:1" 3) ∷ ("b:2", server "b:2" 1) ∷ []

-- Another order of the table.
abbrev ranged : Servers
ranged = ("b:2", server "b:2" 1) ∷ ("a:1", server "a:1" 3) ∷ []

abbrev client : TClient
client = record {
  server_name = "test";
  map_server_info = table;
  total_weight = pos 4;
  config = def_client_config;
  on_client_invalid = true;
  next_conn = 5;
}

-- Two calls wait in channel 0.
abbrev store : Store ℕ
store = record {
  calls = λ c. zero_call;
  next_call = 3;
  pool = [];
  chans = λ ch. record { buf = 0 ∷ 1 ∷ []; cap = 8; closed = false };
  next_chan = 1;
}

-- A generator that always draws the smallest number.
abbrev least : ℤ → ℤ
least n = pos 0

least-IsIntn : IsIntn least
least-IsIntn n h = (0, refl, h)

client-IsWeighed : IsWeighed client
client-IsWeighed = record {
  non_negative = omega arith;
  bounded = omega arith;
  total = 4;
  total_eq = refl;
  total_le = omega arith;
}

get_server_info-Picks_example :
    Picks ranged (paused_error err_no_server ranged) (get_server_info least ranged client)
get_server_info-Picks_example =
    get_server_info-Picks least ranged client least-IsIntn (Permᴰ.swap refl refl) client-IsWeighed

unit_weight_never_chosen_example :
    get_server_info least client.map_server_info (update_total_weight client) ≡ ok "a:1"
unit_weight_never_chosen_example =
    unit_weight_never_chosen least "a:1" "b:2" (server "a:1" 3) (server "b:2" 1) 3 client
      least-IsIntn refl refl refl refl (omega arith) refl

-- A client with one server, and with another one.
abbrev one_server : TClient
one_server = (add_server "a:1" (pos 3) (pos 2) (new_client "test" none) store).0

abbrev two_servers : TClient
two_servers = (add_server "b:2" (pos 1) (pos 2) one_server store).0

a_new : lookup "a:1" (new_client "test" none).map_server_info ≡ none
unfolding new_client lookup
a_new = refl

b_new : lookup "b:2" one_server.map_server_info ≡ none
unfolding add_server new_client lookup assign
b_new = refl

one_live : live_weight one_server.map_server_info ≡ 3
unfolding add_server new_client lookup assign
one_live = refl

two_live : live_weight two_servers.map_server_info ≡ 4
unfolding add_server new_client lookup assign
two_live = refl

abbrev idle : String → ℕ → TServerInfo
idle addr weight = record (server addr weight) { call_chan = 1; conn_list = [] }

abbrev b_then_a : Servers
b_then_a = ("b:2", idle "b:2" 1) ∷ ("a:1", idle "a:1" 3) ∷ []

two_ranged : Permᴰ b_then_a two_servers.map_server_info
unfolding add_server new_client lookup assign make_chan
two_ranged = Permᴰ.swap refl refl

Steps-Picks_example :
    Picks b_then_a
      (paused_error err_no_server b_then_a)
      (get_server_info least b_then_a two_servers)
Steps-Picks_example =
    Steps-Picks "test" none two_servers least b_then_a
      (next (next here (add "a:1" (pos 3) (pos 2) store (λ info e. cc a_new)))
        (add "b:2" (pos 1) (pos 2) store (λ info e. cc b_new)))
      ((tt, omega arith, omega (arith, one_live)), omega arith, omega (arith, two_live))
      least-IsIntn two_ranged

client-AllInLimit : AllInLimit client
client-AllInLimit = omega arith

found_a : lookup "a:1" table ≡ some (server "a:1" 3)
unfolding lookup
found_a = refl

Steps-AllInLimit_example : AllInLimit (reserve_conn "a:1" (server "a:1" 3) client store).0
Steps-AllInLimit_example =
    Steps-AllInLimit (next here (reserve "a:1" (server "a:1" 3) store found_a)) client-AllInLimit

queues_or_fails_example :
    after_choice (ok "a:1") 2 (on_conn_shutdown "a:1" 4 client) store
    ≡ finished (set_chan 0 (record { buf = 0 ∷ 1 ∷ 2 ∷ []; cap = 8; closed = false }) store)
queues_or_fails_example =
    queues_or_fails "a:1" (server "a:1" 3) client (on_conn_shutdown "a:1" 4 client) 2 store found_a
      (next here (shutdown "a:1" 4)) refl

on_connect_failed-finished_example :
    (t : Store ℕ) × (called : Bool) × (on_connect_failed (server "a:1" 3) client store
      ≡ finished (t, called))
    × ((called ≡ true) ↔ (client.on_client_invalid ≡ true) × All IsLost client.map_server_info)
    × ((t.chans 0).buf ≡ [])
    × All (Failed t) (0 ∷ 1 ∷ [])
on_connect_failed-finished_example =
    on_connect_failed-finished (server "a:1" 3) client store refl (λ e. cc, (λ e. cc, tt))

client-IsExact : IsExact client
client-IsExact = record { non_negative = omega arith; bounded = omega arith; exact = refl }

drop_conn-stale_example :
    let d = (drop_conn "a:1" (server "a:1" 3) 4 client).0 in
    (lookup "a:1" d.map_server_info
      ≡ some (record (server "a:1" 3) {
        conn_list = [];
        status = remote_server_status_connect_failed;
      }))
    × (d.total_weight ≡ pos 4)
    × (d.total_weight ≢ (update_total_weight d).total_weight)
drop_conn-stale_example =
    drop_conn-stale "a:1" (server "a:1" 3) 4 2 client client-IsExact found_a refl refl refl

-- A client without servers.
abbrev lonely : TClient
lonely = record client { map_server_info = []; total_weight = pos 0 }

abbrev env : Env
env = record { intn = least; order = []; start = λ conn. some eof }

abbrev echo : Request ℕ
echo = record { service_method = "test.Echo"; args = some 5; reply = some 0 }

no_server : get_server_info least [] lonely ≡ err err_no_server
unfolding get_server_info
no_server = refl

store-IsPooled : IsPooled store
store-IsPooled = record { blank = tt; made = tt; distinct = tt }

sync_call-unpicked_example :
    (t u : Store ℕ) × (ch : ℕ) × (sync_send env 0 9 echo lonely store ≡ finished (lonely, t, ch))
    × (sync_wait ch t ≡ finished (some (u, some err_no_server)))
    × (u.pool ≡ (new_call 0 9 store).1 ∷ (new_call 0 9 store).0.pool)
    × (u.calls (new_call 0 9 store).1 ≡ zero_call)
    × IsPooled u
sync_call-unpicked_example =
    sync_call-unpicked env 0 9 echo err_no_server lonely store store-IsPooled no_server

chosen_a : get_server_info least table client ≡ ok "a:1"
unfolding get_server_info to_int ◌+ℤ◌
chosen_a = refl

choose_server_for_req-IsConnected_example :
    (d : TClient) × (choose_server_for_req least table (λ conn. none) client store
      ≡ finished (choice d store (ok "a:1")))
    × IsConnected "a:1" d
choose_server_for_req-IsConnected_example =
    choose_server_for_req-IsConnected least table (λ conn. none) "a:1" (server "a:1" 3) client store
      chosen_a found_a (λ conn. refl)

ranges_agree_example :
    (sum_weights (pos 0) ranged ≡ (update_total_weight client).total_weight)
    × (◌≡◌ {A = UnorderedReports}
        (Quot.mk (get_all_server_info ranged))
        (Quot.mk (get_all_server_info table)))
ranges_agree_example = ranges_agree client ranged (Quot.sound (Permᴰ.swap refl refl))
