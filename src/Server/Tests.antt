-- ===== src/Server/Tests.antt =====
-- Runs of rpc/server.go: a service with one method.
use Prim.Native.Char.{code}
use mathlib.Core.List.{Memᴰ}
use gopl.Prelude.{
  ◌||◌, ltb, ℕ, arith, count, All, ◌≡◌, refl, Bool, false, ◌&&◌, none, some, String, List, [], ◌∷◌,
  leb,
}
use gopl.Prelude.Run.{out_of_fuel}
use gopl.Client.Choose.{remove_first}
use gopl.Keys.{text_eq}
use gopl.GoMap.{lookup, assign}
use gopl.RpcError.{ok}
use gopl.Server.{
  GoType, ptr, named, Method, TMethodType, suitable_methods, register, get_service_method,
}
use gopl.Server.State.{
  Deadlines, expire_conn, renew_conn, TServer, failed, server_status_running, server_status_stoping,
  start, stop, is_running, accept_loop, new_server, accept_conn, one_server_conn_start,
}
use gopl.Server.Registry.{IsSuitable, Registers, suitable_methods-IsSuitable, register-Registers}
use gopl.Server.Conns.{
  opened, Conns, Steps, here as same, next as also, starts as begins, accepts, stops, renews, runs,
  IsCounted, live, Departs, keeps_the_live,
}
use gopl.Server.Life.{here, next, starts, stop_forever, start_never_returns}

-- The test for ASCII.
unfoldable upper : String → Bool
upper String.[] = false
upper (String.◌∷◌ c s) = leb b'A' (code c) && leb (code c) b'Z'

abbrev echo : Method
echo = record {
  name = "Echo";
  pkg_path = "";
  ins = ptr (named "Echo" "test") ∷ named "int" "" ∷ ptr (named "int" "") ∷ [];
  outs = named "error" "" ∷ [];
}

-- Its result is no error.
abbrev size : Method
size = record {
  name = "Size";
  pkg_path = "";
  ins = ptr (named "Echo" "test") ∷ [];
  outs = named "int" "" ∷ [];
}

abbrev echo_type : TMethodType
echo_type = record { method = echo; arg_type = named "int" ""; reply_type = ptr (named "int" "") }

abbrev methods : GoType → List Method
methods t = echo ∷ size ∷ []

found_echo : lookup "Echo" (suitable_methods upper (echo ∷ size ∷ []) []) ≡ some echo_type
unfolding suitable_methods upper lookup assign
found_echo = refl

suitable_methods-IsSuitable_example :
    (m : Method) × Memᴰ m (echo ∷ size ∷ []) × (m.name ≡ "Echo") × IsSuitable upper m echo_type
suitable_methods-IsSuitable_example =
    suitable_methods-IsSuitable upper (echo ∷ size ∷ []) "Echo" echo_type found_echo

register-Registers_example :
    let r = register upper methods (λ t. "*test.Echo") (ptr (named "Echo" "test")) none [] in
    Registers [] r.0 r.1
register-Registers_example =
    register-Registers upper methods (λ t. "*test.Echo") (ptr (named "Echo" "test")) none []

-- The method is found afterwards.
lookup_echo :
    get_service_method
      (register upper methods (λ t. "*test.Echo") (ptr (named "Echo" "test")) none []).0
      "Echo.Echo"
    ≡ ok (
      record { name = "Echo"; typ = ptr (named "Echo" "test"); method = ("Echo", echo_type) ∷ [] },
      echo_type,
    )
unfolding register get_service_method upper lookup assign
lookup_echo = refl

abbrev server : TServer
server = record {
  addr = ":8080";
  service_map = [];
  server_conn_wg = 2;
  server_conn_list = 4 ∷ 5 ∷ [];
  status = server_status_running;
}

-- No connection's deadline is over.
abbrev in_time : Deadlines
in_time x = false

stop_forever_example :
    ((x : ℕ) → (stop in_time server).1 x ≡ ltb 0 (count x (4 ∷ 5 ∷ [])))
    × (is_running (start (stop in_time server).0) ≡ false)
    × ((stop in_time (start (stop in_time server).0)).1 ≡ in_time)
stop_forever_example =
    stop_forever in_time in_time server (start (stop in_time server).0) refl (next here starts)

start_never_returns_example :
    ((stop in_time server).0.status ≡ server_status_stoping)
    × (accept_loop 9 (λ j. failed) 0 (stop in_time server).0 ≡ out_of_fuel)
start_never_returns_example = start_never_returns in_time server (λ j. failed) 9 0 refl (λ j. refl)

-- One connection runs, one was accepted, and the server was stopped; then the first began a round.
abbrev two_conns : Conns
two_conns = record {
  server = record {
    addr = ":8080";
    service_map = [];
    server_conn_wg = 1;
    server_conn_list = 7 ∷ 8 ∷ [];
    status = server_status_stoping;
  };
  waiting = 8 ∷ [];
  running = 7 ∷ [];
  leaving = [];
  expired = renew_conn 7 (expire_conn 8 (expire_conn 7 in_time));
}

reached : Steps (opened ":8080") two_conns
unfolding new_server start accept_conn one_server_conn_start remove_first stop
reached =
    also
      (also
        (also (also (also (also same begins) (accepts 7 refl)) (runs 7 (omega arith)))
          (accepts 8 refl))
        stops)
      (renews 7 (omega arith))

keeps_the_live_example :
    IsCounted two_conns
    × ((x : ℕ)
        → (stop two_conns.expired two_conns.server).1 x
          ≡ (two_conns.expired x || (is_running two_conns.server && ltb 0 (live two_conns x))))
    × All (Departs two_conns) (7 ∷ [])
keeps_the_live_example = keeps_the_live ":8080" two_conns reached
