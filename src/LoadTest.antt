-- ===== src/LoadTest.antt =====
-- rpc/test/test_client.go: a load test. Its routines call a service again and again for a while, and
-- main adds up what they count.
-- What time.Since and SyncCall give is an argument. Each routine has a channel of its own without a
-- buffer, on which it sends twice at its end, so main gets from it what it counted.
pub mod Counts
pub mod Chosen
mod Tests
use gopl.Prelude.{
  ℕ, zero, suc, ◌*◌, Bool, Option, none, some, String, List, [], ◌∷◌, ◌++◌, map, length,
  if◌then◌else◌,
}
use gopl.Prelude.Int.{ℤ, pos, ◌+ℤ◌, ◌-ℤ◌, ◌*ℤ◌, ltb_ℤ, leb_ℤ, to_int}
use gopl.Prelude.Run.{Run, finished, out_of_fuel, ◌>>=◌}
use gopl.RpcError.{GoError}
use gopl.Call.{Store}
use gopl.Client.{TClient, TClientConfig, new_client, add_server}

-- time.Second; a Duration is an int64.
abbrev pub second : ℤ
second = pos 1_000_000_000

-- What a routine meets: the time since its start after its k-th call, and the error of that call.
pub record Routine : Type 0 where
  pub since : ℕ → ℤ
  pub error : ℕ → Option GoError

-- A line that runClient prints.
pub record Progress : Type 0 where
  pub run : ℤ
  pub suc_num : ℤ
  pub now : ℤ

-- The variables of runClient, and what it printed.
pub record Tally : Type 0 where
  pub num_run : ℤ
  pub num_suc : ℤ
  pub last_print : ℤ
  pub out : List Progress

abbrev pub no_calls : Tally
no_calls = record { num_run = pos 0; num_suc = pos 0; last_print = pos 0; out = [] }

-- How long runClient waits between its lines.
unfoldable pub print_delt : ℤ → ℤ
print_delt child_num =
    let delt = to_int (second *ℤ to_int (pos 2 *ℤ child_num)) in
    if ltb_ℤ (to_int (second *ℤ pos 5)) delt then to_int (second *ℤ pos 5) else delt

unfoldable pub count_call : Option GoError → Tally → Tally
count_call none t = record t {
  num_run = to_int (t.num_run +ℤ pos 1);
  num_suc = to_int (t.num_suc +ℤ pos 1);
}
count_call (some e) t = record t { num_run = to_int (t.num_run +ℤ pos 1) }

unfoldable pub print_progress : ℤ → ℤ → Tally → Tally
print_progress delt now t =
    if ltb_ℤ delt (to_int (now -ℤ t.last_print))
    then record t {
      last_print = now;
      out = t.out ++ (record { run = t.num_run; suc_num = t.num_suc; now = now }) ∷ [];
    }
    else t

-- The loop of runClient from its k-th call on.
unfoldable pub run_rounds : ℕ → ℤ → ℤ → Routine → ℕ → Tally → Run Tally
unfolding count_call print_progress
run_rounds zero delt run_time r k t = out_of_fuel
run_rounds (suc fuel) delt run_time r k t =
    let u = print_progress delt (r.since k) (count_call (r.error k) t) in
    let rest = run_rounds fuel delt run_time r (suc k) u in
    if leb_ℤ run_time (r.since k) then finished u else rest

unfoldable pub run_client : ℕ → ℤ → ℤ → Routine → Run Tally
unfolding run_rounds print_delt
run_client fuel child_num run_time r = run_rounds fuel (print_delt child_num) run_time r 0 no_calls

-- The loop of main over the channels, with the two sums.
unfoldable pub sum_up : List (Run Tally) → ℤ → ℤ → Run (ℤ × ℤ)
sum_up [] sum_run sum_suc = finished (sum_run, sum_suc)
sum_up (m ∷ ms) sum_run sum_suc =
    m >>= λ t. sum_up ms (to_int (sum_run +ℤ t.num_run)) (to_int (sum_suc +ℤ t.num_suc))

-- What main starts and adds up; the fuel is that of the routines.
unfoldable pub load_test : ℕ → ℤ → List Routine → Run (ℤ × ℤ)
unfolding run_client sum_up
load_test fuel run_time routines =
    sum_up (map (run_client fuel (pos (length routines)) run_time) routines) (pos 0) (pos 0)

-- The test of main that logs that calls failed.
abbrev pub misses_calls : ℤ × ℤ → Bool
misses_calls (sum_run, sum_suc) = ltb_ℤ sum_suc sum_run

abbrev pub test_config : TClientConfig
test_config = record {
  max_wait_call = 100;
  max_retry_num = 1;
  request_timeout = second *ℤ pos 5;
  ping_interval = second *ℤ pos 10;
}

-- The client of the test, which knows one server.
unfoldable pub test_client : {V : Type 0} → String → ℤ → Store V → TClient × Store V
unfolding new_client add_server
test_client addr conn_num s =
    add_server addr (pos 1) conn_num (new_client "test" (some test_config)) s
