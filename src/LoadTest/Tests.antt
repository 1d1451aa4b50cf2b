-- ===== src/LoadTest/Tests.antt =====
-- Runs of rpc/test/test_client.go: two routines, one of which fails once.
use mathlib.Core.List.Permᴰ as Perm
use gopl.Prelude.{ℕ, ◌*◌, ◌≡◌, refl, true, false, none, some, [], ◌∷◌, arith}
use gopl.Prelude.Int.{ℤ, pos}
use gopl.Prelude.Run.{finished}
use gopl.RpcError.{eof, ok}
use gopl.Call.{Store, zero_call}
use gopl.Client.{TClient}
use gopl.Client.Choose.{choice, choose_server_for_req}
use gopl.Client.Choose.Connected.{IsConnected}
use gopl.LoadTest.{Routine, second, load_test, misses_calls}
use gopl.LoadTest.Counts.{load_test_adds_up}
use gopl.LoadTest.Chosen.{client, first_call-IsConnected}

-- It calls once in a second.
abbrev steady : Routine
steady = record { since = λ k. pos (k * 1_000_000_000); error = λ k. none }

abbrev failing : Routine
failing = record { since = λ k. pos 2_000_000_000; error = λ k. some eof }

load_test_adds_up_example :
    (load_test 5 second (steady ∷ failing ∷ []) ≡ finished (pos 3, pos 2))
    × (misses_calls (pos 3, pos 2) ≡ true)
load_test_adds_up_example =
    load_test_adds_up 5 second ((steady, 1) ∷ (failing, 0) ∷ [])
      (((refl, refl), omega arith), ((refl, omega arith), tt)) (omega arith)

abbrev store : Store ℕ
store = record {
  calls = λ c. zero_call;
  next_call = 0;
  pool = [];
  chans = λ ch. record { buf = []; cap = 0; closed = false };
  next_chan = 0;
}

-- A generator that always draws the smallest number.
abbrev least : ℤ → ℤ
least n = pos 0

first_call-IsConnected_example :
    (d : TClient) × (choose_server_for_req least
        (client ":1235" (pos 1) store).map_server_info
        (λ conn. none)
        (client ":1235" (pos 1) store)
        store
      ≡ finished (choice d store (ok ":1235")))
    × IsConnected ":1235" d
first_call-IsConnected_example =
    first_call-IsConnected ":1235" (pos 1) store least
      (client ":1235" (pos 1) store).map_server_info (λ conn. none) store (λ n h. (0, refl, h))
      (Perm.refl _) (λ conn. refl)
