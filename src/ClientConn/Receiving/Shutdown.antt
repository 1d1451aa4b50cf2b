-- ===== src/ClientConn/Receiving/Shutdown.antt =====
-- What onShutDown of rpc/client_conn.go does to the calls that wait for a response.
use gopl.Prelude.{ℕ, ◌≡◌, refl, true, false, [], ◌∷◌, All}
use gopl.Prelude.Run.{finished}
use gopl.Keys.{nat_eq}
use gopl.GoMap.{GoMap}
use gopl.Chan.{make}
use gopl.RpcError.{GoError}
use gopl.Call.{Store}
use gopl.Client.Calls.{fail_call}
use gopl.Client.Calls.Failing.{FailedWith, fail_call-Fails}
use gopl.ClientConn.{TClientConn}
use gopl.ClientConn.Receiving.{fail_pending, shutdown_error, on_shut_down}

module _ {V : Type 0} where
  fail_pending-still :
      (e : GoError) (order : GoMap ℕ ℕ) (s : Store V) (x : ℕ)
      → FailedWith e s x
      → FailedWith e (fail_pending e order s) x
  unfolding fail_pending
  fail_pending-still e [] s x f = f
  fail_pending-still e ((k, call) ∷ rest) s x f =
      fail_pending-still e rest (fail_call e call s) x ((fail_call-Fails e call s).still x f)

  fail_pending-All :
      (e : GoError) (order : GoMap ℕ ℕ) (s : Store V)
      → All (λ p. FailedWith e (fail_pending e order s) p.1) order
  unfolding fail_pending
  fail_pending-All e [] s = tt
  fail_pending-All e ((k, call) ∷ rest) s = (
    fail_pending-still e rest (fail_call e call s) call (fail_call-Fails e call s).failed,
    fail_pending-All e rest (fail_call e call s),
  )

  -- The first onShutDown of a connection whose exit channel is still empty does not block: it marks
  -- the connection, fails or frees every pending call, tells the writing routine and asks for the
  -- removal from the client; and another onShutDown, whatever its error, does nothing more.
  pub on_shut_down_once :
      (e e' : GoError) (order order' : GoMap ℕ ℕ) (c : TClientConn) (s : Store V)
      → c.shutdown ≡ false
      → c.exit_notify ≡ make 1
      → (d : TClientConn) × (t : Store V) × (on_shut_down e order c s ≡ finished (d, t, true))
        × (d.shutdown ≡ true)
        × (d.exit_notify.buf ≡ true ∷ [])
        × All (λ p. FailedWith (shutdown_error e c.closing) t p.1) order
        × (on_shut_down e' order' d t ≡ finished (d, t, false))
  unfolding on_shut_down
  on_shut_down_once e e' order order' c s h m = (
    record c { shutdown = true; exit_notify = record { buf = true ∷ []; cap = 1; closed = false } },
    fail_pending (shutdown_error e c.closing) order s,
    rw (h, m) refl,
    refl,
    refl,
    fail_pending-All (shutdown_error e c.closing) order s,
    refl,
  )
