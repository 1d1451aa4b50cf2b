-- ===== src/Client/Calls/Failing.antt =====
-- A call that SendCall, sendGroupCall or onShutDown finishes with an error: it holds it, or is free.
use gopl.Prelude.{ℕ, ◌≡◌, ◌⊎◌, some, arith}
use gopl.RpcError.{GoError}
use gopl.Call.{Store, zero_call, set_error, free_call}
use gopl.Call.Completion.{when_call_done_cases}
use gopl.Client.Calls.{fail_call}

module _ {V : Type 0} where
  abbrev pub FailedWith : GoError → Store V → ℕ → Type 0
  FailedWith e s c = ((s.calls c).error ≡ some e) ⊎ (s.calls c ≡ zero_call)

  -- Failing `c` makes it so, and keeps it so of every call of which it was.
  pub record Fails (e : GoError) (c : ℕ) (s t : Store V) : Type 0 where
    pub failed : FailedWith e t c
    pub still : (x : ℕ) → FailedWith e s x → FailedWith e t x

  pub fail_call-Fails : (e : GoError) (c : ℕ) (s : Store V) → Fails e c s (fail_call e c s)
  unfolding fail_call free_call
  fail_call-Fails e c s =
      when_call_done_cases (Fails e c s) c (set_error c (some e) s)
        (record { failed = ground arith; still = λ x f. ground arith })
        (record { failed = ground arith; still = λ x f. ground arith })
        λ ch d p q. record { failed = ground arith; still = λ x f. ground arith }
