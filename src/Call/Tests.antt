-- ===== src/Call/Tests.antt =====
-- Runs of rpc/call.go.
use gopl.Prelude.{ℕ, zero, suc, ◌≡◌, refl, some, [], ◌∷◌, arith}
use gopl.Chan.{make}
use gopl.Call.{TCall, Store, zero_call, new_call, when_call_done}
use gopl.Call.Pool.{IsPooled, IsHeld, IsNew, new_call-IsNew}
use gopl.Call.Completion.{Completes, when_call_done-Completes}

-- Call 0 is held and is to be announced on channel 0; call 1 is pooled; call 2 is held too.
abbrev echo_call : TCall ℕ
echo_call = record zero_call { sevice_method = "test.Echo"; done = some 0; start_time = 4 }

abbrev store : Store ℕ
store = record {
  calls = λ c. elim c [ zero ↦ echo_call | suc d ↦ zero_call ];
  next_call = 3;
  pool = 1 ∷ [];
  chans = λ ch. make 1;
  next_chan = 1;
}

store-IsPooled : IsPooled store
store-IsPooled = record { blank = (refl, tt); made = (omega arith, tt); distinct = (tt, tt) }

echo-IsHeld : IsHeld store 0
echo-IsHeld = record { made = omega arith; unpooled = (λ e. omega arith, tt) }

new_call-IsNew_example : IsNew store (new_call 0 9 store).0 (new_call 0 9 store).1 9
new_call-IsNew_example = new_call-IsNew 0 9 store store-IsPooled

when_call_done-Completes_example : Completes 0 store (when_call_done 0 store)
when_call_done-Completes_example = when_call_done-Completes 0 store

-- The call's channel holds it afterwards.
echo_delivered : ((when_call_done 0 store).chans 0).buf ≡ 0 ∷ []
unfolding when_call_done
echo_delivered = refl
