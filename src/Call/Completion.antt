-- ===== src/Call/Completion.antt =====
-- What WhenCallDone of rpc/call.go does with a finished call.
use gopl.Prelude.{
  ℕ, ◌<◌, ◌≤◌, ◌≡◌, refl, ap, ◌≢◌, inl, inr, true, false, Option, none, some, [], ◌∷◌, ◌++◌, arith,
  length, Bool-cases,
}
use gopl.Prelude.Int.{pos}
use gopl.Chan.{Chan, Sent, sent, full, send_panic, try_send}
use gopl.Call.{
  Store, set_chan, after_send, new_call, free_call, cancel_call, is_canceled, need_done_notify,
  notify, done_call, when_call_done,
}
use gopl.Call.Pool.{IsPooled, IsHeld, free_call-IsPooled}

module _ {V : Type 0} where
  -- Everything that is not the channel `ch` is as it was.
  pub record SameBut (ch : ℕ) (s t : Store V) : Type 0 where
    pub calls : t.calls ≡ s.calls
    pub pool : t.pool ≡ s.pool
    pub next : t.next_call ≡ s.next_call
    pub chans : (k : ℕ) → ch ≢ k → t.chans k ≡ s.chans k

  -- The four ends of a finished call `c`, between the store `s` before and the store `t` after.
  pub record Completes (c : ℕ) (s t : Store V) : Type 0 where
    pub unasked : (s.calls c).done ≡ none → t ≡ free_call c s
    pub canceled : is_canceled s c ≡ true → t ≡ free_call c s
    pub closed :
        (ch : ℕ) → (s.calls c).done ≡ some ch → (s.chans ch).closed ≡ true → t ≡ free_call c s
    pub dropped :
        (ch : ℕ)
        → (s.calls c).done ≡ some ch
        → is_canceled s c ≡ false
        → (s.chans ch).closed ≡ false
        → (s.chans ch).cap ≤ length (s.chans ch).buf
        → t ≡ s
    pub delivered :
        (ch : ℕ)
        → (s.calls c).done ≡ some ch
        → is_canceled s c ≡ false
        → (s.chans ch).closed ≡ false
        → length (s.chans ch).buf < (s.chans ch).cap
        → ((t.chans ch).buf ≡ (s.chans ch).buf ++ c ∷ []) × SameBut ch s t

  -- WhenCallDone frees a call that has no Done channel, that is canceled or whose channel is closed.
  -- Any other call is put at the end of its channel where there is room, and nothing else changes;
  -- where the channel is full, nothing happens at all.
  pub when_call_done-Completes : (c : ℕ) (s : Store V) → Completes c s (when_call_done c s)
  unfolding when_call_done
  when_call_done-Completes c s = record {
    unasked = λ h. ground arith;
    canceled = λ h. ground arith;
    closed = λ ch h k. ground arith;
    dropped = λ ch h n k l. ground arith;
    delivered = λ ch h n k l. (
      ground arith,
      record {
        calls = ground arith;
        pool = ground arith;
        next = ground arith;
        chans = λ j ne. ground arith;
      },
    );
  }

  module _ {ℓ} (P : Store V → Type ℓ) (c : ℕ) (s : Store V) where
    after_send_cases :
        (ch : ℕ) (r : Sent ℕ)
        → P (free_call c s)
        → P s
        → ((d : Chan ℕ) → r ≡ sent d → P (set_chan ch d s))
        → P (after_send r ch c s)
    unfolding after_send
    after_send_cases ch (sent d) freed kept noted = noted d refl
    after_send_cases ch full freed kept noted = kept
    after_send_cases ch send_panic freed kept noted = freed

    notify_cases :
        (o : Option ℕ)
        → P (free_call c s)
        → P s
        → ((ch : ℕ) (d : Chan ℕ)
            → o ≡ some ch
            → try_send (s.chans ch) c ≡ sent d
            → P (set_chan ch d s))
        → P (notify o c s)
    unfolding notify
    notify_cases none freed kept noted = kept
    notify_cases (some ch) freed kept noted =
        after_send_cases ch (try_send (s.chans ch) c) freed kept (λ d. noted ch d refl)

    -- The three stores that a finished call can leave.
    pub when_call_done_cases :
        P (free_call c s)
        → P s
        → ((ch : ℕ) (d : Chan ℕ)
            → (s.calls c).done ≡ some ch
            → try_send (s.chans ch) c ≡ sent d
            → P (set_chan ch d s))
        → P (when_call_done c s)
    unfolding when_call_done
    when_call_done_cases freed kept noted = elim (Bool-cases (need_done_notify s c)) [
      | inr e ↦ rw e freed
      | inl e ↦ rw e (elim (Bool-cases (is_canceled s c)) [
        | inl f ↦ rw (f, done_call) freed
        | inr f ↦ rw (f, done_call) (notify_cases (s.calls c).done freed kept noted)
      ])
    ]

  -- Finishing a call that is held, so not in the pool, keeps the pool in order, whatever becomes of
  -- the call.
  pub when_call_done-IsPooled :
      (c : ℕ) (s : Store V) → IsPooled s → IsHeld s c → IsPooled (when_call_done c s)
  when_call_done-IsPooled c s p h =
      when_call_done_cases IsPooled c s (free_call-IsPooled c s p h) p
        λ ch d e f. record { blank = p.blank; made = p.made; distinct = p.distinct }

  is_canceled-cancel_call :
      (c n : ℕ) (s : Store V)
      → (s.calls c).cancel ≡ pos n
      → n < 0x7fff_ffff
      → is_canceled (cancel_call c s) c ≡ true
  unfolding cancel_call is_canceled
  is_canceled-cancel_call c n s e h = ground arith

  -- Once a call is canceled, less than 2^31 - 1 times, finishing it frees it and sends it on no
  -- channel.
  cancel_call-freed :
      (c n : ℕ) (s : Store V)
      → (s.calls c).cancel ≡ pos n
      → n < 0x7fff_ffff
      → (when_call_done c (cancel_call c s) ≡ free_call c (cancel_call c s))
        × ((when_call_done c (cancel_call c s)).chans ≡ s.chans)
  unfolding cancel_call free_call
  cancel_call-freed c n s e h =
      let freed =
        (when_call_done-Completes c (cancel_call c s)).canceled
          (is_canceled-cancel_call c n s e h) in
      (freed, ap (λ (t : Store V). t.chans) freed)

  -- A call that is finished after it was freed goes into the pool twice: where the pool hands out
  -- what was put in last, the next two calls of NewCall are one and the same.
  double_completion_aliases :
      (c n m : ℕ) (s : Store V)
      → let t = when_call_done c (free_call c s) in
        let (u, a) = new_call 0 n t in let (v, b) = new_call 0 m u in (a ≡ c) × (b ≡ c)
  unfolding when_call_done new_call
  double_completion_aliases c n m s = ground arith
