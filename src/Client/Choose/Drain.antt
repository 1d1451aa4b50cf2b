-- ===== src/Client/Choose/Drain.antt =====
-- onConnectFailed of rpc/client.go: the calls that wait for a server which cannot be reached.
use gopl.Prelude.{
  ℕ, zero, suc, ◌<◌, ◌≡◌, refl, ◌∙◌, ◌≢◌, ◌⊎◌, ◌↔◌, Bool, true, false, String, ◌||◌, inl, inr,
  Bool-cases, some, List, [], ◌∷◌, ◌&&◌, arith, All, All-map, length, ◌==◌,
}
use gopl.Prelude.Run.{finished}
use gopl.Chan.{Chan, try_recv, take_head}
use gopl.Call.{Store, zero_call, set_chan, set_error, free_call, when_call_done}
use gopl.Call.Completion.{when_call_done_cases}
use gopl.Client.{
  TServerInfo, Servers, TClient, is_norm, is_pause, remote_server_status_norm,
  remote_server_status_pause,
}
use gopl.Prelude.Int.{ℤ, eqb_ℤ, eq_of_parts}
use gopl.Client.Choose.{connect_failed, drain, on_connect_failed, valid_server_num}

-- The server is neither in normal state nor paused.
abbrev pub IsLost : String × TServerInfo → Type 0
IsLost (addr, i) = (i.status ≢ remote_server_status_norm) × (i.status ≢ remote_server_status_pause)

other_status : (a b : ℤ) → eqb_ℤ a b ≡ false → a ≢ b
other_status a b h e = ground arith

same_status : (a b : ℤ) → eqb_ℤ a b ≡ true → a ≡ b
same_status a b h = eq_of_parts a b (ground arith)

-- A server is lost exactly if validServerNum does not count it.
uncounted-IsLost : (k : String) (i : TServerInfo) → is_norm i || is_pause i ≡ false → IsLost (k, i)
uncounted-IsLost k i h = (
  other_status i.status remote_server_status_norm (ground arith),
  other_status i.status remote_server_status_pause (ground arith),
)

IsLost-uncounted : (k : String) (i : TServerInfo) → IsLost (k, i) → is_norm i || is_pause i ≡ false
IsLost-uncounted k i (n, p) = elim (Bool-cases (is_norm i)) [
  | inl e ↦ absurd (n (same_status i.status remote_server_status_norm e))
  | inr e ↦ elim (Bool-cases (is_pause i)) [
    | inl f ↦ absurd (p (same_status i.status remote_server_status_pause f))
    | inr f ↦ rw (e, f) refl
  ]
]

-- No server counts as valid exactly if each is lost.
valid_server_num-IsLost : (m : Servers) → (valid_server_num m ≡ 0) ↔ All IsLost m
unfolding valid_server_num
valid_server_num-IsLost [] = (λ e. tt, λ l. refl)
valid_server_num-IsLost ((k, i) ∷ rest) =
    let (lost, none_valid) = valid_server_num-IsLost rest in
    elim (Bool-cases (is_norm i || is_pause i)) [
      | inl e ↦ (λ z. absurd (ground arith), λ l. let u = IsLost-uncounted k i l.0 in absurd (cc))
      | inr e ↦ (
        λ z. (uncounted-IsLost k i e, lost (ground arith)),
        λ l. let v = none_valid l.1 in ground arith,
      )
    ]

module _ {V : Type 0} where
  -- The call holds the error, or it was freed.
  abbrev pub Failed : Store V → ℕ → Type 0
  Failed s c = ((s.calls c).error ≡ some connect_failed) ⊎ (s.calls c ≡ zero_call)

  -- What failing one call of the channel `ch` does.
  record FailsOne (ch c : ℕ) (d : Chan ℕ) (s t : Store V) : Type 0 where
    left : t.chans ch ≡ d
    failed : Failed t c
    still : (x : ℕ) → Failed s x → Failed t x
    elsewhere : (x : ℕ) → (s.calls x).done ≢ some ch → (t.calls x).done ≢ some ch

  fail_one :
      (ch c : ℕ) (d : Chan ℕ) (s : Store V)
      → (s.calls c).done ≢ some ch
      → FailsOne ch c d s (when_call_done c (set_error c (some connect_failed) (set_chan ch d s)))
  unfolding free_call
  fail_one ch c d s h =
      when_call_done_cases (FailsOne ch c d s) c
        (set_error c (some connect_failed) (set_chan ch d s))
        (record {
          left = ground arith;
          failed = ground arith;
          still = λ x f. ground arith;
          elsewhere = λ x f e. ground arith;
        })
        (record {
          left = ground arith;
          failed = ground arith;
          still = λ x f. ground arith;
          elsewhere = λ x f e. ground arith;
        })
        λ k b e g. record {
          left = ground arith;
          failed = ground arith;
          still = λ x f. ground arith;
          elsewhere = λ x f e. ground arith;
        }

  drain-suc :
      (fuel ch c : ℕ) (rest : List ℕ) (s : Store V)
      → (s.chans ch).buf ≡ c ∷ rest
      → drain (suc fuel) ch s
        ≡ drain fuel ch (
            when_call_done c (
              set_error c
                (some connect_failed)
                (set_chan ch (record (s.chans ch) { buf = rest }) s)))
  unfolding drain try_recv
  drain-suc fuel ch c rest s e = rw (e, drain, take_head)

  drain-finished :
      (fuel ch : ℕ) (buf : List ℕ) (s : Store V)
      → (s.chans ch).buf ≡ buf
      → (s.chans ch).closed ≡ false
      → All (λ c. (s.calls c).done ≢ some ch) buf
      → length buf < fuel
      → (t : Store V) × (drain fuel ch s ≡ finished t)
        × ((t.chans ch).buf ≡ [])
        × All (Failed t) buf
        × ((x : ℕ) → Failed s x → Failed t x)
  unfolding drain try_recv
  drain-finished zero ch buf s e o h l = absurd (omega arith)
  drain-finished (suc fuel) ch [] s e o h l = (s, ground arith, e, tt, λ x f. f)
  drain-finished (suc fuel) ch (c ∷ rest) s e o h l =
      let d : Chan ℕ = record (s.chans ch) { buf = rest } in
      let s' = when_call_done c (set_error c (some connect_failed) (set_chan ch d s)) in
      let one = fail_one ch c d s h.0 in
      let (t, r, b, a, k) =
        drain-finished fuel ch rest s' (ground (arith, one.left)) (ground (arith, one.left))
          (All-map one.elsewhere rest h.1) (omega arith) in
      (t, drain-suc fuel ch c rest s e ∙ r, b, (k c one.failed, a), λ x f. k x (one.still x f))

  -- The loop of onConnectFailed ends, with the channel empty and every call that waited in it
  -- failed or freed, if the channel is open and no waiting call has it as its Done; and the callback
  -- is called exactly if one is set and each server of the table has a status other than normal and
  -- paused.
  pub on_connect_failed-finished :
      (info : TServerInfo) (c : TClient) (s : Store V)
      → (s.chans info.call_chan).closed ≡ false
      → All (λ x. (s.calls x).done ≢ some info.call_chan) (s.chans info.call_chan).buf
      → (t : Store V) × (called : Bool) × (on_connect_failed info c s ≡ finished (t, called))
        × ((called ≡ true) ↔ (c.on_client_invalid ≡ true) × All IsLost c.map_server_info)
        × ((t.chans info.call_chan).buf ≡ [])
        × All (Failed t) (s.chans info.call_chan).buf
  unfolding on_connect_failed
  on_connect_failed-finished info c s o h =
      let (t, r, b, a, k) =
        drain-finished (suc (length (s.chans info.call_chan).buf)) info.call_chan _ s refl o h
          (omega arith) in
      let called = valid_server_num c.map_server_info == 0 && c.on_client_invalid in
      let (lost, none_valid) = valid_server_num-IsLost c.map_server_info in
      (
        t,
        called,
        rw r refl,
        (λ e. (ground arith, lost (ground arith)), λ (i, l). ground (arith, none_valid l)),
        b,
        a,
      )
