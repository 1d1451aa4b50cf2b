-- ===== src/ClientConn/Sending/Group.antt =====
-- The group of requests that sendCall of rpc/client_conn.go unites.
use gopl.Prelude.{
  ℕ, zero, suc, ◌≤◌, ◌≡◌, refl, ap, sym, ◌∙◌, length-map, length-take, if-false, or-false, false,
  List, [], ◌∷◌, map, arith, length, take, drop,
}
use gopl.Chan.{take_head, try_recv}
use gopl.Call.{Store, set_chan}
use gopl.Codec.{IClientCodec}
use gopl.ClientConn.{ConnState, TClientConn, TClientGroupRequest, next_seq}
use gopl.ClientConn.Sending.{
  Gathered, prepend, add_request, gather, after_gather, send_call, send_group_call,
}

-- Numbers that count up from `k` as a uint64 does.
abbrev pub count_up : ℕ → ℕ → List ℕ
count_up zero k = []
count_up (suc n) k = k ∷ count_up n (next_seq k)

abbrev pub group_calls : List TClientGroupRequest → List ℕ
group_calls = map λ r. r.call

abbrev pub group_seqs : List TClientGroupRequest → List ℕ
group_seqs = map λ r. r.req.seq

module _ {V : Type 0} where
  -- What a round of at most `n` takes from an input channel with the calls `buf`.
  pub record TakesFirst (n : ℕ) (buf : List ℕ) (c : TClientConn) (s : Store V) (g : Gathered V)
      : Type 0 where
    pub calls : group_calls g.group ≡ take n buf
    pub seqs : group_seqs g.group ≡ count_up (length (take n buf)) c.seq
    pub left : (g.store.chans c.input_call_chan).buf ≡ drop n buf
    pub still_open : g.closed ≡ false
    pub memory : g.store.calls ≡ s.calls

  gather-suc :
      (n call : ℕ) (rest : List ℕ) (c : TClientConn) (s : Store V)
      → (s.chans c.input_call_chan).buf ≡ call ∷ rest
      → let t = set_chan c.input_call_chan (record (s.chans c.input_call_chan) { buf = rest }) s in
        gather (suc n) c s ≡ prepend (add_request call c t).1 (gather n (add_request call c t).0 t)
  unfolding gather try_recv
  gather-suc n call rest c s e = rw (e, gather, take_head)

  gather-stop :
      (n : ℕ) (c : TClientConn) (s : Store V)
      → (s.chans c.input_call_chan).buf ≡ []
      → (s.chans c.input_call_chan).closed ≡ false
      → gather (suc n) c s ≡ record { conn = c; store = s; group = []; closed = false }
  unfolding gather try_recv
  gather-stop n c s e o = ground arith

  pub gather-TakesFirst :
      (n : ℕ) (buf : List ℕ) (c : TClientConn) (s : Store V)
      → (s.chans c.input_call_chan).buf ≡ buf
      → (s.chans c.input_call_chan).closed ≡ false
      → TakesFirst n buf c s (gather n c s)
  unfolding gather add_request
  gather-TakesFirst zero buf c s e o = record {
    calls = refl;
    seqs = refl;
    left = e;
    still_open = refl;
    memory = refl;
  }
  gather-TakesFirst (suc n) [] c s e o =
      rw (gather-stop n c s e o)
        (record { calls = refl; seqs = refl; left = e; still_open = refl; memory = refl })
  gather-TakesFirst (suc n) (call ∷ rest) c s e o =
      let t = set_chan c.input_call_chan (record (s.chans c.input_call_chan) { buf = rest }) s in
      let ih = gather-TakesFirst n rest (add_request call c t).0 t (ground arith) (ground arith) in
      rw (gather-suc n call rest c s e) (record {
        calls = ap (◌∷◌ call) ih.calls;
        seqs = ap (◌∷◌ c.seq) ih.seqs;
        left = ih.left;
        still_open = ih.still_open;
        memory = ih.memory;
      })

module _ {V S : Type 0} (codec : IClientCodec V S) where
  length-take-le {ℓ} : {A : Type ℓ} (n : ℕ) (xs : List A) → length (take n xs) ≤ n
  length-take-le n xs = omega (arith, length-take n xs)

  -- On an open connection with an open input channel, sendCall unites the call with the first
  -- hundred that wait, in their order, gives them consecutive numbers, takes them out of the
  -- channel, and sends the group of at most 101 by sendGroupCall.
  pub send_call-unites :
      (call : ℕ) (σ : ConnState V S)
      → σ.conn.shutdown ≡ false
      → σ.conn.closing ≡ false
      → (σ.store.chans σ.conn.input_call_chan).closed ≡ false
      → let buf = (σ.store.chans σ.conn.input_call_chan).buf in
        (g : Gathered V) × (send_call codec call σ
          ≡ send_group_call codec g.group
              (record { conn = g.conn; codec = σ.codec; store = g.store }))
        × (group_calls g.group ≡ call ∷ take 100 buf)
        × (group_seqs g.group ≡ count_up (length g.group) σ.conn.seq)
        × ((g.store.chans σ.conn.input_call_chan).buf ≡ drop 100 buf)
        × (length g.group ≤ 101)
  unfolding send_call after_gather add_request
  send_call-unites call σ h k o =
      let c = (add_request call σ.conn σ.store).0 in
      let buf = (σ.store.chans σ.conn.input_call_chan).buf in
      let g = gather 100 c σ.store in
      let first = gather-TakesFirst 100 buf c σ.store refl o in
      let size : length g.group ≡ length (take 100 buf) =
        sym (length-map g.group _) ∙ ap length first.calls in
      (
        prepend (add_request call σ.conn σ.store).1 g,
        if-false _ _ _ (or-false σ.conn.shutdown σ.conn.closing h k)
            ∙ if-false _ _ _ first.still_open,
        ap (◌∷◌ call) first.calls,
        rw size (ap (◌∷◌ σ.conn.seq) first.seqs),
        first.left,
        omega (arith, size, length-take-le 100 buf),
      )
