-- ===== src/Client/Choose/Kept.antt =====
-- A server that a routine chose, while others run their locked sections of rpc/client.go before the
-- routine puts its call into the server's channel.
use gopl.Prelude.{
  ℕ, ◌≡◌, refl, sym, ap, subst, ◌∙◌, false, Option, none, some, String, [], ◌∷◌, ◌++◌, arith,
  Bool-cases, inl, inr, length, ◌==◌, if◌then◌else◌, ltb,
}
use gopl.Prelude.Int.{ℤ}
use gopl.Keys.{text_eq}
use gopl.GoMap.{lookup, assign, lookup-assign, lookup-assign_self}
use gopl.Chan.{try_send}
use gopl.RpcError.{ok, err_chan_full}
use gopl.Prelude.Run.{finished}
use gopl.Call.{Store, set_chan}
use gopl.Client.{
  TServerInfo, Servers, TClient, add_entry, add_server, change_entry, change_server_status,
  update_total_weight,
}
use gopl.Client.Choose.{
  remove_last, needs_conn, reserve_conn, drop_conn, shutdown_entry, on_conn_shutdown,
}
use gopl.Client.Choose.ConnLimit.{Step, Steps, reserve, drop, shutdown, change, add, here, next}
use gopl.Client.Calls.{fail_call, after_choice, after_queue, queue_call}

-- The table has the address, with this channel.
abbrev pub HasChan : String → ℕ → Servers → Type 0
HasChan addr ch m = (i : TServerInfo) × (lookup addr m ≡ some i) × (i.call_chan ≡ ch)

-- An entry changes, but for its channel; or a new one comes.
assign-HasChan :
    (k : String) (o : Option TServerInfo) (new : TServerInfo) (m : Servers) (addr : String) (ch : ℕ)
    → lookup k m ≡ o
    → ((old : TServerInfo) → o ≡ some old → new.call_chan ≡ old.call_chan)
    → HasChan addr ch m
    → HasChan addr ch (assign k new m)
assign-HasChan k o new m addr ch l e (i, f, g) = elim (Bool-cases (text_eq.beq k addr)) [
  | inl b ↦
      let there : lookup k m ≡ some i =
        subst (λ x. lookup x m ≡ some i) (sym ((text_eq.beq_iff k addr).0 b)) f in
      (new, ground (arith, lookup-assign k addr new m), e i (sym l ∙ there) ∙ g)
  | inr b ↦ (i, ground (arith, lookup-assign k addr new m), g)
]

some_inj : {A : Type 0} {a b : A} → some a ≡ some b → a ≡ b
some_inj e = cc

module _ (addr : String) (ch : ℕ) where
  same_chan :
      (k : String) (info new : TServerInfo) (m : Servers)
      → lookup k m ≡ some info
      → new.call_chan ≡ info.call_chan
      → HasChan addr ch m
      → HasChan addr ch (assign k new m)
  same_chan k info new m l e =
      assign-HasChan k (some info) new m addr ch l (λ old q. e ∙ ap (λ i. i.call_chan) (some_inj q))

  drop_conn-HasChan :
      (k : String) (info : TServerInfo) (conn : ℕ) (c : TClient)
      → lookup k c.map_server_info ≡ some info
      → HasChan addr ch c.map_server_info
      → HasChan addr ch (drop_conn k info conn c).0.map_server_info
  unfolding drop_conn
  drop_conn-HasChan k info conn c l h =
      let v : TServerInfo = record info { conn_list = remove_last conn info.conn_list } in
      let mid = same_chan k info v c.map_server_info l refl h in
      elim (Bool-cases (length (remove_last conn info.conn_list) == 0)) [
        | inl e ↦ rw e (
            same_chan k v _ (assign k v c.map_server_info)
              (lookup-assign_self k v c.map_server_info) refl mid)
        | inr e ↦ rw e mid
      ]

  shutdown-HasChan :
      (o : Option TServerInfo) (k : String) (conn : ℕ) (c : TClient)
      → lookup k c.map_server_info ≡ o
      → HasChan addr ch c.map_server_info
      → HasChan addr ch (shutdown_entry o k conn c).map_server_info
  unfolding shutdown_entry
  shutdown-HasChan none k conn c l h = h
  shutdown-HasChan (some info) k conn c l h = same_chan k info _ c.map_server_info l refl h

  change-HasChan :
      (o : Option TServerInfo) (k : String) (status : ℤ) (c : TClient)
      → lookup k c.map_server_info ≡ o
      → HasChan addr ch c.map_server_info
      → HasChan addr ch (change_entry o k status c).0.map_server_info
  unfolding change_entry update_total_weight
  change-HasChan none k status c l h = h
  change-HasChan (some info) k status c l h = same_chan k info _ c.map_server_info l refl h

  module _ {V : Type 0} where
    reserve_conn-HasChan :
        (k : String) (info : TServerInfo) (c : TClient) (s : Store V)
        → lookup k c.map_server_info ≡ some info
        → HasChan addr ch c.map_server_info
        → HasChan addr ch (reserve_conn k info c s).0.map_server_info
    unfolding reserve_conn
    reserve_conn-HasChan k info c s l h = elim (Bool-cases (needs_conn info s)) [
      | inl e ↦ rw e (same_chan k info _ c.map_server_info l refl h)
      | inr e ↦ rw e h
    ]

    add-HasChan :
        (o : Option TServerInfo) (k : String) (weight max_conn_num : ℤ) (c : TClient) (s : Store V)
        → lookup k c.map_server_info ≡ o
        → HasChan addr ch c.map_server_info
        → HasChan addr ch (add_entry o k weight max_conn_num c s).0.map_server_info
    unfolding add_entry
    add-HasChan (some info) k weight max_conn_num c s l h =
        same_chan k info _ c.map_server_info l refl h
    add-HasChan none k weight max_conn_num c s l h =
        assign-HasChan k none _ c.map_server_info addr ch l (λ old q. absurd (cc)) h

    Step-HasChan :
        {c d : TClient}
        → Step V c d
        → HasChan addr ch c.map_server_info
        → HasChan addr ch d.map_server_info
    unfolding on_conn_shutdown change_server_status add_server update_total_weight
    Step-HasChan {c} (reserve k info s l) h = reserve_conn-HasChan k info c s l h
    Step-HasChan {c} (drop k info conn l) h = drop_conn-HasChan k info conn c l h
    Step-HasChan {c} (shutdown k conn) h = shutdown-HasChan _ k conn c refl h
    Step-HasChan {c} (change k status) h = change-HasChan _ k status c refl h
    Step-HasChan {c} (add k weight max_conn_num s g) h =
        add-HasChan _ k weight max_conn_num c s refl h

    Steps-HasChan :
        {c d : TClient}
        → Steps V c d
        → HasChan addr ch c.map_server_info
        → HasChan addr ch d.map_server_info
    Steps-HasChan here h = h
    Steps-HasChan (next r x) h = Step-HasChan x (Steps-HasChan r h)

    after_choice-HasChan :
        (c : TClient) (call : ℕ) (s : Store V)
        → HasChan addr ch c.map_server_info
        → after_choice (ok addr) call c s ≡ after_queue (try_send (s.chans ch) call) ch call s
    unfolding after_choice queue_call
    after_choice-HasChan c call s (i, l, e) = ground arith

-- A routine looked a server up, then other routines ran their locked sections of AddServer,
-- ChangeServerStatus, chooseServerForReq and onConnShutdown in any order, where AddServer did not
-- lower the maximum of a server that was there. Then the routine's SendCall, with any store in which
-- the server's channel is open, does not panic: it puts the call at the end of that same channel if
-- there is room, and otherwise finishes the call with the error of a full channel.
pub queues_or_fails :
    {V : Type 0} (addr : String) (info : TServerInfo) (c d : TClient) (call : ℕ) (s : Store V)
    → lookup addr c.map_server_info ≡ some info
    → Steps V c d
    → (s.chans info.call_chan).closed ≡ false
    → let ch = info.call_chan in
      let waiting = s.chans ch in
      after_choice (ok addr) call d s
      ≡ finished (
          if ltb (length waiting.buf) waiting.cap
          then set_chan ch (record waiting { buf = waiting.buf ++ call ∷ [] }) s
          else fail_call err_chan_full call s)
unfolding after_queue try_send
queues_or_fails addr info c d call s l r o =
    after_choice-HasChan addr info.call_chan d call s
      (Steps-HasChan addr info.call_chan r (info, l, refl))
    ∙ ground (arith, o)
