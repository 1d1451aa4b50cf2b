-- ===== src/Client/Choose/Connected.antt =====
-- What chooseServerForReq of rpc/client.go leaves where connections can be made.
use gopl.Prelude.{
  ℕ, ◌<◌, ◌≡◌, refl, ap, ◌∙◌, true, false, Option, none, some, String, [], ◌∷◌, ◌++◌, arith, length,
  length-append, Bool-cases, inl, inr,
}
use gopl.Prelude.Int.{ℤ}
use gopl.Prelude.Run.{finished}
use gopl.Keys.{text_eq}
use gopl.GoMap.{lookup, lookup-assign_self}
use gopl.RpcError.{GoError, ok}
use gopl.Call.{Store}
use gopl.Client.{TServerInfo, Servers, TClient, get_server_info}
use gopl.Client.Choose.{
  choice, is_ready, needs_conn, add_conn, reserve_conn, after_reserve, at_server, after_pick,
  after_start, choose_server_for_req,
}

-- The server has a connection.
abbrev pub IsConnected : String → TClient → Type 0
IsConnected addr c =
    (info : TServerInfo) × (lookup addr c.map_server_info ≡ some info) × (0 < length info.conn_list)

needs_conn-some :
    {V : Type 0} (info : TServerInfo) (s : Store V)
    → needs_conn info s ≡ false
    → 0 < length info.conn_list
unfolding needs_conn
needs_conn-some info s h = ground arith

is_ready-some :
    {V : Type 0} (info : TServerInfo) (s : Store V)
    → is_ready info s ≡ true
    → 0 < length info.conn_list
unfolding is_ready
is_ready-some info s h = ground arith

module _ {V : Type 0} where
  reserve-IsConnected :
      (addr : String) (info : TServerInfo) (start : ℕ → Option GoError) (c : TClient) (s : Store V)
      → lookup addr c.map_server_info ≡ some info
      → ((conn : ℕ) → start conn ≡ none)
      → (d : TClient) × (after_reserve (reserve_conn addr info c s) start addr s
          ≡ finished (choice d s (ok addr)))
        × IsConnected addr d
  unfolding after_reserve reserve_conn after_start
  reserve-IsConnected addr info start c s l h = elim (Bool-cases (needs_conn info s)) [
    | inl e ↦
        let new : TServerInfo = record info { conn_list = info.conn_list ++ c.next_conn ∷ [] } in
        (
          (add_conn addr info c).0,
          rw e
              (ap (λ o. after_start o addr c.next_conn (add_conn addr info c).0 s) (h c.next_conn)),
          (
            new,
            lookup-assign_self addr new c.map_server_info,
            omega (arith, length-append info.conn_list (c.next_conn ∷ [])),
          ),
        )
    | inr e ↦ (c, rw e refl, (info, l, needs_conn-some info s e))
  ]

  at_server-IsConnected :
      (addr : String) (info : TServerInfo) (start : ℕ → Option GoError) (c : TClient) (s : Store V)
      → lookup addr c.map_server_info ≡ some info
      → ((conn : ℕ) → start conn ≡ none)
      → (d : TClient) × (at_server (some info) start addr c s ≡ finished (choice d s (ok addr)))
        × IsConnected addr d
  unfolding at_server
  at_server-IsConnected addr info start c s l h = elim (Bool-cases (is_ready info s)) [
    | inl e ↦ (c, rw e refl, (info, l, is_ready-some info s e))
    | inr e ↦ rw e (reserve-IsConnected addr info start c s l h)
  ]

  -- Where getServerInfo chooses a server of the table and every new connection can be started,
  -- chooseServerForReq, without other routines in between, ends with that server, calls no
  -- callback, leaves all calls alone, and the server has a connection then.
  pub choose_server_for_req-IsConnected :
      (intn : ℤ → ℤ) (order : Servers) (start : ℕ → Option GoError) (addr : String)
      (info : TServerInfo) (c : TClient) (s : Store V)
      → get_server_info intn order c ≡ ok addr
      → lookup addr c.map_server_info ≡ some info
      → ((conn : ℕ) → start conn ≡ none)
      → (d : TClient) × (choose_server_for_req intn order start c s
          ≡ finished (choice d s (ok addr)))
        × IsConnected addr d
  unfolding choose_server_for_req after_pick
  choose_server_for_req-IsConnected intn order start addr info c s g l h =
      let (d, e, k) = at_server-IsConnected addr info start c s l h in
      (d, ap (λ r. after_pick r start c s) g ∙ ap (λ o. at_server o start addr c s) l ∙ e, k)
