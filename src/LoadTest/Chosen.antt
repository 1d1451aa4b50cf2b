-- ===== src/LoadTest/Chosen.antt =====
-- The client of the load test of rpc/test/test_client.go has one server, of weight 1.
use mathlib.Core.List.{Memᴰ, Permᴰ}
use mathlib.Core.List.Permᴰ as Perm
use gopl.Prelude.{
  ℕ, ◌≡◌, refl, sym, ap, subst, ◌∙◌, true, false, Option, none, some, String, [], ◌∷◌, arith, All,
  inl, inr,
}
use gopl.Prelude.Int.{ℤ, ◌+ℤ◌, to_int}
use gopl.Keys.{text_eq}
use gopl.GoMap.{lookup, assign, lookup-assign_self}
use gopl.Prelude.Run.{finished}
use gopl.RpcError.{GoError, ok}
use gopl.Client.Choose.{choice, choose_server_for_req}
use gopl.Client.Choose.Connected.{IsConnected, choose_server_for_req-IsConnected}
use gopl.Call.{Store}
use gopl.Client.{
  TServerInfo, Servers, TClient, new_client, add_server, get_server_info, is_pause,
  update_total_weight, sum_weights,
}
use gopl.Client.Pick.{IsIntn, IsWeighed, get_server_info-Picks, All-perm}
use gopl.LoadTest.{test_client}

All-member :
    (P : String × TServerInfo → Type 0) (q : String × TServerInfo) (l : Servers)
    → Memᴰ q l
    → All P l
    → P q
All-member P q [] m h = elim m [ ]
All-member P q (x ∷ l) (Memᴰ.head e) h = rw e h.0
All-member P q (x ∷ l) (Memᴰ.tail m) h = All-member P q l m h.1

lookup-one : (addr : String) (i : TServerInfo) → lookup addr ((addr, i) ∷ []) ≡ some i
unfolding assign
lookup-one addr i = lookup-assign_self addr i []

module _ {V : Type 0} (addr : String) (conn_num : ℤ) (s : Store V) where
  abbrev pub client : TClient
  client = (test_client addr conn_num s).0

  client_entry :
      (i : TServerInfo) × (client.map_server_info ≡ (addr, i) ∷ []) × (is_pause i ≡ false)
  unfolding test_client new_client add_server lookup assign
  client_entry = (_, refl, refl)

  client-IsWeighed : IsWeighed client
  unfolding test_client new_client add_server lookup assign update_total_weight sum_weights to_int
      ◌+ℤ◌
  client-IsWeighed = record {
    non_negative = (omega arith, tt);
    bounded = omega arith;
    total = 1;
    total_eq = refl;
    total_le = omega arith;
  }

  abbrev IsOnly : String × TServerInfo → Type 0
  IsOnly p = p.0 ≡ addr

  -- Whatever rand.Intn gives, getServerInfo chooses the server of the test.
  chooses_it :
      (intn : ℤ → ℤ) (order : Servers)
      → IsIntn intn
      → Permᴰ order client.map_server_info
      → get_server_info intn order client ≡ ok addr
  chooses_it intn order h p =
      let (i, e, live) = client_entry in
      elim (get_server_info-Picks intn order client h p client-IsWeighed) [
        | inl (k, j, m, q, r) ↦
            let named = All-perm IsOnly p (subst (All IsOnly) (sym e) (refl, tt)) in
            r ∙ ap ok (All-member IsOnly (k, j) order m named)
        | inr (q, r) ↦
            let paused =
              subst (All λ p. is_pause p.1 ≡ true) e
                (All-perm (λ p. is_pause p.1 ≡ true) (Perm.symm p) q) in
            let now = paused.0 in absurd (cc)
      ]

  -- On the client of the load test, for every draw that rand.Intn may give: where a connection can
  -- be started, chooseServerForReq of its first call ends with its one server, leaves all calls
  -- alone, and the server has a connection then.
  pub first_call-IsConnected :
      (intn : ℤ → ℤ) (order : Servers) (start : ℕ → Option GoError) (t : Store V)
      → IsIntn intn
      → Permᴰ order client.map_server_info
      → ((conn : ℕ) → start conn ≡ none)
      → (d : TClient) × (choose_server_for_req intn order start client t
          ≡ finished (choice d t (ok addr)))
        × IsConnected addr d
  first_call-IsConnected intn order start t h p works =
      let (i, e, live) = client_entry in
      choose_server_for_req-IsConnected intn order start addr i client t (chooses_it intn order h p)
        (ap (lookup addr) e ∙ lookup-one addr i) works
