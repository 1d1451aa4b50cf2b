-- ===== src/Client/Table.antt =====
-- What AddServer and ChangeServerStatus of rpc/client.go do to the table and its total weight.
use gopl.Prelude.{◌+◌, ◌<◌, ◌≡◌, refl, Option, none, some, String, [], ◌∷◌, arith, All}
use gopl.Prelude.Int.{ℤ, pos, ◌≤ℤ◌}
use gopl.Keys.{Eq, text_eq}
use gopl.GoMap.{GoMap, lookup, assign}
use gopl.Call.{Store}
use gopl.Client.{
  TServerInfo, TClient, update_total_weight, add_entry, add_server, change_entry,
  change_server_status, set_info,
}
use gopl.Client.Pick.{
  live_weight, norm_weight, NonNegative, int_limit, IsWeighed, sum_weights-norm_weight,
  norm-le-live_weight,
}

module _ {ℓ κ μ} {K : Type ℓ} {W : Type κ} ⦃e : Eq K⦄ (P : W → Type μ) where
  pub All-assign :
      (k : K) (v : W) (m : GoMap K W) → P v → All (λ p. P p.1) m → All (λ p. P p.1) (assign k v m)
  unfolding assign
  All-assign k v [] h p = (h, tt)
  All-assign k v ((j, w) ∷ m) h p = ground (arith, All-assign k v m h p.1)

  pub All-lookup : (k : K) (v : W) (m : GoMap K W) → lookup k m ≡ some v → All (λ p. P p.1) m → P v
  unfolding lookup
  All-lookup k v [] h p = ground arith
  All-lookup k v ((j, w) ∷ m) h p = ground (arith, All-lookup k v m)

pub update_total_weight-IsWeighed :
    (c : TClient)
    → NonNegative c.map_server_info
    → live_weight c.map_server_info < int_limit
    → IsWeighed (update_total_weight c)
unfolding update_total_weight
update_total_weight-IsWeighed c p h = record {
  non_negative = p;
  bounded = h;
  total = 0 + norm_weight c.map_server_info;
  total_eq =
      sum_weights-norm_weight 0 c.map_server_info p
        (omega (arith, norm-le-live_weight c.map_server_info));
  total_le = omega (arith, norm-le-live_weight c.map_server_info);
}

module _ {V : Type 0} where
  pub add_entry-NonNegative :
      (o : Option TServerInfo) (addr : String) (weight max_conn_num : ℤ) (c : TClient) (s : Store V)
      → pos 0 ≤ℤ weight
      → NonNegative c.map_server_info
      → NonNegative (add_entry o addr weight max_conn_num c s).0.map_server_info
  unfolding add_entry
  add_entry-NonNegative (some info) addr weight max_conn_num c s h p =
      All-assign (λ i. pos 0 ≤ℤ i.weight) addr _ c.map_server_info h p
  add_entry-NonNegative none addr weight max_conn_num c s h p =
      All-assign (λ i. pos 0 ≤ℤ i.weight) addr _ c.map_server_info h p

  -- On a table without negative weights, AddServer with a weight that is not negative leaves a
  -- weighed table, from which getServerInfo can choose, if the weights of the servers that are not
  -- paused afterwards add up to an int.
  pub add_server-IsWeighed :
      (addr : String) (weight max_conn_num : ℤ) (c : TClient) (s : Store V)
      → pos 0 ≤ℤ weight
      → NonNegative c.map_server_info
      → live_weight (add_server addr weight max_conn_num c s).0.map_server_info < int_limit
      → IsWeighed (add_server addr weight max_conn_num c s).0
  unfolding add_server
  add_server-IsWeighed addr weight max_conn_num c s h p l =
      update_total_weight-IsWeighed
        (add_entry (lookup addr c.map_server_info) addr weight max_conn_num c s).0
        (add_entry-NonNegative (lookup addr c.map_server_info) addr weight max_conn_num c s h p) l

change_entry-IsWeighed :
    (o : Option TServerInfo) (addr : String) (status : ℤ) (c : TClient)
    → lookup addr c.map_server_info ≡ o
    → IsWeighed c
    → live_weight (change_entry o addr status c).0.map_server_info < int_limit
    → IsWeighed (change_entry o addr status c).0
unfolding change_entry
change_entry-IsWeighed none addr status c e h l = h
change_entry-IsWeighed (some info) addr status c e h l =
    let p = h.non_negative in
    let old = All-lookup (λ (i : TServerInfo). pos 0 ≤ℤ i.weight) addr info c.map_server_info e p in
    update_total_weight-IsWeighed (set_info addr (record info { status = status }) c)
      (All-assign (λ i. pos 0 ≤ℤ i.weight) addr _ c.map_server_info old p) l

-- ChangeServerStatus keeps a weighed table weighed, whether or not it knows the address, if the
-- weights of the servers that are not paused afterwards add up to an int.
pub change_server_status-IsWeighed :
    (addr : String) (status : ℤ) (c : TClient)
    → IsWeighed c
    → live_weight (change_server_status addr status c).0.map_server_info < int_limit
    → IsWeighed (change_server_status addr status c).0
unfolding change_server_status
change_server_status-IsWeighed addr status c =
    change_entry-IsWeighed (lookup addr c.map_server_info) addr status c refl
