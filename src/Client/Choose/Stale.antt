-- ===== src/Client/Choose/Stale.antt =====
-- chooseServerForReq of rpc/client.go marks a server as failed without a new total weight.
use gopl.Prelude.{
  ℕ, suc, ◌+◌, ◌≤◌, ◌<◌, ◌≡◌, refl, ap, ◌∙◌, ◌≢◌, true, some, String, List, [], ◌∷◌, arith,
  if◌then◌else◌, Bool-cases, inl, inr,
}
use gopl.Prelude.Int.{pos, pos_part, ◌≤ℤ◌}
use gopl.Keys.{text_eq}
use gopl.GoMap.{lookup, assign, lookup-assign_self}
use gopl.Client.{
  TServerInfo, Servers, TClient, is_norm, is_pause, update_total_weight,
  remote_server_status_connect_failed,
}
use gopl.Client.Pick.{
  weight_of, live_weight, norm_weight, NonNegative, int_limit, sum_weights-norm_weight,
}
use gopl.Client.Table.{All-assign, All-lookup}
use gopl.Client.Choose.{remove_last, drop_conn}

abbrev norm_share : TServerInfo → ℕ
norm_share i = if is_norm i then weight_of i else 0

abbrev pub live_share : TServerInfo → ℕ
live_share i = if is_pause i then 0 else weight_of i

norm_weight-assign :
    (addr : String) (v i : TServerInfo) (m : Servers)
    → lookup addr m ≡ some i
    → norm_weight (assign addr v m) + norm_share i ≡ norm_weight m + norm_share v
unfolding lookup assign
norm_weight-assign addr v i [] h = ground arith
norm_weight-assign addr v i ((k, j) ∷ rest) h = elim (Bool-cases (text_eq.beq k addr)) [
  | inl e ↦ let same : j ≡ i = ground arith in rw (e, same) (omega arith)
  | inr e ↦ let ih = norm_weight-assign addr v i rest (ground arith) in rw e (omega (arith, ih))
]

pub live_weight-assign :
    (addr : String) (v i : TServerInfo) (m : Servers)
    → lookup addr m ≡ some i
    → live_weight (assign addr v m) + live_share i ≡ live_weight m + live_share v
unfolding lookup assign
live_weight-assign addr v i [] h = ground arith
live_weight-assign addr v i ((k, j) ∷ rest) h = elim (Bool-cases (text_eq.beq k addr)) [
  | inl e ↦ let same : j ≡ i = ground arith in rw (e, same) (omega arith)
  | inr e ↦ let ih = live_weight-assign addr v i rest (ground arith) in rw e (omega (arith, ih))
]

-- The table after drop_conn took the last connection out.
abbrev pub failed_table : String → TServerInfo → ℕ → Servers → Servers
failed_table addr info conn m =
    assign addr
      (record info {
        conn_list = remove_last conn info.conn_list;
        status = remote_server_status_connect_failed;
      })
      (assign addr (record info { conn_list = remove_last conn info.conn_list }) m)

norm_weight-failed_table :
    (addr : String) (info : TServerInfo) (conn : ℕ) (m : Servers)
    → lookup addr m ≡ some info
    → norm_weight (failed_table addr info conn m) + norm_share info ≡ norm_weight m
norm_weight-failed_table addr info conn m h =
    let mid : TServerInfo = record info { conn_list = remove_last conn info.conn_list } in
    omega (
      arith,
      norm_weight-assign addr mid info m h,
      norm_weight-assign addr (record mid { status = remote_server_status_connect_failed }) mid
          (assign addr mid m) (lookup-assign_self addr mid m),
    )

live_weight-failed_table :
    (addr : String) (info : TServerInfo) (conn : ℕ) (m : Servers)
    → lookup addr m ≡ some info
    → live_weight m ≤ live_weight (failed_table addr info conn m)
live_weight-failed_table addr info conn m h =
    let mid : TServerInfo = record info { conn_list = remove_last conn info.conn_list } in
    let one = live_weight-assign addr mid info m h in
    let two =
      live_weight-assign addr (record mid { status = remote_server_status_connect_failed }) mid
        (assign addr mid m) (lookup-assign_self addr mid m) in
    ground (arith, one, two)

gone_only : (conn : ℕ) (ds : List ℕ) → ds ≡ conn ∷ [] → remove_last conn ds ≡ []
unfolding remove_last
gone_only conn ds h = rw h (ground arith)

gone_last :
    (addr : String) (info : TServerInfo) (conn : ℕ) (c : TClient)
    → info.conn_list ≡ conn ∷ []
    → (drop_conn addr info conn c).0
      ≡ record c { map_server_info = failed_table addr info conn c.map_server_info }
unfolding drop_conn remove_last
gone_last addr info conn c h = rw h (ground arith)

NonNegative-failed_table :
    (addr : String) (info : TServerInfo) (conn : ℕ) (m : Servers)
    → lookup addr m ≡ some info
    → NonNegative m
    → NonNegative (failed_table addr info conn m)
NonNegative-failed_table addr info conn m h p =
    let old = All-lookup (λ (i : TServerInfo). pos 0 ≤ℤ i.weight) addr info m h p in
    All-assign (λ (i : TServerInfo). pos 0 ≤ℤ i.weight) addr _ _ old
      (All-assign (λ i. pos 0 ≤ℤ i.weight) addr _ m old p)

-- The total weight is that of the servers in normal state.
pub record IsExact (c : TClient) : Type 0 where
  pub non_negative : NonNegative c.map_server_info
  pub bounded : norm_weight c.map_server_info < int_limit
  pub exact : c.total_weight ≡ pos (norm_weight c.map_server_info)

-- When the total weight is exact and starting the last connection of a normal server with a weight
-- fails, the server is left without connections and with the status of a failed one, and the total
-- weight is as it was, so it is no more what updateTotalWeight would make it.
pub drop_conn-stale :
    (addr : String) (info : TServerInfo) (conn w : ℕ) (c : TClient)
    → IsExact c
    → lookup addr c.map_server_info ≡ some info
    → info.conn_list ≡ conn ∷ []
    → is_norm info ≡ true
    → info.weight ≡ pos (suc w)
    → let d = (drop_conn addr info conn c).0 in
      (lookup addr d.map_server_info
        ≡ some (record info { conn_list = []; status = remote_server_status_connect_failed }))
      × (d.total_weight ≡ c.total_weight)
      × (d.total_weight ≢ (update_total_weight d).total_weight)
unfolding update_total_weight
drop_conn-stale addr info conn w c x h l n wt =
    let t = failed_table addr info conn c.map_server_info in
    let less = norm_weight-failed_table addr info conn c.map_server_info h in
    let share : norm_share info ≡ suc w = ground arith in
    let fresh =
      sum_weights-norm_weight 0 t
        (NonNegative-failed_table addr info conn c.map_server_info h x.non_negative)
        (omega (arith, less, x.bounded)) in
    let left : remove_last conn info.conn_list ≡ [] = gone_only conn info.conn_list l in
    rw (gone_last addr info conn c l) (
      lookup-assign_self addr _ (assign addr _ c.map_server_info)
          ∙ ap
              (λ ds.
                some (record info { conn_list = ds; status = remote_server_status_connect_failed }))
              left,
      refl,
      rw (x.exact, fresh) λ e. omega (arith, ap pos_part e, less, share),
    )
