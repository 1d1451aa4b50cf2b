-- ===== src/Client/Choose/Weighed.antt =====
-- The table of rpc/client.go while the locked sections of its routines interleave: its weights, and
-- what getServerInfo chooses.
use mathlib.Core.List.{Permᴰ}
use gopl.Prelude.{
  ℕ, ◌≤◌, ◌<◌, ◌≡◌, refl, sym, ap, subst, ◌∙◌, Option, none, some, String, arith, Bool-cases, inl,
  inr, length, ◌==◌,
}
use gopl.Prelude.Int.{ℤ, pos, ◌≤ℤ◌}
use gopl.Keys.{text_eq}
use gopl.GoMap.{lookup, assign, lookup-assign_self}
use gopl.RpcError.{err_no_server}
use gopl.Call.{Store}
use gopl.Client.{TServerInfo, Servers, TClient, TClientConfig, new_client, get_server_info}
use gopl.Client.Pick.{
  live_weight, NonNegative, int_limit, IsWeighed, IsIntn, Picks, paused_error,
  get_server_info-Picks,
}
use gopl.Client.Table.{All-assign, All-lookup, add_server-IsWeighed, change_server_status-IsWeighed}
use gopl.Client.Choose.{
  remove_last, needs_conn, reserve_conn, drop_conn, shutdown_entry, on_conn_shutdown,
}
use gopl.Client.Choose.ConnLimit.{Step, Steps, reserve, drop, shutdown, change, add, here, next}
use gopl.Client.Choose.Stale.{live_share, live_weight-assign}

-- An entry gets other connections, or a status with which it counts no less: the table stays weighed.
entry-IsWeighed :
    (addr : String) (info v : TServerInfo) (c d : TClient)
    → d.total_weight ≡ c.total_weight
    → d.map_server_info ≡ assign addr v c.map_server_info
    → lookup addr c.map_server_info ≡ some info
    → v.weight ≡ info.weight
    → live_share info ≤ live_share v
    → IsWeighed c
    → live_weight d.map_server_info < int_limit
    → IsWeighed d
entry-IsWeighed addr info v c d t m l w s h b =
    let old =
      All-lookup (λ (i : TServerInfo). pos 0 ≤ℤ i.weight) addr info c.map_server_info l
        h.non_negative in
    record {
      non_negative = subst NonNegative (sym m) (
          All-assign (λ (i : TServerInfo). pos 0 ≤ℤ i.weight) addr v c.map_server_info
            (subst (λ x. pos 0 ≤ℤ x) (sym w) old) h.non_negative);
      bounded = b;
      total = h.total;
      total_eq = t ∙ h.total_eq;
      total_le = omega (
        arith,
        h.total_le,
        ap live_weight m,
        live_weight-assign addr v info c.map_server_info l,
        s,
      );
    }

module _ {V : Type 0} where
  reserve_conn-IsWeighed :
      (addr : String) (info : TServerInfo) (c : TClient) (s : Store V)
      → lookup addr c.map_server_info ≡ some info
      → IsWeighed c
      → live_weight (reserve_conn addr info c s).0.map_server_info < int_limit
      → IsWeighed (reserve_conn addr info c s).0
  unfolding reserve_conn
  reserve_conn-IsWeighed addr info c s l h b = elim (Bool-cases (needs_conn info s)) [
    | inl e ↦
        let b' = rw e at b in
        rw e (entry-IsWeighed addr info _ c _ refl refl l refl (omega arith) h b')
    | inr e ↦ rw e h
  ]

drop_conn-IsWeighed :
    (addr : String) (info : TServerInfo) (conn : ℕ) (c : TClient)
    → lookup addr c.map_server_info ≡ some info
    → IsWeighed c
    → live_weight (drop_conn addr info conn c).0.map_server_info < int_limit
    → IsWeighed (drop_conn addr info conn c).0
unfolding drop_conn
drop_conn-IsWeighed addr info conn c l h b =
    let v : TServerInfo = record info { conn_list = remove_last conn info.conn_list } in
    let mid = assign addr v c.map_server_info in
    let same = live_weight-assign addr v info c.map_server_info l in
    let kept : IsWeighed (record c { map_server_info = mid }) =
      entry-IsWeighed addr info v c _ refl refl l refl (omega arith) h
        (omega (arith, same, h.bounded)) in
    elim (Bool-cases (length (remove_last conn info.conn_list) == 0)) [
      | inl e ↦
          let b' = rw e at b in
          rw e (
            entry-IsWeighed addr v _ (record c { map_server_info = mid }) _ refl refl
              (lookup-assign_self addr v c.map_server_info) refl (ground arith) kept b')
      | inr e ↦ rw e kept
    ]

shutdown-IsWeighed :
    (o : Option TServerInfo) (addr : String) (conn : ℕ) (c : TClient)
    → lookup addr c.map_server_info ≡ o
    → IsWeighed c
    → live_weight (shutdown_entry o addr conn c).map_server_info < int_limit
    → IsWeighed (shutdown_entry o addr conn c)
unfolding shutdown_entry
shutdown-IsWeighed none addr conn c l h b = h
shutdown-IsWeighed (some info) addr conn c l h b =
    entry-IsWeighed addr info _ c _ refl refl l refl (omega arith) h b

module _ {V : Type 0} where
  -- AddServer gets a weight that is not negative.
  abbrev IsModest : {c d : TClient} → Step V c d → Type 0
  IsModest (reserve addr info s l) = Unit
  IsModest (drop addr info conn l) = Unit
  IsModest (shutdown addr conn) = Unit
  IsModest (change addr status) = Unit
  IsModest (add addr weight max_conn_num s g) = pos 0 ≤ℤ weight

  -- So in each step, after which the weights of the servers that are not paused add up to an int.
  abbrev pub AllModest : {c d : TClient} → Steps V c d → Type 0
  AllModest here = Unit
  AllModest (next {e = e} r x) =
      AllModest r × IsModest x × (live_weight e.map_server_info < int_limit)

  Step-IsWeighed :
      {c d : TClient} (x : Step V c d)
      → IsModest x
      → live_weight d.map_server_info < int_limit
      → IsWeighed c
      → IsWeighed d
  unfolding on_conn_shutdown
  Step-IsWeighed {c} (reserve addr info s l) m b h = reserve_conn-IsWeighed addr info c s l h b
  Step-IsWeighed {c} (drop addr info conn l) m b h = drop_conn-IsWeighed addr info conn c l h b
  Step-IsWeighed {c} (shutdown addr conn) m b h = shutdown-IsWeighed _ addr conn c refl h b
  Step-IsWeighed {c} (change addr status) m b h = change_server_status-IsWeighed addr status c h b
  Step-IsWeighed {c} (add addr weight max_conn_num s g) m b h =
      add_server-IsWeighed addr weight max_conn_num c s m h.non_negative b

  Steps-IsWeighed : {c d : TClient} (r : Steps V c d) → AllModest r → IsWeighed c → IsWeighed d
  Steps-IsWeighed here m h = h
  Steps-IsWeighed (next r x) (m, k, b) h = Step-IsWeighed x k b (Steps-IsWeighed r m h)

new_client-IsWeighed :
    (name : String) (config : Option TClientConfig) → IsWeighed (new_client name config)
unfolding new_client
new_client-IsWeighed name config = record {
  non_negative = tt;
  bounded = omega arith;
  total = 0;
  total_eq = refl;
  total_le = omega arith;
}

-- On a new client, whatever locked sections of AddServer, ChangeServerStatus, chooseServerForReq and
-- onConnShutdown ran, in whatever order: if AddServer only got weights that are not negative and did
-- not lower the maximum of a server that was there, and after each section the weights of the servers
-- that are not paused add up to an int, then for every draw that rand.Intn may give, and every order
-- in which the runtime may range over the table, getServerInfo returns a server of the table that is
-- not paused, unless every server is paused: then it returns an error, which is "no server" for an
-- empty table and "server pause" otherwise.
pub Steps-Picks :
    {V : Type 0} (name : String) (config : Option TClientConfig) (d : TClient) (intn : ℤ → ℤ)
    (order : Servers) (r : Steps V (new_client name config) d)
    → AllModest r
    → IsIntn intn
    → Permᴰ order d.map_server_info
    → Picks order (paused_error err_no_server order) (get_server_info intn order d)
Steps-Picks name config d intn order r m i p =
    get_server_info-Picks intn order d i p (Steps-IsWeighed r m (new_client-IsWeighed name config))
