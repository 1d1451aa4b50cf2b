-- ===== src/Client/Choose/ConnLimit.antt =====
-- How many connections a server has, however the locked sections of rpc/client.go interleave.
use gopl.Prelude.{
  ℕ, ◌+◌, ◌≤◌, ◌<◌, ◌≡◌, refl, ◌⊎◌, true, Option, none, some, String, List, [], ◌∷◌, ◌++◌, arith,
  All, Fresh, Distinct, All-append, All-map, length, length-append, Bool-cases, inl, inr, max, ◌==◌,
}
use gopl.Prelude.Int.{ℤ, pos, negsuc, pos_part, ◌≤ℤ◌}
use gopl.Keys.{text_eq}
use gopl.GoMap.{lookup}
use gopl.Call.{Store}
use gopl.Client.{
  TServerInfo, TClient, remote_server_status_connect_failed, add_entry, add_server, change_entry,
  change_server_status,
}
use gopl.Client.Table.{All-assign, All-lookup}
use gopl.Client.Choose.{
  remove_first, remove_last, needs_conn, reserve_conn, drop_conn, shutdown_entry, on_conn_shutdown,
}
use gopl.Client.Choose.Removal.{
  remove_last-remove_first, remove_first-All, remove_first-Distinct, length-remove_first,
}

-- A server has at most its maximum of connections, but always may have one; none stands in its
-- list twice, and all were made.
pub record InLimit (next : ℕ) (i : TServerInfo) : Type 0 where
  pub few : length i.conn_list ≤ max 1 (pos_part i.max_conn_num)
  pub distinct : Distinct i.conn_list
  pub made : All (λ conn. conn < next) i.conn_list

abbrev pub AllInLimit : TClient → Type 0
AllInLimit c = All (λ p. InLimit c.next_conn p.1) c.map_server_info

InLimit-mono : (n m : ℕ) (i : TServerInfo) → n ≤ m → InLimit n i → InLimit m i
InLimit-mono n m i h l = record {
  few = l.few;
  distinct = l.distinct;
  made = All-map (λ c k. omega arith) i.conn_list l.made;
}

-- One routine runs one locked section on the table. The store is whatever it is at that time.
-- AddServer must not lower the maximum of a server that it finds.
pub data Step (V : Type 0) (c : TClient) : TClient → Type 0 where
  reserve :
      (addr : String) (info : TServerInfo) (s : Store V)
      → lookup addr c.map_server_info ≡ some info
      → Step V c (reserve_conn addr info c s).0
  drop :
      (addr : String) (info : TServerInfo) (conn : ℕ)
      → lookup addr c.map_server_info ≡ some info
      → Step V c (drop_conn addr info conn c).0
  shutdown : (addr : String) (conn : ℕ) → Step V c (on_conn_shutdown addr conn c)
  change : (addr : String) (status : ℤ) → Step V c (change_server_status addr status c).0
  add :
      (addr : String) (weight max_conn_num : ℤ) (s : Store V)
      → ((info : TServerInfo)
          → lookup addr c.map_server_info ≡ some info
          → info.max_conn_num ≤ℤ max_conn_num)
      → Step V c (add_server addr weight max_conn_num c s).0

pub data Steps (V : Type 0) (c : TClient) : TClient → Type 0 where
  here : Steps V c c
  next : {d e : TClient} → Steps V c d → Step V d e → Steps V c e

without :
    (n : ℕ) (info : TServerInfo) (conn : ℕ) (status : ℤ)
    → InLimit n info
    → InLimit n (record info { conn_list = remove_first conn info.conn_list; status = status })
without n info conn status l = record {
  few = omega (arith, l.few, length-remove_first conn info.conn_list);
  distinct = remove_first-Distinct conn info.conn_list l.distinct;
  made = remove_first-All (λ (x : ℕ). x < n) conn info.conn_list l.made;
}

without_last :
    (n : ℕ) (info : TServerInfo) (conn : ℕ) (status : ℤ)
    → InLimit n info
    → InLimit n (record info { conn_list = remove_last conn info.conn_list; status = status })
without_last n info conn status l =
    rw (remove_last-remove_first conn info.conn_list l.distinct) (without n info conn status l)

needs_conn-room :
    {V : Type 0} (info : TServerInfo) (s : Store V)
    → needs_conn info s ≡ true
    → (length info.conn_list ≡ 0) ⊎ (length info.conn_list < pos_part info.max_conn_num)
unfolding needs_conn
needs_conn-room info s h = ground arith

Fresh-snoc : (n d : ℕ) (ds : List ℕ) → d < n → Fresh d ds → Fresh d (ds ++ n ∷ [])
Fresh-snoc n d [] h f = (λ e. omega arith, tt)
Fresh-snoc n d (x ∷ xs) h f = (f.0, Fresh-snoc n d xs h f.1)

Distinct-snoc : (n : ℕ) (ds : List ℕ) → All (λ d. d < n) ds → Distinct ds → Distinct (ds ++ n ∷ [])
Distinct-snoc n [] h d = (tt, tt)
Distinct-snoc n (x ∷ xs) h d = (Fresh-snoc n x xs h.0 d.0, Distinct-snoc n xs h.1 d.1)

with_conn :
    {V : Type 0} (info : TServerInfo) (n : ℕ) (s : Store V)
    → InLimit n info
    → needs_conn info s ≡ true
    → InLimit (n + 1) (record info { conn_list = info.conn_list ++ n ∷ [] })
with_conn info n s l h = record {
  few = omega (arith, l.few, needs_conn-room info s h, length-append info.conn_list (n ∷ []));
  distinct = Distinct-snoc n info.conn_list l.made l.distinct;
  made =
      All-append (λ c. c < n + 1) info.conn_list (n ∷ [])
        (All-map (λ c k. omega arith) info.conn_list l.made) (omega arith, tt);
}

pos_part_mono : (a b : ℤ) (n : ℕ) → a ≤ℤ b → n ≤ max 1 (pos_part a) → n ≤ max 1 (pos_part b)
pos_part_mono (pos a) (pos b) n h l = omega arith
pos_part_mono (pos a) (negsuc b) n h l = omega arith
pos_part_mono (negsuc a) (pos b) n h l = omega arith
pos_part_mono (negsuc a) (negsuc b) n h l = omega arith

reserve-AllInLimit :
    {V : Type 0} (addr : String) (info : TServerInfo) (c : TClient) (s : Store V)
    → InLimit c.next_conn info
    → AllInLimit c
    → AllInLimit (reserve_conn addr info c s).0
unfolding reserve_conn
reserve-AllInLimit addr info c s l h = elim (Bool-cases (needs_conn info s)) [
  | inl e ↦ rw e (
      All-assign (InLimit (c.next_conn + 1)) addr _ c.map_server_info
        (with_conn info c.next_conn s l e)
        (All-map (λ p k. InLimit-mono _ _ p.1 (omega arith) k) c.map_server_info h))
  | inr e ↦ rw e h
]

drop-AllInLimit :
    (addr : String) (info : TServerInfo) (conn : ℕ) (c : TClient)
    → InLimit c.next_conn info
    → AllInLimit c
    → AllInLimit (drop_conn addr info conn c).0
unfolding drop_conn
drop-AllInLimit addr info conn c l h =
    let kept =
      All-assign (InLimit c.next_conn) addr _ c.map_server_info
        (without_last c.next_conn info conn info.status l) h in
    elim (Bool-cases (length (remove_last conn info.conn_list) == 0)) [
      | inl e ↦ rw e (
          All-assign (InLimit c.next_conn) addr _ _
            (without_last c.next_conn info conn remote_server_status_connect_failed l) kept)
      | inr e ↦ rw e kept
    ]

shutdown-AllInLimit :
    (o : Option TServerInfo) (addr : String) (conn : ℕ) (c : TClient)
    → lookup addr c.map_server_info ≡ o
    → AllInLimit c
    → AllInLimit (shutdown_entry o addr conn c)
unfolding shutdown_entry
shutdown-AllInLimit none addr conn c e h = h
shutdown-AllInLimit (some info) addr conn c e h =
    let old = All-lookup (InLimit c.next_conn) addr info c.map_server_info e h in
    All-assign (InLimit c.next_conn) addr _ c.map_server_info
      (without c.next_conn info conn info.status old) h

change-AllInLimit :
    (o : Option TServerInfo) (addr : String) (status : ℤ) (c : TClient)
    → lookup addr c.map_server_info ≡ o
    → AllInLimit c
    → AllInLimit (change_entry o addr status c).0
unfolding change_entry
change-AllInLimit none addr status c e h = h
change-AllInLimit (some info) addr status c e h =
    let old = All-lookup (InLimit c.next_conn) addr info c.map_server_info e h in
    All-assign (InLimit c.next_conn) addr _ c.map_server_info
      (record { few = old.few; distinct = old.distinct; made = old.made }) h

add-AllInLimit :
    {V : Type 0} (o : Option TServerInfo) (addr : String) (weight max_conn_num : ℤ) (c : TClient)
    (s : Store V)
    → lookup addr c.map_server_info ≡ o
    → ((info : TServerInfo) → o ≡ some info → info.max_conn_num ≤ℤ max_conn_num)
    → AllInLimit c
    → AllInLimit (add_entry o addr weight max_conn_num c s).0
unfolding add_entry
add-AllInLimit none addr weight max_conn_num c s e g h =
    All-assign (InLimit c.next_conn) addr _ c.map_server_info
      (record { few = omega arith; distinct = tt; made = tt }) h
add-AllInLimit (some info) addr weight max_conn_num c s e g h =
    let old = All-lookup (InLimit c.next_conn) addr info c.map_server_info e h in
    All-assign (InLimit c.next_conn) addr _ c.map_server_info
      (record {
        few = pos_part_mono info.max_conn_num max_conn_num _ (g info refl) old.few;
        distinct = old.distinct;
        made = old.made;
      })
      h

Step-AllInLimit : {V : Type 0} {c d : TClient} → Step V c d → AllInLimit c → AllInLimit d
unfolding on_conn_shutdown change_server_status add_server
Step-AllInLimit {c} (reserve addr info s e) h =
    reserve-AllInLimit addr info c s (All-lookup (InLimit c.next_conn) addr info _ e h) h
Step-AllInLimit {c} (drop addr info conn e) h =
    drop-AllInLimit addr info conn c (All-lookup (InLimit c.next_conn) addr info _ e h) h
Step-AllInLimit {c} (shutdown addr conn) h = shutdown-AllInLimit _ addr conn c refl h
Step-AllInLimit {c} (change addr status) h = change-AllInLimit _ addr status c refl h
Step-AllInLimit {c} (add addr weight max_conn_num s g) h =
    add-AllInLimit _ addr weight max_conn_num c s refl g h

-- However many routines run their locked sections in whatever order, with any stores, every server
-- keeps at most max(1, MaxConnNum) connections, none of them twice in its list; AddServer is taken
-- not to lower the maximum of a server that is there.
pub Steps-AllInLimit : {V : Type 0} {c d : TClient} → Steps V c d → AllInLimit c → AllInLimit d
Steps-AllInLimit here h = h
Steps-AllInLimit (next r s) h = Step-AllInLimit s (Steps-AllInLimit r h)
