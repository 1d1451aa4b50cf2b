-- ===== src/Server/Conns.antt =====
-- The connections of a TServer of rpc/server.go: the list, the counter, and the routines that change
-- them. A connection is known by a number.
use gopl.Prelude.{
  ℕ, ◌+◌, ◌-◌, ◌≤◌, ◌≡◌, refl, sym, ap, subst, ◌∙◌, String, List, [], ◌∷◌, arith, count, ◌==◌,
  ==_iff, count-append, length, if◌then◌else◌, ◌||◌, ◌&&◌, ltb, false, All, All-of_count,
}
use gopl.Prelude.Run.{finished, ◌>>=◌, finished_inj}
use gopl.Client.Choose.{remove_first}
use gopl.Client.Choose.Removal.{count-remove_first, length-remove_first_held}
use gopl.Server.Life.{stop-deadlines}
use gopl.Server.State.{
  Deadlines, renew_conn, TServer, new_server, start, accept_conn, stop, one_server_conn_start,
  conn_done, unlist_conn, one_server_conn_stop, is_running,
}

-- A server, the connections whose RoutineRun has not begun, those in RoutineRun, and those that have
-- told the counter that they end and do not yet hold the lock of the list; and their read deadlines.
pub record Conns : Type 0 where
  pub server : TServer
  pub waiting : List ℕ
  pub running : List ℕ
  pub leaving : List ℕ
  pub expired : Deadlines

-- How often a connection stands in one of the three.
abbrev pub live : Conns → ℕ → ℕ
live σ x = count x σ.waiting + (count x σ.running + count x σ.leaving)

-- One routine runs one piece of code: that of Start or of Stop, or that of a connection, which also
-- sets its read deadline anew at the begin of each round, after a Stop too.
pub data Step (σ : Conns) : Conns → Type 0 where
  starts : Step σ (record σ { server = start σ.server })
  stops :
      Step σ
        (record σ { server = (stop σ.expired σ.server).0; expired = (stop σ.expired σ.server).1 })
  renews : (x : ℕ) → 1 ≤ count x σ.running → Step σ (record σ { expired = renew_conn x σ.expired })
  accepts :
      (x : ℕ)
      → live σ x ≡ 0
      → Step σ (record σ { server = accept_conn x σ.server; waiting = x ∷ σ.waiting })
  runs :
      (x : ℕ)
      → 1 ≤ count x σ.waiting
      → Step σ (record σ {
        server = one_server_conn_start σ.server;
        waiting = remove_first x σ.waiting;
        running = x ∷ σ.running;
      })
  ends :
      (x : ℕ) (s : TServer)
      → 1 ≤ count x σ.running
      → conn_done σ.server ≡ finished s
      → Step σ
          (record σ { server = s; running = remove_first x σ.running; leaving = x ∷ σ.leaving })
  leaves :
      (x : ℕ)
      → 1 ≤ count x σ.leaving
      → Step σ (record σ { server = unlist_conn x σ.server; leaving = remove_first x σ.leaving })

pub data Steps (σ : Conns) : Conns → Type 0 where
  here : Steps σ σ
  next : {τ υ : Conns} → Steps σ τ → Step τ υ → Steps σ υ

-- The counter has the connections that run, and the list each live connection once.
pub record IsCounted (σ : Conns) : Type 0 where
  pub counter : σ.server.server_conn_wg ≡ length σ.running
  pub listed : (x : ℕ) → count x σ.server.server_conn_list ≡ live σ x
  pub once : (x : ℕ) → live σ x ≤ 1

abbrev pub opened : String → Conns
opened addr = record {
  server = new_server addr;
  waiting = [];
  running = [];
  leaving = [];
  expired = λ x. false;
}

start-conns :
    (s : TServer)
    → ((start s).server_conn_wg ≡ s.server_conn_wg)
      × ((start s).server_conn_list ≡ s.server_conn_list)
unfolding start
start-conns s = ground arith

stop-conns_kept :
    (expired : Deadlines) (s : TServer)
    → ((stop expired s).0.server_conn_wg ≡ s.server_conn_wg)
      × ((stop expired s).0.server_conn_list ≡ s.server_conn_list)
unfolding stop
stop-conns_kept expired s = ground arith

conn_done-finished :
    (s : TServer)
    → 1 ≤ s.server_conn_wg
    → conn_done s ≡ finished (record s { server_conn_wg = s.server_conn_wg - 1 })
unfolding conn_done
conn_done-finished s h = ground arith

-- A server with other fields whose connections are the same.
IsCounted-server :
    (σ : Conns) (s : TServer)
    → (s.server_conn_wg ≡ σ.server.server_conn_wg)
      × (s.server_conn_list ≡ σ.server.server_conn_list)
    → IsCounted σ
    → IsCounted (record σ { server = s })
IsCounted-server σ s (w, l) i = record {
  counter = w ∙ i.counter;
  listed = λ x. ap (count x) l ∙ i.listed x;
  once = i.once;
}

unlist_conn-count :
    (σ : Conns) (x : ℕ)
    → IsCounted σ
    → 1 ≤ live σ x
    → (z : ℕ)
    → (if x == z then 1 else 0) + count z (unlist_conn x σ.server).server_conn_list ≡ live σ z
unfolding unlist_conn
unlist_conn-count σ x i h z =
    count-remove_first x σ.server.server_conn_list (omega (arith, i.listed x)) z ∙ i.listed z

Step-IsCounted : {σ τ : Conns} → Step σ τ → IsCounted σ → IsCounted τ
unfolding accept_conn one_server_conn_start unlist_conn
Step-IsCounted {σ} starts i = IsCounted-server σ (start σ.server) (start-conns σ.server) i
Step-IsCounted {σ} stops i =
    let kept =
      IsCounted-server σ (stop σ.expired σ.server).0 (stop-conns_kept σ.expired σ.server) i in
    record { counter = kept.counter; listed = kept.listed; once = kept.once }
Step-IsCounted (renews x h) i = record { counter = i.counter; listed = i.listed; once = i.once }
Step-IsCounted {σ} (accepts x f) i = record {
  counter = i.counter;
  listed = λ z. omega (arith, i.listed z, count-append z σ.server.server_conn_list (x ∷ []));
  once = λ z. ground (arith, i.once z, ==_iff x z);
}
Step-IsCounted {σ} (runs x h) i = record {
  counter = omega (arith, i.counter);
  listed = λ z. omega (arith, i.listed z, count-remove_first x σ.waiting h z);
  once = λ z. omega (arith, i.once z, count-remove_first x σ.waiting h z);
}
Step-IsCounted {σ} (ends x s h e) i =
    let n = length-remove_first_held x σ.running h in
    let p = finished_inj (sym (conn_done-finished σ.server (omega (arith, i.counter))) ∙ e) in
    subst
      (λ s.
        IsCounted
          (record σ { server = s; running = remove_first x σ.running; leaving = x ∷ σ.leaving }))
      p
      (record {
        counter = omega (arith, i.counter);
        listed = λ z. omega (arith, i.listed z, count-remove_first x σ.running h z);
        once = λ z. omega (arith, i.once z, count-remove_first x σ.running h z);
      })
Step-IsCounted {σ} (leaves x h) i = record {
  counter = i.counter;
  listed = λ z.
      omega (arith, unlist_conn-count σ x i (omega arith) z, count-remove_first x σ.leaving h z);
  once = λ z. omega (arith, i.once z, count-remove_first x σ.leaving h z);
}

Steps-IsCounted : (addr : String) (σ : Conns) → Steps (opened addr) σ → IsCounted σ
unfolding new_server
Steps-IsCounted addr _ here = record { counter = refl; listed = λ x. refl; once = λ x. omega arith }
Steps-IsCounted addr σ (next {τ} r x) = Step-IsCounted x (Steps-IsCounted addr τ r)

stop-live :
    (σ : Conns)
    → IsCounted σ
    → (x : ℕ)
    → (stop σ.expired σ.server).1 x ≡ (σ.expired x || (is_running σ.server && ltb 0 (live σ x)))
stop-live σ i x =
    stop-deadlines σ.expired σ.server x
    ∙ ap (λ n. σ.expired x || (is_running σ.server && ltb 0 n)) (i.listed x)

-- OneServerConnStop of a connection ends, and takes that connection out of the list and no other.
abbrev pub Departs : Conns → ℕ → Type 0
Departs σ x =
    (t : TServer) × (one_server_conn_stop x σ.server ≡ finished t)
    × ((z : ℕ) → count z t.server_conn_list ≡ (if x == z then 0 else live σ z))

IsCounted-Departs : (σ : Conns) (x : ℕ) → IsCounted σ → 1 ≤ count x σ.running → Departs σ x
unfolding one_server_conn_stop unlist_conn
IsCounted-Departs σ x i h =
    let n = length-remove_first_held x σ.running h in
    (
      _,
      ap (λ m. m >>= λ t. finished (unlist_conn x t))
          (conn_done-finished σ.server (omega (arith, i.counter))),
      λ z. ground (arith, unlist_conn-count σ x i (omega arith) z, i.once z, ==_iff x z),
    )

-- However the routines of a new server and of its connections interleave: the counter has the number
-- of connections that run, and the list has each live connection exactly once and no other. Stop, at
-- that time, lets the read deadlines of just these pass, if the server runs, and changes none if not.
-- OneServerConnStop of any connection that runs does not panic and takes that connection, and no
-- other, out of the list.
pub keeps_the_live :
    (addr : String) (σ : Conns)
    → Steps (opened addr) σ
    → IsCounted σ
      × ((x : ℕ)
          → (stop σ.expired σ.server).1 x
            ≡ (σ.expired x || (is_running σ.server && ltb 0 (live σ x))))
      × All (Departs σ) σ.running
keeps_the_live addr σ r =
    let i = Steps-IsCounted addr σ r in
    (i, stop-live σ i, All-of_count σ.running λ x h. IsCounted-Departs σ x i h)
