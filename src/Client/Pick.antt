-- ===== src/Client/Pick.antt =====
-- Which server getServerInfo of rpc/client.go chooses, for every draw and every range order.
use mathlib.Core.List.{Memᴰ, Permᴰ}
use gopl.Prelude.{
  ℕ, zero, suc, ◌∙◌, ◌+◌, ◌≤◌, ◌<◌, ◌≡◌, refl, ◌⊎◌, inl, inr, true, false, String, List, [], ◌∷◌,
  arith, leb, if◌then◌else◌, All, Bool-cases,
}
use gopl.Prelude.Int.{ℤ, pos, negsuc, pos_part, ◌+ℤ◌, ◌≤ℤ◌, to_int, to_int_small, ltb_ℤ}
use gopl.RpcError.{GoError, err_no_server, err_server_pause, Result, ok, err}
use gopl.Client.{
  TServerInfo, Servers, TClient, update_total_weight, is_norm, is_pause, sum_weights, pick_server,
  get_server_info,
}

abbrev pub weight_of : TServerInfo → ℕ
weight_of i = pos_part i.weight

-- The weights of the servers that are not paused.
abbrev pub live_weight : Servers → ℕ
live_weight [] = 0
live_weight ((k, i) ∷ rest) = (if is_pause i then 0 else weight_of i) + live_weight rest

-- The weights of the servers in normal state.
abbrev pub norm_weight : Servers → ℕ
norm_weight [] = 0
norm_weight ((k, i) ∷ rest) = (if is_norm i then weight_of i else 0) + norm_weight rest

abbrev pub NonNegative : Servers → Type 0
NonNegative = All λ p. pos 0 ≤ℤ p.1.weight

abbrev pub int_limit : ℕ
int_limit = 0x8000_0000_0000_0000

to_int-add :
    (n : ℕ) (w : ℤ)
    → pos 0 ≤ℤ w
    → n + pos_part w < int_limit
    → to_int (pos n +ℤ w) ≡ pos (n + pos_part w)
unfolding ◌+ℤ◌
to_int-add n (pos w) p h = ground (arith, to_int_small (n + w))
to_int-add n (negsuc w) p h = absurd (omega arith)

pub sum_weights-norm_weight :
    (n : ℕ) (m : Servers)
    → NonNegative m
    → n + norm_weight m < int_limit
    → sum_weights (pos n) m ≡ pos (n + norm_weight m)
unfolding sum_weights
sum_weights-norm_weight n [] p h = ground arith
sum_weights-norm_weight n ((k, i) ∷ rest) p h = ground (
  arith,
  to_int-add n i.weight p.0,
  sum_weights-norm_weight (n + weight_of i) rest p.1,
  sum_weights-norm_weight n rest p.1,
)

pub norm-le-live_weight : (m : Servers) → norm_weight m ≤ live_weight m
norm-le-live_weight [] = omega arith
norm-le-live_weight ((k, i) ∷ rest) = ground (arith, norm-le-live_weight rest)

-- A server that is not paused, or none is left and the error says so.
abbrev pub Picks : Servers → GoError → Result String → Type 0
Picks order e r =
    ((k : String) × (i : TServerInfo) × Memᴰ (k, i) order × (is_pause i ≡ false) × (r ≡ ok k))
    ⊎ (All (λ p. is_pause p.1 ≡ true) order × (r ≡ err e))

All-paused_weight : (m : Servers) → All (λ p. is_pause p.1 ≡ true) m → live_weight m ≡ 0
All-paused_weight [] h = refl
All-paused_weight ((k, i) ∷ rest) h = ground (arith, All-paused_weight rest h.1)

-- The error of a loop that found every server paused.
abbrev pub paused_error : GoError → Servers → GoError
paused_error e [] = e
paused_error e (p ∷ rest) = err_server_pause

paused_error_pause : (m : Servers) → paused_error err_server_pause m ≡ err_server_pause
paused_error_pause [] = refl
paused_error_pause (p ∷ rest) = refl

pick_server-Picks :
    (r n : ℕ) (e : GoError) (order : Servers)
    → NonNegative order
    → n + live_weight order < int_limit
    → r ≤ n + live_weight order
    → Picks order (paused_error e order) (pick_server (pos r) (pos n) e order)
unfolding pick_server
pick_server-Picks r n e [] p h l = inr (tt, refl)
pick_server-Picks r n e ((k, i) ∷ rest) p h l = elim (Bool-cases (is_pause i)) [
  | inl z ↦ elim (pick_server-Picks r n err_server_pause rest p.1 (ground arith) (ground arith)) [
    | inl (j, x, m, q, w) ↦ inl (j, x, Memᴰ.tail m, q, ground arith)
    | inr (q, w) ↦ inr ((z, q), ground (arith, paused_error_pause rest))
  ]
  | inr z ↦
      let add = to_int-add n i.weight p.0 (ground arith) in
      elim (Bool-cases (leb r (n + weight_of i))) [
        | inl y ↦ inl (k, i, Memᴰ.head refl, z, ground arith)
        | inr y ↦
            elim (pick_server-Picks r (n + weight_of i) e rest p.1 (ground arith) (ground arith)) [
              | inl (j, x, m, q, w) ↦ inl (j, x, Memᴰ.tail m, q, ground arith)
              | inr (q, w) ↦ absurd (ground (arith, All-paused_weight rest q))
            ]
      ]
]

live_weight-perm : {m n : Servers} → Permᴰ m n → live_weight m ≡ live_weight n
live_weight-perm Permᴰ.nil = refl
live_weight-perm (Permᴰ.cons e p) = rw e (omega (arith, live_weight-perm p))
live_weight-perm (Permᴰ.swap e f) = rw (e, f) (omega arith)
live_weight-perm (Permᴰ.trans p q) = live_weight-perm p ∙ live_weight-perm q

pub All-perm {ℓ κ} :
    {A : Type ℓ} (P : A → Type κ) {xs ys : List A} → Permᴰ xs ys → All P ys → All P xs
All-perm P Permᴰ.nil h = tt
All-perm P (Permᴰ.cons e p) h = (rw e h.0, All-perm P p h.1)
All-perm P (Permᴰ.swap e f) h = (rw e h.1.0, (rw f h.0, h.1.1))
All-perm P (Permᴰ.trans p q) h = All-perm P p (All-perm P q h)

-- What rand.Intn promises: for n > 0 a number from 0 to n - 1.
abbrev pub IsIntn : (ℤ → ℤ) → Type 0
IsIntn intn = (n : ℕ) → 0 < n → (r : ℕ) × (intn (pos n) ≡ pos r) × (r < n)

-- The table's weights are not negative and add up to an int, and `total_weight` does not exceed
-- those of the servers that are not paused.
pub record IsWeighed (c : TClient) : Type 0 where
  pub non_negative : NonNegative c.map_server_info
  pub bounded : live_weight c.map_server_info < int_limit
  pub total : ℕ
  pub total_eq : c.total_weight ≡ pos total
  pub total_le : total ≤ live_weight c.map_server_info

drawn :
    (intn : ℤ → ℤ) (n : ℕ)
    → IsIntn intn
    → (r : ℕ) × ((if ltb_ℤ (pos 0) (pos n) then intn (pos n) else pos 0) ≡ pos r) × (r ≤ n)
drawn intn zero h = (0, refl, omega arith)
drawn intn (suc n) h = let (r, e, l) = h (suc n) (omega arith) in (r, ground arith, omega arith)

-- For every draw that rand.Intn may give, and every order in which the runtime may range over a
-- weighed table, getServerInfo returns a server of the table that is not paused, unless every
-- server is paused: then it returns an error, which is "no server" for an empty table and "server
-- pause" otherwise.
pub get_server_info-Picks :
    (intn : ℤ → ℤ) (order : Servers) (c : TClient)
    → IsIntn intn
    → Permᴰ order c.map_server_info
    → IsWeighed c
    → Picks order (paused_error err_no_server order) (get_server_info intn order c)
unfolding get_server_info
get_server_info-Picks intn order c h p w =
    let same = live_weight-perm p in
    let (r, e, l) = drawn intn w.total h in
    rw (w.total_eq, e)
      (pick_server-Picks r 0 err_no_server order (All-perm _ p w.non_negative)
        (omega (arith, w.bounded, same)) (omega (arith, w.total_le, same)))

pair_weight :
    (a b : String) (i j : TServerInfo) (w : ℕ)
    → is_norm i ≡ true
    → is_norm j ≡ true
    → i.weight ≡ pos w
    → j.weight ≡ pos 1
    → w + 1 < int_limit
    → sum_weights (pos 0) ((a, i) ∷ (b, j) ∷ []) ≡ pos (w + 1)
pair_weight a b i j w ni nj wi wj l =
    ground (arith, sum_weights-norm_weight 0 ((a, i) ∷ (b, j) ∷ []))

pick_first :
    (a : String) (i : TServerInfo) (rest : Servers) (e : GoError) (r w : ℕ)
    → is_norm i ≡ true
    → i.weight ≡ pos w
    → w < int_limit
    → r ≤ w
    → pick_server (pos r) (pos 0) e ((a, i) ∷ rest) ≡ ok a
unfolding pick_server
pick_first a i rest e r w ni wi l h = ground (arith, to_int-add 0 i.weight)

-- In a table of two normal servers, where the second has weight 1 and the first a weight w with
-- w + 1 an int, getServerInfo that ranges over the first one first always chooses it, whatever
-- rand.Intn draws: the second is never chosen.
pub unit_weight_never_chosen :
    (intn : ℤ → ℤ) (a b : String) (i j : TServerInfo) (w : ℕ) (c : TClient)
    → IsIntn intn
    → is_norm i ≡ true
    → is_norm j ≡ true
    → i.weight ≡ pos w
    → j.weight ≡ pos 1
    → w + 1 < int_limit
    → c.map_server_info ≡ (a, i) ∷ (b, j) ∷ []
    → get_server_info intn c.map_server_info (update_total_weight c) ≡ ok a
unfolding get_server_info update_total_weight
unit_weight_never_chosen intn a b i j w c h ni nj wi wj l m =
    let (r, e, k) = h (w + 1) (omega arith) in
    let drawn_below : (if ltb_ℤ (pos 0) (pos (w + 1)) then intn (pos (w + 1)) else pos 0) ≡ pos r =
      ground arith in
    rw (m, pair_weight a b i j w ni nj wi wj l, drawn_below)
      (pick_first a i ((b, j) ∷ []) err_no_server r w ni wi (omega arith) (omega arith))
