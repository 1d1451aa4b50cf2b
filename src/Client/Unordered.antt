-- ===== src/Client/Unordered.antt =====
-- What updateTotalWeight and GetAllServerInfo of rpc/client.go make of the table of servers does not
-- depend on the order in which the runtime ranges over it: both are functions of the table up to its
-- order.
use mathlib.Core.List.{Permᴰ}
use mathlib.Core.Quot
use mathlib.Core.Quot.{Quot, Quot-set}
use gopl.Prelude.{ℕ, ◌+◌, ◌-◌, ◌%◌, ◌≡◌, refl, ap, ◌∙◌, sym, String, arith, ltb, if◌then◌else◌}
use gopl.Prelude.Int.{ℤ, pos, negsuc, pos_part, neg_part, ◌+ℤ◌, +ℤ_comm, +ℤ_assoc, to_int}
use gopl.Client.{
  TServerInfo, TServerInfoReport, Servers, TClient, is_norm, sum_weights, update_total_weight,
  get_all_server_info, report,
}

-- The word that stands for an integer in 64 bits.
abbrev bits : ℤ → ℕ
bits a =
    (pos_part a + (0x1_0000_0000_0000_0000 - neg_part a % 0x1_0000_0000_0000_0000))
    % 0x1_0000_0000_0000_0000

abbrev of_bits : ℕ → ℤ
of_bits n = if ltb n 0x8000_0000_0000_0000 then pos n else negsuc (0x1_0000_0000_0000_0000 - n - 1)

to_int-of_bits : (a : ℤ) → to_int a ≡ of_bits (bits a)
unfolding to_int
to_int-of_bits a = refl

bits-to_int : (a : ℤ) → bits (to_int a) ≡ bits a
unfolding to_int
bits-to_int a = ground arith

bits-add : (a b : ℤ) → bits (a +ℤ b) ≡ (bits a + bits b) % 0x1_0000_0000_0000_0000
unfolding ◌+ℤ◌
bits-add a b = ground arith

-- Wrapping the first part of a sum changes nothing.
to_int-add : (a b : ℤ) → to_int (to_int a +ℤ b) ≡ to_int (a +ℤ b)
to_int-add a b =
    let same : bits (to_int a +ℤ b) ≡ bits (a +ℤ b) =
      bits-add (to_int a) b
      ∙ ap (λ n. (n + bits b) % 0x1_0000_0000_0000_0000) (bits-to_int a)
      ∙ sym (bits-add a b) in
    to_int-of_bits (to_int a +ℤ b) ∙ ap of_bits same ∙ sym (to_int-of_bits (a +ℤ b))

to_int-swap : (s a b : ℤ) → to_int (to_int (s +ℤ a) +ℤ b) ≡ to_int (to_int (s +ℤ b) +ℤ a)
to_int-swap s a b =
    to_int-add (s +ℤ a) b
    ∙ ap to_int (+ℤ_assoc s a b ∙ ap (λ t. s +ℤ t) (+ℤ_comm a b) ∙ sym (+ℤ_assoc s b a))
    ∙ sym (to_int-add (s +ℤ b) a)

-- One round of the loop.
abbrev add_weight : ℤ → TServerInfo → ℤ
add_weight sum i = if is_norm i then to_int (sum +ℤ i.weight) else sum

add_weight-swap :
    (sum : ℤ) (i j : TServerInfo)
    → add_weight (add_weight sum i) j ≡ add_weight (add_weight sum j) i
add_weight-swap sum i j = ground (arith, to_int-swap sum i.weight j.weight)

sum_weights-perm :
    {xs ys : Servers} → Permᴰ xs ys → (sum : ℤ) → sum_weights sum xs ≡ sum_weights sum ys
unfolding sum_weights
sum_weights-perm Permᴰ.nil sum = refl
sum_weights-perm (Permᴰ.cons {a = a} {l₂ = ys} e p) sum =
    sum_weights-perm p (add_weight sum a.1) ∙ ap (λ b. sum_weights (add_weight sum b.1) ys) e
sum_weights-perm (Permᴰ.swap {a = a} {b = b} {a' = a'} {l = l} e f) sum =
    ap (λ t. sum_weights t l) (add_weight-swap sum a.1 b.1)
    ∙ ap (λ q. sum_weights (add_weight (add_weight sum q.1) a.1) l) f
    ∙ ap (λ q. sum_weights (add_weight (add_weight sum a'.1) q.1) l) e
sum_weights-perm (Permᴰ.trans p q) sum = sum_weights-perm p sum ∙ sum_weights-perm q sum

-- A table up to its order.
abbrev pub UnorderedTable : Type 0
UnorderedTable = Quot (Permᴰ {A = String × TServerInfo})

abbrev pub of_table : Servers → UnorderedTable
of_table = Quot.mk

ℤ-set : IsSet ℤ
ℤ-set = hlevel

unfoldable total_of : UnorderedTable → ℤ
total_of = Quot.lift ℤ-set (sum_weights (pos 0)) (λ xs ys p. sum_weights-perm p (pos 0))

-- Reports up to their order.
abbrev pub UnorderedReports : Type 0
UnorderedReports = Quot (Permᴰ {A = TServerInfoReport})

reports-perm :
    {xs ys : Servers} → Permᴰ xs ys → Permᴰ (get_all_server_info xs) (get_all_server_info ys)
unfolding get_all_server_info
reports-perm Permᴰ.nil = Permᴰ.nil
reports-perm (Permᴰ.cons e p) = Permᴰ.cons (ap report e) (reports-perm p)
reports-perm (Permᴰ.swap e f) = Permᴰ.swap (ap report e) (ap report f)
reports-perm (Permᴰ.trans p q) = Permᴰ.trans (reports-perm p) (reports-perm q)

reports_of : UnorderedTable → UnorderedReports
reports_of =
    Quot.lift Quot-set (λ xs. Quot.mk (get_all_server_info xs))
      (λ xs ys p. Quot.sound (reports-perm p))

-- Whatever the order in which the runtime ranges over the table of servers, and whatever the
-- weights, which are added in an int with its wrap-around: the loop of updateTotalWeight computes the
-- same total weight, and GetAllServerInfo reports the same servers up to their order.
pub ranges_agree :
    (c : TClient) (order : Servers)
    → of_table order ≡ of_table c.map_server_info
    → (sum_weights (pos 0) order ≡ (update_total_weight c).total_weight)
      × (◌≡◌ {A = UnorderedReports}
          (Quot.mk (get_all_server_info order))
          (Quot.mk (get_all_server_info c.map_server_info)))
unfolding total_of reports_of update_total_weight
ranges_agree c order e = (ap total_of e, ap reports_of e)
