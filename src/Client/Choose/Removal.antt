-- ===== src/Client/Choose/Removal.antt =====
-- The two loops of rpc/client.go that take a connection out of a server's list.
use gopl.Prelude.{
  ℕ, ◌≤◌, ◌≡◌, refl, subst, ◌≢◌, ==_iff, false, List, [], ◌∷◌, arith, All, Fresh, Distinct, length,
  Bool-cases, inl, inr, ◌==◌, count, suc,
}
use gopl.Client.Choose.{contains, remove_first, remove_last}

contains-Fresh : (c : ℕ) (ds : List ℕ) → contains c ds ≡ false → Fresh c ds
contains-Fresh c [] h = tt
contains-Fresh c (d ∷ ds) h = (ground arith, contains-Fresh c ds (ground arith))

pub Fresh-contains : (c : ℕ) (ds : List ℕ) → Fresh c ds → contains c ds ≡ false
Fresh-contains c [] h = refl
Fresh-contains c (d ∷ ds) h = ground (arith, Fresh-contains c ds h.1)

remove_last-Fresh : (c : ℕ) (ds : List ℕ) → Fresh c ds → remove_last c ds ≡ ds
unfolding remove_last
remove_last-Fresh c [] h = refl
remove_last-Fresh c (d ∷ ds) h = ground (arith, remove_last-Fresh c ds h.1, Fresh-contains c ds h.1)

remove_first-Fresh : (c : ℕ) (ds : List ℕ) → Fresh c ds → remove_first c ds ≡ ds
unfolding remove_first
remove_first-Fresh c [] h = refl
remove_first-Fresh c (d ∷ ds) h = ground (arith, remove_first-Fresh c ds h.1)

-- On a list in which no connection stands twice, the loops of removeConn and of onConnShutdown,
-- which start at different ends, take out the same.
pub remove_last-remove_first :
    (c : ℕ) (ds : List ℕ) → Distinct ds → remove_last c ds ≡ remove_first c ds
unfolding remove_last remove_first
remove_last-remove_first c [] h = refl
remove_last-remove_first c (d ∷ ds) h = elim (Bool-cases (d == c)) [
  | inl e ↦ ground (arith, Fresh-contains c ds (subst (λ x. Fresh x ds) ((==_iff d c).0 e) h.0))
  | inr e ↦ ground (arith, remove_last-remove_first c ds h.1)
]

pub remove_first-All {ℓ} :
    (P : ℕ → Type ℓ) (c : ℕ) (ds : List ℕ) → All P ds → All P (remove_first c ds)
unfolding remove_first
remove_first-All P c [] h = tt
remove_first-All P c (d ∷ ds) h = ground (arith, remove_first-All P c ds h.1)

pub remove_first-Distinct : (c : ℕ) (ds : List ℕ) → Distinct ds → Distinct (remove_first c ds)
unfolding remove_first
remove_first-Distinct c [] h = tt
remove_first-Distinct c (d ∷ ds) h =
    ground (arith, remove_first-Distinct c ds h.1, remove_first-All (λ (x : ℕ). d ≢ x) c ds h.0)

-- What is taken out is gone.
pub remove_first-gone : (c : ℕ) (ds : List ℕ) → Distinct ds → Fresh c (remove_first c ds)
unfolding remove_first
remove_first-gone c [] h = tt
remove_first-gone c (d ∷ ds) h = elim (Bool-cases (d == c)) [
  | inl e ↦ rw e (subst (λ x. Fresh x ds) ((==_iff d c).0 e) h.0)
  | inr e ↦ ground (arith, remove_first-gone c ds h.1)
]

pub length-remove_first : (c : ℕ) (ds : List ℕ) → length (remove_first c ds) ≤ length ds
unfolding remove_first
length-remove_first c [] = omega arith
length-remove_first c (d ∷ ds) = ground (arith, length-remove_first c ds)

pub count-remove_first :
    (x : ℕ) (held : List ℕ)
    → 1 ≤ count x held
    → (z : ℕ) → count z (x ∷ remove_first x held) ≡ count z held
unfolding remove_first
count-remove_first x [] h z = absurd (omega arith)
count-remove_first x (y ∷ ys) h z = elim (Bool-cases (y == x)) [
  | inl e ↦ rw (e, (==_iff y x).0 e) refl
  | inr e ↦ let ih = count-remove_first x ys (ground arith) z in rw e (omega (arith, ih))
]

pub length-remove_first_held :
    (x : ℕ) (held : List ℕ) → 1 ≤ count x held → suc (length (remove_first x held)) ≡ length held
unfolding remove_first
length-remove_first_held x [] h = absurd (omega arith)
length-remove_first_held x (y ∷ ys) h = ground (arith, length-remove_first_held x ys)
