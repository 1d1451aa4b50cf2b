-- ===== src/Chapter1/FetchAll/Reports.antt =====
-- The reports that chapter_1/1_10.go prints, and the steps that its routines have still to do.
use mathlib.Core.List.{Permᴰ}
use mathlib.Core.Quot.{Quot}
use gopl.Prelude.{
  ℕ, suc, ◌+◌, ◌*◌, ◌≡◌, refl, ap, ◌∙◌, String, Option, none, some, List, [], ◌∷◌, ◌++◌, map,
  length, append-nil, All, arith,
}
use gopl.RpcError.{GoError}
use gopl.Chapter1.FetchAll.{
  Report, Fetcher, fetching, sending, Printed, get_failed, copy_failed, reported, copy_events,
}

-- Reports up to their order.
abbrev pub UnorderedReports : Type 0
UnorderedReports = Quot (Permᴰ {A = Report})

abbrev pub of_reports : List Report → UnorderedReports
of_reports = Quot.mk

abbrev pub reports_in : List Printed → List Report
reports_in [] = []
reports_in (get_failed e ∷ out) = reports_in out
reports_in (copy_failed e ∷ out) = reports_in out
reports_in (reported r ∷ out) = r ∷ reports_in out

pub reports_in-append :
    (xs ys : List Printed) → reports_in (xs ++ ys) ≡ reports_in xs ++ reports_in ys
reports_in-append [] ys = refl
reports_in-append (get_failed e ∷ xs) ys = reports_in-append xs ys
reports_in-append (copy_failed e ∷ xs) ys = reports_in-append xs ys
reports_in-append (reported r ∷ xs) ys = ap (λ l. r ∷ l) (reports_in-append xs ys)

pub reports_in-copy_events :
    (out : List Printed) (o : Option GoError) → reports_in (out ++ copy_events o) ≡ reports_in out
reports_in-copy_events out none = ap reports_in (append-nil out)
reports_in-copy_events out (some e) = reports_in-append out _ ∙ append-nil (reports_in out)

pub All-split {ℓ κ} :
    {A : Type ℓ} (P : A → Type κ) (xs ys : List A) → All P (xs ++ ys) → All P xs × All P ys
All-split P [] ys h = (tt, h)
All-split P (x ∷ xs) ys h = let (a, b) = All-split P xs ys h.1 in ((h.0, a), b)

-- How many steps the routines have still to do.
abbrev pub steps_left : List Fetcher → ℕ
steps_left [] = 0
steps_left (fetching url ∷ fs) = 2 + steps_left fs
steps_left (sending r ∷ fs) = 1 + steps_left fs

pub steps_left-append :
    (xs ys : List Fetcher) → steps_left (xs ++ ys) ≡ steps_left xs + steps_left ys
steps_left-append [] ys = omega arith
steps_left-append (fetching url ∷ xs) ys = omega (arith, steps_left-append xs ys)
steps_left-append (sending r ∷ xs) ys = omega (arith, steps_left-append xs ys)

pub started_length : (urls : List String) → length urls ≡ length (map fetching urls)
started_length [] = refl
started_length (url ∷ urls) = ap suc (started_length urls)

pub started_steps : (urls : List String) → steps_left (map fetching urls) ≡ 2 * length urls
started_steps [] = refl
started_steps (url ∷ urls) = omega (arith, started_steps urls)
