-- ===== src/Chapter1/Dup/Reporting.antt =====
-- What chapter_1/1_4.go prints.
use gopl.Prelude.{
  ◌≡◌, refl, ap, String, Option, none, some, List, [], ◌∷◌, ◌++◌, arith, if◌then◌else◌,
}
use gopl.Prelude.Int.{ℤ, pos, ltb_ℤ}
use gopl.Keys.{text_eq, ◌=?◌}
use gopl.GoMap.{lookup}
use gopl.Chapter1.Dup.{
  Counts, Printed, open_error, file_name, counted, bump, count_lines, print_counts,
}
use gopl.Chapter1.Dup.Counting.{names_printed}

-- The counts that stand for a line, in order.
abbrev pub entries : String → Counts → List ℤ
entries k [] = []
entries k ((line, n) ∷ rest) = (if line =? k then n ∷ entries k rest else entries k rest)

abbrev pub once : Option ℤ → List ℤ
once none = []
once (some n) = n ∷ []

-- A range over a map visits each entry once.
abbrev pub IsRange : (Counts → Counts) → Type 0
IsRange range = (counts : Counts) (k : String) → entries k (range counts) ≡ once (lookup k counts)

-- The counts that are printed for a line.
abbrev pub printed_for : String → List Printed → List ℤ
printed_for k [] = []
printed_for k (open_error e ∷ out) = printed_for k out
printed_for k (file_name name ∷ out) = printed_for k out
printed_for k (counted n line ∷ out) =
    if line =? k then n ∷ printed_for k out else printed_for k out

abbrev pub above_one : List ℤ → List ℤ
above_one [] = []
above_one (n ∷ ns) = if ltb_ℤ (pos 1) n then n ∷ above_one ns else above_one ns

pub printed_for-print_counts :
    (k : String) (cs : Counts) → printed_for k (print_counts cs) ≡ above_one (entries k cs)
unfolding print_counts
printed_for-print_counts k [] = refl
printed_for-print_counts k ((line, n) ∷ rest) = ground (arith, printed_for-print_counts k rest)

pub names_printed-print_counts : (cs : Counts) → names_printed (print_counts cs) ≡ []
unfolding print_counts
names_printed-print_counts [] = refl
names_printed-print_counts ((line, n) ∷ rest) = ground (arith, names_printed-print_counts rest)

pub names_printed-append :
    (xs ys : List Printed) → names_printed (xs ++ ys) ≡ names_printed xs ++ names_printed ys
names_printed-append [] ys = refl
names_printed-append (open_error e ∷ xs) ys = names_printed-append xs ys
names_printed-append (file_name name ∷ xs) ys = ap (λ l. name ∷ l) (names_printed-append xs ys)
names_printed-append (counted n line ∷ xs) ys = names_printed-append xs ys

-- countLines prints no counts.
pub printed_for-count_lines :
    (k name : String) (lines : List String) (counts : Counts) (out : List Printed)
    → printed_for k ((count_lines name lines counts).1 ++ out) ≡ printed_for k out
unfolding count_lines
printed_for-count_lines k name [] counts out = refl
printed_for-count_lines k name (line ∷ lines) counts out =
    ground (arith, printed_for-count_lines k name lines (bump line counts) out)
