-- ===== src/Chapter1/Dup.antt =====
-- chapter_1/1_4.go: it counts the lines of files and prints those that occur more than once.
pub mod Counting
pub mod Reporting
pub mod Files
use gopl.Prelude.{String, Option, none, some, List, [], ◌∷◌, ◌++◌, if◌then◌else◌}
use gopl.Prelude.Int.{ℤ, pos, ◌+ℤ◌, ltb_ℤ, to_int}
use gopl.Keys.{text_eq}
use gopl.GoMap.{GoMap, lookup, assign}
use gopl.RpcError.{GoError, Result, ok, err}

abbrev pub Counts : Type 0
Counts = GoMap String ℤ

-- What the program prints: the error of an Open, the name of a file, or a line with its count.
pub data Printed : Type 0 where
  open_error : GoError → Printed
  file_name : String → Printed
  counted : ℤ → String → Printed

-- counts[line], where a missing line counts zero.
abbrev pub value : Option ℤ → ℤ
value none = pos 0
value (some n) = n

abbrev pub count_of : String → Counts → ℤ
count_of line counts = value (lookup line counts)

-- counts[line]++, in an int.
unfoldable pub bump : String → Counts → Counts
bump line counts = assign line (to_int (count_of line counts +ℤ pos 1)) counts

-- countLines, for the lines that the scanner finds in the file.
unfoldable pub count_lines : String → List String → Counts → Counts × List Printed
unfolding bump
count_lines name [] counts = (counts, [])
count_lines name (line ∷ lines) counts =
    let bumped = bump line counts in
    let (after, out) = count_lines name lines bumped in
    (after, if ltb_ℤ (pos 1) (count_of line bumped) then file_name name ∷ out else out)

-- The last loop of main, over the entries in the order of the runtime.
unfoldable pub print_counts : Counts → List Printed
print_counts [] = []
print_counts ((line, n) ∷ rest) =
    let out = print_counts rest in if ltb_ℤ (pos 1) n then counted n line ∷ out else out

-- `scan` opens a file and reads its lines; `range` is the order in which the runtime ranges over the
-- counts. An Open that fails ends main.
unfoldable pub main :
    (String → Result (List String)) → (Counts → Counts) → List String → Counts → List Printed
unfolding count_lines print_counts
main scan range [] counts = print_counts (range counts)
main scan range (name ∷ names) counts = elim (scan name) [
  | err e ↦ open_error e ∷ []
  | ok lines ↦
      let (after, out) = count_lines name lines counts in out ++ main scan range names after
]
