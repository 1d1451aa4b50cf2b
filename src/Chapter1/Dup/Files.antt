-- ===== src/Chapter1/Dup/Files.antt =====
-- What chapter_1/1_4.go prints for a list of files.
use gopl.Prelude.{
  ℕ, zero, suc, ◌+◌, ◌≤◌, ◌<◌, ◌≡◌, refl, ap, sym, ◌∙◌, String, List, [], ◌∷◌, ◌++◌, map, length,
  length-append, arith, ltb, Bool-cases, inl, inr, if◌then◌else◌, All, append-nil, append_assoc,
}
use gopl.Prelude.Int.{pos, ltb_ℤ}
use gopl.Keys.{text_eq}
use gopl.GoMap.{lookup}
use gopl.RpcError.{GoError, Result, ok, err}
use mathlib.Core.List.{map-append}
use gopl.Chapter1.Dup.{
  Counts, Printed, open_error, file_name, bump, count_of, count_lines, print_counts, main,
}
use gopl.Chapter1.Dup.Counting.{
  occurrences, tally, Counted, also, int_limit, names_printed, repeats, CountsLines,
  count_lines-CountsLines,
}
use gopl.Chapter1.Dup.Reporting.{
  once, IsRange, printed_for, above_one, printed_for-print_counts, names_printed-print_counts,
  names_printed-append, printed_for-count_lines,
}

-- A file by its name and its lines.
abbrev pub Files : Type 0
Files = List (String × List String)

abbrev pub all_lines : Files → List String
all_lines [] = []
all_lines ((name, lines) ∷ files) = lines ++ all_lines files

-- Each file's name once for each of its lines that stood earlier, in it or in a file before it.
abbrev pub repeats_in : (String → ℕ) → Files → List String
repeats_in seen [] = []
repeats_in seen ((name, lines) ∷ files) =
    repeats name seen lines ++ repeats_in (also lines seen) files

abbrev pub names : Files → List String
names = map λ f. f.0

-- The loop of main over files that can all be opened.
abbrev read_all : Files → Counts → Counts × List Printed
read_all [] counts = (counts, [])
read_all ((name, lines) ∷ files) counts =
    let (after, out) = count_lines name lines counts in
    let (last, rest) = read_all files after in (last, out ++ rest)

main-read_all :
    (scan : String → Result (List String)) (range : Counts → Counts) (files : Files)
    (more : List String) (counts : Counts)
    → All (λ f. scan f.0 ≡ ok f.1) files
    → main scan range (names files ++ more) counts
      ≡ (read_all files counts).1 ++ main scan range more (read_all files counts).0
unfolding main
main-read_all scan range [] more counts h = refl
main-read_all scan range ((name, lines) ∷ files) more counts h =
    let after = (count_lines name lines counts).0 in
    let out = (count_lines name lines counts).1 in
    rw (main, h.0)
      (ap (λ rest. out ++ rest) (main-read_all scan range files more after h.1)
        ∙ sym (
            append_assoc out (read_all files after).1
              (main scan range more (read_all files after).0)))

occurrences-append :
    (k : String) (xs ys : List String)
    → occurrences k (xs ++ ys) ≡ occurrences k xs + occurrences k ys
occurrences-append k [] ys = omega arith
occurrences-append k (x ∷ xs) ys = omega (arith, occurrences-append k xs ys)

occurrences-le : (k : String) (xs : List String) → occurrences k xs ≤ length xs
occurrences-le k [] = omega arith
occurrences-le k (x ∷ xs) = ground (arith, occurrences-le k xs)

printed_for-read_all :
    (k : String) (files : Files) (counts : Counts) (out : List Printed)
    → printed_for k ((read_all files counts).1 ++ out) ≡ printed_for k out
printed_for-read_all k [] counts out = refl
printed_for-read_all k ((name, lines) ∷ files) counts out =
    let p = count_lines name lines counts in
    ap (printed_for k) (append_assoc p.1 (read_all files p.0).1 out)
    ∙ printed_for-count_lines k name lines counts ((read_all files p.0).1 ++ out)
    ∙ printed_for-read_all k files p.0 out

read_all-CountsLines :
    (files : Files) (counts : Counts) (seen : String → ℕ) (n : ℕ)
    → ((k : String) → seen k ≤ n)
    → n + length (all_lines files) < int_limit
    → Counted counts seen
    → CountsLines (all_lines files) seen (repeats_in seen files) (read_all files counts)
read_all-CountsLines [] counts seen n b h c = record {
  counted_lines = λ k. c k ∙ ap tally (omega arith);
  printed = refl;
}
read_all-CountsLines ((name, lines) ∷ files) counts seen n b h c =
    let len = length-append lines (all_lines files) in
    let first = count_lines-CountsLines name lines counts seen n b (omega (arith, len)) c in
    let p = count_lines name lines counts in
    let rest =
      read_all-CountsLines files p.0 (also lines seen) (length lines + n)
        (λ k. omega (arith, b k, occurrences-le k lines)) (omega (arith, len))
        first.counted_lines in
    record {
      counted_lines = λ k.
          rest.counted_lines k
          ∙ ap tally (omega (arith, occurrences-append k lines (all_lines files)));
      printed =
          names_printed-append p.1 (read_all files p.0).1
          ∙ ap (λ l. l ++ names_printed (read_all files p.0).1) first.printed
          ∙ ap (λ l. repeats name seen lines ++ l) rest.printed;
    }

above_one-tally : (n : ℕ) → above_one (once (tally n)) ≡ (if ltb 1 n then pos n ∷ [] else [])
above_one-tally zero = refl
above_one-tally (suc n) = ground arith

-- Where all files can be opened and have fewer lines than an int holds, and the range over the map
-- visits each entry once: a line is printed with the number of its occurrences in all the files if
-- these are more than one, and then once, and otherwise not at all; and the names that are printed
-- are, in order, each file's name once for each of its lines that stood earlier, in it or in a file
-- before it.
pub dup_reports :
    (scan : String → Result (List String)) (range : Counts → Counts) (files : Files) (k : String)
    → IsRange range
    → All (λ f. scan f.0 ≡ ok f.1) files
    → length (all_lines files) < int_limit
    → let out = main scan range (names files) [] in
      let n = occurrences k (all_lines files) in
      (printed_for k out ≡ (if ltb 1 n then pos n ∷ [] else []))
      × (names_printed out ≡ repeats_in (λ line. 0) files)
unfolding main lookup
dup_reports scan range files k r h l =
    let p = read_all files [] in
    let all =
      read_all-CountsLines files [] (λ line. 0) 0 (λ line. omega arith) (omega arith)
        (λ line. refl) in
    let run : main scan range (names files) [] ≡ p.1 ++ print_counts (range p.0) =
      ap (λ ns. main scan range ns []) (sym (append-nil (names files)))
      ∙ main-read_all scan range files [] [] h in
    let n = occurrences k (all_lines files) in
    let plain : n + 0 ≡ n = omega arith in
    (
      ap (printed_for k) run
          ∙ printed_for-read_all k files [] (print_counts (range p.0))
          ∙ printed_for-print_counts k (range p.0)
          ∙ ap above_one (r p.0 k ∙ ap once (all.counted_lines k ∙ ap tally plain))
          ∙ above_one-tally n,
      ap names_printed run
          ∙ names_printed-append p.1 (print_counts (range p.0))
          ∙ ap (λ l. names_printed p.1 ++ l) (names_printed-print_counts (range p.0))
          ∙ append-nil (names_printed p.1)
          ∙ all.printed,
    )

-- countLines prints nothing but names.
only_names-count_lines :
    (name : String) (lines : List String) (counts : Counts)
    → let out = (count_lines name lines counts).1 in out ≡ map file_name (names_printed out)
unfolding count_lines
only_names-count_lines name [] counts = refl
only_names-count_lines name (line ∷ lines) counts =
    let ih = only_names-count_lines name lines (bump line counts) in
    elim (Bool-cases (ltb_ℤ (pos 1) (count_of line (bump line counts)))) [
      | inl e ↦ rw e (ap (λ out. file_name name ∷ out) ih)
      | inr e ↦ rw e ih
    ]

only_names-read_all :
    (files : Files) (counts : Counts)
    → let out = (read_all files counts).1 in out ≡ map file_name (names_printed out)
only_names-read_all [] counts = refl
only_names-read_all ((name, lines) ∷ files) counts =
    let p = count_lines name lines counts in
    let rest = (read_all files p.0).1 in
    ap (λ l. l ++ rest) (only_names-count_lines name lines counts)
    ∙ ap (λ l. map file_name (names_printed p.1) ++ l) (only_names-read_all files p.0)
    ∙ sym (map-append file_name (names_printed p.1) (names_printed rest))
    ∙ ap (map file_name) (sym (names_printed-append p.1 rest))

-- Where a file cannot be opened after some that can, which have fewer lines than an int holds: the
-- program prints, in order, each file's name once for each of its lines that stood earlier, in it or
-- in a file before it; then the error, and nothing else, whatever files follow.
pub dup_stops :
    (scan : String → Result (List String)) (range : Counts → Counts) (files : Files) (name : String)
    (more : List String) (e : GoError)
    → All (λ f. scan f.0 ≡ ok f.1) files
    → length (all_lines files) < int_limit
    → scan name ≡ err e
    → main scan range (names files ++ name ∷ more) []
      ≡ map file_name (repeats_in (λ line. 0) files) ++ open_error e ∷ []
unfolding main lookup
dup_stops scan range files name more e h l f =
    let p = read_all files [] in
    let all =
      read_all-CountsLines files [] (λ line. 0) 0 (λ line. omega arith) (omega arith)
        (λ line. refl) in
    main-read_all scan range files (name ∷ more) [] h
    ∙ rw (main, f)
        (ap (λ out. out ++ open_error e ∷ [])
          (only_names-read_all files [] ∙ ap (map file_name) all.printed))
