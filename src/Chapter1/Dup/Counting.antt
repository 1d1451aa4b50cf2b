-- ===== src/Chapter1/Dup/Counting.antt =====
-- What countLines of chapter_1/1_4.go does to the counts, and when it prints the file's name.
use gopl.Prelude.{
  Bool-cases, inl, inr, ℕ, zero, suc, ◌+◌, ◌≤◌, ◌<◌, ◌≡◌, refl, ap, ◌∙◌, String, Option, none, some,
  List, [], ◌∷◌, length, arith, ltb, if◌then◌else◌,
}
use gopl.Prelude.Int.{ℤ, pos, ◌+ℤ◌, ltb_ℤ, to_int, to_int_small}
use gopl.Keys.{text_eq, ◌=?◌, =?_refl}
use gopl.GoMap.{lookup, lookup-assign}
use gopl.Chapter1.Dup.{
  Counts, Printed, open_error, file_name, counted, value, count_of, bump, count_lines,
}

-- How often a line stands in a list of lines.
abbrev pub occurrences : String → List String → ℕ
occurrences k [] = 0
occurrences k (line ∷ lines) = (if line =? k then 1 else 0) + occurrences k lines

-- A line that was not seen has no entry.
abbrev pub tally : ℕ → Option ℤ
tally zero = none
tally (suc n) = some (pos (suc n))

-- The counts are those of lines that were seen so often.
abbrev pub Counted : Counts → (String → ℕ) → Type 0
Counted counts seen = (k : String) → lookup k counts ≡ tally (seen k)

abbrev pub also : List String → (String → ℕ) → String → ℕ
also lines seen k = occurrences k lines + seen k

abbrev pub int_limit : ℕ
int_limit = 0x8000_0000_0000_0000

value-tally : (n : ℕ) → value (tally n) ≡ pos n
value-tally zero = refl
value-tally (suc n) = refl

next_count : (n : ℕ) → suc n < int_limit → to_int (pos n +ℤ pos 1) ≡ pos (suc n)
unfolding ◌+ℤ◌
next_count n h = ap to_int (ground arith) ∙ to_int_small (suc n) h

new_value :
    (line : String) (counts : Counts) (seen : String → ℕ)
    → suc (seen line) < int_limit
    → Counted counts seen
    → to_int (count_of line counts +ℤ pos 1) ≡ pos (suc (seen line))
new_value line counts seen h c =
    let before : count_of line counts ≡ pos (seen line) =
      ap value (c line) ∙ value-tally (seen line) in
    ap (λ n. to_int (n +ℤ pos 1)) before ∙ next_count (seen line) h

lookup-bump :
    (line k : String) (counts : Counts) (seen : String → ℕ)
    → suc (seen line) < int_limit
    → Counted counts seen
    → lookup k (bump line counts)
      ≡ (if line =? k then some (pos (suc (seen line))) else lookup k counts)
unfolding bump
lookup-bump line k counts seen h c =
    rw
      (
        lookup-assign line k (to_int (count_of line counts +ℤ pos 1)) counts,
        new_value line counts seen h c,
      )
      refl

bump-Counted :
    (line : String) (counts : Counts) (seen : String → ℕ)
    → suc (seen line) < int_limit
    → Counted counts seen
    → Counted (bump line counts) (also (line ∷ []) seen)
bump-Counted line counts seen h c k = elim (Bool-cases (line =? k)) [
  | inl e ↦
      let same : line ≡ k = (text_eq.beq_iff line k).0 e in
      let more : suc (seen line) ≡ 1 + 0 + seen k = omega (arith, ap seen same) in
      lookup-bump line k counts seen h c ∙ rw e (ap tally more)
  | inr e ↦
      let as_many : seen k ≡ 0 + 0 + seen k = omega arith in
      lookup-bump line k counts seen h c ∙ rw e (c k ∙ ap tally as_many)
]

count_of-bump :
    (line : String) (counts : Counts) (seen : String → ℕ)
    → suc (seen line) < int_limit
    → Counted counts seen
    → count_of line (bump line counts) ≡ pos (suc (seen line))
count_of-bump line counts seen h c =
    ap value (lookup-bump line line counts seen h c) ∙ rw (=?_refl line) refl

-- A bumped count is above one exactly for a line that was seen before.
print_bump :
    (line : String) (counts : Counts) (seen : String → ℕ)
    → suc (seen line) < int_limit
    → Counted counts seen
    → ltb_ℤ (pos 1) (count_of line (bump line counts)) ≡ ltb 0 (seen line)
print_bump line counts seen h c = rw (count_of-bump line counts seen h c) (ground arith)

-- The names of files that are printed, in order.
abbrev pub names_printed : List Printed → List String
names_printed [] = []
names_printed (open_error e ∷ out) = names_printed out
names_printed (file_name name ∷ out) = name ∷ names_printed out
names_printed (counted n line ∷ out) = names_printed out

pub also-also :
    (line : String) (lines : List String) (seen : String → ℕ) (k : String)
    → also lines (also (line ∷ []) seen) k ≡ also (line ∷ lines) seen k
also-also line lines seen k = omega arith

-- The name once for each of the lines that was seen before, or stands earlier among them.
abbrev pub repeats : String → (String → ℕ) → List String → List String
repeats name seen [] = []
repeats name seen (line ∷ lines) =
    let later = repeats name (also (line ∷ []) seen) lines in
    if ltb 0 (seen line) then name ∷ later else later

-- The lines are counted, and the names of files that are printed are these.
pub record CountsLines (lines : List String) (seen : String → ℕ) (names : List String)
    (p : Counts × List Printed) : Type 0 where
  pub counted_lines : Counted p.0 (also lines seen)
  pub printed : names_printed p.1 ≡ names

pub count_lines-CountsLines :
    (name : String) (lines : List String) (counts : Counts) (seen : String → ℕ) (n : ℕ)
    → ((k : String) → seen k ≤ n)
    → n + length lines < int_limit
    → Counted counts seen
    → CountsLines lines seen (repeats name seen lines) (count_lines name lines counts)
unfolding count_lines
count_lines-CountsLines name [] counts seen n b h c = record {
  counted_lines = λ k. c k ∙ ap tally (omega arith);
  printed = refl;
}
count_lines-CountsLines name (line ∷ lines) counts seen n b h c =
    let bumped = bump line counts in
    let more = also (line ∷ []) seen in
    let below : suc (seen line) < int_limit = omega (arith, b line) in
    let ih =
      count_lines-CountsLines name lines bumped more (suc n) (λ k. ground (arith, b k))
        (omega arith) (bump-Counted line counts seen below c) in
    record {
      counted_lines = λ k. ih.counted_lines k ∙ ap tally (also-also line lines seen k);
      printed = ground (arith, print_bump line counts seen below c, ih.printed);
    }
