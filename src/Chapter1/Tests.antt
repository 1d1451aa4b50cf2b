-- ===== src/Chapter1/Tests.antt =====
-- Runs of the programs of chapter_1/.
use gopl.Prelude.{
  ◌≤◌, ◌*◌, ◌⊎◌, ◌≡◌, refl, ◌++◌, true, false, none, String, List, [], ◌∷◌, arith, ltb,
  if◌then◌else◌, length,
}
use gopl.Prelude.Int.{pos, ◌+ℤ◌, to_int}
use gopl.Keys.{text_eq, ◌=?◌}
use gopl.GoMap.{lookup, assign, delete}
use gopl.RpcError.{Result, ok, err, other}
use gopl.Chapter1.Fetch
use gopl.Chapter1.Fetch.{Response}
use gopl.Chapter1.FetchAll
use gopl.Chapter1.FetchAll.{
  Fetched, report_of, fetching, reported, Program, started, fetches, receives,
}
use gopl.Chapter1.FetchAll.Complete.{IsComplete, fetch_all_completes}
use gopl.Chapter1.Dup.{Counts, open_error, file_name, counted, main}
use gopl.Chapter1.Dup.Counting.{occurrences, names_printed}
use gopl.Chapter1.Dup.Reporting.{printed_for, IsRange, entries}
use gopl.Chapter1.Dup.Files.{Files, all_lines, names, dup_reports, dup_stops}

abbrev files : Files
files = ("a", "x" ∷ "y" ∷ "x" ∷ []) ∷ ("b", "y" ∷ "z" ∷ []) ∷ []

abbrev scan : String → Result (List String)
scan name =
    if name =? "a"
    then ok ("x" ∷ "y" ∷ "x" ∷ [])
    else if name =? "b"
    then ok ("y" ∷ "z" ∷ [])
    else err (other "no such file")

-- A range over the entries in the order in which they were added.
abbrev in_order : Counts → Counts
unfolding delete
in_order [] = []
in_order ((line, n) ∷ rest) = (line, n) ∷ delete line (in_order rest)

entries-delete :
    (j k : String) (counts : Counts)
    → entries k (delete j counts) ≡ (if j =? k then [] else entries k counts)
unfolding delete
entries-delete j k [] = ground arith
entries-delete j k ((line, n) ∷ rest) = ground (
  arith,
  entries-delete j k rest,
  text_eq.beq_iff line j,
  text_eq.beq_iff line k,
  text_eq.beq_iff j k,
)

in_order-IsRange : IsRange in_order
unfolding in_order lookup
in_order-IsRange [] k = refl
in_order-IsRange ((line, n) ∷ rest) k =
    ground (arith, in_order-IsRange rest k, entries-delete line k (in_order rest))

prints_repeated :
    main scan in_order (names files) []
    ≡ file_name "a" ∷ file_name "b" ∷ counted (pos 2) "x" ∷ counted (pos 2) "y" ∷ []
unfolding main in_order lookup assign ◌+ℤ◌ to_int
prints_repeated = refl

dup_reports_example :
    let out = main scan in_order (names files) [] in
    let n = occurrences "x" (all_lines files) in
    (printed_for "x" out ≡ (if ltb 1 n then pos n ∷ [] else []))
    × (names_printed out ≡ "a" ∷ "b" ∷ [])
dup_reports_example =
    dup_reports scan in_order files "x" in_order-IsRange (refl, (refl, tt)) (omega arith)

dup_stops_example :
    main scan in_order (names files ++ "c" ∷ "a" ∷ []) []
    ≡ file_name "a" ∷ file_name "b" ∷ open_error (other "no such file") ∷ []
dup_stops_example =
    dup_stops scan in_order files "c" ("a" ∷ []) (other "no such file") (refl, (refl, tt))
      (omega arith) refl

-- Of two URLs the second was fetched first, and was received.
abbrev got : String → Result Fetched
got url = ok (record { nbytes = 9; copy_error = none; secs = 1 })

abbrev answer : String → Fetched
answer url = record { nbytes = 9; copy_error = none; secs = 1 }

abbrev urls : List String
urls = "a" ∷ "http://b" ∷ []

abbrev halfway : Program
halfway = record {
  fetchers = fetching "a" ∷ [];
  to_receive = 1;
  out = reported (report_of "http://b" (answer "http://b")) ∷ [];
  exited = false;
}

gets_halfway : FetchAll.Steps got 2 (started urls) halfway
gets_halfway =
    FetchAll.next
      (FetchAll.next FetchAll.here
        (fetches (fetching "a" ∷ []) [] "http://b" (answer "http://b") refl refl refl))
      (receives (fetching "a" ∷ []) [] (report_of "http://b" (answer "http://b")) 1 refl refl refl)

fetch_all_completes_example :
    (halfway.exited ≡ false)
    × (2 ≤ 2 * length urls)
    × (IsComplete got answer urls 2 halfway ⊎ ((q : Program) × FetchAll.Step got halfway q))
fetch_all_completes_example =
    fetch_all_completes got answer urls 2 halfway (refl, (refl, tt)) gets_halfway

-- The first is fetched and the second is not.
abbrev web : String → Result Response
web url =
    if url =? "http://a"
    then ok (record { status_code = 200; body = "hello"; copy_error = none })
    else err (other "no such host")

fetches_in_turn :
    Fetch.main web ("a" ∷ "http://b" ∷ "a" ∷ [])
    ≡ (Fetch.copied "hello" ∷ Fetch.status 200 ∷ Fetch.get_failed (other "no such host") ∷ [], true)
unfolding Fetch.main
fetches_in_turn = refl
