-- ===== src/Chapter1/FetchAll.antt =====
-- chapter_1/1_10.go: it fetches a list of URLs, each in a routine of its own, and prints a report for
-- each as it arrives.
pub mod Reports
pub mod Complete
use gopl.Prelude.{
  ℕ, ◌+◌, ◌<◌, ◌≡◌, Bool, true, false, String, Option, none, some, List, [], ◌∷◌, ◌++◌, map, length,
}
use gopl.RpcError.{GoError, Result, ok, err}
use gopl.Chapter1.Fetch.{with_scheme}

-- What http.Get and io.Copy give: the number of bytes, an error of the copy, and the time it took.
pub record Fetched : Type 0 where
  pub nbytes : ℕ
  pub copy_error : Option GoError
  pub secs : ℕ

pub record Report : Type 0 where
  pub secs : ℕ
  pub nbytes : ℕ
  pub url : String

abbrev pub report_of : String → Fetched → Report
report_of url f = record { secs = f.secs; nbytes = f.nbytes; url = with_scheme url }

-- A routine that fetches a URL, or that waits for main to receive its report from `ch`, which has no
-- buffer.
pub data Fetcher : Type 0 where
  fetching : String → Fetcher
  sending : Report → Fetcher

pub data Printed : Type 0 where
  get_failed : GoError → Printed
  copy_failed : GoError → Printed
  reported : Report → Printed

abbrev pub copy_events : Option GoError → List Printed
copy_events none = []
copy_events (some e) = copy_failed e ∷ []

-- The program: its routines, how many reports main is still to receive, and what was printed.
pub record Program : Type 0 where
  pub fetchers : List Fetcher
  pub to_receive : ℕ
  pub out : List Printed
  pub exited : Bool

-- After the first loop of main.
abbrev pub started : List String → Program
started urls = record {
  fetchers = map fetching urls;
  to_receive = length urls;
  out = [];
  exited = false;
}

module _ (get : String → Result Fetched) where
  -- One routine goes on: os.Exit ends them all.
  pub data Step (p : Program) : Program → Type 0 where
    exits :
        (xs ys : List Fetcher) (url : String) (e : GoError)
        → p.exited ≡ false
        → p.fetchers ≡ xs ++ fetching url ∷ ys
        → get (with_scheme url) ≡ err e
        → Step p (record p { out = p.out ++ get_failed e ∷ []; exited = true })
    fetches :
        (xs ys : List Fetcher) (url : String) (f : Fetched)
        → p.exited ≡ false
        → p.fetchers ≡ xs ++ fetching url ∷ ys
        → get (with_scheme url) ≡ ok f
        → Step p (record p {
          fetchers = xs ++ sending (report_of url f) ∷ ys;
          out = p.out ++ copy_events f.copy_error;
        })
    receives :
        (xs ys : List Fetcher) (r : Report) (n : ℕ)
        → p.exited ≡ false
        → p.fetchers ≡ xs ++ sending r ∷ ys
        → p.to_receive ≡ n + 1
        → Step p (record p { fetchers = xs ++ ys; to_receive = n; out = p.out ++ reported r ∷ [] })

  -- A run of so many steps.
  pub data Steps : ℕ → Program → Program → Type 0 where
    here : {p : Program} → Steps 0 p p
    next : {n : ℕ} {p q r : Program} → Steps n p q → Step q r → Steps (n + 1) p r
