-- ===== src/Chapter1/Fetch.antt =====
-- chapter_1/1_7.go: it prints what a list of URLs has, one after the other.
use Prim.Native.String.{◌++◌ as text_append}
use text.Mathlib.Text.{starts_with}
use gopl.Prelude.{
  ℕ, Bool, true, false, String, Option, none, some, List, [], ◌∷◌, ◌++◌, if◌then◌else◌,
}
use gopl.RpcError.{GoError, Result, ok, err}

-- The test and the assignment before each http.Get.
unfoldable pub with_scheme : String → String
with_scheme url = if starts_with url "http://" then url else text_append "http://" url

-- What http.Get returns, with what io.Copy makes of its body.
pub record Response : Type 0 where
  pub status_code : ℕ
  pub body : String
  pub copy_error : Option GoError

pub data Printed : Type 0 where
  get_failed : GoError → Printed
  copied : String → Printed
  copy_failed : GoError → Printed
  status : ℕ → Printed

abbrev print_response : Response → List Printed
print_response r =
    copied r.body ∷ elim r.copy_error [ none ↦ [] | some e ↦ copy_failed e ∷ [] ]
    ++ status r.status_code ∷ []

-- main; the second value says whether the program ended by os.Exit(1).
unfoldable pub main : (String → Result Response) → List String → List Printed × Bool
unfolding with_scheme
main get [] = ([], false)
main get (url ∷ urls) = elim (get (with_scheme url)) [
  | err e ↦ (get_failed e ∷ [], true)
  | ok r ↦ let (out, exited) = main get urls in (print_response r ++ out, exited)
]
