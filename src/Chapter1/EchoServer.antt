-- ===== src/Chapter1/EchoServer.antt =====
-- chapter_1/1_12.go: a web server that prints the form of a request, and a count.
use gopl.Prelude.{
  ◌≡◌, refl, Bool, true, false, String, Option, none, some, List, [], ◌∷◌, ◌++◌, map, All,
  All-append, if◌then◌else◌,
}
use gopl.Prelude.Int.{ℤ, pos}
use gopl.Keys.{text_eq, ◌=?◌}
use gopl.RpcError.{GoError}

-- What a handler writes to its answer or to the log.
pub data Written : Type 0 where
  form_entry : String → List String → Written
  count_line : ℤ → Written
  logged : GoError → Written

-- `form` is r.Form in the order in which the runtime ranges over it.
pub record Request : Type 0 where
  pub path : String
  pub parse_error : Option GoError
  pub form : List (String × List String)

abbrev log_error : Option GoError → List Written
log_error none = []
log_error (some e) = logged e ∷ []

unfoldable handler : Request → List Written
handler r = log_error r.parse_error ++ map (λ p. form_entry p.0 p.1) r.form

abbrev counter : ℤ → List Written
counter count = count_line count ∷ []

-- What main makes net/http do for a request; `count` is the variable of that name.
unfoldable serve : ℤ → Request → ℤ × List Written
unfolding handler
serve count r = (count, if r.path =? "/count" then counter count else handler r)

unfoldable serve_all : ℤ → List Request → List Written
unfolding serve
serve_all count [] = []
serve_all count (r ∷ rs) = let (after, out) = serve count r in out ++ serve_all after rs

abbrev CountsZero : Written → Type 0
CountsZero (form_entry k v) = Unit
CountsZero (count_line n) = n ≡ pos 0
CountsZero (logged e) = Unit

log_error-CountsZero : (o : Option GoError) → All CountsZero (log_error o)
log_error-CountsZero none = tt
log_error-CountsZero (some e) = (tt, tt)

form-CountsZero :
    (form : List (String × List String)) → All CountsZero (map (λ p. form_entry p.0 p.1) form)
form-CountsZero [] = tt
form-CountsZero (p ∷ form) = (tt, form-CountsZero form)

serve-CountsZero :
    (r : Request) (b : Bool) → All CountsZero (if b then counter (pos 0) else handler r)
unfolding handler
serve-CountsZero r true = (refl, tt)
serve-CountsZero r false =
    All-append CountsZero (log_error r.parse_error) _ (log_error-CountsZero r.parse_error)
      (form-CountsZero r.form)

-- However many requests are served, /count answers zero: nothing adds to the count.
serve_all-CountsZero : (rs : List Request) → All CountsZero (serve_all (pos 0) rs)
unfolding serve_all
serve_all-CountsZero [] = tt
serve_all-CountsZero (r ∷ rs) =
    All-append CountsZero _ (serve_all (pos 0) rs) (serve-CountsZero r (r.path =? "/count"))
      (serve_all-CountsZero rs)
