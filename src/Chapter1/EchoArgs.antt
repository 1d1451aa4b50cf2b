-- ===== src/Chapter1/EchoArgs.antt =====
-- chapter_1/1_1.go: it prints its arguments.
use Prim.Native.String.{◌++◌ as text_append}
use gopl.Prelude.{ℕ, suc, String, List, [], ◌∷◌}

-- strings.Join(args, "")
unfoldable join : List String → String
join [] = ""
join (arg ∷ args) = text_append arg (join args)

-- The second loop, from an index on.
unfoldable indexed : ℕ → List String → List (ℕ × String)
indexed k [] = []
indexed k (arg ∷ args) = (k, arg) ∷ indexed (suc k) args

-- main: the first line, and then the index and the content of each argument.
unfoldable main : List String → String × List (ℕ × String)
unfolding join indexed
main args = (join args, indexed 0 args)
