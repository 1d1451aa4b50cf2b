-- ===== src/LoadTest/Counts.antt =====
-- What the load test of rpc/test/test_client.go adds up.
use gopl.Prelude.{
  ℕ, zero, suc, ◌+◌, ◌≤◌, ◌<◌, ◌≡◌, refl, ap, ◌∙◌, true, false, Option, none, some, List, [], ◌∷◌,
  map, arith, ◌==◌, ltb, if◌then◌else◌, All, length,
}
use gopl.Prelude.Int.{ℤ, pos, ◌+ℤ◌, leb_ℤ, to_int, to_int_small}
use gopl.Prelude.Run.{finished}
use gopl.RpcError.{GoError}
use gopl.Client.Pick.{int_limit}
use gopl.LoadTest.{
  Routine, Tally, no_calls, print_delt, count_call, print_progress, run_rounds, run_client, sum_up,
  load_test, misses_calls,
}

abbrev won : Option GoError → ℕ
won none = 1
won (some e) = 0

won_le : (e : Option GoError) → won e ≤ 1
won_le none = omega arith
won_le (some e) = omega arith

-- How many of the calls from the k-th on succeed, among so many.
abbrev pub successes : Routine → ℕ → ℕ → ℕ
successes r k zero = 0
successes r k (suc n) = won (r.error k) + successes r (suc k) n

abbrev pub failures : Routine → ℕ → ℕ → ℕ
failures r k zero = 0
failures r k (suc n) = (if won (r.error k) == 0 then 1 else 0) + failures r (suc k) n

-- From the k-th call on, the routine makes so many, and one more at which its time is over.
abbrev pub EndsAfter : ℤ → Routine → ℕ → ℕ → Type 0
EndsAfter run_time r k zero = leb_ℤ run_time (r.since k) ≡ true
EndsAfter run_time r k (suc n) =
    (leb_ℤ run_time (r.since k) ≡ false) × EndsAfter run_time r (suc k) n

-- A routine counted so many calls and successes.
record HasCounted (t : Tally) (n m : ℕ) : Type 0 where
  pub runs : t.num_run ≡ pos n
  pub wins : t.num_suc ≡ pos m

to_int-sum : (a b : ℕ) → a + b < int_limit → to_int (pos a +ℤ pos b) ≡ pos (a + b)
unfolding ◌+ℤ◌
to_int-sum a b h = ground (arith, to_int_small (a + b))

count_call-HasCounted :
    (e : Option GoError) (t : Tally) (n m : ℕ)
    → n + 1 < int_limit
    → m ≤ n
    → HasCounted t n m
    → HasCounted (count_call e t) (n + 1) (m + won e)
unfolding count_call
count_call-HasCounted none t n m h l c = record {
  runs = ap (λ x. to_int (x +ℤ pos 1)) c.runs ∙ to_int-sum n 1 h;
  wins = ap (λ x. to_int (x +ℤ pos 1)) c.wins ∙ to_int-sum m 1 (omega arith);
}
count_call-HasCounted (some e) t n m h l c = record {
  runs = ap (λ x. to_int (x +ℤ pos 1)) c.runs ∙ to_int-sum n 1 h;
  wins = c.wins ∙ ap pos (omega arith);
}

print_progress-HasCounted :
    (delt now : ℤ) (t : Tally) (n m : ℕ)
    → HasCounted t n m
    → HasCounted (print_progress delt now t) n m
unfolding print_progress
print_progress-HasCounted delt now t n m c = record {
  runs = ground (arith, c.runs);
  wins = ground (arith, c.wins);
}

abbrev after_call : ℤ → Routine → ℕ → Tally → Tally
after_call delt r k t = print_progress delt (r.since k) (count_call (r.error k) t)

run_rounds-HasCounted :
    (fuel : ℕ) (delt run_time : ℤ) (r : Routine) (k left : ℕ) (t : Tally) (n m : ℕ)
    → EndsAfter run_time r k left
    → left < fuel
    → n + suc left < int_limit
    → m ≤ n
    → HasCounted t n m
    → (u : Tally) × (run_rounds fuel delt run_time r k t ≡ finished u)
      × HasCounted u (n + suc left) (m + successes r k (suc left))
unfolding run_rounds
run_rounds-HasCounted zero delt run_time r k left t n m e f b l c = absurd (omega arith)
run_rounds-HasCounted (suc fuel) delt run_time r k zero t n m e f b l c =
    let d =
      print_progress-HasCounted delt (r.since k) _ _ _
        (count_call-HasCounted (r.error k) t n m b l c) in
    (
      after_call delt r k t,
      rw e refl,
      record { runs = d.runs; wins = d.wins ∙ ap pos (omega arith) },
    )
run_rounds-HasCounted (suc fuel) delt run_time r k (suc left) t n m (e, es) f b l c =
    let d =
      print_progress-HasCounted delt (r.since k) _ _ _
        (count_call-HasCounted (r.error k) t n m (omega arith) l c) in
    let (u, p, q) =
      run_rounds-HasCounted fuel delt run_time r (suc k) left (after_call delt r k t) (n + 1)
        (m + won (r.error k)) es (omega arith) (omega arith) (omega (arith, won_le (r.error k)))
        d in
    (
      u,
      rw e p,
      record { runs = q.runs ∙ ap pos (omega arith); wins = q.wins ∙ ap pos (omega arith) },
    )

successes-failures : (r : Routine) (k n : ℕ) → successes r k n + failures r k n ≡ n
successes-failures r k zero = refl
successes-failures r k (suc n) = ground (arith, successes-failures r (suc k) n, won_le (r.error k))

-- Routines, each with the number of calls before its last one.
abbrev pub Plan : Type 0
Plan = List (Routine × ℕ)

abbrev pub runs_of : Plan → ℕ
runs_of [] = 0
runs_of ((r, n) ∷ p) = suc n + runs_of p

abbrev pub successes_of : Plan → ℕ
successes_of [] = 0
successes_of ((r, n) ∷ p) = successes r 0 (suc n) + successes_of p

abbrev pub failures_of : Plan → ℕ
failures_of [] = 0
failures_of ((r, n) ∷ p) = failures r 0 (suc n) + failures_of p

-- Each routine ends as planned, and its calls do not exceed the fuel.
abbrev pub IsPlanned : ℕ → ℤ → Plan → Type 0
IsPlanned fuel run_time = All λ p. EndsAfter run_time p.0 0 p.1 × (p.1 < fuel)

sum_up-Plan :
    (fuel : ℕ) (delt run_time : ℤ) (plan : Plan) (a b : ℕ)
    → IsPlanned fuel run_time plan
    → a + runs_of plan < int_limit
    → b ≤ a
    → sum_up
        (map (λ r. run_rounds fuel delt run_time r 0 no_calls) (map (λ p. p.0) plan))
        (pos a)
        (pos b)
      ≡ finished (pos (a + runs_of plan), pos (b + successes_of plan))
unfolding sum_up
sum_up-Plan fuel delt run_time [] a b h l q = ground arith
sum_up-Plan fuel delt run_time ((r, n) ∷ plan) a b ((e, f), h) l q =
    let few = successes-failures r 0 (suc n) in
    let (u, p, c) =
      run_rounds-HasCounted fuel delt run_time r 0 n no_calls 0 0 e f (omega arith) (omega arith)
        (record { runs = refl; wins = refl }) in
    let runs : u.num_run ≡ pos (suc n) = c.runs ∙ ap pos (omega arith) in
    let wins : u.num_suc ≡ pos (successes r 0 (suc n)) = c.wins ∙ ap pos (omega arith) in
    let sum_run = ap (λ x. to_int (pos a +ℤ x)) runs ∙ to_int-sum a (suc n) (omega arith) in
    let sum_suc =
      ap (λ x. to_int (pos b +ℤ x)) wins
      ∙ to_int-sum b (successes r 0 (suc n)) (omega (arith, few)) in
    let rest =
      sum_up-Plan fuel delt run_time plan (a + suc n) (b + successes r 0 (suc n)) h (omega arith)
        (omega (arith, few)) in
    rw (p, sum_run, sum_suc) (rest ∙ ground arith)

successes-failures_of : (plan : Plan) → successes_of plan + failures_of plan ≡ runs_of plan
successes-failures_of [] = refl
successes-failures_of ((r, n) ∷ p) =
    omega (arith, successes-failures r 0 (suc n), successes-failures_of p)

-- Where the time of each routine is over after some call, and the routines make fewer calls in all
-- than an int holds: the load test ends, with fuel beyond the calls of each routine; main adds up the
-- calls of all routines and those that returned no error, and logs that calls failed exactly if one
-- did.
pub load_test_adds_up :
    (fuel : ℕ) (run_time : ℤ) (plan : Plan)
    → IsPlanned fuel run_time plan
    → runs_of plan < int_limit
    → (load_test fuel run_time (map (λ p. p.0) plan)
        ≡ finished (pos (runs_of plan), pos (successes_of plan)))
      × (misses_calls (pos (runs_of plan), pos (successes_of plan)) ≡ ltb 0 (failures_of plan))
unfolding load_test run_client
load_test_adds_up fuel run_time plan h l = (
  sum_up-Plan fuel (print_delt (pos (length (map (λ (p : Routine × ℕ). p.0) plan)))) run_time plan 0
        0 h (omega (arith, l)) (omega arith)
      ∙ ground arith,
  ground (arith, successes-failures_of plan),
)
