-- ===== src/Chapter1/FetchAll/Complete.antt =====
-- Where every URL can be fetched, the program of chapter_1/1_10.go ends and reports each one, in
-- whatever order its routines go on.
use mathlib.Core.List.{Permᴰ, map-append}
use mathlib.Core.List.Permᴰ as Perm
use mathlib.Core.Quot
use mathlib.Core.Quot.{Quot}
use gopl.Prelude.{
  ℕ, ◌+◌, ◌*◌, ◌≤◌, ◌≡◌, refl, ap, sym, subst, ◌∙◌, ◌⊎◌, inl, inr, false, String, List, [], ◌∷◌,
  ◌++◌, map, length, length-append, append_assoc, append-nil, All, All-append, arith,
}
use gopl.RpcError.{Result, ok}
use gopl.Chapter1.Fetch.{with_scheme}
use gopl.Chapter1.FetchAll.{
  Fetched, Report, report_of, Fetcher, fetching, sending, reported, copy_events, Program, started,
  Step, exits, fetches, receives, Steps, here, next,
}
use gopl.Chapter1.FetchAll.Reports.{
  of_reports, reports_in, reports_in-append, reports_in-copy_events, All-split, steps_left,
  steps_left-append, started_length, started_steps,
}

module _ (get : String → Result Fetched) (response : String → Fetched) where
  -- A URL whose Get gives `response`.
  abbrev pub CanFetch : String → Type 0
  CanFetch url = get (with_scheme url) ≡ ok (response url)

  abbrev pub expected : String → Report
  expected url = report_of url (response url)

  abbrev future : Fetcher → Report
  future (fetching url) = expected url
  future (sending r) = r

  abbrev Able : Fetcher → Type 0
  Able (fetching url) = CanFetch url
  Able (sending r) = Unit

  record IsOnTrack (urls : List String) (n : ℕ) (p : Program) : Type 0 where
    pub alive : p.exited ≡ false
    pub able : All Able p.fetchers
    pub balanced : p.to_receive ≡ length p.fetchers
    pub counted : n + steps_left p.fetchers ≡ 2 * length urls
    pub complete : Permᴰ (reports_in p.out ++ map future p.fetchers) (map expected urls)

  started-Able : (urls : List String) → All CanFetch urls → All Able (map fetching urls)
  started-Able [] h = tt
  started-Able (url ∷ urls) h = (h.0, started-Able urls h.1)

  started-future : (urls : List String) → map future (map fetching urls) ≡ map expected urls
  started-future [] = refl
  started-future (url ∷ urls) = ap (λ l. expected url ∷ l) (started-future urls)

  started-IsOnTrack : (urls : List String) → All CanFetch urls → IsOnTrack urls 0 (started urls)
  started-IsOnTrack urls h = record {
    alive = refl;
    able = started-Able urls h;
    balanced = started_length urls;
    counted = omega (arith, started_steps urls);
    complete = subst (λ l. Permᴰ l (map expected urls)) (sym (started-future urls)) (Perm.refl _);
  }

  fetches_same :
      (xs ys : List Fetcher) (url : String) (v : Fetched) (p : Program)
      → p.fetchers ≡ xs ++ fetching url ∷ ys
      → v ≡ response url
      → reports_in p.out ++ map future p.fetchers
        ≡ reports_in (p.out ++ copy_events v.copy_error)
          ++ map future (xs ++ sending (report_of url v) ∷ ys)
  fetches_same xs ys url v p f e =
      let first : map future p.fetchers ≡ map future (xs ++ sending (report_of url v) ∷ ys) =
        ap (map future) f
        ∙ map-append future xs (fetching url ∷ ys)
        ∙ ap (λ q. map future xs ++ report_of url q ∷ map future ys) (sym e)
        ∙ sym (map-append future xs (sending (report_of url v) ∷ ys)) in
      ap (λ l. reports_in p.out ++ l) first
      ∙ ap (λ l. l ++ map future (xs ++ sending (report_of url v) ∷ ys))
          (sym (reports_in-copy_events p.out v.copy_error))

  receives_perm :
      (xs ys : List Fetcher) (r : Report) (p : Program)
      → p.fetchers ≡ xs ++ sending r ∷ ys
      → Permᴰ
          (reports_in (p.out ++ reported r ∷ []) ++ map future (xs ++ ys))
          (reports_in p.out ++ map future p.fetchers)
  receives_perm xs ys r p f =
      let before = reports_in p.out in
      let left : reports_in (p.out ++ reported r ∷ []) ++ map future (xs ++ ys)
          ≡ before ++ r ∷ (map future xs ++ map future ys) =
        ap (λ l. l ++ map future (xs ++ ys)) (reports_in-append p.out (reported r ∷ []))
        ∙ append_assoc before (r ∷ []) (map future (xs ++ ys))
        ∙ ap (λ l. before ++ r ∷ l) (map-append future xs ys) in
      let right : before ++ (map future xs ++ r ∷ map future ys) ≡ before ++ map future p.fetchers =
        ap (λ l. before ++ l)
          (sym (map-append future xs (sending r ∷ ys)) ∙ ap (map future) (sym f)) in
      subst (λ l. Permᴰ l (before ++ map future p.fetchers)) (sym left)
        (subst (λ l. Permᴰ (before ++ r ∷ (map future xs ++ map future ys)) l) right
          (Perm.append_left before (Perm.symm (Perm.middle r (map future xs) (map future ys)))))

  Step-IsOnTrack :
      {urls : List String} {n : ℕ} {p q : Program}
      → Step get p q
      → IsOnTrack urls n p
      → IsOnTrack urls (n + 1) q
  Step-IsOnTrack (exits xs ys url e a f g) t =
      let able = (All-split Able xs (fetching url ∷ ys) (subst (All Able) f t.able)).1.0 in
      absurd (cc)
  Step-IsOnTrack {urls} {n} {p} (fetches xs ys url v a f g) t =
      let (before, now) = All-split Able xs (fetching url ∷ ys) (subst (All Able) f t.able) in
      let same : v ≡ response url = cc in
      record {
        alive = a;
        able = All-append Able xs (sending (report_of url v) ∷ ys) before (tt, now.1);
        balanced = omega (
          arith,
          t.balanced,
          ap length f,
          length-append xs (fetching url ∷ ys),
          length-append xs (sending (report_of url v) ∷ ys),
        );
        counted = omega (
          arith,
          t.counted,
          ap steps_left f,
          steps_left-append xs (fetching url ∷ ys),
          steps_left-append xs (sending (report_of url v) ∷ ys),
        );
        complete =
            subst (λ l. Permᴰ l (map expected urls)) (fetches_same xs ys url v p f same) t.complete;
      }
  Step-IsOnTrack {urls} {n} {p} (receives xs ys r m a f g) t =
      let (before, now) = All-split Able xs (sending r ∷ ys) (subst (All Able) f t.able) in
      record {
        alive = a;
        able = All-append Able xs ys before now.1;
        balanced = omega (
          arith,
          g,
          t.balanced,
          ap length f,
          length-append xs (sending r ∷ ys),
          length-append xs ys,
        );
        counted = omega (
          arith,
          t.counted,
          ap steps_left f,
          steps_left-append xs (sending r ∷ ys),
          steps_left-append xs ys,
        );
        complete = Permᴰ.trans (receives_perm xs ys r p f) t.complete;
      }

  Steps-IsOnTrack :
      {urls : List String} {n : ℕ} {p q : Program}
      → Steps get n p q
      → IsOnTrack urls 0 p
      → IsOnTrack urls n q
  Steps-IsOnTrack here t = t
  Steps-IsOnTrack (next r s) t = Step-IsOnTrack s (Steps-IsOnTrack r t)

  -- The first routine can go on.
  goes_on :
      (urls : List String) (n : ℕ) (p : Program) (f : Fetcher) (fs : List Fetcher)
      → p.fetchers ≡ f ∷ fs
      → IsOnTrack urls n p
      → (q : Program) × Step get p q
  goes_on urls n p (fetching url) fs e t =
      let able = (subst (All Able) e t.able).0 in
      (_, fetches [] fs url (response url) t.alive e able)
  goes_on urls n p (sending r) fs e t =
      (_, receives [] fs r (length fs) t.alive e (omega (arith, t.balanced, ap length e)))

  -- main has received every report, and no routine is left.
  pub record IsComplete (urls : List String) (n : ℕ) (p : Program) : Type 0 where
    pub received : p.to_receive ≡ 0
    pub none_left : p.fetchers ≡ []
    pub steps : n ≡ 2 * length urls
    pub all_reported : of_reports (reports_in p.out) ≡ of_reports (map expected urls)

  completes :
      (urls : List String) (n : ℕ) (p : Program) (fs : List Fetcher)
      → p.fetchers ≡ fs
      → IsOnTrack urls n p
      → IsComplete urls n p ⊎ ((q : Program) × Step get p q)
  completes urls n p [] e t = inl (record {
    received = omega (arith, t.balanced, ap length e);
    none_left = e;
    steps = omega (arith, t.counted, ap steps_left e);
    all_reported = Quot.sound (
        subst (λ l. Permᴰ l (map expected urls))
          (ap (λ l. reports_in p.out ++ map future l) e ∙ append-nil (reports_in p.out))
          t.complete);
  })
  completes urls n p (f ∷ fs) e t = inr (goes_on urls n p f fs e t)

  -- Where every URL can be fetched: however the routines go on in turn, the program does not exit
  -- and takes at most two steps for each URL. When no step is left, main has received all reports,
  -- no routine is left, and the reports that were printed are, up to their order, one for each URL.
  pub fetch_all_completes :
      (urls : List String) (n : ℕ) (p : Program)
      → All CanFetch urls
      → Steps get n (started urls) p
      → (p.exited ≡ false)
        × (n ≤ 2 * length urls)
        × (IsComplete urls n p ⊎ ((q : Program) × Step get p q))
  fetch_all_completes urls n p h r =
      let t = Steps-IsOnTrack r (started-IsOnTrack urls h) in
      (t.alive, omega (arith, t.counted), completes urls n p p.fetchers refl t)
