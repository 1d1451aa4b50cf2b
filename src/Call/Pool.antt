-- ===== src/Call/Pool.antt =====
-- The discipline of gCallPool: what NewCall and FreeCall of rpc/call.go keep.
use gopl.Prelude.{
  count, ℕ, zero, suc, ◌<◌, ◌≡◌, refl, sym, ◌≢◌, Option, none, some, List, [], ◌∷◌, arith, inl, inr,
  Option-cases, All, Fresh, Distinct, All-map, count,
}
use gopl.Call.{
  TCall, Store, put, take_at, zero_call, set_call, hand_out, stamp, new_call, free_call,
}

-- Every pooled call is zero, was made, and is pooled once.
pub record IsPooled {V : Type 0} (s : Store V) : Type 0 where
  pub blank : All (λ c. s.calls c ≡ zero_call) s.pool
  pub made : All (λ c. c < s.next_call) s.pool
  pub distinct : Distinct s.pool

-- A call that the program holds: it was made, and is not in the pool.
pub record IsHeld {V : Type 0} (s : Store V) (c : ℕ) : Type 0 where
  pub made : c < s.next_call
  pub unpooled : Fresh c s.pool

pub All-put :
    {A : Type 0} (c : ℕ) (x z : A) (f : ℕ → A) (cs : List ℕ)
    → Fresh c cs
    → All (λ d. f d ≡ z) cs
    → All (λ d. put c x f d ≡ z) cs
All-put c x z f [] n h = tt
All-put c x z f (d ∷ ds) n h = (ground arith, All-put c x z f ds n.1 h.1)

pub Fresh-lt : (n : ℕ) (cs : List ℕ) → All (λ c. c < n) cs → Fresh n cs
Fresh-lt n = All-map λ c h e. omega arith

take_at-All {ℓ} :
    (P : ℕ → Type ℓ) (i : ℕ) (cs : List ℕ) {c : ℕ} {rest : List ℕ}
    → take_at i cs ≡ some (c, rest)
    → All P cs
    → P c × All P rest
unfolding take_at
take_at-All P i [] e h = cc
take_at-All P zero (d ∷ ds) e h = ground arith
take_at-All P (suc i) (d ∷ ds) e h = elim (Option-cases (take_at i ds)) [
  | inl n ↦ ground arith
  | inr (p, q) ↦ ground (arith, take_at-All P i ds {c = p.0} {rest = p.1} q h.1)
]

take_at-Distinct :
    (i : ℕ) (cs : List ℕ) {c : ℕ} {rest : List ℕ}
    → take_at i cs ≡ some (c, rest)
    → Distinct cs
    → Fresh c rest × Distinct rest
unfolding take_at
take_at-Distinct i [] e h = cc
take_at-Distinct zero (d ∷ ds) e h = ground arith
take_at-Distinct (suc i) (d ∷ ds) e h = elim (Option-cases (take_at i ds)) [
  | inl n ↦ ground arith
  | inr (p, q) ↦ ground (
    arith,
    take_at-Distinct i ds {c = p.0} {rest = p.1} q h.1,
    take_at-All (λ (x : ℕ). d ≢ x) i ds {c = p.0} {rest = p.1} q h.0,
  )
]

pub take_at-count :
    (i : ℕ) (cs : List ℕ) {x : ℕ} {rest : List ℕ} (z : ℕ)
    → take_at i cs ≡ some (x, rest)
    → count z cs ≡ count z (x ∷ rest)
unfolding take_at
take_at-count i [] z e = cc
take_at-count zero (d ∷ ds) z e = ground arith
take_at-count (suc i) (d ∷ ds) z e = elim (Option-cases (take_at i ds)) [
  | inl n ↦ ground arith
  | inr (p, q) ↦ ground (arith, take_at-count i ds {x = p.0} {rest = p.1} z q)
]

module _ {V : Type 0} where
  pub free_call-IsPooled :
      (c : ℕ) (s : Store V) → IsPooled s → IsHeld s c → IsPooled (free_call c s)
  unfolding free_call
  free_call-IsPooled c s p h = record {
    blank = (ground arith, All-put c zero_call zero_call s.calls s.pool h.unpooled p.blank);
    made = (h.made, p.made);
    distinct = (h.unpooled, p.distinct);
  }

  -- What NewCall promises of its call `c` and of the store `t` that it leaves.
  pub record IsNew (s t : Store V) (c now : ℕ) : Type 0 where
    pub zeroed : t.calls c ≡ record zero_call { start_time = now }
    pub held : IsHeld t c
    pub pooled : IsPooled t
    pub unused : (d : ℕ) → IsHeld s d → c ≢ d
    pub others : (d : ℕ) → c ≢ d → t.calls d ≡ s.calls d
    pub kept : (d : ℕ) → IsHeld s d → IsHeld t d

  stamp-IsNew :
      (i now : ℕ) (s : Store V) (o : Option (ℕ × List ℕ))
      → take_at i s.pool ≡ o
      → IsPooled s
      → IsNew s (stamp now (hand_out o s)).0 (stamp now (hand_out o s)).1 now
  unfolding hand_out stamp
  stamp-IsNew i now s none e p =
      let fresh = Fresh-lt s.next_call s.pool p.made in
      record {
        zeroed = ground arith;
        held = record { made = omega arith; unpooled = fresh };
        pooled = record {
          blank = All-put _ _ _ _ s.pool fresh (All-put _ _ _ _ s.pool fresh p.blank);
          made = All-map (λ c h. omega arith) s.pool p.made;
          distinct = p.distinct;
        };
        unused = λ d h q. absurd (omega (arith, h.made));
        others = λ d n. ground arith;
        kept = λ d h. record { made = omega (arith, h.made); unpooled = h.unpooled };
      }
  stamp-IsNew i now s (some (c, rest)) e p =
      let (fresh, distinct) = take_at-Distinct i s.pool e p.distinct in
      let (blank, blanks) = take_at-All _ i s.pool e p.blank in
      let (made, mades) = take_at-All _ i s.pool e p.made in
      record {
        zeroed = ground arith;
        held = record { made = made; unpooled = fresh };
        pooled = record {
          blank = All-put _ _ _ _ rest fresh blanks;
          made = mades;
          distinct = distinct;
        };
        unused = λ d h q. (take_at-All (λ x. d ≢ x) i s.pool e h.unpooled).0 (sym q);
        others = λ d n. ground arith;
        kept = λ d h. record {
          made = h.made;
          unpooled = (take_at-All (λ x. d ≢ x) i s.pool e h.unpooled).1;
        };
      }

  -- While the pool is in order, NewCall returns a call that is zero but for its start time and that
  -- nobody holds yet, whichever call the pool hands out; the pool stays in order, the other calls
  -- are as they were, and who held a call holds it still.
  pub new_call-IsNew :
      (i now : ℕ) (s : Store V) → IsPooled s → IsNew s (new_call i now s).0 (new_call i now s).1 now
  unfolding new_call
  new_call-IsNew i now s p = stamp-IsNew i now s (take_at i s.pool) refl p

  pub set_call-IsPooled :
      (c : ℕ) (x : TCall V) (s : Store V) → IsPooled s → IsHeld s c → IsPooled (set_call c x s)
  set_call-IsPooled c x s p h = record {
    blank = All-put c x zero_call s.calls s.pool h.unpooled p.blank;
    made = p.made;
    distinct = p.distinct;
  }
