-- ===== src/ClientConn/Ownership.antt =====
-- Who holds a call of the client's side of a connection, rpc/client_conn.go and rpc/call.go.
pub mod Moves
pub mod Sending
pub mod Receiving
pub mod Users
pub mod Routines
pub mod Steps
mod Pieces
pub mod Invariant
mod Tests
use gopl.Prelude.{
  ℕ, suc, ◌+◌, ◌≤◌, ◌<◌, ◌≡◌, refl, ap, ◌∙◌, ◌≢◌, inl, inr, none, some, Option, List, [], ◌∷◌, ◌++◌,
  map, length, arith, count, count-append, count_head, if◌then◌else◌, Bool-cases, ==_iff, ◌==◌,
}
use gopl.Keys.{nat_eq}
use gopl.GoMap.{GoMap, lookup, assign, delete}
use gopl.Chan.{Chan, sent, try_send}
use gopl.RpcError.{GoError}
use gopl.Call.{
  Store, TCall, put, zero_call, set_call, set_chan, set_error, free_call, when_call_done,
}
use gopl.Call.Completion.{when_call_done_cases}
use gopl.Client.Calls.{fail_call}
use gopl.ClientConn.{TClientConn, next_seq, make_request_header}
use gopl.ClientConn.Pending.{seq_limit}

abbrev pub seqs_of : GoMap ℕ ℕ → List ℕ
seqs_of = map λ p. p.0

abbrev pub calls_of : GoMap ℕ ℕ → List ℕ
calls_of = map λ p. p.1

-- The calls that wait in the input channel.
abbrev pub input : {V : Type 0} → TClientConn → Store V → List ℕ
input c s = (s.chans c.input_call_chan).buf

-- Each call is in the hands of a routine of the connection, waits in its input channel, is pending
-- or is pooled, once at most, in a store in which pooled calls are zero. What is not pooled is not
-- to be announced on the input channel. Pending numbers are distinct and below the next one.
pub record IsOwned {V : Type 0} (c : TClientConn) (s : Store V) (hand : List ℕ) : Type 0 where
  pub once :
      (x : ℕ)
      → count x hand + count x (input c s) + count x (calls_of c.pending) + count x s.pool ≤ 1
  pub made :
      (x : ℕ)
      → 1 ≤ count x hand + count x (input c s) + count x (calls_of c.pending) + count x s.pool
      → x < s.next_call
  pub routed :
      (x : ℕ)
      → 1 ≤ count x hand + count x (input c s) + count x (calls_of c.pending)
      → (s.calls x).done ≢ some c.input_call_chan
  pub blank : (x : ℕ) → 1 ≤ count x s.pool → s.calls x ≡ zero_call
  pub seqs : (k : ℕ) → count k (seqs_of c.pending) ≤ 1
  pub below : (k : ℕ) → 1 ≤ count k (seqs_of c.pending) → k < c.seq

pub count-assign :
    (k v : ℕ) (m : GoMap ℕ ℕ)
    → count k (seqs_of m) ≡ 0
    → ((z : ℕ) → count z (calls_of (assign k v m)) ≡ count z (v ∷ calls_of m))
      × ((j : ℕ) → count j (seqs_of (assign k v m)) ≡ count j (k ∷ seqs_of m))
unfolding assign
count-assign k v [] h = (λ z. refl, λ j. refl)
count-assign k v ((i, w) ∷ m) h = elim (Bool-cases (i == k)) [
  | inl e ↦ absurd (ground arith)
  | inr e ↦
      let (a, b) = count-assign k v m (ground arith) in
      rw e (λ z. omega (arith, a z), λ j. omega (arith, b j))
]

pub count-delete :
    (k : ℕ) (m : GoMap ℕ ℕ)
    → ((z : ℕ) → count z (calls_of (delete k m)) ≤ count z (calls_of m))
      × ((j : ℕ) → count j (seqs_of (delete k m)) ≤ count j (seqs_of m))
unfolding delete
count-delete k [] = (λ z. omega arith, λ j. omega arith)
count-delete k ((i, w) ∷ m) =
    let (a, b) = count-delete k m in
    elim (Bool-cases (i == k)) [
      | inl e ↦ rw e (λ z. omega (arith, a z), λ j. omega (arith, b j))
      | inr e ↦ rw e (λ z. omega (arith, a z), λ j. omega (arith, b j))
    ]

pub count-delete_found :
    (k v : ℕ) (m : GoMap ℕ ℕ)
    → lookup k m ≡ some v
    → (z : ℕ) → count z (v ∷ calls_of (delete k m)) ≤ count z (calls_of m)
unfolding delete lookup
count-delete_found k v [] h z = cc
count-delete_found k v ((i, w) ∷ m) h z = elim (Bool-cases (i == k)) [
  | inl e ↦ ground (arith, (count-delete k m).0 z)
  | inr e ↦
      let found : lookup k m ≡ some v = ground arith in
      rw e (omega (arith, count-delete_found k v m found z))
]
