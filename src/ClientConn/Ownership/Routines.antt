-- ===== src/ClientConn/Ownership/Routines.antt =====
-- The two routines of a connection of rpc/client_conn.go, cut where they hold no lock: what each
-- has in its hands there, and what each piece does.
use gopl.Prelude.{
  ℕ, ◌+◌, ◌<◌, ◌≡◌, refl, inl, inr, none, some, ◌||◌, Option, List, [], ◌∷◌, ◌++◌, arith, count,
  count-append, if◌then◌else◌, Bool-cases,
}
use gopl.Keys.{nat_eq}
use gopl.GoMap.{lookup, delete}
use gopl.RpcError.{GoError, err_shutdown}
use gopl.Header.{TResponseHeader, response_is_ping}
use gopl.Call.{Store}
use gopl.ClientConn.{TClientConn, TClientGroupRequest, make_request_header}
use gopl.ClientConn.Pending.{seq_limit}
use gopl.ClientConn.Sending.{Gathered, prepend, add_request, gather, unite_package_num}
use gopl.ClientConn.Ownership.{IsOwned, input}
use gopl.ClientConn.Ownership.Moves.{register-IsOwned, unpend-IsOwned, delete-IsOwned}
use gopl.ClientConn.Ownership.Sending.{gather-IsOwned}

-- Where RoutineWriteRequst is: in its `select`, with a call from there, writing a group, cleaning
-- up after an error, about to fail a call that was pending, or at its end.
pub data Writer : Type 0 where
  selecting : Writer
  took : ℕ → Writer
  writing : List TClientGroupRequest → Writer
  cleaning : GoError → List TClientGroupRequest → Writer
  failing : GoError → ℕ → List TClientGroupRequest → Writer
  stopped : Writer

-- Where RoutineReadResponse is: reading a header, with a call that was pending for one, with a
-- header for which no call was, or at its end.
pub data Reader : Type 0 where
  reading : Reader
  answering : ℕ → TResponseHeader → Reader
  skipping : TResponseHeader → Reader
  broken : Reader

abbrev pub writer_hand : Writer → List ℕ
writer_hand (took x) = x ∷ []
writer_hand (failing e x rest) = x ∷ []
writer_hand selecting = []
writer_hand (writing group) = []
writer_hand (cleaning e group) = []
writer_hand stopped = []

abbrev pub reader_hand : Reader → List ℕ
reader_hand (answering x h) = x ∷ []
reader_hand reading = []
reader_hand (skipping h) = []
reader_hand broken = []

abbrev pub after_flush : Option GoError → List TClientGroupRequest → Writer
after_flush none group = selecting
after_flush (some e) group = cleaning e group

abbrev pub after_ping : Option GoError → Writer
after_ping none = selecting
after_ping (some e) = stopped

abbrev pub after_body : Option GoError → Reader
after_body none = reading
after_body (some e) = broken

abbrev pub after_lookup : Option ℕ → GoError → List TClientGroupRequest → Writer
after_lookup none e rest = cleaning e rest
after_lookup (some x) e rest = failing e x rest

abbrev pub taken_for : Option ℕ → TResponseHeader → Reader
taken_for none h = skipping h
taken_for (some x) h = answering x h

-- What sendGroupCall does under its mutex, after an error, for one request.
unfoldable pub lock_cleanup :
    GoError → TClientGroupRequest → List TClientGroupRequest → TClientConn → TClientConn × Writer
lock_cleanup e q rest c = (
  record c { pending = delete q.req.seq c.pending },
  after_lookup (lookup q.req.seq c.pending) e rest,
)

-- What RoutineReadResponse does under its mutex with a header that was read.
unfoldable pub lock_response : TResponseHeader → TClientConn → TClientConn × Reader
lock_response h c =
    if response_is_ping h
    then (c, reading)
    else (record c { pending = delete h.seq c.pending }, taken_for (lookup h.seq c.pending) h)

module _ {V : Type 0} where
  abbrev pub unlocked : Gathered V → TClientConn × Store V × Writer
  unlocked g = (g.conn, g.store, if g.closed then stopped else writing g.group)

  -- What sendCall does under its mutex.
  unfoldable pub lock_call : ℕ → TClientConn → Store V → TClientConn × Store V × Writer
  unfolding add_request gather
  lock_call x c s =
      let (d, r) = add_request x c s in
      if c.shutdown || c.closing
      then (c, s, failing err_shutdown x [])
      else unlocked (prepend r (gather unite_package_num d s))

  pub IsOwned-same :
      (c : TClientConn) (s : Store V) (hand hand' : List ℕ)
      → ((z : ℕ) → count z hand' ≡ count z hand)
      → IsOwned c s hand
      → IsOwned c s hand'
  IsOwned-same c s hand hand' e o = record {
    once = λ x. omega (arith, e x, o.once x);
    made = λ x h. o.made x (omega (arith, e x));
    routed = λ x h. o.routed x (omega (arith, e x));
    blank = o.blank;
    seqs = o.seqs;
    below = o.below;
  }

  unlocked-IsOwned :
      (g : Gathered V) (hand : List ℕ)
      → IsOwned g.conn g.store hand
      → let (c, s, w) = unlocked g in IsOwned c s (writer_hand w ++ hand)
  unlocked-IsOwned g hand o = elim (Bool-cases g.closed) [ inl e ↦ rw e o | inr e ↦ rw e o ]

  pub lock_call-IsOwned :
      (x : ℕ) (c : TClientConn) (s : Store V) (hand : List ℕ)
      → c.seq + 101 < seq_limit
      → IsOwned c s (x ∷ hand)
      → let (d, t, w) = lock_call x c s in IsOwned d t (writer_hand w ++ hand)
  unfolding lock_call add_request make_request_header
  lock_call-IsOwned x c s hand l o = elim (Bool-cases (c.shutdown || c.closing)) [
    | inl e ↦ rw e o
    | inr e ↦
        let (d, r) = add_request x c s in
        rw e (
          unlocked-IsOwned (prepend r (gather unite_package_num d s)) hand (
            gather-IsOwned 100 (input d s) d s hand refl (omega arith)
              (register-IsOwned x c s hand (omega arith) o)))
  ]

  cleaned-IsOwned :
      (e : GoError) (q : TClientGroupRequest) (rest : List TClientGroupRequest) (c : TClientConn)
      (s : Store V) (hand : List ℕ) (p : Option ℕ)
      → lookup q.req.seq c.pending ≡ p
      → IsOwned c s hand
      → IsOwned (lock_cleanup e q rest c).0 s (writer_hand (after_lookup p e rest) ++ hand)
  unfolding lock_cleanup
  cleaned-IsOwned e q rest c s hand none l o = delete-IsOwned q.req.seq c s hand o
  cleaned-IsOwned e q rest c s hand (some x) l o = unpend-IsOwned q.req.seq x c s hand l o

  pub lock_cleanup-IsOwned :
      (e : GoError) (q : TClientGroupRequest) (rest : List TClientGroupRequest) (c : TClientConn)
      (s : Store V) (hand : List ℕ)
      → IsOwned c s hand
      → let (d, w) = lock_cleanup e q rest c in IsOwned d s (writer_hand w ++ hand)
  unfolding lock_cleanup
  lock_cleanup-IsOwned e q rest c s hand o =
      cleaned-IsOwned e q rest c s hand (lookup q.req.seq c.pending) refl o

  taken_for-IsOwned :
      (h : TResponseHeader) (c : TClientConn) (s : Store V) (hand : List ℕ) (p : Option ℕ)
      → lookup h.seq c.pending ≡ p
      → IsOwned c s hand
      → IsOwned
          (record c { pending = delete h.seq c.pending })
          s
          (hand ++ reader_hand (taken_for p h))
  taken_for-IsOwned h c s hand none l o =
      IsOwned-same _ s hand (hand ++ []) (λ z. omega (arith, count-append z hand []))
        (delete-IsOwned h.seq c s hand o)
  taken_for-IsOwned h c s hand (some x) l o =
      IsOwned-same _ s (x ∷ hand) (hand ++ x ∷ [])
        (λ z. omega (arith, count-append z hand (x ∷ []))) (unpend-IsOwned h.seq x c s hand l o)

  pub lock_response-IsOwned :
      (h : TResponseHeader) (c : TClientConn) (s : Store V) (hand : List ℕ)
      → IsOwned c s hand
      → let (d, r) = lock_response h c in IsOwned d s (hand ++ reader_hand r)
  unfolding lock_response
  lock_response-IsOwned h c s hand o = elim (Bool-cases (response_is_ping h)) [
    | inl e ↦
        rw e (IsOwned-same c s hand (hand ++ []) (λ z. omega (arith, count-append z hand [])) o)
    | inr e ↦ rw e (taken_for-IsOwned h c s hand (lookup h.seq c.pending) refl o)
  ]
