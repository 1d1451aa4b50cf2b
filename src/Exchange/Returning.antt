-- ===== src/Exchange/Returning.antt =====
-- How the methods of the calls that RoutineRun of rpc/server_conn.go started return.
use gopl.Prelude.{
  ℕ, ◌+◌, ◌≤◌, ◌<◌, ◌≡◌, refl, ap, ◌∙◌, sym, true, false, Option, none, some, List, [], ◌∷◌, ◌++◌,
  length, length-append, map, All, arith, count, ==_iff, append_assoc, append-nil, ◌≢◌,
}
use gopl.Prelude.Run.{Run, finished, ◌>>=◌}
use gopl.Chan.{try_send}
use gopl.Header.{TRequestHeader}
use gopl.Call.{put}
use gopl.Server.{Services}
use gopl.ServerConn.{TServerConn, returned_error}
use gopl.ServerConn.Responses.{do_call, when_func_call_done, after_done}
use gopl.Exchange.{Served, nobody, serves}
use gopl.Exchange.Serving.{IsCallOf, IsCallOf-same}
use gopl.Exchange.Started.{Started}
use gopl.Exchange.Requests.{IsServed}

module _ {V : Type 0} (method : TRequestHeader → Option V → V) where
  -- The answers that the methods make.
  abbrev pub answers_of :
      (TRequestHeader → V → Option V) → List (TRequestHeader × V) → List (TRequestHeader × V)
  answers_of arg requests = map (λ p. (p.0, method p.0 (arg p.0 p.1))) requests

module _ {V S : Type 0} (method : TRequestHeader → Option V → V) where
  -- The call with the reply that its method wrote, which depends on the request and the argument.
  abbrev pub replied : ℕ → TServerConn V S → TServerConn V S
  replied x c = record c {
    calls =
        put x (record (c.calls x) { reply = some (method (c.calls x).header (c.calls x).arg) })
          c.calls;
  }

  -- A method writes its reply and returns nil, in RoutineDoCall.
  unfoldable pub return_call : ℕ → TServerConn V S → Run (TServerConn V S)
  unfolding do_call
  return_call x c = do_call x (none ∷ []) (replied x c)

  unfoldable pub return_all : List ℕ → TServerConn V S → Run (TServerConn V S)
  unfolding return_call
  return_all [] c = finished c
  return_all (x ∷ xs) c = return_call x c >>= return_all xs

  -- The connection after a call was put into doneChan.
  abbrev returned : ℕ → TServerConn V S → TServerConn V S
  returned x c = record c {
    calls = put x (record ((replied x c).calls x) { ret = none ∷ [] }) (replied x c).calls;
    done_chan = record c.done_chan { buf = c.done_chan.buf ++ x ∷ [] };
  }

  return_call-finished :
      (x : ℕ) (c : TServerConn V S)
      → (c.calls x).done ≡ true
      → c.done_chan.closed ≡ false
      → length c.done_chan.buf < c.done_chan.cap
      → return_call x c ≡ finished (returned x c)
  unfolding return_call do_call when_func_call_done after_done try_send
  return_call-finished x c d o l = ground arith

  returned-kept : (x z : ℕ) (c : TServerConn V S) → x ≢ z → (returned x c).calls z ≡ c.calls z
  returned-kept x z c n = ground (arith, ==_iff x z)

  replied-returned :
      (x : ℕ) (h : TRequestHeader) (arg : Option V) (c : TServerConn V S)
      → IsCallOf h arg x c
      → ((returned x c).calls x).reply ≡ some (method h arg)
  replied-returned x h arg c k =
      ground arith
      ∙ ap (λ r. some (method r (c.calls x).arg)) k.asked_by
      ∙ ap (λ a. some (method h a)) k.given

  returned-succeeded :
      (x : ℕ) (c : TServerConn V S) → returned_error ((returned x c).calls x).ret ≡ ""
  unfolding returned_error
  returned-succeeded x c = ground (arith, ==_iff x x)

  Started-returned :
      (arg : TRequestHeader → V → Option V) (x : ℕ) (xs : List ℕ)
      (requests : List (TRequestHeader × V)) (c : TServerConn V S)
      → count x xs ≡ 0
      → Started arg xs requests c
      → Started arg xs requests (returned x c)
  Started-returned arg x [] [] c n s = tt
  Started-returned arg x [] (q ∷ qs) c n s = s
  Started-returned arg x (y ∷ ys) [] c n s = s
  Started-returned arg x (y ∷ ys) ((h, v) ∷ qs) c n (k, once, s) = (
    IsCallOf-same h (arg h v) y c (returned x c)
        (returned-kept x y c (λ e. ground (arith, ==_iff y x))) k,
    once,
    Started-returned arg x ys qs c (omega (arith, n)) s,
  )

  -- What is left when all methods have returned.
  pub record ReturnsAll (arg : TRequestHeader → V → Option V) (xs : List ℕ)
      (requests : List (TRequestHeader × V)) (c d : TServerConn V S) : Type 0 where
    pub served : Served d.calls xs (answers_of method arg requests)
    pub chan : d.done_chan ≡ record c.done_chan { buf = c.done_chan.buf ++ xs }
    pub counted : d.pending_wg ≡ c.pending_wg
    pub wire : d.codec ≡ c.codec
    pub kept : (z : ℕ) → count z xs ≡ 0 → d.calls z ≡ c.calls z

  pub return_all-ReturnsAll :
      (services : Services) (arg : TRequestHeader → V → Option V) (xs : List ℕ)
      (requests : List (TRequestHeader × V)) (c : TServerConn V S)
      → All (λ p. IsServed services p.0) requests
      → Started arg xs requests c
      → c.done_chan.closed ≡ false
      → length c.done_chan.buf + length xs ≤ c.done_chan.cap
      → (d : TServerConn V S) × (return_all xs c ≡ finished d) × ReturnsAll arg xs requests c d
  unfolding return_all
  return_all-ReturnsAll services arg [] [] c ks s o l = (
    c,
    refl,
    record {
      served = nobody;
      chan = ap (λ b. record c.done_chan { buf = b }) (sym (append-nil c.done_chan.buf));
      counted = refl;
      wire = refl;
      kept = λ z n. refl;
    },
  )
  return_all-ReturnsAll services arg [] (q ∷ qs) c ks s o l = absurd s
  return_all-ReturnsAll services arg (x ∷ xs) [] c ks s o l = absurd s
  return_all-ReturnsAll services arg (x ∷ xs) ((h, v) ∷ qs) c (k, ks) (call, once, s) o l =
      let b = returned x c in
      let buf = c.done_chan.buf in
      let (d, run, all) =
        return_all-ReturnsAll services arg xs qs b ks (Started-returned arg x xs qs c once s) o
          (omega (arith, l, length-append buf (x ∷ []))) in
      let same = all.kept x once in
      (
        d,
        ap (λ m. m >>= return_all xs) (return_call-finished x c call.to_answer o (omega (arith, l)))
            ∙ run,
        record {
          served =
              serves x h (method h (arg h v))
                (ap (λ f. f.header) same ∙ ground arith ∙ call.asked_by)
                (ap (λ f. f.reply) same ∙ replied-returned x h (arg h v) c call)
                (ap (λ f. returned_error f.ret) same ∙ returned-succeeded x c) k.no_ping once
                all.served;
          chan = all.chan ∙ ap (λ l. record c.done_chan { buf = l }) (append_assoc buf (x ∷ []) xs);
          counted = all.counted;
          wire = all.wire;
          kept = λ z n.
              all.kept z (omega (arith, n)) ∙ returned-kept x z c (λ e. ground (arith, ==_iff x z));
        },
      )
