-- ===== src/Exchange.antt =====
-- The two ends of a connection of rpc/ together: what the server of rpc/server_conn.go writes,
-- and what it does to the calls that wait in its client of rpc/client_conn.go.
pub mod Answering
pub mod Reading
pub mod Arriving
pub mod Asking
pub mod Serving
pub mod Requests
pub mod Started
pub mod Returning
pub mod Serve
pub mod RoundTrip
mod Tests
use gopl.Prelude.{ℕ, ◌≡◌, Option, none, some, List, [], ◌∷◌, false, count, zero}
use gopl.Keys.{nat_eq}
use gopl.GoMap.{lookup, delete}
use gopl.Header.{TRequestHeader, request_is_ping}
use gopl.Call.{Store, set_call, when_call_done}
use gopl.ClientConn.{TClientConn}
use gopl.ClientConn.Receiving.{decoded}
use gopl.GobCodec.{Message, response, body}
use gopl.ServerConn.{TServerConn, TFuncCall, TServerGroupResponse, make_resp_header, returned_error}

module _ {V : Type 0} where
  -- The calls of the list are different, each has a reply and its method returned no error text, and
  -- none is a ping; the second list has the header of each request and the reply to it.
  pub data Served (calls : ℕ → TFuncCall V) : List ℕ → List (TRequestHeader × V) → Type 0 where
    nobody : Served calls [] []
    serves :
        {xs : List ℕ} {answers : List (TRequestHeader × V)} (x : ℕ) (h : TRequestHeader) (v : V)
        → (calls x).header ≡ h
        → (calls x).reply ≡ some v
        → returned_error (calls x).ret ≡ ""
        → request_is_ping h ≡ false
        → count x xs ≡ 0
        → Served calls xs answers
        → Served calls (x ∷ xs) ((h, v) ∷ answers)

  -- What is on the wire for answers: a header and its reply for each.
  abbrev pub wire : List (TRequestHeader × V) → List (Message V)
  wire [] = []
  wire ((h, v) ∷ rest) = response (make_resp_header h (some v) "") ∷ body v ∷ wire rest

  -- The responses of the group that the server makes of calls and their answers.
  abbrev pub unite : List ℕ → List (TRequestHeader × V) → List TServerGroupResponse
  unite (x ∷ xs) ((h, v) ∷ rest) =
      record { resp = make_resp_header h (some v) ""; call = x } ∷ unite xs rest
  unite _ _ = []

  -- The server's connection with these calls in an open doneChan.
  abbrev pub waiting : {S : Type 0} → List ℕ → TServerConn V S → TServerConn V S
  waiting xs c = record c { done_chan = record { buf = xs; cap = c.done_chan.cap; closed = false } }

  -- What answers do to a client, whose codec makes `merge reply v` of a reply into which `v` is
  -- decoded: each finishes the call that is pending under its number, with that reply.
  unfoldable pub answer_call : (Option V → V → Option V) → Option ℕ → V → Store V → Store V
  answer_call merge none v s = s
  answer_call merge (some x) v s =
      let reply = (s.calls x).reply in
      when_call_done x (set_call x (record (s.calls x) { reply = decoded reply (merge reply v) }) s)

  unfoldable pub answer :
      (Option V → V → Option V)
      → List (TRequestHeader × V)
      → TClientConn
      → Store V
      → TClientConn × Store V
  unfolding answer_call
  answer merge [] c s = (c, s)
  answer merge ((h, v) ∷ rest) c s =
      answer merge rest (record c { pending = delete h.seq c.pending })
        (answer_call merge (lookup h.seq c.pending) v s)
