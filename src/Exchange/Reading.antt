-- ===== src/Exchange/Reading.antt =====
-- What RoutineReadResponse of rpc/client_conn.go makes of answers on the wire.
use text.Mathlib.Text.{◌==◌ as text_beq}
use gopl.Prelude.{
  ℕ, suc, ◌+◌, ◌≡◌, refl, ap, ◌∙◌, sym, true, false, Option, none, some, List, [], ◌∷◌, ◌++◌,
  length, All, arith,
}
use gopl.Prelude.Run.{finished}
use gopl.Keys.{nat_eq}
use gopl.GoMap.{lookup, delete}
use gopl.RpcError.{GoError, ok}
use gopl.Header.{TRequestHeader, TResponseHeader, request_is_ping, has_data}
use gopl.Call.{Store, set_call}
use gopl.ClientConn.{TClientConn, ConnState}
use gopl.ClientConn.Receiving.{
  decoded, skip_body, read_body, wrap_error, note_error, dispatch, on_header, after_header,
  read_round, read_responses,
}
use gopl.GobCodec.{Message, response, body, Stream, TGobCodec, client_codec, read_response_header}
use gopl.ServerConn.{make_resp_header}
use gopl.ServerConn.Stream.{has_data-make_resp_header}
use gopl.Exchange.{wire, answer, answer_call}

-- What the library says of a stream from which messages arrive in order: a header is read where
-- one arrived, and a body makes `merge reply v` of the reply that it is read into.
pub record IsWire {V E : Type 0} (io : Stream V E) (merge : Option V → V → Option V)
    (arrived : E → List (Message V)) : Type 0 where
  pub headers :
      (x : E) (h : TResponseHeader) (rest : List (Message V))
      → arrived x ≡ response h ∷ rest
      → ((io.decode_response x).1 ≡ ok h) × (arrived (io.decode_response x).0 ≡ rest)
  pub bodies :
      (x : E) (v : V) (rest : List (Message V)) (o : Option V)
      → arrived x ≡ body v ∷ rest
      → ((io.decode_body x o).1 ≡ merge o v)
        × ((io.decode_body x o).2 ≡ none)
        × (arrived (io.decode_body x o).0 ≡ rest)

-- A client whose connection, store and arrived messages are these.
pub record IsClient {V E : Type 0} (arrived : E → List (Message V)) (c : TClientConn) (s : Store V)
    (rest : List (Message V)) (τ : ConnState V (TGobCodec E)) : Type 0 where
  pub conn : τ.conn ≡ c
  pub store : τ.store ≡ s
  pub left : arrived τ.codec.stream ≡ rest

module _ {V E : Type 0} (io : Stream V E) (merge : Option V → V → Option V)
    (arrived : E → List (Message V)) (is_wire : IsWire io merge arrived) where
  -- The connection after its codec read a body.
  abbrev after_body : Option V → ConnState V (TGobCodec E) → ConnState V (TGobCodec E)
  after_body o σ = record σ {
    codec = record σ.codec { stream = (io.decode_body σ.codec.stream o).0 };
  }

  skip_body-answer :
      (h : TResponseHeader) (σ : ConnState V (TGobCodec E))
      → has_data h ≡ true
      → (io.decode_body σ.codec.stream none).2 ≡ none
      → skip_body (client_codec io) h σ ≡ (after_body none σ, none)
  unfolding skip_body wrap_error gopl.GobCodec.read_body
  skip_body-answer h σ has n = rw (has, n) refl

  read_body-answer :
      (x : ℕ) (h : TResponseHeader) (w : Option V) (σ : ConnState V (TGobCodec E))
      → has_data h ≡ true
      → let call = σ.store.calls x in
        (io.decode_body σ.codec.stream call.reply).1 ≡ w
        → (io.decode_body σ.codec.stream call.reply).2 ≡ none
        → read_body (client_codec io) x h σ ≡ (
          record (after_body call.reply σ) {
            store = set_call x (record call { reply = decoded call.reply w }) σ.store;
          },
          none,
        )
  unfolding read_body note_error wrap_error gopl.GobCodec.read_body
  read_body-answer x h w σ has b n = rw (has, b, n) refl

  dispatch-answer :
      (o : Option ℕ) (h : TResponseHeader) (v : V) (rest : List (Message V))
      (σ : ConnState V (TGobCodec E))
      → has_data h ≡ true
      → text_beq h.error_msg "" ≡ true
      → arrived σ.codec.stream ≡ body v ∷ rest
      → (τ : ConnState V (TGobCodec E)) × (dispatch (client_codec io) o h σ ≡ (τ, none))
        × IsClient arrived σ.conn (answer_call merge o v σ.store) rest τ
  unfolding dispatch answer_call
  dispatch-answer none h v rest σ has ok_text a =
      let (b, n, l) = is_wire.bodies σ.codec.stream v rest none a in
      (
        after_body none σ,
        skip_body-answer h σ has n,
        record { conn = refl; store = refl; left = l },
      )
  dispatch-answer (some x) h v rest σ has ok_text a =
      let reply = (σ.store.calls x).reply in
      let (b, n, l) = is_wire.bodies σ.codec.stream v rest reply a in
      (
        record (after_body reply σ) { store = answer_call merge (some x) v σ.store },
        rw (ok_text, read_body-answer x h (merge reply v) σ has b n) refl,
        record { conn = refl; store = refl; left = l },
      )

  answered-agree :
      (answers : List (TRequestHeader × V)) (rest : List (Message V)) (c d : TClientConn)
      (s t : Store V) (τ : ConnState V (TGobCodec E))
      → c ≡ d
      → s ≡ t
      → let a = answer merge answers c s in
        let b = answer merge answers d t in
        IsClient arrived a.0 a.1 rest τ → IsClient arrived b.0 b.1 rest τ
  answered-agree answers rest c d s t τ e f client = rw (sym e, sym f) client

  -- A round that reads the first of the answers that arrived.
  read_round-answer :
      (h : TRequestHeader) (v : V) (rest : List (Message V)) (σ : ConnState V (TGobCodec E))
      → request_is_ping h ≡ false
      → arrived σ.codec.stream ≡ wire ((h, v) ∷ []) ++ rest
      → (τ : ConnState V (TGobCodec E)) × (read_round (client_codec io) σ ≡ (τ, none))
        × IsClient arrived
            (record σ.conn { pending = delete h.seq σ.conn.pending })
            (answer_call merge (lookup h.seq σ.conn.pending) v σ.store)
            rest
            τ
  unfolding read_round after_header on_header read_response_header make_resp_header
  read_round-answer h v rest σ p a =
      let r = make_resp_header h (some v) "" in
      let (has, kind) = has_data-make_resp_header h (some v) "" in
      let (head, left) = is_wire.headers σ.codec.stream r (body v ∷ rest) a in
      let read = record σ {
        conn = record σ.conn { pending = delete r.seq σ.conn.pending };
        codec = record σ.codec { stream = (io.decode_response σ.codec.stream).0 };
      } in
      let (τ, run, client) =
        dispatch-answer (lookup r.seq σ.conn.pending) r v rest read has refl left in
      (τ, rw (head, kind ∙ p) run, client)

  read_responses-next :
      (fuel : ℕ) (σ τ : ConnState V (TGobCodec E))
      → read_round (client_codec io) σ ≡ (τ, none)
      → read_responses (client_codec io) (suc fuel) σ ≡ read_responses (client_codec io) fuel τ
  unfolding read_responses
  read_responses-next fuel σ τ run =
      ap
        (λ (p : ConnState V (TGobCodec E) × Option GoError).
          let go = read_responses (client_codec io) fuel p.0 in
          elim p.1 [ none ↦ go | some error ↦ finished (p.0, error) ])
        run

  pub read_responses-answers :
      (answers : List (TRequestHeader × V)) (rest : List (Message V)) (fuel : ℕ)
      (σ : ConnState V (TGobCodec E))
      → All (λ p. request_is_ping p.0 ≡ false) answers
      → arrived σ.codec.stream ≡ wire answers ++ rest
      → (τ : ConnState V (TGobCodec E)) × (read_responses
            (client_codec io)
            (length answers + fuel)
            σ
          ≡ read_responses (client_codec io) fuel τ)
        × IsClient arrived
            (answer merge answers σ.conn σ.store).0
            (answer merge answers σ.conn σ.store).1
            rest
            τ
  unfolding answer
  read_responses-answers [] rest fuel σ p a = (
    σ,
    ap (λ n. read_responses (client_codec io) n σ) (omega arith),
    record { conn = refl; store = refl; left = a },
  )
  read_responses-answers ((h, v) ∷ answers) rest fuel σ (p, ps) a =
      let (τ, run, first) = read_round-answer h v (wire answers ++ rest) σ p a in
      let (υ, runs, client) = read_responses-answers answers rest fuel τ ps first.left in
      (
        υ,
        ap (λ n. read_responses (client_codec io) n σ) (omega arith)
            ∙ read_responses-next (length answers + fuel) σ τ run
            ∙ runs,
        answered-agree answers rest τ.conn _ τ.store _ υ first.conn first.store client,
      )
