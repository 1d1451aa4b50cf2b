-- ===== src/ServerConn/Stream.antt =====
-- What the server writes for a response, and what its client then reads.
use text.Mathlib.Text.{◌==◌ as text_beq}
use Prim.Native.Nat.{bit_and}
use gopl.Prelude.{
  ℕ, ◌+◌, ◌≤◌, ◌<◌, ◌≡◌, refl, ap, ◌∙◌, true, false, not, Option, none, some, List, [], ◌∷◌, ◌++◌,
  append_assoc, arith, if◌then◌else◌, String, Bool, ◌&&◌, ◌==◌, ltb, if-false, ltb-false, and-false,
  ◌-◌,
}
use gopl.Prelude.Run.{finished, ◌>>=◌}
use gopl.RpcError.{GoError, error_text}
use gopl.Header.{
  TRequestHeader, TResponseHeader, has_data, response_is_ping, request_is_ping, response_flag_null,
  response_flag_ping, response_flag_no_data,
}
use gopl.ClientConn.{ConnState}
use gopl.ClientConn.Receiving.{skip_body}
use gopl.GobCodec.{
  Message, response, body, Stream, TGobCodec, put_message, then_body, put_body, give_up,
  write_response, flush, server_codec, client_codec,
}
use gopl.ServerConn.{
  TServerConn, make_resp_header, returned_error, free_func_call, add_flag, is_nil,
}
use gopl.ServerConn.Responses.{
  wg_done, do_call_response, send_response, write_one, write_all, send_group_response,
  flush_if_written,
}

-- The two flags of a response can be read back whichever are set.
flags_table :
    (b p : Bool)
    → let f = add_flag b response_flag_no_data (add_flag p response_flag_ping response_flag_null) in
      ((bit_and f response_flag_no_data == 0) ≡ not b) × (ltb 0 (bit_and f response_flag_ping) ≡ p)
flags_table true true = (refl, refl)
flags_table true false = (refl, refl)
flags_table false true = (refl, refl)
flags_table false false = (refl, refl)

dropped_reply :
    {V : Type 0} (b : Bool) (o : Option V)
    → not (is_nil (if not b then none else o)) ≡ (b && not (is_nil o))
dropped_reply true o = refl
dropped_reply false o = refl

-- A response's header says that data follows exactly if there is a reply and no error text, and
-- that it answers a ping exactly if the request was one.
pub has_data-make_resp_header :
    {V : Type 0} (h : TRequestHeader) (reply : Option V) (errmsg : String)
    → (has_data (make_resp_header h reply errmsg) ≡ (text_beq errmsg "" && not (is_nil reply)))
      × (response_is_ping (make_resp_header h reply errmsg) ≡ request_is_ping h)
unfolding make_resp_header has_data response_is_ping
has_data-make_resp_header h reply errmsg =
    let b = is_nil (if not (text_beq errmsg "") then none else reply) in
    let (data_flag, ping_flag) = flags_table b (request_is_ping h) in
    (data_flag ∙ dropped_reply (text_beq errmsg "") reply, ping_flag)

-- What the library needs of a stream that works: encoding does not fail, and what was encoded
-- stays in order, also when the buffer is flushed.
pub record IsReliable {V E : Type 0} (io : Stream V E) (sent : E → List (Message V)) : Type 0 where
  pub encodes : (x : E) (m : Message V) → (io.encode x m).1 ≡ none
  pub appends : (x : E) (m : Message V) → sent (io.encode x m).0 ≡ sent x ++ m ∷ []
  pub keeps : (x : E) → sent (io.flush_buffer x).0 ≡ sent x

freed_or_not :
    {V S : Type 0} (b : Bool) (call : ℕ) (c : TServerConn V S)
    → let d = if b then free_func_call call c else c in
      (d.codec ≡ c.codec) × (d.pending_wg ≡ c.pending_wg)
unfolding free_func_call
freed_or_not true call c = (refl, refl)
freed_or_not false call c = (refl, refl)

pub wg_done-fine :
    {V S : Type 0} (n : ℕ) (c : TServerConn V S)
    → n ≤ c.pending_wg
    → wg_done n c ≡ finished (record c { pending_wg = c.pending_wg - n })
unfolding wg_done
wg_done-fine n c h = if-false _ _ _ (ltb-false c.pending_wg n h)

module _ {V E : Type 0} (io : Stream V E) (sent : E → List (Message V))
    (reliable : IsReliable io sent) where
  -- The codec after one message.
  abbrev pub put_one : Message V → TGobCodec E → TGobCodec E
  put_one m c = record c { stream = (io.encode c.stream m).0 }

  pub put_message-fine :
      (m : Message V) (c : TGobCodec E) → put_message io m c ≡ (put_one m c, none)
  unfolding put_message
  put_message-fine m c = ap (λ e. (put_one m c, e)) (reliable.encodes c.stream m)

  write_response-fine :
      (c : TGobCodec E) (h : TResponseHeader) (v : V)
      → write_response io c h (some v) ≡ (put_one (body v) (put_one (response h) c), none)
  unfolding write_response put_message then_body put_body give_up
  write_response-fine c h v =
      ap (λ p. give_up io (then_body io (some v) p)) (put_message-fine (response h) c)
      ∙ ap (give_up io) (put_message-fine (body v) (put_one (response h) c))

  write_response-fine_nil :
      (c : TGobCodec E) (h : TResponseHeader)
      → write_response io c h none ≡ (put_one (response h) c, none)
  unfolding write_response put_message then_body put_body give_up
  write_response-fine_nil c h =
      ap (λ p. give_up io (then_body io none p)) (put_message-fine (response h) c)

  pub sent-put_two :
      (m n : Message V) (c : TGobCodec E)
      → sent (put_one n (put_one m c)).stream ≡ sent c.stream ++ m ∷ n ∷ []
  sent-put_two m n c =
      reliable.appends (put_one m c).stream n
      ∙ ap (λ l. l ++ n ∷ []) (reliable.appends c.stream m)
      ∙ append_assoc (sent c.stream) (m ∷ []) (n ∷ [])

  pub sent-flush : (c : TGobCodec E) → sent (flush io c).0.stream ≡ sent c.stream
  unfolding flush
  sent-flush c = reliable.keeps c.stream

  -- On a stream that works, and while a request is pending, SendResponse without a reply writes a
  -- header that announces no data, and no body after it, and one request less is pending.
  pub send_response-sent :
      (h : TRequestHeader) (errmsg : String) (c : TServerConn V (TGobCodec E))
      → 0 < c.pending_wg
      → let r = make_resp_header {V = V} h none errmsg in
        (d : TServerConn V (TGobCodec E)) × (send_response (server_codec io) h none errmsg c
          ≡ finished d)
        × (sent d.codec.stream ≡ sent c.codec.stream ++ response r ∷ [])
        × (has_data r ≡ false)
        × (d.pending_wg + 1 ≡ c.pending_wg)
  unfolding send_response flush_if_written
  send_response-sent h errmsg c l =
      let r = make_resp_header {V = V} h none errmsg in
      let x = (flush io (put_one (response r) c.codec)).0 in
      (
        record c { codec = x; pending_wg = c.pending_wg - 1 },
        ap (λ p. wg_done 1 (record c { codec = flush_if_written (server_codec io) p }))
              (write_response-fine_nil c.codec r)
            ∙ wg_done-fine 1 (record c { codec = x }) l,
        sent-flush (put_one (response r) c.codec) ∙ reliable.appends c.codec.stream (response r),
        (has_data-make_resp_header {V = V} h none errmsg).0 ∙ and-false (text_beq errmsg ""),
        omega arith,
      )

  -- The connection after SendGroupResponse wrote one response.
  abbrev pub wrote :
      TResponseHeader → ℕ → V → TServerConn V (TGobCodec E) → TServerConn V (TGobCodec E)
  wrote h call v c =
      let x = record c { codec = (write_response io c.codec h (some v)).0 } in
      if (c.calls call).done then free_func_call call x else x

  send_group_response-one :
      (h : TResponseHeader) (call : ℕ) (v : V) (c : TServerConn V (TGobCodec E))
      → (c.calls call).reply ≡ some v
      → send_group_response (server_codec io) (record { resp = h; call = call } ∷ []) c
        ≡ wg_done 1 (record (wrote h call v c) { codec = (flush io (wrote h call v c).codec).0 })
  unfolding send_group_response write_all write_one
  send_group_response-one h call v c r =
      ap
        (λ o.
          (write_one (server_codec io) (record { resp = h; call = call }) o c
            >>= write_all (server_codec io) [])
          >>= λ d. wg_done 1 (record d { codec = (flush io d.codec).0 }))
        r

  pub sent-wrote :
      (h : TResponseHeader) (call : ℕ) (v : V) (c : TServerConn V (TGobCodec E))
      → (sent (wrote h call v c).codec.stream ≡ sent c.codec.stream ++ response h ∷ body v ∷ [])
        × ((wrote h call v c).pending_wg ≡ c.pending_wg)
  sent-wrote h call v c =
      let x = record c { codec = (write_response io c.codec h (some v)).0 } in
      let (codec, wg) = freed_or_not (c.calls call).done call x in
      (
        ap (λ (y : TGobCodec E). sent y.stream)
              (codec ∙ ap (λ p. p.0) (write_response-fine c.codec h v))
            ∙ sent-put_two (response h) (body v) c.codec,
        wg,
      )

  -- On a stream that works, for a call whose method returned an error with a text, in a group of one:
  -- the header announces no data, but the reply is written behind it, and the client, which skips
  -- no body after such a header, leaves the reply in front of the next header.
  pub group_error_desync :
      (call : ℕ) (v : V) (e : GoError) (rest : List (Option GoError))
      (c : TServerConn V (TGobCodec E)) (σ : ConnState V (TGobCodec E))
      → (c.calls call).reply ≡ some v
      → (c.calls call).ret ≡ some e ∷ rest
      → text_beq (error_text e) "" ≡ false
      → 0 < c.pending_wg
      → (h : TResponseHeader) × (d : TServerConn V (TGobCodec E)) × (do_call_response (c.calls call)
          ≡ finished h)
        × (send_group_response (server_codec io) (record { resp = h; call = call } ∷ []) c
            ≡ finished d)
        × (has_data h ≡ false)
        × (sent d.codec.stream ≡ sent c.codec.stream ++ response h ∷ body v ∷ [])
        × (skip_body (client_codec io) h σ ≡ (σ, none))
  unfolding do_call_response skip_body returned_error
  group_error_desync call v e rest c σ r t n l =
      let h = make_resp_header (c.calls call).header (some v) (error_text e) in
      let d = record (wrote h call v c) { codec = (flush io (wrote h call v c).codec).0 } in
      let (written, wg) = sent-wrote h call v c in
      let no_data : has_data h ≡ false =
        (has_data-make_resp_header (c.calls call).header (some v) (error_text e)).0
        ∙ ap (λ b. b && true) n in
      (
        h,
        record d { pending_wg = d.pending_wg - 1 },
        rw (r, t),
        send_group_response-one h call v c r ∙ wg_done-fine 1 d (omega (arith, wg)),
        no_data,
        sent-flush (wrote h call v c).codec ∙ written,
        if-false _ _ _ no_data,
      )
