-- ===== src/AmfCodec/Lost.antt =====
-- What ReadRequestHeader of TAmfCodec, rpc/codec.go, takes from its connection.
use gopl.Prelude.{
  ℕ, ◌≤◌, ◌<◌, ◌≡◌, refl, ap, ◌∙◌, sym, zero, suc, List, [], ◌∷◌, arith, take, drop, length,
}
use gopl.RpcError.{Result, ok}
use gopl.AmfCodec.{
  Bytes, Packages, AmfStream, TAmfCodec, amf_to_json, after_log, after_read, read_request_header,
}

-- What the library says of a connection: a Read gives of the bytes that have arrived, if any have,
-- as many as fit, and they are gone then. What a Decode gives depends on the bytes alone.
pub record IsConn {V E : Type 0} (io : AmfStream V E) (arrived : E → Bytes) : Type 0 where
  pub gives :
      (n : ℕ) (x : E) → 0 < length (arrived x) → (io.read_rwc n x).1 ≡ ok (take n (arrived x))
  pub takes :
      (n : ℕ) (x : E) → 0 < length (arrived x) → arrived (io.read_rwc n x).0 ≡ drop n (arrived x)
  pub decodes :
      (x y : E) → arrived x ≡ arrived y → (io.decode_request x).1 ≡ (io.decode_request y).1

drop_all : {A : Type 0} (n : ℕ) (l : List A) → length l ≤ n → drop n l ≡ []
drop_all zero [] h = refl
drop_all zero (a ∷ l) h = absurd (omega (arith, h))
drop_all (suc n) [] h = refl
drop_all (suc n) (a ∷ l) h = drop_all n l (omega (arith, h))

take_all : {A : Type 0} (n : ℕ) (l : List A) → length l ≤ n → take n l ≡ l
take_all zero [] h = refl
take_all zero (a ∷ l) h = absurd (omega (arith, h))
take_all (suc n) [] h = refl
take_all (suc n) (a ∷ l) h = ap (λ r. a ∷ r) (take_all n l (omega (arith, h)))

module _ {V E A : Type 0} (lib : Packages A) (empty : A) (io : AmfStream V E) (arrived : E → Bytes)
    (conn : IsConn io arrived) where
  after_read-logged :
      (x : E) (r : Result Bytes) (bytes json : Bytes)
      → r ≡ ok bytes
      → amf_to_json lib empty bytes ≡ ok json
      → after_read lib empty io (x, r) ≡ io.decode_request x
  unfolding after_read after_log
  after_read-logged x r bytes json e f = rw (e, f) refl

  -- A request whose bytes have all arrived, 1024 at most, is taken by the Read for the log: where
  -- the log succeeds, ReadRequestHeader then gives what a Decode gives on a connection on which
  -- nothing has arrived, whatever the request was.
  pub request_lost :
      (c : TAmfCodec E) (json : Bytes) (z : E)
      → 0 < length (arrived c.stream)
      → length (arrived c.stream) ≤ 1024
      → amf_to_json lib empty (arrived c.stream) ≡ ok json
      → arrived z ≡ []
      → (read_request_header lib empty io c).1 ≡ (io.decode_request z).1
  unfolding read_request_header
  request_lost c json z some_bytes small logged nothing =
      let r : E × Result Bytes = io.read_rwc 1024 c.stream in
      let bytes =
        conn.gives 1024 c.stream some_bytes ∙ ap ok (take_all 1024 (arrived c.stream) small) in
      let gone = conn.takes 1024 c.stream some_bytes ∙ drop_all 1024 (arrived c.stream) small in
      ap (λ p. p.1) (after_read-logged r.0 r.1 (arrived c.stream) json bytes logged)
      ∙ conn.decodes r.0 z (gone ∙ sym nothing)
