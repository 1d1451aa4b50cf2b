-- ===== src/Header.antt =====
-- rpc/type.go: the headers of requests and responses, and their flags (uint32 bit sets).
use Prim.Native.Nat.{bit_and}
use gopl.Prelude.{ℕ, Bool, String, ltb, ◌==◌}

-- `1 << iota` in the second and third line of each block.
abbrev pub request_flag_null : ℕ
request_flag_null = 0

abbrev pub request_flag_ping : ℕ
request_flag_ping = 2

abbrev pub request_flag_dummy_return : ℕ
request_flag_dummy_return = 4

abbrev pub response_flag_null : ℕ
response_flag_null = 0

abbrev pub response_flag_ping : ℕ
response_flag_ping = 2

abbrev pub response_flag_no_data : ℕ
response_flag_no_data = 4

abbrev pub ping_method : String
ping_method = "ping"

pub record TRequestHeader : Type 0 where
  pub service_method : String
  pub seq : ℕ
  pub flag : ℕ

pub record TResponseHeader : Type 0 where
  pub service_method : String
  pub seq : ℕ
  pub error_msg : String
  pub flag : ℕ

unfoldable pub request_is_ping : TRequestHeader → Bool
request_is_ping h = ltb 0 (bit_and h.flag request_flag_ping)

unfoldable pub dummy_return : TRequestHeader → Bool
dummy_return h = ltb 0 (bit_and h.flag request_flag_dummy_return)

unfoldable pub response_is_ping : TResponseHeader → Bool
response_is_ping h = ltb 0 (bit_and h.flag response_flag_ping)

unfoldable pub has_data : TResponseHeader → Bool
has_data h = bit_and h.flag response_flag_no_data == 0
