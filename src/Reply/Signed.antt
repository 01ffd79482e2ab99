-- ===== src/Reply/Signed.antt =====
-- Signed integers through `make_signed_integer` and back.
use redisdal.Prelude.{◌-◌, ◌^◌, ◌<◌, ◌≡◌, some, arith}
use redisdal.Prelude.Int.{ℤ, pos, negsuc, ◌≤ℤ◌}
use redisdal.Text.{Bytes}
use redisdal.Errors.{ok}
use redisdal.Reply.{make_signed_integer, get_integer, get_signed_integer, to_uint64}
use redisdal.Reply.Decode.{as_integer}

-- The value of an `int64_t`.
abbrev pub IsInt64 : ℤ → Type 0
IsInt64 v = (negsuc (2 ^ 63 - 1) ≤ℤ v) × (v ≤ℤ pos (2 ^ 63 - 1))

-- For every `int64_t` v, the signed view of `make_signed_integer v`, and `as_integer` of it under any
-- command name, give v, and the unsigned view gives v modulo 2^64, below 2^64.
pub signed_view_round_trip :
    (v : ℤ) (command : Bytes)
    → IsInt64 v
    → (get_signed_integer (make_signed_integer v) ≡ some v)
      × (as_integer (make_signed_integer v) command ≡ ok v)
      × (get_integer (make_signed_integer v) ≡ some (to_uint64 v))
      × (to_uint64 v < 2 ^ 64)
unfolding make_signed_integer get_signed_integer get_integer as_integer
signed_view_round_trip (pos n) command h = ground arith
signed_view_round_trip (negsuc n) command h = ground arith
