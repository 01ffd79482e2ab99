-- ===== src/CmdOps/Options.antt =====
-- The option structures of include/redisdal/common.hpp for streams.
use redisdal.Prelude.{ℕ, Bool, false, Option, none}
use redisdal.Prelude.Int.{ℤ}
use redisdal.Text.{Bytes, text}
use redisdal.Text.Decimal.{decimal}

pub data StreamTrimStrategy : Type 0 where
  maxlen minid : StreamTrimStrategy

pub record StreamTrimOptions : Type 0 where
  pub strategy : StreamTrimStrategy
  pub threshold : Bytes
  pub approximate : Bool
  pub limit : Option ℤ

-- The factories `stream_trim_options::maxlen` and `minid`.
unfoldable pub trim_maxlen : ℕ → Bool → Option ℤ → StreamTrimOptions
trim_maxlen max_length approximate limit = record {
  strategy = maxlen;
  threshold = decimal max_length;
  approximate = approximate;
  limit = limit;
}

unfoldable pub trim_minid : Bytes → Bool → Option ℤ → StreamTrimOptions
trim_minid minimum_id approximate limit = record {
  strategy = minid;
  threshold = minimum_id;
  approximate = approximate;
  limit = limit;
}

pub record StreamAddOptions : Type 0 where
  pub id : Bytes
  pub nomkstream : Bool
  pub trim : Option StreamTrimOptions

-- The members' default initialisers.
abbrev pub default_add_options : StreamAddOptions
default_add_options = record { id = text "*"; nomkstream = false; trim = none }

pub record StreamReadOptions : Type 0 where
  pub count : Option ℤ
  pub block_ms : Option ℤ

pub record StreamReadGroupOptions : Type 0 where
  pub count : Option ℤ
  pub block_ms : Option ℤ
  pub noack : Bool

pub record StreamReadRequest {ℓ} (K : Type ℓ) : Type ℓ where
  pub key : K
  pub id : Bytes

abbrev pub StringStreamReadRequest : Type 0
StringStreamReadRequest = StreamReadRequest Bytes
