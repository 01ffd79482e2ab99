-- ===== src/Client/Safe.antt =====
-- Over an executor that answers with well-formed replies, no method of `redis_client` does anything
-- undefined: the rules for its methods.
mod Decoders
mod Arguments
pub mod Keys
pub mod Strings
pub mod Hashes
pub mod Lists
pub mod Sets
pub mod SortedSets
pub mod Streams
pub mod Scripts
pub mod EveryMethod
use redisdal.Prelude.{
  ℕ, suc, Bool, true, false, not, Option, none, some, List, [], ◌∷◌, ◌++◌, map, length, length-map,
  ◌≡◌, refl, ap, ◌∙◌, sym, arith, All, ◌==◌, if◌then◌else◌,
}
use redisdal.Prelude.Int.{pos, ltb_ℤ}
use redisdal.Text.{Bytes, text, same_text}
use redisdal.Errors
use redisdal.Errors.{Error, Result, ok, err, ◌>>=◌}
use redisdal.Serialization.{DoubleChars}
use redisdal.Reply.{CmdReply, Double, get_type, status, integer, same_type}
use redisdal.Reply.Decode.{as_array, cursor_of, scan_cursor, StringMap, or_throw}
use redisdal.Reply.WellFormed.{IsWellFormed}
use redisdal.Reply.Ensures.{
  Ensures, IsException, ensures_ok, ensures_err, Any, Ensures-if, Ensures-bind,
}
use redisdal.Reply.Defined.{
  as_integer-Defined, as_array-WellFormed, status_is_ok-Defined, optional_string-Defined,
  strings-Defined, hash-Defined, optional_score-Defined, cursor_of-Defined, or_throw-WellFormed,
}
use redisdal.Client.Safe.Decoders.{
  integer_is_one-Defined, set_succeeded-Defined, hset_succeeded-Defined, new_score-Defined,
  found_keys-Defined, scanned_keys-Defined, scanned_fields-Defined, field_values-Defined,
}
use redisdal.Client.Safe.Arguments.{
  append_stream_count-Defined, append_stream_trim-Defined, xadd_arguments-Defined,
  xread_arguments-Defined, xreadgroup_arguments-Defined, to_string_double-Defined,
  score_arguments-Defined, script_arguments-Defined, loaded_sha-Defined,
}
use redisdal.Reply.Defined.{
  as_text-Defined, as_status-Defined, scores-Defined, stream_entries-Defined,
  stream_batches-Defined,
}
use redisdal.Reply.WellFormed.{make_nil-IsWellFormed, make_signed_integer-IsWellFormed}
use redisdal.Exec
use redisdal.Exec.{Exec, Executor, pure, raise, lift, continue}
use redisdal.Client.Requests.{
  received, integer_is_one, set_succeeded, hset_succeeded, score_or_unexpected, new_score, second,
  scan_page, assign, assign_all, each_optional, field_values, found_keys, scanned_keys,
  scanned_fields,
}

module _ {S : Type 0} (connection : Executor S) where
  open connection use {cmd_execv}

  -- The executor's promise: its answers are well-formed replies or exceptions.
  abbrev pub AnswersWellFormed : Type 0
  AnswersWellFormed = (argv : List Bytes) (s : S) → Ensures IsWellFormed (cmd_execv argv s).0

  -- In every state the result of `m` satisfies `P`, or is an exception.
  pub record Safe {A : Type 0} (P : A → Type 0) (m : Exec S A) : Type 0 where
    pub at : (s : S) → Ensures P (m s).0

  module _ {A : Type 0} {P : A → Type 0} where
    pub Safe-pure : (a : A) → P a → Safe P (pure a)
    unfolding pure
    Safe-pure a h = record { at = λ s. ensures_ok a h }

    pub Safe-raise : (e : Error) → IsException e → Safe P (raise e)
    unfolding raise
    Safe-raise e h = record { at = λ s. ensures_err e h }

    pub Safe-if : (b : Bool) (m n : Exec S A) → Safe P m → Safe P n → Safe P (if b then m else n)
    Safe-if true m n h k = h
    Safe-if false m n h k = k

    pub Safe-lift : (r : Result A) → Ensures P r → Safe P (lift r)
    unfolding lift
    Safe-lift r h = record { at = λ s. h }

  module _ {A B : Type 0} {P : A → Type 0} {Q : B → Type 0} where
    continue-Safe :
        (p : Result A × S) (f : A → Exec S B)
        → Ensures P p.0
        → ((a : A) → P a → Safe Q (f a))
        → Ensures Q (continue p.0 f p.1).0
    continue-Safe (ok a, s) f (ensures_ok _ h) k = (k a h).at s
    continue-Safe (err e, s) f (ensures_err _ h) k = ensures_err e h

    pub Safe-bind :
        (m : Exec S A) (f : A → Exec S B)
        → Safe P m
        → ((a : A) → P a → Safe Q (f a))
        → Safe Q (Exec.◌>>=◌ m f)
    unfolding Exec.◌>>=◌
    Safe-bind m f h k = record { at = λ s. continue-Safe (m s) f (h.at s) k }

  -- The two ways in which the methods chain: arguments that may throw, and a command.
  pub Safe-bind_lift :
      {A B : Type 0} {Q : B → Type 0} (r : Result A) (f : A → Exec S B)
      → Ensures Any r
      → ((a : A) → Safe Q (f a))
      → Safe Q (Exec.◌>>=◌ (lift r) f)
  Safe-bind_lift r f h k = Safe-bind (lift r) f (Safe-lift r h) (λ a _. k a)

  pub Safe-bind_command :
      {B : Type 0} {Q : B → Type 0}
      → AnswersWellFormed
      → (argv : List Bytes) (f : CmdReply → Exec S B)
      → ((r : CmdReply) → IsWellFormed r → Safe Q (f r))
      → Safe Q (Exec.◌>>=◌ (cmd_execv argv) f)
  Safe-bind_command wf argv f k = Safe-bind (cmd_execv argv) f (record { at = wf argv }) k

  pub Safe-received :
      {A : Type 0} (m : Exec S CmdReply) (decode : CmdReply → Result A)
      → Safe IsWellFormed m
      → ((r : CmdReply) → IsWellFormed r → Ensures Any (decode r))
      → Safe Any (received m decode)
  unfolding received
  Safe-received m decode h k =
      Safe-bind m _ h (λ r w. Safe-lift _ (Ensures-bind decode (or_throw-WellFormed r w) k))

  pub Safe-cmd_execv : AnswersWellFormed → (argv : List Bytes) → Safe IsWellFormed (cmd_execv argv)
  Safe-cmd_execv wf argv = record { at = wf argv }

pub ruleset safe_rules = (
  Safe-received, Safe-if, Safe-pure, Safe-raise, Safe-bind_lift, Safe-bind_command, Safe-lift,
  Safe-cmd_execv,
)

pub ruleset defined_rules = (
  integer_is_one-Defined, set_succeeded-Defined, hset_succeeded-Defined, new_score-Defined,
  found_keys-Defined, scanned_keys-Defined, scanned_fields-Defined, field_values-Defined,
  as_text-Defined, as_status-Defined, as_integer-Defined, status_is_ok-Defined,
  optional_string-Defined, strings-Defined, hash-Defined, optional_score-Defined, scores-Defined,
  stream_entries-Defined, stream_batches-Defined, append_stream_count-Defined,
  append_stream_trim-Defined, xadd_arguments-Defined, xread_arguments-Defined,
  xreadgroup_arguments-Defined, to_string_double-Defined, score_arguments-Defined,
  script_arguments-Defined, loaded_sha-Defined, make_nil-IsWellFormed,
  make_signed_integer-IsWellFormed,
)
