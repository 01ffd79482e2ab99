-- ===== src/Reply/Defined.antt =====
-- On a well-formed reply no decoder of src/cmd_reply.cpp does anything undefined.
use redisdal.Prelude.{
  ◌%◌, Bool, true, false, ◌||◌, Option, none, some, List, [], ◌∷◌, ◌≡◌, arith, All, length, ◌==◌,
  leb, ◌^◌, ◌-◌, if◌then◌else◌,
}
use redisdal.Text.{Bytes, text}
use redisdal.Errors.{Error, undefined_behaviour, Result, ok, err}
use redisdal.Reply.{array, integer, CmdReply, cmd_reply, no_items, some_items, is_nil, is_error}
use redisdal.Reply.Decode.{
  as_text, as_string, as_status, as_array, as_integer, status_is_ok, optional_string, each_string,
  strings, each_pair, hash, deref, is_odd, entry_fields, entry_of, each_entry, stream_entries,
  batch_of, each_batch, stream_batches, cursor_of, scan_cursor, score_or_rethrow, score_of,
  optional_score, each_score, scores, value, throw_if_error, or_throw,
}
use redisdal.Prelude.Int.{ltb_ℤ}
use redisdal.Serialization.{
  IntegralType, unsigned, lowest, highest, parsed_type, FromChars, from_chars, numeric_input,
  bad_sign, complete, is_invalid, is_nonempty, is_out_of_range, DoubleChars, from_string,
  from_string_double,
}
use redisdal.Reply.{Double}
use redisdal.Reply.WellFormed.{IsWellFormed, to_list-WellFormed}
use redisdal.Reply.Ensures.{
  Ensures, IsException, ensures_ok, ensures_err, Any, Ensures-if, Ensures-bind, ensures_rules,
}

-- An even number of elements.
abbrev IsEven : List CmdReply → Type 0
IsEven items = length items % 2 ≡ 0

is_odd-IsEven : (items : List CmdReply) → is_odd items ≡ false → IsEven items
is_odd-IsEven items h = ground arith

-- A list of pairs behind the test of its length.
pairs-Defined :
    {A : Type 0} (items : List CmdReply) (e : Error) (r : Result A)
    → IsException e
    → (IsEven items → Ensures Any r)
    → Ensures Any (if is_odd items then err e else r)
pairs-Defined items e r x h =
    Ensures-if (is_odd items) _ _ (λ _. ensures_err e x) (λ even. h (is_odd-IsEven items even))

module _ (command : Bytes) where
  pub as_text-Defined : (r : CmdReply) → Ensures Any (as_text r command)
  unfolding as_text
  as_text-Defined (cmd_reply t (some s) i d b a) = ensures_ok s tt
  as_text-Defined (cmd_reply t none i d b a) = ensures_err _ tt

  pub as_string-Defined : (r : CmdReply) → Ensures Any (as_string r command)
  unfolding as_string
  as_string-Defined r = search (ensures_rules, as_text-Defined)

  pub as_array-WellFormed :
      (r : CmdReply) → IsWellFormed r → Ensures (All IsWellFormed) (as_array r command)
  unfolding as_array IsWellFormed
  as_array-WellFormed (cmd_reply array s i d b no_items) w = absurd w.1
  as_array-WellFormed (cmd_reply array s i d b (some_items rs)) w =
      ensures_ok _ (to_list-WellFormed rs w.2)
  as_array-WellFormed (cmd_reply _ s i d b a) w = ensures_err _ tt

  deref_if : {A : Type 0} (b : Bool) (x y : A) → Ensures Any (deref (if b then some x else some y))
  deref_if true x y = ensures_ok x tt
  deref_if false x y = ensures_ok y tt

  pub as_integer-Defined : (r : CmdReply) → IsWellFormed r → Ensures Any (as_integer r command)
  unfolding as_integer IsWellFormed
  as_integer-Defined (cmd_reply integer s none d b a) w = absurd w.0
  as_integer-Defined (cmd_reply integer s (some n) d b a) w = deref_if (leb n (2 ^ 63 - 1)) _ _
  as_integer-Defined (cmd_reply _ s i d b a) w = ensures_err _ tt

  pub as_status-Defined : (r : CmdReply) → Ensures Any (as_status r command)
  unfolding as_status
  as_status-Defined r = search (ensures_rules, as_text-Defined)

  pub status_is_ok-Defined : (r : CmdReply) → Ensures Any (status_is_ok r command)
  unfolding status_is_ok
  status_is_ok-Defined r = Ensures-bind _ (as_status-Defined r) (λ s _. ensures_ok _ tt)

  pub optional_string-Defined : (r : CmdReply) → Ensures Any (optional_string r command)
  unfolding optional_string
  optional_string-Defined r =
      Ensures-if (is_nil r) _ _ (λ _. ensures_ok _ tt)
        (λ _. Ensures-bind _ (as_string-Defined r) (λ s _. ensures_ok _ tt))

  each_string-Defined : (items : List CmdReply) → Ensures Any (each_string items command)
  unfolding each_string
  each_string-Defined [] = ensures_ok [] tt
  each_string-Defined (r ∷ items) =
      Ensures-bind _ (as_string-Defined r)
        (λ s _. Ensures-bind _ (each_string-Defined items) (λ ss _. ensures_ok _ tt))

  pub strings-Defined : (r : CmdReply) → IsWellFormed r → Ensures Any (strings r command)
  unfolding strings
  strings-Defined r w =
      Ensures-if (is_nil r) _ _ (λ _. ensures_ok _ tt)
        (λ _. Ensures-bind _ (as_array-WellFormed r w) (λ items _. each_string-Defined items))

  each_pair-Defined : (items : List CmdReply) → IsEven items → Ensures Any (each_pair items command)
  unfolding each_pair
  each_pair-Defined [] h = ensures_ok [] tt
  each_pair-Defined (r ∷ []) h = absurd (omega arith)
  each_pair-Defined (r ∷ q ∷ items) h = Ensures-bind _ (as_string-Defined r) (λ f _.
      Ensures-bind _ (as_string-Defined q)
        (λ v _. Ensures-bind _ (each_pair-Defined items (omega arith)) (λ ps _. ensures_ok _ tt)))

  pub hash-Defined : (r : CmdReply) → IsWellFormed r → Ensures Any (hash r command)
  unfolding hash
  hash-Defined r w = Ensures-bind _ (as_array-WellFormed r w) (λ items _.
      pairs-Defined items _ _ tt
        (λ even. Ensures-bind _ (each_pair-Defined items even) (λ ps _. ensures_ok _ tt)))

  pub entry_fields-Defined : (r : CmdReply) → IsWellFormed r → Ensures Any (entry_fields r command)
  unfolding entry_fields
  entry_fields-Defined r w =
      Ensures-if (is_nil r) _ _ (λ _. ensures_ok _ tt)
        (λ _.
          Ensures-bind _ (as_array-WellFormed r w)
            (λ items _. pairs-Defined items _ _ tt (λ even. each_pair-Defined items even)))

  entry_of-Defined :
      (parts : List CmdReply) → All IsWellFormed parts → Ensures Any (entry_of parts command)
  entry_of-Defined [] w = ensures_err _ tt
  entry_of-Defined (r ∷ []) w = ensures_err _ tt
  entry_of-Defined (r ∷ q ∷ []) w =
      Ensures-bind _ (as_string-Defined r)
        (λ id _. Ensures-bind _ (entry_fields-Defined q w.1.0) (λ fs _. ensures_ok _ tt))
  entry_of-Defined (r ∷ q ∷ x ∷ items) w = ensures_err _ tt

  each_entry-Defined :
      (items : List CmdReply) → All IsWellFormed items → Ensures Any (each_entry items command)
  unfolding each_entry
  each_entry-Defined [] w = ensures_ok [] tt
  each_entry-Defined (r ∷ items) w = Ensures-bind _ (as_array-WellFormed r w.0) (λ parts p.
      Ensures-bind _ (entry_of-Defined parts p)
        (λ x _. Ensures-bind _ (each_entry-Defined items w.1) (λ xs _. ensures_ok _ tt)))

  pub stream_entries-Defined :
      (r : CmdReply) → IsWellFormed r → Ensures Any (stream_entries r command)
  unfolding stream_entries
  stream_entries-Defined r w =
      Ensures-if (is_nil r) _ _ (λ _. ensures_ok _ tt)
        (λ _. Ensures-bind _ (as_array-WellFormed r w) (λ items p. each_entry-Defined items p))

  batch_of-Defined :
      (parts : List CmdReply) → All IsWellFormed parts → Ensures Any (batch_of parts command)
  batch_of-Defined [] w = ensures_err _ tt
  batch_of-Defined (r ∷ []) w = ensures_err _ tt
  batch_of-Defined (r ∷ q ∷ []) w =
      Ensures-bind _ (as_string-Defined r)
        (λ id _. Ensures-bind _ (stream_entries-Defined q w.1.0) (λ fs _. ensures_ok _ tt))
  batch_of-Defined (r ∷ q ∷ x ∷ items) w = ensures_err _ tt

  each_batch-Defined :
      (items : List CmdReply) → All IsWellFormed items → Ensures Any (each_batch items command)
  unfolding each_batch
  each_batch-Defined [] w = ensures_ok [] tt
  each_batch-Defined (r ∷ items) w = Ensures-bind _ (as_array-WellFormed r w.0) (λ parts p.
      Ensures-bind _ (batch_of-Defined parts p)
        (λ x _. Ensures-bind _ (each_batch-Defined items w.1) (λ xs _. ensures_ok _ tt)))

  pub stream_batches-Defined :
      (r : CmdReply) → IsWellFormed r → Ensures Any (stream_batches r command)
  unfolding stream_batches
  stream_batches-Defined r w =
      Ensures-if (is_nil r) _ _ (λ _. ensures_ok _ tt)
        (λ _. Ensures-bind _ (as_array-WellFormed r w) (λ items p. each_batch-Defined items p))

-- The error arm of `throw_if_error` is an exception.
pub or_throw-WellFormed : (r : CmdReply) → IsWellFormed r → Ensures IsWellFormed (or_throw r)
unfolding or_throw
or_throw-WellFormed r w = Ensures-bind _ (throws r) (λ x _. ensures_ok r w)
  where
    throws : (r : CmdReply) → Ensures Any (throw_if_error r)
    throws r =
        Ensures-if (is_error r) _ _
          (λ _.
            Ensures-bind _ (as_text-Defined (text "Redis command") r)
              (λ message _. ensures_err _ tt))
          (λ _. ensures_ok _ tt)

-- The number conversions throw, and do nothing undefined.
numeric_input-Defined : (s : Bytes) → Ensures Any (numeric_input s)
unfolding numeric_input
numeric_input-Defined [] = ensures_err _ tt
numeric_input-Defined (c ∷ cs) =
    Ensures-if (c == b'+') _ _
      (λ _. Ensures-if (bad_sign cs) _ _ (λ _. ensures_err _ tt) (λ _. ensures_ok _ tt))
      (λ _. ensures_ok _ tt)

complete-Defined : {A : Type 0} (r : FromChars A) → Ensures Any (complete r)
unfolding complete
complete-Defined r =
    Ensures-if (is_invalid r.ec || is_nonempty r.rest) _ _ (λ _. ensures_err _ tt)
      (λ _. Ensures-if (is_out_of_range r.ec) _ _ (λ _. ensures_err _ tt) (λ _. ensures_ok _ tt))

pub from_string-Defined : (t : IntegralType) (s : Bytes) → Ensures Any (from_string t s)
unfolding from_string
from_string-Defined t s = Ensures-bind _ (numeric_input-Defined s) (λ i _.
    Ensures-bind _ (complete-Defined (from_chars (parsed_type t) i)) (λ v _.
      Ensures-if (ltb_ℤ v (lowest t) || ltb_ℤ (highest t) v) _ _ (λ _. ensures_err _ tt)
        (λ _. ensures_ok _ tt)))

pub from_string_double-Defined :
    (chars : DoubleChars) (s : Bytes) → Ensures Any (from_string_double chars s)
unfolding from_string_double
from_string_double-Defined chars s =
    Ensures-bind _ (numeric_input-Defined s) (λ i _. complete-Defined (chars.from_chars i))

module _ (command : Bytes) where
  pub cursor_of-Defined :
      (parts : List CmdReply) → All IsWellFormed parts → Ensures Any (cursor_of parts command)
  cursor_of-Defined [] w = ensures_err _ tt
  cursor_of-Defined (r ∷ []) w = ensures_err _ tt
  cursor_of-Defined (r ∷ q ∷ []) w = Ensures-bind _ (as_array-WellFormed command q w.1.0) (λ rs _.
      Ensures-bind _ (as_string-Defined command r)
        (λ s _. Ensures-bind _ (from_string-Defined (unsigned 64) s) (λ n _. ensures_ok _ tt)))
  cursor_of-Defined (r ∷ q ∷ x ∷ parts) w = ensures_err _ tt

  pub scan_cursor-Defined : (r : CmdReply) → IsWellFormed r → Ensures Any (scan_cursor r command)
  unfolding scan_cursor
  scan_cursor-Defined r w =
      Ensures-bind _ (as_array-WellFormed command r w) (λ parts p. cursor_of-Defined parts p)

module _ (chars : DoubleChars) (command : Bytes) where
  rethrow-Defined : (r : Result Double) → Ensures Any r → Ensures Any (score_or_rethrow command r)
  rethrow-Defined (ok d) h = ensures_ok _ tt
  rethrow-Defined (err undefined_behaviour) (ensures_err _ h) = absurd h
  rethrow-Defined (err _) h = ensures_err _ tt

  score_of-Defined : (t : Option Bytes) → Ensures Any (score_of chars command t)
  score_of-Defined none = ensures_ok _ tt
  score_of-Defined (some t) = rethrow-Defined _ (from_string_double-Defined chars t)

  pub optional_score-Defined : (r : CmdReply) → Ensures Any (optional_score chars r command)
  unfolding optional_score
  optional_score-Defined r =
      Ensures-bind _ (optional_string-Defined command r) (λ t _. score_of-Defined t)

  value-Defined : {A : Type 0} (o : Option A) → Ensures Any (value o)
  value-Defined none = ensures_err _ tt
  value-Defined (some a) = ensures_ok a tt

  each_score-Defined :
      (items : List CmdReply) → IsEven items → Ensures Any (each_score chars items command)
  unfolding each_score
  each_score-Defined [] h = ensures_ok [] tt
  each_score-Defined (r ∷ []) h = absurd (omega arith)
  each_score-Defined (r ∷ q ∷ items) h = Ensures-bind _ (as_string-Defined command r) (λ m _.
      Ensures-bind _ (optional_score-Defined q) (λ o _.
        Ensures-bind _ (value-Defined o) (λ d _.
          Ensures-bind _ (each_score-Defined items (omega arith)) (λ ps _. ensures_ok _ tt))))

  pub scores-Defined : (r : CmdReply) → IsWellFormed r → Ensures Any (scores chars r command)
  unfolding scores
  scores-Defined r w =
      Ensures-if (is_nil r) _ _ (λ _. ensures_ok _ tt)
        (λ _.
          Ensures-bind _ (as_array-WellFormed command r w)
            (λ items _. pairs-Defined items _ _ tt (λ even. each_score-Defined items even)))
