-- ===== src/CmdOps/AddLayout.antt =====
-- The argument vectors of XADD and XTRIM of src/redis_cmd_ops.cpp: which options are accepted,
-- and what is sent for those.
use redisdal.Prelude.{
  Bool, true, false, not, ◌&&◌, Option, none, some, List, [], ◌∷◌, ◌++◌, ◌≡◌, ◌≢◌, refl, ap, ◌∙◌,
  append_assoc, if◌then◌else◌,
}
use redisdal.Prelude.Int.{ℤ}
use redisdal.Text.{Bytes, text}
use redisdal.CmdOps.Arguments.{
  append_stream_trim, strategy_word, limit_words, is_negative, is_given,
}
use redisdal.CmdOps.Vectors.{trimmed, flatten_pairs, xadd_arguments}
use redisdal.Text.Decimal.{to_string}
use redisdal.CmdOps.Options.{StreamTrimStrategy, maxlen, minid, StreamTrimOptions, StreamAddOptions}
use redisdal.CmdOps.Accepts.{
  IsNatural, YieldsIf, yields, YieldsIf->>=, YieldsIf-guard, YieldsIf-unit, empty, full,
  ltb_ℤ-negative, ltb_ℤ-natural,
}

-- A limit is given with approximate trimming only.
abbrev IsTrimLimit : Option ℤ → Bool → Type 0
IsTrimLimit none approximate = Unit
IsTrimLimit (some limit) approximate = approximate ≡ true

abbrev pub IsValidTrim : StreamTrimOptions → Type 0
IsValidTrim options =
    (options.threshold ≢ [])
    × (IsNatural options.limit × IsTrimLimit options.limit options.approximate)

-- A trim clause as it is documented: `MAXLEN | MINID [~] threshold [LIMIT count]`.
abbrev limit_clause : Option ℤ → List Bytes
limit_clause (some count) = text "LIMIT" ∷ to_string count ∷ []
limit_clause none = []

abbrev approximate_clause : Bool → List Bytes → List Bytes
approximate_clause true words = text "~" ∷ words
approximate_clause false words = words

abbrev strategy_clause : StreamTrimStrategy → List Bytes → List Bytes
strategy_clause minid words = text "MINID" ∷ words
strategy_clause maxlen words = text "MAXLEN" ∷ words

abbrev pub trim_words : List Bytes → StreamTrimOptions → List Bytes
trim_words args options =
    args
    ++ strategy_clause options.strategy
        (approximate_clause options.approximate (options.threshold ∷ limit_clause options.limit))

limit_words-clause : (limit : Option ℤ) → limit_words limit ≡ limit_clause limit
limit_words-clause none = refl
limit_words-clause (some count) = refl

append_four :
    (args a b c d : List Bytes) → (args ++ a ++ b ++ c ++ d) ≡ args ++ (a ++ (b ++ (c ++ d)))
append_four args a b c d =
    append_assoc (args ++ a ++ b) c d
    ∙ append_assoc (args ++ a) b (c ++ d)
    ∙ append_assoc args a (b ++ (c ++ d))

-- The words that the code appends are the clause.
appended-clause :
    (strategy : StreamTrimStrategy) (approximate : Bool) (threshold : Bytes) (limit : Option ℤ)
    → (strategy_word strategy ∷ [])
        ++ ((if approximate then text "~" ∷ [] else []) ++ ((threshold ∷ []) ++ limit_words limit))
      ≡ strategy_clause strategy (approximate_clause approximate (threshold ∷ limit_clause limit))
appended-clause maxlen true threshold limit = rw (limit_words-clause limit) refl
appended-clause maxlen false threshold limit = rw (limit_words-clause limit) refl
appended-clause minid true threshold limit = rw (limit_words-clause limit) refl
appended-clause minid false threshold limit = rw (limit_words-clause limit) refl

appended-trim_words :
    (args : List Bytes) (options : StreamTrimOptions)
    → (args
        ++ (strategy_word options.strategy ∷ [])
        ++ (if options.approximate then text "~" ∷ [] else [])
        ++ (options.threshold ∷ [])
        ++ limit_words options.limit)
      ≡ trim_words args options
appended-trim_words args options =
    append_four args _ _ _ _
    ∙ ap (λ words. args ++ words)
        (appended-clause options.strategy options.approximate options.threshold options.limit)

limit_negative : (limit : Option ℤ) → is_negative limit ≡ true → ¬ (IsNatural limit)
limit_negative none h = cc
limit_negative (some n) h = ltb_ℤ-negative n h

limit-IsNatural : (limit : Option ℤ) → is_negative limit ≡ false → IsNatural limit
limit-IsNatural none h = tt
limit-IsNatural (some n) h = ltb_ℤ-natural n h

exact_limit :
    (limit : Option ℤ) (approximate : Bool)
    → (is_given limit && not approximate) ≡ true
    → ¬ (IsTrimLimit limit approximate)
exact_limit none approximate h = cc
exact_limit (some n) true h = cc
exact_limit (some n) false h = λ e. cc

approximate_limit :
    (limit : Option ℤ) (approximate : Bool)
    → (is_given limit && not approximate) ≡ false
    → IsTrimLimit limit approximate
approximate_limit none approximate h = tt
approximate_limit (some n) true h = refl
approximate_limit (some n) false h = cc

-- A trim clause is appended when its threshold is there, its limit is not negative and a limit
-- comes with approximate trimming; else an exception is thrown.
pub append_stream_trim_lem :
    (args : List Bytes) (options : StreamTrimOptions) (command : Bytes)
    → YieldsIf
        (IsValidTrim options)
        (trim_words args options)
        (append_stream_trim args options command)
unfolding append_stream_trim
append_stream_trim_lem args options command = rw (← (appended-trim_words args options)) (
    YieldsIf-guard _ _ (empty options.threshold) (full options.threshold) (
      YieldsIf-guard _ _ (limit_negative options.limit) (limit-IsNatural options.limit) (
        YieldsIf-unit (
          YieldsIf-guard _ _ (exact_limit options.limit options.approximate)
            (approximate_limit options.limit options.approximate) (yields tt)))))

-- What the server accepts of an append: fields, an id, and a valid trim clause if there is one.
abbrev IsTrim : Option StreamTrimOptions → Type 0
IsTrim none = Unit
IsTrim (some trim) = IsValidTrim trim

abbrev pub IsValidAdd : List (Bytes × Bytes) → StreamAddOptions → Type 0
IsValidAdd fields options = (fields ≢ []) × ((options.id ≢ []) × IsTrim options.trim)

abbrev trim_clause : List Bytes → Option StreamTrimOptions → List Bytes
trim_clause args none = args
trim_clause args (some trim) = trim_words args trim

trimmed_lem :
    (args : List Bytes) (trim : Option StreamTrimOptions)
    → YieldsIf (IsTrim trim) (trim_clause args trim) (trimmed args trim)
unfolding trimmed
trimmed_lem args none = yields tt
trimmed_lem args (some trim) = append_stream_trim_lem args trim (text "XADD")

-- The words of the fields: each field before its value.
unfoldable pub field_words : List (Bytes × Bytes) → List Bytes
field_words [] = []
field_words (pair ∷ pairs) = pair.0 ∷ pair.1 ∷ field_words pairs

pub flatten_pairs-field_words :
    (pairs : List (Bytes × Bytes)) → flatten_pairs pairs ≡ field_words pairs
unfolding flatten_pairs field_words
flatten_pairs-field_words [] = refl
flatten_pairs-field_words ((field, value) ∷ pairs) = rw (flatten_pairs-field_words pairs) refl

-- The key and NOMKSTREAM, the trim clause, the id, and the fields with their values.
abbrev pub add_words : Bytes → List (Bytes × Bytes) → StreamAddOptions → List Bytes
add_words key fields options =
    trim_clause
      ((text "XADD" ∷ key ∷ []) ++ (if options.nomkstream then text "NOMKSTREAM" ∷ [] else []))
      options.trim
    ++ (options.id ∷ [])
    ++ field_words fields

-- `XADD` is composed of the key, NOMKSTREAM where asked for, the trim clause (MAXLEN or MINID by the
-- strategy, `~` if approximate, the threshold, and LIMIT with a given limit), the id and the fields,
-- each before its value, in their order, when there are fields and an id and the trim clause is valid;
-- else an exception is thrown.
pub xadd_arguments_lem :
    (key : Bytes) (fields : List (Bytes × Bytes)) (options : StreamAddOptions)
    → YieldsIf
        (IsValidAdd fields options)
        (add_words key fields options)
        (xadd_arguments key fields options)
unfolding xadd_arguments
xadd_arguments_lem key fields options = rw (← (flatten_pairs-field_words fields)) (
    YieldsIf-guard _ _ (empty fields) (full fields) (
      YieldsIf-guard _ _ (empty options.id) (full options.id)
        (YieldsIf-unit (YieldsIf->>= _ (trimmed_lem _ options.trim) (yields tt)))))
