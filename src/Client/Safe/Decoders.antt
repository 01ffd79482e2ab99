-- ===== src/Client/Safe/Decoders.antt =====
-- The decoders of src/redis_client.cpp do nothing undefined on a well-formed reply.
use redisdal.Prelude.{
  ℕ, suc, false, not, Option, none, some, List, [], ◌∷◌, length, length-map, ◌≡◌, refl, ap, ◌∙◌,
  sym, arith, All, ◌==◌,
}
use redisdal.Text.{Bytes, same_text}
use redisdal.Errors.{Result, ok, err, ◌>>=◌}
use redisdal.Serialization.{DoubleChars}
use redisdal.Reply.{CmdReply, Double, get_type, status, integer, same_type}
use redisdal.Reply.Decode.{cursor_of, scan_cursor, StringMap}
use redisdal.Reply.WellFormed.{IsWellFormed}
use redisdal.Reply.Ensures.{Ensures, ensures_ok, ensures_err, Any, Ensures-if, Ensures-bind}
use redisdal.Reply.Defined.{
  as_integer-Defined, as_array-WellFormed, status_is_ok-Defined, optional_string-Defined,
  strings-Defined, hash-Defined, optional_score-Defined, cursor_of-Defined,
}
use redisdal.Client.Requests.{
  integer_is_one, set_succeeded, hset_succeeded, score_or_unexpected, new_score, second, scan_page,
  assign, assign_all, each_optional, field_values, found_keys, scanned_keys, scanned_fields,
}

pub integer_is_one-Defined :
    (command : Bytes) (r : CmdReply) → IsWellFormed r → Ensures Any (integer_is_one command r)
unfolding integer_is_one
integer_is_one-Defined command r w =
    Ensures-bind _ (as_integer-Defined command r w) (λ n _. ensures_ok _ tt)

pub set_succeeded-Defined : (r : CmdReply) → Ensures Any (set_succeeded r)
unfolding set_succeeded
set_succeeded-Defined r =
    Ensures-if (same_type (get_type r) status) _ _ (λ _. status_is_ok-Defined _ r)
      (λ _. ensures_ok _ tt)

pub hset_succeeded-Defined : (r : CmdReply) → IsWellFormed r → Ensures Any (hset_succeeded r)
unfolding hset_succeeded
hset_succeeded-Defined r w =
    Ensures-if (same_type (get_type r) integer) _ _
      (λ _. Ensures-bind _ (as_integer-Defined _ r w) (λ n _. ensures_ok _ tt))
      (λ _. ensures_ok _ tt)

score_or_unexpected-Defined : (o : Option Double) → Ensures Any (score_or_unexpected o)
score_or_unexpected-Defined none = ensures_err _ tt
score_or_unexpected-Defined (some d) = ensures_ok _ tt

pub new_score-Defined : (chars : DoubleChars) (r : CmdReply) → Ensures Any (new_score chars r)
unfolding new_score
new_score-Defined chars r =
    Ensures-bind _ (optional_score-Defined chars _ r) (λ o _. score_or_unexpected-Defined o)

abbrev PageWellFormed : ℕ × CmdReply → Type 0
PageWellFormed page = IsWellFormed page.1

-- The page behind a cursor that was read is there.
page_of :
    (command : Bytes) (a : Result (List CmdReply))
    → Ensures (All IsWellFormed) a
    → Ensures PageWellFormed (
        (a >>= λ parts. cursor_of parts command) >>= λ cursor.
        a >>= λ parts. second parts >>= λ page. ok (cursor, page))
unfolding second
page_of command (err e) (ensures_err _ h) = ensures_err e h
page_of command (ok []) h = ensures_err _ tt
page_of command (ok (r ∷ [])) h = ensures_err _ tt
page_of command (ok (r ∷ q ∷ [])) (ensures_ok _ w) =
    Ensures-bind _ (cursor_of-Defined command (r ∷ q ∷ []) w) (λ n _. ensures_ok _ w.1.0)
page_of command (ok (r ∷ q ∷ x ∷ parts)) h = ensures_err _ tt

scan_page-WellFormed :
    (command : Bytes) (r : CmdReply) → IsWellFormed r → Ensures PageWellFormed (scan_page command r)
unfolding scan_page scan_cursor
scan_page-WellFormed command r w = page_of command _ (as_array-WellFormed command r w)

pub found_keys-Defined :
    (set : List Bytes) (r : CmdReply) → IsWellFormed r → Ensures Any (found_keys set r)
unfolding found_keys
found_keys-Defined set r w = Ensures-bind _ (strings-Defined _ r w) (λ ss _. ensures_ok _ tt)

pub scanned_keys-Defined : (r : CmdReply) → IsWellFormed r → Ensures Any (scanned_keys r)
unfolding scanned_keys
scanned_keys-Defined r w =
    Ensures-bind _ (scan_page-WellFormed _ r w)
      (λ page p. Ensures-bind _ (strings-Defined _ page.1 p) (λ ss _. ensures_ok _ tt))

pub scanned_fields-Defined :
    (m : StringMap) (r : CmdReply) → IsWellFormed r → Ensures Any (scanned_fields m r)
unfolding scanned_fields
scanned_fields-Defined m r w =
    Ensures-bind _ (scan_page-WellFormed _ r w)
      (λ page p. Ensures-bind _ (hash-Defined _ page.1 p) (λ ss _. ensures_ok _ tt))

assign-Defined :
    (k : Bytes) (v : Option Bytes) (m : List (Bytes × Option Bytes)) → Ensures Any (assign k v m)
unfolding assign
assign-Defined k v [] = ensures_err _ tt
assign-Defined k v ((j, w) ∷ m) =
    Ensures-if (same_text j k) _ _ (λ _. ensures_ok _ tt)
      (λ _. Ensures-bind _ (assign-Defined k v m) (λ m' _. ensures_ok _ tt))

assign_all-Defined :
    (ks : List Bytes) (vs : List (Option Bytes)) (m : List (Bytes × Option Bytes))
    → length vs ≡ length ks
    → Ensures Any (assign_all ks vs m)
unfolding assign_all
assign_all-Defined [] [] m h = ensures_ok _ tt
assign_all-Defined (k ∷ ks) [] m h = ensures_ok _ tt
assign_all-Defined [] (v ∷ vs) m h = absurd (omega arith)
assign_all-Defined (k ∷ ks) (v ∷ vs) m h =
    Ensures-bind _ (assign-Defined k v m) (λ m' _. assign_all-Defined ks vs m' (omega arith))

each_optional-length :
    (items : List CmdReply) (command : Bytes)
    → Ensures (λ vs. length vs ≡ length items) (each_optional items command)
unfolding each_optional
each_optional-length [] command = ensures_ok [] refl
each_optional-length (r ∷ items) command =
    Ensures-bind _ (optional_string-Defined command r)
      (λ v _. Ensures-bind _ (each_optional-length items command) (λ vs h. ensures_ok _ (ap suc h)))

pub field_values-Defined :
    (m : List (Bytes × Option Bytes)) (r : CmdReply)
    → IsWellFormed r
    → Ensures Any (field_values m r)
unfolding field_values
field_values-Defined m r w = Ensures-bind _ (as_array-WellFormed _ r w) (λ values _.
    Ensures-if (not (length values == length m)) _ _ (λ _. ensures_err _ tt)
      (λ same. Ensures-bind _ (each_optional-length values _) (λ decoded h.
        assign_all-Defined _ decoded m (h ∙ size_of_test values m same ∙ sym (length-map _ m)))))
  where
    size_of_test :
        (values : List CmdReply) (m : List (Bytes × Option Bytes))
        → not (length values == length m) ≡ false
        → length values ≡ length m
    size_of_test values m h = ground arith
