-- ===== src/SyncConnection/Sound.antt =====
-- What hiredis documents of its reply trees, and that `convert_reply` turns such a tree into a
-- well-formed reply.
use redisdal.Prelude.{
  ℕ, zero, suc, ◌≤◌, Bool, true, false, Option, none, some, List, [], ◌≡◌, refl, arith, All, length,
  leb, le→leb, if◌then◌else◌,
}
use redisdal.Prelude.Int.{ℤ}
use redisdal.Text.{Bytes}
use redisdal.Errors.{redis_error, Result, ok, err, ◌>>=◌}
use redisdal.Reply.{CmdReply}
use redisdal.Reply.WellFormed.{
  IsWellFormed, make_string-IsWellFormed, make_status-IsWellFormed, make_error-IsWellFormed,
  make_nil-IsWellFormed, make_signed_integer-IsWellFormed, make_array-IsWellFormed,
}
use redisdal.Reply.Ensures.{Ensures, ensures_ok, ensures_err, Any, Ensures-bind, Ensures-if}
use redisdal.Hiredis.{
  RedisReplyType, reply_string, reply_array, reply_integer, reply_nil, reply_status, reply_error,
  reply_other, RedisReply, redis_reply, Element, null_element, element_array, Pointers, end, null,
  pointer,
}
use redisdal.SyncConnection.Convert.{
  string_from, or_empty, is_malformed_text, text_reply, by_type, convert_reply, convert_element,
  convert_pointers,
}

-- A text has `len` bytes behind `str`, if `str` is not null.
abbrev TextSound : Option Bytes → ℕ → Type 0
TextSound none len = Unit
TextSound (some str) len = len ≤ length str

-- An error reply with a null `str` has no length.
abbrev ErrorSound : RedisReplyType → Option Bytes → ℕ → Type 0
ErrorSound reply_error none len = len ≡ 0
ErrorSound _ _ len = Unit

abbrev count : Pointers → ℕ
count end = 0
count (null ps) = suc (count ps)
count (pointer r ps) = suc (count ps)

-- An array has `elements` pointers.
abbrev LengthSound : Element → ℕ → Type 0
LengthSound null_element n = Unit
LengthSound (element_array ps) n = n ≤ count ps

unfoldable mutual
  pub IsSound : RedisReply → Type 0
  IsSound (redis_reply t i str len n e) =
      TextSound str len × ErrorSound t str len × LengthSound e n × ElementSound e

  pub ElementSound : Element → Type 0
  ElementSound null_element = Unit
  ElementSound (element_array ps) = PointersSound ps

  pub PointersSound : Pointers → Type 0
  PointersSound end = Unit
  PointersSound (null ps) = PointersSound ps
  PointersSound (pointer r ps) = IsSound r × PointersSound ps

string_from-Any : (str : Bytes) (len : ℕ) → len ≤ length str → Ensures Any (string_from str len)
unfolding string_from
string_from-Any str len h = rw (le→leb len (length str) h) (ensures_ok _ tt)

-- Behind the guard a null text has no length.
fits :
    (str : Option Bytes) (len : ℕ)
    → TextSound str len
    → (str ≡ none → len ≡ 0)
    → len ≤ length (or_empty str)
fits none len h k = omega (arith, k refl)
fits (some str) len h k = h

text_reply-WellFormed :
    (make : Bytes → CmdReply) (str : Option Bytes) (len : ℕ)
    → ((s : Bytes) → IsWellFormed (make s))
    → len ≤ length (or_empty str)
    → Ensures IsWellFormed (text_reply make str len)
text_reply-WellFormed make str len w h =
    Ensures-bind _ (string_from-Any (or_empty str) len h) (λ s _. ensures_ok _ (w s))

module _ (i : ℤ) (str : Option Bytes) (len : ℕ) (items : Result (List CmdReply)) where
  by_type-WellFormed :
      (t : RedisReplyType)
      → TextSound str len
      → is_malformed_text t str len ≡ false
      → Ensures (All IsWellFormed) items
      → Ensures IsWellFormed (by_type t i str len items)
  by_type-WellFormed reply_string h g w =
      text_reply-WellFormed _ str len make_string-IsWellFormed (fits str len h (ground arith))
  by_type-WellFormed reply_status h g w =
      text_reply-WellFormed _ str len make_status-IsWellFormed (fits str len h (ground arith))
  by_type-WellFormed reply_error h g w =
      text_reply-WellFormed _ str len make_error-IsWellFormed (fits str len h (ground arith))
  by_type-WellFormed reply_integer h g w = ensures_ok _ (make_signed_integer-IsWellFormed i)
  by_type-WellFormed reply_nil h g w = ensures_ok _ make_nil-IsWellFormed
  by_type-WellFormed reply_array h g w =
      Ensures-bind _ w (λ elements p. ensures_ok _ (make_array-IsWellFormed elements p))
  by_type-WellFormed (reply_other code) h g w = ensures_ok _ (make_error-IsWellFormed _)

mutual
  unfolding convert_reply IsSound

  convert : (r : RedisReply) → IsSound r → Ensures IsWellFormed (convert_reply r)
  convert (redis_reply t i str len n e) h =
      Ensures-if (is_malformed_text t str len) _ _ (λ _. ensures_err _ tt)
        (λ guard. by_type-WellFormed i str len _ t h.0 guard (convert_elements e n h.2 h.3))

  convert_elements :
      (e : Element) (n : ℕ)
      → LengthSound e n
      → ElementSound e
      → Ensures (All IsWellFormed) (convert_element e n)
  convert_elements null_element zero l h = ensures_ok [] tt
  convert_elements null_element (suc n) l h = ensures_err _ tt
  convert_elements (element_array ps) n l h = convert_each ps n l h

  convert_each :
      (ps : Pointers) (n : ℕ)
      → n ≤ count ps
      → PointersSound ps
      → Ensures (All IsWellFormed) (convert_pointers ps n)
  convert_each end zero l h = ensures_ok [] tt
  convert_each (null ps) zero l h = ensures_ok [] tt
  convert_each (pointer r ps) zero l h = ensures_ok [] tt
  convert_each end (suc n) l h = absurd (omega arith)
  convert_each (null ps) (suc n) l h = ensures_err _ tt
  convert_each (pointer r ps) (suc n) l h =
      Ensures-bind _ (convert r h.0) (λ x w.
        Ensures-bind _ (convert_each ps n (omega arith) h.1) (λ xs ws. ensures_ok _ (w, ws)))

-- A reply tree in which every text has at least `len` bytes unless its `str` is null, an error with
-- a null `str` has no length, and every array that is not null has at least `elements` pointers, at
-- every depth, converts to a well-formed reply or to an exception, and to nothing undefined.
pub convert_reply-WellFormed : (r : RedisReply) → IsSound r → Ensures IsWellFormed (convert_reply r)
convert_reply-WellFormed r h = convert r h

-- No conversion throws `redis_error`.
abbrev pub IsPlain {ℓ} : {A : Type ℓ} → Result A → Type 0
IsPlain (err (redis_error message)) = ⊥
IsPlain _ = Unit

IsPlain-bind :
    {A B : Type 0} (r : Result A) (f : A → Result B)
    → IsPlain r
    → ((a : A) → IsPlain (f a))
    → IsPlain (r >>= f)
IsPlain-bind (ok a) f h k = k a
IsPlain-bind (err (redis_error message)) f h k = h
IsPlain-bind (err _) f h k = tt

IsPlain-if :
    {A : Type 0} (b : Bool) (r q : Result A) → IsPlain r → IsPlain q → IsPlain (if b then r else q)
IsPlain-if true r q h k = h
IsPlain-if false r q h k = k

text_reply-IsPlain :
    (make : Bytes → CmdReply) (str : Option Bytes) (len : ℕ) → IsPlain (text_reply make str len)
unfolding string_from
text_reply-IsPlain make str len =
    IsPlain-bind (string_from (or_empty str) len) _
      (IsPlain-if (leb len (length (or_empty str))) _ _ tt tt) (λ s. tt)

by_type-IsPlain :
    (t : RedisReplyType) (i : ℤ) (str : Option Bytes) (len : ℕ) (items : Result (List CmdReply))
    → IsPlain items
    → IsPlain (by_type t i str len items)
by_type-IsPlain reply_string i str len items h = text_reply-IsPlain _ str len
by_type-IsPlain reply_status i str len items h = text_reply-IsPlain _ str len
by_type-IsPlain reply_error i str len items h = text_reply-IsPlain _ str len
by_type-IsPlain reply_array i str len items h = IsPlain-bind items _ h (λ elements. tt)
by_type-IsPlain _ i str len items h = tt

mutual
  unfolding convert_reply

  plain : (r : RedisReply) → IsPlain (convert_reply r)
  plain (redis_reply t i str len n e) =
      IsPlain-if (is_malformed_text t str len) _ _ tt
        (by_type-IsPlain t i str len _ (elements-IsPlain e n))

  elements-IsPlain : (e : Element) (n : ℕ) → IsPlain (convert_element e n)
  elements-IsPlain null_element zero = tt
  elements-IsPlain null_element (suc n) = tt
  elements-IsPlain (element_array ps) n = each-IsPlain ps n

  each-IsPlain : (ps : Pointers) (n : ℕ) → IsPlain (convert_pointers ps n)
  each-IsPlain end zero = tt
  each-IsPlain (null ps) zero = tt
  each-IsPlain (pointer r ps) zero = tt
  each-IsPlain end (suc n) = tt
  each-IsPlain (null ps) (suc n) = tt
  each-IsPlain (pointer r ps) (suc n) =
      IsPlain-bind (convert_reply r) _ (plain r)
        (λ x. IsPlain-bind (convert_pointers ps n) _ (each-IsPlain ps n) (λ xs. tt))

pub convert_reply-IsPlain : (r : RedisReply) → IsPlain (convert_reply r)
convert_reply-IsPlain r = plain r
