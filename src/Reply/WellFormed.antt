-- ===== src/Reply/WellFormed.antt =====
-- The class invariant of `cmd_reply`: the member that the type asks for is there, at every depth.
-- Under it no decoder reads an empty optional or past the end of a vector.
use redisdal.Prelude.{ℕ, Option, none, some, List, [], ◌∷◌, All}
use redisdal.Prelude.Int.{ℤ}
use redisdal.Text.{Bytes}
use redisdal.Reply.{
  ReplyType, string, array, integer, status, error, CmdReply, cmd_reply, MaybeItems, no_items,
  some_items, Items, end, item, to_list, of_list, make_nil, make_string, make_error, make_status,
  make_integer, make_signed_integer, make_array,
}

abbrev IsPresent {ℓ} : {A : Type ℓ} → Option A → Type 0
IsPresent none = ⊥
IsPresent (some a) = Unit

-- The member for a type other than an array.
abbrev ScalarPresent : ReplyType → Option Bytes → Option ℕ → Type 0
ScalarPresent string s i = IsPresent s
ScalarPresent status s i = IsPresent s
ScalarPresent error s i = IsPresent s
ScalarPresent integer s i = IsPresent i
ScalarPresent _ s i = Unit

abbrev ArrayPresent : ReplyType → MaybeItems → Type 0
ArrayPresent array no_items = ⊥
ArrayPresent _ _ = Unit

unfoldable mutual
  pub IsWellFormed : CmdReply → Type 0
  IsWellFormed (cmd_reply t s i d b a) = ScalarPresent t s i × ArrayPresent t a × MaybeWellFormed a

  pub MaybeWellFormed : MaybeItems → Type 0
  MaybeWellFormed no_items = Unit
  MaybeWellFormed (some_items rs) = ItemsWellFormed rs

  pub ItemsWellFormed : Items → Type 0
  ItemsWellFormed end = Unit
  ItemsWellFormed (item r rs) = IsWellFormed r × ItemsWellFormed rs

pub of_list-WellFormed : (rs : List CmdReply) → All IsWellFormed rs → ItemsWellFormed (of_list rs)
unfolding of_list IsWellFormed
of_list-WellFormed [] h = tt
of_list-WellFormed (r ∷ rs) h = (h.0, of_list-WellFormed rs h.1)

pub to_list-WellFormed : (rs : Items) → ItemsWellFormed rs → All IsWellFormed (to_list rs)
unfolding to_list IsWellFormed
to_list-WellFormed end h = tt
to_list-WellFormed (item r rs) h = (h.0, to_list-WellFormed rs h.1)

module _ (s : Bytes) where
  pub make_string-IsWellFormed : IsWellFormed (make_string s)
  unfolding make_string IsWellFormed
  make_string-IsWellFormed = (tt, tt, tt)

  pub make_status-IsWellFormed : IsWellFormed (make_status s)
  unfolding make_status IsWellFormed
  make_status-IsWellFormed = (tt, tt, tt)

  pub make_error-IsWellFormed : IsWellFormed (make_error s)
  unfolding make_error IsWellFormed
  make_error-IsWellFormed = (tt, tt, tt)

pub make_nil-IsWellFormed : IsWellFormed make_nil
unfolding make_nil IsWellFormed
make_nil-IsWellFormed = (tt, tt, tt)

pub make_signed_integer-IsWellFormed : (v : ℤ) → IsWellFormed (make_signed_integer v)
unfolding make_signed_integer make_integer IsWellFormed
make_signed_integer-IsWellFormed v = (tt, tt, tt)

pub make_array-IsWellFormed :
    (rs : List CmdReply) → All IsWellFormed rs → IsWellFormed (make_array rs)
unfolding make_array IsWellFormed
make_array-IsWellFormed rs h = (tt, tt, of_list-WellFormed rs h)
