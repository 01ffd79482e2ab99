-- ===== src/Reply.antt =====
-- `cmd_reply` of include/redisdal/common.hpp: the owning reply tree, its constructors and its
-- public accessors. The decoders of src/cmd_reply.cpp are in the child `Decode`.
pub mod Decode
pub mod WellFormed
pub mod Ensures
pub mod Defined
pub mod Signed
pub mod RoundTrip
use redisdal.Prelude.{
  ℕ, ◌+◌, ◌-◌, ◌^◌, ◌≤◌, Bool, true, false, Option, none, some, List, [], ◌∷◌, leb, ◌==◌,
  if◌then◌else◌,
}
use redisdal.Prelude.Int.{ℤ, pos, negsuc}
use redisdal.Text.{Bytes, text}

pub data ReplyType : Type 0 where
  string array integer nil status error double bool : ReplyType

-- The enumerators' values, by which `==` compares them.
abbrev enumerator : ReplyType → ℕ
enumerator string = 0
enumerator array = 1
enumerator integer = 2
enumerator nil = 3
enumerator status = 4
enumerator error = 5
enumerator double = 6
enumerator bool = 7

abbrev pub same_type : ReplyType → ReplyType → Bool
same_type a b = enumerator a == enumerator b

-- A `double` is its 64-bit pattern: the library stores, compares for presence and passes on such
-- values, and computes with none.
abbrev pub Double : Type 0
Double = ℕ

-- The members in the order of the class: type, str_value, int_value, double_value, bool_value,
-- array_value. `Items` is `std::vector<cmd_reply>`, and `MaybeItems` the optional of it.
mutual
  pub data CmdReply : Type 0 where
    cmd_reply :
        ReplyType → Option Bytes → Option ℕ → Option Double → Option Bool → MaybeItems → CmdReply

  pub data MaybeItems : Type 0 where
    no_items : MaybeItems
    some_items : Items → MaybeItems

  pub data Items : Type 0 where
    end : Items
    item : CmdReply → Items → Items

unfoldable pub to_list : Items → List CmdReply
to_list end = []
to_list (item r rs) = r ∷ to_list rs

unfoldable pub of_list : List CmdReply → Items
of_list [] = end
of_list (r ∷ rs) = item r (of_list rs)

unfoldable pub make_nil : CmdReply
make_nil = cmd_reply nil none none none none no_items

unfoldable pub make_string : Bytes → CmdReply
make_string value = cmd_reply string (some value) none none none no_items

unfoldable pub make_error : Bytes → CmdReply
make_error message = cmd_reply error (some message) none none none no_items

unfoldable pub make_status : Bytes → CmdReply
make_status value = cmd_reply status (some value) none none none no_items

-- The argument is a `uint64_t`.
unfoldable pub make_integer : ℕ → CmdReply
make_integer value = cmd_reply integer none (some value) none none no_items

-- `static_cast<uint64_t>` of an `int64_t`.
abbrev pub to_uint64 : ℤ → ℕ
to_uint64 (pos n) = n
to_uint64 (negsuc n) = 2 ^ 64 - 1 - n

unfoldable pub make_signed_integer : ℤ → CmdReply
unfolding make_integer
make_signed_integer value = make_integer (to_uint64 value)

unfoldable pub make_double : Double → CmdReply
make_double value = cmd_reply double none none (some value) none no_items

unfoldable pub make_bool : Bool → CmdReply
make_bool value = cmd_reply bool none none none (some value) no_items

unfoldable pub make_array : List CmdReply → CmdReply
unfolding of_list
make_array value = cmd_reply array none none none none (some_items (of_list value))

unfoldable pub get_type : CmdReply → ReplyType
get_type (cmd_reply t s i d b a) = t

unfoldable pub get_string : CmdReply → Option Bytes
get_string (cmd_reply t s i d b a) = s

unfoldable pub get_integer : CmdReply → Option ℕ
get_integer (cmd_reply t s i d b a) = i

unfoldable pub get_double : CmdReply → Option Double
get_double (cmd_reply t s i d b a) = d

unfoldable pub get_bool : CmdReply → Option Bool
get_bool (cmd_reply t s i d b a) = b

abbrev items_of : MaybeItems → Option (List CmdReply)
items_of no_items = none
items_of (some_items xs) = some (to_list xs)

unfoldable pub get_array : CmdReply → Option (List CmdReply)
unfolding to_list
get_array (cmd_reply t s i d b a) = items_of a

-- The signed view: `-1 - (UINT64_MAX - value)` for a value past INT64_MAX.
abbrev signed_view : Option ℕ → Option ℤ
signed_view none = none
signed_view (some value) =
    if leb value (2 ^ 63 - 1) then some (pos value) else some (negsuc (2 ^ 64 - 1 - value))

unfoldable pub get_signed_integer : CmdReply → Option ℤ
unfolding get_integer
get_signed_integer reply = signed_view (get_integer reply)

unfoldable pub is_nil : CmdReply → Bool
unfolding get_type
is_nil reply = same_type (get_type reply) nil

unfoldable pub is_error : CmdReply → Bool
unfolding get_type
is_error reply = same_type (get_type reply) error

-- src/cmd_reply.cpp, `type_name`
unfoldable pub type_name : ReplyType → Bytes
type_name string = text "string"
type_name array = text "array"
type_name integer = text "integer"
type_name nil = text "nil"
type_name status = text "status"
type_name error = text "error"
type_name double = text "double"
type_name bool = text "bool"
