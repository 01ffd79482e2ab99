-- ===== src/CmdOps/ScriptKeys.antt =====
-- The key count of the script commands of src/redis_cmd_ops.cpp, as a server reads it.
use redisdal.Prelude.{
  take-append, ℕ, ◌≤◌, true, false, Option, none, some, List, [], ◌∷◌, ◌++◌, length, take, drop,
  ◌≡◌, refl, append-nil, arith, ltb,
}
use redisdal.Text.{Bytes}
use redisdal.Text.Decimal.{decimal, read_digits, read_digits-decimal}
use redisdal.CmdOps.Accepts.{YieldsIf, yields, YieldsIf-guard, YieldsIf-unit}
use redisdal.CmdOps.Arguments.{max_script_keys, append_arguments, script_arguments}

-- A server reads the count behind the script, and takes that many arguments as keys.
pub record ScriptCall : Type 0 where
  pub command : Bytes
  pub script : Bytes
  pub keys : List Bytes
  pub args : List Bytes

split_at_count : Bytes → Bytes → ℕ → List Bytes → ScriptCall
split_at_count command script n rest = record {
  command = command;
  script = script;
  keys = take n rest;
  args = drop n rest;
}

unfoldable pub read_call : List Bytes → Option ScriptCall
unfolding split_at_count
read_call (command ∷ script ∷ count ∷ rest) =
    some (split_at_count command script (read_digits 0 count).0 rest)
read_call _ = none

drop-++ : (xs ys : List Bytes) → drop (length xs) (xs ++ ys) ≡ ys
drop-++ [] ys = refl
drop-++ (x ∷ xs) ys = drop-++ xs ys

count_read : (n : ℕ) → read_digits 0 (decimal n) ≡ (n, [])
unfolding read_digits
count_read n = rw (append-nil (decimal n)) at (read_digits-decimal n [])

many : (n : ℕ) → ltb max_script_keys n ≡ true → ¬ (n ≤ 64)
many n h = ground arith

few : (n : ℕ) → ltb max_script_keys n ≡ false → n ≤ 64
few n h = ground arith

-- What `script_arguments` composes, for at most 64 keys, is read by a server as the same command,
-- script, keys and arguments, whatever these are; for more keys an exception is thrown.
pub script_arguments-read_call :
    (command script : Bytes) (keys args : List Bytes)
    → (argv : List Bytes) × YieldsIf
        (length keys ≤ 64)
        argv
        (script_arguments command script keys args)
      × (read_call argv
          ≡ some (record { command = command; script = script; keys = keys; args = args }))
unfolding script_arguments append_arguments read_call
script_arguments-read_call command script keys args = (
  command ∷ script ∷ decimal (length keys) ∷ (keys ++ args),
  YieldsIf-unit (
      YieldsIf-guard (ltb max_script_keys (length keys)) _ (many (length keys)) (few (length keys))
        (yields tt)),
  rw (count_read (length keys), take-append keys args, drop-++ keys args),
)
