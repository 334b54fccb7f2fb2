-- ===== src/Script.antt =====
-- Shelllab/ast.h and the scripts of Shelllab/parse.c: the syntax tree of a `whoosh` script, and
-- the outcome of parsing it. A pointer to a variable is its index in the table of variables. A
-- call of `fail` ends the program; here it is an error with what its message prints.
pub mod Tokens
pub mod Parser
pub mod Printer
pub mod Printed
pub mod Commands
pub mod Numbers
pub mod Signs
pub mod Groups
pub mod File
pub mod Shrinks
pub mod Rounds
pub mod Refusals
use cs4400_fall.Prelude.{ℕ, List, Option, ◌≡◌}
use cs4400_fall.CString.{Bytes}

-- script_var
pub record Var : Type 0 where
  pub name : Bytes
  pub value : Bytes

-- script_argument
pub data Argument : Type 0 where
  argument_literal : Bytes → Argument
  argument_variable : ℕ → Argument

-- script_command
pub record Command : Type 0 where
  pub program : Bytes
  pub arguments : List Argument
  pub pid_to : Option ℕ

pub data Mode : Type 0 where
  group_single group_and group_or : Mode

-- script_group; `repeats` is the 32 bits of an `int`.
pub record Group : Type 0 where
  pub mode : Mode
  pub repeats : ℕ
  pub result_to : Option ℕ
  pub commands : List Command

-- The calls of `fail`, with the texts behind `at:`, `after:` and `in:`.
pub data Error : Type 0 where
  cannot_open line_too_long repeat_alone not_a_variable : Error
  non_ascii invalid_repeat missing_command missing_after_combiner : (line : Bytes) → Error
  expected_equal : (after : ℕ) (line : Bytes) → Error
  expected_combiner : (mode : Mode) (at line : Bytes) → Error
  mixed_combiners bad_variable bad_command command_goes_on expected_variable unterminated_quote
        bad_literal :
      (at line : Bytes) → Error

-- `out_of_rounds` has no counterpart in the program.
pub data Result {ℓ} (A : Type ℓ) : Type ℓ where
  ok : A → Result A
  failed : Error → Result A
  out_of_rounds : Result A

infixl 5 ◌>>=◌
abbrev pub ◌>>=◌ {ℓ κ} : {A : Type ℓ} {B : Type κ} → Result A → (A → Result B) → Result B
ok a >>= f = f a
failed e >>= f = failed e
out_of_rounds >>= f = out_of_rounds

-- A run that is not out of rounds, with `P` of its value if it has one.
pub data Ensures {ℓ κ} {A : Type ℓ} (P : A → Type κ) : Result A → Type (ℓ ⊔ κ) where
  holds : {a : A} → P a → Ensures P (ok a)
  refused : {e : Error} → Ensures P (failed e)
