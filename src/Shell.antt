-- ===== src/Shell.antt =====
-- Shelllab/whoosh.c: how the shell runs a script. What a process asks of the system is a tree:
-- each request with what the process does for each answer, and a fork with what the child does.
-- The wrappers of csapp.c end the process on an error, so an answer is never one. The signal
-- handler and the process groups are left out. A write behind the block of an empty array is
-- taken to succeed, as it does in the smallest block that malloc hands out.
pub mod Groups
pub mod Outcome
pub mod Race
use cs4400_fall.Prelude.{
  ℕ, zero, suc, ◌+◌, ◌-◌, ◌^◌, Bool, true, false, List, [], ◌∷◌, ◌++◌, map, Option, none, some,
  ◌==◌, ltb, if◌then◌else◌, length, get_elem?, set, store, replicate,
}
use cs4400_fall.CString.{Bytes}
use cs4400_fall.Script.{
  Var, Argument, argument_literal, argument_variable, Command, Mode, group_single, group_and,
  group_or, Group,
}
use cs4400_fall.Script.Printer.{print_int}

-- What wait reports of a child: WIFEXITED, WIFSIGNALED, WIFSTOPPED.
pub data Status : Type 0 where
  exited signaled : ℕ → Status
  stopped : Status

pub data Signal : Type 0 where
  sigterm sigtstp : Signal

-- The global variables, with the variables of the script. `var_list` has VAR slots.
pub record Shell : Type 0 where
  pub vars : List Var
  pub var_list : List (Option ℕ)
  pub var_index : ℕ
  pub array : List ℕ
  pub continued_list : List ℕ

-- `exec` is the end of a process that becomes another program.
pub data Request : Type 0 where
  finished : Shell → Request
  -- A read through NULL, or an access outside `var_list`.
  crash : Request
  exec : (argv : List Bytes) → Request
  fork : (child : Request) → (ℕ → Request) → Request
  wait : (ℕ → Status → Request) → Request
  waitpid : ℕ → Request → Request
  kill : ℕ → Signal → Request → Request
  pipe : (ℕ → ℕ → Request) → Request
  dup2 : (oldfd newfd : ℕ) → Request → Request
  close : ℕ → Request → Request

-- VAR
abbrev pub max_var : ℕ
max_var = 50

unfoldable pub start : List Var → Shell
start vars = record {
  vars = vars;
  var_list = replicate max_var none;
  var_index = 0;
  array = [];
  continued_list = [];
}

-- The value of an argument; the parser makes no pointer past the table.
unfoldable pub argument_value : List Var → Argument → Bytes
argument_value vars (argument_literal literal) = literal
argument_value vars (argument_variable i) = elim (get_elem? vars i) [ none ↦ [] | some v ↦ v.value ]

unfoldable pub argument_values : List Var → List Argument → List Bytes
argument_values vars [] = []
argument_values vars (a ∷ more) = argument_value vars a ∷ argument_values vars more

-- The argument vector of a command.
unfoldable pub argv_of : List Var → Command → List Bytes
argv_of vars c = c.program ∷ argument_values vars c.arguments

unfoldable pub set_value : List Var → ℕ → Bytes → List Var
set_value [] i value = []
set_value (v ∷ vars) zero value = record v { value = value } ∷ vars
set_value (v ∷ vars) (suc i) value = v ∷ set_value vars i value

-- `set_var`, for the 32 bits of an `int`.
unfoldable pub set_var : ℕ → ℕ → Shell → Shell
set_var var new_value s = record s { vars = set_value s.vars var (print_int new_value []) }

-- `var_list[var_index]`, where it is set.
unfoldable pub current : Shell → Option ℕ
current s = elim (get_elem? s.var_list s.var_index) [ none ↦ none | some var ↦ var ]

-- `var_list[var_index] = var`
unfoldable pub name_current : ℕ → Shell → Option Shell
name_current var s = elim (store s.var_list s.var_index (some var)) [
  | none ↦ none
  | some slots ↦ some (record s { var_list = slots })
]

-- `set_var(var_list[var_index], new_value)`, a `none` where the slot is NULL or outside.
unfoldable pub set_current : ℕ → Shell → Option Shell
set_current new_value s = elim (current s) [
  | none ↦ none
  | some var ↦ some (set_var var new_value s)
]

abbrev pub next_slot : Shell → Shell
next_slot s = record s { var_index = s.var_index + 1 }

-- A step that may crash, in front of the rest.
abbrev pub or_crash : Option Shell → (Shell → Request) → Request
or_crash none next = crash
or_crash (some s) next = next s

unfoldable pub set_status_to_list : Status → Shell → Option Shell
set_status_to_list (exited code) s = elim (set_current code s) [
  | none ↦ none
  | some s' ↦ some (next_slot s')
]
set_status_to_list (signaled sig) s = elim (set_current (2 ^ 32 - sig) s) [
  | none ↦ none
  | some s' ↦ some (next_slot s')
]
set_status_to_list stopped s = some (next_slot s)

-- The test `WUNTRACED == WIFSTOPPED(status)`: 2 against 0 or 1.
unfoldable pub is_untraced : Status → Bool
is_untraced stopped = 2 == 1
is_untraced _ = 2 == 0

unfoldable pub note_stopped : ℕ → Status → Shell → Shell
note_stopped pid status s = if is_untraced status then record s { continued_list = pid ∷ [] } else s

-- What all kinds of groups do last.
unfoldable pub report : Bool → Status → Shell → (Shell → Request) → Request
report flag status s next = if flag then or_crash (set_status_to_list status s) next else next s

-- The branch for `pid_to` of a command.
unfoldable pub set_pid_to : Option ℕ → ℕ → Shell → Option Shell
set_pid_to none pid s = some s
set_pid_to (some var) pid s = elim (name_current var s) [
  | none ↦ none
  | some s' ↦ elim (set_current pid s') [ none ↦ none | some s'' ↦ some (next_slot s'') ]
]

-- Parent and child both set `pid_to`, the child to 0; the arguments are from before.
unfoldable pub run_command : Command → Bool → Shell → (Shell → Request) → Request
run_command c flag s next =
    let argv = argv_of s.vars c in
    let child : Request =
      or_crash (set_pid_to c.pid_to 0 (record s { array = 0 ∷ [] })) λ _. exec argv in
    fork child λ pid.
      or_crash (set_pid_to c.pid_to pid (record s { array = pid ∷ [] }))
        λ s'. wait λ done status. report flag status (note_stopped done status s') next

-- The end of a child in a group of several commands.
unfoldable pub run_and_command : Command → Shell → Request
run_and_command c s = exec (argv_of s.vars c)
