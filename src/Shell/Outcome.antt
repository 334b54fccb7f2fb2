-- ===== src/Shell/Outcome.antt =====
-- What the shell of Shelllab/whoosh.c does for given answers of the system.
use cs4400_fall.Prelude.{
  ℕ, zero, suc, ◌+◌, ◌-◌, ◌^◌, ◌<◌, ◌≡◌, ◌≢◌, refl, ap, false, List, [], ◌∷◌, Option, none, some,
  ◌==◌, if◌then◌else◌, length, get_elem?, store, arith,
}
use cs4400_fall.CString.{Bytes}
use cs4400_fall.Script.{Var, Command, Mode, Group}
use cs4400_fall.Script.Printer.{print_int}
use cs4400_fall.Shell.{
  Status, exited, signaled, stopped, Signal, Shell, Request, finished, crash, exec, fork, wait,
  waitpid, kill, pipe, dup2, close, name_current, set_pid_to, set_value, set_var, current,
  set_current, next_slot, set_status_to_list, is_untraced, note_stopped, report, run_command,
  argv_of,
}
use cs4400_fall.Shell.Groups.{run_once, repeat_group, run_group}

-- The answers to fork, wait and pipe, in order.
pub data Answer : Type 0 where
  pid_is : ℕ → Answer
  child_is : ℕ → Status → Answer
  fds_are : ℕ → ℕ → Answer

-- What the shell has done.
pub data Event : Type 0 where
  forked : (child : Request) → Event
  awaited : ℕ → Event
  killed : ℕ → Signal → Event

abbrev pub with_event : Event → Option (List Event × Shell) → Option (List Event × Shell)
with_event e none = none
with_event e (some (es, s)) = some (e ∷ es, s)

-- The run of the shell's own process: `none` where it crashes, or answers are missing.
unfoldable pub outcome : Request → List Answer → Option (List Event × Shell)
outcome (finished s) answers = some ([], s)
outcome crash answers = none
outcome (exec argv) answers = none
outcome (fork child next) (pid_is pid ∷ answers) =
    with_event (forked child) (outcome (next pid) answers)
outcome (wait next) (child_is pid status ∷ answers) =
    with_event (awaited pid) (outcome (next pid status) answers)
outcome (waitpid pid next) answers = with_event (awaited pid) (outcome next answers)
outcome (kill pid signal next) answers = with_event (killed pid signal) (outcome next answers)
outcome (pipe next) (fds_are r w ∷ answers) = outcome (next r w) answers
outcome (dup2 oldfd newfd next) answers = outcome next answers
outcome (close fd next) answers = outcome next answers
outcome _ _ = none

store-within :
    (slots : List (Option ℕ)) (i : ℕ) (v : Option ℕ)
    → i < length slots
    → (slots' : List (Option ℕ)) × (store slots i v ≡ some slots') × (get_elem? slots' i ≡ some v)
store-within [] i v l = absurd (omega arith)
store-within (x ∷ slots) zero v l = (v ∷ slots, refl, refl)
store-within (x ∷ slots) (suc i) v l =
    let (slots', e, g) = store-within slots i v (omega arith) in (x ∷ slots', rw e refl, g)

-- What a variable holds.
abbrev pub value_of : List Var → ℕ → Option Bytes
value_of vars i = elim (get_elem? vars i) [ none ↦ none | some v ↦ some v.value ]

value_of-set_value :
    (vars : List Var) (i j : ℕ) (value : Bytes)
    → i < length vars
    → value_of (set_value vars i value) j ≡ (if j == i then some value else value_of vars j)
unfolding set_value
value_of-set_value [] i j value l = absurd (omega arith)
value_of-set_value (v ∷ vars) zero zero value l = refl
value_of-set_value (v ∷ vars) zero (suc j) value l =
    let other : (suc j == 0) ≡ false = ground arith in rw other refl
value_of-set_value (v ∷ vars) (suc i) zero value l =
    let other : (0 == suc i) ≡ false = ground arith in rw other refl
value_of-set_value (v ∷ vars) (suc i) (suc j) value l =
    let same : (suc j == suc i) ≡ (j == i) = ground arith in
    rw same (value_of-set_value vars i j value (omega arith))

-- The number for a status: the exit code, or the signal's with a minus.
abbrev pub status_number : Status → ℕ
status_number (exited code) = code
status_number (signaled sig) = 2 ^ 32 - sig
status_number stopped = 0

pub not_untraced : (status : Status) → is_untraced status ≡ false
unfolding is_untraced
not_untraced (exited code) = refl
not_untraced (signaled sig) = refl
not_untraced stopped = refl

module _ (s : Shell) (c : Command) (var : ℕ) (mode : Mode) (named : c.pid_to ≡ none)
    (room : s.var_index < length s.var_list) where
  abbrev reported : List (Option ℕ) → ℕ → ℕ → Shell
  reported slots pid number = record s {
    vars = set_value s.vars var (print_int number []);
    var_list = slots;
    var_index = s.var_index + 1;
    array = pid ∷ [];
  }

  abbrev group : Group
  group = record { mode = mode; repeats = 1; result_to = some var; commands = c ∷ [] }

  module _ (slots : List (Option ℕ)) (e : store s.var_list s.var_index (some var) ≡ some slots)
      (g : get_elem? slots s.var_index ≡ some (some var)) where
    abbrev with_slots : Shell
    with_slots = record s { var_list = slots }

    name_current-some : name_current var s ≡ some with_slots
    unfolding name_current
    name_current-some =
        ap (λ o. elim o [ none ↦ none | some new ↦ some (record s { var_list = new }) ]) e

    set_current-some :
        (pid n : ℕ)
        → set_current n (record with_slots { array = pid ∷ [] })
          ≡ some (set_var var n (record with_slots { array = pid ∷ [] }))
    unfolding set_current current
    set_current-some pid n =
        let slot : current (record with_slots { array = pid ∷ [] }) ≡ some var =
          ap (λ o. elim o [ none ↦ none | some v ↦ v ]) g in
        ap
          (λ o. elim o [
            | none ↦ none
            | some v ↦ some (set_var v n (record with_slots { array = pid ∷ [] }))
          ])
          slot

    set_pid_to-none : (pid : ℕ) (t : Shell) → set_pid_to c.pid_to pid t ≡ some t
    unfolding set_pid_to
    set_pid_to-none pid t = rw named refl

    set_status-some :
        (pid : ℕ) (status : Status)
        → status ≢ stopped
        → set_status_to_list status (record with_slots { array = pid ∷ [] })
          ≡ some (reported slots pid (status_number status))
    unfolding set_status_to_list set_var
    set_status-some pid (exited code) n =
        ap (λ o. elim o [ none ↦ none | some t ↦ some (next_slot t) ]) (set_current-some pid code)
    set_status-some pid (signaled sig) n =
        ap (λ o. elim o [ none ↦ none | some t ↦ some (next_slot t) ])
          (set_current-some pid (2 ^ 32 - sig))
    set_status-some pid stopped n = absurd (n refl)

    ended :
        (pid done : ℕ) (status : Status)
        → status ≢ stopped
        → outcome (run_group group s finished) (pid_is pid ∷ child_is done status ∷ [])
          ≡ some (
            forked (exec (argv_of s.vars c)) ∷ awaited done ∷ [],
            reported slots pid (status_number status),
          )
    unfolding outcome run_group repeat_group run_once run_command report note_stopped
    ended pid done status n =
        rw
          (
            name_current-some,
            set_pid_to-none 0 (record with_slots { array = 0 ∷ [] }),
            set_pid_to-none pid (record with_slots { array = pid ∷ [] }),
            not_untraced status,
            set_status-some pid status n,
          )
          refl

-- A group of one command for a variable that is run once: the shell forks a child that runs the
-- command, waits, and the variable then holds the exit code in decimal, or the signal with a minus,
-- and every other variable what it held. The command has no variable for its process, the shell's
-- list of variables has room, the variable is one of the table, and the child has ended and is not
-- just stopped.
pub run_group-status :
    (s : Shell) (c : Command) (var pid done : ℕ) (mode : Mode) (status : Status)
    → c.pid_to ≡ none
    → s.var_index < length s.var_list
    → var < length s.vars
    → status ≢ stopped
    → (s' : Shell) × (outcome
          (run_group
            (record { mode = mode; repeats = 1; result_to = some var; commands = c ∷ [] })
            s
            finished)
          (pid_is pid ∷ child_is done status ∷ [])
        ≡ some (forked (exec (argv_of s.vars c)) ∷ awaited done ∷ [], s'))
      × ((j : ℕ)
          → value_of s'.vars j
            ≡ (if j == var then some (print_int (status_number status) []) else value_of s.vars j))
run_group-status s c var pid done mode status named room known n =
    let (slots, e, g) = store-within s.var_list s.var_index (some var) room in
    (
      reported s c var mode named room slots pid (status_number status),
      ended s c var mode named room slots e g pid done status n,
      λ j. value_of-set_value s.vars var j (print_int (status_number status) []) known,
    )
