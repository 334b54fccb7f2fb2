-- ===== src/Tests/Shell.antt =====
-- Shelllab/whoosh.c: groups of one command, and of three that race.
use cs4400_fall.Prelude.{
  ℕ, ◌≡◌, refl, true, List, [], ◌∷◌, ◌++◌, none, some, map, ◌==◌, if◌then◌else◌, arith,
}
use cs4400_fall.CString.{codes, digits}
use cs4400_fall.Script.{Var, Command, argument_variable, group_single}
use cs4400_fall.Script.Printer.{print_int}
use cs4400_fall.Shell.{
  set_value, Shell, exited, signaled, exec, finished, argv_of, set_pid_to, name_current,
  set_current, current, set_var, set_status_to_list, report, note_stopped, is_untraced, run_command,
}
use cs4400_fall.Shell.Groups.{run_group, repeat_group, run_once, handle_or}
use cs4400_fall.Shell.Outcome.{
  pid_is, child_is, forked, awaited, outcome, value_of, status_number, run_group-status,
}
use cs4400_fall.Shell.Race.{children, stopped_others, reported, after, handle_or-stops}

abbrev table : List Var
table =
    record { name = codes "x"; value = codes "0" }
    ∷ record { name = codes "y"; value = codes "7" }
    ∷ []

abbrev sleep : Command
sleep = record { program = codes "sleep"; arguments = argument_variable 1 ∷ []; pid_to = none }

abbrev shell : Shell
shell = record {
  vars = table;
  var_list = none ∷ none ∷ [];
  var_index = 0;
  array = [];
  continued_list = [];
}

run_group-status_example :
    (s' : Shell) × (outcome
        (run_group
          (record { mode = group_single; repeats = 1; result_to = some 0; commands = sleep ∷ [] })
          shell
          finished)
        (pid_is 41 ∷ child_is 41 (signaled 15) ∷ [])
      ≡ some (forked (exec (argv_of table sleep)) ∷ awaited 41 ∷ [], s'))
    × ((j : ℕ)
        → value_of s'.vars j ≡ (
            if j == 0 then some (print_int (status_number (signaled 15)) []) else value_of table j))
run_group-status_example =
    run_group-status shell sleep 0 41 41 group_single (signaled 15) refl (omega arith) (omega arith)
      (cc)

-- The shell with the first variable for the result.
abbrev told : Shell
told = record shell { var_list = some 0 ∷ none ∷ [] }

handle_or-stops_example :
    outcome
      (handle_or (sleep ∷ sleep ∷ sleep ∷ []) true told finished)
      (map pid_is (5 ∷ 6 ∷ 7 ∷ []) ++ child_is 6 (exited 0) ∷ [])
    ≡ after
        (children told (sleep ∷ sleep ∷ sleep ∷ [])
          ++ awaited 6 ∷ stopped_others 6 (5 ∷ 6 ∷ 7 ∷ []))
        (reported true (exited 0) told)
handle_or-stops_example =
    handle_or-stops told true (sleep ∷ sleep ∷ sleep ∷ []) (5 ∷ 6 ∷ 7 ∷ []) 6 (exited 0) refl

-- That report sets the variable.
told_run :
    reported true (exited 0) told
    ≡ some (record told { vars = set_value table 0 (codes "0"); var_index = 1 })
unfolding set_status_to_list set_current current set_var print_int digits
told_run = refl

-- A command with a variable for its process, in a group with a variable for the result: the
-- status goes to the slot behind, which is NULL.
abbrev named : Command
named = record { program = codes "ls"; arguments = []; pid_to = some 1 }

both_run :
    outcome
      (run_group
        (record { mode = group_single; repeats = 1; result_to = some 0; commands = named ∷ [] })
        shell
        finished)
      (pid_is 41 ∷ child_is 41 (exited 0) ∷ [])
    ≡ none
unfolding outcome run_group repeat_group run_once run_command set_pid_to name_current set_current
    current set_var set_status_to_list report note_stopped is_untraced
both_run = refl
