-- ===== src/Shell/Groups.antt =====
-- Shelllab/whoosh.c: groups and scripts.
use cs4400_fall.Prelude.{
  ℕ, zero, suc, ◌^◌, Bool, true, false, List, [], ◌∷◌, ◌++◌, none, some, ◌==◌, ltb, if◌then◌else◌,
}
use cs4400_fall.Script.{Command, Mode, group_single, group_and, group_or, Group}
use cs4400_fall.Shell.{
  sigterm, sigtstp, Shell, Request, finished, fork, wait, waitpid, kill, pipe, dup2, close,
  name_current, set_pid_to, run_and_command, or_crash, note_stopped, report, run_command,
}

-- The first loop of `handle_or`: a child for each command. Only the child sets `pid_to`.
unfoldable pub fork_all : Shell → List Command → (List ℕ → Request) → Request
fork_all s [] next = next []
fork_all s (c ∷ cs) next =
    let child : Request =
      or_crash (set_pid_to c.pid_to 0 (record s { array = s.array ++ 0 ∷ [] }))
        (run_and_command c) in
    fork child λ pid. fork_all s cs λ pids. next (pid ∷ pids)

-- The second loop of `handle_or`.
unfoldable pub kill_others : (first_pid : ℕ) → List ℕ → Request → Request
kill_others first_pid [] next = next
kill_others first_pid (pid ∷ pids) next =
    let rest = kill_others first_pid pids next in
    if pid == first_pid then rest else kill pid sigterm (waitpid pid rest)

unfoldable pub handle_or : List Command → Bool → Shell → (Shell → Request) → Request
handle_or cs flag s next = fork_all s cs λ pid_list. wait λ first_pid status.
    kill_others first_pid pid_list (report flag status (note_stopped first_pid status s) next)

abbrev stdin : ℕ
stdin = 0

abbrev stdout : ℕ
stdout = 1

unfoldable pub redirect : ℕ → ℕ → Request → Request
redirect oldfd newfd next = if oldfd == newfd then next else dup2 oldfd newfd (close oldfd next)

-- The process that calls `handle_pipe` becomes the last command. Both sides of a fork set
-- `pid_to` before they go on.
unfoldable pub handle_pipe : List Command → (in_fd : ℕ) → Shell → Request
handle_pipe [] in_fd s = finished s
handle_pipe (c ∷ []) in_fd s = redirect in_fd stdin (run_and_command c s)
handle_pipe (c ∷ d ∷ cs) in_fd s = pipe λ read_end write_end.
    let child : Request = or_crash (set_pid_to c.pid_to 0 (record s { array = 0 ∷ [] })) λ s'.
      close read_end (redirect in_fd stdin (redirect write_end stdout (run_and_command c s'))) in
    fork child λ pid.
      or_crash (set_pid_to c.pid_to pid (record s { array = pid ∷ [] }))
        λ s'. close write_end (close in_fd (handle_pipe (d ∷ cs) read_end s'))

unfoldable pub run_each : List Command → Bool → Shell → (Shell → Request) → Request
run_each [] flag s next = next s
run_each (c ∷ cs) flag s next = run_command c flag s λ s'. run_each cs flag s' next

-- One round of the loop of `run_group`.
unfoldable pub run_once : Mode → List Command → Bool → Shell → (Shell → Request) → Request
run_once mode (c ∷ []) flag s next = run_command c flag s next
run_once group_and cs flag s next = fork (handle_pipe cs stdin s) λ pid. wait λ done status. next s
run_once group_or cs flag s next = handle_or cs flag s next
run_once group_single cs flag s next = run_each cs flag s next

unfoldable pub repeat_group : ℕ → Mode → List Command → Bool → Shell → (Shell → Request) → Request
repeat_group zero mode cs flag s next = next s
repeat_group (suc n) mode cs flag s next =
    run_once mode cs flag s λ s'. repeat_group n mode cs flag s' next

-- A negative `repeats` runs nothing.
abbrev pub rounds_of : ℕ → ℕ
rounds_of repeats = if ltb repeats (2 ^ 31) then repeats else 0

unfoldable pub run_group : Group → Shell → (Shell → Request) → Request
run_group g s next = elim g.result_to [
  | none ↦ repeat_group (rounds_of g.repeats) g.mode g.commands false s next
  | some var ↦
      or_crash (name_current var s)
        λ s'. repeat_group (rounds_of g.repeats) g.mode g.commands true s' next
]

unfoldable pub run_groups : List Group → Shell → (Shell → Request) → Request
run_groups [] s next = next s
run_groups (g ∷ groups) s next =
    run_group g s λ s'. run_groups groups (record s' { array = [] }) next

-- The last loop of `run_script`.
unfoldable pub stop_all : List ℕ → Request → Request
stop_all [] next = next
stop_all (pid ∷ pids) next = kill pid sigtstp (waitpid pid (stop_all pids next))

unfoldable pub run_script : List Group → Shell → Request
run_script (g ∷ []) s = run_group g s finished
run_script groups s = run_groups groups s λ s'. stop_all s'.continued_list (finished s')
