-- ===== src/Shell/Race.antt =====
-- Groups joined by `||` in Shelllab/whoosh.c: the first child to end stops the others.
use cs4400_fall.Prelude.{
  ℕ, ◌≡◌, refl, ap, ◌∙◌, Bool, true, false, List, [], ◌∷◌, ◌++◌, map, Option, none, some, ◌==◌,
  if◌then◌else◌, length, arith, Bool-cases, inl, inr, append-nil,
}
use cs4400_fall.Script.{Command}
use cs4400_fall.Shell.{
  Status, sigterm, Shell, Request, finished, wait, set_pid_to, or_crash, run_and_command,
  note_stopped, report, set_status_to_list,
}
use cs4400_fall.Shell.Groups.{fork_all, kill_others, handle_or}
use cs4400_fall.Shell.Outcome.{
  Answer, pid_is, child_is, Event, forked, awaited, killed, with_event, outcome, not_untraced,
}

abbrev with_events : List Event → Option (List Event × Shell) → Option (List Event × Shell)
with_events [] o = o
with_events (e ∷ es) o = with_event e (with_events es o)

with_events-some :
    (es es' : List Event) (s : Shell) → with_events es (some (es', s)) ≡ some (es ++ es', s)
with_events-some [] es' s = refl
with_events-some (e ∷ es) es' s = ap (with_event e) (with_events-some es es' s)

-- A child for each command.
abbrev pub children : Shell → List Command → List Event
children s [] = []
children s (c ∷ cs) =
    forked (
      or_crash (set_pid_to c.pid_to 0 (record s { array = s.array ++ 0 ∷ [] })) (run_and_command c))
    ∷ children s cs

-- Every process but the first one to end is killed, and waited for.
abbrev pub stopped_others : ℕ → List ℕ → List Event
stopped_others first [] = []
stopped_others first (pid ∷ pids) =
    if pid == first
    then stopped_others first pids
    else killed pid sigterm ∷ awaited pid ∷ stopped_others first pids

outcome-fork_all :
    (s : Shell) (cs : List Command) (pids : List ℕ) (next : List ℕ → Request)
    (answers : List Answer)
    → length pids ≡ length cs
    → outcome (fork_all s cs next) (map pid_is pids ++ answers)
      ≡ with_events (children s cs) (outcome (next pids) answers)
unfolding fork_all outcome
outcome-fork_all s [] [] next answers l = refl
outcome-fork_all s [] (pid ∷ pids) next answers l = absurd (omega arith)
outcome-fork_all s (c ∷ cs) [] next answers l = absurd (omega arith)
outcome-fork_all s (c ∷ cs) (pid ∷ pids) next answers l =
    ap
      (with_event (
        forked (
          or_crash (set_pid_to c.pid_to 0 (record s { array = s.array ++ 0 ∷ [] }))
            (run_and_command c))))
      (outcome-fork_all s cs pids (λ more. next (pid ∷ more)) answers (omega arith))

outcome-kill_others :
    (first : ℕ) (pids : List ℕ) (next : Request)
    → outcome (kill_others first pids next) []
      ≡ with_events (stopped_others first pids) (outcome next [])
unfolding kill_others outcome
outcome-kill_others first [] next = refl
outcome-kill_others first (pid ∷ pids) next = elim (Bool-cases (pid == first)) [
  | inl same ↦ rw same (outcome-kill_others first pids next)
  | inr other ↦ rw other (
      ap (λ o. with_event (killed pid sigterm) (with_event (awaited pid) o))
        (outcome-kill_others first pids next))
]

-- What the shell is behind its report of a status: for a result's variable, as
-- `set_status_to_list` leaves it.
abbrev pub reported : Bool → Status → Shell → Option Shell
reported true status s = set_status_to_list status s
reported false status s = some s

abbrev pub after : List Event → Option Shell → Option (List Event × Shell)
after es none = none
after es (some s) = some (es, s)

with_events-after :
    (es es' : List Event) (o : Option Shell) → with_events es (after es' o) ≡ after (es ++ es') o
with_events-after [] es' none = refl
with_events-after (e ∷ es) es' none = ap (with_event e) (with_events-after es es' none)
with_events-after es es' (some s) = with_events-some es es' s

outcome-report :
    (flag : Bool) (first : ℕ) (status : Status) (s : Shell)
    → outcome (report flag status (note_stopped first status s) finished) []
      ≡ after [] (reported flag status s)
unfolding report note_stopped outcome
outcome-report false first status s = rw (not_untraced status) refl
outcome-report true first status s = rw (not_untraced status) (go (set_status_to_list status s))
  where
    go : (o : Option Shell) → outcome (or_crash o finished) [] ≡ after [] o
    go none = refl
    go (some t) = refl

-- A group joined by `||`, with a variable for its result or without: the shell forks a child for
-- each command, waits for the first one to end, then kills and waits for just the processes of the
-- group that are not that one, and at last reports the status of the first one to the variable,
-- if there is one; it crashes just where `set_status_to_list` does.
pub handle_or-stops :
    (s : Shell) (flag : Bool) (cs : List Command) (pids : List ℕ) (first : ℕ) (status : Status)
    → length pids ≡ length cs
    → outcome (handle_or cs flag s finished) (map pid_is pids ++ child_is first status ∷ [])
      ≡ after (children s cs ++ awaited first ∷ stopped_others first pids) (reported flag status s)
unfolding handle_or
handle_or-stops s flag cs pids first status l =
    let rest : Request = report flag status (note_stopped first status s) finished in
    let others : outcome (kill_others first pids rest) []
        ≡ after (stopped_others first pids) (reported flag status s) =
      outcome-kill_others first pids rest
      ∙ ap (with_events (stopped_others first pids)) (outcome-report flag first status s)
      ∙ with_events-after (stopped_others first pids) [] (reported flag status s)
      ∙ ap (λ es. after es (reported flag status s)) (append-nil (stopped_others first pids)) in
    let reaped : outcome
          (wait λ first_pid status'.
            kill_others first_pid pids
              (report flag status' (note_stopped first_pid status' s) finished))
          (child_is first status ∷ [])
        ≡ after (awaited first ∷ stopped_others first pids) (reported flag status s) =
      unfold outcome in
      ap (with_event (awaited first)) others
      ∙ with_events-after (awaited first ∷ []) (stopped_others first pids)
          (reported flag status s) in
    outcome-fork_all s cs pids _ (child_is first status ∷ []) l
    ∙ ap (with_events (children s cs)) reaped
    ∙ with_events-after (children s cs) (awaited first ∷ stopped_others first pids)
        (reported flag status s)
