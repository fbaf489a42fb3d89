-- ===== src/Shell/Signals.antt =====
-- The signal handlers of shlab-handout/tsh.c. The kernel's part, which process changed and how, is
-- an argument. A null pointer that is followed is `none`.
use cmu_ics.Prelude.{
  ℕ, Option, none, some, List, [], ◌∷◌, ◌++◌, Bool, true, false, if◌then◌else◌, get_elem?, set,
}
use cmu_ics.Prelude.Int.{ℤ}
use cmu_ics.Shell.Jobs.{
  Job, JobState, bg, st, Shell, slot_of_fg, pid_at, getjobpid, deletejob, pid2jid,
}

-- What `waitpid` reports of a process: the four tests on `status` exclude one another.
pub data Status : Type 0 where
  exited : ℕ → Status
  signaled : ℕ → Status
  stopped : ℕ → Status
  continued : Status

-- The lines that the shell prints, with what is filled in.
pub data Message : Type 0 where
  job_terminated : ℕ → ℕ → ℕ → Message
  job_stopped : ℕ → ℕ → ℕ → Message
  job_continued : ℕ → ℕ → Message
  job_running : ℕ → ℕ → List ℕ → Message
  requires_argument : List ℕ → Message
  must_be_pid : Message
  no_such_process : ℤ → Message
  no_such_job : ℤ → Message
  job_line : Job → Message

-- `job->state = state` at slot `i`.
unfoldable pub set_state : Shell → ℕ → JobState → Shell
set_state s i state = elim (get_elem? s.jobs i) [
  | none ↦ s
  | some j ↦ record s { jobs = set s.jobs i (record j { state = state }) }
]

abbrev pub is_st : JobState → Bool
is_st state = elim state [ st ↦ true | _ ↦ false ]

-- `if (job->state == ST) job->state = BG;`
unfoldable pub continue_job : Shell → ℕ → Shell
continue_job s i = elim (get_elem? s.jobs i) [
  | none ↦ s
  | some j ↦ if is_st j.state then set_state s i bg else s
]

-- The body of the loop of `sigchld_handler`.
unfoldable pub handle_child : Shell → ℕ → Status → Option (Shell × List Message)
handle_child s pid (exited code) = some ((deletejob s pid).0, [])
handle_child s pid (signaled sig) =
    some ((deletejob s pid).0, job_terminated (pid2jid s pid) pid sig ∷ [])
handle_child s pid (stopped sig) = elim (getjobpid s pid) [
  | none ↦ none
  | some i ↦ some (set_state s i st, job_stopped (pid2jid s pid) pid sig ∷ [])
]
handle_child s pid continued = elim (getjobpid s pid) [
  | none ↦ none
  | some i ↦ some (continue_job s i, job_continued (pid2jid s pid) pid ∷ [])
]

unfoldable pub sigchld_handler : Shell → List (ℕ × Status) → Option (Shell × List Message)
sigchld_handler s [] = some (s, [])
sigchld_handler s ((pid, status) ∷ rest) = elim (handle_child s pid status) [
  | none ↦ none
  | some (s', said) ↦ elim (sigchld_handler s' rest) [
    | none ↦ none
    | some (s'', more) ↦ some (s'', said ++ more)
  ]
]

-- `sigint_handler` and `sigtstp_handler`: the process group that the signal is sent on to, if any.
unfoldable pub forward_signal : Shell → Option ℕ
forward_signal s = elim (slot_of_fg s.jobs) [ none ↦ none | some i ↦ some (pid_at s.jobs i) ]
