-- ===== src/Shell/System.antt =====
-- The shell of shlab-handout/tsh.c and its children as steps that may follow one another in any
-- order. `eval` blocks SIGCHLD from before `fork` until the job is in the list, so that is one step;
-- `do_bgfg` does not block it from the search to the change of the state, nor from there to
-- the call of `waitfg`, so these are three. Steps of the handler are not excluded while signals are blocked
-- for good.
pub mod Foreground
pub mod Safety
pub mod Stuck
use cmu_ics.Prelude.{ℕ, ◌≡◌, ◌≢◌, ◌⊎◌, inl, inr, some, List, Bool}
use cmu_ics.Prelude.Int.{ℤ}
use cmu_ics.Shell.Jobs.{Shell, initjobs, fgpid}
use cmu_ics.Shell.Jobs.Table.{HasPid}
use cmu_ics.Shell.Signals.{Status, Message, handle_child}
use cmu_ics.Shell.Command.{
  Builtin, do_quit, do_jobs, do_bgfg, nothing, builtin, launch, eval, add_child, say, slot, Mask,
  select_job, resume_job, resumed_job, wants_fg,
}

-- Where the shell is: at its prompt, in `do_bgfg` with the slot it found, there behind the
-- change of the state, in `waitfg`, or gone.
pub data Mode : Type 0 where
  prompt : Mode
  resuming : ℕ → Bool → Mode
  resumed : ℕ → Bool → Mode
  waiting : ℕ → Mode
  gone : Mode

pub record System : Type 0 where
  pub shell : Shell
  pub mode : Mode

abbrev pub start : System
start = record { shell = initjobs; mode = prompt }

-- `waitfg`, or back to the prompt.
abbrev pub mode_after : ℕ ⊎ Message → Mode
mode_after (inl pid) = waiting pid
mode_after (inr m) = prompt

pub data Step (strtol : List ℕ → ℤ) : System → System → Type 0 where
  -- A line that starts a process, to which the kernel gives a number that no job has.
  start_job :
      (s : Shell) (cmdline : List ℕ) (argv : List (List ℕ)) (in_bg : Bool) (pid : ℕ)
      → eval cmdline ≡ launch argv in_bg
      → pid ≢ 0
      → ¬ HasPid s pid
      → Step strtol
          (record { shell = s; mode = prompt })
          (record {
            shell = (add_child s pid in_bg cmdline).0;
            mode = mode_after (add_child s pid in_bg cmdline).1;
          })
  -- `fg` or `bg` finds its job.
  select :
      (s : Shell) (mask : Mask) (cmdline name : List ℕ) (args : List (List ℕ)) (i : ℕ)
      → eval cmdline ≡ builtin do_bgfg name args
      → (select_job strtol s mask name args).1 ≡ slot i
      → Step strtol
          (record { shell = s; mode = prompt })
          (record { shell = s; mode = resuming i (wants_fg name) })
  quit :
      (s : Shell) (cmdline name : List ℕ) (args : List (List ℕ))
      → eval cmdline ≡ builtin do_quit name args
      → Step strtol (record { shell = s; mode = prompt }) (record { shell = s; mode = gone })
  resume :
      (s : Shell) (i : ℕ) (to_fg : Bool)
      → Step strtol
          (record { shell = s; mode = resuming i to_fg })
          (record { shell = resume_job s i to_fg; mode = resumed i to_fg })
  -- `waitfg(job->pid)`, or the line with the job.
  go_on :
      (s : Shell) (i : ℕ) (to_fg : Bool)
      → Step strtol
          (record { shell = s; mode = resumed i to_fg })
          (record { shell = s; mode = mode_after (resumed_job s i to_fg) })
  -- One round of `sigchld_handler`.
  child :
      (s s' : Shell) (m : Mode) (pid : ℕ) (status : Status) (said : List Message)
      → pid ≢ 0
      → handle_child s pid status ≡ some (s', said)
      → Step strtol (record { shell = s; mode = m }) (record { shell = s'; mode = m })
  -- `while (pid == fgpid(jobs))` ends.
  waited :
      (s : Shell) (pid : ℕ)
      → pid ≢ fgpid s
      → Step strtol (record { shell = s; mode = waiting pid }) (record { shell = s; mode = prompt })

pub data Reach (strtol : List ℕ → ℤ) (x : System) : System → Type 0 where
  here : Reach strtol x x
  next : {y z : System} → Reach strtol x y → Step strtol y z → Reach strtol x z
