-- ===== src/Shell/Tests.antt =====
-- Runs of shlab-handout/tsh.c on small inputs, and the theorems at them.
use cmu_ics.Prelude.{
  ℕ, zero, suc, ◌+◌, ◌-◌, ◌*◌, ◌≡◌, ◌≢◌, refl, sym, ap, ◌∙◌, ◌⊎◌, none, some, List, [], ◌∷◌, true,
  false, get_elem?, set, replicate, get_elem?-replicate, arith,
}
use cmu_ics.Prelude.Int.{ℤ, pos}
use cmu_ics.Shell.Jobs.{
  Job, fg, bg, Shell, is_fg, cleared, clearjob, initjobs, max_jobs, next_jid, fgpid, addjob,
  deletejob, getjobpid, maxjid, pid2jid,
}
use cmu_ics.Shell.Jobs.Table.{IsTable, HasPid, initjobs-IsTable, addjob-IsTable}
use cmu_ics.Shell.Jobs.Ids.{IdsApart, IdsBelow}
use cmu_ics.Shell.Jobs.Lookup.{getjobpid-addjob}
use cmu_ics.Shell.Parse.{
  end_in_space, skip_spaces, next_arg, args_loop, build_argv, finish, parseline,
}
use cmu_ics.Shell.Parse.RoundTrip.{plain, quoted, print_line, parseline-print, args_loop_fuel}
use cmu_ics.Shell.Signals.{exited, stopped, handle_child}
use cmu_ics.Shell.Command.{text_eq, eval, launch, add_child, resume_job, select_job}
use cmu_ics.Shell.Command.{mask_all, resumed_job}
use mathlib.Core.Option
use mathlib.Core.Path.{subst}
use cmu_ics.Shell.System.{waiting, System, mode_after, start_job, child, here, next}
use cmu_ics.Shell.System.Safety.{IsSafe, Reach-IsSafe}
use cmu_ics.Shell.System.Stuck.{resume_cleared-IsStuck}

parsing : Unit {0}
unfolding end_in_space skip_spaces next_arg args_loop build_argv finish parseline eval text_eq
parsing = tt

jobs_ : Unit {0}
unfolding addjob deletejob clearjob maxjid getjobpid pid2jid fgpid
jobs_ = tt

-- `ls -l &`
abbrev ls_line : List ℕ
ls_line = b'l' ∷ b's' ∷ b' ' ∷ b'-' ∷ b'l' ∷ b' ' ∷ b'&' ∷ b'\n' ∷ []

eval-ls : eval ls_line ≡ launch ((b'l' ∷ b's' ∷ []) ∷ (b'-' ∷ b'l' ∷ []) ∷ []) true
unfolding parsing
eval-ls = refl

parseline-print_example :
    parseline (print_line (plain (b'l' ∷ []) ∷ quoted (b' ' ∷ []) ∷ plain (b'&' ∷ []) ∷ []))
    ≡ ((b'l' ∷ []) ∷ (b' ' ∷ []) ∷ [], true)
parseline-print_example =
    parseline-print (plain (b'l' ∷ []) ∷ quoted (b' ' ∷ []) ∷ []) (plain (b'&' ∷ [])) (omega arith)

args_loop_fuel_example :
    args_loop 4 (b'a' ∷ b' ' ∷ b'b' ∷ b' ' ∷ []) ≡ args_loop 9 (b'a' ∷ b' ' ∷ b'b' ∷ b' ' ∷ [])
args_loop_fuel_example =
    args_loop_fuel 4 9 (b'a' ∷ b' ' ∷ b'b' ∷ b' ' ∷ []) (omega arith) (omega arith)

-- After `addjob(jobs, 501, FG, "a")`.
abbrev one_job : Shell
one_job = record {
  jobs = record { pid = 501; jid = 1; state = fg; cmdline = b'a' ∷ [] } ∷ replicate 15 cleared;
  nextjid = 2;
}

addjob-one : addjob initjobs 501 fg (b'a' ∷ []) ≡ (one_job, true)
unfolding jobs_
addjob-one = refl

initjobs-no_pid : (pid : ℕ) → pid ≢ 0 → ¬ HasPid initjobs pid
initjobs-no_pid pid ne (i, j, g, e) =
    ne (sym e ∙ ap (λ x. x.pid) (get_elem?-replicate max_jobs cleared i g))

first_job-IsTable : IsTable (addjob initjobs 501 fg (b'a' ∷ [])).0
first_job-IsTable =
    addjob-IsTable initjobs 501 fg (b'a' ∷ []) initjobs-IsTable (initjobs-no_pid 501 (omega arith))
      (λ e. cc)

getjobpid-addjob_example :
    ((i : ℕ) × (addjob initjobs 501 fg (b'a' ∷ []) ≡ (
      record {
        jobs = set initjobs.jobs i (record { pid = 501; jid = 1; state = fg; cmdline = b'a' ∷ [] });
        nextjid = next_jid 1;
      },
      true,
    ))
      × ((j : Job) × (get_elem? initjobs.jobs i ≡ some j) × (j.pid ≡ 0))
      × (getjobpid (addjob initjobs 501 fg (b'a' ∷ [])).0 501 ≡ some i))
    ⊎ ((addjob initjobs 501 fg (b'a' ∷ []) ≡ (initjobs, false)) × ¬ HasPid initjobs 0)
getjobpid-addjob_example =
    getjobpid-addjob initjobs 501 fg (b'a' ∷ []) (omega arith) (initjobs-no_pid 501 (omega arith))

one_job-IsTable : IsTable one_job
one_job-IsTable = subst IsTable (ap (λ r. r.0) addjob-one) first_job-IsTable

initjobs-IdsApart : IdsApart initjobs.jobs
initjobs-IdsApart i k j j' g g' ne ne' e =
    absurd (ne (ap (λ x. x.pid) (get_elem?-replicate max_jobs cleared i g)))

initjobs-IdsBelow : IdsBelow initjobs
initjobs-IdsBelow i j g = ground (arith, get_elem?-replicate max_jobs cleared i g)

-- `strtol` on a text of digits, enough for these tests.
digits_from : ℕ → List ℕ → ℕ
digits_from n [] = n
digits_from n (c ∷ s) = digits_from (n * 10 + (c - b'0')) s

decimal : List ℕ → ℤ
unfolding digits_from
decimal s = pos (digits_from 0 s)

-- `bg 0` leaves all signals blocked.
masked :
    (select_job decimal initjobs (λ sig. false) (b'b' ∷ b'g' ∷ []) ((b'0' ∷ []) ∷ [])).0 ≡ mask_all
unfolding select_job decimal
masked = refl

-- A child without a job that stops makes the handler follow a null pointer.
no_job : handle_child initjobs 501 (stopped 20) ≡ none
unfolding handle_child getjobpid
no_job = refl

-- A foreground job is started and ends, and the shell is still in `waitfg`.
abbrev a_line : List ℕ
a_line = b'a' ∷ b'\n' ∷ []

abbrev job_ended : System
job_ended = record {
  shell = (deletejob (add_child initjobs 501 false a_line).0 501).0;
  mode = mode_after (add_child initjobs 501 false a_line).1;
}

Reach-IsSafe_example : IsSafe job_ended
unfolding handle_child parsing
Reach-IsSafe_example = Reach-IsSafe decimal (
    next
      (next here (
        start_job initjobs a_line ((b'a' ∷ []) ∷ []) false 501 refl (omega arith)
          (initjobs-no_pid 501 (omega arith))))
      (child (add_child initjobs 501 false a_line).0
        (deletejob (add_child initjobs 501 false a_line).0 501).0
        (mode_after (add_child initjobs 501 false a_line).1) 501 (exited 0) [] (omega arith) refl))

resume_cleared-IsStuck_example :
    mode_after (resumed_job (resume_job initjobs 0 true) 0 true) ≡ waiting 0
resume_cleared-IsStuck_example =
    resume_cleared-IsStuck decimal initjobs 0 cleared refl refl
      (λ i j g. ap is_fg (get_elem?-replicate max_jobs cleared i g)) here

-- Job numbers run out of order: with 16 jobs, two ended and two more started, two jobs have number 1.
abbrev add_all : ℕ → ℕ → Shell → Shell
add_all zero pid s = s
add_all (suc n) pid s = add_all n (pid + 1) (addjob s pid bg []).0

crowded : Shell
unfolding jobs_
crowded =
    let full = add_all 16 101 initjobs in add_all 2 201 (deletejob (deletejob full 105).0 106).0

crowded-collides :
    Option.map (λ j. j.jid) (get_elem? crowded.jobs 0)
    ≡ Option.map (λ j. j.jid) (get_elem? crowded.jobs 5)
unfolding crowded
crowded-collides = refl
