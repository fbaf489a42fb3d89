-- ===== src/Shell/System/Stuck.antt =====
-- `fg` of shlab-handout/tsh.c when its job ends between the search and the change of its state: the
-- slot that the pointer leads to has been cleared.
use cmu_ics.Prelude.{
  ℕ, ◌≡◌, refl, sym, ap, ◌∙◌, inl, inr, some, List, true, ltb, ◌==◌, Bool-cases, Option-cases,
  get_elem?, find_index-some, find_index-found, get_elem?-set_self, get_elem?-set_ne, get_elem?-lt,
  arith,
}
use cmu_ics.Prelude.Int.{ℤ}
use cmu_ics.Shell.Jobs.{
  Job, JobState, fg, bg, st, Shell, is_fg, cleared, clearjob, fgpid, pid_at, slot_of_pid, deletejob,
  getjobpid,
}
use cmu_ics.Shell.Signals.{
  Status, Message, exited, signaled, stopped, continued, set_state, is_st, continue_job,
  handle_child,
}
use cmu_ics.Shell.Command.{resume_job, resumed_job}
use cmu_ics.Shell.System.{
  waiting, System, mode_after, Step, start_job, select, quit, resume, go_on, child, waited, Reach,
  here, next,
}
use cmu_ics.Shell.System.Foreground.{NoFg, FgIs, FgOf-FgFits, NoFg-set, handle_child-FgOf}

-- A slot without a process is in the foreground, and `waitfg` waits for process 0.
pub record IsStuck (x : System) : Type 0 where
  pub slot : ℕ
  pub job : Job
  pub at : get_elem? x.shell.jobs slot ≡ some job
  pub empty : job.pid ≡ 0
  pub front : is_fg job ≡ true
  pub only : FgIs 0 x.shell.jobs
  pub waits : x.mode ≡ waiting 0

-- The handler leaves a slot without a process alone.
module _ (s : Shell) (i : ℕ) (j : Job) (at : get_elem? s.jobs i ≡ some j) (empty : j.pid ≡ 0) where
  deletejob-keeps : (pid : ℕ) → get_elem? (deletejob s pid).0.jobs i ≡ some j
  unfolding deletejob clearjob
  deletejob-keeps pid = elim (Bool-cases (ltb pid 1)) [
    | inl low ↦ rw low at
    | inr high ↦ elim (Option-cases (slot_of_pid pid s.jobs)) [
      | inl missing ↦ rw (high, missing) at
      | inr (k, found) ↦
          let (x, gx, tx) = find_index-some (λ y. y.pid == pid) s.jobs k found in
          rw (high, found) (get_elem?-set_ne s.jobs cleared (λ e. absurd (ground arith)) ∙ at)
    ]
  ]

  set_state-keeps :
      (pid k : ℕ) (state : JobState)
      → getjobpid s pid ≡ some k
      → get_elem? (set_state s k state).jobs i ≡ some j
  unfolding set_state getjobpid
  set_state-keeps pid k state found = elim (Bool-cases (ltb pid 1)) [
    | inl low ↦ absurd (ground arith)
    | inr high ↦
        let (x, gx, tx) = find_index-some (λ y. y.pid == pid) s.jobs k (rw high at found) in
        rw (gx, set_state) (get_elem?-set_ne s.jobs _ (λ e. absurd (ground arith)) ∙ at)
  ]

  continue_job-keeps :
      (pid k : ℕ) → getjobpid s pid ≡ some k → get_elem? (continue_job s k).jobs i ≡ some j
  unfolding continue_job
  continue_job-keeps pid k found = elim (Option-cases (get_elem? s.jobs k)) [
    | inl missing ↦ rw (missing, continue_job) at
    | inr (x, g) ↦ elim (Bool-cases (is_st x.state)) [
      | inl was ↦ rw (g, was, continue_job) (set_state-keeps pid k bg found)
      | inr other ↦ rw (g, other, continue_job) at
    ]
  ]

  handle_child-keeps :
      (s' : Shell) (pid : ℕ) (status : Status) (said : List Message)
      → handle_child s pid status ≡ some (s', said)
      → get_elem? s'.jobs i ≡ some j
  unfolding handle_child
  handle_child-keeps s' pid (exited code) said h =
      let e : (deletejob s pid).0 ≡ s' = cc in rw (← e) (deletejob-keeps pid)
  handle_child-keeps s' pid (signaled sig) said h =
      let e : (deletejob s pid).0 ≡ s' = cc in rw (← e) (deletejob-keeps pid)
  handle_child-keeps s' pid (stopped sig) said h = elim (Option-cases (getjobpid s pid)) [
    | inl missing ↦ absurd (ground arith)
    | inr (k, found) ↦
        let e : set_state s k st ≡ s' = ground arith in rw (← e) (set_state-keeps pid k st found)
  ]
  handle_child-keeps s' pid continued said h = elim (Option-cases (getjobpid s pid)) [
    | inl missing ↦ absurd (ground arith)
    | inr (k, found) ↦
        let e : continue_job s k ≡ s' = ground arith in rw (← e) (continue_job-keeps pid k found)
  ]

fgpid_stuck :
    (s : Shell) (i : ℕ) (j : Job)
    → get_elem? s.jobs i ≡ some j
    → is_fg j ≡ true
    → FgIs 0 s.jobs
    → fgpid s ≡ 0
unfolding fgpid
fgpid_stuck s i j g f only =
    let (k, found, _) = find_index-found is_fg s.jobs i j g f in
    let (j', g', f') = find_index-some is_fg s.jobs k found in
    rw (found, g', fgpid, pid_at) (only k j' g' f')

module _ (strtol : List ℕ → ℤ) where
  IsStuck-Step : {x y : System} → Step strtol x y → IsStuck x → IsStuck y
  IsStuck-Step (start_job s cmdline argv in_bg pid e pos new) v = absurd (cc v.waits)
  IsStuck-Step (select s mask cmdline name args i e e') v = absurd (cc v.waits)
  IsStuck-Step (quit s cmdline name args e) v = absurd (cc v.waits)
  IsStuck-Step (resume s i to_fg) v = absurd (cc v.waits)
  IsStuck-Step (go_on s i to_fg) v = absurd (cc v.waits)
  IsStuck-Step (child s s' m pid status said pos e) v = record {
    slot = v.slot;
    job = v.job;
    at = handle_child-keeps s v.slot v.job v.at v.empty s' pid status said e;
    empty = v.empty;
    front = v.front;
    only = FgOf-FgFits s'.jobs s.jobs (waiting 0) (handle_child-FgOf s s' pid status said e) v.only;
    waits = v.waits;
  }
  IsStuck-Step (waited s pid ne) v = absurd (
      ne (let e : pid ≡ 0 = cc v.waits in e ∙ sym (fgpid_stuck s v.slot v.job v.at v.front v.only)))

  Reach-IsStuck : {x y : System} → Reach strtol x y → IsStuck x → IsStuck y
  Reach-IsStuck here v = v
  Reach-IsStuck (next r step) v = IsStuck-Step step (Reach-IsStuck r v)

  -- When `fg` sets the state of a job whose slot has been cleared, with no job in the foreground, the
  -- shell waits for process 0 from then on: whatever its children do, it never leaves `waitfg`.
  pub resume_cleared-IsStuck :
      (s : Shell) (i : ℕ) (j : Job) {y : System}
      → get_elem? s.jobs i ≡ some j
      → j.pid ≡ 0
      → NoFg s.jobs
      → Reach strtol
          (record {
            shell = resume_job s i true;
            mode = mode_after (resumed_job (resume_job s i true) i true);
          })
          y
      → y.mode ≡ waiting 0
  unfolding resume_job resumed_job set_state
  resume_cleared-IsStuck s i j g empty no_fg r = (Reach-IsStuck r stuck).waits
    where
      stuck : IsStuck (record {
        shell = resume_job s i true;
        mode = mode_after (resumed_job (resume_job s i true) i true);
      })
      stuck =
          let (_, only, _) = NoFg-set s.jobs i (record j { state = fg }) no_fg in
          rw (g, set_state, pid_at)
            (record {
              slot = i;
              job = record j { state = fg };
              at = get_elem?-set_self s.jobs i _ (get_elem?-lt s.jobs i g);
              empty = empty;
              front = refl;
              only = λ k x gk f. only k x gk f ∙ empty;
              waits =
                  rw
                    (
                      get_elem?-set_self s.jobs i (record j { state = fg })
                          (get_elem?-lt s.jobs i g),
                      pid_at,
                    )
                    (ap waiting empty);
            })
