-- ===== src/Shell/System/Safety.antt =====
-- At most one job of the shell shlab-handout/tsh.c is in the foreground.
use cmu_ics.Prelude.{
  ℕ, ◌≡◌, ◌≢◌, refl, sym, ap, inl, inr, List, Bool, true, false, ltb, Bool-cases, Option-cases,
  get_elem?, find_index-some, find_index-none, get_elem?-replicate, get_elem?-set_cases, arith,
}
use cmu_ics.Prelude.Int.{ℤ}
use cmu_ics.Shell.System.Foreground.{
  NoFg, OneFg, FgAt, FgIs, FgFits, FgOf-FgFits, FgOf-OneFg, NoFg-set, NoFg-OneFg, NoFg-FgIs,
  state_is_fg, handle_child-FgOf,
}
use cmu_ics.Shell.Jobs.{
  JobState, fg, bg, Shell, is_fg, cleared, initjobs, max_jobs, fgpid, pid_at, slot_of_fg, free_slot,
  addjob,
}
use cmu_ics.Shell.Signals.{set_state}
use cmu_ics.Shell.Command.{add_child, resume_job, resumed_job}
use cmu_ics.Shell.System.{
  System, start, mode_after, Step, start_job, select, quit, resume, go_on, child, resumed, waited,
  Reach, here, next,
}

pub record IsSafe (x : System) : Type 0 where
  pub one : OneFg x.shell.jobs
  pub fits : FgFits x.shell.jobs x.mode

start-IsSafe : IsSafe start
start-IsSafe =
    let no_fg : NoFg initjobs.jobs = λ i j g. ap is_fg (get_elem?-replicate max_jobs cleared i g) in
    record { one = NoFg-OneFg initjobs.jobs no_fg; fits = no_fg }

-- A new job, when none is in the foreground.
addjob-Fg :
    (s : Shell) (pid : ℕ) (state : JobState) (cmdline : List ℕ)
    → NoFg s.jobs
    → OneFg (addjob s pid state cmdline).0.jobs
      × FgIs pid (addjob s pid state cmdline).0.jobs
      × (state_is_fg state ≡ false → NoFg (addjob s pid state cmdline).0.jobs)
unfolding addjob
addjob-Fg s pid state cmdline no_fg = elim (Bool-cases (ltb pid 1)) [
  | inl low ↦ rw low (NoFg-OneFg s.jobs no_fg, NoFg-FgIs pid s.jobs no_fg, λ _. no_fg)
  | inr high ↦ elim (Option-cases (free_slot s.jobs)) [
    | inl full ↦ rw (high, full) (NoFg-OneFg s.jobs no_fg, NoFg-FgIs pid s.jobs no_fg, λ _. no_fg)
    | inr (i, free) ↦ rw (high, free) (NoFg-set s.jobs i _ no_fg)
  ]
]

set_state-Fg :
    (s : Shell) (i : ℕ) (state : JobState)
    → NoFg s.jobs
    → OneFg (set_state s i state).jobs
      × FgIs (pid_at s.jobs i) (set_state s i state).jobs
      × (state_is_fg state ≡ false → NoFg (set_state s i state).jobs)
unfolding set_state
set_state-Fg s i state no_fg = elim (Option-cases (get_elem? s.jobs i)) [
  | inl missing ↦
      rw (missing, set_state) (NoFg-OneFg s.jobs no_fg, NoFg-FgIs _ s.jobs no_fg, λ _. no_fg)
  | inr (j, g) ↦ rw (g, set_state, pid_at) (NoFg-set s.jobs i (record j { state = state }) no_fg)
]

set_state-FgAt :
    (s : Shell) (i : ℕ) (state : JobState) → NoFg s.jobs → FgAt i (set_state s i state).jobs
unfolding set_state
set_state-FgAt s i state no_fg = elim (Option-cases (get_elem? s.jobs i)) [
  | inl missing ↦ rw (missing, set_state) (λ k j g f. absurd (ground (arith, no_fg k j g, f)))
  | inr (x, at) ↦
      rw (at, set_state)
        (λ k j g f. elim (get_elem?-set_cases s.jobs i k _ g) [
          | inl (same, _) ↦ sym same
          | inr (_, old) ↦ absurd (ground (arith, no_fg k j old, f))
        ])
]

add_child-IsSafe :
    (s : Shell) (pid : ℕ) (in_bg : Bool) (cmdline : List ℕ)
    → NoFg s.jobs
    → IsSafe (record {
      shell = (add_child s pid in_bg cmdline).0;
      mode = mode_after (add_child s pid in_bg cmdline).1;
    })
unfolding add_child
add_child-IsSafe s pid true cmdline no_fg =
    let (one, is, none_) = addjob-Fg s pid bg cmdline no_fg in
    record { one = one; fits = none_ refl }
add_child-IsSafe s pid false cmdline no_fg =
    let (one, is, none_) = addjob-Fg s pid fg cmdline no_fg in record { one = one; fits = is }

resume_job-IsSafe :
    (s : Shell) (i : ℕ) (to_fg : Bool)
    → NoFg s.jobs
    → IsSafe (record { shell = resume_job s i to_fg; mode = resumed i to_fg })
unfolding resume_job
resume_job-IsSafe s i true no_fg =
    let (one, is, none_) = set_state-Fg s i fg no_fg in
    record { one = one; fits = set_state-FgAt s i fg no_fg }
resume_job-IsSafe s i false no_fg =
    let (one, is, none_) = set_state-Fg s i bg no_fg in record { one = one; fits = none_ refl }

-- When the signals are in again the slot may hold no job any more, but no other slot is in the foreground.
resumed_job-IsSafe :
    (s : Shell) (i : ℕ) (to_fg : Bool)
    → OneFg s.jobs
    → FgFits s.jobs (resumed i to_fg)
    → IsSafe (record { shell = s; mode = mode_after (resumed_job s i to_fg) })
unfolding resumed_job
resumed_job-IsSafe s i true one at = record {
  one = one;
  fits = λ k j g f. let e = at k j g f in rw (← e, g, pid_at) refl;
}
resumed_job-IsSafe s i false one no_fg = record { one = one; fits = no_fg }

-- `waitfg` ends only when no job is in the foreground.
waited-NoFg : (s : Shell) (pid : ℕ) → FgIs pid s.jobs → pid ≢ fgpid s → NoFg s.jobs
unfolding fgpid
waited-NoFg s pid is ne i j g = elim (Option-cases (slot_of_fg s.jobs)) [
  | inl missing ↦ find_index-none is_fg s.jobs i j missing g
  | inr (k, found) ↦
      let (j', g', f') = find_index-some is_fg s.jobs k found in
      absurd (ne (sym (rw (found, g', fgpid, pid_at) (is k j' g' f'))))
]

module _ (strtol : List ℕ → ℤ) where
  Step-IsSafe : {x y : System} → Step strtol x y → IsSafe x → IsSafe y
  Step-IsSafe (start_job s cmdline argv in_bg pid e pos new) v =
      add_child-IsSafe s pid in_bg cmdline v.fits
  Step-IsSafe (select s mask cmdline name args i e e') v = record { one = v.one; fits = v.fits }
  Step-IsSafe (quit s cmdline name args e) v = record { one = v.one; fits = tt }
  Step-IsSafe (resume s i to_fg) v = resume_job-IsSafe s i to_fg v.fits
  Step-IsSafe (go_on s i to_fg) v = resumed_job-IsSafe s i to_fg v.one v.fits
  Step-IsSafe (child s s' m pid status said pos e) v =
      let sub = handle_child-FgOf s s' pid status said e in
      record {
        one = FgOf-OneFg s'.jobs s.jobs sub v.one;
        fits = FgOf-FgFits s'.jobs s.jobs m sub v.fits;
      }
  Step-IsSafe (waited s pid ne) v = record { one = v.one; fits = waited-NoFg s pid v.fits ne }

  -- In every state that the shell reaches from its start, whatever its children do meanwhile, at most
  -- one job is in the foreground; at the prompt, and within `do_bgfg` up to the change of the state, none is,
  -- behind that change only the slot it was made in can be, and in `waitfg` it is the process waited for.
  pub Reach-IsSafe : {x : System} → Reach strtol start x → IsSafe x
  Reach-IsSafe here = start-IsSafe
  Reach-IsSafe (next r step) = Step-IsSafe step (Reach-IsSafe r)
