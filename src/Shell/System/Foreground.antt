-- ===== src/Shell/System/Foreground.antt =====
-- The foreground jobs in the list of shlab-handout/tsh.c, and what the handler does to them.
use cmu_ics.Prelude.{
  ℕ, ◌≡◌, refl, sym, ap, ◌∙◌, inl, inr, some, List, Bool, true, false, ltb, Bool-cases,
  Option-cases, get_elem?, set, get_elem?-set_cases, arith,
}
use cmu_ics.Shell.Jobs.{
  Job, JobState, fg, bg, st, Shell, is_fg, cleared, clearjob, slot_of_pid, deletejob, getjobpid,
}
use cmu_ics.Shell.Signals.{
  Status, Message, exited, signaled, stopped, continued, set_state, is_st, continue_job,
  handle_child,
}
use cmu_ics.Shell.System.{Mode, prompt, resuming, resumed, waiting, gone}

abbrev pub NoFg : List Job → Type 0
NoFg jobs = (i : ℕ) (j : Job) → get_elem? jobs i ≡ some j → is_fg j ≡ false

abbrev pub OneFg : List Job → Type 0
OneFg jobs =
    (i k : ℕ) (j j' : Job)
    → get_elem? jobs i ≡ some j
    → get_elem? jobs k ≡ some j'
    → is_fg j ≡ true
    → is_fg j' ≡ true
    → i ≡ k

-- Every foreground job is this process.
abbrev pub FgIs : ℕ → List Job → Type 0
FgIs pid jobs = (i : ℕ) (j : Job) → get_elem? jobs i ≡ some j → is_fg j ≡ true → j.pid ≡ pid

-- Every foreground job is in this slot.
abbrev pub FgAt : ℕ → List Job → Type 0
FgAt i jobs = (k : ℕ) (j : Job) → get_elem? jobs k ≡ some j → is_fg j ≡ true → k ≡ i

-- What the foreground jobs may be, by what the shell is doing.
abbrev pub FgFits : List Job → Mode → Type 0
FgFits jobs prompt = NoFg jobs
FgFits jobs (resuming i to_fg) = NoFg jobs
FgFits jobs (resumed i true) = FgAt i jobs
FgFits jobs (resumed i false) = NoFg jobs
FgFits jobs (waiting pid) = FgIs pid jobs
FgFits jobs gone = Unit {0}

-- Every foreground job of the first list was one of the second, in the same slot.
abbrev pub FgOf : List Job → List Job → Type 0
FgOf new old =
    (i : ℕ) (j : Job)
    → get_elem? new i ≡ some j
    → is_fg j ≡ true
    → (j₀ : Job) × (get_elem? old i ≡ some j₀) × (is_fg j₀ ≡ true) × (j₀.pid ≡ j.pid)

FgOf-same : (jobs : List Job) → FgOf jobs jobs
FgOf-same jobs i j g f = (j, g, f, refl)

set-FgOf : (jobs : List Job) (i : ℕ) (v : Job) → is_fg v ≡ false → FgOf (set jobs i v) jobs
set-FgOf jobs i v no_fg k j g f = elim (get_elem?-set_cases jobs i k v g) [
  | inl (_, same) ↦ absurd (ground arith)
  | inr (_, old) ↦ (j, old, f, refl)
]

deletejob-FgOf : (s : Shell) (pid : ℕ) → FgOf (deletejob s pid).0.jobs s.jobs
unfolding deletejob clearjob
deletejob-FgOf s pid = elim (Bool-cases (ltb pid 1)) [
  | inl low ↦ rw low (FgOf-same s.jobs)
  | inr high ↦ elim (Option-cases (slot_of_pid pid s.jobs)) [
    | inl missing ↦ rw (high, missing) (FgOf-same s.jobs)
    | inr (i, found) ↦ rw (high, found) (set-FgOf s.jobs i cleared refl)
  ]
]

abbrev pub state_is_fg : JobState → Bool
state_is_fg state = elim state [ fg ↦ true | _ ↦ false ]

set_state-FgOf :
    (s : Shell) (i : ℕ) (state : JobState)
    → state_is_fg state ≡ false
    → FgOf (set_state s i state).jobs s.jobs
unfolding set_state
set_state-FgOf s i state no_fg = elim (Option-cases (get_elem? s.jobs i)) [
  | inl missing ↦ rw (missing, set_state) (FgOf-same s.jobs)
  | inr (j, g) ↦ rw (g, set_state) (set-FgOf s.jobs i (record j { state = state }) no_fg)
]

continue_job-FgOf : (s : Shell) (i : ℕ) → FgOf (continue_job s i).jobs s.jobs
unfolding continue_job
continue_job-FgOf s i = elim (Option-cases (get_elem? s.jobs i)) [
  | inl missing ↦ rw (missing, continue_job) (FgOf-same s.jobs)
  | inr (j, g) ↦ elim (Bool-cases (is_st j.state)) [
    | inl was ↦ rw (g, was, continue_job) (set_state-FgOf s i bg refl)
    | inr other ↦ rw (g, other, continue_job) (FgOf-same s.jobs)
  ]
]

pub handle_child-FgOf :
    (s s' : Shell) (pid : ℕ) (status : Status) (said : List Message)
    → handle_child s pid status ≡ some (s', said)
    → FgOf s'.jobs s.jobs
unfolding handle_child
handle_child-FgOf s s' pid (exited code) said h =
    let e : (deletejob s pid).0 ≡ s' = cc in rw (← e) (deletejob-FgOf s pid)
handle_child-FgOf s s' pid (signaled sig) said h =
    let e : (deletejob s pid).0 ≡ s' = cc in rw (← e) (deletejob-FgOf s pid)
handle_child-FgOf s s' pid (stopped sig) said h = elim (Option-cases (getjobpid s pid)) [
  | inl missing ↦ absurd (ground arith)
  | inr (i, found) ↦
      let e : set_state s i st ≡ s' = ground arith in rw (← e) (set_state-FgOf s i st refl)
]
handle_child-FgOf s s' pid continued said h = elim (Option-cases (getjobpid s pid)) [
  | inl missing ↦ absurd (ground arith)
  | inr (i, found) ↦
      let e : continue_job s i ≡ s' = ground arith in rw (← e) (continue_job-FgOf s i)
]

FgOf-NoFg : (new old : List Job) → FgOf new old → NoFg old → NoFg new
FgOf-NoFg new old sub no_fg i j g = elim (Bool-cases (is_fg j)) [
  | inl f ↦ let (j₀, g₀, f₀, e) = sub i j g f in absurd (ground (arith, no_fg i j₀ g₀))
  | inr none_ ↦ none_
]

-- What is safe stays so when foreground jobs only become fewer.
pub FgOf-FgFits : (new old : List Job) (m : Mode) → FgOf new old → FgFits old m → FgFits new m
FgOf-FgFits new old prompt sub fits = FgOf-NoFg new old sub fits
FgOf-FgFits new old (resuming n b) sub fits = FgOf-NoFg new old sub fits
FgOf-FgFits new old (resumed n true) sub fits =
    λ i j g f. let (j₀, g₀, f₀, e) = sub i j g f in fits i j₀ g₀ f₀
FgOf-FgFits new old (resumed n false) sub fits = FgOf-NoFg new old sub fits
FgOf-FgFits new old (waiting pid) sub fits =
    λ i j g f. let (j₀, g₀, f₀, e) = sub i j g f in sym e ∙ fits i j₀ g₀ f₀
FgOf-FgFits new old gone sub fits = tt

pub FgOf-OneFg : (new old : List Job) → FgOf new old → OneFg old → OneFg new
FgOf-OneFg new old sub one i k j j' g g' f f' =
    let (j₀, g₀, f₀, _) = sub i j g f in
    let (j₁, g₁, f₁, _) = sub k j' g' f' in one i k j₀ j₁ g₀ g₁ f₀ f₁

-- With no foreground job, one slot is overwritten.
pub NoFg-set :
    (jobs : List Job) (i : ℕ) (v : Job)
    → NoFg jobs
    → OneFg (set jobs i v) × FgIs v.pid (set jobs i v) × (is_fg v ≡ false → NoFg (set jobs i v))
NoFg-set jobs i v no_fg = (
  λ k l j j' g g' f f'. elim (get_elem?-set_cases jobs i k v g) [
    | inl (ek, _) ↦ elim (get_elem?-set_cases jobs i l v g') [
      | inl (el, _) ↦ omega arith
      | inr (_, old) ↦ absurd (ground (arith, no_fg l j' old))
    ]
    | inr (_, old) ↦ absurd (ground (arith, no_fg k j old))
  ],
  λ k j g f. elim (get_elem?-set_cases jobs i k v g) [
    | inl (_, same) ↦ ap (λ x. x.pid) same
    | inr (_, old) ↦ absurd (ground (arith, no_fg k j old))
  ],
  λ bg_v k j g. elim (get_elem?-set_cases jobs i k v g) [
    | inl (_, same) ↦ ground arith
    | inr (_, old) ↦ no_fg k j old
  ],
)

pub NoFg-OneFg : (jobs : List Job) → NoFg jobs → OneFg jobs
NoFg-OneFg jobs no_fg i k j j' g g' f f' = absurd (ground (arith, no_fg i j g))

pub NoFg-FgIs : (pid : ℕ) (jobs : List Job) → NoFg jobs → FgIs pid jobs
NoFg-FgIs pid jobs no_fg i j g f = absurd (ground (arith, no_fg i j g))
