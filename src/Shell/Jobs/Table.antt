-- ===== src/Shell/Jobs/Table.antt =====
-- The job list of shlab-handout/tsh.c stays well formed.
use cmu_ics.Prelude.{
  ℕ, ◌≡◌, ◌≢◌, refl, ap, ◌∙◌, ◌⊎◌, inl, inr, some, List, ltb, get_elem?, set, get_elem?-set_cases,
  length, length-set, arith, Option-cases, Bool-cases, get_elem?-replicate, length-replicate,
}
use cmu_ics.Shell.Jobs.{
  Job, JobState, undef, Shell, max_jobs, cleared, initjobs, free_slot, slot_of_pid, addjob,
  deletejob,
}

-- Slots are all there, a slot without a process is clear, one with a process has a job number and a
-- state, and no two have the same process.
pub record IsTable (s : Shell) : Type 0 where
  pub size : length s.jobs ≡ max_jobs
  pub clean :
      (i : ℕ) (j : Job) → get_elem? s.jobs i ≡ some j → j.pid ≡ 0 → (j.jid ≡ 0) × (j.state ≡ undef)
  pub live :
      (i : ℕ) (j : Job) → get_elem? s.jobs i ≡ some j → j.pid ≢ 0 → (j.jid ≢ 0) × (j.state ≢ undef)
  pub distinct :
      (i k : ℕ) (j j' : Job)
      → get_elem? s.jobs i ≡ some j
      → get_elem? s.jobs k ≡ some j'
      → j.pid ≢ 0
      → j.pid ≡ j'.pid
      → i ≡ k
  pub positive : s.nextjid ≢ 0

abbrev pub HasPid : Shell → ℕ → Type 0
HasPid s pid = (i : ℕ) × (j : Job) × (get_elem? s.jobs i ≡ some j) × (j.pid ≡ pid)

pub initjobs-IsTable : IsTable initjobs
initjobs-IsTable = record {
  size = length-replicate max_jobs cleared;
  clean = λ i j g e. ground (arith, get_elem?-replicate max_jobs cleared i g);
  live = λ i j g ne. absurd (ne (ap (λ x. x.pid) (get_elem?-replicate max_jobs cleared i g)));
  distinct = λ i k j j' g g' ne e.
      absurd (ne (ap (λ x. x.pid) (get_elem?-replicate max_jobs cleared i g)));
  positive = omega arith;
}

-- A slot is overwritten by a job, clear or with a process that no other slot has.
module _ (s : Shell) (v : IsTable s) (i n : ℕ) (j : Job) (n_pos : n ≢ 0) where
  abbrev Fits : Type 0
  Fits =
      ((j.pid ≡ 0) × (j.jid ≡ 0) × (j.state ≡ undef))
      ⊎ ((j.pid ≢ 0)
          × (j.jid ≢ 0)
          × (j.state ≢ undef)
          × ((k : ℕ) (j' : Job) → get_elem? s.jobs k ≡ some j' → i ≢ k → j'.pid ≢ j.pid))

  set-IsTable : Fits → IsTable (record { jobs = set s.jobs i j; nextjid = n })
  set-IsTable f = record {
    size = length-set s.jobs i j ∙ v.size;
    clean = λ k x g e. elim (get_elem?-set_cases s.jobs i k j g) [
      | inl (_, same) ↦ ground arith
      | inr (_, old) ↦ v.clean k x old e
    ];
    live = λ k x g e. elim (get_elem?-set_cases s.jobs i k j g) [
      | inl (_, same) ↦ ground arith
      | inr (_, old) ↦ v.live k x old e
    ];
    distinct = λ k l x x' g g' ne e. elim (get_elem?-set_cases s.jobs i k j g) [
      | inl (ek, same) ↦ elim (get_elem?-set_cases s.jobs i l j g') [
        | inl (el, _) ↦ omega arith
        | inr (nl, old') ↦ absurd (clash f l x' old' nl (ground arith) (ground arith))
      ]
      | inr (nk, old) ↦ elim (get_elem?-set_cases s.jobs i l j g') [
        | inl (el, same') ↦ absurd (clash f k x old nk (ground arith) (ground arith))
        | inr (_, old') ↦ v.distinct k l x x' old old' ne e
      ]
    ];
    positive = n_pos;
  }
    where
      clash :
          Fits
          → (k : ℕ) (x : Job) → get_elem? s.jobs k ≡ some x
          → i ≢ k
          → x.pid ≡ j.pid
          → x.pid ≢ 0
          → ⊥
      clash (inl (z, _, _)) k x g ne e nz = nz (e ∙ z)
      clash (inr (_, _, _, new)) k x g ne e nz = new k x g ne e

-- A new process with a state keeps the table well formed.
pub addjob-IsTable :
    (s : Shell) (pid : ℕ) (state : JobState) (cmdline : List ℕ)
    → IsTable s
    → ¬ HasPid s pid
    → state ≢ undef
    → IsTable (addjob s pid state cmdline).0
unfolding addjob
addjob-IsTable s pid state cmdline v new ne = elim (Bool-cases (ltb pid 1)) [
  | inl low ↦ rw low v
  | inr high ↦ elim (Option-cases (free_slot s.jobs)) [
    | inl full ↦ rw (high, full) v
    | inr (i, free) ↦
        rw (high, free)
          (set-IsTable s v i _ _ (ground arith)
            (inr (ground arith, v.positive, ne, λ k j' g _ e. new (k, j', g, e))))
  ]
]

-- So does the end of a process, known or not.
pub deletejob-IsTable : (s : Shell) (pid : ℕ) → IsTable s → IsTable (deletejob s pid).0
unfolding deletejob
deletejob-IsTable s pid v = elim (Bool-cases (ltb pid 1)) [
  | inl low ↦ rw low v
  | inr high ↦ elim (Option-cases (slot_of_pid pid s.jobs)) [
    | inl missing ↦ rw (high, missing) v
    | inr (i, found) ↦
        rw (high, found) (set-IsTable s v i _ cleared (omega arith) (inl (refl, refl, refl)))
  ]
]
