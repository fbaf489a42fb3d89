-- ===== src/Shell/Jobs/Ids.antt =====
-- The job numbers of shlab-handout/tsh.c: `deletejob` brings `nextjid` above all of them, and while it
-- is, `addjob` gives out new ones.
use cmu_ics.Prelude.{
  ℕ, zero, suc, ◌≤◌, ◌<◌, ◌≡◌, ◌≢◌, inl, inr, some, List, [], ◌∷◌, true, ltb, if◌then◌else◌,
  get_elem?, get_elem?-set_cases, arith, Option-cases, Bool-cases,
}
use cmu_ics.Shell.Jobs.{
  Job, JobState, Shell, max_jobs, cleared, clearjob, maxjid_from, free_slot, slot_of_pid, addjob,
  deletejob,
}

maxjid_from-ge : (m : ℕ) (jobs : List Job) → m ≤ maxjid_from m jobs
unfolding maxjid_from
maxjid_from-ge m [] = omega arith
maxjid_from-ge m (j ∷ jobs) = ground (arith, maxjid_from-ge m jobs, maxjid_from-ge j.jid jobs)

jid-le-maxjid_from :
    (m : ℕ) (jobs : List Job) (i : ℕ) (j : Job)
    → get_elem? jobs i ≡ some j
    → j.jid ≤ maxjid_from m jobs
unfolding maxjid_from
jid-le-maxjid_from m [] i j g = absurd (cc)
jid-le-maxjid_from m (x ∷ jobs) zero j g =
    ground (arith, maxjid_from-ge m jobs, maxjid_from-ge x.jid jobs)
jid-le-maxjid_from m (x ∷ jobs) (suc i) j g =
    jid-le-maxjid_from (if ltb m x.jid then x.jid else m) jobs i j g

-- No two processes have the same job number.
abbrev pub IdsApart : List Job → Type 0
IdsApart jobs =
    (i k : ℕ) (j j' : Job)
    → get_elem? jobs i ≡ some j
    → get_elem? jobs k ≡ some j'
    → j.pid ≢ 0
    → j'.pid ≢ 0
    → j.jid ≡ j'.jid
    → i ≡ k

abbrev pub IdsBelow : Shell → Type 0
IdsBelow s = (i : ℕ) (j : Job) → get_elem? s.jobs i ≡ some j → j.jid < s.nextjid

-- After a job is deleted the next number is above all that are left, whatever it was before, and
-- numbers that were apart stay so.
pub deletejob-IdsBelow :
    (s : Shell) (pid : ℕ)
    → IdsApart s.jobs
    → (deletejob s pid).1 ≡ true
    → IdsBelow (deletejob s pid).0 × IdsApart (deletejob s pid).0.jobs
unfolding deletejob
deletejob-IdsBelow s pid apart h = elim (Bool-cases (ltb pid 1)) [
  | inl low ↦ absurd (ground arith)
  | inr high ↦ elim (Option-cases (slot_of_pid pid s.jobs)) [
    | inl missing ↦ absurd (ground arith)
    | inr (i, found) ↦
        rw (high, found)
          (
            (λ k j g. omega (arith, jid-le-maxjid_from 0 (clearjob s.jobs i) k j g)),
            (λ k l j j' g g' ne ne' e. elim (get_elem?-set_cases s.jobs i k cleared g) [
              | inl (_, same) ↦ absurd (ground arith)
              | inr (_, old) ↦ elim (get_elem?-set_cases s.jobs i l cleared g') [
                | inl (_, same) ↦ absurd (ground arith)
                | inr (_, old') ↦ apart k l j j' old old' ne ne' e
              ]
            ]),
          )
  ]
]

-- While the next number is above all others, a new job keeps the numbers apart; the next number
-- stays above them as long as it does not pass the size of the table.
pub addjob-IdsApart :
    (s : Shell) (pid : ℕ) (state : JobState) (cmdline : List ℕ)
    → IdsApart s.jobs
    → IdsBelow s
    → IdsApart (addjob s pid state cmdline).0.jobs
      × (s.nextjid < max_jobs → IdsBelow (addjob s pid state cmdline).0)
unfolding addjob
addjob-IdsApart s pid state cmdline apart below = elim (Bool-cases (ltb pid 1)) [
  | inl low ↦ rw low (apart, λ _. below)
  | inr high ↦ elim (Option-cases (free_slot s.jobs)) [
    | inl full ↦ rw (high, full) (apart, λ _. below)
    | inr (i, free) ↦
        rw (high, free)
          (
            (λ k l j j' g g' ne ne' e. elim (get_elem?-set_cases s.jobs i k _ g) [
              | inl (ek, same) ↦ elim (get_elem?-set_cases s.jobs i l _ g') [
                | inl (el, _) ↦ omega arith
                | inr (nl, old') ↦ absurd (ground (arith, below l j' old'))
              ]
              | inr (nk, old) ↦ elim (get_elem?-set_cases s.jobs i l _ g') [
                | inl (el, same') ↦ absurd (ground (arith, below k j old))
                | inr (nl, old') ↦ apart k l j j' old old' ne ne' e
              ]
            ]),
            (λ small k j g. elim (get_elem?-set_cases s.jobs i k _ g) [
              | inl (_, same) ↦ ground arith
              | inr (_, old) ↦ ground (arith, below k j old)
            ]),
          )
  ]
]
