-- ===== src/Shell/Jobs/Lookup.antt =====
-- What the searches of shlab-handout/tsh.c find after a job is added or deleted.
use cmu_ics.Prelude.{
  ℕ, ◌≡◌, ◌≢◌, refl, sym, ap, ◌∙◌, ◌⊎◌, inl, inr, none, some, List, true, false, ltb, ◌==◌,
  get_elem?, set, find_index-some, find_index-none, find_index-found, get_elem?-set_cases,
  get_elem?-set_self, get_elem?-set_ne, get_elem?-lt, arith, Option-cases, Bool-cases,
}
use cmu_ics.Shell.Jobs.{
  Job, JobState, Shell, cleared, clearjob, free_slot, slot_of_pid, addjob, deletejob, getjobpid,
  next_jid,
}
use cmu_ics.Shell.Jobs.Table.{IsTable, HasPid}

-- The only slot that holds a process is the one that the search finds.
slot_of_pid_unique :
    (jobs : List Job) (pid i : ℕ) (j : Job)
    → get_elem? jobs i ≡ some j
    → j.pid ≡ pid
    → ((k : ℕ) (j' : Job) → get_elem? jobs k ≡ some j' → j'.pid ≡ pid → k ≡ i)
    → slot_of_pid pid jobs ≡ some i
slot_of_pid_unique jobs pid i j g e only =
    let (k, found, le) = find_index-found (λ x. x.pid == pid) jobs i j g (ground arith) in
    let (j', g', t) = find_index-some (λ x. x.pid == pid) jobs k found in
    found ∙ ap some (only k j' g' (ground arith))

slot_of_pid_absent :
    (jobs : List Job) (pid : ℕ)
    → ((k : ℕ) (j : Job) → get_elem? jobs k ≡ some j → j.pid ≢ pid)
    → slot_of_pid pid jobs ≡ none
slot_of_pid_absent jobs pid new = elim (Option-cases (slot_of_pid pid jobs)) [
  | inl missing ↦ missing
  | inr (i, found) ↦
      let (j, g, t) = find_index-some (λ x. x.pid == pid) jobs i found in
      absurd (new i j g (ground arith))
]

-- `addjob` gives a new process the next job number in a free slot, where `getjobpid` finds it, and
-- changes no other slot; only with no slot free does it fail, and then it changes nothing.
pub getjobpid-addjob :
    (s : Shell) (pid : ℕ) (state : JobState) (cmdline : List ℕ)
    → pid ≢ 0
    → ¬ HasPid s pid
    → ((i : ℕ) × (addjob s pid state cmdline ≡ (
      record {
        jobs =
            set s.jobs i (record { pid = pid; jid = s.nextjid; state = state; cmdline = cmdline });
        nextjid = next_jid s.nextjid;
      },
      true,
    ))
        × ((j : Job) × (get_elem? s.jobs i ≡ some j) × (j.pid ≡ 0))
        × (getjobpid (addjob s pid state cmdline).0 pid ≡ some i))
      ⊎ ((addjob s pid state cmdline ≡ (s, false)) × ¬ HasPid s 0)
unfolding addjob getjobpid
getjobpid-addjob s pid state cmdline ne new =
    let high : ltb pid 1 ≡ false = ground arith in
    elim (Option-cases (free_slot s.jobs)) [
      | inl full ↦ inr (
        rw (high, full) refl,
        λ h. absurd (ground (arith, find_index-none (λ j. j.pid == 0) s.jobs h.0 h.1 full h.2)),
      )
      | inr (i, free) ↦
          let (j, g, t) = find_index-some (λ j. j.pid == 0) s.jobs i free in
          inl (
            i,
            rw (high, free) refl,
            (j, g, ground arith),
            rw (high, free)
                (slot_of_pid_unique _ pid i
                  (record { pid = pid; jid = s.nextjid; state = state; cmdline = cmdline })
                  (get_elem?-set_self s.jobs i _ (get_elem?-lt s.jobs i g)) refl
                  (λ k j' g' e. elim (get_elem?-set_cases s.jobs i k _ g') [
                    | inl (same, _) ↦ sym same
                    | inr (_, old) ↦ absurd (new (k, j', old, e))
                  ])),
          )
    ]

-- Clearing a slot does not change where another process is found.
slot-clear :
    (s : Shell)
    → IsTable s
    → (i : ℕ) (x : Job) (q : ℕ) → get_elem? s.jobs i ≡ some x
    → x.pid ≢ q
    → q ≢ 0
    → slot_of_pid q (set s.jobs i cleared) ≡ slot_of_pid q s.jobs
slot-clear s v i x q gx ne pos = elim (Option-cases (slot_of_pid q s.jobs)) [
  | inl missing ↦
      slot_of_pid_absent _ q (λ k j g e. elim (get_elem?-set_cases s.jobs i k cleared g) [
        | inl (_, same) ↦ ground arith
        | inr (_, old) ↦ ground (arith, find_index-none (λ y. y.pid == q) s.jobs k j missing old)
      ])
      ∙ sym missing
  | inr (k, found) ↦
      let (j, g, t) = find_index-some (λ y. y.pid == q) s.jobs k found in
      let apart : i ≢ k = λ e. ne (ground arith) in
      slot_of_pid_unique _ q k j (get_elem?-set_ne s.jobs cleared apart ∙ g) (ground arith)
        (λ l j' g' e'. elim (get_elem?-set_cases s.jobs i l cleared g') [
          | inl (_, same) ↦ absurd (ground arith)
          | inr (_, old) ↦ v.distinct l k j' j old g (ground arith) (ground arith)
        ])
      ∙ sym found
]

-- After `deletejob` no search finds the process, and every other process is found where it was.
pub getjobpid-deletejob :
    (s : Shell) (pid : ℕ)
    → IsTable s
    → (getjobpid (deletejob s pid).0 pid ≡ none)
      × ((q : ℕ) → q ≢ pid → getjobpid (deletejob s pid).0 q ≡ getjobpid s q)
unfolding deletejob getjobpid clearjob
getjobpid-deletejob s pid v = elim (Bool-cases (ltb pid 1)) [
  | inl low ↦ (rw low refl, λ q ne. rw low refl)
  | inr high ↦ elim (Option-cases (slot_of_pid pid s.jobs)) [
    | inl missing ↦ (rw (high, missing) missing, λ q ne. rw (high, missing) refl)
    | inr (i, found) ↦
        let (x, gx, tx) = find_index-some (λ y. y.pid == pid) s.jobs i found in
        (
          rw (high, found)
              (slot_of_pid_absent _ pid (λ k j g e.
                elim (get_elem?-set_cases s.jobs i k cleared g) [
                  | inl (_, same) ↦ ground arith
                  | inr (ni, old) ↦ ni (v.distinct i k x j gx old (ground arith) (ground arith))
                ])),
          λ q ne.
              rw (high, found)
                (elim (Bool-cases (ltb q 1)) [
                  | inl zero_pid ↦ rw zero_pid refl
                  | inr real ↦ rw real (slot-clear s v i x q gx (ground arith) (ground arith))
                ]),
        )
  ]
]
