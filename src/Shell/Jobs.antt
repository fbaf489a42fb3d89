-- ===== src/Shell/Jobs.antt =====
-- The job list of the tiny shell, shlab-handout/tsh.c: `struct job_t`, `jobs` and `nextjid`, and the
-- routines over them. A pointer into `jobs` is an index, a null pointer `none`. Process numbers are
-- natural numbers, so that `pid < 1` is `pid == 0`: the kernel reports no other, and `lookup_pid` and
-- `lookup_jid` read the number that a user typed, which may be negative.
pub mod Table
pub mod Ids
pub mod Lookup
use cmu_ics.Prelude.{
  ℕ, ◌+◌, ◌≡◌, refl, Option, none, some, List, [], ◌∷◌, Bool, true, false, not, ltb, ◌==◌,
  if◌then◌else◌, get_elem?, set, replicate, find_index,
}
use cmu_ics.Prelude.Int.{ℤ, pos, negsuc}

pub data JobState : Type 0 where
  undef fg bg st : JobState

pub record Job : Type 0 where
  pub pid : ℕ
  pub jid : ℕ
  pub state : JobState
  pub cmdline : List ℕ

pub record Shell : Type 0 where
  pub jobs : List Job
  pub nextjid : ℕ

abbrev pub max_jobs : ℕ
max_jobs = 16

abbrev pub is_fg : Job → Bool
is_fg j = elim j.state [ fg ↦ true | _ ↦ false ]

-- What `clearjob` leaves.
abbrev pub cleared : Job
cleared = record { pid = 0; jid = 0; state = undef; cmdline = [] }

unfoldable pub clearjob : List Job → ℕ → List Job
clearjob jobs i = set jobs i cleared

-- `initjobs`, with `nextjid` as it is declared.
abbrev pub initjobs : Shell
initjobs = record { jobs = replicate max_jobs cleared; nextjid = 1 }

-- The loop of `maxjid` from `max` on.
unfoldable pub maxjid_from : ℕ → List Job → ℕ
maxjid_from max [] = max
maxjid_from max (j ∷ jobs) = maxjid_from (if ltb max j.jid then j.jid else max) jobs

unfoldable pub maxjid : List Job → ℕ
unfolding maxjid_from
maxjid jobs = maxjid_from 0 jobs

abbrev pub free_slot : List Job → Option ℕ
free_slot = find_index (λ j. j.pid == 0)

abbrev pub slot_of_pid : ℕ → List Job → Option ℕ
slot_of_pid pid = find_index (λ j. j.pid == pid)

abbrev pub slot_of_jid : ℕ → List Job → Option ℕ
slot_of_jid jid = find_index (λ j. j.jid == jid)

abbrev pub slot_of_fg : List Job → Option ℕ
slot_of_fg = find_index is_fg

abbrev pub next_jid : ℕ → ℕ
next_jid n = if ltb max_jobs (n + 1) then 1 else n + 1

-- The new state and the result; a full table prints a message and returns 0.
unfoldable pub addjob : Shell → ℕ → JobState → List ℕ → Shell × Bool
addjob s pid state cmdline = if ltb pid 1 then (s, false) else elim (free_slot s.jobs) [
  | none ↦ (s, false)
  | some i ↦ (
    record {
      jobs = set s.jobs i (record { pid = pid; jid = s.nextjid; state = state; cmdline = cmdline });
      nextjid = next_jid s.nextjid;
    },
    true,
  )
]

unfoldable pub deletejob : Shell → ℕ → Shell × Bool
unfolding clearjob maxjid
deletejob s pid = if ltb pid 1 then (s, false) else elim (slot_of_pid pid s.jobs) [
  | none ↦ (s, false)
  | some i ↦ (record { jobs = clearjob s.jobs i; nextjid = maxjid (clearjob s.jobs i) + 1 }, true)
]

-- The process number in slot `i`; a slot that a search found is there.
abbrev pub pid_at : List Job → ℕ → ℕ
pid_at jobs i = elim (get_elem? jobs i) [ none ↦ 0 | some j ↦ j.pid ]

unfoldable pub fgpid : Shell → ℕ
fgpid s = elim (slot_of_fg s.jobs) [ none ↦ 0 | some i ↦ pid_at s.jobs i ]

unfoldable pub getjobpid : Shell → ℕ → Option ℕ
getjobpid s pid = if ltb pid 1 then none else slot_of_pid pid s.jobs

unfoldable pub getjobjid : Shell → ℕ → Option ℕ
getjobjid s jid = if ltb jid 1 then none else slot_of_jid jid s.jobs

unfoldable pub pid2jid : Shell → ℕ → ℕ
pid2jid s pid = if ltb pid 1 then 0 else elim (slot_of_pid pid s.jobs) [
  | none ↦ 0
  | some i ↦ elim (get_elem? s.jobs i) [ none ↦ 0 | some j ↦ j.jid ]
]

-- The calls with a number from the command line.
unfoldable pub lookup_pid : Shell → ℤ → Option ℕ
unfolding getjobpid
lookup_pid s (pos n) = getjobpid s n
lookup_pid s (negsuc n) = none

unfoldable pub lookup_jid : Shell → ℤ → Option ℕ
unfolding getjobjid
lookup_jid s (pos n) = getjobjid s n
lookup_jid s (negsuc n) = none

-- The entries that `listjobs` prints, in order.
unfoldable pub listjobs : List Job → List Job
listjobs [] = []
listjobs (j ∷ jobs) = if j.pid == 0 then listjobs jobs else j ∷ listjobs jobs
