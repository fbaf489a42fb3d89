-- ===== src/Shell/Command.antt =====
-- The commands of shlab-handout/tsh.c: `builtin_cmd`, `do_bgfg` and `eval`. `do_bgfg` is cut where a
-- handler may run: behind the search for the job, and behind the change of its state.
use cmu_ics.Prelude.{
  ℕ, ◌⊎◌, inl, inr, Option, none, some, List, [], ◌∷◌, Bool, true, false, not, ◌&&◌, ◌||◌, ◌==◌,
  if◌then◌else◌, get_elem?, drop,
}
use cmu_ics.Prelude.Int.{ℤ, pos, negsuc}
use cmu_ics.Shell.Jobs.{fg, bg, Shell, pid_at, pid2jid, lookup_pid, lookup_jid, addjob}
use cmu_ics.Shell.Parse.{parseline}
use cmu_ics.Shell.Signals.{
  Message, set_state, job_running, requires_argument, must_be_pid, no_such_process, no_such_job,
}

-- `strcmp(s, t) == 0`
unfoldable pub text_eq : List ℕ → List ℕ → Bool
text_eq [] [] = true
text_eq (c ∷ s) (d ∷ t) = c == d && text_eq s t
text_eq _ _ = false

-- `strchr(s, c) != NULL`
unfoldable pub has_char : ℕ → List ℕ → Bool
has_char c [] = false
has_char c (d ∷ s) = d == c || has_char c s

pub data Builtin : Type 0 where
  do_quit do_jobs do_bgfg : Builtin

-- `builtin_cmds`
abbrev pub builtin_cmds : List (List ℕ × Builtin)
builtin_cmds =
    (b'q' ∷ b'u' ∷ b'i' ∷ b't' ∷ [], do_quit)
    ∷ (b'j' ∷ b'o' ∷ b'b' ∷ b's' ∷ [], do_jobs)
    ∷ (b'f' ∷ b'g' ∷ [], do_bgfg)
    ∷ (b'b' ∷ b'g' ∷ [], do_bgfg)
    ∷ []

unfoldable pub find_builtin : List (List ℕ × Builtin) → List ℕ → Option Builtin
unfolding text_eq
find_builtin [] name = none
find_builtin ((cmd, func) ∷ rest) name =
    if text_eq name cmd then some func else find_builtin rest name

-- What `eval` does with a line: nothing, a built-in command, or a new process.
pub data Action : Type 0 where
  nothing : Action
  builtin : Builtin → List ℕ → List (List ℕ) → Action
  launch : List (List ℕ) → Bool → Action

unfoldable pub action_of : List (List ℕ) × Bool → Action
unfolding find_builtin
action_of ([], in_bg) = nothing
action_of (name ∷ args, in_bg) = elim (find_builtin builtin_cmds name) [
  | none ↦ launch (name ∷ args) in_bg
  | some func ↦ builtin func name args
]

unfoldable pub eval : List ℕ → Action
unfolding action_of
eval cmdline = action_of (parseline cmdline)

-- The parent's part of `eval` behind `fork`: the new state, and the process that `waitfg` waits for
-- or the line that is printed.
unfoldable pub add_child : Shell → ℕ → Bool → List ℕ → Shell × (ℕ ⊎ Message)
add_child s pid in_bg cmdline =
    let s' = (addjob s pid (if in_bg then bg else fg) cmdline).0 in
    (s', if in_bg then inr (job_running (pid2jid s' pid) pid cmdline) else inl pid)

-- The search of `do_bgfg`: the slot of the job, or the line that is printed.
pub data Selected : Type 0 where
  say : Message → Selected
  slot : ℕ → Selected

abbrev pub is_zero : ℤ → Bool
is_zero (pos n) = n == 0
is_zero (negsuc n) = false

-- The signals that are blocked.
abbrev pub Mask : Type 0
Mask = ℕ → Bool

-- `sigfillset`
abbrev pub mask_all : Mask
mask_all sig = true

-- `sigprocmask(SIG_BLOCK, &set, &prev)`, with `prev`, and `sigprocmask(SIG_SETMASK, &set, NULL)`.
abbrev pub sig_block : Mask → Mask → Mask × Mask
sig_block set mask = ((λ sig. set sig || mask sig), mask)

abbrev pub sig_setmask : Mask → Mask → Mask
sig_setmask set mask = set

-- `strtol(s, NULL, 10)`, cut to an `int`, is the C library's.
module _ (strtol : List ℕ → ℤ) where
  -- With the mask that it leaves.
  unfoldable pub select_job : Shell → Mask → List ℕ → List (List ℕ) → Mask × Selected
  unfolding has_char
  select_job s mask name [] = (mask, say (requires_argument name))
  select_job s mask name (arg ∷ rest) =
      let (blocked, mask_prev) = sig_block mask_all mask in
      let pid = strtol arg in
      let jid = strtol (drop 1 arg) in
      if not (has_char b'%' arg)
      then if is_zero pid then (blocked, say must_be_pid) else (
        sig_setmask mask_prev blocked,
        elim (lookup_pid s pid) [ none ↦ say (no_such_process pid) | some i ↦ slot i ],
      )
      else (
        sig_setmask mask_prev blocked,
        elim (lookup_jid s jid) [ none ↦ say (no_such_job jid) | some i ↦ slot i ],
      )

-- Behind `kill(-(job->pid), SIGCONT)`, up to where the signals are let in again: the slot may have been
-- cleared by then.
unfoldable pub resume_job : Shell → ℕ → Bool → Shell
resume_job s i to_fg = if to_fg then set_state s i fg else set_state s i bg

-- What comes next, once the signals are let in: the process that `waitfg` is called with, or the line that is
-- printed.
unfoldable pub resumed_job : Shell → ℕ → Bool → ℕ ⊎ Message
resumed_job s i to_fg =
    if to_fg
    then inl (pid_at s.jobs i)
    else inr (elim (get_elem? s.jobs i) [
      | none ↦ job_running 0 0 []
      | some j ↦ job_running j.jid j.pid j.cmdline
    ])

-- `strcmp(argv[0], "fg") == 0`
abbrev pub wants_fg : List ℕ → Bool
wants_fg name = text_eq name (b'f' ∷ b'g' ∷ [])
