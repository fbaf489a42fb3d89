-- ===== src/Shell/Parse.antt =====
-- `parseline` of shlab-handout/tsh.c over the bytes of the line, without the terminating NUL. An
-- element of `argv` is the text up to the NUL that the code writes over its delimiter.
pub mod RoundTrip
use cmu_ics.Prelude.{
  ℕ, zero, suc, ◌+◌, ◌≤◌, ◌<◌, ◌≡◌, refl, Option, none, some, List, [], ◌∷◌, ◌++◌, Bool, true,
  false, ◌==◌, if◌then◌else◌, length, arith,
}

-- `buf[strlen(buf) - 1] = ' '`
unfoldable pub end_in_space : List ℕ → List ℕ
end_in_space [] = []
end_in_space (c ∷ []) = b' ' ∷ []
end_in_space (c ∷ d ∷ s) = c ∷ end_in_space (d ∷ s)

-- `while (*buf && (*buf == ' ')) buf++;`
unfoldable pub skip_spaces : List ℕ → List ℕ
skip_spaces [] = []
skip_spaces (c ∷ s) = if c == b' ' then skip_spaces s else c ∷ s

-- `strchr(buf, c)`: the text before the first `c`, and what is left behind it.
unfoldable pub cut_at : ℕ → List ℕ → Option (List ℕ × List ℕ)
cut_at c [] = none
cut_at c (d ∷ s) =
    if d == c
    then some ([], s)
    else elim (cut_at c s) [ none ↦ none | some (a, b) ↦ some (d ∷ a, b) ]

-- A quoted argument goes to the next quote, any other to the next space.
unfoldable pub next_arg : List ℕ → Option (List ℕ × List ℕ)
unfolding cut_at
next_arg [] = none
next_arg (c ∷ s) = if c == b'\'' then cut_at b'\'' s else cut_at b' ' (c ∷ s)

-- The loop `while (delim)`. Each round takes a byte or more, so the length of the text is enough fuel.
unfoldable pub args_loop : ℕ → List ℕ → List (List ℕ)
args_loop zero s = []
args_loop (suc fuel) s = elim (next_arg s) [
  | none ↦ []
  | some (arg, rest) ↦ arg ∷ args_loop fuel (skip_spaces rest)
]

unfoldable pub build_argv : List ℕ → List (List ℕ)
build_argv cmdline = let buf = skip_spaces (end_in_space cmdline) in args_loop (length buf) buf

-- `*argv[argc - 1] == '&'`; the NUL of an empty argument is no `&`.
abbrev pub starts_amp : List ℕ → Bool
starts_amp [] = false
starts_amp (c ∷ s) = c == b'&'

unfoldable pub last_amp : List (List ℕ) → Bool
last_amp [] = false
last_amp (a ∷ []) = starts_amp a
last_amp (a ∷ b ∷ rest) = last_amp (b ∷ rest)

unfoldable pub drop_last : List (List ℕ) → List (List ℕ)
drop_last [] = []
drop_last (a ∷ []) = []
drop_last (a ∷ b ∷ rest) = a ∷ drop_last (b ∷ rest)

-- The part behind the loop: `argv`, and whether the job goes to the background.
unfoldable pub finish : List (List ℕ) → List (List ℕ) × Bool
unfolding last_amp drop_last
finish [] = ([], true)
finish (a ∷ rest) = if last_amp (a ∷ rest) then (drop_last (a ∷ rest), true) else (a ∷ rest, false)

unfoldable pub parseline : List ℕ → List (List ℕ) × Bool
parseline cmdline = finish (build_argv cmdline)
