-- ===== src/Shell/Parse/RoundTrip.antt =====
-- What `parseline` of shlab-handout/tsh.c makes of a line that was printed from its arguments.
use mathlib.Core.List.{append_assoc, map-append}
use native.Mathlib.Nat.{le_refl}
use cmu_ics.Prelude.{
  ℕ, zero, suc, ◌≤◌, ◌<◌, ◌≡◌, ◌≢◌, refl, sym, ap, ◌∙◌, inl, inr, none, some, List, [], ◌∷◌, ◌++◌,
  map, true, false, ==_false, if◌then◌else◌, length, length-append, arith, Option-cases,
}
use cmu_ics.Shell.Parse.{
  end_in_space, skip_spaces, cut_at, next_arg, args_loop, build_argv, last_amp, drop_last, finish,
  parseline, starts_amp,
}

pub data Arg : Type 0 where
  plain : List ℕ → Arg
  quoted : List ℕ → Arg

abbrev pub text : Arg → List ℕ
text (plain w) = w
text (quoted w) = w

abbrev pub print_arg : Arg → List ℕ
print_arg (plain w) = w
print_arg (quoted w) = b'\'' ∷ (w ++ b'\'' ∷ [])

-- The arguments with a space behind each.
abbrev pub print_args : List Arg → List ℕ
print_args [] = []
print_args (a ∷ rest) = print_arg a ++ b' ' ∷ print_args rest

-- The line that a user types: a space between two arguments, and a newline at the end.
abbrev pub print_line : List Arg → List ℕ
print_line [] = b'\n' ∷ []
print_line (a ∷ []) = print_arg a ++ b'\n' ∷ []
print_line (a ∷ b ∷ rest) = print_arg a ++ b' ' ∷ print_line (b ∷ rest)

-- No byte of the text is `c`.
abbrev pub Lacks : ℕ → List ℕ → Type 0
Lacks c [] = Unit {0}
Lacks c (d ∷ s) = (d ≢ c) × Lacks c s

-- A plain argument is not empty, has no space and does not begin with a quote; a quoted one has no
-- quote inside.
abbrev pub IsArg : Arg → Type 0
IsArg (plain []) = ⊥
IsArg (plain (c ∷ w)) = (c ≢ b'\'') × Lacks b' ' (c ∷ w)
IsArg (quoted w) = Lacks b'\'' w

abbrev pub AllArgs : List Arg → Type 0
AllArgs [] = Unit {0}
AllArgs (a ∷ rest) = IsArg a × AllArgs rest

cut_at-append : (c : ℕ) (w s : List ℕ) → Lacks c w → cut_at c (w ++ c ∷ s) ≡ some (w, s)
unfolding cut_at
cut_at-append c [] s h = ground arith
cut_at-append c (d ∷ w) s h = rw (==_false d c h.0, cut_at-append c w s h.1)

-- A printed argument is not skipped, and is read back with what follows its space left.
next_arg-print :
    (a : Arg) (s : List ℕ)
    → IsArg a
    → (r : List ℕ) × (next_arg (print_arg a ++ b' ' ∷ s) ≡ some (text a, r))
      × (skip_spaces r ≡ skip_spaces s)
      × (skip_spaces (print_arg a ++ b' ' ∷ s) ≡ print_arg a ++ b' ' ∷ s)
      × (1 ≤ length (print_arg a))
unfolding next_arg skip_spaces
next_arg-print (plain []) s h = absurd h
next_arg-print (plain (c ∷ w)) s h = (
  s,
  rw (==_false c b'\'' h.0) (cut_at-append b' ' (c ∷ w) s h.1),
  refl,
  rw (==_false c b' ' h.1.0) refl,
  omega arith,
)
next_arg-print (quoted w) s h =
    (b' ' ∷ s, rw append_assoc (cut_at-append b'\'' w (b' ' ∷ s) h), refl, refl, omega arith)

skip_spaces-print :
    (args : List Arg) → AllArgs args → skip_spaces (print_args args) ≡ print_args args
unfolding skip_spaces
skip_spaces-print [] h = refl
skip_spaces-print (a ∷ rest) h = (next_arg-print a (print_args rest) h.0).3

args_loop_more :
    (fuel : ℕ) (s a r : List ℕ)
    → next_arg s ≡ some (a, r)
    → args_loop (suc fuel) s ≡ a ∷ args_loop fuel (skip_spaces r)
unfolding args_loop
args_loop_more fuel s a r e = rw (e, args_loop) refl

args_loop_end : (fuel : ℕ) (s : List ℕ) → next_arg s ≡ none → args_loop fuel s ≡ []
unfolding args_loop
args_loop_end zero s e = refl
args_loop_end (suc fuel) s e = rw (e, args_loop) refl

next_arg-nil : next_arg [] ≡ none
unfolding next_arg
next_arg-nil = refl

args_loop-print :
    (args : List Arg) (fuel : ℕ)
    → AllArgs args
    → length (print_args args) ≤ fuel
    → args_loop fuel (print_args args) ≡ map text args
args_loop-print [] fuel h le = args_loop_end fuel [] next_arg-nil
args_loop-print (a ∷ rest) zero h le =
    absurd (omega (arith, length-append (print_arg a) (b' ' ∷ print_args rest)))
args_loop-print (a ∷ rest) (suc fuel) h le =
    let (r, next, skip, _, pos) = next_arg-print a (print_args rest) h.0 in
    rw (args_loop_more fuel _ (text a) r next, skip, skip_spaces-print rest h.1)
      (ap (◌∷◌ (text a)) (
        args_loop-print rest fuel h.1
          (omega (arith, length-append (print_arg a) (b' ' ∷ print_args rest)))))

-- Each round takes at least one byte.
cut_at-lt : (c : ℕ) (s a r : List ℕ) → cut_at c s ≡ some (a, r) → length r < length s
unfolding cut_at
cut_at-lt c [] a r e = absurd (cc)
cut_at-lt c (d ∷ s) a r e = elim (Option-cases (cut_at c s)) [
  | inl missing ↦ ground arith
  | inr ((a', r'), found) ↦ ground (arith, cut_at-lt c s a' r')
]

next_arg-lt : (s a r : List ℕ) → next_arg s ≡ some (a, r) → length r < length s
unfolding next_arg
next_arg-lt [] a r e = absurd (cc)
next_arg-lt (c ∷ s) a r e = ground (arith, cut_at-lt b'\'' s a r, cut_at-lt b' ' (c ∷ s) a r)

length-skip_spaces-le : (s : List ℕ) → length (skip_spaces s) ≤ length s
unfolding skip_spaces
length-skip_spaces-le [] = omega arith
length-skip_spaces-le (c ∷ s) = ground (arith, length-skip_spaces-le s)

-- With the length of the text as fuel the loop ends by its own test: more fuel changes nothing.
pub args_loop_fuel :
    (fuel more : ℕ) (s : List ℕ)
    → length s ≤ fuel
    → length s ≤ more
    → args_loop fuel s ≡ args_loop more s
args_loop_fuel zero more [] le le' =
    args_loop_end zero [] next_arg-nil ∙ sym (args_loop_end more [] next_arg-nil)
args_loop_fuel zero more (c ∷ s) le le' = absurd (omega arith)
args_loop_fuel (suc fuel) zero [] le le' =
    args_loop_end (suc fuel) [] next_arg-nil ∙ sym (args_loop_end zero [] next_arg-nil)
args_loop_fuel (suc fuel) zero (c ∷ s) le le' = absurd (omega arith)
args_loop_fuel (suc fuel) (suc more) s le le' = elim (Option-cases (next_arg s)) [
  | inl end ↦ args_loop_end (suc fuel) s end ∙ sym (args_loop_end (suc more) s end)
  | inr ((a, r), found) ↦
      rw (args_loop_more fuel s a r found, args_loop_more more s a r found)
        (ap (◌∷◌ a) (
          args_loop_fuel fuel more (skip_spaces r)
            (omega (arith, next_arg-lt s a r found, length-skip_spaces-le r))
            (omega (arith, next_arg-lt s a r found, length-skip_spaces-le r))))
]

append-ne_nil : (u : List ℕ) (c : ℕ) (s : List ℕ) → (u ++ c ∷ s) ≢ []
append-ne_nil [] c s e = cc
append-ne_nil (x ∷ u) c s e = cc

end_in_space-append : (u v : List ℕ) → v ≢ [] → end_in_space (u ++ v) ≡ u ++ end_in_space v
unfolding end_in_space
end_in_space-append [] v h = refl
end_in_space-append (x ∷ []) [] h = absurd (h refl)
end_in_space-append (x ∷ []) (c ∷ v) h = refl
end_in_space-append (x ∷ y ∷ u) v h = ap (◌∷◌ x) (end_in_space-append (y ∷ u) v h)

print_line-ne_nil : (a : Arg) (rest : List Arg) → print_line (a ∷ rest) ≢ []
print_line-ne_nil a [] = append-ne_nil (print_arg a) b'\n' []
print_line-ne_nil a (b ∷ rest) = append-ne_nil (print_arg a) b' ' (print_line (b ∷ rest))

end_in_space-print :
    (a : Arg) (rest : List Arg) → end_in_space (print_line (a ∷ rest)) ≡ print_args (a ∷ rest)
unfolding end_in_space
end_in_space-print a [] = end_in_space-append (print_arg a) (b'\n' ∷ []) (append-ne_nil [] b'\n' [])
end_in_space-print a (b ∷ rest) =
    ap end_in_space (sym (append_assoc (print_arg a) (b' ' ∷ []) (print_line (b ∷ rest))))
    ∙ end_in_space-append (print_arg a ++ b' ' ∷ []) (print_line (b ∷ rest))
        (print_line-ne_nil b rest)
    ∙ rw (end_in_space-print b rest)
        (append_assoc (print_arg a) (b' ' ∷ []) (print_args (b ∷ rest)))

build_argv-print :
    (a : Arg) (rest : List Arg)
    → AllArgs (a ∷ rest)
    → build_argv (print_line (a ∷ rest)) ≡ map text (a ∷ rest)
unfolding build_argv
build_argv-print a rest h =
    rw (end_in_space-print a rest, skip_spaces-print (a ∷ rest) h)
      (args_loop-print (a ∷ rest) _ h (le_refl _))

last_amp-append : (ws : List (List ℕ)) (w : List ℕ) → last_amp (ws ++ w ∷ []) ≡ starts_amp w
unfolding last_amp
last_amp-append [] w = refl
last_amp-append (a ∷ []) w = refl
last_amp-append (a ∷ b ∷ ws) w = last_amp-append (b ∷ ws) w

drop_last-append : (ws : List (List ℕ)) (w : List ℕ) → drop_last (ws ++ w ∷ []) ≡ ws
unfolding drop_last
drop_last-append [] w = refl
drop_last-append (a ∷ []) w = refl
drop_last-append (a ∷ b ∷ ws) w = ap (◌∷◌ a) (drop_last-append (b ∷ ws) w)

finish-append :
    (ws : List (List ℕ)) (w : List ℕ)
    → finish (ws ++ w ∷ []) ≡ (if starts_amp w then (ws, true) else (ws ++ w ∷ [], false))
unfolding finish
finish-append [] w = refl
finish-append (a ∷ ws) w = rw (last_amp-append (a ∷ ws) w, drop_last-append (a ∷ ws) w) refl

-- Printed with a space between two arguments and a newline at the end, a line of one argument or
-- more is read back as its arguments and as a foreground job, unless the last begins with an
-- ampersand: then all but the last are read back, as a background job.
pub parseline-print :
    (args : List Arg) (a : Arg)
    → AllArgs (args ++ a ∷ [])
    → parseline (print_line (args ++ a ∷ [])) ≡ (
        if starts_amp (text a)
        then (map text args, true)
        else (map text args ++ text a ∷ [], false))
unfolding parseline
parseline-print args a h =
    ap finish (all args h ∙ map-append text args (a ∷ [])) ∙ finish-append (map text args) (text a)
  where
    all :
        (args : List Arg)
        → AllArgs (args ++ a ∷ [])
        → build_argv (print_line (args ++ a ∷ [])) ≡ map text (args ++ a ∷ [])
    all [] h = build_argv-print a [] h
    all (b ∷ rest) h = build_argv-print b (rest ++ a ∷ []) h
