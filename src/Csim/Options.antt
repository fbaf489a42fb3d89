-- ===== src/Csim/Options.antt =====
-- `parse_cmd` of cachelab-handout/csim.c. What `getopt` and `atoi` decode is the list of options; the
-- option string "vs:E:b:t:" has no `h`, so `getopt` answers `-h` by `?`.
use cmu_ics.Word.{half, add}
use cmu_ics.Prelude.{
  ◌⊎◌, inl, inr, ◌&&◌, Bool-cases, ℕ, ◌+◌, ◌≤◌, ◌<◌, ◌≡◌, ◌≢◌, Option, none, some, List, [], ◌∷◌,
  Bool, true, false, ◌||◌, ltb, leb, if◌then◌else◌, arith,
}
use cmu_ics.Prelude.Int.{ℤ, pos, negsuc, pos_part}
use cmu_ics.Csim.{Config}

pub data Opt : Type 0 where
  verbose : Opt
  set_bits : ℤ → Opt
  lines : ℤ → Opt
  block_bits : ℤ → Opt
  trace : List ℕ → Opt
  unknown : Opt
  help : Opt

-- The static variables that the options set, -1 at first.
pub record Settings : Type 0 where
  pub is_verbose : Bool
  pub set : ℤ
  pub e : ℤ
  pub block : ℤ
  pub path : Option (List ℕ)

pub data Parsed : Type 0 where
  run : Settings → Parsed
  exit_success : Parsed
  exit_failure : Parsed

abbrev pub initial : Settings
initial = record { is_verbose = false; set = negsuc 0; e = negsuc 0; block = negsuc 0; path = none }

-- `x <= 0`
abbrev pub nonpos : ℤ → Bool
nonpos (pos n) = leb n 0
nonpos (negsuc n) = true

-- `set + block > 64`, reached only if neither is negative. The sum is an `int` that wraps around.
abbrev pub too_wide : ℤ → ℤ → Bool
too_wide a b = let sum = add (pos_part a) (pos_part b) in ltb 64 sum && ltb sum half

abbrev pub is_none : Option (List ℕ) → Bool
is_none none = true
is_none (some p) = false

unfoldable pub checked : Settings → Parsed
checked o =
    if nonpos o.set || nonpos o.e || nonpos o.block || too_wide o.set o.block || is_none o.path
    then exit_failure
    else run o

unfoldable pub parse_cmd : Settings → List Opt → Parsed
unfolding checked
parse_cmd o [] = checked o
parse_cmd o (verbose ∷ rest) = parse_cmd (record o { is_verbose = true }) rest
parse_cmd o (set_bits n ∷ rest) = parse_cmd (record o { set = n }) rest
parse_cmd o (lines n ∷ rest) = parse_cmd (record o { e = n }) rest
parse_cmd o (block_bits n ∷ rest) = parse_cmd (record o { block = n }) rest
parse_cmd o (trace p ∷ rest) = parse_cmd (record o { path = some p }) rest
parse_cmd o (unknown ∷ rest) = exit_failure
parse_cmd o (help ∷ rest) = exit_success

-- What `main` passes on.
abbrev pub config_of : Settings → Config
config_of o = record {
  set_bits = pos_part o.set;
  lines = pos_part o.e;
  block_bits = pos_part o.block;
}

abbrev pub IsUsable : Config → Type 0
IsUsable c =
    (0 < c.set_bits)
    × (0 < c.lines)
    × (0 < c.block_bits)
    × ((c.set_bits + c.block_bits ≤ 64) ⊎ (half ≤ c.set_bits + c.block_bits))

-- What an `int` may hold.
abbrev pub IsInt : ℤ → Type 0
IsInt n = pos_part n < half

checked-run :
    (o o' : Settings)
    → checked o ≡ run o'
    → IsInt o'.set
    → IsInt o'.block
    → IsUsable (config_of o') × (o'.path ≢ none)
unfolding checked
checked-run o o' h small small' =
    elim (Bool-cases (leb half (pos_part o'.set + pos_part o'.block))) [
      | inl wrapped ↦ ground (arith, small, small')
      | inr exact ↦ ground (arith, small, small')
    ]

-- Whatever options it starts from, their numbers being ints, `parse_cmd` goes on only with a trace and with sizes
-- that are positive. The
-- bits of index and offset fit in an address, unless the sum of the two numbers is 2 ^ 31 or more, which wraps around.
pub parse_cmd-IsUsable :
    (opts : List Opt) (o o' : Settings)
    → parse_cmd o opts ≡ run o'
    → IsInt o'.set
    → IsInt o'.block
    → IsUsable (config_of o') × (o'.path ≢ none)
unfolding parse_cmd
parse_cmd-IsUsable [] o o' h small small' = checked-run o o' h small small'
parse_cmd-IsUsable (verbose ∷ rest) o o' h small small' =
    parse_cmd-IsUsable rest _ o' h small small'
parse_cmd-IsUsable (set_bits n ∷ rest) o o' h small small' =
    parse_cmd-IsUsable rest _ o' h small small'
parse_cmd-IsUsable (lines n ∷ rest) o o' h small small' =
    parse_cmd-IsUsable rest _ o' h small small'
parse_cmd-IsUsable (block_bits n ∷ rest) o o' h small small' =
    parse_cmd-IsUsable rest _ o' h small small'
parse_cmd-IsUsable (trace p ∷ rest) o o' h small small' =
    parse_cmd-IsUsable rest _ o' h small small'
parse_cmd-IsUsable (unknown ∷ rest) o o' h small small' = absurd (cc)
parse_cmd-IsUsable (help ∷ rest) o o' h small small' = absurd (cc)
