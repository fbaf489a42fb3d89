-- ===== src/Csim/Earlier.antt =====
-- An earlier cache simulator, cachelab-handout_back/csim.c. The lines of a set are a list of `E` lines; a fault,
-- the access to a line with the index -1, is `none`.
pub mod Frozen
mod Tests
use cmu_ics.Prelude.{
  ℕ, suc, ◌+◌, ◌-◌, ◌/◌, ◌%◌, ◌^◌, Option, none, some, List, [], ◌∷◌, Bool, true, false, not, ◌&&◌,
  ◌||◌, ltb, ◌==◌, if◌then◌else◌, get_elem?, set, replicate,
}
use cmu_ics.Prelude.Int.{pos_part}
use cmu_ics.Csim.{can_count, shifts_defined}
use cmu_ics.Csim.Options.{
  config_of, Opt, Settings, Parsed, run, exit_success, exit_failure, initial, verbose, set_bits,
  lines, block_bits, trace, unknown, help, nonpos, too_wide, is_none,
}

-- `struct cache_t`
pub record Line : Type 0 where
  pub valid : ℕ
  pub tag : ℕ
  pub timestp : ℕ

pub record Counts : Type 0 where
  pub hit : ℕ
  pub miss : ℕ
  pub evict : ℕ

unfoldable pub init_cache : ℕ → ℕ → List (List Line)
init_cache set e = replicate (2 ^ set) (replicate e (record { valid = 0; tag = 0; timestp = 0 }))

-- The rest of a set behind a line that a loop has passed.
abbrev pub passed : Line → Option (List Line) → Option (List Line)
passed l none = none
passed l (some ls) = some (l ∷ ls)

-- `timestp++`
abbrev pub next_stamp : ℕ → ℕ
next_stamp t = (t + 1) % 2 ^ 64

-- The first loop of `find_cache`; `none` when the flag is not set.
unfoldable pub hit_loop : List Line → ℕ → Option (List Line)
hit_loop [] tag = none
hit_loop (l ∷ ls) tag =
    let rest = hit_loop ls tag in
    if not (l.valid == 0) && l.tag == tag
    then some (record l { timestp = next_stamp l.timestp } ∷ ls)
    else passed l rest

-- The second loop.
unfoldable pub fill_loop : List Line → ℕ → Option (List Line)
fill_loop [] tag = none
fill_loop (l ∷ ls) tag =
    let rest = fill_loop ls tag in
    if l.valid == 0 then some (record l { valid = 1; tag = tag } ∷ ls) else passed l rest

-- The third loop, which ends at the first line below `UINT_MAX`, and the writes to that line.
unfoldable pub evict_loop : List Line → ℕ → Option (List Line)
evict_loop [] tag = none
evict_loop (l ∷ ls) tag =
    let rest = evict_loop ls tag in
    if ltb l.timestp (2 ^ 32 - 1)
    then some (record { valid = 1; tag = tag; timestp = next_stamp l.timestp } ∷ ls)
    else passed l rest

-- A set with the counters, when there is no fault.
abbrev pub counted : Counts → Option (List Line) → Option (List Line × Counts)
counted c none = none
counted c (some ls) = some (ls, c)

-- What `find_cache` does behind its second loop, and behind its first. A counter past `INT_MAX` is a fault.
abbrev pub behind_second : Counts → List Line → ℕ → Option (List Line) → Option (List Line × Counts)
behind_second c cache_lines tag (some ls) =
    if can_count c.miss then some (ls, record c { miss = c.miss + 1 }) else none
behind_second c cache_lines tag none =
    if can_count c.miss && can_count c.evict
    then counted (record c { miss = c.miss + 1; evict = c.evict + 1 }) (evict_loop cache_lines tag)
    else none

abbrev pub behind_first : Counts → List Line → ℕ → Option (List Line) → Option (List Line × Counts)
behind_first c cache_lines tag (some ls) =
    if can_count c.hit then some (ls, record c { hit = c.hit + 1 }) else none
behind_first c cache_lines tag none = behind_second c cache_lines tag (fill_loop cache_lines tag)

unfoldable pub find_cache : ℕ → List Line → Counts → Option (List Line × Counts)
unfolding hit_loop fill_loop evict_loop
find_cache tag cache_lines c = behind_first c cache_lines tag (hit_loop cache_lines tag)

-- The options of `main`; `case 't'` has no `break`, and goes on to `return 0`.
unfoldable pub options : Settings → List Opt → Parsed
options o [] =
    if nonpos o.set || nonpos o.e || nonpos o.block || too_wide o.set o.block || is_none o.path
    then exit_failure
    else run o
options o (verbose ∷ rest) = options (record o { is_verbose = true }) rest
options o (help ∷ rest) = options o rest
options o (set_bits n ∷ rest) = options (record o { set = n }) rest
options o (lines n ∷ rest) = options (record o { e = n }) rest
options o (block_bits n ∷ rest) = options (record o { block = n }) rest
options o (trace p ∷ rest) = exit_success
options o (unknown ∷ rest) = exit_success

-- What a call of `fscanf` leaves: whether it returned 3, and the variables.
pub record Scan : Type 0 where
  pub complete : Bool
  pub op : ℕ
  pub addr : ℕ

-- How `main` ends. At the end of the file `fscanf` returns -1 for ever.
pub data Outcome : Type 0 where
  exited : ℕ → Outcome
  summary : Counts → Outcome
  fault : Outcome
  endless : Outcome

-- `int tag`, and its conversion to `uint64_t`.
abbrev pub tag_of : ℕ → ℕ → ℕ → ℕ
tag_of set block addr =
    let tag = addr / 2 ^ (block + set) % 2 ^ 32 in
    if ltb tag (2 ^ 31) then tag else tag + 2 ^ 64 - 2 ^ 32

-- A use of a set, once more if `again`.
abbrev pub use_set : Bool → ℕ → Option (List Line × Counts) → Option (List Line × Counts)
use_set again tag none = none
use_set true tag (some (ls, c)) = find_cache tag ls c
use_set false tag (some r) = some r

abbrev pub stored :
    List (List Line) → ℕ → Option (List Line × Counts) → Option (List (List Line) × Counts)
stored caches i none = none
stored caches i (some (ls, c)) = some (set caches i ls, c)

-- The body of the loop of `main`.
unfoldable pub simulate :
    ℕ → ℕ → Scan → List (List Line) → Counts → Option (List (List Line) × Counts)
unfolding find_cache
simulate set block s caches c =
    let tag = tag_of set block s.addr in
    let set_index = s.addr / 2 ^ block % 2 ^ set in
    if s.op == b'I' then some (caches, c) else elim (get_elem? caches set_index) [
      | none ↦ none
      | some ls ↦ stored caches set_index (use_set (s.op == b'M') tag (find_cache tag ls c))
    ]

unfoldable pub read_loop : ℕ → ℕ → List Scan → List (List Line) → Counts → Outcome
unfolding simulate
read_loop set block [] caches c = endless
read_loop set block (s ∷ rest) caches c =
    if s.complete then summary c else elim (simulate set block s caches c) [
      | none ↦ fault
      | some r ↦ read_loop set block rest r.0 r.1
    ]

-- `main` behind its options. A shift that C does not define is a fault.
abbrev pub started : List Scan → Parsed → Outcome
started scans exit_success = exited 0
started scans exit_failure = exited 1
started scans (run o) =
    if shifts_defined (config_of o)
    then read_loop (pos_part o.set) (pos_part o.block) scans
        (init_cache (pos_part o.set) (pos_part o.e)) (record { hit = 0; miss = 0; evict = 0 })
    else fault

unfoldable pub main : List Opt → List Scan → Outcome
unfolding options
main opts scans = started scans (options initial opts)
