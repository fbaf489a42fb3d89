-- ===== src/Csim.antt =====
-- The cache simulator, cachelab-handout/csim.c. The static variables are the fields of `State`, the
-- options that `parse_cmd` stores are those of `Config`. A fault, that is an access outside an array,
-- a shift by a count that C does not define, or a counter past `INT_MAX`, is `none`. The allocations of
-- `init_cache` are taken to succeed; its assertions end the program otherwise.
pub mod Search
pub mod Lru
pub mod Stack
pub mod History
pub mod Reference
pub mod Options
pub mod Earlier
mod Tests
use cmu_ics.Prelude.{
  ℕ, ◌+◌, ◌-◌, ◌/◌, ◌%◌, ◌^◌, Option, none, some, List, [], ◌∷◌, Bool, true, false, ltb, ◌==◌, ◌&&◌,
  ◌||◌, if◌then◌else◌, get_elem?, set, replicate,
}
use cmu_ics.Csim.Search.{Line, find_tag, find_victim}

pub record Config : Type 0 where
  pub set_bits : ℕ
  pub lines : ℕ
  pub block_bits : ℕ

pub record State : Type 0 where
  pub cnt : ℕ
  pub caches : List (List Line)
  pub hits : ℕ
  pub misses : ℕ
  pub evictions : ℕ

-- `INT_MAX`
abbrev pub int_max : ℕ
int_max = 2 ^ 31 - 1

-- Every line is cleared.
abbrev pub cleared_cache : Config → State
cleared_cache c = record {
  cnt = 1;
  caches = replicate (2 ^ c.set_bits) (replicate c.lines (record { valid = 0; tag = 0 }));
  hits = 0;
  misses = 0;
  evictions = 0;
}

-- `1 << set` is an `int`.
unfoldable pub init_cache : Config → Option State
init_cache c = if ltb c.set_bits 31 then some (cleared_cache c) else none

-- The shifts of `find_cache` are defined: of an `int` by `set`, and of an address by `set + block`.
abbrev pub shifts_defined : Config → Bool
shifts_defined c = ltb c.set_bits 31 && ltb (c.set_bits + c.block_bits) 64

-- `n++` of an `int` is defined.
abbrev pub can_count : ℕ → Bool
can_count n = ltb n int_max

-- `tag` and `set_index`, where the shifts are defined.
abbrev pub tag_of : Config → ℕ → ℕ
tag_of c addr = addr / 2 ^ (c.set_bits + c.block_bits)

abbrev pub set_of : Config → ℕ → ℕ
set_of c addr = addr / 2 ^ c.block_bits % 2 ^ c.set_bits

-- The part of `find_cache` behind `line_index != -1`.
unfoldable pub hit_line : State → ℕ → List Line → ℕ → Option State
hit_line s set_index lines i = elim (get_elem? lines i) [
  | none ↦ none
  | some l ↦
      if can_count s.hits && can_count s.cnt
      then some (record s {
        hits = s.hits + 1;
        caches = set s.caches set_index (set lines i (record l { valid = s.cnt }));
        cnt = s.cnt + 1;
      })
      else none
]

-- The part from `misses++` on, with the line that the second loop chose.
unfoldable pub fill_line : State → ℕ → ℕ → List Line → ℕ → Option State
fill_line s set_index tag lines i = elim (get_elem? lines i) [
  | none ↦ none
  | some l ↦
      if can_count s.misses && ((l.valid == 0 || can_count s.evictions) && can_count s.cnt)
      then some (record s {
        misses = s.misses + 1;
        evictions = if l.valid == 0 then s.evictions else s.evictions + 1;
        caches = set s.caches set_index (set lines i (record { valid = s.cnt; tag = tag }));
        cnt = s.cnt + 1;
      })
      else none
]

unfoldable pub access_set : State → ℕ → ℕ → List Line → Option State
access_set s set_index tag lines = elim (find_tag lines tag 0) [
  | some i ↦ hit_line s set_index lines i
  | none ↦ elim (find_victim lines 0 none int_max) [
    | none ↦ none
    | some i ↦ fill_line s set_index tag lines i
  ]
]

unfoldable pub find_cache : Config → State → ℕ → Option State
find_cache c s addr =
    let found : Option State = elim (get_elem? s.caches (set_of c addr)) [
      | none ↦ none
      | some lines ↦ access_set s (set_of c addr) (tag_of c addr) lines
    ] in
    if shifts_defined c then found else none

-- One line of the trace as `fscanf` reads it: the first character of `op`, and `addr`.
pub record Access : Type 0 where
  pub op : ℕ
  pub addr : ℕ

-- `if(op[0] == 'M') hits++`
abbrev pub hit_again : ℕ → State → Option State
hit_again op s =
    if op == b'M'
    then if can_count s.hits then some (record s { hits = s.hits + 1 }) else none
    else some s

-- The loop's body.
unfoldable pub simulate : Config → State → Access → Option State
simulate c s a =
    if a.op == b'I'
    then some s
    else elim (find_cache c s a.addr) [ none ↦ none | some s' ↦ hit_again a.op s' ]

unfoldable pub read_from_file : Config → State → List Access → Option State
read_from_file c s [] = some s
read_from_file c s (a ∷ rest) = elim (simulate c s a) [
  | none ↦ none
  | some s' ↦ read_from_file c s' rest
]

-- `init_cache` and `read_from_file`, as `main` calls them.
unfoldable pub run_trace : Config → List Access → Option State
unfolding init_cache
run_trace c trace = elim (init_cache c) [ none ↦ none | some s ↦ read_from_file c s trace ]
