-- ===== src/Csim/Reference.antt =====
-- A least recently used cache as a stack of tags for each set, the independent description of what
-- cachelab-handout/csim.c simulates. A set holds the tags on top of its stack, as many as it has lines.
pub mod Agree
use cmu_ics.Prelude.{ℕ, ◌+◌, List, [], ◌∷◌, leb, ◌==◌, if◌then◌else◌, take, length}
use cmu_ics.Csim.{Config, State, Access, set_of, tag_of, simulate, read_from_file, init_cache}
use cmu_ics.Csim.Stack.{member, without}

pub record Reference : Type 0 where
  pub stacks : ℕ → List ℕ
  pub hits : ℕ
  pub misses : ℕ
  pub evictions : ℕ

abbrev pub empty : Reference
empty = record { stacks = λ i. []; hits = 0; misses = 0; evictions = 0 }

-- The tag moves to the top of the stack of its set.
abbrev pub moved : (ℕ → List ℕ) → ℕ → ℕ → ℕ → List ℕ
moved stacks i t j = if i == j then t ∷ without t (stacks j) else stacks j

-- A hit when the tag is among the first; otherwise a miss, and an eviction when the set is full.
unfoldable pub use_address : Config → ℕ → Reference → Reference
use_address c addr r =
    let i = set_of c addr in
    let t = tag_of c addr in
    if member t (take c.lines (r.stacks i))
    then record r { hits = r.hits + 1; stacks = moved r.stacks i t }
    else record r {
      misses = r.misses + 1;
      evictions = if leb c.lines (length (r.stacks i)) then r.evictions + 1 else r.evictions;
      stacks = moved r.stacks i t;
    }

-- A load or a store uses its address once; a modify is one more hit.
unfoldable pub refer : Config → Access → Reference → Reference
unfolding use_address
refer c a r =
    let r' = use_address c a.addr r in
    if a.op == b'I' then r else if a.op == b'M' then record r' { hits = r'.hits + 1 } else r'

unfoldable pub refer_all : Config → List Access → Reference → Reference
unfolding refer
refer_all c [] r = r
refer_all c (a ∷ trace) r = refer_all c trace (refer c a r)
