-- ===== src/Malloc/Driver.antt =====
-- The checks of malloclab-handout/mdriver.c on an allocator, which is the parameter `A`: the ranges of the
-- payloads and `eval_mm_valid`. Messages are left out. The arrays of a trace are functions from the
-- indices, which `read_trace` has counted.
pub mod Laws
pub mod Ranges
pub mod Step
pub mod Legal
pub mod Advance
pub mod Valid
pub mod Signed
pub mod Util
mod Tests
use cmu_ics.Word.{half}
use cmu_ics.Prelude.{
  ℕ, zero, suc, ◌+◌, ◌-◌, ◌%◌, ◌⊎◌, inl, inr, List, [], ◌∷◌, Bool, true, false, not, ◌&&◌, ◌||◌,
  ltb, leb, ◌==◌, if◌then◌else◌,
}

-- The functions that the driver calls: those of memlib.c and of the allocator it is linked with, and the access
-- to memory by bytes. `mm_init` is true when its result is not negative.
pub record Allocator : Type 1 where
  pub State : Type 0
  pub mem_reset_brk : State → State
  pub mem_heap_lo : State → ℕ
  pub mem_heap_hi : State → ℕ
  pub mm_init : State → Bool × State
  pub mm_malloc : State → ℕ → ℕ × State
  pub mm_realloc : State → ℕ → ℕ → ℕ × State
  pub mm_free : State → ℕ → State
  pub get_byte : State → ℕ → ℕ
  pub memset : State → ℕ → ℕ → ℕ → State

pub record Range : Type 0 where
  pub lo : ℕ
  pub hi : ℕ

pub data OpType : Type 0 where
  alloc : OpType
  release : OpType
  realloc : OpType

pub record TraceOp : Type 0 where
  pub type : OpType
  pub index : ℕ
  pub size : ℕ

-- How the evaluation of a trace ends: with the result 1, with the result 0 after one of the calls of
-- `malloc_error`, or by `assert(size > 0)`.
pub data Verdict : Type 0 where
  valid : Verdict
  init_failed : Verdict
  malloc_failed : Verdict
  realloc_failed : Verdict
  range_refused : Verdict
  data_lost : Verdict
  aborted : Verdict

pub data Added : Type 0 where
  added : List Range → Added
  refused : Added
  assertion : Added

-- The loop of `add_range` over the other payloads.
unfoldable pub overlaps : List Range → ℕ → ℕ → Bool
overlaps [] lo hi = false
overlaps (p ∷ ps) lo hi =
    let rest = overlaps ps lo hi in
    if (leb p.lo lo && leb lo p.hi) || (leb p.lo hi && leb hi p.hi) then true else rest

unfoldable pub remove_range : List Range → ℕ → List Range
remove_range [] lo = []
remove_range (p ∷ ps) lo = let rest = remove_range ps lo in if p.lo == lo then ps else p ∷ rest

-- An array with one element set.
abbrev pub set_at : (ℕ → ℕ) → ℕ → ℕ → ℕ → ℕ
set_at f i v j = if j == i then v else f j

module _ (A : Allocator) where
  -- A size is an `int`, negative from 2 ^ 31 on.
  unfoldable pub add_range : A.State → List Range → ℕ → ℕ → Added
  unfolding overlaps
  add_range s ranges lo size =
      let hi = lo + size - 1 in
      if size == 0 || leb half size
      then assertion
      else if not (lo % 8 == 0)
      then refused
      else if ltb lo (A.mem_heap_lo s)
          || ltb (A.mem_heap_hi s) lo
          || ltb hi (A.mem_heap_lo s)
          || ltb (A.mem_heap_hi s) hi
      then refused
      else if overlaps ranges lo hi
      then refused
      else added (record { lo = lo; hi = hi } ∷ ranges)

  -- The loop that compares the first `n` bytes with the low byte of the index. A `char` has a sign, so no
  -- byte from 128 on is equal to a number from 0 to 255.
  unfoldable pub holds_index : A.State → ℕ → ℕ → ℕ → Bool
  holds_index s p index zero = true
  holds_index s p index (suc n) =
      let b = A.get_byte s (p + n) in holds_index s p index n && (ltb b 128 && b == index % 256)

  -- The allocator, the range list and the arrays of the trace.
  pub record Driver : Type 0 where
    pub state : A.State
    pub ranges : List Range
    pub blocks : ℕ → ℕ
    pub block_sizes : ℕ → ℕ

  -- The new block `p` is checked, filled and remembered.
  unfoldable pub remember : Driver → A.State → Added → ℕ → ℕ → ℕ → Verdict ⊎ Driver
  remember d s (added ranges) p index size = inr (record {
    state = A.memset s p (index % 256) size;
    ranges = ranges;
    blocks = set_at d.blocks index p;
    block_sizes = set_at d.block_sizes index size;
  })
  remember d s refused p index size = inl range_refused
  remember d s assertion p index size = inl aborted

  -- As `remember`, with the contents compared first.
  unfoldable pub compare_and_remember : Driver → A.State → Added → ℕ → ℕ → ℕ → Verdict ⊎ Driver
  unfolding holds_index remember
  compare_and_remember d s (added ranges) p index size =
      let oldsize = d.block_sizes index in
      if holds_index s p index (if ltb size oldsize then size else oldsize)
      then remember d s (added ranges) p index size
      else inl data_lost
  compare_and_remember d s refused p index size = inl range_refused
  compare_and_remember d s assertion p index size = inl aborted

  -- One round of the loop of `eval_mm_valid`.
  unfoldable pub eval_op : Driver → TraceOp → Verdict ⊎ Driver
  unfolding add_range remember compare_and_remember remove_range
  eval_op d op = elim op.type as (λ x. Verdict ⊎ Driver) [
    | alloc ↦
        let (p, s) = A.mm_malloc d.state op.size in
        if p == 0
        then inl malloc_failed
        else remember d s (add_range s d.ranges p op.size) p op.index op.size
    | realloc ↦
        let oldp = d.blocks op.index in
        let (newp, s) = A.mm_realloc d.state oldp op.size in
        if newp == 0
        then inl realloc_failed
        else compare_and_remember d s (add_range s (remove_range d.ranges oldp) newp op.size) newp
            op.index op.size
    | release ↦
        let p = d.blocks op.index in
        inr (record d { state = A.mm_free d.state p; ranges = remove_range d.ranges p })
  ]

  -- A verdict ends the loop.
  abbrev pub carry_on : (Driver → Verdict) → Verdict ⊎ Driver → Verdict
  carry_on more (inl v) = v
  carry_on more (inr d) = more d

  unfoldable pub eval_ops : List TraceOp → Driver → Verdict
  unfolding eval_op
  eval_ops [] d = valid
  eval_ops (op ∷ ops) d = carry_on (eval_ops ops) (eval_op d op)

  -- `blocks` and `block_sizes` are what the arrays hold before.
  unfoldable pub eval_mm_valid : A.State → List TraceOp → (ℕ → ℕ) → (ℕ → ℕ) → Verdict
  unfolding eval_ops
  eval_mm_valid s ops blocks block_sizes =
      let (ok, s') = A.mm_init (A.mem_reset_brk s) in
      if ok
      then eval_ops ops
          (record { state = s'; ranges = []; blocks = blocks; block_sizes = block_sizes })
      else init_failed
