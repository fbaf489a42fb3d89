-- ===== src/Malloc/Driver/Util.antt =====
-- `eval_mm_util` of malloclab-handout/mdriver.c: the most bytes in use at a time. `int` sums wrap around at 32 bits.
pub mod Peak
pub mod Runs
mod Tests
use mathlib.Core.Path.{subst}
use native.Mathlib.Decide.{ℕ_discrete}
use Prim.Native.Nat.{max}
use cmu_ics.Prelude.{ℕ, ◌+◌, ◌-◌, ◌%◌, Option, none, some, List, [], ◌∷◌, ltb, ◌==◌, if◌then◌else◌}
use cmu_ics.Word.{word, half, add}
use cmu_ics.Malloc.Links.{Absent}
use cmu_ics.Malloc.Driver.{Allocator, OpType, alloc, release, realloc, TraceOp, set_at}
use cmu_ics.Malloc.Driver.Legal.{Legal, LegalOp, InUse}

-- `x - y` of two `int`s, and the larger one.
abbrev pub sub : ℕ → ℕ → ℕ
sub x y = (x + word - y) % word

abbrev pub max_of : ℕ → ℕ → ℕ
max_of x y = if ltb (add y half) (add x half) then x else y

-- The numerator and the denominator of the result, or the end of the program by `app_error`.
pub data Utilization : Type 0 where
  app_error : Utilization
  ratio : ℕ → ℕ → Utilization

module _ (A : Allocator) (mem_heapsize : A.State → ℕ) where
  pub record Meter : Type 0 where
    pub state : A.State
    pub blocks : ℕ → ℕ
    pub block_sizes : ℕ → ℕ
    pub total_size : ℕ
    pub max_total_size : ℕ

  -- A new block `p` for an index, with `total_size` as it is then.
  unfoldable pub measured : Meter → ℕ → ℕ → ℕ → ℕ × A.State → Option Meter
  measured d index size total (p, s) =
      if p == 0
      then none
      else some (record {
        state = s;
        blocks = set_at d.blocks index p;
        block_sizes = set_at d.block_sizes index size;
        total_size = total;
        max_total_size = max_of total d.max_total_size;
      })

  -- One round of the loop.
  unfoldable pub util_op : Meter → OpType → ℕ → ℕ → Option Meter
  unfolding measured
  util_op d alloc index size =
      measured d index size (add d.total_size size) (A.mm_malloc d.state size)
  util_op d realloc index newsize =
      measured d index newsize (add d.total_size (sub newsize (d.block_sizes index)))
        (A.mm_realloc d.state (d.blocks index) newsize)
  util_op d release index size = some (record d {
    state = A.mm_free d.state (d.blocks index);
    total_size = sub d.total_size (d.block_sizes index);
  })

  -- A failure ends the loop.
  abbrev pub go_on : (Meter → Utilization) → Option Meter → Utilization
  go_on more none = app_error
  go_on more (some d) = more d

  unfoldable pub util_ops : List TraceOp → Meter → Utilization
  unfolding util_op
  util_ops [] d = ratio d.max_total_size (mem_heapsize d.state)
  util_ops (op ∷ ops) d = go_on (util_ops ops) (util_op d op.type op.index op.size)

  unfoldable pub eval_mm_util : A.State → List TraceOp → (ℕ → ℕ) → (ℕ → ℕ) → Utilization
  unfolding util_ops
  eval_mm_util s ops blocks block_sizes =
      let (ok, s') = A.mm_init (A.mem_reset_brk s) in
      if ok
      then util_ops ops (record {
        state = s';
        blocks = blocks;
        block_sizes = block_sizes;
        total_size = 0;
        max_total_size = 0;
      })
      else app_error
