-- ===== src/Malloc/Implicit/Tests.antt =====
-- A small heap for malloclab-handout/mm_blk.c, and the theorems at it.
use cmu_ics.Prelude.{◌≡◌, refl, ◌⊎◌, List, [], ◌∷◌, arith}
use cmu_ics.Malloc.Memory.{Heap}
use cmu_ics.Malloc.Tiles.{Block, block}
use cmu_ics.Malloc.Extents.{extents}
use cmu_ics.Malloc.Implicit.{mm_malloc, mm_free}
use cmu_ics.Malloc.Implicit.Free.{IsHeap, Leaves}
use cmu_ics.Malloc.Implicit.Free.{mm_free-extents}
use cmu_ics.Malloc.Implicit.Allocate.{Given, Exhausted, mm_malloc-Given}
use cmu_ics.Malloc.Implicit.{mm_realloc}
use cmu_ics.Malloc.Implicit.Reallocate.{Moved, mm_realloc-Moved}
use cmu_ics.Malloc.Memory.{words}

-- The prologue at 8, 16 bytes in use at 16, 32 bytes free at 32, and 16 bytes in use at 64.
abbrev pub blocks : List Block
blocks = block 8 1 ∷ block 16 1 ∷ block 32 0 ∷ block 16 1 ∷ []

abbrev pub heap : Heap
heap = record {
  mem_start_brk = 0;
  mem_brk = 80;
  mem_max_addr = 10000;
  mem = words (
      (4, 9)
      ∷ (8, 9)
      ∷ (12, 17)
      ∷ (24, 17)
      ∷ (28, 32)
      ∷ (56, 32)
      ∷ (60, 17)
      ∷ (72, 17)
      ∷ (76, 1)
      ∷ []);
}

pub heap-IsHeap : IsHeap heap 8 blocks
heap-IsHeap = record {
  holds = record {
    tiles = (
      record {
        header = refl;
        footer = refl;
        roomy = omega arith;
        even = refl;
        bit = omega arith;
        small = omega arith;
      },
      (
        record {
          header = refl;
          footer = refl;
          roomy = omega arith;
          even = refl;
          bit = omega arith;
          small = omega arith;
        },
        (
          record {
            header = refl;
            footer = refl;
            roomy = omega arith;
            even = refl;
            bit = omega arith;
            small = omega arith;
          },
          (
            record {
              header = refl;
              footer = refl;
              roomy = omega arith;
              even = refl;
              bit = omega arith;
              small = omega arith;
            },
            refl,
          ),
        ),
      ),
    );
    epilogue = refl;
    low = omega arith;
    aligned = refl;
    guarded = (block 16 1 ∷ block 32 0 ∷ block 16 1 ∷ [], refl);
    fits = omega arith;
  };
  bounded = omega arith;
  small = omega arith;
}

pub heap-extents : extents 8 blocks ≡ (8, 8) ∷ (16, 16) ∷ (64, 16) ∷ []
unfolding extents
heap-extents = refl

mm_free-extents_example :
    Leaves heap (mm_free heap 16) 8 ((8, 8) ∷ (64, 16) ∷ []) ((8, 8) ∷ (64, 16) ∷ [])
mm_free-extents_example =
    mm_free-extents heap 8 blocks (8, 8) [] ((64, 16) ∷ []) 16 16 heap-IsHeap heap-extents

mm_malloc-Given_example :
    ((mm_malloc heap 8 5 ≡ (0, heap)) × Exhausted heap blocks 16)
    ⊎ Given heap (mm_malloc heap 8 5).1 8 (extents 8 blocks) 16 (mm_malloc heap 8 5).0
mm_malloc-Given_example =
    mm_malloc-Given heap 8 blocks 5 heap-IsHeap (omega arith) (omega arith) (omega arith)

-- The free block is split, and the first 16 bytes are returned.
malloc_five : (mm_malloc heap 8 5).0 ≡ 32
unfolding mm_malloc
malloc_five = refl

-- A request that is too large for the free block is met by an extension of the heap.
malloc_hundred : (mm_malloc heap 8 100).0 ≡ 80
unfolding mm_malloc
malloc_hundred = refl

mm_realloc-Moved_example :
    ((mm_realloc heap 8 16 20 ≡ (0, heap)) × Exhausted heap blocks 32)
    ⊎ Moved heap
        (mm_realloc heap 8 16 20).1
        8
        ((8, 8) ∷ (64, 16) ∷ [])
        20
        32
        16
        16
        (mm_realloc heap 8 16 20).0
mm_realloc-Moved_example =
    mm_realloc-Moved heap 8 blocks (8, 8) [] ((64, 16) ∷ []) 16 16 20 heap-IsHeap heap-extents
      (omega arith) (omega arith) (omega arith) (omega arith)
