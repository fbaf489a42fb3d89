-- ===== src/Malloc/Explicit/Tests.antt =====
-- A free list of three blocks for malloclab-handout/mm_list.c, and the theorems at it.
use cmu_ics.Prelude.{◌≡◌, refl, [], ◌∷◌, arith}
use cmu_ics.Malloc.Memory.{Memory, words}
use cmu_ics.Malloc.Links.{IsFreeList}
use cmu_ics.Malloc.Explicit.{remove_free_blk, fit_loop}
use cmu_ics.Malloc.Explicit.FreeList.{remove_free_blk-IsFreeList, first_large, fit_loop-first_large}

-- Blocks of 16, 32 and 24 bytes at 64, 16 and 128.
abbrev memory : Memory
memory = words ((12, 32) ∷ (16, 64) ∷ (20, 128) ∷ (60, 16) ∷ (68, 16) ∷ (124, 24) ∷ (128, 16) ∷ [])

three-IsFreeList : IsFreeList memory 64 (64 ∷ 16 ∷ 128 ∷ [])
three-IsFreeList = record {
  starts = refl;
  chain = (
    omega arith,
    refl,
    refl,
    refl,
    (omega arith, refl, refl, refl, (omega arith, refl, refl, refl, tt)),
  );
  distinct = ((omega arith, (omega arith, tt)), ((omega arith, tt), (tt, tt)));
}

remove_free_blk-IsFreeList_example :
    let (m, free_listp) = remove_free_blk (memory, 64) 16 in IsFreeList m free_listp (64 ∷ 128 ∷ [])
remove_free_blk-IsFreeList_example =
    remove_free_blk-IsFreeList memory 64 16 (64 ∷ []) (128 ∷ []) three-IsFreeList

fit_loop-first_large_example : fit_loop 4 memory 24 64 ≡ first_large memory 24 (64 ∷ 16 ∷ 128 ∷ [])
fit_loop-first_large_example =
    fit_loop-first_large 4 memory 0 24 (64 ∷ 16 ∷ 128 ∷ []) three-IsFreeList.chain (omega arith)
