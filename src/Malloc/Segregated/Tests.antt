-- ===== src/Malloc/Segregated/Tests.antt =====
-- Free lists for malloclab-handout/mm.c, and the theorems at them.
use native.Mathlib.Decide.{ℕ_discrete}
use mathlib.Core.Path.{subst}
use cmu_ics.Prelude.{
  All, ◌≤◌, ◌-◌, ℕ, ◌+◌, ◌*◌, ◌<◌, ◌≡◌, ◌≢◌, refl, sym, List, [], ◌∷◌, ◌==◌, ==_false,
  if◌then◌else◌, arith,
}
use cmu_ics.Malloc.Memory.{Memory, Heap, words}
use cmu_ics.Malloc.Tags.{unpack_size}
use cmu_ics.Malloc.Links.{IsFreeList}
use cmu_ics.Malloc.Segregated.{get_list_idx, find_fit, classnum}
use cmu_ics.Malloc.Links.{Absent}
use cmu_ics.Malloc.Segregated.{remove_free_blk}
use cmu_ics.Malloc.Segregated.Spaced.{IsSpaced, with_list, at_list}
use cmu_ics.Malloc.Segregated.Lists.{remove_free_blk-IsClasses}
use cmu_ics.Malloc.Segregated.{insert_free_blk}
use cmu_ics.Malloc.Segregated.Insert.{IsNew, insert_free_blk-IsClasses}
use cmu_ics.Malloc.Segregated.Class.{IsClasses, InClass, Search, find_fit-Search}

-- The heads from 0 on, and one free block of 32 bytes at 96.
abbrev memory : Memory
memory = words ((4, 96) ∷ (92, 32) ∷ [])

abbrev heap : Heap
heap = record { mem_start_brk = 0; mem_brk = 128; mem_max_addr = 128; mem = memory }

abbrev lists : ℕ → List ℕ
lists i = if i == 1 then 96 ∷ [] else []

no_head : (i : ℕ) → i < classnum → i ≢ 1 → memory (0 + i * 4) ≡ 0
no_head i below other = ground (arith, below, other)

lists-IsClasses : IsClasses 0 memory lists 128
unfolding get_list_idx unpack_size
lists-IsClasses = record {
  linked = λ i below. elim (ℕ_discrete i 1) [
    | yes one ↦
        subst (λ j. IsFreeList memory (memory (0 + j * 4)) (lists j)) (sym one)
          (record {
            starts = refl;
            chain = (omega arith, refl, refl, refl, tt);
            distinct = (tt, tt);
          })
    | no other ↦
        rw (no_head i below other, ==_false i 1 other)
          (record { starts = refl; chain = tt; distinct = tt })
  ];
  sorted = λ i below. elim (ℕ_discrete i 1) [
    | yes one ↦ subst (λ j. InClass memory j (lists j)) (sym one) (refl, tt)
    | no other ↦ rw (==_false i 1 other) tt
  ];
  short = λ i below. ground arith;
}

find_fit-Search_example : Search memory 24 lists 0 (find_fit heap 0 24)
find_fit-Search_example = find_fit-Search heap 0 24 lists lists-IsClasses

lists-IsSpaced : IsSpaced 0 lists
lists-IsSpaced = record {
  aligned = refl;
  above = λ i below.
      at_list (λ k ps. All (λ p. 96 ≤ p) ps) none 1 (96 ∷ []) i (omega arith, tt) (λ ne. tt);
  apart = λ i j below below' ne.
      at_list (λ k ps. k ≢ j → All (λ p. Absent p (lists j)) ps) none 1 (96 ∷ []) i
        (λ other. (rw (==_false j 1 (λ e. other (sym e))) tt, tt)) (λ ne' other. tt) ne;
  roomy = λ i j below below'.
      at_list (λ k ps. All (λ p. Absent (p + 8) (lists j)) ps) none 1 (96 ∷ []) i
        (at_list (λ k ps. Absent 104 ps) none 1 (96 ∷ []) j (omega arith, tt) (λ ne. tt), tt)
        (λ ne. tt);
}
  where
    none : ℕ → List ℕ
    none k = []

remove_free_blk-IsClasses_example :
    IsClasses 0 (remove_free_blk 0 memory 96) (with_list lists 1 []) 128
    × IsSpaced 0 (with_list lists 1 [])
remove_free_blk-IsClasses_example =
    remove_free_blk-IsClasses 0 memory lists 128 1 96 [] [] lists-IsClasses lists-IsSpaced
      (omega arith) refl

-- A block at 192, whose header is 0.
block-IsNew : IsNew 0 lists 192
block-IsNew = record {
  even = refl;
  far = omega arith;
  fresh = λ j below.
      at_list (λ k ps. Absent 192 ps) (λ k. []) 1 (96 ∷ []) j (omega arith, tt) (λ ne. tt);
  behind = λ j below.
      at_list (λ k ps. Absent 200 ps) (λ k. []) 1 (96 ∷ []) j (omega arith, tt) (λ ne. tt);
  before = λ j below.
      at_list (λ k ps. All (λ p. p + 8 ≢ 192) ps) (λ k. []) 1 (96 ∷ []) j (omega arith, tt)
        (λ ne. tt);
}

insert_free_blk-IsClasses_example :
    let i = get_list_idx (unpack_size memory (192 - 4)) in
    let lists' = with_list lists i (192 ∷ lists i) in
    IsClasses 0 (insert_free_blk 0 memory 192) lists' 128 × IsSpaced 0 lists'
insert_free_blk-IsClasses_example =
    insert_free_blk-IsClasses 0 memory lists 128 192 lists-IsClasses lists-IsSpaced block-IsNew
      (λ j below. ground arith)
