-- ===== src/Malloc/BestFit/Tests.antt =====
-- A free list for malloclab-handout/mm_right.c, and the theorems at it.
use cmu_ics.Prelude.{ℕ, ◌≤◌, ◌<◌, ◌≡◌, refl, ◌⊎◌, none, some, [], ◌∷◌, arith}
use cmu_ics.Word.{half}
use cmu_ics.Malloc.Memory.{Memory, words}
use cmu_ics.Malloc.Segregated.{classnum}
use cmu_ics.Malloc.BestFit.{index_loop, best_loop}
use cmu_ics.Malloc.BestFit.Class.{index_loop_iff, AtLeast, Best, best_loop-Best}

-- Blocks of 64 and 32 bytes at 16 and 96.
abbrev memory : Memory
memory = words ((12, 64) ∷ (20, 96) ∷ (92, 32) ∷ (96, 16) ∷ [])

index_loop_iff_example :
    (24 ≤ half → (r : ℕ) × (index_loop 30 24 2 4 ≡ some r) × (r < classnum))
    × (half < 24 → (fuel : ℕ) → index_loop fuel 24 2 4 ≡ none)
index_loop_iff_example = index_loop_iff 24

best_loop-Best_example :
    ((best_loop 3 memory 24 4294967295 0 16 ≡ 0) × AtLeast memory 24 4294967295 (16 ∷ 96 ∷ []))
    ⊎ Best memory 24 4294967295 (16 ∷ 96 ∷ []) (best_loop 3 memory 24 4294967295 0 16)
best_loop-Best_example =
    best_loop-Best 3 memory 0 24 4294967295 0 (16 ∷ 96 ∷ [])
      (omega arith, refl, refl, refl, (omega arith, refl, refl, refl, tt)) (omega arith)
