-- ===== src/Malloc/Explicit/FreeList.antt =====
-- The free list of malloclab-handout/mm_list.c.
use native.Mathlib.Decide.{ℕ_discrete}
use mathlib.Core.Path.{subst}
use cmu_ics.Prelude.{
  ℕ, zero, suc, ◌+◌, ◌-◌, ◌%◌, ◌<◌, ◌≡◌, ◌≢◌, refl, sym, List, [], ◌∷◌, ◌++◌, leb, ◌==◌, ==_false,
  if◌then◌else◌, length, arith,
}
use cmu_ics.Malloc.Memory.{Memory}
use cmu_ics.Malloc.Tags.{unpack_size}
use cmu_ics.Malloc.Links.{
  Absent, Chain, first_of, IsFreeList, link, link-IsFreeList, push-IsFreeList,
}
use cmu_ics.Malloc.Explicit.{remove_free_blk, insert_free_blk, fit_loop}

-- The four cases of `remove_free_blk` are one.
remove_free_blk-link :
    (m : Memory) (head bp : ℕ)
    → remove_free_blk (m, head) bp
      ≡ (link m (m bp) (m (bp + 4)), if m bp == 0 then m (bp + 4) else head)
unfolding remove_free_blk
remove_free_blk-link m head bp = elim (ℕ_discrete (m bp) 0) [
  | yes no_pre ↦ elim (ℕ_discrete (m (bp + 4)) 0) [
    | yes no_next ↦ rw (no_pre, no_next) refl
    | no next ↦ rw (no_pre, ==_false (m (bp + 4)) 0 next) refl
  ]
  | no pre ↦ elim (ℕ_discrete (m (bp + 4)) 0) [
    | yes no_next ↦ rw (==_false (m bp) 0 pre, no_next) refl
    | no next ↦ rw (==_false (m bp) 0 pre, ==_false (m (bp + 4)) 0 next) refl
  ]
]

-- `remove_free_blk` of a block that is on the free list takes it out, and leaves a free list, linked both
-- ways, of the other blocks in their order.
pub remove_free_blk-IsFreeList :
    (m : Memory) (free_listp bp : ℕ) (xs ys : List ℕ)
    → IsFreeList m free_listp (xs ++ (bp ∷ ys))
    → let (m', free_listp') = remove_free_blk (m, free_listp) bp in
      IsFreeList m' free_listp' (xs ++ ys)
remove_free_blk-IsFreeList m free_listp bp xs ys v =
    subst (λ l. IsFreeList l.0 l.1 (xs ++ ys)) (sym (remove_free_blk-link m free_listp bp))
      (link-IsFreeList m free_listp bp xs ys v)

-- `insert_free_blk` of an aligned block that is not on the free list puts it in front.
pub insert_free_blk-IsFreeList :
    (m : Memory) (free_listp bp : ℕ) (ps : List ℕ)
    → IsFreeList m free_listp ps
    → bp ≢ 0
    → bp % 8 ≡ 0
    → Absent bp ps
    → let (m', free_listp') = insert_free_blk (m, free_listp) bp in
      IsFreeList m' free_listp' (bp ∷ ps)
unfolding insert_free_blk
insert_free_blk-IsFreeList m free_listp bp ps v pos even out =
    push-IsFreeList m free_listp bp ps v pos even out

-- The first of the blocks `ps` whose header shows `req` bytes or more.
abbrev pub first_large : Memory → ℕ → List ℕ → ℕ
first_large m req [] = 0
first_large m req (p ∷ ps) = if leb req (unpack_size m (p - 4)) then p else first_large m req ps

-- The loop of `first_fit` finds the first block of the free list that is large enough, or NULL, when it
-- has fuel for the whole list.
pub fit_loop-first_large :
    (fuel : ℕ) (m : Memory) (pre req : ℕ) (ps : List ℕ)
    → Chain m pre ps
    → length ps < fuel
    → fit_loop fuel m req (first_of ps) ≡ first_large m req ps
unfolding fit_loop
fit_loop-first_large zero m pre req ps c enough = absurd (omega arith)
fit_loop-first_large (suc fuel) m pre req [] c enough = refl
fit_loop-first_large (suc fuel) m pre req (p ∷ ps) (pos, even, back, next, c) enough =
    let rest = fit_loop-first_large fuel m p req ps c (omega arith) in
    rw (==_false p 0 pos, next, rest) refl
