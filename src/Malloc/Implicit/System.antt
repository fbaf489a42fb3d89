-- ===== src/Malloc/Implicit/System.antt =====
-- The operations of malloclab-handout/mm_blk.c do not move the memory system.
use cmu_ics.Prelude.{
  ℕ, ◌+◌, ◌-◌, ◌*◌, ◌/◌, ◌%◌, ◌≡◌, refl, ◌∙◌, inl, inr, Option, none, some, Bool, true, false, not,
  ◌||◌, ltb, leb, ◌==◌, if◌then◌else◌, Bool-cases,
}
use cmu_ics.Word.{word, half, add}
use cmu_ics.Malloc.Memory.{Heap, mem_sbrk, memcpy, store}
use cmu_ics.Malloc.Tags.{align, pack, unpack_size}
use cmu_ics.Malloc.Implicit.{
  tag_room, tag_prologue, first_fit, min_int, extend_heap, place, mm_malloc, mm_free, move,
  mm_realloc, mm_init, chunksize, max_int,
}

-- The memory system itself stays as it is.
abbrev pub SameSystem : Heap → Heap → Type 0
SameSystem h h' = (h'.mem_start_brk ≡ h.mem_start_brk) × (h'.mem_max_addr ≡ h.mem_max_addr)

pub mem_sbrk-SameSystem : (h : Heap) (n : ℕ) → SameSystem h (mem_sbrk h n).1
unfolding mem_sbrk
mem_sbrk-SameSystem h n = elim (Bool-cases (leb half n || ltb h.mem_max_addr (add h.mem_brk n))) [
  | inl full ↦ rw full (refl, refl)
  | inr room ↦ rw room (refl, refl)
]

pub tag_room-SameSystem : (size : ℕ) (r : Option ℕ × Heap) → SameSystem r.1 (tag_room size r).1
unfolding tag_room
tag_room-SameSystem size (none, h) = (refl, refl)
tag_room-SameSystem size (some p, h) = (refl, refl)

pub extend_heap-SameSystem : (h : Heap) (words : ℕ) → SameSystem h (extend_heap h words).1
unfolding extend_heap
extend_heap-SameSystem h words =
    let size = if words % 2 == 0 then words * 4 % word else (words + 1) * 4 % word in
    let (e, e') = mem_sbrk-SameSystem h size in
    let (f, f') = tag_room-SameSystem size (mem_sbrk h size) in (f ∙ e, f' ∙ e')

pub mm_free-SameSystem : (h : Heap) (p : ℕ) → SameSystem h (mm_free h p)
unfolding mm_free
mm_free-SameSystem h p = elim (Bool-cases (p == 0)) [
  | inl null ↦ rw null (refl, refl)
  | inr other ↦ rw other (refl, refl)
]

-- What holds of the heap after either of two results holds after the chosen one.
pub either_after :
    (P : Heap → Type 0) (b : Bool) (x y : ℕ × Heap) → P x.1 → P y.1 → P (if b then x else y).1
either_after P true x y p q = p
either_after P false x y p q = q

pub mm_malloc-SameSystem : (h : Heap) (start size : ℕ) → SameSystem h (mm_malloc h start size).1
unfolding mm_malloc
mm_malloc-SameSystem h start size =
    let req = align (add size 8) in
    let bp = first_fit h start req in
    let (bp', h') = extend_heap h (max_int req chunksize / 4) in
    let same = extend_heap-SameSystem h (max_int req chunksize / 4) in
    let taken : ℕ × Heap = (bp, record h { mem = place h.mem bp req }) in
    let grown : ℕ × Heap = (bp', record h' { mem = place h'.mem bp' req }) in
    let at_end : ℕ × Heap = if not (bp' == 0) then grown else (0, h') in
    either_after (SameSystem h) (size == 0) (0, h) (if not (bp == 0) then taken else at_end)
      (refl, refl)
      (either_after (SameSystem h) (not (bp == 0)) taken at_end (refl, refl)
        (either_after (SameSystem h) (not (bp' == 0)) grown (0, h') same same))

pub move-SameSystem : (r : ℕ × Heap) (p size : ℕ) → SameSystem r.1 (move r p size).1
unfolding move
move-SameSystem (q, h) p size =
    let copied = record h { mem = memcpy h.mem q p (min_int size (unpack_size h.mem (p - 4))) } in
    either_after (SameSystem h) (q == 0) (0, h) (q, mm_free copied p) (refl, refl)
      (mm_free-SameSystem copied p)

pub mm_realloc-SameSystem :
    (h : Heap) (start p size : ℕ) → SameSystem h (mm_realloc h start p size).1
unfolding mm_realloc
mm_realloc-SameSystem h start p size =
    let r = mm_malloc h start size in
    let (e, e') = mm_malloc-SameSystem h start size in
    let (f, f') = move-SameSystem r p size in
    either_after (SameSystem h) (p == 0) r (if size == 0 then (0, mm_free h p) else move r p size)
      (e, e')
      (either_after (SameSystem h) (size == 0) (0, mm_free h p) (move r p size)
        (mm_free-SameSystem h p) (f ∙ e, f' ∙ e'))

pub tag_prologue-SameSystem : (r : Option ℕ × Heap) → SameSystem r.1 (tag_prologue r).1
unfolding tag_prologue
tag_prologue-SameSystem (none, h) = (refl, refl)
tag_prologue-SameSystem (some p, h) =
    let m =
      store (p + 12) (pack 0 1)
        (store (p + 8) (pack 8 1) (store (p + 4) (pack 8 1) (store p 0 h.mem))) in
    extend_heap-SameSystem (record h { mem = m }) (chunksize / 4)

pub mm_init-SameSystem : (h : Heap) → SameSystem h (mm_init h).1
unfolding mm_init
mm_init-SameSystem h =
    let (e, e') = mem_sbrk-SameSystem h 16 in
    let (f, f') = tag_prologue-SameSystem (mem_sbrk h 16) in (f ∙ e, f' ∙ e')
