-- ===== src/Malloc/Implicit/Break.antt =====
-- How far the operations of malloclab-handout/mm_blk.c move the break.
use cmu_ics.Prelude.{
  ℕ, ◌+◌, ◌-◌, ◌*◌, ◌/◌, ◌≤◌, ◌<◌, ◌≡◌, refl, ◌∙◌, inl, inr, Option, none, some, not, ◌||◌, ltb,
  leb, ◌==◌, if◌then◌else◌, Bool-cases, arith,
}
use cmu_ics.Word.{half, add}
use cmu_ics.Malloc.Memory.{Heap, mem_sbrk, memcpy, store}
use cmu_ics.Malloc.Tags.{align, align_lem, pack, unpack_size}
use cmu_ics.Malloc.Implicit.{
  tag_room, tag_prologue, first_fit, min_int, extend_heap, place, mm_malloc, mm_free, move,
  mm_realloc, mm_init, chunksize, max_int,
}
use cmu_ics.Malloc.Implicit.Extend.{even_words}
use cmu_ics.Malloc.Implicit.System.{either_after}

-- What `mm_malloc` takes of the memory system for a payload at most.
abbrev pub cost : ℕ → ℕ
cost size = max_int ((size + 15) / 8 * 8) chunksize

mem_sbrk-brk : (h : Heap) (n : ℕ) → (mem_sbrk h n).1.mem_brk ≤ h.mem_brk + n
unfolding mem_sbrk
mem_sbrk-brk h n = elim (Bool-cases (leb half n || ltb h.mem_max_addr (add h.mem_brk n))) [
  | inl full ↦ rw full (omega arith)
  | inr room ↦ rw room (omega arith)
]

tag_room-brk : (size : ℕ) (r : Option ℕ × Heap) → (tag_room size r).1.mem_brk ≡ r.1.mem_brk
unfolding tag_room
tag_room-brk size (none, h) = refl
tag_room-brk size (some p, h) = refl

extend_heap-brk :
    (h : Heap) (words : ℕ)
    → (words + 1) / 2 * 8 < half
    → (extend_heap h words).1.mem_brk ≤ h.mem_brk + (words + 1) / 2 * 8
unfolding extend_heap
extend_heap-brk h words small =
    rw
      (
        even_words words small,
        tag_room-brk ((words + 1) / 2 * 8) (mem_sbrk h ((words + 1) / 2 * 8)),
      )
      (mem_sbrk-brk h ((words + 1) / 2 * 8))

pub mm_malloc-brk :
    (h : Heap) (start size : ℕ)
    → 0 < size
    → size + 15 < half
    → (mm_malloc h start size).1.mem_brk ≤ h.mem_brk + cost size
unfolding mm_malloc
mm_malloc-brk h start size pos small =
    let req = align (add size 8) in
    let aligned : req ≡ (size + 15) / 8 * 8 = align_lem (add size 8) (omega arith) ∙ omega arith in
    let words = max_int req chunksize / 4 in
    let bp = first_fit h start req in
    let (bp', h') = extend_heap h words in
    let even : (words + 1) / 2 * 8 ≡ cost size = rw aligned (ground arith) in
    let bound : h'.mem_brk ≤ h.mem_brk + cost size =
      omega (arith, extend_heap-brk h words (ground (arith, aligned)), even) in
    let taken : ℕ × Heap = (bp, record h { mem = place h.mem bp req }) in
    let grown : ℕ × Heap = (bp', record h' { mem = place h'.mem bp' req }) in
    let P : Heap → Type 0 = λ g. g.mem_brk ≤ h.mem_brk + cost size in
    either_after P (size == 0) (0, h)
      (if not (bp == 0) then taken else if not (bp' == 0) then grown else (0, h')) (omega arith)
      (either_after P (not (bp == 0)) taken (if not (bp' == 0) then grown else (0, h'))
        (omega arith) (either_after P (not (bp' == 0)) grown (0, h') bound bound))

pub mm_free-brk : (h : Heap) (p : ℕ) → (mm_free h p).mem_brk ≡ h.mem_brk
unfolding mm_free
mm_free-brk h p = elim (Bool-cases (p == 0)) [ inl null ↦ rw null refl | inr other ↦ rw other refl ]

move-brk : (r : ℕ × Heap) (p size : ℕ) → (move r p size).1.mem_brk ≡ r.1.mem_brk
unfolding move
move-brk (q, h) p size =
    let copied = record h { mem = memcpy h.mem q p (min_int size (unpack_size h.mem (p - 4))) } in
    either_after (λ g. g.mem_brk ≡ h.mem_brk) (q == 0) (0, h) (q, mm_free copied p) refl
      (mm_free-brk copied p)

pub mm_realloc-brk :
    (h : Heap) (start p size : ℕ)
    → 0 < size
    → size + 15 < half
    → (mm_realloc h start p size).1.mem_brk ≤ h.mem_brk + cost size
unfolding mm_realloc
mm_realloc-brk h start p size pos small =
    let r = mm_malloc h start size in
    let bound = mm_malloc-brk h start size pos small in
    let P : Heap → Type 0 = λ g. g.mem_brk ≤ h.mem_brk + cost size in
    either_after P (p == 0) r (if size == 0 then (0, mm_free h p) else move r p size) bound (
      either_after P (size == 0) (0, mm_free h p) (move r p size) (omega (arith, mm_free-brk h p))
        (omega (arith, move-brk r p size, bound)))

tag_prologue-brk : (r : Option ℕ × Heap) → (tag_prologue r).1.mem_brk ≤ r.1.mem_brk + chunksize
unfolding tag_prologue
tag_prologue-brk (none, h) = omega arith
tag_prologue-brk (some p, h) =
    let m =
      store (p + 12) (pack 0 1)
        (store (p + 8) (pack 8 1) (store (p + 4) (pack 8 1) (store p 0 h.mem))) in
    extend_heap-brk (record h { mem = m }) (chunksize / 4) (omega arith)

pub mm_init-brk : (h : Heap) → (mm_init h).1.mem_brk ≤ h.mem_brk + 16 + chunksize
unfolding mm_init
mm_init-brk h = omega (arith, tag_prologue-brk (mem_sbrk h 16), mem_sbrk-brk h 16)
