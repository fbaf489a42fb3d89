-- ===== src/Malloc/Implicit/Allocate.antt =====
-- `mm_malloc` of malloclab-handout/mm_blk.c.
use mathlib.Core.Path.{subst}
use cmu_ics.Prelude.{
  ℕ, ◌+◌, ◌*◌, ◌/◌, ◌%◌, ◌≤◌, ◌<◌, ◌≡◌, ◌≢◌, refl, sym, ap, ◌∙◌, ◌⊎◌, inl, inr, List, [], ◌∷◌, ◌++◌,
  false, not, ◌==◌, ==_false, if◌then◌else◌, arith,
}
use cmu_ics.Word.{word, half, add}
use cmu_ics.Malloc.Memory.{Heap}
use cmu_ics.Malloc.Tags.{align, align_lem}
use cmu_ics.Malloc.Tiles.{Block, block, total}
use cmu_ics.Malloc.Extents.{Extents, extents, Kept, Kept-trans, Apart, extents-Apart}
use cmu_ics.Malloc.Implicit.{extend_heap, first_fit, place, mm_malloc, max_int, chunksize}
use cmu_ics.Malloc.Implicit.Merge.{Guarded}
use cmu_ics.Malloc.Implicit.Free.{IsHeap, Leaves, extents-free}
use cmu_ics.Malloc.Implicit.Place.{place-Placed}
use cmu_ics.Malloc.Implicit.Fit.{First, NoFit, first_fit-First}
use cmu_ics.Malloc.Implicit.Extend.{Extended, extend_heap-Extended}

-- A free first block would be no prologue.
block-Guarded :
    (front : List Block) (k : ℕ) (back : List Block)
    → Guarded (front ++ (block k 0 ∷ back))
    → Guarded front
block-Guarded [] k back (rest, e) =
    let wrong : block k 0 ≡ block 8 1 = ground arith in
    let bit : 0 ≡ 1 = ap (λ b. b.alloc) wrong in absurd (omega (arith, bit))
block-Guarded (c ∷ front) k back (rest, e) = (front, ap (λ t. t ∷ front) (ground arith))

-- A new block of at least `req` bytes at `p`, and all others as they were.
pub record Given (h h' : Heap) (start : ℕ) (es : Extents) (req p : ℕ) : Type 0 where
  pub front : Extents
  pub size : ℕ
  pub back : Extents
  pub others : es ≡ front ++ back
  pub leaves : Leaves h h' start (front ++ ((p, size) ∷ back)) es
  pub roomy : req ≤ size
  pub no_null : p ≢ 0

place-Given :
    (h : Heap) (start : ℕ) (front : List Block) (k : ℕ) (back : List Block) (p req : ℕ)
    → IsHeap h start (front ++ (block k 0 ∷ back))
    → p ≡ start + total front
    → req ≤ k
    → 16 ≤ req
    → req % 8 ≡ 0
    → Given h
        (record h { mem = place h.mem p req })
        start
        (extents start (front ++ (block k 0 ∷ back)))
        req
        p
place-Given h start front k back p req v at fits big even =
    let ok = v.holds in
    let r =
      place-Placed h.mem start front k back h.mem_brk p req ok
        (block-Guarded front k back ok.guarded) at fits big even in
    let all = extents-free start front k back p at in
    record {
      front = extents start front;
      size = r.size;
      back = extents (p + k) back;
      others = all;
      leaves = (
        r.blocks,
        record { holds = r.holds; bounded = v.bounded; small = v.small },
        r.taken,
        subst (Kept h.mem (place h.mem p req)) (sym all) r.kept,
      );
      roomy = r.roomy;
      no_null = omega (arith, at, ok.low);
    }

-- What came before the block was taken.
Given-after :
    (h h' h'' : Heap) (start : ℕ) (es es' : Extents) (req p : ℕ)
    → es' ≡ es
    → Kept h.mem h'.mem es
    → Given h' h'' start es' req p
    → Given h h'' start es req p
Given-after h h' h'' start es es' req p e kept g =
    let (bs, ordered, seen, kept') = g.leaves in
    record {
      front = g.front;
      size = g.size;
      back = g.back;
      others = sym e ∙ g.others;
      leaves = (
        bs,
        ordered,
        seen,
        Kept-trans h.mem h'.mem h''.mem es kept (subst (Kept h'.mem h''.mem) e kept'),
      );
      roomy = g.roomy;
      no_null = g.no_null;
    }

-- No block that is free is large enough, and neither is what the memory system has left.
abbrev pub Exhausted : Heap → List Block → ℕ → Type 0
Exhausted h bs req = NoFit req bs × (h.mem_max_addr < h.mem_brk + max_int req chunksize)

module _ (h : Heap) (start : ℕ) (bs : List Block) (size : ℕ) (v : IsHeap h start bs)
    (some_bytes : 0 < size) (bounded : size + 15 < half)
    (unwrapped : h.mem_brk + max_int ((size + 15) / 8 * 8) chunksize < word) where
  abbrev req : ℕ
  req = (size + 15) / 8 * 8

  abbrev extend : ℕ × Heap
  extend = extend_heap h (max_int req chunksize / 4)

  mm_malloc-cases : mm_malloc h start size ≡ (
      if not (first_fit h start req == 0)
      then (first_fit h start req, record h { mem = place h.mem (first_fit h start req) req })
      else if not (extend.0 == 0)
      then (extend.0, record extend.1 { mem = place extend.1.mem extend.0 req })
      else (0, extend.1))
  unfolding mm_malloc
  mm_malloc-cases =
      let aligned : align (add size 8) ≡ req = align_lem (add size 8) (omega arith) ∙ omega arith in
      rw (aligned, ==_false size 0 (omega arith)) refl

  words-max : (max_int req chunksize / 4 + 1) / 2 * 8 ≡ max_int req chunksize
  words-max = ground arith

  fitted :
      First start bs req (first_fit h start req)
      → Given h (mm_malloc h start size).1 start (extents start bs) req (mm_malloc h start size).0
  fitted f =
      let bp = first_fit h start req in
      let found : (bp == 0) ≡ false = ==_false bp 0 (omega (arith, f.at, v.holds.low)) in
      let result : mm_malloc h start size ≡ (bp, record h { mem = place h.mem bp req }) =
        mm_malloc-cases ∙ rw found refl in
      let g =
        place-Given h start f.front f.size f.back bp req (subst (IsHeap h start) f.parts v) f.at
          f.roomy (omega arith) (omega arith) in
      subst (λ r. Given h r.1 start (extents start bs) req r.0) (sym result)
        (subst (λ t. Given h (record h { mem = place h.mem bp req }) start (extents start t) req bp)
          (sym f.parts) g)

  module _ (missed : first_fit h start req ≡ 0) where
    exhausted : extend ≡ (0, h) → mm_malloc h start size ≡ (0, h)
    exhausted e = mm_malloc-cases ∙ rw (missed, e) refl

    extended :
        Extended h start bs (max_int req chunksize) extend
        → Given h (mm_malloc h start size).1 start (extents start bs) req (mm_malloc h start size).0
    extended x =
        let (bp, h') = extend in
        let found : (bp == 0) ≡ false = ==_false bp 0 (omega (arith, x.at, x.ordered.holds.low)) in
        let result : mm_malloc h start size ≡ (bp, record h' { mem = place h'.mem bp req }) =
          mm_malloc-cases ∙ rw (missed, found) refl in
        let roomy : req ≤ x.room = ground (arith, x.roomy) in
        let g =
          place-Given h' start x.front x.room x.back bp req x.ordered x.at roomy (omega arith)
            (omega arith) in
        subst (λ r. Given h r.1 start (extents start bs) req r.0) (sym result)
          (Given-after h h' (record h' { mem = place h'.mem bp req }) start (extents start bs)
            (extents start (x.front ++ (block x.room 0 ∷ x.back))) req bp x.unchanged x.kept g)

  -- `mm_malloc` in a heap in order, for 1 up to 2 ^ 31 - 16 bytes, when the break could be
  -- moved by `(size + 15) / 8 * 8`, or by 4096 if that is more, within the 32-bit addresses. It returns NULL and changes nothing when
  -- no free block is large enough and the memory system has not the room left, or it returns a new block
  -- of at least `(size + 15) / 8 * 8` bytes. The heap stays in order, and all blocks that were
  -- in use stay where they are, with the contents of their payloads.
  pub mm_malloc-Given :
      ((mm_malloc h start size ≡ (0, h)) × Exhausted h bs ((size + 15) / 8 * 8))
      ⊎ Given h
          (mm_malloc h start size).1
          start
          (extents start bs)
          ((size + 15) / 8 * 8)
          (mm_malloc h start size).0
  mm_malloc-Given = elim (first_fit-First h start bs req v (omega arith)) [
    | inl f ↦ inr (fitted f)
    | inr (missed, none_fits) ↦
        elim (extend_heap-Extended h start bs (max_int req chunksize / 4) v (ground arith)
          (ground arith) (omega (arith, unwrapped, words-max))) [
            | inl (full, e) ↦ inl (exhausted missed e, (none_fits, omega (arith, full, words-max)))
            | inr x ↦ inr (extended missed (subst (λ s. Extended h start bs s extend) words-max x))
          ]
  ]

  -- A block that `mm_malloc` has returned, its tags included, is aligned and within the heap, and overlaps
  -- no other block in use; its payload has the size that was asked for.
  pub mm_malloc-Apart :
      (mm_malloc h start size).0 ≢ 0
      → let (bp, h') = mm_malloc h start size in
        (xs : Extents) × (n : ℕ) × (ys : Extents) × (extents start bs ≡ xs ++ ys)
        × (size + 8 ≤ n)
        × Apart start (xs ++ ((bp, n) ∷ ys)) h'.mem_brk
  mm_malloc-Apart found = elim mm_malloc-Given [
    | inl (e, why) ↦ absurd (found (ap (λ r. r.0) e))
    | inr g ↦
        let (blocks, ordered, seen, kept) = g.leaves in
        let (bp, h') = mm_malloc h start size in
        (
          g.front,
          g.size,
          g.back,
          g.others,
          omega (arith, g.roomy),
          subst (λ es. Apart start es h'.mem_brk) seen
              (extents-Apart h'.mem start blocks h'.mem_brk start ordered.holds.tiles
                ordered.holds.aligned (omega arith)),
        )
  ]
