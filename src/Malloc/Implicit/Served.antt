-- ===== src/Malloc/Implicit/Served.antt =====
-- `mm_malloc`, `mm_free` and `mm_realloc` of malloclab-handout/mm_blk.c for a client with payloads in use.
use mathlib.Core.Path.{subst}
use cmu_ics.Prelude.{
  ℕ, ◌+◌, ◌-◌, ◌*◌, ◌/◌, ◌≤◌, ◌<◌, ◌≡◌, ◌≢◌, refl, sym, ap, ◌∙◌, ◌⊎◌, inl, inr, [], ◌∷◌, ◌++◌, All,
  arith,
}
use cmu_ics.Word.{word, half}
use cmu_ics.Malloc.Memory.{Heap}
use cmu_ics.Malloc.Bytes.{get_byte}
use cmu_ics.Malloc.Extents.{Extents, extents}
use cmu_ics.Malloc.Driver.Laws.{Payloads, Preserves}
use cmu_ics.Malloc.Implicit.{mm_malloc, mm_free, mm_realloc}
use cmu_ics.Malloc.Implicit.Free.{mm_free-extents}
use cmu_ics.Malloc.Implicit.Allocate.{mm_malloc-Given, Exhausted}
use cmu_ics.Malloc.Implicit.Reallocate.{mm_realloc-Moved, Moved}
use cmu_ics.Malloc.Implicit.Owned.{Held, Owns, extents-prologue, around}
use cmu_ics.Malloc.Implicit.Break.{cost, mm_malloc-brk, mm_realloc-brk}
use cmu_ics.Malloc.Implicit.System.{mm_free-SameSystem, mm_malloc-SameSystem, mm_realloc-SameSystem}
use cmu_ics.Malloc.Implicit.Client.{
  implicit, Owns-new, Kept-Preserves, Held-others, All-pair, behind_prologue, prologue-In,
}

pub implicit-malloc :
    (h : Heap) (start : ℕ) (bs : Payloads) (size : ℕ)
    → Owns h start bs
    → 0 < size
    → size + 15 < half
    → h.mem_brk + cost size < word
    → let (p, h') = mm_malloc h start size in
      p ≢ 0 → Owns h' start ((p, size) ∷ bs) × Preserves implicit (h, start) (h', start) bs
implicit-malloc h start bs size o pos small unwrapped found =
    elim (mm_malloc-Given h start o.blocks size o.ordered pos small unwrapped) [
      | inl (e, why) ↦ absurd (found (ap (λ r. r.0) e))
      | inr g ↦
          let (blocks, v, seen, kept) = g.leaves in
          let (p, h') = mm_malloc h start size in
          let (e, e') = mm_malloc-SameSystem h start size in
          let es = extents start o.blocks in
          (
            Owns-new h' start blocks es g.front g.back p g.size size v seen g.others
                (prologue-In start o.blocks h o.ordered) pos (omega (arith, g.roomy)) bs o.held
                o.distinct (omega (arith, e, o.low)) (omega (arith, e, e', o.bounded)),
            Kept-Preserves h h' start o.blocks es bs o.ordered kept (
                All-pair (λ b. Held start es b.0 b.1) (λ b. Held start es b.0 b.1) bs o.held
                  o.held),
          )
    ]

-- What the memory system has left.
abbrev pub room : Heap → ℕ
room h = h.mem_max_addr - h.mem_brk

pub implicit-malloc_room :
    (h : Heap) (start : ℕ) (bs : Payloads) (size : ℕ)
    → Owns h start bs
    → 0 < size
    → size + 15 < half
    → h.mem_brk + cost size < word
    → let (p, h') = mm_malloc h start size in
      (p ≡ 0 → room h < cost size) × (room h ≤ room h' + cost size)
implicit-malloc_room h start bs size o pos small unwrapped =
    let (e, e') = mm_malloc-SameSystem h start size in
    let grown = mm_malloc-brk h start size pos small in
    (
      λ null. elim (mm_malloc-Given h start o.blocks size o.ordered pos small unwrapped) [
        | inl (none_left, why) ↦ omega (arith, why.1, o.ordered.bounded)
        | inr g ↦ absurd (g.no_null null)
      ],
      omega (arith, e', grown),
    )

-- The payload `p` stands behind the prologue, with the others around it.
record Standing (h : Heap) (start : ℕ) (bs : Payloads) (p n : ℕ) (o : Owns h start ((p, n) ∷ bs))
    : Type 0 where
  pub front : Extents
  pub back : Extents
  pub whole : extents start o.blocks ≡ ((start, 8) ∷ front) ++ ((p, o.held.0.room) ∷ back)
  pub left : All (λ b. Held start (((start, 8) ∷ front) ++ back) b.0 b.1) bs

owned-Standing :
    (h : Heap) (start : ℕ) (bs : Payloads) (p n : ℕ) (o : Owns h start ((p, n) ∷ bs))
    → Standing h start bs p n o
owned-Standing h start bs p n o =
    let (here, held) = o.held in
    let (xs, ys, parts) = here.extent in
    let (rest, first) = extents-prologue start o.blocks o.ordered.holds.guarded in
    let (xs', front) =
      behind_prologue start o.blocks rest xs p here.room ys first parts here.other in
    let whole : extents start o.blocks ≡ ((start, 8) ∷ xs') ++ ((p, here.room) ∷ ys) =
      parts ∙ ap (λ t. t ++ ((p, here.room) ∷ ys)) front in
    record {
      front = xs';
      back = ys;
      whole = whole;
      left =
          Held-others start (extents start o.blocks) ((start, 8) ∷ xs') p here.room ys bs whole
            o.distinct.0 held;
    }

pub implicit-free :
    (h : Heap) (start : ℕ) (bs : Payloads) (p n : ℕ)
    → Owns h start ((p, n) ∷ bs)
    → Owns (mm_free h p) start bs × Preserves implicit (h, start) (mm_free h p, start) bs
implicit-free h start bs p n o =
    let at = owned-Standing h start bs p n o in
    let (blocks, v, seen, kept) =
      mm_free-extents h start o.blocks (start, 8) at.front at.back p o.held.0.room o.ordered
        at.whole in
    let es = ((start, 8) ∷ at.front) ++ at.back in
    let (e, e') = mm_free-SameSystem h p in
    (
      record {
        blocks = blocks;
        ordered = v;
        held = subst (λ es. All (λ b. Held start es b.0 b.1) bs) (sym seen) at.left;
        distinct = o.distinct.1;
        low = omega (arith, e, o.low);
        bounded = omega (arith, e, e', o.bounded);
      },
      Kept-Preserves h (mm_free h p) start o.blocks es bs o.ordered kept (
          All-pair (λ b. Held start (extents start o.blocks) b.0 b.1) (λ b. Held start es b.0 b.1)
            bs o.held.1 at.left),
    )

module _ (h : Heap) (start : ℕ) (bs : Payloads) (p n size : ℕ) (o : Owns h start ((p, n) ∷ bs))
    (pos : 0 < size) (small : size + 15 < half) (unwrapped : h.mem_brk + cost size < word) where
  abbrev at : Standing h start bs p n o
  at = owned-Standing h start bs p n o

  abbrev left : Extents
  left = ((start, 8) ∷ at.front) ++ at.back

  abbrev moved : ℕ × Heap
  moved = mm_realloc h start p size

  payload-Moved :
      ((moved ≡ (0, h)) × Exhausted h o.blocks ((size + 15) / 8 * 8))
      ⊎ Moved h moved.1 start left size ((size + 15) / 8 * 8) p o.held.0.room moved.0
  payload-Moved =
      let (low, even, high, others) =
        around h start o.blocks ((start, 8) ∷ at.front) p o.held.0.room at.back o.ordered
          at.whole in
      mm_realloc-Moved h start o.blocks (start, 8) at.front at.back p o.held.0.room size o.ordered
        at.whole pos small unwrapped (omega (arith, high, o.ordered.bounded, low, o.low, o.bounded))

  pub implicit-realloc :
      moved.0 ≢ 0
      → Owns moved.1 start ((moved.0, size) ∷ bs)
        × Preserves implicit (h, start) (moved.1, start) bs
        × ((j : ℕ) → j < n → j < size → get_byte moved.1.mem (moved.0 + j) ≡ get_byte h.mem (p + j))
  implicit-realloc found = elim payload-Moved [
    | inl (failed, why) ↦ absurd (found (ap (λ r. r.0) failed))
    | inr g ↦
        let (blocks, v, seen, kept) = g.leaves in
        let (e, e') = mm_realloc-SameSystem h start p size in
        (
          Owns-new moved.1 start blocks left g.front g.back moved.0 g.room size v seen g.others
              ([], at.front ++ at.back, refl) pos (omega (arith, g.roomy)) bs at.left o.distinct.1
              (omega (arith, e, o.low)) (omega (arith, e, e', o.bounded)),
          Kept-Preserves h moved.1 start o.blocks left bs o.ordered kept (
              All-pair (λ b. Held start (extents start o.blocks) b.0 b.1)
                (λ b. Held start left b.0 b.1) bs o.held.1 at.left),
          λ j less less'. g.copied j less' (omega (arith, less, o.held.0.fits)),
        )
  ]

  pub implicit-realloc_room :
      (moved.0 ≡ 0 → room h < cost size) × (room h ≤ room moved.1 + cost size)
  implicit-realloc_room =
      let (e, e') = mm_realloc-SameSystem h start p size in
      let grown = mm_realloc-brk h start p size pos small in
      (
        λ null. elim payload-Moved [
          | inl (none_left, why) ↦ omega (arith, why.1, o.ordered.bounded)
          | inr g ↦
              let (blocks, v, seen, kept) = g.leaves in
              let (low, aligned, high, others) =
                around moved.1 start blocks g.front moved.0 g.room g.back v seen in
              absurd (omega (arith, null, low, v.holds.low))
        ],
        omega (arith, e', grown),
      )
