-- ===== src/Malloc/Implicit/Extend.antt =====
-- `extend_heap` of malloclab-handout/mm_blk.c.
use mathlib.Core.Path.{subst}
use mathlib.Core.List.{append-nil}
use cmu_ics.Prelude.{
  ℕ, ◌+◌, ◌-◌, ◌*◌, ◌/◌, ◌%◌, ◌≤◌, ◌<◌, ◌≡◌, refl, sym, ap, ◌∙◌, ◌⊎◌, inl, inr, none, some, List,
  [], ◌∷◌, ◌++◌, true, false, ◌||◌, ltb, leb, ◌==◌, if◌then◌else◌, Bool-cases, arith,
}
use cmu_ics.Word.{word, half, add}
use cmu_ics.Malloc.Memory.{Memory, Heap, store, mem_sbrk}
use cmu_ics.Malloc.Tags.{pack, set_tags}
use cmu_ics.Malloc.Tiles.{
  Block, block, IsTag, Tiled-total, Tiled-frame, total, retile, set_tags-same, set_tags-IsBlock,
  header-size,
}
use cmu_ics.Malloc.Extents.{extents, Kept, Kept-trans, Kept-Tiled}
use cmu_ics.Malloc.Implicit.{coalesce, tag_room, extend_heap}
use cmu_ics.Malloc.Implicit.Merge.{Holds, coalesce-Merged}
use cmu_ics.Malloc.Implicit.Free.{IsHeap, extents-free}

-- What `extend_heap` for `size` bytes returned: a free block at the end of the heap.
pub record Extended (h : Heap) (start : ℕ) (bs : List Block) (size : ℕ) (r : ℕ × Heap)
    : Type 0 where
  pub front : List Block
  pub room : ℕ
  pub back : List Block
  pub ordered : IsHeap r.1 start (front ++ (block room 0 ∷ back))
  pub at : r.0 ≡ start + total front
  pub roomy : size ≤ room
  pub unchanged : extents start (front ++ (block room 0 ∷ back)) ≡ extents start bs
  pub kept : Kept h.mem r.1.mem (extents start bs)

-- Whole double words.
pub even_words :
    (words : ℕ)
    → (words + 1) / 2 * 8 < half
    → (if words % 2 == 0 then words * 4 % word else (words + 1) * 4 % word) ≡ (words + 1) / 2 * 8
even_words words small = ground arith

-- A new free block at the break, and the end of the heap behind it.
grown :
    (h : Heap) (start : ℕ) (bs : List Block) (size : ℕ)
    → IsHeap h start bs
    → IsTag size 0
    → h.mem_brk + size ≤ h.mem_max_addr
    → Holds
        (store (h.mem_brk + size - 4) 1 (set_tags h.mem h.mem_brk size 0))
        start
        (bs ++ (block size 0 ∷ []))
        (h.mem_brk + size)
      × Kept h.mem
          (store (h.mem_brk + size - 4) 1 (set_tags h.mem h.mem_brk size 0))
          (extents start bs)
grown h start bs size v tag fits =
    let ok = v.holds in
    let low = ok.low in
    let max = v.small in
    let room = tag.roomy in
    let q = h.mem_brk in
    let from = Tiled-total h.mem start bs q ok.tiles in
    let m₁ = set_tags h.mem q size 0 in
    let m₂ = store (q + size - 4) 1 m₁ in
    let same = set_tags-same h.mem q size 0 (omega arith) tag in
    let past : (a : ℕ) → a < q + size - 4 → m₂ a ≡ m₁ a = λ a less. ground (arith, less) in
    let (rest, e) = ok.guarded in
    (
      record {
        tiles =
            Tiled-frame m₁ m₂ start (bs ++ (block size 0 ∷ [])) (q + size) low
              (retile h.mem q size 0 (omega arith) tag start bs [] (q + size) low ok.tiles refl)
              (λ a h h'. past a h');
        epilogue = ground arith;
        low = low;
        aligned = ok.aligned;
        guarded = (rest ++ (block size 0 ∷ []), ap (λ t. t ++ (block size 0 ∷ [])) e);
        fits = omega arith;
      },
      Kept-Tiled h.mem m₂ start bs q ok.tiles
          (λ a h h'. past a (omega arith) ∙ same a (omega arith) (omega arith)),
    )

-- What the memory system lets happen.
mem_sbrk-full :
    (h : Heap) (size : ℕ)
    → h.mem_max_addr < h.mem_brk + size
    → h.mem_brk + size < word
    → mem_sbrk h size ≡ (none, h)
unfolding mem_sbrk
mem_sbrk-full h size full unwrapped =
    let sum : add h.mem_brk size ≡ h.mem_brk + size = omega arith in
    let refused : (leb half size || ltb h.mem_max_addr (h.mem_brk + size)) ≡ true = ground arith in
    rw (sum, refused) refl

pub mem_sbrk-room :
    (h : Heap) (size : ℕ)
    → h.mem_brk + size ≤ h.mem_max_addr
    → size < half
    → h.mem_max_addr < word
    → mem_sbrk h size ≡ (some h.mem_brk, record h { mem_brk = h.mem_brk + size })
unfolding mem_sbrk
mem_sbrk-room h size fits small narrow =
    let sum : add h.mem_brk size ≡ h.mem_brk + size = omega arith in
    let granted : (leb half size || ltb h.mem_max_addr (h.mem_brk + size)) ≡ false = ground arith in
    rw (sum, granted) refl

tag_room-room :
    (h : Heap) (size : ℕ)
    → 8 ≤ h.mem_brk
    → IsTag size 0
    → let r =
        coalesce (store (h.mem_brk + size - 4) 1 (set_tags h.mem h.mem_brk size 0)) h.mem_brk in
      tag_room size (some h.mem_brk, record h { mem_brk = h.mem_brk + size })
      ≡ (r.0, record h { mem_brk = h.mem_brk + size; mem = r.1 })
unfolding tag_room pack
tag_room-room h size low tag =
    let m = set_tags h.mem h.mem_brk size 0 in
    let next =
      header-size m h.mem_brk (block size 0) (set_tags-IsBlock h.mem h.mem_brk size 0 low tag) in
    ap (λ t. extended (coalesce (store (h.mem_brk + t - 4) 1 m) h.mem_brk)) next
  where
    extended : ℕ × Memory → ℕ × Heap
    extended (bp, m) = (bp, record h { mem_brk = h.mem_brk + size; mem = m })

extend_heap-sbrk :
    (h : Heap) (words : ℕ)
    → (words + 1) / 2 * 8 < half
    → extend_heap h words ≡ tag_room ((words + 1) / 2 * 8) (mem_sbrk h ((words + 1) / 2 * 8))
unfolding extend_heap
extend_heap-sbrk h words small = ap (λ s. tag_room s (mem_sbrk h s)) (even_words words small)

-- In a heap in order, `extend_heap` for up to 2 GB that do not go past the last address returns 0 and changes nothing when the memory system
-- has not that much left, or else makes a free block of at least that size, keeps the heap in order, and
-- leaves the blocks in use and the contents of their payloads as they are.
pub extend_heap-Extended :
    (h : Heap) (start : ℕ) (bs : List Block) (words : ℕ)
    → IsHeap h start bs
    → 0 < words
    → (words + 1) / 2 * 8 < half
    → h.mem_brk + (words + 1) / 2 * 8 < word
    → ((h.mem_max_addr < h.mem_brk + (words + 1) / 2 * 8) × (extend_heap h words ≡ (0, h)))
      ⊎ Extended h start bs ((words + 1) / 2 * 8) (extend_heap h words)
unfolding tag_room extents
extend_heap-Extended h start bs words v pos small unwrapped =
    elim (Bool-cases (ltb h.mem_max_addr (h.mem_brk + (words + 1) / 2 * 8))) [
      | inl full ↦ inl (
        ground arith,
        extend_heap-sbrk h words small
            ∙ ap (tag_room ((words + 1) / 2 * 8))
                (mem_sbrk-full h ((words + 1) / 2 * 8) (ground arith) unwrapped),
      )
      | inr free ↦ inr (grow (ground arith))
    ]
  where
    size : ℕ
    size = (words + 1) / 2 * 8

    tag : IsTag size 0
    tag = record { roomy = omega arith; even = omega arith; bit = omega arith; small = omega arith }

    low : 8 ≤ h.mem_brk
    low = omega (arith, v.holds.low, Tiled-total h.mem start bs h.mem_brk v.holds.tiles)

    grow : h.mem_brk + size ≤ h.mem_max_addr → Extended h start bs size (extend_heap h words)
    grow fits =
        let (holds, kept) = grown h start bs size v tag fits in
        let m = store (h.mem_brk + size - 4) 1 (set_tags h.mem h.mem_brk size 0) in
        let g =
          coalesce-Merged m start bs size [] (h.mem_brk + size) h.mem_brk holds v.holds.guarded
            (Tiled-total h.mem start bs h.mem_brk v.holds.tiles) in
        let same : extents start (bs ++ (block size 0 ∷ [])) ≡ extents start bs =
          extents-free start bs size [] h.mem_brk
            (Tiled-total h.mem start bs h.mem_brk v.holds.tiles)
          ∙ append-nil (extents start bs) in
        let r = coalesce m h.mem_brk in
        subst (Extended h start bs size)
          (sym (
            extend_heap-sbrk h words small
            ∙ ap (tag_room size) (mem_sbrk-room h size fits small v.small)
            ∙ tag_room-room h size low tag))
          (record {
            front = g.front;
            room = g.size;
            back = g.back;
            ordered = record { holds = g.holds; bounded = fits; small = v.small };
            at = g.place;
            roomy = g.roomy;
            unchanged = g.unchanged ∙ same;
            kept = Kept-trans h.mem m r.1 (extents start bs) kept (subst (Kept m r.1) same g.kept);
          })
