-- ===== src/Malloc/Implicit/Client.antt =====
-- malloclab-handout/mm_blk.c as the allocator of the driver, and what becomes of a client's payloads.
use mathlib.Core.Path.{subst}
use cmu_ics.Prelude.{
  ℕ, ◌+◌, ◌%◌, ◌≤◌, ◌<◌, ◌≡◌, ◌≢◌, sym, ap, ◌∙◌, ◌⊎◌, inl, inr, Option, none, some, List, [], ◌∷◌,
  ◌++◌, map, Bool, true, false, All, All-map, All-both, arith,
}
use cmu_ics.Word.{half}
use cmu_ics.Malloc.Memory.{Heap, mem_reset_brk, mem_heap_lo, mem_heap_hi}
use cmu_ics.Malloc.Bytes.{get_byte, memset}
use cmu_ics.Malloc.Tiles.{Block}
use cmu_ics.Malloc.Extents.{Extents, extents, Kept}
use cmu_ics.Malloc.Links.{Absent, Distinct}
use cmu_ics.Malloc.Driver.{Allocator}
use cmu_ics.Malloc.Driver.Laws.{Payloads, Clear, SameBytes, Preserves}
use cmu_ics.Malloc.Implicit.{mm_malloc, mm_free, mm_realloc, mm_init}
use cmu_ics.Malloc.Implicit.Free.{IsHeap}
use cmu_ics.Malloc.Implicit.Owned.{
  In, In-All, In-insert, In-drop, Held, Owns, extents-prologue, around, Kept-bytes,
}

-- The memory system and `heap_listp`.
abbrev pub State : Type 0
State = Heap × ℕ

abbrev pub set_up : ℕ → Option ℕ × Heap → Bool × State
set_up old (none, h) = (false, (h, old))
set_up old (some p, h) = (true, (h, p))

abbrev pub implicit : Allocator
implicit = record {
  State = State;
  mem_reset_brk = λ (h, start). (mem_reset_brk h, start);
  mem_heap_lo = λ (h, start). mem_heap_lo h;
  mem_heap_hi = λ (h, start). mem_heap_hi h;
  mm_init = λ (h, start). set_up start (mm_init h);
  mm_malloc = λ (h, start) size. let (p, h') = mm_malloc h start size in (p, (h', start));
  mm_realloc = λ (h, start) p size. let (q, h') = mm_realloc h start p size in (q, (h', start));
  mm_free = λ (h, start) p. (mm_free h p, start);
  get_byte = λ (h, start) a. get_byte h.mem a;
  memset = λ (h, start) p v n. (record h { mem = memset h.mem p v n }, start);
}

-- Where a payload of a client stands.
module _ (h : Heap) (start : ℕ) (blocks : List Block) (v : IsHeap h start blocks) where
  -- Two blocks in use.
  pub Held-Clear :
      (p n q m : ℕ)
      → Held start (extents start blocks) p n
      → Held start (extents start blocks) q m
      → q ≢ p
      → Clear p n (q, m)
  Held-Clear p n q m b c ne =
      let (xs, ys, parts) = b.extent in
      let (low, even, high, others) = around h start blocks xs p b.room ys v parts in
      let i = In-drop (q, c.room) (p, b.room) xs ys (subst (In (q, c.room)) parts c.extent) ne in
      (
        c.some_bytes,
        elim (In-All (λ e. (p + b.room ≤ e.0) ⊎ (e.0 + e.1 ≤ p)) (q, c.room) (xs ++ ys) i others) [
          | inl behind ↦ inl (omega (arith, behind, b.fits))
          | inr before ↦ inr (omega (arith, before, c.fits))
        ],
      )

  pub Held-even : (p n : ℕ) → Held start (extents start blocks) p n → p % 8 ≡ 0
  Held-even p n b =
      let (xs, ys, parts) = b.extent in (around h start blocks xs p b.room ys v parts).1

-- A new block among the others.
module _ (h : Heap) (start : ℕ) (blocks : List Block) (es front back : Extents) (q room size : ℕ)
    (v : IsHeap h start blocks) (seen : extents start blocks ≡ front ++ ((q, room) ∷ back))
    (others : es ≡ front ++ back) (prologue : In (start, 8) es) (pos : 0 < size)
    (fits : size + 8 ≤ room) where
  pub apart : All (λ e. (q + room ≤ e.0) ⊎ (e.0 + e.1 ≤ q)) es
  apart =
      subst (All (λ e. (q + room ≤ e.0) ⊎ (e.0 + e.1 ≤ q))) (sym others)
        (around h start blocks front q room back v seen).3

  pub new_block : q ≢ start
  new_block = λ e.
      elim (In-All (λ e. (q + room ≤ e.0) ⊎ (e.0 + e.1 ≤ q)) (start, 8) es prologue apart) [
        | inl behind ↦ omega (arith, behind, e)
        | inr before ↦ omega (arith, before, e)
      ]

  pub Held-more : (p n : ℕ) → Held start es p n → Held start (extents start blocks) p n
  Held-more p n b = record {
    room = b.room;
    extent =
        subst (In (p, b.room)) (sym seen)
          (In-insert (p, b.room) (q, room) front back (subst (In (p, b.room)) others b.extent));
    other = b.other;
    fits = b.fits;
    some_bytes = b.some_bytes;
  }

  pub Held-apart : (p n : ℕ) → Held start es p n → q ≢ p
  Held-apart p n b = λ e.
      elim (In-All (λ e. (q + room ≤ e.0) ⊎ (e.0 + e.1 ≤ q)) (p, b.room) es b.extent apart) [
        | inl behind ↦ omega (arith, behind, e)
        | inr before ↦ omega (arith, before, e, b.fits)
      ]

  pub Held-Absent :
      (bs : Payloads) → All (λ b. Held start es b.0 b.1) bs → Absent q (map (λ b. b.0) bs)
  Held-Absent [] held = tt
  Held-Absent (b ∷ bs) (here, held) = (Held-apart b.0 b.1 here, Held-Absent bs held)

  pub Owns-new :
      (bs : Payloads)
      → All (λ b. Held start es b.0 b.1) bs
      → Distinct (map (λ b. b.0) bs)
      → h.mem_start_brk ≤ start
      → h.mem_max_addr < h.mem_start_brk + half
      → Owns h start ((q, size) ∷ bs)
  Owns-new bs held distinct low bounded = record {
    blocks = blocks;
    ordered = v;
    held = (
      record {
        room = room;
        extent = (front, back, seen);
        other = new_block;
        fits = fits;
        some_bytes = pos;
      },
      All-map (λ b. Held start es b.0 b.1) (λ b. Held start (extents start blocks) b.0 b.1) bs
          (λ b. Held-more b.0 b.1) held,
    );
    distinct = (Held-Absent bs held, distinct);
    low = low;
    bounded = bounded;
  }

-- What is kept of the heap is preserved for the client.
pub Kept-Preserves :
    (h h' : Heap) (start : ℕ) (blocks : List Block) (es : Extents) (bs : Payloads)
    → IsHeap h start blocks
    → Kept h.mem h'.mem es
    → All (λ b. Held start (extents start blocks) b.0 b.1 × Held start es b.0 b.1) bs
    → Preserves implicit (h, start) (h', start) bs
Kept-Preserves h h' start blocks es bs v kept =
    All-map (λ b. Held start (extents start blocks) b.0 b.1 × Held start es b.0 b.1)
      (λ b. SameBytes implicit (h, start) (h', start) b.0 b.1) bs
      (λ b (before, c) j less.
        Kept-bytes h.mem h'.mem es b.0 c.room b.1 kept c.extent
          (Held-even h start blocks v b.0 b.1 before) c.fits j less)

-- The blocks of the others, when the one at `p` is gone.
pub Held-others :
    (start : ℕ) (es xs : Extents) (p k : ℕ) (ys : Extents) (bs : Payloads)
    → es ≡ xs ++ ((p, k) ∷ ys)
    → Absent p (map (λ b. b.0) bs)
    → All (λ b. Held start es b.0 b.1) bs
    → All (λ b. Held start (xs ++ ys) b.0 b.1) bs
Held-others start es xs p k ys [] parts out held = tt
Held-others start es xs p k ys (b ∷ bs) parts (ne, out) (here, held) = (
  record {
    room = here.room;
    extent =
        In-drop (b.0, here.room) (p, k) xs ys (subst (In (b.0, here.room)) parts here.extent)
          (λ e. ne (sym e));
    other = here.other;
    fits = here.fits;
    some_bytes = here.some_bytes;
  },
  Held-others start es xs p k ys bs parts out held,
)

pub All-pair :
    (P Q : ℕ × ℕ → Type 0) (bs : Payloads) → All P bs → All Q bs → All (λ b. P b × Q b) bs
All-pair P Q bs = All-both P Q (λ b. P b × Q b) bs (λ b p q. (p, q))

-- The prologue comes first, so what a client has is not the first extent.
pub behind_prologue :
    (start : ℕ) (blocks : List Block) (rest xs : Extents) (p k : ℕ) (ys : Extents)
    → extents start blocks ≡ (start, 8) ∷ rest
    → extents start blocks ≡ xs ++ ((p, k) ∷ ys)
    → p ≢ start
    → (xs' : Extents) × (xs ≡ (start, 8) ∷ xs')
behind_prologue start blocks rest [] p k ys e parts ne =
    let same : start ≡ p = ground (arith, sym e ∙ parts) in absurd (ne (sym same))
behind_prologue start blocks rest (x ∷ xs) p k ys e parts ne =
    let same : x ≡ (start, 8) = ground (arith, sym parts ∙ e) in (xs, ap (λ t. t ∷ xs) same)

pub prologue-In :
    (start : ℕ) (blocks : List Block) (h : Heap)
    → IsHeap h start blocks
    → In (start, 8) (extents start blocks)
prologue-In start blocks h v =
    let (rest, e) = extents-prologue start blocks v.holds.guarded in ([], rest, e)
