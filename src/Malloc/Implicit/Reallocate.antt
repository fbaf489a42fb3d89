-- ===== src/Malloc/Implicit/Reallocate.antt =====
-- `mm_realloc` of malloclab-handout/mm_blk.c.
use mathlib.Core.Path.{subst}
use cmu_ics.Prelude.{
  ℕ, ◌+◌, ◌-◌, ◌*◌, ◌/◌, ◌≤◌, ◌<◌, ◌≡◌, refl, sym, ap, ◌∙◌, ◌⊎◌, inl, inr, List, ◌∷◌, ◌++◌, true,
  ltb, leb, ==_false, if◌then◌else◌, arith,
}
use cmu_ics.Word.{word, half, add}
use cmu_ics.Malloc.Memory.{Memory, Heap}
use cmu_ics.Malloc.Tags.{unpack_size}
use cmu_ics.Malloc.Tiles.{Block}
use cmu_ics.Malloc.Bytes.{get_byte, same_bytes, get_byte-memcpy}
use cmu_ics.Malloc.Extents.{Apart, Apart-at, Extents, extents, Kept, Kept-without, Kept-trans}
use cmu_ics.Malloc.Implicit.{mm_malloc, mm_free, max_int, chunksize}
use cmu_ics.Malloc.Implicit.Free.{IsHeap, Leaves}
use cmu_ics.Malloc.Memory.{memcpy}
use cmu_ics.Malloc.Implicit.{mm_realloc, move}
use cmu_ics.Malloc.Implicit.Free.{mm_free-extents}
use cmu_ics.Malloc.Implicit.Allocate.{Given, Exhausted, mm_malloc-Given}
use cmu_ics.Malloc.Implicit.Payload.{
  IsHeap-Apart, Kept-at, extent-size, payload-IsHeap, Parts, parts,
}

-- The block `p` has moved to `q`: a new block of at least `count` bytes stands among the others, which are as
-- they were, and holds what fits of the first `size` bytes of the old payload of `n - 8`.
pub record Moved (h h' : Heap) (start : ℕ) (es : Extents) (size count p n q : ℕ) : Type 0 where
  pub front : Extents
  pub room : ℕ
  pub back : Extents
  pub others : es ≡ front ++ back
  pub leaves : Leaves h h' start (front ++ ((q, room) ∷ back)) es
  pub roomy : count ≤ room
  pub copied : (j : ℕ) → j < size → j + 8 < n → get_byte h'.mem (q + j) ≡ get_byte h.mem (p + j)

memcpy-outside :
    (m : Memory) (dst src n a : ℕ) → (a < dst) ⊎ (dst + n ≤ a) → memcpy m dst src n a ≡ m a
memcpy-outside m dst src n a (inl below) = ground (arith, below)
memcpy-outside m dst src n a (inr above) =
    let out : leb (dst + n) a ≡ true = ground (arith, above) in ground (arith, out)

module _ (h : Heap) (start : ℕ) (bs : List Block) (x : ℕ × ℕ) (xs ys : Extents) (p n size : ℕ)
    (v : IsHeap h start bs) (e : extents start bs ≡ (x ∷ xs) ++ ((p, n) ∷ ys))
    (some_bytes : 0 < size) (bounded : size + 15 < half)
    (unwrapped : h.mem_brk + max_int ((size + 15) / 8 * 8) chunksize < word)
    (short : n < half) where
  abbrev found : ℕ × Heap
  found = mm_malloc h start size

  -- The number of bytes that are copied.
  abbrev count : ℕ
  count = if ltb size n then size else n

  abbrev copied : Heap
  copied = record found.1 { mem = memcpy found.1.mem found.0 p count }

  abbrev all : Extents
  all = (x ∷ xs) ++ ((p, n) ∷ ys)

  failed : found ≡ (0, h) → mm_realloc h start p size ≡ (0, h)
  unfolding mm_realloc
  failed none_left =
      let there = (extent-size h start bs (x ∷ xs) ys p n v e).1 in
      rw (==_false p 0 (omega (arith, there)), ==_false size 0 (omega arith))
        (ap (λ r. move r p size) none_left)

  module _ (g : Given h found.1 start all ((size + 15) / 8 * 8) found.0) where
    abbrev now : Extents
    now = g.front ++ ((found.0, g.size) ∷ g.back)

    r : Parts x xs (p, n) ys g.front g.back (found.0, g.size)
    r = parts x xs (p, n) ys g.front g.back (found.0, g.size) g.others

    header : (unpack_size found.1.mem (p - 4) ≡ n) × (8 ≤ p) × (8 ≤ n)
    header =
        let (bs', ordered, seen, kept) = g.leaves in
        extent-size found.1 start bs' (r.first ∷ r.before) r.after p n ordered (seen ∙ r.split)

    mm_realloc-moves : mm_realloc h start p size ≡ (found.0, mm_free copied p)
    unfolding mm_realloc
    mm_realloc-moves =
        let least : (if ltb (add size half) (add n half) then size else n) ≡ count = ground arith in
        rw
          (
            header.0,
            ==_false p 0 (omega (arith, header.1)),
            ==_false size 0 (omega arith),
            ==_false found.0 0 g.no_null,
            least,
          )
          refl

    outside :
        (a : ℕ) → (a < found.0) ⊎ (found.0 + g.size - 8 ≤ a) → (a < found.0) ⊎ (found.0 + count ≤ a)
    outside a (inl below) = inl below
    outside a (inr above) =
        let most : count ≤ size = ground arith in
        let roomy = g.roomy in
        let room : size + 8 ≤ g.size = omega (arith, roomy) in
        inr (omega (arith, above, most, room))

    moved : Moved h (mm_free copied p) start ((x ∷ xs) ++ ys) size ((size + 15) / 8 * 8) p n found.0
    moved =
        let (bs', ordered, seen, kept) = g.leaves in
        let (inside, kept') =
          payload-IsHeap found.1 start bs' g.front g.back found.0 g.size copied.mem ordered seen
            (λ a out. memcpy-outside found.1.mem found.0 p count a (outside a out)) in
        let (bs'', after, seen', kept'') =
          mm_free-extents copied start bs' r.first r.before r.after p n inside (seen ∙ r.split) in
        let final = (mm_free copied p).mem in
        let others = (x ∷ xs) ++ ys in
        let rest : Kept copied.mem final (r.left ++ ((found.0, g.size) ∷ r.right)) =
          subst (Kept copied.mem final) r.without kept'' in
        let kept₁ : Kept h.mem found.1.mem others =
          Kept-without h.mem found.1.mem (x ∷ xs) ys (p, n) kept in
        let kept₂ : Kept found.1.mem copied.mem others =
          Kept-without found.1.mem copied.mem (x ∷ xs) ys (p, n)
            (subst (Kept found.1.mem copied.mem) (sym g.others) kept') in
        let kept₃ : Kept copied.mem final others =
          subst (Kept copied.mem final) (sym r.others)
            (Kept-without copied.mem final r.left r.right (found.0, g.size) rest) in
        let roomy = g.roomy in
        record {
          front = r.left;
          room = g.size;
          back = r.right;
          others = r.others;
          leaves = (
            bs'',
            after,
            seen' ∙ r.without,
            Kept-trans h.mem copied.mem final others
                (Kept-trans h.mem found.1.mem copied.mem others kept₁ kept₂) kept₃,
          );
          roomy = g.roomy;
          copied = λ j fits fits'.
              let aligned =
                (Apart-at start (x ∷ xs) p n ys h.mem_brk
                  (subst (λ es. Apart start es h.mem_brk) e (IsHeap-Apart h start bs v))).1 in
              let aligned' =
                (Apart-at start g.front found.0 g.size g.back found.1.mem_brk (
                  subst (λ es. Apart start es found.1.mem_brk) seen
                    (IsHeap-Apart found.1 start bs' ordered))).1 in
              let kept_p = Kept-at h.mem found.1.mem (x ∷ xs) ys p n kept in
              let kept_q = Kept-at copied.mem final r.left r.right found.0 g.size rest in
              let inside : j < count = ground (arith, fits, fits') in
              same_bytes copied.mem final found.0 found.0 (g.size - 8) (omega (arith, aligned'))
                (omega (arith, aligned'))
                (λ i less even. kept_q (found.0 + i) (omega arith) (omega (arith, less))) j
                (omega arith)
              ∙ get_byte-memcpy found.1.mem found.0 p count j (omega (arith, aligned'))
                  (omega (arith, aligned)) inside
              ∙ same_bytes h.mem found.1.mem p p (n - 8) (omega (arith, aligned))
                  (omega (arith, aligned))
                  (λ i less even. kept_p (p + i) (omega arith) (omega (arith, less))) j
                  (omega arith);
        }

  -- `mm_realloc` of a payload in use, other than the prologue, to 1 up to 2 ^ 31 - 16 bytes, for an old block
  -- below 2 ^ 31 bytes, when the break could be moved by `(size + 15) / 8 * 8`, or by 4096 if that is more, within the
  -- 32-bit addresses. It returns NULL and changes nothing when no free block is large enough and the
  -- memory system has not the room left. Or else the old block is gone, and a new block of at least
  -- `(size + 15) / 8 * 8` bytes holds all of its contents that fit in `size` bytes; the heap stays in order,
  -- and all other blocks in use stay where they are, with the contents of their payloads.
  pub mm_realloc-Moved :
      ((mm_realloc h start p size ≡ (0, h)) × Exhausted h bs ((size + 15) / 8 * 8))
      ⊎ Moved h
          (mm_realloc h start p size).1
          start
          ((x ∷ xs) ++ ys)
          size
          ((size + 15) / 8 * 8)
          p
          n
          (mm_realloc h start p size).0
  mm_realloc-Moved = elim (mm_malloc-Given h start bs size v some_bytes bounded unwrapped) [
    | inl (none_left, why) ↦ inl (failed none_left, why)
    | inr g ↦
        let g' = subst (λ es. Given h found.1 start es ((size + 15) / 8 * 8) found.0) e g in
        inr (
          subst (λ r. Moved h r.1 start ((x ∷ xs) ++ ys) size ((size + 15) / 8 * 8) p n r.0)
            (sym (mm_realloc-moves g')) (moved g'))
  ]
