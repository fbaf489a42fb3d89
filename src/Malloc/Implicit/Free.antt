-- ===== src/Malloc/Implicit/Free.antt =====
-- `mm_free` of malloclab-handout/mm_blk.c.
use mathlib.Core.Path.{subst, ap₂}
use cmu_ics.Prelude.{
  ℕ, ◌+◌, ◌-◌, ◌%◌, ◌≤◌, ◌<◌, ◌≡◌, ◌≢◌, refl, sym, ap, ◌∙◌, List, [], ◌∷◌, ◌++◌, ==_false, arith,
}
use cmu_ics.Word.{word}
use cmu_ics.Malloc.Memory.{Memory, Heap}
use cmu_ics.Malloc.Tags.{unpack_size, set_tags}
use cmu_ics.Malloc.Tiles.{
  Block, block, IsTag, Tiled, Tiled-total, Tiled-append, total, retile, set_tags-same, header-size,
}
use cmu_ics.Malloc.Extents.{
  Extents, extents, extents-append, Kept, Kept-append, Kept-trans, Kept-Tiled, extents-Found,
}
use cmu_ics.Malloc.Implicit.{coalesce, mm_free}
use cmu_ics.Malloc.Implicit.Merge.{Guarded, Holds, coalesce-Merged}

-- The heap is in order, and holds the blocks `bs` from the prologue on.
pub record IsHeap (h : Heap) (start : ℕ) (bs : List Block) : Type 0 where
  pub holds : Holds h.mem start bs h.mem_brk
  pub bounded : h.mem_brk ≤ h.mem_max_addr
  pub small : h.mem_max_addr < word

-- A block of `n` bytes at `p` with new tags, between stretches that stay as they are.
pub retag :
    (m : Memory) (start : ℕ) (front back : List Block) (q p n alloc : ℕ)
    → Tiled m start front p
    → Tiled m (p + n) back q
    → m (q - 4) ≡ 1
    → 8 ≤ start
    → start % 8 ≡ 0
    → Guarded front
    → q < word
    → IsTag n alloc
    → Holds (set_tags m p n alloc) start (front ++ (block n alloc ∷ back)) q
      × Kept m (set_tags m p n alloc) (extents start front ++ extents (p + n) back)
retag m start front back q p n alloc t u end low even (rest, e) fits tag =
    let from = Tiled-total m start front p t in
    let to = Tiled-total m (p + n) back q u in
    let roomy = tag.roomy in
    let m' = set_tags m p n alloc in
    let same = set_tags-same m p n alloc (omega arith) tag in
    (
      record {
        tiles = retile m p n alloc (omega arith) tag start front back q low t u;
        epilogue = same (q - 4) (omega arith) (omega arith) ∙ end;
        low = low;
        aligned = even;
        guarded = (rest ++ (block n alloc ∷ back), ap (λ t. t ++ (block n alloc ∷ back)) e);
        fits = fits;
      },
      Kept-append m m' (extents start front) (extents (p + n) back)
          (Kept-Tiled m m' start front p t (λ a h h'. same a (omega arith) (omega arith)))
          (Kept-Tiled m m' (p + n) back q u (λ a h h'. same a (omega arith) (omega arith))),
    )

-- A free block is no extent.
pub extents-free :
    (start : ℕ) (front : List Block) (n : ℕ) (back : List Block) (p : ℕ)
    → p ≡ start + total front
    → extents start (front ++ (block n 0 ∷ back)) ≡ extents start front ++ extents (p + n) back
unfolding extents
extents-free start front n back p at =
    extents-append start front (block n 0 ∷ back)
    ∙ ap (λ t. extents start front ++ extents (t + n) back) (sym at)

-- A block in use is one.
pub extents-used :
    (start : ℕ) (front : List Block) (n : ℕ) (back : List Block) (p : ℕ)
    → p ≡ start + total front
    → extents start (front ++ (block n 1 ∷ back))
      ≡ extents start front ++ ((p, n) ∷ extents (p + n) back)
unfolding extents
extents-used start front n back p at =
    extents-append start front (block n 1 ∷ back)
    ∙ ap (λ t. extents start front ++ ((t, n) ∷ extents (t + n) back)) (sym at)

-- A first extent belongs to a first block, and the first block is the prologue.
extents-Guarded :
    (start : ℕ) (front back : List Block) (x : ℕ × ℕ) (xs : Extents)
    → Guarded (front ++ back)
    → extents start front ≡ x ∷ xs
    → Guarded front
unfolding extents
extents-Guarded start [] back x xs g e = absurd (cc)
extents-Guarded start (c ∷ front) back x xs (rest, e) e' =
    (front, ap (λ t. t ∷ front) (ground arith))

-- The heap `h'` is in order and has the extents `es`, and the payloads of `kept` are those of `h`.
abbrev pub Leaves : Heap → Heap → ℕ → Extents → Extents → Type 0
Leaves h h' start es kept =
    (bs : List Block) × IsHeap h' start bs × (extents start bs ≡ es) × Kept h.mem h'.mem kept

-- In a heap in order, `mm_free` of a payload that is in use, other than the prologue, keeps the heap in
-- order. All other blocks in use stay where they are, with the contents of their payloads.
pub mm_free-extents :
    (h : Heap) (start : ℕ) (bs : List Block) (x : ℕ × ℕ) (xs ys : Extents) (p n : ℕ)
    → IsHeap h start bs
    → extents start bs ≡ (x ∷ xs) ++ ((p, n) ∷ ys)
    → Leaves h (mm_free h p) start ((x ∷ xs) ++ ys) ((x ∷ xs) ++ ys)
unfolding mm_free
mm_free-extents h start bs x xs ys p n v e =
    let f = extents-Found start bs (x ∷ xs) ys p n e in
    let ok = v.holds in
    let (r, before, (here, after)) =
      Tiled-append h.mem start f.front (f.found ∷ f.back) h.mem_brk
        (subst (λ t. Tiled h.mem start t h.mem_brk) f.parts ok.tiles) in
    let from = Tiled-total h.mem start f.front r before in
    let at : r ≡ p = omega (arith, from, f.place) in
    let guard =
      extents-Guarded start f.front (f.found ∷ f.back) x xs (subst Guarded f.parts ok.guarded)
        f.before in
    let size : unpack_size h.mem (p - 4) ≡ n =
      subst (λ t. unpack_size h.mem (t - 4) ≡ n) at (header-size h.mem r f.found here ∙ f.extent) in
    let tag : IsTag n 0 = record {
      roomy = omega (arith, here.roomy, f.extent);
      even = rw (← f.extent) here.even;
      bit = omega arith;
      small = omega (arith, here.small, f.extent);
    } in
    let (holds, kept) =
      retag h.mem start f.front f.back h.mem_brk p n 0
        (subst (λ t. Tiled h.mem start f.front t) at before)
        (subst (λ t. Tiled h.mem t f.back h.mem_brk) (omega (arith, f.extent, at)) after)
        ok.epilogue ok.low ok.aligned guard ok.fits tag in
    let m = set_tags h.mem p n 0 in
    let g = coalesce-Merged m start f.front n f.back h.mem_brk p holds guard f.place in
    let all : extents start (f.front ++ (block n 0 ∷ f.back)) ≡ (x ∷ xs) ++ ys =
      extents-free start f.front n f.back p f.place ∙ ap₂ ◌++◌ f.before f.behind in
    let kept' : Kept h.mem m ((x ∷ xs) ++ ys) =
      subst (Kept h.mem m) (ap₂ ◌++◌ f.before f.behind) kept in
    let no_null : p ≢ 0 = omega (arith, f.place, ok.low) in
    let freed : mm_free h p ≡ record h { mem = (coalesce m p).1 } =
      rw (==_false p 0 no_null, size) refl in
    subst (λ h'. Leaves h h' start ((x ∷ xs) ++ ys) ((x ∷ xs) ++ ys)) (sym freed)
      (
        g.front ++ (block g.size 0 ∷ g.back),
        record { holds = g.holds; bounded = v.bounded; small = v.small },
        g.unchanged ∙ all,
        Kept-trans h.mem m (coalesce m p).1 ((x ∷ xs) ++ ys) kept'
            (subst (Kept m (coalesce m p).1) all g.kept),
      )
