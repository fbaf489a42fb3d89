-- ===== src/Malloc/Implicit/Place.antt =====
-- `place` of malloclab-handout/mm_blk.c.
use mathlib.Core.Path.{subst, ap₂}
use mathlib.Core.List.{append_assoc}
use cmu_ics.Prelude.{
  ℕ, ◌+◌, ◌-◌, ◌%◌, ◌≤◌, ◌≡◌, refl, sym, ap, ◌∙◌, inl, inr, List, [], ◌∷◌, ◌++◌, ltb, Bool-cases,
  arith,
}
use cmu_ics.Word.{word}
use cmu_ics.Malloc.Memory.{Memory}
use cmu_ics.Malloc.Tags.{unpack_size, next_blk, set_tags}
use cmu_ics.Malloc.Tiles.{
  Block, block, IsBlock, IsTag, Tiled, Tiled-total, Tiled-append, Tiled-frame, total, total-append,
  retile, set_tags-same, set_tags-IsBlock, header-size,
}
use cmu_ics.Malloc.Extents.{extents, Kept, Kept-append, Kept-without, Kept-trans, Kept-Tiled}
use cmu_ics.Malloc.Implicit.{place}
use cmu_ics.Malloc.Implicit.Merge.{Guarded, Holds}
use cmu_ics.Malloc.Implicit.Free.{retag, extents-free, extents-used}

-- The block that `place` made at `p`, of at least `req` bytes.
pub record Placed (m m' : Memory) (start : ℕ) (front : List Block) (k : ℕ) (back : List Block)
    (q p req : ℕ) : Type 0 where
  pub blocks : List Block
  pub size : ℕ
  pub holds : Holds m' start blocks q
  pub taken : extents start blocks ≡ extents start front ++ ((p, size) ∷ extents (p + k) back)
  pub roomy : req ≤ size
  pub kept : Kept m m' (extents start front ++ extents (p + k) back)

-- A split leaves the rest of the block behind the new one, free.
split-Placed :
    (m : Memory) (start : ℕ) (front : List Block) (k : ℕ) (back : List Block) (q p req : ℕ)
    → Holds m start (front ++ (block k 0 ∷ back)) q
    → Guarded front
    → p ≡ start + total front
    → IsTag req 1
    → IsBlock m p (block k 0)
    → Tiled m start front p
    → Tiled m (p + k) back q
    → 16 ≤ k - req
    → Placed m
        (set_tags (set_tags m p req 1) (next_blk (set_tags m p req 1) p) (k - req) 0)
        start
        front
        k
        back
        q
        p
        req
unfolding extents
split-Placed m start front k back q p req v (rest, e) at tag here left right much =
    let m₁ = set_tags m p req 1 in
    let low = v.low in
    let room = tag.roomy in
    let same = set_tags-same m p req 1 (omega arith) tag in
    let to = Tiled-total m (p + k) back q right in
    let first = set_tags-IsBlock m p req 1 (omega arith) tag in
    let next : next_blk m₁ p ≡ p + req = ap (λ t. p + t) (header-size m₁ p (block req 1) first) in
    let gap : p + req + (k - req) ≡ p + k = omega (arith, much) in
    let before : Tiled m₁ start (front ++ (block req 1 ∷ [])) (p + req) =
      retile m p req 1 (omega arith) tag start front [] (p + req) low left refl in
    let after : Tiled m₁ (p + req + (k - req)) back q =
      subst (λ t. Tiled m₁ t back q) (sym gap)
        (Tiled-frame m m₁ (p + k) back q (omega arith) right
          (λ a h h'. same a (omega arith) (omega arith))) in
    let free : IsTag (k - req) 0 = record {
      roomy = omega arith;
      even = omega (arith, here.even, tag.even);
      bit = omega arith;
      small = omega (arith, here.small);
    } in
    let front' = front ++ (block req 1 ∷ []) in
    let place' : p + req ≡ start + total front' =
      omega (arith, at, total-append front (block req 1 ∷ [])) in
    let (holds, kept) =
      retag m₁ start front' back q (p + req) (k - req) 0 before after
        (same (q - 4) (omega arith) (omega arith) ∙ v.epilogue) low v.aligned
        (rest ++ (block req 1 ∷ []), ap (λ t. t ++ (block req 1 ∷ [])) e) v.fits free in
    let m₂ = set_tags m₁ (p + req) (k - req) 0 in
    let es = extents start front ++ extents (p + k) back in
    let taken : extents start (front' ++ (block (k - req) 0 ∷ back))
        ≡ extents start front ++ ((p, req) ∷ extents (p + k) back) =
      extents-free start front' (k - req) back (p + req) place'
      ∙ ap₂ ◌++◌ (extents-used start front req [] p at) (ap (λ t. extents t back) gap)
      ∙ append_assoc (extents start front) ((p, req) ∷ []) (extents (p + k) back) in
    let kept₁ : Kept m m₁ es =
      Kept-append m m₁ (extents start front) (extents (p + k) back)
        (Kept-Tiled m m₁ start front p left (λ a h h'. same a (omega arith) (omega arith)))
        (Kept-Tiled m m₁ (p + k) back q right (λ a h h'. same a (omega arith) (omega arith))) in
    let kept₂ : Kept m₁ m₂ es =
      Kept-without m₁ m₂ (extents start front) (extents (p + k) back) (p, req)
        (subst (Kept m₁ m₂)
          (ap₂ ◌++◌ (extents-used start front req [] p at) (ap (λ t. extents t back) gap)
            ∙ append_assoc (extents start front) ((p, req) ∷ []) (extents (p + k) back))
          kept) in
    subst (λ t. Placed m (set_tags m₁ t (k - req) 0) start front k back q p req) (sym next)
      (record {
        blocks = front' ++ (block (k - req) 0 ∷ back);
        size = req;
        holds = holds;
        taken = taken;
        roomy = omega arith;
        kept = Kept-trans m m₁ m₂ es kept₁ kept₂;
      })

pub place-Placed :
    (m : Memory) (start : ℕ) (front : List Block) (k : ℕ) (back : List Block) (q p req : ℕ)
    → Holds m start (front ++ (block k 0 ∷ back)) q
    → Guarded front
    → p ≡ start + total front
    → req ≤ k
    → 16 ≤ req
    → req % 8 ≡ 0
    → Placed m (place m p req) start front k back q p req
unfolding place
place-Placed m start front k back q p req v guard at fits big even =
    let (r, before, (here, after)) = Tiled-append m start front (block k 0 ∷ back) q v.tiles in
    let from = Tiled-total m start front r before in
    let same : r ≡ p = omega (arith, from, at) in
    let left = subst (λ t. Tiled m start front t) same before in
    let right = subst (λ t. Tiled m (t + k) back q) same after in
    let size : unpack_size m (p - 4) ≡ k =
      subst (λ t. unpack_size m (t - 4) ≡ k) same (header-size m r (block k 0) here) in
    let rem : (k + word - req) % word ≡ k - req = omega (arith, here.small) in
    elim (Bool-cases (ltb (k - req) 16)) [
      | inl whole ↦
          rw (size, rem, whole)
            (let tag : IsTag k 1 = record {
              roomy = here.roomy;
              even = here.even;
              bit = omega arith;
              small = here.small;
            } in
              let (holds, kept) =
                retag m start front back q p k 1 left right v.epilogue v.low v.aligned guard v.fits
                  tag in
              record {
                blocks = front ++ (block k 1 ∷ back);
                size = k;
                holds = holds;
                taken = extents-used start front k back p at;
                roomy = fits;
                kept = kept;
              })
      | inr split ↦
          rw (size, rem, split)
            (split-Placed m start front k back q p req v guard at
              (record {
                roomy = omega arith;
                even = even;
                bit = omega arith;
                small = omega (arith, here.small);
              })
              (subst (λ t. IsBlock m t (block k 0)) same here) left right (ground arith))
    ]
