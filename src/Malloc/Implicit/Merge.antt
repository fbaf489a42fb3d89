-- ===== src/Malloc/Implicit/Merge.antt =====
-- `coalesce` of malloclab-handout/mm_blk.c leaves the blocks in use as they are.
use native.Mathlib.Decide.{ℕ_discrete}
use mathlib.Core.Path.{subst}
use mathlib.Core.List.{append_assoc}
use cmu_ics.Prelude.{
  ℕ, ◌+◌, ◌-◌, ◌%◌, ◌≤◌, ◌<◌, ◌≡◌, ◌≢◌, refl, sym, ap, ◌∙◌, List, [], ◌∷◌, ◌++◌, ==_false, arith,
}
use cmu_ics.Word.{word}
use cmu_ics.Malloc.Memory.{Memory}
use cmu_ics.Malloc.Tiles.{
  Block, block, IsBlock, Tiled, Tiled-total, Tiled-append, total, total-append,
}
use cmu_ics.Malloc.Extents.{extents, extents-append, Kept, Kept-append, Kept-Tiled}
use cmu_ics.Malloc.Implicit.{coalesce}
use cmu_ics.Malloc.Implicit.Coalesce.{
  joined, join_next, behind, joined_at, joined_size, coalesce-Joined,
}

-- The first block is the prologue.
abbrev pub Guarded : List Block → Type 0
Guarded bs = (rest : List Block) × (bs ≡ block 8 1 ∷ rest)

-- The memory holds the blocks `bs` from the prologue at `start` to the end of the heap at `q`.
pub record Holds (m : Memory) (start : ℕ) (bs : List Block) (q : ℕ) : Type 0 where
  pub tiles : Tiled m start bs q
  pub epilogue : m (q - 4) ≡ 1
  pub low : 8 ≤ start
  pub aligned : start % 8 ≡ 0
  pub guarded : Guarded bs
  pub fits : q < word

pub last_of :
    (b : Block) (bs : List Block)
    → (front : List Block) × (x : Block) × (b ∷ bs ≡ front ++ (x ∷ []))
last_of b [] = ([], b, refl)
last_of b (c ∷ bs) = let (front, x, e) = last_of c bs in (b ∷ front, x, ap (λ t. b ∷ t) e)

-- What `coalesce` returned at the free block of `n` bytes between `bs` and `ys`.
pub record Merged (m : Memory) (start : ℕ) (bs : List Block) (n : ℕ) (ys : List Block) (q : ℕ)
    (r : ℕ × Memory) : Type 0 where
  pub front : List Block
  pub size : ℕ
  pub back : List Block
  pub holds : Holds r.1 start (front ++ (block size 0 ∷ back)) q
  pub place : r.0 ≡ start + total front
  pub roomy : n ≤ size
  pub unchanged :
      extents start (front ++ (block size 0 ∷ back)) ≡ extents start (bs ++ (block n 0 ∷ ys))
  pub kept : Kept m r.1 (extents start (bs ++ (block n 0 ∷ ys)))

module _ (o : ℕ) (pr : Block) (n : ℕ) where
  joined-extents : (ys : List Block) → extents o (joined pr n ys) ≡ extents o (pr ∷ block n 0 ∷ ys)
  unfolding extents
  joined-extents [] = ground arith
  joined-extents (y ∷ ys) =
      let far : o + (pr.size + (n + y.size)) ≡ o + pr.size + n + y.size = omega arith in
      let near : o + (pr.size + n) ≡ o + pr.size + n = omega arith in
      let next : o + pr.size + (n + y.size) ≡ o + pr.size + n + y.size = omega arith in
      ground (arith, far, near, next)

  join_next-le : (ys : List Block) → n ≤ join_next n ys
  join_next-le [] = omega arith
  join_next-le (y ∷ ys) = ground arith

  le-joined_size : (ys : List Block) → n ≤ joined_size pr n ys
  le-joined_size ys = ground (arith, join_next-le ys)

  le-joined_at : o ≤ joined_at o pr
  le-joined_at = ground arith

  joined-Guarded :
      (init ys : List Block) → Guarded (init ++ (pr ∷ [])) → Guarded (init ++ joined pr n ys)
  joined-Guarded [] ys (rest, e) = let used : pr ≡ block 8 1 = ground arith in rw used (_, refl)
  joined-Guarded (c ∷ init) ys (rest, e) =
      let first : c ≡ block 8 1 = ground arith in
      (init ++ joined pr n ys, ap (λ t. t ∷ (init ++ joined pr n ys)) first)

  -- The joined block among the others.
  joined-split :
      (ys : List Block)
      → (front : List Block) × (joined pr n ys
          ≡ front ++ (block (joined_size pr n ys) 0 ∷ behind ys))
        × (joined_at o pr ≡ o + total front)
  joined-split ys = elim (ℕ_discrete pr.alloc 0) [
    | yes idle ↦ ([], rw idle refl, rw idle (omega arith))
    | no used ↦
        (pr ∷ [], rw (==_false pr.alloc 0 used) refl, rw (==_false pr.alloc 0 used) (omega arith))
  ]

module _ (m m' : Memory) (q : ℕ) where
  -- The payloads behind the joined block, which starts at `c`.
  behind-Kept :
      (c n : ℕ) (ys : List Block)
      → Tiled m (c + n) ys q
      → ((a : ℕ) → c + join_next n ys - 4 ≤ a → m' a ≡ m a)
      → Kept m m' (extents (c + n) ys)
  unfolding extents
  behind-Kept c n [] t same = tt
  behind-Kept c n (y ∷ ys) (v, t) same = elim (ℕ_discrete y.alloc 0) [
    | yes idle ↦
        rw idle
          (Kept-Tiled m m' (c + n + y.size) ys q t (λ a h h'. same a (rw idle (omega (arith, h)))))
    | no used ↦
        let shut = ==_false y.alloc 0 used in
        Kept-Tiled m m' (c + n) (y ∷ ys) q (v, t) (λ a h h'. same a (rw shut (omega (arith, h))))
  ]

  -- The payloads from the previous block on.
  joined-Kept :
      (o : ℕ) (pr : Block) (n : ℕ) (ys : List Block)
      → IsBlock m o pr
      → 8 ≤ n
      → 8 ≤ o
      → Tiled m (o + pr.size + n) ys q
      → ((a : ℕ)
          → a ≢ joined_at o pr - 4
          → a ≢ joined_at o pr + joined_size pr n ys - 8
          → m' a ≡ m a)
      → Kept m m' (extents o (pr ∷ block n 0 ∷ ys))
  unfolding extents
  joined-Kept o pr n ys v big low t same =
      let grown : n ≤ join_next n ys = join_next-le o pr n ys in
      let room = v.roomy in
      elim (ℕ_discrete pr.alloc 0) [
        | yes idle ↦ rw idle (
            behind-Kept (o + pr.size) n ys t
              (λ a h. same a (rw idle (omega (arith, h))) (rw idle (omega (arith, h)))))
        | no used ↦
            let shut = ==_false pr.alloc 0 used in
            rw shut (
              (λ a h h'. same a (rw shut (omega (arith, h, h'))) (rw shut (omega (arith, h, h')))),
              behind-Kept (o + pr.size) n ys t
                  (λ a h. same a (rw shut (omega (arith, h))) (rw shut (omega (arith, h)))),
            )
      ]

-- `coalesce` at a free block keeps the heap in order, loses no extent and changes no payload.
pub coalesce-Merged :
    (m : Memory) (start : ℕ) (bs : List Block) (n : ℕ) (ys : List Block) (q r : ℕ)
    → Holds m start (bs ++ (block n 0 ∷ ys)) q
    → Guarded bs
    → r ≡ start + total bs
    → Merged m start bs n ys q (coalesce m r)
coalesce-Merged m start bs n ys q r v (rest, e) at =
    let (init, pr, snoc) = last_of (block 8 1) rest in
    let whole : bs ≡ init ++ (pr ∷ []) = e ∙ snoc in merge init pr whole
  where
    merge :
        (init : List Block) (pr : Block)
        → bs ≡ init ++ (pr ∷ [])
        → Merged m start bs n ys q (coalesce m r)
    merge init pr whole =
        let all : bs ++ (block n 0 ∷ ys) ≡ init ++ (pr ∷ block n 0 ∷ ys) =
          ap (λ t. t ++ (block n 0 ∷ ys)) whole ∙ append_assoc init (pr ∷ []) (block n 0 ∷ ys) in
        let (o, before, (previous, (here, after))) =
          Tiled-append m start init (pr ∷ block n 0 ∷ ys) q
            (subst (λ t. Tiled m start t q) all v.tiles) in
        let from = Tiled-total m start init o before in
        let size_of = ap total whole ∙ total-append init (pr ∷ []) in
        let place : r ≡ o + pr.size = omega (arith, from, size_of, at) in
        let joint = coalesce-Joined m start init o pr (block n 0) q ys (record {
          before = before;
          previous = previous;
          here = here;
          after = after;
          epilogue = v.epilogue;
          low = v.low;
          free = refl;
          fits = v.fits;
        }) in
        let (front, split, there) = joined-split o pr n ys in
        let parts : init ++ joined pr n ys
            ≡ (init ++ front) ++ (block (joined_size pr n ys) 0 ∷ behind ys) =
          ap (λ t. init ++ t) split
          ∙ sym (append_assoc init front (block (joined_size pr n ys) 0 ∷ behind ys)) in
        let old : extents start (bs ++ (block n 0 ∷ ys))
            ≡ extents start init ++ extents o (pr ∷ block n 0 ∷ ys) =
          ap (extents start) all
          ∙ extents-append start init (pr ∷ block n 0 ∷ ys)
          ∙ ap (λ t. extents start init ++ extents t (pr ∷ block n 0 ∷ ys)) (sym from) in
        let new : extents start (init ++ joined pr n ys)
            ≡ extents start init ++ extents o (joined pr n ys) =
          extents-append start init (joined pr n ys)
          ∙ ap (λ t. extents start init ++ extents t (joined pr n ys)) (sym from) in
        let low = v.low in
        let far = le-joined_at o pr n in
        let big : 8 ≤ joined_size pr n ys = omega (arith, here.roomy, le-joined_size o pr n ys) in
        subst (λ t. Merged m start bs n ys q (coalesce m t)) (sym place)
          (record {
            front = init ++ front;
            size = joined_size pr n ys;
            back = behind ys;
            holds =
                subst (λ t. Holds (coalesce m (o + pr.size)).1 start t q) parts
                  (record {
                    tiles = joint.tiles;
                    epilogue = joint.epilogue;
                    low = v.low;
                    aligned = v.aligned;
                    guarded = joined-Guarded o pr n init ys (subst Guarded whole (rest, e));
                    fits = v.fits;
                  });
            place = omega (arith, joint.place, there, from, total-append init front);
            roomy = le-joined_size o pr n ys;
            unchanged =
                ap (extents start) (sym parts)
                ∙ new
                ∙ ap (λ t. extents start init ++ t) (joined-extents o pr n ys)
                ∙ sym old;
            kept =
                subst (λ t. Kept m (coalesce m (o + pr.size)).1 t) (sym old)
                  (Kept-append m (coalesce m (o + pr.size)).1 (extents start init)
                    (extents o (pr ∷ block n 0 ∷ ys))
                    (Kept-Tiled m (coalesce m (o + pr.size)).1 start init o before
                      (λ a h h'. joint.same a (omega (arith, far, big)) (omega (arith, far, big))))
                    (joined-Kept m (coalesce m (o + pr.size)).1 q o pr n ys previous here.roomy
                      (omega arith) after joint.same));
          })
