-- ===== src/Malloc/Implicit/Payload.antt =====
-- The payload of a block in use of malloclab-handout/mm_blk.c: its place among the others, and writes to it.
use mathlib.Core.Path.{subst, ap₂}
use cmu_ics.Prelude.{
  ℕ, ◌+◌, ◌-◌, ◌≤◌, ◌<◌, ◌≡◌, refl, sym, ap, ◌∙◌, ◌⊎◌, inl, inr, List, [], ◌∷◌, ◌++◌, arith,
}
use cmu_ics.Malloc.Memory.{Memory, Heap}
use cmu_ics.Malloc.Tags.{unpack_size}
use cmu_ics.Malloc.Tiles.{
  Block, Tiled, Tiled-total, Tiled-append, Tiled-frame, append-Tiled, header-size,
}
use cmu_ics.Malloc.Extents.{
  Apart, extents-Apart, Extents, extents, Kept, Kept-append, Kept-Tiled, extents-Found,
}
use cmu_ics.Malloc.Implicit.Free.{IsHeap}

pub Kept-at :
    (m m' : Memory) (xs ys : Extents) (p n : ℕ)
    → Kept m m' (xs ++ ((p, n) ∷ ys))
    → (a : ℕ) → p ≤ a
    → a < p + n - 8
    → m' a ≡ m a
Kept-at m m' [] ys p n (here, k) = here
Kept-at m m' (x ∷ xs) ys p n (here, k) = Kept-at m m' xs ys p n k

-- The blocks in use are aligned, apart and within the heap.
pub IsHeap-Apart :
    (h : Heap) (start : ℕ) (bs : List Block)
    → IsHeap h start bs
    → Apart start (extents start bs) h.mem_brk
IsHeap-Apart h start bs v =
    extents-Apart h.mem start bs h.mem_brk start v.holds.tiles v.holds.aligned (omega arith)

-- The header of a block in use.
pub extent-size :
    (h : Heap) (start : ℕ) (bs : List Block) (xs ys : Extents) (p n : ℕ)
    → IsHeap h start bs
    → extents start bs ≡ xs ++ ((p, n) ∷ ys)
    → (unpack_size h.mem (p - 4) ≡ n) × (8 ≤ p) × (8 ≤ n)
extent-size h start bs xs ys p n v e =
    let f = extents-Found start bs xs ys p n e in
    let (r, before, (here, after)) =
      Tiled-append h.mem start f.front (f.found ∷ f.back) h.mem_brk
        (subst (λ t. Tiled h.mem start t h.mem_brk) f.parts v.holds.tiles) in
    let at : r ≡ p = omega (arith, Tiled-total h.mem start f.front r before, f.place) in
    (
      subst (λ t. unpack_size h.mem (t - 4) ≡ n) at (header-size h.mem r f.found here ∙ f.extent),
      omega (arith, f.place, v.holds.low),
      omega (arith, here.roomy, f.extent),
    )

-- What is written to the payload of a block in use disturbs neither the heap nor the other blocks.
pub payload-IsHeap :
    (h : Heap) (start : ℕ) (bs : List Block) (xs ys : Extents) (p n : ℕ) (m : Memory)
    → IsHeap h start bs
    → extents start bs ≡ xs ++ ((p, n) ∷ ys)
    → ((a : ℕ) → (a < p) ⊎ (p + n - 8 ≤ a) → m a ≡ h.mem a)
    → IsHeap (record h { mem = m }) start bs × Kept h.mem m (xs ++ ys)
payload-IsHeap h start bs xs ys p n m v e same =
    let f = extents-Found start bs xs ys p n e in
    let ok = v.holds in
    let low = ok.low in
    let (r, before, (here, after)) =
      Tiled-append h.mem start f.front (f.found ∷ f.back) h.mem_brk
        (subst (λ t. Tiled h.mem start t h.mem_brk) f.parts ok.tiles) in
    let from = Tiled-total h.mem start f.front r before in
    let at : r ≡ p = omega (arith, from, f.place) in
    let size = f.extent in
    let to = Tiled-total h.mem (r + f.found.size) f.back h.mem_brk after in
    let room = here.roomy in
    let tiles =
      append-Tiled m start r f.front (f.found ∷ f.back) h.mem_brk
        (Tiled-frame h.mem m start f.front r low before (λ a l u. same a (inl (omega arith))))
        (
          record {
            header = same (r - 4) (inl (omega arith)) ∙ here.header;
            footer = same (r + f.found.size - 8) (inr (omega arith)) ∙ here.footer;
            roomy = room;
            even = here.even;
            bit = here.bit;
            small = here.small;
          },
          Tiled-frame h.mem m (r + f.found.size) f.back h.mem_brk (omega arith) after
              (λ a l u. same a (inr (omega arith))),
        ) in
    let behind : extents (r + f.found.size) f.back ≡ ys =
      ap (λ t. extents t f.back) (omega (arith, at, size)) ∙ f.behind in
    (
      record {
        holds = record {
          tiles = subst (λ t. Tiled m start t h.mem_brk) (sym f.parts) tiles;
          epilogue = same (h.mem_brk - 4) (inr (omega arith)) ∙ ok.epilogue;
          low = low;
          aligned = ok.aligned;
          guarded = ok.guarded;
          fits = ok.fits;
        };
        bounded = v.bounded;
        small = v.small;
      },
      Kept-append h.mem m xs ys
          (subst (Kept h.mem m) f.before
            (Kept-Tiled h.mem m start f.front r before (λ a l u. same a (inl (omega arith)))))
          (subst (Kept h.mem m) behind (
            Kept-Tiled h.mem m (r + f.found.size) f.back h.mem_brk after
              (λ a l u. same a (inr (omega arith))))),
    )

-- An element of one list among the parts of another that is the same.
pub record Parts (x : ℕ × ℕ) (xs : Extents) (e : ℕ × ℕ) (ys front back : Extents) (q : ℕ × ℕ)
    : Type 0 where
  pub first : ℕ × ℕ
  pub before : Extents
  pub after : Extents
  pub split : front ++ (q ∷ back) ≡ (first ∷ before) ++ (e ∷ after)
  pub left : Extents
  pub right : Extents
  pub others : (x ∷ xs) ++ ys ≡ left ++ right
  pub without : (first ∷ before) ++ after ≡ left ++ (q ∷ right)

pub parts :
    (x : ℕ × ℕ) (xs : Extents) (e : ℕ × ℕ) (ys front back : Extents) (q : ℕ × ℕ)
    → (x ∷ xs) ++ (e ∷ ys) ≡ front ++ back
    → Parts x xs e ys front back q
parts x xs e ys [] back q eq = record {
  first = q;
  before = x ∷ xs;
  after = ys;
  split = ap (λ t. q ∷ t) (sym eq);
  left = [];
  right = (x ∷ xs) ++ ys;
  others = refl;
  without = refl;
}
parts x [] e ys (f ∷ []) back q eq = record {
  first = f;
  before = q ∷ [];
  after = ys;
  split = ground (arith, eq);
  left = f ∷ [];
  right = ys;
  others = ground (arith, eq);
  without = refl;
}
parts x [] e ys (f ∷ f' ∷ front) back q eq = record {
  first = f;
  before = [];
  after = front ++ (q ∷ back);
  split = ground (arith, eq);
  left = f ∷ front;
  right = back;
  others = ground (arith, eq);
  without = refl;
}
parts x (x' ∷ xs) e ys (f ∷ front) back q eq =
    let r = parts x' xs e ys front back q (ground (arith, eq)) in
    let same : x ≡ f = ground (arith, eq) in
    record {
      first = f;
      before = r.first ∷ r.before;
      after = r.after;
      split = ap (λ t. f ∷ t) r.split;
      left = f ∷ r.left;
      right = r.right;
      others = ap₂ ◌∷◌ same r.others;
      without = ap (λ t. f ∷ t) r.without;
    }
