-- ===== src/Malloc/Implicit/Fit.antt =====
-- `first_fit` of malloclab-handout/mm_blk.c.
use mathlib.Core.Path.{subst}
use cmu_ics.Prelude.{
  ℕ, zero, suc, ◌+◌, ◌-◌, ◌*◌, ◌≤◌, ◌<◌, ◌≡◌, refl, sym, ap, ◌⊎◌, inl, inr, List, [], ◌∷◌, ◌++◌,
  false, ◌&&◌, leb, ◌==◌, ==_false, if◌then◌else◌, Bool-cases, length, arith,
}
use cmu_ics.Malloc.Memory.{Memory, Heap}
use cmu_ics.Malloc.Tags.{unpack_size}
use cmu_ics.Malloc.Tiles.{Block, block, IsBlock, Tiled, total, header-size, header-alloc, end-size}
use cmu_ics.Malloc.Implicit.{fit_loop, first_fit}
use cmu_ics.Malloc.Implicit.Free.{IsHeap}

-- No free block has `req` bytes.
abbrev pub NoFit : ℕ → List Block → Type 0
NoFit req [] = Unit {0}
NoFit req (b ∷ bs) = (b.alloc ≡ 0 → b.size < req) × NoFit req bs

-- `p` is the first free block of `req` bytes or more among `bs`, which start at `start`.
pub record First (start : ℕ) (bs : List Block) (req p : ℕ) : Type 0 where
  pub front : List Block
  pub size : ℕ
  pub back : List Block
  pub parts : bs ≡ front ++ (block size 0 ∷ back)
  pub at : p ≡ start + total front
  pub roomy : req ≤ size
  pub first : NoFit req front

First-cons :
    (start : ℕ) (b : Block) (bs : List Block) (req p : ℕ)
    → (b.alloc ≡ 0 → b.size < req)
    → First (start + b.size) bs req p
    → First start (b ∷ bs) req p
First-cons start b bs req p short f = record {
  front = b ∷ f.front;
  size = f.size;
  back = f.back;
  parts = ap (λ t. b ∷ t) f.parts;
  at = omega (arith, f.at);
  roomy = f.roomy;
  first = (short, f.first);
}

-- One round, at the block `b` with `c` behind it.
fit_loop-round :
    (fuel : ℕ) (m : Memory) (p : ℕ) (b c : Block) (req : ℕ)
    → IsBlock m p b
    → IsBlock m (p + b.size) c
    → fit_loop (suc fuel) m p req
      ≡ (if leb req c.size && c.alloc == 0 then p + b.size else fit_loop fuel m (p + b.size) req)
unfolding fit_loop
fit_loop-round fuel m p b c req v w =
    rw
      (
        header-size m p b v,
        ==_false b.size 0 (omega (arith, v.roomy)),
        header-size m (p + b.size) c w,
        header-alloc m (p + b.size) c w,
      )
      refl

-- What the loop returns from the block `b` at `p` on, which it has rejected.
fit_loop-First :
    (fuel : ℕ) (m : Memory) (p : ℕ) (b : Block) (bs : List Block) (q req : ℕ)
    → IsBlock m p b
    → Tiled m (p + b.size) bs q
    → m (q - 4) ≡ 1
    → 0 < req
    → length bs + 2 ≤ fuel
    → First (p + b.size) bs req (fit_loop fuel m p req)
      ⊎ ((fit_loop fuel m p req ≡ 0) × NoFit req bs)
unfolding fit_loop
fit_loop-First zero m p b bs q req v t end pos enough = absurd (omega arith)
fit_loop-First (suc zero) m p b bs q req v t end pos enough = absurd (omega arith)
fit_loop-First (suc (suc fuel)) m p b [] q req v t end pos enough =
    let here = ==_false b.size 0 (omega (arith, v.roomy)) in
    let size : unpack_size m (p + b.size - 4) ≡ 0 =
      subst (λ t. unpack_size m (t - 4) ≡ 0) (sym t) (end-size m q end) in
    let short : leb req 0 ≡ false = ground arith in
    inr (rw (header-size m p b v, here, size, short) refl, tt)
fit_loop-First (suc fuel) m p b (c ∷ bs) q req v (w, t) end pos enough =
    let rest = fit_loop-First fuel m (p + b.size) c bs q req w t end pos (omega arith) in
    subst (λ r. First (p + b.size) (c ∷ bs) req r ⊎ ((r ≡ 0) × NoFit req (c ∷ bs)))
      (sym (fit_loop-round fuel m p b c req v w))
      (elim (Bool-cases (leb req c.size && c.alloc == 0)) [
        | inl fits ↦ rw fits (
            inl (record {
              front = [];
              size = c.size;
              back = bs;
              parts = ap (λ t. block c.size t ∷ bs) (ground arith);
              at = omega arith;
              roomy = ground arith;
              first = tt;
            }))
        | inr not_here ↦
            let short : c.alloc ≡ 0 → c.size < req = λ e. ground (arith, e) in
            rw not_here (elim rest [
              | inl f ↦
                  inl (First-cons (p + b.size) c bs req (fit_loop fuel m (p + b.size) req) short f)
              | inr (e, none_fits) ↦ inr (e, (short, none_fits))
            ])
      ])

Tiled-length :
    (m : Memory) (p : ℕ) (bs : List Block) (q : ℕ) → Tiled m p bs q → p + 8 * length bs ≤ q
Tiled-length m p [] q t = omega (arith, t)
Tiled-length m p (b ∷ bs) q (v, t) = omega (arith, v.roomy, Tiled-length m (p + b.size) bs q t)

prologue-NoFit : (req : ℕ) → (block 8 1).alloc ≡ 0 → (block 8 1).size < req
prologue-NoFit req e = absurd (omega (arith, e))

-- In a heap in order, `first_fit` for a positive size returns the first free block that is large enough,
-- or 0 when no free block is.
pub first_fit-First :
    (h : Heap) (start : ℕ) (bs : List Block) (req : ℕ)
    → IsHeap h start bs
    → 0 < req
    → First start bs req (first_fit h start req) ⊎ ((first_fit h start req ≡ 0) × NoFit req bs)
unfolding first_fit
first_fit-First h start bs req v pos =
    let (rest, e) = v.holds.guarded in
    let tiles = subst (λ t. Tiled h.mem start t h.mem_brk) e v.holds.tiles in
    let many = Tiled-length h.mem start (block 8 1 ∷ rest) h.mem_brk tiles in
    let fuel = h.mem_brk - start + 1 in
    subst
      (λ t.
        First start t req (fit_loop fuel h.mem start req)
        ⊎ ((fit_loop fuel h.mem start req ≡ 0) × NoFit req t))
      (sym e)
      (elim (fit_loop-First fuel h.mem start (block 8 1) rest h.mem_brk req tiles.0 tiles.1
        v.holds.epilogue pos (omega (arith, many))) [
          | inl f ↦ inl (
              First-cons start (block 8 1) rest req (fit_loop fuel h.mem start req)
                (prologue-NoFit req) f)
          | inr (e', none_fits) ↦ inr (e', (prologue-NoFit req, none_fits))
        ])
