-- ===== src/Malloc/Driver/Advance.antt =====
-- One round of the loop of `eval_mm_valid` of malloclab-handout/mdriver.c, for an allocator with the laws.
use native.Mathlib.Decide.{ℕ_discrete}
use mathlib.Core.Path.{subst}
use cmu_ics.Prelude.{
  ℕ, zero, suc, ◌+◌, ◌-◌, ◌%◌, ◌≤◌, ◌<◌, ◌≡◌, refl, sym, ap, ◌∙◌, ◌⊎◌, inl, inr, List, ◌∷◌, ◌++◌,
  map, true, ◌&&◌, ltb, ◌==◌, ==_false, if◌then◌else◌, All, All-without, All-at, arith,
}
use cmu_ics.Malloc.Links.{Absent}
use cmu_ics.Malloc.Driver.{
  Allocator, OpType, alloc, release, realloc, TraceOp, remove_range, holds_index, Driver, remember,
  compare_and_remember, Verdict, malloc_failed, realloc_failed, eval_op,
}
use cmu_ics.Malloc.Driver.Laws.{IsLawful}
use cmu_ics.Malloc.Driver.Step.{
  Live, payload, range, Remembered, IsRunning, owned_at, removed_at, accepted, filled,
  filled-IsRunning, Remembered-kept,
}
use cmu_ics.Malloc.Driver.Legal.{Asked, LegalOp, Fair, price, indices, block_of}

module _ (A : Allocator) (L : IsLawful A) where
  holds_index-true :
      (s : A.State) (p i n : ℕ)
      → i % 256 < 128
      → ((j : ℕ) → j < n → A.get_byte s (p + j) ≡ i % 256)
      → holds_index A s p i n ≡ true
  unfolding holds_index
  holds_index-true s p i zero low bytes = refl
  holds_index-true s p i (suc n) low bytes =
      let rest = holds_index-true s p i n low (λ j less. bytes j (omega arith)) in
      let last : (ltb (i % 256) 128 && i % 256 == i % 256) ≡ true = ground (arith, low) in
      rw (rest, bytes n (omega arith), last) refl

  -- What one round of the loop may do.
  abbrev pub Advances : Driver A → TraceOp → (List ℕ → Type 0) → Type 0
  Advances d op rest =
      ((v : Verdict) × (eval_op A d op ≡ inl v)
        × Fair v
        × (L.room d.state < price L.cost op.type op.size))
      ⊎ ((d' : Driver A) × (ls : List Live) × (eval_op A d op ≡ inr d')
          × IsRunning A L d' ls
          × rest (indices ls)
          × (L.room d.state ≤ L.room d'.state + price L.cost op.type op.size))

  alloc-Advances :
      (d : Driver A) (ls : List Live) (i size : ℕ) (rest : List ℕ → Type 0)
      → IsRunning A L d ls
      → LegalOp alloc i size (indices ls) rest
      → Asked L.limit L.cost (L.room d.state) alloc size
      → Advances d (record { type = alloc; index = i; size = size }) rest
  unfolding eval_op remember
  alloc-Advances d ls i size rest v (out, (pos, small), legal) asked =
      let (p, s) = A.mm_malloc d.state size in
      let (full, left) = L.malloc-room d.state (map payload ls) size v.owned pos small asked in
      elim (ℕ_discrete p 0) [
        | yes none_left ↦ inl (malloc_failed, rw none_left refl, tt, full none_left)
        | no found ↦
            let (o, kept) =
              L.malloc-law d.state (map payload ls) size v.owned pos small asked found in
            inr (
              filled A L d s (record { lo = p; hi = p + size - 1 } ∷ map range ls) i p size,
              record { index = i; ptr = p; size = size } ∷ ls,
              rw (==_false p 0 found, v.listed, accepted A L s ls p size o) refl,
              filled-IsRunning A L d s ls i p size o kept v.remembered out,
              legal,
              omega (arith, left, L.memset-room s p size (i % 256)),
            )
      ]

  -- A block in use, as the driver knows it.
  pub record Used (d : Driver A) (i : ℕ) (left : List ℕ) : Type 0 where
    pub front : List Live
    pub found : Live
    pub back : List Live
    pub at : d.blocks i ≡ found.ptr
    pub sized : d.block_sizes i ≡ found.size
    pub bytes : (j : ℕ) → j < found.size → A.get_byte d.state (found.ptr + j) ≡ i % 256
    pub owned : L.Owned d.state (payload found ∷ map payload (front ++ back))
    pub removed : remove_range d.ranges found.ptr ≡ map range (front ++ back)
    pub others : indices (front ++ back) ≡ left
    pub rest : All (Remembered A L d) (front ++ back)

  pub block-InUse :
      (d : Driver A) (ls : List Live) (xs : List ℕ) (i : ℕ) (ys : List ℕ)
      → IsRunning A L d ls
      → indices ls ≡ xs ++ (i ∷ ys)
      → Used d i (xs ++ ys)
  block-InUse d ls xs i ys v e =
      let (front, l, back, parts, same, others) = block_of ls xs i ys e in
      let all = subst (All (Remembered A L d)) parts v.remembered in
      let (at, sized, bytes) = All-at (Remembered A L d) front l back all in
      let o = subst (λ t. L.Owned d.state (map payload t)) parts v.owned in
      record {
        front = front;
        found = l;
        back = back;
        at = ap d.blocks (sym same) ∙ at;
        sized = ap d.block_sizes (sym same) ∙ sized;
        bytes = λ j less. bytes j less ∙ ap (λ t. t % 256) same;
        owned = owned_at A L d.state front l back o;
        removed = removed_at A L d front l back o (v.listed ∙ ap (map range) parts);
        others = others;
        rest = All-without (Remembered A L d) front l back all;
      }

  release-Advances :
      (d : Driver A) (ls : List Live) (i size : ℕ) (rest : List ℕ → Type 0)
      → IsRunning A L d ls
      → LegalOp release i size (indices ls) rest
      → Advances d (record { type = release; index = i; size = size }) rest
  unfolding eval_op
  release-Advances d ls i size rest v (xs, ys, e, out, legal) =
      let b = block-InUse d ls xs i ys v e in
      let (o, kept) =
        L.free-law d.state (map payload (b.front ++ b.back)) b.found.ptr b.found.size b.owned in
      let d' : Driver A = record d {
        state = A.mm_free d.state b.found.ptr;
        ranges = map range (b.front ++ b.back);
      } in
      inr (
        d',
        b.front ++ b.back,
        rw (b.at, b.removed) refl,
        record {
          owned = o;
          listed = refl;
          remembered =
              Remembered-kept A L d d' i (b.front ++ b.back) (λ j ne. (refl, refl))
                (subst (Absent i) (sym b.others) out) kept b.rest;
        },
        subst rest (sym b.others) legal,
        omega (
          arith,
          L.free-room d.state (map payload (b.front ++ b.back)) b.found.ptr b.found.size b.owned,
        ),
      )

  realloc-Advances :
      (d : Driver A) (ls : List Live) (i size : ℕ) (rest : List ℕ → Type 0)
      → IsRunning A L d ls
      → LegalOp realloc i size (indices ls) rest
      → Asked L.limit L.cost (L.room d.state) realloc size
      → Advances d (record { type = realloc; index = i; size = size }) rest
  unfolding eval_op compare_and_remember remember
  realloc-Advances d ls i size rest v ((pos, small), low, (xs, ys, e, out, legal)) asked =
      let b = block-InUse d ls xs i ys v e in
      let (q, s) = A.mm_realloc d.state b.found.ptr size in
      let ls' = b.front ++ b.back in
      let out' = subst (Absent i) (sym b.others) out in
      let (full, left) =
        L.realloc-room d.state (map payload ls') b.found.ptr b.found.size size b.owned pos small
          asked in
      elim (ℕ_discrete q 0) [
        | yes none_left ↦ inl (realloc_failed, rw (b.at, none_left) refl, tt, full none_left)
        | no found ↦
            let (o, kept, copied) =
              L.realloc-law d.state (map payload ls') b.found.ptr b.found.size size b.owned pos
                small asked found in
            let same =
              holds_index-true s q i (if ltb size b.found.size then size else b.found.size) low
                (λ j less.
                  copied j (ground (arith, less)) (ground (arith, less))
                  ∙ b.bytes j (ground (arith, less))) in
            inr (
              filled A L d s (record { lo = q; hi = q + size - 1 } ∷ map range ls') i q size,
              record { index = i; ptr = q; size = size } ∷ ls',
              rw (b.at, ==_false q 0 found, b.removed, accepted A L s ls' q size o, b.sized, same)
                  refl,
              filled-IsRunning A L d s ls' i q size o kept b.rest out',
              subst (λ t. rest (i ∷ t)) (sym b.others) legal,
              omega (arith, left, L.memset-room s q size (i % 256)),
            )
      ]

  pub op-Advances :
      (d : Driver A) (ls : List Live) (op : TraceOp) (rest : List ℕ → Type 0)
      → IsRunning A L d ls
      → LegalOp op.type op.index op.size (indices ls) rest
      → Asked L.limit L.cost (L.room d.state) op.type op.size
      → Advances d op rest
  op-Advances d ls op rest v legal asked = by_type op.type legal asked
    where
      by_type :
          (t : OpType)
          → LegalOp t op.index op.size (indices ls) rest
          → Asked L.limit L.cost (L.room d.state) t op.size
          → Advances d (record { type = t; index = op.index; size = op.size }) rest
      by_type alloc legal asked = alloc-Advances d ls op.index op.size rest v legal asked
      by_type release legal asked = release-Advances d ls op.index op.size rest v legal
      by_type realloc legal asked = realloc-Advances d ls op.index op.size rest v legal asked
