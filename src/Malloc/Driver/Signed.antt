-- ===== src/Malloc/Driver/Signed.antt =====
-- The comparison of contents in malloclab-handout/mdriver.c, whose bytes have a sign.
use native.Mathlib.Decide.{ℕ_discrete}
use cmu_ics.Prelude.{
  ◌<◌, ℕ, suc, ◌+◌, ◌-◌, ◌%◌, ◌≤◌, ◌≡◌, refl, ◌⊎◌, inl, inr, List, ◌∷◌, ◌++◌, map, false, ◌&&◌, ltb,
  ◌==◌, ==_false, if◌then◌else◌, arith,
}
use cmu_ics.Malloc.Driver.{
  Allocator, realloc, holds_index, Driver, realloc_failed, data_lost, eval_op, compare_and_remember,
}
use cmu_ics.Malloc.Driver.Laws.{IsLawful}
use cmu_ics.Malloc.Driver.Step.{Live, payload, IsRunning, accepted}
use cmu_ics.Malloc.Driver.Legal.{Sized, indices}
use cmu_ics.Malloc.Driver.Advance.{block-InUse}

module _ (A : Allocator) where
  -- No byte is equal to an index whose low byte is 128 or more.
  holds_index-false :
      (s : A.State) (p i n : ℕ) → 128 ≤ i % 256 → holds_index A s p i (suc n) ≡ false
  unfolding holds_index
  holds_index-false s p i n high =
      let b = A.get_byte s (p + n) in
      let last : (ltb b 128 && b == i % 256) ≡ false = ground (arith, high) in ground (arith, last)

  -- `eval_mm_valid` accuses every allocator with the laws of losing data when it reallocates a block whose
  -- index has a low byte of 128 or more, to a size that the laws speak of, unless `mm_realloc` fails: a `char` is never equal to 128 or more.
  pub eval_op-data_lost :
      (L : IsLawful A) (d : Driver A) (ls : List Live) (xs : List ℕ) (i : ℕ) (ys : List ℕ)
      (size : ℕ)
      → IsRunning A L d ls
      → indices ls ≡ xs ++ (i ∷ ys)
      → 128 ≤ i % 256
      → Sized size
      → (size + 15 < L.limit) ⊎ (L.cost size ≤ L.room d.state)
      → let r = eval_op A d (record { type = realloc; index = i; size = size }) in
        (r ≡ inl realloc_failed) ⊎ (r ≡ inl data_lost)
  unfolding eval_op compare_and_remember
  eval_op-data_lost L d ls xs i ys size v e high (pos, small) asked =
      let b = block-InUse A L d ls xs i ys v e in
      let (q, s) = A.mm_realloc d.state b.found.ptr size in
      let ls' = b.front ++ b.back in
      let (aligned, low, top, some_bytes, short, clear) =
        L.placed d.state b.found.ptr b.found.size (map payload ls') b.owned in
      let n = if ltb size b.found.size then size else b.found.size in
      let split : n ≡ suc (n - 1) = ground (arith, pos, some_bytes) in
      let lost : holds_index A s q i n ≡ false = rw split (holds_index-false s q i (n - 1) high) in
      elim (ℕ_discrete q 0) [
        | yes none_left ↦ inl (rw (b.at, none_left) refl)
        | no found ↦
            let (o, kept, copied) =
              L.realloc-law d.state (map payload ls') b.found.ptr b.found.size size b.owned pos
                small asked found in
            inr (
              rw (b.at, ==_false q 0 found, b.removed, accepted A L s ls' q size o, b.sized, lost)
                refl)
      ]
