-- ===== src/Datalab/Agree.antt =====
-- Puzzles of datalab-handout/bits.c against the functions of datalab-handout/tests.c.
use Prim.Native.Nat.{bit_and, bit_or, bit_xor}
use cmu_ics.Prelude.{
  ℕ, ◌-◌, ◌<◌, ◌≡◌, refl, inl, inr, Bool, true, false, not, ◌&&◌, ltb, ◌==◌, ==_true, if◌then◌else◌,
  Bool-cases, arith,
}
use native.Mathlib.Decide.{ℕ_discrete}
use cmu_ics.Word.{word, half, lognot, add, shl, sar, bang}
use cmu_ics.Word.Masks.{
  zero-and, zero-or, or-zero, ones-and, or-lt, le-or, xor-eq_zero, xor_self, xor_by_and,
}
use cmu_ics.Datalab.Integer.{xor_bits, is_tmax, negate, conditional, logical_neg}
use cmu_ics.Datalab.Reference.{
  test_bit_xor, test_is_tmax, test_negate, test_conditional, test_logical_neg, of_bool,
}

-- `xor_bits`, of `&` and `~` alone, is the exclusive or of two words.
pub xor_bits-eq-test : (x y : ℕ) → x < word → y < word → xor_bits x y ≡ test_bit_xor x y
unfolding xor_bits test_bit_xor
xor_bits-eq-test x y hx hy = xor_by_and 32 x y hx hy

-- `!(a ^ b)` is the test `a == b`.
pub bang-xor : (a b : ℕ) → a < word → b < word → bang (bit_xor a b) ≡ of_bool (a == b)
bang-xor a b ha hb = elim (ℕ_discrete a b) [
  | yes e ↦ rw e (rw (xor_self 32 b hb, ==_true b) refl)
  | no ne ↦ ground (arith, xor-eq_zero 32 a b ha hb)
]

pub and_of_bool : (p q : Bool) → bit_and (of_bool p) (of_bool q) ≡ of_bool (p && q)
and_of_bool true true = refl
and_of_bool true false = refl
and_of_bool false true = refl
and_of_bool false false = refl

pub bang-bang : (x : ℕ) → bang (bang x) ≡ of_bool (not (x == 0))
bang-bang x = ground arith

-- `is_tmax` tells the largest `int` from every other word.
pub is_tmax-eq-test : (x : ℕ) → x < word → is_tmax x ≡ test_is_tmax x
unfolding is_tmax test_is_tmax
is_tmax-eq-test x h =
    rw (bang-xor (lognot (add x 1)) x (omega arith) h, bang-bang (add x 1), and_of_bool)
      (ground arith)

-- `negate` is the negation of every word, wrapped around at the smallest `int`.
pub negate-eq-test : (x : ℕ) → x < word → negate x ≡ test_negate x
unfolding negate test_negate
negate-eq-test x h = omega arith

-- The masks of all zeros or all ones that `!!x << 31 >> 31` makes.
pub mask_of : (b : Bool) → sar (shl (of_bool b) 31) 31 ≡ (if b then word - 1 else 0)
unfolding sar
mask_of true = refl
mask_of false = refl

-- `conditional x y z` is `y` for every `x` but 0, and `z` for 0.
pub conditional-eq-test :
    (x y z : ℕ) → y < word → z < word → conditional x y z ≡ test_conditional x y z
unfolding conditional test_conditional
conditional-eq-test x y z hy hz = elim (Bool-cases (x == 0)) [
  | inl e ↦ rw (bang-bang x, mask_of, e) (ground (arith, zero-and y, ones-and 32 z hz, zero-or z))
  | inr e ↦
      rw (bang-bang x, mask_of, e) (ground (arith, zero-and z, ones-and 32 y hy, or-zero 32 y hy))
]

pub sign_or : (a b : ℕ) → a < word → b < word → ltb (bit_or a b) half ≡ (ltb a half && ltb b half)
sign_or a b ha hb = ground (arith, le-or 32 a b ha hb, or-lt 31 a b)

pub sar_31 : (x : ℕ) → x < word → sar x 31 ≡ (if ltb x half then 0 else word - 1)
unfolding sar
sar_31 x h = ground arith

-- `logical_neg` is 1 for 0 and 0 for every other word.
pub logical_neg-eq-test : (x : ℕ) → x < word → logical_neg x ≡ test_logical_neg x
unfolding logical_neg test_logical_neg
logical_neg-eq-test x h =
    rw
      (
        sar_31 (bit_or (add (lognot x) 1) x) (or-lt 32 (add (lognot x) 1) x (omega arith) h),
        sign_or (add (lognot x) 1) x (omega arith) h,
      )
      (ground arith)
