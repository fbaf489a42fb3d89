-- ===== src/Datalab/Compare.antt =====
-- The comparisons of datalab-handout/bits.c against the functions of datalab-handout/tests.c.
use Prim.Native.Nat.{bit_and, bit_or}
use cmu_ics.Prelude.{
  ℕ, ◌-◌, ◌<◌, ◌≡◌, refl, Bool, true, false, not, ◌&&◌, ◌||◌, if◌then◌else◌, arith,
}
use cmu_ics.Word.{word, lognot, add, sar, bang}
use cmu_ics.Word.Masks.{and-mask}
use cmu_ics.Datalab.Agree.{bang-xor, sar_31}
use cmu_ics.Datalab.Integer.{is_ascii_digit, is_less_or_equal}
use cmu_ics.Datalab.Reference.{of_bool, test_is_ascii_digit, test_is_less_or_equal}

-- What `>> 31` makes of a word, by whether it is not negative.
abbrev sign_mask : Bool → ℕ
sign_mask b = if b then 0 else word - 1

and-sign_mask : (p b : Bool) → bit_and (of_bool p) (sign_mask b) ≡ of_bool (p && not b)
and-sign_mask true true = refl
and-sign_mask true false = refl
and-sign_mask false true = refl
and-sign_mask false false = refl

-- `is_ascii_digit` is 1 exactly for the codes from 0x30 to 0x39 of a signed word, and 0 otherwise, as
-- its test function is.
pub is_ascii_digit-eq-test : (x : ℕ) → x < word → is_ascii_digit x ≡ test_is_ascii_digit x
unfolding sar is_ascii_digit test_is_ascii_digit
is_ascii_digit-eq-test x h =
    let d = add (bit_and x 0xf) (add (lognot 10) 1) in
    let small : sar x 4 < word = ground arith in
    rw (bang-xor (sar x 4) 3 small (omega arith), sar_31 d (omega arith), and-sign_mask)
      (ground (arith, and-mask 32 4 x h))

-- The whole expression, by the four facts that it depends on.
combine :
    (x_pos y_pos d_pos same : Bool)
    → bit_and (bang (bit_and (bang (sign_mask x_pos)) (sign_mask y_pos))) (
        bit_or
          (bit_or (bit_and (sign_mask x_pos) (bang (sign_mask y_pos))) (sign_mask d_pos))
          (of_bool same))
      ≡ of_bool (not (x_pos && not y_pos) && ((not x_pos && y_pos) || (not d_pos || same)))
combine true true true true = refl
combine true true true false = refl
combine true true false true = refl
combine true true false false = refl
combine true false true true = refl
combine true false true false = refl
combine true false false true = refl
combine true false false false = refl
combine false true true true = refl
combine false true true false = refl
combine false true false true = refl
combine false true false false = refl
combine false false true true = refl
combine false false true false = refl
combine false false false true = refl
combine false false false false = refl

-- `is_less_or_equal` compares two words as signed numbers, the cases where their difference
-- overflows included.
pub is_less_or_equal-eq-test :
    (x y : ℕ) → x < word → y < word → is_less_or_equal x y ≡ test_is_less_or_equal x y
unfolding is_less_or_equal test_is_less_or_equal
is_less_or_equal-eq-test x y hx hy =
    let d = add (add x (lognot y)) 1 in
    rw (sar_31 x hx, sar_31 y hy, sar_31 d (omega arith), bang-xor x y hx hy, combine)
      (ground arith)
