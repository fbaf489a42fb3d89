-- ===== src/Datalab/Reference.antt =====
-- The functions of datalab-handout/tests.c that say what the integer puzzles should return.
use Prim.Native.Nat.{bit_and, bit_xor}
use cmu_ics.Prelude.{
  ℕ, zero, suc, ◌+◌, ◌-◌, ◌/◌, ◌%◌, ◌^◌, Bool, true, false, not, ◌&&◌, ltb, ◌==◌, if◌then◌else◌,
}
use cmu_ics.Prelude.Int.{ℤ, pos, negsuc, ltb_ℤ}
use cmu_ics.Word.{word, half, bang}

-- The `int` that a pattern stands for.
abbrev pub signed : ℕ → ℤ
signed x = if ltb x half then pos x else negsuc (word - 1 - x)

abbrev pub of_bool : Bool → ℕ
of_bool true = 1
of_bool false = 0

abbrev pub le_signed : ℤ → ℤ → Bool
le_signed a b = not (ltb_ℤ b a)

unfoldable pub test_bit_xor : ℕ → ℕ → ℕ
test_bit_xor x y = bit_xor x y

abbrev pub test_tmin : ℕ
test_tmin = 0x80000000

unfoldable pub test_is_tmax : ℕ → ℕ
test_is_tmax x = of_bool (x == 0x7fffffff)

-- The loop from `i` on, `rounds` rounds of it.
unfoldable pub odd_loop : ℕ → ℕ → ℕ → ℕ
odd_loop zero i x = 1
odd_loop (suc rounds) i x =
    let rest = odd_loop rounds (i + 2) x in if bit_and x (2 ^ i) == 0 then 0 else rest

unfoldable pub test_all_odd_bits : ℕ → ℕ
unfolding odd_loop
test_all_odd_bits x = odd_loop 16 1 x

unfoldable pub test_negate : ℕ → ℕ
test_negate x = (word - x) % word

unfoldable pub test_is_ascii_digit : ℕ → ℕ
test_is_ascii_digit x = of_bool (le_signed (pos 0x30) (signed x) && le_signed (signed x) (pos 0x39))

unfoldable pub test_conditional : ℕ → ℕ → ℕ → ℕ
test_conditional x y z = if x == 0 then z else y

unfoldable pub test_is_less_or_equal : ℕ → ℕ → ℕ
test_is_less_or_equal x y = of_bool (le_signed (signed x) (signed y))

unfoldable pub test_logical_neg : ℕ → ℕ
test_logical_neg x = bang x

-- `for (cnt = 0; a; a >>= 1, cnt++);` with a round of fuel for each bit of the word.
unfoldable pub count_loop : ℕ → ℕ → ℕ → ℕ
count_loop zero a cnt = cnt
count_loop (suc fuel) a cnt =
    let rest = count_loop fuel (a / 2) (cnt + 1) in if a == 0 then cnt else rest

unfoldable pub test_how_many_bits : ℕ → ℕ
unfolding count_loop
test_how_many_bits x = count_loop 32 (if ltb x half then x else word - 1 - x) 0 + 1
