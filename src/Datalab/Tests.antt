-- ===== src/Datalab/Tests.antt =====
-- Runs of datalab-handout/bits.c on single words, and the theorems at them.
use cmu_ics.Prelude.{◌-◌, ◌≤◌, ◌<◌, ◌≡◌, refl, arith}
use cmu_ics.Word.{word, half}
use cmu_ics.Datalab.Integer.{all_odd_bits, negate, how_many_bits, tmin}
use cmu_ics.Datalab.Float.{float_float2int}
use cmu_ics.Datalab.Reference.{test_tmin, test_all_odd_bits, test_how_many_bits, odd_loop}
use cmu_ics.Datalab.Width.{how_many_bits-eq-test}
use cmu_ics.Datalab.Value.{ex}
use cmu_ics.Datalab.Truncate.{float_float2int-truncates}

tmin-eq-test : tmin ≡ test_tmin
unfolding tmin
tmin-eq-test = refl

odd_bits_set : all_odd_bits 0xfffffffe ≡ 1
unfolding all_odd_bits
odd_bits_set = refl

odd_bits_missing : (all_odd_bits 0xfffffffd ≡ 0) × (test_all_odd_bits 0xfffffffd ≡ 0)
unfolding all_odd_bits test_all_odd_bits odd_loop
odd_bits_missing = (refl, refl)

negate_one : negate 1 ≡ 0xffffffff
unfolding negate
negate_one = refl

how_many_bits-eq-test_example : how_many_bits 298 ≡ test_how_many_bits 298
how_many_bits-eq-test_example = how_many_bits-eq-test 298 (omega arith)

-- -5.25
float_float2int-truncates_example :
    (ex 0xc0a80000 < 127 → float_float2int 0xc0a80000 ≡ 0)
    × (127 ≤ ex 0xc0a80000 → ex 0xc0a80000 < 158 → float_float2int 0xc0a80000 ≡ word - 5)
    × (158 < ex 0xc0a80000 → float_float2int 0xc0a80000 ≡ half)
float_float2int-truncates_example = float_float2int-truncates 0xc0a80000 (omega arith)

-- 2 ^ 31 + 256 is above the largest `int`, and what comes back is neither its value nor 0x80000000.
float2int_missed : float_float2int 0x4f000001 ≡ 0x80000100
unfolding float_float2int
float2int_missed = refl
