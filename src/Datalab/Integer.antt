-- ===== src/Datalab/Integer.antt =====
-- The integer puzzles of datalab-handout/bits.c, operator by operator. Signed arithmetic wraps, as the
-- exercise assumes of its compiler.
use Prim.Native.Nat.{bit_and, bit_or, bit_xor}
use cmu_ics.Prelude.{ℕ}
use cmu_ics.Word.{lognot, add, shl, sar, bang}

-- `bitXor`
unfoldable pub xor_bits : ℕ → ℕ → ℕ
xor_bits x y = bit_and (lognot (bit_and (lognot x) (lognot y))) (lognot (bit_and x y))

unfoldable pub tmin : ℕ
tmin = shl 1 31

unfoldable pub is_tmax : ℕ → ℕ
is_tmax x = bit_and (bang (bit_xor (lognot (add x 1)) x)) (bang (bang (add x 1)))

abbrev pub odd_mask : ℕ
odd_mask =
    let a : ℕ = 0xa in
    let aa = bit_or a (shl a 4) in let aaaa = bit_or aa (shl aa 8) in bit_or aaaa (shl aaaa 16)

unfoldable pub all_odd_bits : ℕ → ℕ
all_odd_bits x = bang (bit_xor (bit_and x odd_mask) odd_mask)

unfoldable pub negate : ℕ → ℕ
negate x = add (lognot x) 1

unfoldable pub is_ascii_digit : ℕ → ℕ
is_ascii_digit x =
    bit_and (bang (bit_xor (sar x 4) 3)) (sar (add (bit_and x 0xf) (add (lognot 10) 1)) 31)

unfoldable pub conditional : ℕ → ℕ → ℕ → ℕ
conditional x y z =
    let mask = sar (shl (bang (bang x)) 31) 31 in bit_or (bit_and mask y) (bit_and (lognot mask) z)

unfoldable pub is_less_or_equal : ℕ → ℕ → ℕ
is_less_or_equal x y = bit_and (bang (bit_and (bang (sar x 31)) (sar y 31))) (
    bit_or (bit_or (bit_and (sar x 31) (bang (sar y 31))) (sar (add (add x (lognot y)) 1) 31))
      (bang (bit_xor x y)))

unfoldable pub logical_neg : ℕ → ℕ
logical_neg x = add (sar (bit_or (add (lognot x) 1) x) 31) 1

-- One halving of `howManyBits`: `!(!!(x >> n) ^ 1) << k`.
unfoldable pub probe : ℕ → ℕ → ℕ → ℕ
probe x n k = shl (bang (bit_xor (bang (bang (sar x n))) 1)) k

unfoldable pub fold_sign : ℕ → ℕ
fold_sign x = let sign = sar x 31 in bit_or (bit_and sign (lognot x)) (bit_and (lognot sign) x)

-- The last lines: `mask`, `result` and what is returned.
unfoldable pub add_up : ℕ → ℕ → ℕ → ℕ → ℕ → ℕ → ℕ
add_up bit_0 bit_1 bit_2 bit_4 bit_8 bit_16 =
    let mask = sar (shl (bang (bang bit_0)) 31) 31 in
    let result = add (add (add (add (add (add 1 bit_0) bit_1) bit_2) bit_4) bit_8) bit_16 in
    bit_or (bang bit_0) (bit_and mask result)

-- From `bit_16` on.
unfoldable pub search_width : ℕ → ℕ
search_width x0 =
    let bit_16 = probe x0 16 4 in
    let x1 = sar x0 bit_16 in
    let bit_8 = probe x1 8 3 in
    let x2 = sar x1 bit_8 in
    let bit_4 = probe x2 4 2 in
    let x3 = sar x2 bit_4 in
    let bit_2 = probe x3 2 1 in
    let x4 = sar x3 bit_2 in
    let bit_1 = bang (bang (sar x4 1)) in
    let bit_0 = sar x4 bit_1 in add_up bit_0 bit_1 bit_2 bit_4 bit_8 bit_16

unfoldable pub how_many_bits : ℕ → ℕ
how_many_bits x = search_width (fold_sign x)
