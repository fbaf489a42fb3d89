-- ===== src/Datalab/Float.antt =====
-- The floating-point puzzles of datalab-handout/bits.c, over the bit patterns of single-precision
-- numbers. A shift by a variable amount is below the width wherever it is made.
use Prim.Native.Nat.{bit_and, bit_or}
use cmu_ics.Prelude.{ℕ, ◌+◌, ◌-◌, ◌*◌, ◌%◌, Bool, ◌&&◌, ◌||◌, ltb, leb, ◌==◌, if◌then◌else◌}
use cmu_ics.Word.{word, half, lognot, add, shl, shr}

abbrev pub sign_of : ℕ → ℕ
sign_of uf = bit_and (shr uf 31) 1

abbrev pub exp_of : ℕ → ℕ
exp_of uf = bit_and (shr uf 23) 0xff

abbrev pub frac_of : ℕ → ℕ
frac_of uf = bit_and uf 0x7fffff

unfoldable pub float_scale2 : ℕ → ℕ
float_scale2 uf =
    let sign = sign_of uf in
    let exp = exp_of uf in
    let frac = frac_of uf in
    if exp == 0 && frac == 0
    then uf
    else if exp == 0xff
    then uf
    else if exp == 0
    then bit_or (shl sign 31) (shl frac 1)
    else bit_or (bit_or (shl sign 31) (shl (exp + 1) 23)) frac

-- `exp - 127` is negative below 127, so the tests on `E` are written on `exp`.
unfoldable pub float_float2int : ℕ → ℕ
float_float2int uf =
    let sign = sign_of uf in
    let exp = exp_of uf in
    let frac = frac_of uf in
    if exp == 0xff
    then shl 1 31
    else if exp == 0 && frac == 0
    then 0
    else if exp == 0
    then 0
    else if ltb (31 + 127) exp
    then shl 1 31
    else if ltb exp 127
    then 0
    else let full = bit_or frac (shl 1 23) in
      let e = exp - 127 in
      let moved = if leb 23 e then shl full (e - 23) else shr full (23 - e) in
      if sign == 0 then moved else add (lognot moved) 1

-- `x < -n` for a small positive `n`: a negative pattern below that of `-n`.
abbrev pub below_neg : ℕ → ℕ → Bool
below_neg x n = leb half x && ltb x (word - n)

-- `x < n` for a small positive `n`.
abbrev pub below : ℕ → ℕ → Bool
below x n = leb half x || ltb x n

unfoldable pub float_power2 : ℕ → ℕ
float_power2 x =
    if below_neg x 149
    then 0
    else if below_neg x 126
    then shl 1 ((23 + word - ((2 * word - x - 126) % word)) % word)
    else if below x 128
    then shl (add x 127) 23
    else shl 0xff 23
