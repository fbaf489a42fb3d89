-- ===== src/Word.antt =====
-- 32-bit machine words: a C `int` or `unsigned` is its bit pattern, a number below 2 ^ 32. Used for
-- datalab-handout/bits.c and malloclab-handout/mm.c.
pub mod Digits
pub mod Masks
use Prim.Native.Nat.{bit_and, bit_or, bit_xor}
use cmu_ics.Prelude.{ℕ, ◌+◌, ◌-◌, ◌*◌, ◌/◌, ◌%◌, ◌^◌, ltb, ◌==◌, if◌then◌else◌}

abbrev pub word : ℕ
word = 2 ^ 32

-- `INT_MAX + 1`, the weight of the sign bit.
abbrev pub half : ℕ
half = 2 ^ 31

-- `~x`
abbrev pub lognot : ℕ → ℕ
lognot x = word - 1 - x

-- `a + b`
abbrev pub add : ℕ → ℕ → ℕ
add a b = (a + b) % word

-- `x << k`
abbrev pub shl : ℕ → ℕ → ℕ
shl x k = x * 2 ^ k % word

-- `x >> k` of an `unsigned`.
abbrev pub shr : ℕ → ℕ → ℕ
shr x k = x / 2 ^ k

-- `x >> k` of an `int`: copies of the sign bit come in.
unfoldable pub sar : ℕ → ℕ → ℕ
sar x k = if ltb x half then x / 2 ^ k else lognot (lognot x / 2 ^ k)

-- `!x`
abbrev pub bang : ℕ → ℕ
bang x = if x == 0 then 1 else 0
