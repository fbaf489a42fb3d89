-- ===== src/Word/Digits.antt =====
-- The bit operations one binary digit at a time.
use Prim.Native.Nat.{
  bit_and, bit_or, bit_xor, min, max, digits, bitwise, bit_and-bitwise, bit_or-bitwise,
  bit_xor-bitwise, differ,
}
use cmu_ics.Prelude.{ℕ, zero, suc, ◌+◌, ◌*◌, ◌/◌, ◌%◌, ◌≤◌, ◌<◌, ◌≡◌, refl, ap, arith}

-- The fuel of the library's recursion on digits does not matter once it reaches the first number.
module _ (rest : ℕ → ℕ) (op : ℕ → ℕ → ℕ) where
  digits-fuel :
      (x y : ℕ) {fuel more : ℕ}
      → x ≤ more
      → x ≤ fuel
      → digits rest op fuel x y ≡ digits rest op more x y
  digits-fuel zero y {fuel = zero} {more = zero} _ _ = refl
  digits-fuel zero y {fuel = zero} {more = suc more} _ _ = refl
  digits-fuel zero y {fuel = suc fuel} {more = zero} _ _ = refl
  digits-fuel zero y {fuel = suc fuel} {more = suc more} _ _ = refl
  digits-fuel (suc x) y {fuel = zero} _ low = absurd (omega arith)
  digits-fuel (suc x) y {fuel = suc fuel} {more = zero} low _ = absurd (omega arith)
  digits-fuel (suc x) y {fuel = suc fuel} {more = suc more} h h' =
      let half = suc x / 2 in
      let left : half ≤ more = omega arith in
      let right : half ≤ fuel = omega arith in
      ap (λ t. t * 2 + op (suc x % 2) (y % 2)) (digits-fuel half (y / 2) left right)

  lowest :
      (x y : ℕ)
      → bitwise rest op (suc x) y ≡ bitwise rest op (suc x / 2) (y / 2) * 2 + op (suc x % 2) (y % 2)
  lowest x y =
      let half = suc x / 2 in
      let left : half ≤ half = omega arith in
      let right : half ≤ x = omega arith in
      ap (λ t. t * 2 + op (suc x % 2) (y % 2)) (digits-fuel half (y / 2) left right)

sum_differ : (x y : ℕ) → x < 2 → y < 2 → differ x y ≡ (x + y) % 2
sum_differ zero y _ h = omega arith
sum_differ (suc zero) zero _ h = refl
sum_differ (suc zero) (suc zero) _ h = refl
sum_differ (suc zero) (suc (suc y)) _ h = absurd (omega arith)
sum_differ (suc (suc x)) y h _ = absurd (omega arith)

-- Halves and last digits, as the next lemmas write them.
module _ (x y : ℕ) where
  abbrev pub low_and : ℕ
  low_and = min (x % 2) (y % 2)

  abbrev pub low_or : ℕ
  low_or = max (x % 2) (y % 2)

pub and_digit : (x y : ℕ) → bit_and x y ≡ low_and x y + 2 * bit_and (x / 2) (y / 2)
and_digit zero y = rw (bit_and-bitwise 0 y, bit_and-bitwise 0 (y / 2)) (omega arith)
and_digit (suc x) y =
    let step = lowest (λ t. 0) min x y in
    rw (bit_and-bitwise (suc x) y, bit_and-bitwise (suc x / 2) (y / 2)) (omega (arith, step))

pub or_digit : (x y : ℕ) → bit_or x y ≡ low_or x y + 2 * bit_or (x / 2) (y / 2)
or_digit zero y = rw (bit_or-bitwise 0 y, bit_or-bitwise 0 (y / 2)) (omega arith)
or_digit (suc x) y =
    let step = lowest (λ t. t) max x y in
    rw (bit_or-bitwise (suc x) y, bit_or-bitwise (suc x / 2) (y / 2)) (omega (arith, step))

-- The digits of `x ^ y` are the sums of those of `x` and `y`, without carry.
pub xor_digit : (x y : ℕ) → bit_xor x y ≡ (x % 2 + y % 2) % 2 + 2 * bit_xor (x / 2) (y / 2)
xor_digit zero y = rw (bit_xor-bitwise 0 y, bit_xor-bitwise 0 (y / 2)) (omega arith)
xor_digit (suc x) y =
    let step = lowest (λ t. t) differ x y in
    let low = sum_differ (suc x % 2) (y % 2) (omega arith) (omega arith) in
    rw (bit_xor-bitwise (suc x) y, bit_xor-bitwise (suc x / 2) (y / 2)) (omega (arith, step, low))
