-- ===== src/Word/Masks.antt =====
-- The bit operations at masks and at disjoint fields, at every width.
use Prim.Native.Nat.{bit_and, bit_or, bit_xor, min, bit_and-bitwise, bit_or-bitwise}
use native.Mathlib.Nat.{pow-suc, one-le-pow, div-add-mod', mod-lt}
use mathlib.Core.Path.{ap₂}
use native.Mathlib.Nat.{add-zero, add-suc, mul_assoc}
use cmu_ics.Prelude.{
  ℕ, zero, suc, ◌+◌, ◌-◌, ◌*◌, ◌/◌, ◌%◌, ◌^◌, ◌≤◌, ◌<◌, ◌≡◌, refl, sym, ap, ◌∙◌, arith,
}
use cmu_ics.Word.Digits.{and_digit, or_digit, xor_digit}

-- `k` ones.
abbrev pub ones : ℕ → ℕ
ones k = 2 ^ k - 1

half_fits : (k x : ℕ) → x < 2 ^ suc k → x / 2 < 2 ^ k
half_fits k x h = omega (arith, pow-suc 2 k)

ones_half : (k : ℕ) → (ones (suc k) / 2 ≡ ones k) × (ones (suc k) % 2 ≡ 1)
ones_half k = omega (arith, pow-suc 2 k, one-le-pow k 2)

pub zero-and : (b : ℕ) → bit_and 0 b ≡ 0
zero-and b = bit_and-bitwise 0 b

pub zero-or : (b : ℕ) → bit_or 0 b ≡ b
zero-or b = bit_or-bitwise 0 b

pub and-zero : (k a : ℕ) → a < 2 ^ k → bit_and a 0 ≡ 0
and-zero zero zero h = refl
and-zero zero (suc a) h = absurd (omega arith)
and-zero (suc k) a h = omega (arith, and_digit a 0, and-zero k (a / 2) (half_fits k a h))

pub or-zero : (k a : ℕ) → a < 2 ^ k → bit_or a 0 ≡ a
or-zero zero zero h = refl
or-zero zero (suc a) h = absurd (omega arith)
or-zero (suc k) a h = omega (arith, or_digit a 0, or-zero k (a / 2) (half_fits k a h))

pub ones-and : (k x : ℕ) → x < 2 ^ k → bit_and (ones k) x ≡ x
ones-and zero x h = omega (arith, zero-and x)
ones-and (suc k) x h =
    ground (arith, and_digit (ones (suc k)) x, ones_half k, ones-and k (x / 2) (half_fits k x h))

pub and-ones : (k x : ℕ) → x < 2 ^ k → bit_and x (ones k) ≡ x
and-ones zero zero h = refl
and-ones zero (suc x) h = absurd (omega arith)
and-ones (suc k) x h =
    ground (arith, and_digit x (ones (suc k)), ones_half k, and-ones k (x / 2) (half_fits k x h))

double : (width high : ℕ) → high * 2 ^ width * 2 ≡ high * 2 ^ suc width
double width high =
    sym (ap (λ (t : ℕ). high * t) (pow-suc 2 width) ∙ sym (mul_assoc high (2 ^ width) 2))

and-fields :
    (n k q r : ℕ) → q * 2 ^ k + r < 2 ^ n → r < 2 ^ k → bit_and (q * 2 ^ k + r) (ones k) ≡ r
and-fields n zero q r h fits = omega (arith, and-zero n (q * 1 + r) h)
and-fields zero (suc k) q r h fits =
    let e : q * 2 ^ suc k + r ≡ 0 = omega arith in rw e (zero-and (ones (suc k)) ∙ omega arith)
and-fields (suc n) (suc k) q r h fits = ground (
  arith,
  and_digit (q * 2 ^ suc k + r) (ones (suc k)),
  ones_half k,
  double k q,
  and-fields n k q (r / 2) (omega (arith, double k q, pow-suc 2 n)) (half_fits k r fits),
)

-- A mask of `k` ones takes the remainder.
pub and-mask : (n k x : ℕ) → x < 2 ^ n → bit_and x (ones k) ≡ x % 2 ^ k
and-mask n k x h =
    let e : x / 2 ^ k * 2 ^ k + x % 2 ^ k ≡ x = div-add-mod' x (2 ^ k) in
    ap (λ t. bit_and t (ones k)) (sym e)
    ∙ and-fields n k (x / 2 ^ k) (x % 2 ^ k) (omega arith) (mod-lt x (one-le-pow k 2 (omega arith)))

-- A field above `k` bits and one within them.
pub or-fields : (n k q r : ℕ) → q < 2 ^ n → r < 2 ^ k → bit_or (q * 2 ^ k) r ≡ q * 2 ^ k + r
or-fields n zero q zero h fits = omega (arith, or-zero n (q * 1) (omega arith))
or-fields n zero q (suc r) h fits = absurd (omega arith)
or-fields n (suc k) q r h fits =
    ground (
      arith,
      or_digit (q * 2 ^ suc k) r,
      double k q,
      or-fields n k q (r / 2) h (half_fits k r fits),
    )

pub or-lt : (k a b : ℕ) → a < 2 ^ k → b < 2 ^ k → bit_or a b < 2 ^ k
or-lt zero zero zero h h' = omega arith
or-lt zero zero (suc b) h h' = absurd (omega arith)
or-lt zero (suc a) b h h' = absurd (omega arith)
or-lt (suc k) a b h h' =
    omega (
      arith,
      or_digit a b,
      pow-suc 2 k,
      or-lt k (a / 2) (b / 2) (half_fits k a h) (half_fits k b h'),
    )

pub le-or : (k a b : ℕ) → a < 2 ^ k → b < 2 ^ k → (a ≤ bit_or a b) × (b ≤ bit_or a b)
le-or zero zero zero h h' = omega arith
le-or zero zero (suc b) h h' = absurd (omega arith)
le-or zero (suc a) b h h' = absurd (omega arith)
le-or (suc k) a b h h' =
    omega (arith, or_digit a b, le-or k (a / 2) (b / 2) (half_fits k a h) (half_fits k b h'))

pub xor-eq_zero : (k a b : ℕ) → a < 2 ^ k → b < 2 ^ k → bit_xor a b ≡ 0 → a ≡ b
xor-eq_zero zero a b h h' e = omega arith
xor-eq_zero (suc k) a b h h' e = omega (
  arith,
  xor_digit a b,
  xor-eq_zero k (a / 2) (b / 2) (half_fits k a h) (half_fits k b h') (omega (arith, xor_digit a b)),
)

pub xor_self : (k a : ℕ) → a < 2 ^ k → bit_xor a a ≡ 0
xor_self zero zero h = refl
xor_self zero (suc a) h = absurd (omega arith)
xor_self (suc k) a h = omega (arith, xor_digit a a, xor_self k (a / 2) (half_fits k a h))

pub and-le : (k a b : ℕ) → a < 2 ^ k → (bit_and a b ≤ a) × (bit_and a b ≤ b)
and-le zero zero b h = omega (arith, zero-and b)
and-le zero (suc a) b h = absurd (omega arith)
and-le (suc k) a b h = omega (arith, and_digit a b, and-le k (a / 2) (b / 2) (half_fits k a h))

flip_half :
    (k t : ℕ)
    → t < 2 ^ suc k
    → ((ones (suc k) - t) / 2 ≡ ones k - t / 2) × ((ones (suc k) - t) % 2 ≡ 1 - t % 2)
flip_half k t h = omega (arith, pow-suc 2 k)

-- Exclusive or by complement and conjunction alone.
pub xor_by_and :
    (k x y : ℕ)
    → x < 2 ^ k
    → y < 2 ^ k
    → bit_and (ones k - bit_and (ones k - x) (ones k - y)) (ones k - bit_and x y) ≡ bit_xor x y
xor_by_and zero zero zero h h' = refl
xor_by_and zero zero (suc y) h h' = absurd (omega arith)
xor_by_and zero (suc x) y h h' = absurd (omega arith)
xor_by_and (suc k) x y h h' =
    let fx = flip_half k x h in
    let fy = flip_half k y h' in
    let a : ℕ = bit_and (ones (suc k) - x) (ones (suc k) - y) in
    let b : ℕ = bit_and x y in
    let fa =
      flip_half k a
        (omega (arith, and-le (suc k) (ones (suc k) - x) (ones (suc k) - y) (omega arith))) in
    let fb = flip_half k b (omega (arith, and-le (suc k) x y h)) in
    let da = and_digit (ones (suc k) - x) (ones (suc k) - y) in
    let db = and_digit x y in
    let a2 : a / 2 ≡ bit_and (ones k - x / 2) (ones k - y / 2) = ground (arith, da, fx, fy) in
    let b2 : b / 2 ≡ bit_and (x / 2) (y / 2) = omega (arith, db) in
    let ih = xor_by_and k (x / 2) (y / 2) (half_fits k x h) (half_fits k y h') in
    let hi : bit_and ((ones (suc k) - a) / 2) ((ones (suc k) - b) / 2) ≡ bit_xor (x / 2) (y / 2) =
      ap₂ bit_and (fa.0 ∙ ap (λ t. ones k - t) a2) (fb.0 ∙ ap (λ t. ones k - t) b2) ∙ ih in
    let low_a : a % 2 ≡ min (1 - x % 2) (1 - y % 2) = omega (arith, da, fx, fy) in
    let low_b : b % 2 ≡ min (x % 2) (y % 2) = omega (arith, db) in
    omega (
      arith,
      and_digit (ones (suc k) - a) (ones (suc k) - b),
      hi,
      fa,
      fb,
      low_a,
      low_b,
      xor_digit x y,
    )

pub or_comm : (k a b : ℕ) → a < 2 ^ k → b < 2 ^ k → bit_or a b ≡ bit_or b a
or_comm zero zero zero h h' = refl
or_comm zero zero (suc b) h h' = absurd (omega arith)
or_comm zero (suc a) b h h' = absurd (omega arith)
or_comm (suc k) a b h h' = omega (
  arith,
  or_digit a b,
  or_digit b a,
  or_comm k (a / 2) (b / 2) (half_fits k a h) (half_fits k b h'),
)

pub pow-add : (a b : ℕ) → 2 ^ (a + b) ≡ 2 ^ a * 2 ^ b
pow-add a zero = rw add-zero (omega arith)
pow-add a (suc b) =
    rw (add-suc a b, pow-suc 2 (a + b), pow-suc 2 b, pow-add a b) (mul_assoc (2 ^ a) (2 ^ b) 2)
