-- ===== src/Datalab/Truncate.antt =====
-- `floatFloat2Int` of datalab-handout/bits.c against the numbers that its patterns stand for.
use Prim.Native.Nat.{bit_or}
use cmu_ics.Prelude.{
  ℕ, ◌+◌, ◌-◌, ◌*◌, ◌/◌, ◌^◌, ◌≤◌, ◌<◌, ◌≡◌, sym, ap, ◌∙◌, inl, inr, leb, ◌==◌, if◌then◌else◌,
  Bool-cases, arith,
}
use cmu_ics.Word.{word, half, shl, shr}
use cmu_ics.Word.Masks.{or-fields, or_comm, pow-add}
use cmu_ics.Datalab.Float.{float_float2int}
use cmu_ics.Datalab.Value.{sgn, ex, fr, fields}
use native.Mathlib.Nat.{
  one-le-pow, mul_assoc, mul-le-mul, mul-div_cancel, mul-div-mul_right, pow-le-pow_right,
  le-div_iff_mul-le, div-le_self,
}

-- The integer part of `(1 + f / 2 ^ 23) * 2 ^ (e - 127)`.
abbrev pub whole : ℕ → ℕ
whole uf = (2 ^ 23 + fr uf) * 2 ^ (ex uf - 127) / 2 ^ 23

full : (f : ℕ) → f < 2 ^ 23 → bit_or f (shl 1 23) ≡ 2 ^ 23 + f
full f h = or_comm 24 f (2 ^ 23) (omega arith) (omega arith) ∙ or-fields 1 23 1 f (omega arith) h

-- A shift to the left or to the right, by how far 23 is from the exponent, is the integer part.
shifted_left :
    (m k : ℕ)
    → 2 ^ 23 ≤ m
    → m < 2 ^ 24
    → 23 ≤ k
    → k < 31
    → (shl m (k - 23) ≡ m * 2 ^ k / 2 ^ 23) × (0 < shl m (k - 23)) × (shl m (k - 23) < half)
shifted_left m k low high above small =
    let j = k - 23 in
    let positive = one-le-pow j 2 (omega arith) in
    let j_le : j ≤ 7 = omega arith in
    let bound : 2 ^ j ≤ 2 ^ 7 = pow-le-pow_right (omega arith) j_le in
    let below : m ≤ 2 ^ 24 - 1 = omega arith in
    let big = mul-le-mul low positive in
    let fits = mul-le-mul below bound in
    let cancel : m * 2 ^ j * 2 ^ 23 / 2 ^ 23 ≡ m * 2 ^ j =
      mul-div_cancel (m * 2 ^ j) (omega arith) in
    let same = mul_assoc m (2 ^ j) (2 ^ 23) in
    let sum : k ≡ j + 23 = omega arith in
    let split : 2 ^ k ≡ 2 ^ j * 2 ^ 23 = ap (λ (t : ℕ). 2 ^ t) sum ∙ pow-add j 23 in
    rw (split, ← same, cancel) (omega arith, omega arith, omega arith)

shifted_right :
    (m k : ℕ)
    → 2 ^ 23 ≤ m
    → k < 23
    → (shr m (23 - k) ≡ m * 2 ^ k / 2 ^ 23) × (0 < shr m (23 - k)) × (shr m (23 - k) ≤ m)
shifted_right m k low small =
    let d = 2 ^ (23 - k) in
    let positive : 0 < d = one-le-pow (23 - k) 2 (omega arith) in
    let sum : 23 ≡ 23 - k + k = omega arith in
    let split : 2 ^ 23 ≡ d * 2 ^ k = ap (λ (t : ℕ). 2 ^ t) sum ∙ pow-add (23 - k) k in
    let d_le : 23 - k ≤ 23 = omega arith in
    let bound : d ≤ 2 ^ 23 = pow-le-pow_right (omega arith) d_le in
    (
      sym (mul-div-mul_right m d (one-le-pow k 2 (omega arith)))
          ∙ ap (λ (t : ℕ). m * 2 ^ k / t) (sym split),
      (le-div_iff_mul-le positive).1 (omega arith),
      div-le_self m d,
    )

moved :
    (m k : ℕ)
    → 2 ^ 23 ≤ m
    → m < 2 ^ 24
    → k < 31
    → ((if leb 23 k then shl m (k - 23) else shr m (23 - k)) ≡ m * 2 ^ k / 2 ^ 23)
      × (0 < m * 2 ^ k / 2 ^ 23)
      × (m * 2 ^ k / 2 ^ 23 < half)
moved m k low high small = elim (Bool-cases (leb 23 k)) [
  | inl e ↦ let lem = shifted_left m k low high (ground arith) small in rw e (ground arith)
  | inr e ↦ let lem = shifted_right m k low (ground arith) in rw e (ground arith)
]

-- `floatFloat2Int` returns the integer part of a number of magnitude below 2 ^ 31, negated when the
-- sign is set: 0 below 1. From 2 ^ 32 on, and for an infinity or a NaN, it returns 0x80000000.
pub float_float2int-truncates :
    (uf : ℕ)
    → uf < word
    → (ex uf < 127 → float_float2int uf ≡ 0)
      × (127 ≤ ex uf
          → ex uf < 158
          → float_float2int uf ≡ (if sgn uf == 0 then whole uf else word - whole uf))
      × (158 < ex uf → float_float2int uf ≡ half)
unfolding float_float2int
float_float2int-truncates uf h =
    let (a, b, c) = fields uf h in
    rw (a, b, c)
      (
        λ low. ground arith,
        λ low high.
            let e = full (fr uf) (omega arith) in
            let lem =
              moved (2 ^ 23 + fr uf) (ex uf - 127) (omega arith) (omega arith) (omega arith) in
            rw e (ground arith),
        λ high. ground arith,
      )
