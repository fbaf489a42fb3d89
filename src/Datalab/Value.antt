-- ===== src/Datalab/Value.antt =====
-- The numbers that single-precision patterns stand for, and what the floating-point puzzles of
-- datalab-handout/bits.c do to them.
use Prim.Native.Nat.{bit_or}
use native.Mathlib.Nat.{pow-suc}
use native.Mathlib.Numerals.{add-one}
use native.Mathlib.Decide.{ℕ_discrete}
use cmu_ics.Prelude.{
  ℕ, ◌+◌, ◌*◌, ◌/◌, ◌%◌, ◌^◌, ◌<◌, ◌≡◌, ◌≢◌, refl, ap, ◌∙◌, ◌==◌, ==_false, if◌then◌else◌, arith,
}
use cmu_ics.Word.{word, shl}
use cmu_ics.Word.Masks.{and-mask, or-fields}
use cmu_ics.Datalab.Float.{sign_of, exp_of, frac_of, float_scale2}

-- The three fields, as arithmetic.
abbrev pub sgn : ℕ → ℕ
sgn uf = uf / 2 ^ 31

abbrev pub ex : ℕ → ℕ
ex uf = uf / 2 ^ 23 % 2 ^ 8

abbrev pub fr : ℕ → ℕ
fr uf = uf % 2 ^ 23

-- The magnitude of a finite number, in units of 2 ^ -150.
abbrev pub magnitude : ℕ → ℕ
magnitude uf = if ex uf == 0 then fr uf * 2 else (2 ^ 23 + fr uf) * 2 ^ ex uf

pub fields :
    (uf : ℕ) → uf < word → (sign_of uf ≡ sgn uf) × (exp_of uf ≡ ex uf) × (frac_of uf ≡ fr uf)
fields uf h = (
  omega (arith, and-mask 32 1 (uf / 2 ^ 31) (omega arith)),
  and-mask 32 8 (uf / 2 ^ 23) (omega arith),
  and-mask 32 23 uf h,
)

-- A pattern put together from its fields.
pack_two : (s r : ℕ) → s < 2 → r < 2 ^ 31 → bit_or (shl s 31) r ≡ s * 2 ^ 31 + r
pack_two s r hs hr =
    let e : shl s 31 ≡ s * 2 ^ 31 = omega arith in rw e (or-fields 32 31 s r (omega arith) hr)

pack_three :
    (s e f : ℕ)
    → s < 2
    → e < 2 ^ 8
    → f < 2 ^ 23
    → bit_or (bit_or (shl s 31) (shl e 23)) f ≡ s * 2 ^ 31 + e * 2 ^ 23 + f
pack_three s e f hs he hf =
    let a = pack_two s (shl e 23) hs (omega arith) in
    let b : s * 2 ^ 31 + shl e 23 ≡ (s * 2 ^ 8 + e) * 2 ^ 23 = omega arith in
    rw (a, b) (or-fields 32 23 (s * 2 ^ 8 + e) f (omega arith) hf ∙ omega arith)

scale2_normal :
    (uf : ℕ)
    → uf < word
    → 0 < ex uf
    → ex uf < 255
    → float_scale2 uf ≡ sgn uf * 2 ^ 31 + (ex uf + 1) * 2 ^ 23 + fr uf
unfolding float_scale2
scale2_normal uf h low high =
    let (a, b, c) = fields uf h in
    rw (a, b, c)
      (ground
        (arith, pack_three (sgn uf) (ex uf + 1) (fr uf) (omega arith) (omega arith) (omega arith)))

scale2_denormal : (uf : ℕ) → uf < word → ex uf ≡ 0 → float_scale2 uf ≡ sgn uf * 2 ^ 31 + 2 * fr uf
unfolding float_scale2
scale2_denormal uf h z =
    let (a, b, c) = fields uf h in
    let e : shl (fr uf) 1 ≡ 2 * fr uf = omega arith in
    rw (a, b, c) (ground (arith, pack_two (sgn uf) (2 * fr uf) (omega arith) (omega arith)))

unpack :
    (s e f : ℕ)
    → s < 2
    → e < 2 ^ 8
    → f < 2 ^ 23
    → (sgn (s * 2 ^ 31 + e * 2 ^ 23 + f) ≡ s)
      × (ex (s * 2 ^ 31 + e * 2 ^ 23 + f) ≡ e)
      × (fr (s * 2 ^ 31 + e * 2 ^ 23 + f) ≡ f)
unpack s e f hs he hf = omega arith

magnitude_up :
    (e f : ℕ)
    → e ≢ 0
    → (if e + 1 == 0 then f * 2 else (2 ^ 23 + f) * 2 ^ (e + 1))
      ≡ 2 * (if e == 0 then f * 2 else (2 ^ 23 + f) * 2 ^ e)
magnitude_up e f h =
    let a : (2 ^ 23 + f) * 2 ^ (e + 1) ≡ 2 * ((2 ^ 23 + f) * 2 ^ e) =
      omega (arith, ap (λ (t : ℕ). (2 ^ 23 + f) * t) (two_pow e)) in
    rw (==_false (e + 1) 0 (omega arith), ==_false e 0 h) a
  where
    two_pow : (e : ℕ) → 2 ^ (e + 1) ≡ 2 * 2 ^ e
    two_pow e = rw add-one (omega (arith, pow-suc 2 e))

scale2_special : (uf : ℕ) → uf < word → ex uf ≡ 255 → float_scale2 uf ≡ uf
unfolding float_scale2
scale2_special uf h e = let (a, b, c) = fields uf h in rw (a, b, c) (ground arith)

-- `floatScale2` doubles every finite number whose exponent field is below 254, denormal ones included,
-- and keeps its sign. An infinity or a NaN it returns as it is.
pub float_scale2-doubles :
    (uf : ℕ)
    → uf < word
    → (ex uf < 254
        → (sgn (float_scale2 uf) ≡ sgn uf)
          × (magnitude (float_scale2 uf) ≡ 2 * magnitude uf)
          × (ex (float_scale2 uf) < 255))
      × (ex uf ≡ 255 → float_scale2 uf ≡ uf)
float_scale2-doubles uf h = (finite, special)
  where
    special : ex uf ≡ 255 → float_scale2 uf ≡ uf
    special e = scale2_special uf h e

    finite :
        ex uf < 254
        → (sgn (float_scale2 uf) ≡ sgn uf)
          × (magnitude (float_scale2 uf) ≡ 2 * magnitude uf)
          × (ex (float_scale2 uf) < 255)
    finite low = elim (ℕ_discrete (ex uf) 0) [
      | yes z ↦ rw (scale2_denormal uf h z) (ground arith)
      | no nz ↦
          let (a, b, c) =
            unpack (sgn uf) (ex uf + 1) (fr uf) (omega arith) (omega arith) (omega arith) in
          rw (scale2_normal uf h (omega arith) (omega arith), a, b, c)
            (refl, magnitude_up (ex uf) (fr uf) nz, omega arith)
    ]

-- A finite number with exponent field 254 has no double that is finite. The result has the exponent
-- field of infinity and NaN, and keeps the fraction: unless that is 0, the result is a NaN, not the
-- infinity that twice the number rounds to.
pub float_scale2-overflow :
    (uf : ℕ)
    → uf < word
    → ex uf ≡ 254
    → (sgn (float_scale2 uf) ≡ sgn uf)
      × (ex (float_scale2 uf) ≡ 255)
      × (fr (float_scale2 uf) ≡ fr uf)
float_scale2-overflow uf h e =
    rw (scale2_normal uf h (omega arith) (omega arith)) (
      ground (arith, unpack (sgn uf) (ex uf + 1) (fr uf) (omega arith) (omega arith) (omega arith)))
