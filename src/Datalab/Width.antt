-- ===== src/Datalab/Width.antt =====
-- `howManyBits` of datalab-handout/bits.c against the loop of datalab-handout/tests.c.
use Prim.Native.Nat.{bit_and}
use native.Mathlib.Decide.{ℕ_discrete}
use native.Mathlib.Nat.{pow-suc, one-le-pow, div-add-mod', mod-lt}
use cmu_ics.Prelude.{
  ℕ, zero, suc, ◌+◌, ◌-◌, ◌*◌, ◌/◌, ◌^◌, ◌≤◌, ◌<◌, ◌≡◌, ◌≢◌, refl, sym, ap, ◌∙◌, ◌⊎◌, inl, inr, ltb,
  ◌==◌, ==_false, if◌then◌else◌, Bool-cases, arith,
}
use cmu_ics.Word.{word, half, lognot, add, shl, sar, bang}
use cmu_ics.Word.Masks.{pow-add, zero-and, zero-or, or-zero, ones-and}
use cmu_ics.Datalab.Agree.{bang-bang, sar_31}
use cmu_ics.Datalab.Integer.{probe, add_up, search_width, fold_sign, how_many_bits}
use cmu_ics.Datalab.Reference.{count_loop, test_how_many_bits}

-- The highest one of `x` has weight `2 ^ j`.
abbrev HasTop : ℕ → ℕ → Type 0
HasTop j x = (2 ^ j ≤ x) × (x < 2 ^ (j + 1))

HasTop-shift : (j b x : ℕ) → HasTop j (x / 2 ^ b) → HasTop (j + b) x
HasTop-shift j b x (low, high) =
    let q = x / 2 ^ b in
    let e = div-add-mod' x (2 ^ b) in
    let r = mod-lt x (one-le-pow b 2 (omega arith)) in
    let up : 2 ^ j * 2 ^ b ≤ q * 2 ^ b = grind arith in
    let top : suc q * 2 ^ b ≤ 2 ^ (j + 1) * 2 ^ b = grind arith in
    let same : j + 1 + b ≡ j + b + 1 = omega arith in
    (omega (arith, pow-add j b), omega (arith, pow-add (j + 1) b, ap (λ (t : ℕ). 2 ^ t) same))

HasTop-sar : (j b x y : ℕ) → y ≡ x / 2 ^ b → HasTop j y → HasTop (j + b) x
HasTop-sar j b x y e t = HasTop-shift j b x (rw e at t)

count_loop-zero : (fuel cnt : ℕ) → count_loop fuel 0 cnt ≡ cnt
unfolding count_loop
count_loop-zero zero cnt = refl
count_loop-zero (suc fuel) cnt = refl

count_loop_step :
    (fuel a cnt : ℕ) → a ≢ 0 → count_loop (suc fuel) a cnt ≡ count_loop fuel (a / 2) (cnt + 1)
unfolding count_loop
count_loop_step fuel a cnt h = rw (==_false a 0 h) refl

-- The loop counts the bits up to the highest one.
count_loop-HasTop : (fuel j a cnt : ℕ) → j < fuel → HasTop j a → count_loop fuel a cnt ≡ cnt + j + 1
count_loop-HasTop zero j a cnt h t = absurd (omega arith)
count_loop-HasTop (suc fuel) zero a cnt h t =
    let e : a ≡ 1 = omega arith in
    rw e (count_loop_step fuel 1 cnt (omega arith) ∙ count_loop-zero fuel (cnt + 1) ∙ omega arith)
count_loop-HasTop (suc fuel) (suc j) a cnt h t =
    let double = pow-suc 2 j in
    let more = pow-suc 2 (j + 1) in
    let same : 2 ^ (suc j + 1) ≡ 2 ^ suc (j + 1) = ap (λ (t : ℕ). 2 ^ t) (omega arith) in
    let inner : HasTop j (a / 2) = omega arith in
    count_loop_step fuel a cnt (omega (arith, one-le-pow (suc j) 2 (omega arith)))
    ∙ count_loop-HasTop fuel j (a / 2) (cnt + 1) (omega arith) inner
    ∙ omega arith

pub fold_sign-lt :
    (x : ℕ)
    → x < word
    → (fold_sign x ≡ (if ltb x half then x else word - 1 - x)) × (fold_sign x < half)
unfolding fold_sign
fold_sign-lt x h = elim (Bool-cases (ltb x half)) [
  | inl e ↦
      rw (sar_31 x h, e)
        (
          ground (arith, zero-and (lognot x), ones-and 32 x h, zero-or x),
          ground (arith, zero-and (lognot x), ones-and 32 x h, zero-or x),
        )
  | inr e ↦
      rw (sar_31 x h, e)
        (
          ground (
            arith,
            zero-and x,
            ones-and 32 (lognot x) (omega arith),
            or-zero 32 (lognot x) (omega arith),
          ),
          ground (
            arith,
            zero-and x,
            ones-and 32 (lognot x) (omega arith),
            or-zero 32 (lognot x) (omega arith),
          ),
        )
]

-- One halving: the shift is `n` or 0, and what is left is positive and below `2 ^ n`.
abbrev Halved : ℕ → ℕ → ℕ → Type 0
Halved n x b = ((b ≡ 0) ⊎ (b ≡ n)) × (0 < sar x b) × (sar x b < 2 ^ n) × (sar x b ≡ x / 2 ^ b)

probe_lem : (x n k : ℕ) → probe x n k ≡ (if sar x n == 0 then 0 else shl 1 k)
unfolding probe
probe_lem x n k = elim (Bool-cases (sar x n == 0)) [
  | inl e ↦ rw e (ground arith)
  | inr e ↦ rw e refl
]

probe_16 : (x : ℕ) → 0 < x → x < 2 ^ 31 → Halved 16 x (probe x 16 4)
unfolding sar
probe_16 x p lt = rw (probe_lem x 16 4) (elim (Bool-cases (sar x 16 == 0)) [
  | inl e ↦ rw e (inl refl, ground arith, ground arith, ground arith)
  | inr e ↦ rw e (inr refl, ground arith, ground arith, ground arith)
])

probe_8 : (x : ℕ) → 0 < x → x < 2 ^ 16 → Halved 8 x (probe x 8 3)
unfolding sar
probe_8 x p lt = rw (probe_lem x 8 3) (elim (Bool-cases (sar x 8 == 0)) [
  | inl e ↦ rw e (inl refl, ground arith, ground arith, ground arith)
  | inr e ↦ rw e (inr refl, ground arith, ground arith, ground arith)
])

probe_4 : (x : ℕ) → 0 < x → x < 2 ^ 8 → Halved 4 x (probe x 4 2)
unfolding sar
probe_4 x p lt = rw (probe_lem x 4 2) (elim (Bool-cases (sar x 4 == 0)) [
  | inl e ↦ rw e (inl refl, ground arith, ground arith, ground arith)
  | inr e ↦ rw e (inr refl, ground arith, ground arith, ground arith)
])

probe_2 : (x : ℕ) → 0 < x → x < 2 ^ 4 → Halved 2 x (probe x 2 1)
unfolding sar
probe_2 x p lt = rw (probe_lem x 2 1) (elim (Bool-cases (sar x 2 == 0)) [
  | inl e ↦ rw e (inl refl, ground arith, ground arith, ground arith)
  | inr e ↦ rw e (inr refl, ground arith, ground arith, ground arith)
])

-- The last step: `!!(x >> 1)`.
probe_1 : (x : ℕ) → 0 < x → x < 2 ^ 2 → Halved 1 x (bang (bang (sar x 1)))
unfolding sar
probe_1 x p lt = rw (bang-bang (sar x 1)) (elim (Bool-cases (sar x 1 == 0)) [
  | inl e ↦ rw e (inl refl, ground arith, ground arith, ground arith)
  | inr e ↦ rw e (inr refl, ground arith, ground arith, ground arith)
])

add_up_one :
    (b1 b2 b4 b8 b16 : ℕ)
    → b1 ≤ 1
    → b2 ≤ 2
    → b4 ≤ 4
    → b8 ≤ 8
    → b16 ≤ 16
    → add_up 1 b1 b2 b4 b8 b16 ≡ 0 + b1 + b2 + b4 + b8 + b16 + 2
unfolding add_up sar
add_up_one b1 b2 b4 b8 b16 h1 h2 h4 h8 h16 =
    let r = add (add (add (add (add (add 1 1) b1) b2) b4) b8) b16 in
    omega (arith, zero-or (bit_and (word - 1) r), ones-and 32 r (omega arith))

search_width-zero : search_width 0 ≡ 1
unfolding search_width probe sar add_up
search_width-zero = refl

search_width-HasTop :
    (x : ℕ) → 0 < x → x < half → (j : ℕ) × HasTop j x × (j < 32) × (search_width x ≡ j + 2)
unfolding search_width
search_width-HasTop x p l =
    let (b16, p1, l1, e1) = probe_16 x p l in
    let a16 = probe x 16 4 in
    let x1 = sar x a16 in
    let (b8, p2, l2, e2) = probe_8 x1 p1 l1 in
    let a8 = probe x1 8 3 in
    let x2 = sar x1 a8 in
    let (b4, p3, l3, e3) = probe_4 x2 p2 l2 in
    let a4 = probe x2 4 2 in
    let x3 = sar x2 a4 in
    let (b2, p4, l4, e4) = probe_2 x3 p3 l3 in
    let a2 = probe x3 2 1 in
    let x4 = sar x3 a2 in
    let (b1, p5, l5, e5) = probe_1 x4 p4 l4 in
    let a1 = bang (bang (sar x4 1)) in
    let one : sar x4 a1 ≡ 1 = omega arith in
    let t1 : HasTop (0 + a1) x4 = HasTop-sar 0 a1 x4 (sar x4 a1) e5 (omega arith) in
    let t2 : HasTop (0 + a1 + a2) x3 = HasTop-sar (0 + a1) a2 x3 x4 e4 t1 in
    let t4 : HasTop (0 + a1 + a2 + a4) x2 = HasTop-sar (0 + a1 + a2) a4 x2 x3 e3 t2 in
    let t8 : HasTop (0 + a1 + a2 + a4 + a8) x1 = HasTop-sar (0 + a1 + a2 + a4) a8 x1 x2 e2 t4 in
    let t16 : HasTop (0 + a1 + a2 + a4 + a8 + a16) x =
      HasTop-sar (0 + a1 + a2 + a4 + a8) a16 x x1 e1 t8 in
    (
      0 + a1 + a2 + a4 + a8 + a16,
      t16,
      omega arith,
      ap (λ t. add_up t a1 a2 a4 a8 a16) one
          ∙ add_up_one a1 a2 a4 a8 a16 (omega arith) (omega arith) (omega arith) (omega arith)
              (omega arith),
    )

widths : (a : ℕ) → a < half → search_width a ≡ count_loop 32 a 0 + 1
widths a small = elim (ℕ_discrete a 0) [
  | yes e ↦ rw e (search_width-zero ∙ sym (ap suc_ (count_loop-zero 32 0)))
  | no ne ↦
      let (j, top, lt, e) = search_width-HasTop a (omega arith) small in
      omega (arith, e, count_loop-HasTop 32 j a 0 lt top)
]
  where
    suc_ : ℕ → ℕ
    suc_ n = n + 1

-- `howManyBits` returns for every word one more than the number of bits of its magnitude, as the
-- loop of the test function counts them.
pub how_many_bits-eq-test : (x : ℕ) → x < word → how_many_bits x ≡ test_how_many_bits x
unfolding how_many_bits test_how_many_bits
how_many_bits-eq-test x h =
    let (same, small) = fold_sign-lt x h in rw (← same) (widths (fold_sign x) small)
