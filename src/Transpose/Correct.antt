-- ===== src/Transpose/Correct.antt =====
-- `transpose_submit` of cachelab-handout/trans.c as a whole.
use cmu_ics.Prelude.{ℕ, ◌≡◌, inl, inr, true, ◌&&◌, ltb, ◌==◌, Bool-cases, arith}
use cmu_ics.Transpose.Writes.{Matrix, filled, Same}
use cmu_ics.Transpose.{transpose_submit, is_transpose, submit_32, submit_64}
use cmu_ics.Transpose.Square32.{submit_32-fills}
use cmu_ics.Transpose.Square64.{submit_64-fills}
use cmu_ics.Transpose.Other.{submit_other-fills}
use cmu_ics.Transpose.Plain.{is_transpose_iff}

-- At the size of a branch, its square is the whole matrix.
whole :
    (k m n : ℕ) (a b x : Matrix)
    → (n == k && m == k) ≡ true
    → Same x (filled (λ r c. ltb r k && ltb c k) a b)
    → Same x (filled (λ r c. ltb r m && ltb c n) a b)
whole k m n a b x e h r c =
    let rows : m ≡ k = ground arith in
    let columns : n ≡ k = ground arith in rw (rows, columns) (h r c)

-- For all sizes, `transpose_submit` writes the transpose of the `N` by `M` matrix `A` to the first `M`
-- rows and `N` columns of `B`, whatever those held, and nothing anywhere else.
pub transpose_submit-fills :
    (m n : ℕ) (a b : Matrix)
    → Same (transpose_submit m n a b) (filled (λ r c. ltb r m && ltb c n) a b)
unfolding transpose_submit
transpose_submit-fills m n a b r c = elim (Bool-cases (n == 32 && m == 32)) [
  | inl e ↦ rw e (whole 32 m n a b (submit_32 a b) e (submit_32-fills a b) r c)
  | inr e ↦ elim (Bool-cases (n == 64 && m == 64)) [
    | inl e' ↦ rw (e, e') (whole 64 m n a b (submit_64 a b) e' (submit_64-fills a b) r c)
    | inr e' ↦ rw (e, e') (submit_other-fills m n a b r c)
  ]
]

-- `is_transpose` accepts what `transpose_submit` leaves, for all sizes.
pub is_transpose-transpose_submit :
    (m n : ℕ) (a b : Matrix) → is_transpose m n a (transpose_submit m n a b) ≡ true
is_transpose-transpose_submit m n a b =
    (is_transpose_iff m n a (transpose_submit m n a b)).1
      (λ i j hi hj. ground (arith, transpose_submit-fills m n a b j i))
