-- ===== src/Transpose/Other.antt =====
-- The general branch of `transpose_submit`, cachelab-handout/trans.c.
use cmu_ics.Prelude.{ℕ, ◌+◌, ◌-◌, ◌*◌, ◌/◌, ◌%◌, ◌∙◌, ◌&&◌, ltb, ◌==◌, arith}
use cmu_ics.Transpose.Writes.{
  Matrix, write, for_loop, write_col, write_col-at, for_loop-induct, within, filled, Same,
}
use cmu_ics.Transpose.{submit_other}

-- Eight columns of `A` become eight rows of `B`.
band :
    (n j : ℕ) (a b : Matrix)
    → Same
        (for_loop n (λ k. write_col 8 j k (λ t. a k (j + t))) b)
        (filled (λ r c. within j 8 r && ltb c n) a b)
band n j a b =
    for_loop-induct (λ k s. Same s (filled (λ r c. within j 8 r && ltb c k) a b)) n
      (λ k. write_col 8 j k (λ t. a k (j + t))) b (λ r c. ground arith)
      (λ k x h ih r c. ground (arith, write_col-at 8 j k (λ t. a k (j + t)) x r c, ih r c))

bands :
    (m n : ℕ) (a b : Matrix)
    → Same
        (for_loop m (λ jb. for_loop n (λ k. write_col 8 (jb * 8) k (λ t. a k (jb * 8 + t)))) b)
        (filled (λ r c. ltb r (m * 8) && ltb c n) a b)
bands m n a b =
    for_loop-induct (λ jb s. Same s (filled (λ r c. ltb r (jb * 8) && ltb c n) a b)) m
      (λ jb. for_loop n (λ k. write_col 8 (jb * 8) k (λ t. a k (jb * 8 + t)))) b
      (λ r c. ground arith) (λ k x h ih r c. ground (arith, band n (k * 8) a x r c, ih r c))

-- What is left of one row of `A`.
rest_of_row :
    (low count i : ℕ) (a b : Matrix)
    → Same
        (for_loop count (λ j. write (low + j) i (a i (low + j))) b)
        (filled (λ r c. c == i && within low count r) a b)
rest_of_row low count i a b =
    for_loop-induct (λ j s. Same s (filled (λ r c. c == i && within low j r) a b)) count
      (λ j. write (low + j) i (a i (low + j))) b (λ r c. ground arith)
      (λ k x h ih r c. ground (arith, ih r c))

rest_of_rows :
    (low count n : ℕ) (a b : Matrix)
    → Same
        (for_loop n (λ i. for_loop count (λ j. write (low + j) i (a i (low + j)))) b)
        (filled (λ r c. within low count r && ltb c n) a b)
rest_of_rows low count n a b =
    for_loop-induct (λ i s. Same s (filled (λ r c. within low count r && ltb c i) a b)) n
      (λ i. for_loop count (λ j. write (low + j) i (a i (low + j)))) b (λ r c. ground arith)
      (λ k x h ih r c. ground (arith, rest_of_row low count k a x r c, ih r c))

together :
    (m n : ℕ) (a b x : Matrix)
    → Same x (filled (λ r c. ltb r (m / 8 * 8) && ltb c n) a b)
    → Same
        (filled (λ r c. within (m - m % 8) (m - (m - m % 8)) r && ltb c n) a x)
        (filled (λ r c. ltb r m && ltb c n) a b)
together m n a b x h r c = ground (arith, h r c)

pub submit_other-fills :
    (m n : ℕ) (a b : Matrix) → Same (submit_other m n a b) (filled (λ r c. ltb r m && ltb c n) a b)
unfolding submit_other
submit_other-fills m n a b r c =
    let low = m - m % 8 in
    let blocks =
      for_loop (m / 8) (λ jb. for_loop n (λ k. write_col 8 (jb * 8) k (λ t. a k (jb * 8 + t)))) b in
    rest_of_rows low (m - low) n a blocks r c ∙ together m n a b blocks (bands (m / 8) n a b) r c
