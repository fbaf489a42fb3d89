-- ===== src/Transpose/Square32.antt =====
-- The branch of `transpose_submit` for 32 by 32, cachelab-handout/trans.c.
use cmu_ics.Prelude.{ℕ, ◌+◌, ◌-◌, ◌*◌, ◌≤◌, ◌≡◌, ◌&&◌, ltb, ◌==◌, if◌then◌else◌, arith}
use cmu_ics.Transpose.Writes.{
  Matrix, for_loop, write_row, write_row-at, for_loop-induct, within, filled, Same,
}
use cmu_ics.Transpose.{copy_block, swap, transpose_block, submit_32}

-- The first loop copies a block row by row, without transposing it.
copy_rows :
    (i j n : ℕ) (a b : Matrix) (r c : ℕ)
    → for_loop n (λ k. write_row 8 (j + k) i (λ t. a (i + k) (j + t))) b r c
      ≡ (if within j n r && within i 8 c then a (i + (r - j)) (j + (c - i)) else b r c)
copy_rows i j n a b =
    for_loop-induct
      (λ k s.
        (r c : ℕ)
        → s r c ≡ (if within j k r && within i 8 c then a (i + (r - j)) (j + (c - i)) else b r c))
      n (λ k. write_row 8 (j + k) i (λ t. a (i + k) (j + t))) b (λ r c. ground arith)
      (λ k x h ih r c.
        ground (arith, write_row-at 8 (j + k) i (λ t. a (i + k) (j + t)) x r c, ih r c))

copy_block-at :
    (i j : ℕ) (a b : Matrix) (r c : ℕ)
    → copy_block i j a b r c
      ≡ (if within j 8 r && within i 8 c then a (i + (r - j)) (j + (c - i)) else b r c)
unfolding copy_block
copy_block-at i j a b = copy_rows i j 8 a b

-- After `n` rounds of the inner loop, `n` entries of row `k` have changed places with those of column
-- `k`.
exchanged : ℕ → ℕ → ℕ → ℕ → Matrix → Matrix
exchanged i j k n b r c =
    if r == j + k && within i n c
    then b (j + (c - i)) (i + k)
    else if c == i + k && within j n r
    then b (j + k) (i + (r - j))
    else b r c

exchange :
    (i j k n : ℕ) (b : Matrix)
    → n ≤ k
    → Same (for_loop n (λ l. swap i j k l) b) (exchanged i j k n b)
unfolding swap exchanged
exchange i j k n b h =
    for_loop-induct (λ l s. Same s (exchanged i j k l b)) n (λ l. swap i j k l) b
      (λ r c. ground arith)
      (λ l x hl ih r c.
        let left : x (j + k) (i + l) ≡ b (j + k) (i + l) = ground (arith, ih (j + k) (i + l)) in
        let right : x (j + l) (i + k) ≡ b (j + l) (i + k) = ground (arith, ih (j + l) (i + k)) in
        ground (arith, ih r c))

transpose_block-at :
    (i j : ℕ) (b : Matrix) (r c : ℕ)
    → transpose_block i j b r c
      ≡ (if within j 8 r && within i 8 c then b (j + (c - i)) (i + (r - j)) else b r c)
unfolding transpose_block exchanged
transpose_block-at i j b =
    for_loop-induct
      (λ k s.
        (r c : ℕ)
        → s r c ≡ (if within j k r && within i k c then b (j + (c - i)) (i + (r - j)) else b r c))
      8 (λ k. for_loop k (λ l. swap i j k l)) b (λ r c. ground arith)
      (λ k x h ih r c. ground (
        arith,
        exchange i j k k x (omega arith) r c,
        ih r c,
        ih (j + (c - i)) (i + k),
        ih (j + k) (i + (r - j)),
      ))

-- A block that has been copied and transposed in place.
block :
    (i j : ℕ) (a b : Matrix)
    → Same
        (transpose_block i j (copy_block i j a b))
        (filled (λ r c. within j 8 r && within i 8 c) a b)
block i j a b r c = ground (
  arith,
  transpose_block-at i j (copy_block i j a b) r c,
  copy_block-at i j a b r c,
  copy_block-at i j a b (j + (c - i)) (i + (r - j)),
)

blocks :
    (n i : ℕ) (a b : Matrix)
    → Same
        (for_loop n (λ jb b. transpose_block i (jb * 8) (copy_block i (jb * 8) a b)) b)
        (filled (λ r c. within i 8 c && ltb r (n * 8)) a b)
blocks n i a b =
    for_loop-induct (λ jb s. Same s (filled (λ r c. within i 8 c && ltb r (jb * 8)) a b)) n
      (λ jb b. transpose_block i (jb * 8) (copy_block i (jb * 8) a b)) b (λ r c. ground arith)
      (λ k x h ih r c. ground (arith, block i (k * 8) a x r c, ih r c))

bands :
    (n : ℕ) (a b : Matrix)
    → Same
        (for_loop n
          (λ ib.
            for_loop 4
              (λ jb b. transpose_block (ib * 8) (jb * 8) (copy_block (ib * 8) (jb * 8) a b)))
          b)
        (filled (λ r c. ltb r 32 && ltb c (n * 8)) a b)
bands n a b =
    for_loop-induct (λ ib s. Same s (filled (λ r c. ltb r 32 && ltb c (ib * 8)) a b)) n
      (λ ib.
        for_loop 4 (λ jb b. transpose_block (ib * 8) (jb * 8) (copy_block (ib * 8) (jb * 8) a b)))
      b (λ r c. ground arith) (λ k x h ih r c. ground (arith, blocks 4 (k * 8) a x r c, ih r c))

pub submit_32-fills :
    (a b : Matrix) → Same (submit_32 a b) (filled (λ r c. ltb r 32 && ltb c 32) a b)
unfolding submit_32
submit_32-fills a b = bands 4 a b
