-- ===== src/Transpose/Square64.antt =====
-- The branch of `transpose_submit` for 64 by 64, cachelab-handout/trans.c.
use native.Mathlib.Decide.{ℕ_discrete}
use cmu_ics.Prelude.{
  ℕ, suc, ◌+◌, ◌-◌, ◌*◌, ◌≤◌, ◌<◌, ◌≡◌, ◌∙◌, ◌&&◌, ltb, ◌==◌, ==_false, if◌then◌else◌, arith,
}
use cmu_ics.Transpose.Writes.{
  Matrix, for_loop, write_row, write_col, write_row-at, write_col-at, for_loop-induct, within,
  filled, Same,
}
use cmu_ics.Transpose.{upper_half, move_row, submit_64}

-- The upper half of a block: its left part is final, its right part is what belongs below.
halves : ℕ → ℕ → ℕ → Matrix → Matrix → Matrix
halves i j n a b r c =
    if within j 4 r && within i n c
    then a c r
    else if within j 4 r && within (i + 4) n c
    then a (c - 4) (r + 4)
    else b r c

columns :
    (i j n : ℕ) (a b : Matrix)
    → n ≤ 4
    → Same
        (for_loop n
          (λ k b.
            write_col 4 j
              (i + k + 4)
              (λ t. a (i + k) (j + 4 + t))
              (write_col 4 j (i + k) (λ t. a (i + k) (j + t)) b))
          b)
        (halves i j n a b)
unfolding halves
columns i j n a b fits =
    for_loop-induct (λ k s. Same s (halves i j k a b)) n
      (λ k b.
        write_col 4 j (i + k + 4) (λ t. a (i + k) (j + 4 + t))
          (write_col 4 j (i + k) (λ t. a (i + k) (j + t)) b))
      b (λ r c. ground arith)
      (λ k x h ih r c. ground (
        arith,
        write_col-at 4 j (i + k + 4) (λ t. a (i + k) (j + 4 + t))
            (write_col 4 j (i + k) (λ t. a (i + k) (j + t)) x) r c,
        write_col-at 4 j (i + k) (λ t. a (i + k) (j + t)) x r c,
        ih r c,
      ))

upper_half-at : (i j : ℕ) (a b : Matrix) → Same (upper_half i j a b) (halves i j 4 a b)
unfolding upper_half
upper_half-at i j a b = columns i j 4 a b (omega arith)

-- What one round of the second loop leaves.
moved : ℕ → ℕ → Matrix → ℕ → Matrix → Matrix
moved i j a k b r c =
    if r == j + k + 4 && within (i + 4) 4 c
    then a c r
    else if r == j + k + 4 && within i 4 c
    then b (r - 4) (c + 4)
    else if r == j + k && within (i + 4) 4 c
    then a c r
    else b r c

move_row-at : (i j k : ℕ) (a b : Matrix) → Same (move_row i j a k b) (moved i j a k b)
unfolding move_row moved
move_row-at i j k a b r c =
    let first = write_row 4 (j + k) (i + 4) (λ t. a (i + 4 + t) (j + k)) b in
    let second = write_row 4 (j + k + 4) i (λ t. b (j + k) (i + 4 + t)) first in
    rw
      (
        write_row-at 4 (j + k + 4) (i + 4) (λ t. a (i + 4 + t) (j + k + 4)) second r c,
        write_row-at 4 (j + k + 4) i (λ t. b (j + k) (i + 4 + t)) first r c,
        write_row-at 4 (j + k) (i + 4) (λ t. a (i + 4 + t) (j + k)) b r c,
      )
      (ground arith)

-- What `n` rounds of it leave.
settled : ℕ → ℕ → Matrix → ℕ → Matrix → Matrix
settled i j a n b r c =
    if within j n r && within (i + 4) 4 c
    then a c r
    else if within (j + 4) n r && within i 4 c
    then b (r - 4) (c + 4)
    else if within (j + 4) n r && within (i + 4) 4 c
    then a c r
    else b r c

-- One round more.
settle_step :
    (i j k : ℕ) (a b x : Matrix)
    → k < 4
    → Same x (settled i j a k b)
    → Same (moved i j a k x) (settled i j a (suc k) b)
unfolding settled moved
settle_step i j k a b x h ih r c = elim (ℕ_discrete r (j + k + 4)) [
  | yes low ↦
      let above : x (j + k + 4 - 4) (c + 4) ≡ b (j + k + 4 - 4) (c + 4) =
        ground (arith, ih (j + k + 4 - 4) (c + 4)) in
      let here : x (j + k + 4) c ≡ b (j + k + 4) c = ground (arith, ih (j + k + 4) c) in
      rw (low, above, here) (ground arith)
  | no high ↦ rw (==_false r (j + k + 4) high) (ground (arith, ih r c))
]

settle :
    (i j n : ℕ) (a b : Matrix) → n ≤ 4 → Same (for_loop n (move_row i j a) b) (settled i j a n b)
unfolding settled
settle i j n a b fits =
    for_loop-induct (λ k s. Same s (settled i j a k b)) n (move_row i j a) b (λ r c. ground arith)
      (λ k x h ih r c. move_row-at i j k a x r c ∙ settle_step i j k a b x (omega arith) ih r c)

block :
    (i j : ℕ) (a b : Matrix)
    → Same
        (for_loop 4 (move_row i j a) (upper_half i j a b))
        (filled (λ r c. within j 8 r && within i 8 c) a b)
unfolding settled halves
block i j a b r c = ground (
  arith,
  settle i j 4 a (upper_half i j a b) (omega arith) r c,
  upper_half-at i j a b r c,
  upper_half-at i j a b (r - 4) (c + 4),
)

blocks :
    (n i : ℕ) (a b : Matrix)
    → Same
        (for_loop n (λ jb b. for_loop 4 (move_row i (jb * 8) a) (upper_half i (jb * 8) a b)) b)
        (filled (λ r c. within i 8 c && ltb r (n * 8)) a b)
blocks n i a b =
    for_loop-induct (λ jb s. Same s (filled (λ r c. within i 8 c && ltb r (jb * 8)) a b)) n
      (λ jb b. for_loop 4 (move_row i (jb * 8) a) (upper_half i (jb * 8) a b)) b
      (λ r c. ground arith) (λ k x h ih r c. ground (arith, block i (k * 8) a x r c, ih r c))

bands :
    (n : ℕ) (a b : Matrix)
    → Same
        (for_loop n
          (λ ib.
            for_loop 8 (λ jb b.
              for_loop 4 (move_row (ib * 8) (jb * 8) a) (upper_half (ib * 8) (jb * 8) a b)))
          b)
        (filled (λ r c. ltb r 64 && ltb c (n * 8)) a b)
bands n a b =
    for_loop-induct (λ ib s. Same s (filled (λ r c. ltb r 64 && ltb c (ib * 8)) a b)) n
      (λ ib.
        for_loop 8
          (λ jb b. for_loop 4 (move_row (ib * 8) (jb * 8) a) (upper_half (ib * 8) (jb * 8) a b)))
      b (λ r c. ground arith) (λ k x h ih r c. ground (arith, blocks 8 (k * 8) a x r c, ih r c))

pub submit_64-fills :
    (a b : Matrix) → Same (submit_64 a b) (filled (λ r c. ltb r 64 && ltb c 64) a b)
unfolding submit_64
submit_64-fills a b = bands 8 a b
