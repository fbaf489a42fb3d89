-- ===== src/Transpose.antt =====
-- The transposition of cachelab-handout/trans.c. A matrix is a function of its row and its column; its
-- entries are the bit patterns of the C `int`s. `A` and `B` are apart in memory.
pub mod Writes
pub mod Other
pub mod Plain
pub mod Square32
pub mod Square64
pub mod Correct
mod Tests
use cmu_ics.Prelude.{
  ℕ, zero, suc, ◌+◌, ◌-◌, ◌*◌, ◌/◌, ◌%◌, Bool, true, false, ◌&&◌, ◌==◌, if◌then◌else◌,
}
use cmu_ics.Transpose.Writes.{Matrix, for_loop, write, write_row, write_col}

-- The branch for 32 by 32: a block of eight rows is copied row by row, then transposed in place.
unfoldable pub copy_block : ℕ → ℕ → Matrix → Matrix → Matrix
unfolding for_loop
copy_block i j a = for_loop 8 (λ k. write_row 8 (j + k) i (λ t. a (i + k) (j + t)))

-- `tmp = B[j + k][i + l]; B[j + k][i + l] = B[j + l][i + k]; B[j + l][i + k] = tmp;`
unfoldable pub swap : ℕ → ℕ → ℕ → ℕ → Matrix → Matrix
swap i j k l b =
    let tmp = b (j + k) (i + l) in
    write (j + l) (i + k) tmp (write (j + k) (i + l) (b (j + l) (i + k)) b)

unfoldable pub transpose_block : ℕ → ℕ → Matrix → Matrix
unfolding for_loop swap
transpose_block i j = for_loop 8 (λ k. for_loop k (λ l. swap i j k l))

unfoldable pub submit_32 : Matrix → Matrix → Matrix
unfolding for_loop copy_block transpose_block
submit_32 a = for_loop 4 (λ ib.
    for_loop 4 (λ jb b. transpose_block (ib * 8) (jb * 8) (copy_block (ib * 8) (jb * 8) a b)))

-- The branch for 64 by 64: the upper half of a block is filled, its right part with what belongs
-- below; then, row by row, that part moves down and the rest is copied.
unfoldable pub upper_half : ℕ → ℕ → Matrix → Matrix → Matrix
unfolding for_loop
upper_half i j a = for_loop 4 (λ k b.
    write_col 4 j (i + k + 4) (λ t. a (i + k) (j + 4 + t))
      (write_col 4 j (i + k) (λ t. a (i + k) (j + t)) b))

unfoldable pub move_row : ℕ → ℕ → Matrix → ℕ → Matrix → Matrix
move_row i j a k b =
    write_row 4 (j + k + 4) (i + 4) (λ t. a (i + 4 + t) (j + k + 4))
      (write_row 4 (j + k + 4) i (λ t. b (j + k) (i + 4 + t))
        (write_row 4 (j + k) (i + 4) (λ t. a (i + 4 + t) (j + k)) b))

unfoldable pub submit_64 : Matrix → Matrix → Matrix
unfolding for_loop upper_half move_row
submit_64 a = for_loop 8 (λ ib.
    for_loop 8
      (λ jb b. for_loop 4 (move_row (ib * 8) (jb * 8) a) (upper_half (ib * 8) (jb * 8) a b)))

-- Any other size: blocks of eight columns of `A`, then the columns that are left.
unfoldable pub submit_other : ℕ → ℕ → Matrix → Matrix → Matrix
unfolding for_loop
submit_other m n a b =
    let m_ = m - m % 8 in
    let blocks =
      for_loop (m / 8) (λ jb. for_loop n (λ k. write_col 8 (jb * 8) k (λ t. a k (jb * 8 + t)))) b in
    for_loop n (λ i. for_loop (m - m_) (λ j. write (m_ + j) i (a i (m_ + j)))) blocks

unfoldable pub transpose_submit : ℕ → ℕ → Matrix → Matrix → Matrix
unfolding submit_32 submit_64 submit_other
transpose_submit m n a b =
    if n == 32 && m == 32
    then submit_32 a b
    else if n == 64 && m == 64
    then submit_64 a b
    else submit_other m n a b

unfoldable pub trans : ℕ → ℕ → Matrix → Matrix → Matrix
unfolding for_loop
trans m n a = for_loop n (λ i. for_loop m (λ j. write j i (a i j)))

-- The loops from `i` and `j` on: a row, and `rows` rows.
unfoldable pub same_row : ℕ → ℕ → ℕ → Matrix → Matrix → Bool
same_row zero i j a b = true
same_row (suc left) i j a b =
    let rest = same_row left i (j + 1) a b in if a i j == b j i then rest else false

unfoldable pub same_rows : ℕ → ℕ → ℕ → Matrix → Matrix → Bool
unfolding same_row
same_rows zero m i a b = true
same_rows (suc left) m i a b =
    let rest = same_rows left m (i + 1) a b in if same_row m i 0 a b then rest else false

unfoldable pub is_transpose : ℕ → ℕ → Matrix → Matrix → Bool
unfolding same_rows
is_transpose m n a b = same_rows n m 0 a b
