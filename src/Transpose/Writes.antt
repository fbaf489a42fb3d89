-- ===== src/Transpose/Writes.antt =====
-- Loops over a counter and writes to a matrix, for cachelab-handout/trans.c.
use cmu_ics.Prelude.{
  ℕ, zero, suc, ◌+◌, ◌-◌, ◌<◌, ◌≡◌, refl, Bool, ◌&&◌, ltb, leb, ◌==◌, if◌then◌else◌, arith,
}

abbrev pub Matrix : Type 0
Matrix = ℕ → ℕ → ℕ

-- `B[r][c] = v`
abbrev pub write : ℕ → ℕ → ℕ → Matrix → Matrix
write r c v b i j = if i == r && j == c then v else b i j

-- `for (k = 0; k < n; k++)`
unfoldable pub for_loop {ℓ} : {S : Type ℓ} → ℕ → (ℕ → S → S) → S → S
for_loop zero body s = s
for_loop (suc n) body s = body n (for_loop n body s)

-- Writes of `n` values, which the code reads into locals first, along a row or down a column.
abbrev pub write_row : ℕ → ℕ → ℕ → (ℕ → ℕ) → Matrix → Matrix
unfolding for_loop
write_row n r c v = for_loop n (λ t. write r (c + t) (v t))

abbrev pub write_col : ℕ → ℕ → ℕ → (ℕ → ℕ) → Matrix → Matrix
unfolding for_loop
write_col n r c v = for_loop n (λ t. write (r + t) c (v t))

pub for_loop-zero {ℓ} : {S : Type ℓ} → (body : ℕ → S → S) (s : S) → for_loop 0 body s ≡ s
unfolding for_loop
for_loop-zero body s = refl

pub for_loop-suc {ℓ} :
    {S : Type ℓ}
    → (n : ℕ) (body : ℕ → S → S) (s : S) → for_loop (suc n) body s ≡ body n (for_loop n body s)
unfolding for_loop
for_loop-suc n body s = refl

pub write_row-at :
    (n r c : ℕ) (v : ℕ → ℕ) (b : Matrix) (i j : ℕ)
    → write_row n r c v b i j ≡ (if i == r && (leb c j && ltb j (c + n)) then v (j - c) else b i j)
unfolding for_loop
write_row-at zero r c v b i j = ground arith
write_row-at (suc n) r c v b i j = ground (arith, write_row-at n r c v b i j)

pub write_col-at :
    (n r c : ℕ) (v : ℕ → ℕ) (b : Matrix) (i j : ℕ)
    → write_col n r c v b i j ≡ (if j == c && (leb r i && ltb i (r + n)) then v (i - r) else b i j)
unfolding for_loop
write_col-at zero r c v b i j = ground arith
write_col-at (suc n) r c v b i j = ground (arith, write_col-at n r c v b i j)

-- A loop keeps an invariant that each of its rounds keeps.
pub for_loop-induct {ℓ ℓ'} :
    {S : Type ℓ} (P : ℕ → S → Type ℓ') (n : ℕ) (body : ℕ → S → S) (s : S)
    → P 0 s
    → ((k : ℕ) (x : S) → k < n → P k x → P (suc k) (body k x))
    → P n (for_loop n body s)
unfolding for_loop
for_loop-induct P zero body s start step = start
for_loop-induct P (suc n) body s start step =
    step n (for_loop n body s) (omega arith)
      (for_loop-induct P n body s start (λ k x h p. step k x (omega arith) p))

-- A number from `lo` on, `n` numbers.
abbrev pub within : ℕ → ℕ → ℕ → Bool
within lo n x = leb lo x && ltb x (lo + n)

-- The transpose of `a` where `inside` holds, and elsewhere `b`.
abbrev pub filled : (ℕ → ℕ → Bool) → Matrix → Matrix → Matrix
filled inside a b r c = if inside r c then a c r else b r c

-- Equality of matrices, entry by entry.
abbrev pub Same : Matrix → Matrix → Type 0
Same x y = (r c : ℕ) → x r c ≡ y r c
