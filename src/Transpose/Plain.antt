-- ===== src/Transpose/Plain.antt =====
-- `trans` and `is_transpose` of cachelab-handout/trans.c.
use native.Mathlib.Decide.{ℕ_discrete}
use cmu_ics.Prelude.{ℕ, zero, suc, ◌+◌, ◌≤◌, ◌<◌, ◌≡◌, ◌↔◌, refl, true, ◌&&◌, ltb, ◌==◌, arith}
use cmu_ics.Transpose.Writes.{Matrix, write, for_loop, for_loop-induct, filled, Same}
use cmu_ics.Transpose.{trans, same_row, same_rows, is_transpose}

-- One row of `A` becomes one column of `B`.
pub column :
    (m i : ℕ) (a b : Matrix)
    → Same (for_loop m (λ j. write j i (a i j)) b) (filled (λ r c. c == i && ltb r m) a b)
column m i a b =
    for_loop-induct (λ j s. Same s (filled (λ r c. c == i && ltb r j) a b)) m
      (λ j. write j i (a i j)) b (λ r c. ground arith) (λ k x h ih r c. ground (arith, ih r c))

-- `trans` writes the transpose of the `N` by `M` matrix `A` to the first `M` rows and `N` columns of
-- `B`, and nothing anywhere else.
pub trans-fills :
    (m n : ℕ) (a b : Matrix) → Same (trans m n a b) (filled (λ r c. ltb r m && ltb c n) a b)
unfolding trans
trans-fills m n a b =
    for_loop-induct (λ i s. Same s (filled (λ r c. ltb r m && ltb c i) a b)) n
      (λ i. for_loop m (λ j. write j i (a i j))) b (λ r c. ground arith)
      (λ k x h ih r c. ground (arith, column m k a x r c, ih r c))

abbrev AgreeOn : ℕ → ℕ → ℕ → Matrix → Matrix → Type 0
AgreeOn i j left a b = (t : ℕ) → j ≤ t → t < j + left → a i t ≡ b t i

same_row-AgreeOn :
    (left i j : ℕ) (a b : Matrix) → same_row left i j a b ≡ true → AgreeOn i j left a b
unfolding same_row
same_row-AgreeOn zero i j a b e t low high = absurd (omega arith)
same_row-AgreeOn (suc left) i j a b e t low high = elim (ℕ_discrete t j) [
  | yes same ↦ rw same (ground arith)
  | no other ↦ same_row-AgreeOn left i (j + 1) a b (ground arith) t (omega arith) (omega arith)
]

AgreeOn-same_row :
    (left i j : ℕ) (a b : Matrix) → AgreeOn i j left a b → same_row left i j a b ≡ true
unfolding same_row
AgreeOn-same_row zero i j a b f = refl
AgreeOn-same_row (suc left) i j a b f =
    let here = f j (omega arith) (omega arith) in
    let rest =
      AgreeOn-same_row left i (j + 1) a b (λ t low high. f t (omega arith) (omega arith)) in
    ground arith

same_rows-AgreeOn :
    (left m i : ℕ) (a b : Matrix)
    → same_rows left m i a b ≡ true
    → (t : ℕ) → i ≤ t
    → t < i + left
    → AgreeOn t 0 m a b
unfolding same_rows
same_rows-AgreeOn zero m i a b e t low high = absurd (omega arith)
same_rows-AgreeOn (suc left) m i a b e t low high = elim (ℕ_discrete t i) [
  | yes same ↦ rw same (same_row-AgreeOn m i 0 a b (ground arith))
  | no other ↦ same_rows-AgreeOn left m (i + 1) a b (ground arith) t (omega arith) (omega arith)
]

AgreeOn-same_rows :
    (left m i : ℕ) (a b : Matrix)
    → ((t : ℕ) → i ≤ t → t < i + left → AgreeOn t 0 m a b)
    → same_rows left m i a b ≡ true
unfolding same_rows
AgreeOn-same_rows zero m i a b f = refl
AgreeOn-same_rows (suc left) m i a b f =
    let here = AgreeOn-same_row m i 0 a b (f i (omega arith) (omega arith)) in
    let rest =
      AgreeOn-same_rows left m (i + 1) a b (λ t low high. f t (omega arith) (omega arith)) in
    ground arith

-- `is_transpose` returns 1 exactly when `B` agrees with the transpose of `A` on all `N` rows and `M`
-- columns of `A`.
pub is_transpose_iff :
    (m n : ℕ) (a b : Matrix)
    → is_transpose m n a b ≡ true ↔ ((i j : ℕ) → i < n → j < m → a i j ≡ b j i)
unfolding is_transpose
is_transpose_iff m n a b = (
  λ e i j hi hj.
      same_rows-AgreeOn n m 0 a b e i (omega arith) (omega arith) j (omega arith) (omega arith),
  λ f. AgreeOn-same_rows n m 0 a b (λ t low high u low' high'. f t u (omega arith) (omega arith)),
)
