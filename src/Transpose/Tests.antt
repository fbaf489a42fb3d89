-- ===== src/Transpose/Tests.antt =====
-- Runs of cachelab-handout/trans.c on a small matrix, and the theorems at it.
use cmu_ics.Prelude.{◌+◌, ◌*◌, ◌≡◌, refl, false, ◌&&◌, ltb}
use cmu_ics.Transpose.Writes.{Matrix, Same, filled, for_loop}
use cmu_ics.Transpose.{
  transpose_submit, is_transpose, submit_32, submit_64, submit_other, same_row, same_rows,
}
use cmu_ics.Transpose.Correct.{transpose_submit-fills}

abbrev numbered : Matrix
numbered i j = i * 100 + j

abbrev sevens : Matrix
sevens i j = 7

one_entry : transpose_submit 11 3 numbered sevens 10 2 ≡ 210
unfolding transpose_submit submit_32 submit_64 submit_other for_loop
one_entry = refl

beyond : transpose_submit 11 3 numbered sevens 2 10 ≡ 7
unfolding transpose_submit submit_32 submit_64 submit_other for_loop
beyond = refl

not_transposed : is_transpose 2 2 numbered numbered ≡ false
unfolding is_transpose same_rows same_row
not_transposed = refl

transpose_submit-fills_example :
    Same
      (transpose_submit 64 64 numbered sevens)
      (filled (λ r c. ltb r 64 && ltb c 64) numbered sevens)
transpose_submit-fills_example = transpose_submit-fills 64 64 numbered sevens
