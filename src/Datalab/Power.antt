-- ===== src/Datalab/Power.antt =====
-- `floatPower2` of datalab-handout/bits.c against the numbers that its patterns stand for.
use cmu_ics.Prelude.{
  table_holds, table_holds-at, ℕ, ◌+◌, ◌-◌, ◌%◌, ◌^◌, ◌≤◌, ◌<◌, ◌≡◌, refl, true, ◌==◌, arith,
}
use cmu_ics.Word.{word, half}
use cmu_ics.Datalab.Float.{float_power2}
use cmu_ics.Datalab.Value.{magnitude}

-- The pattern of `n - 149`.
abbrev pub exponent : ℕ → ℕ
exponent n = (n + word - 149) % word

power2_table : table_holds (λ n. magnitude (float_power2 (exponent n)) == 2 ^ (n + 1)) 277 ≡ true
unfolding float_power2 table_holds
power2_table = refl

==→≡ : (a b : ℕ) → (a == b) ≡ true → a ≡ b
==→≡ a b h = ground arith

-- `floatPower2` returns the pattern of 2 ^ x for every x from -149 to 127, that is of `n - 149` for
-- n below 277: its magnitude, in units of 2 ^ -150, is 2 ^ (n + 1). Below -149 it returns 0, and from
-- 128 on the pattern of infinity.
pub float_power2-values :
    (n : ℕ)
    → (n < 277 → magnitude (float_power2 (exponent n)) ≡ 2 ^ (n + 1))
      × (half ≤ n → n < word - 149 → float_power2 n ≡ 0)
      × (128 ≤ n → n < half → float_power2 n ≡ 0x7f800000)
unfolding float_power2
float_power2-values n = (
  λ h.
      let fact =
        table_holds-at (λ n. magnitude (float_power2 (exponent n)) == 2 ^ (n + 1)) 277 power2_table
          n h in
      ==→≡ (magnitude (float_power2 (exponent n))) (2 ^ (n + 1)) fact,
  λ a b. ground arith,
  λ a b. ground arith,
)
