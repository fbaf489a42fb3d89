-- ===== src/Csim/Earlier/Tests.antt =====
-- Runs of cachelab-handout_back/csim.c.
use cmu_ics.Prelude.{ℕ, ◌≡◌, refl, ◌⊎◌, some, List, [], ◌∷◌, true, arith}
use cmu_ics.Prelude.Int.{pos}
use cmu_ics.Csim.Options.{Opt, set_bits, lines, block_bits, trace}
use cmu_ics.Csim.Earlier.{Line, Counts, find_cache, main, Scan, exited}
use cmu_ics.Csim.Earlier.Frozen.{main-ends, Frozen, use_all-Frozen}

abbrev line : ℕ → ℕ → Line
line tag t = record { valid = 1; tag = tag; timestp = t }

abbrev zero_counts : Counts
zero_counts = record { hit = 0; miss = 0; evict = 0 }

-- The tag 7 was used just before, and is evicted; 8 was used longer ago.
recent_evicted :
    find_cache 9 (line 7 3 ∷ line 8 0 ∷ []) zero_counts
    ≡ some (line 9 4 ∷ line 8 0 ∷ [], record { hit = 0; miss = 1; evict = 1 })
unfolding find_cache
recent_evicted = refl

use_all-Frozen_example : Frozen (9 ∷ 7 ∷ 8 ∷ []) (line 7 3) (line 8 0 ∷ []) zero_counts
use_all-Frozen_example =
    use_all-Frozen (9 ∷ 7 ∷ 8 ∷ []) (line 7 3) (line 8 0 ∷ []) zero_counts
      (omega arith, (omega arith, tt)) (omega arith) (omega arith, omega arith, omega arith)

abbrev opts : List Opt
opts = set_bits (pos 4) ∷ lines (pos 1) ∷ block_bits (pos 4) ∷ trace (b't' ∷ []) ∷ []

abbrev scan : Scan
scan = record { complete = true; op = b'L'; addr = 16 }

main-ends_example : (main opts (scan ∷ []) ≡ exited 0) ⊎ (main opts (scan ∷ []) ≡ exited 1)
main-ends_example = main-ends opts (scan ∷ [])
