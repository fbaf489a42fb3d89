-- ===== src/Csim/Tests.antt =====
-- Runs of cachelab-handout/csim.c on small inputs, and the theorems at them.
use cmu_ics.Prelude.{ℕ, ◌≡◌, ◌≢◌, refl, some, none, List, [], ◌∷◌, get_elem?, arith}
use cmu_ics.Prelude.Int.{pos}
use cmu_ics.Csim.{
  Config, State, Access, cleared_cache, run_trace, tag_of, set_of, hit_line, fill_line, access_set,
  find_cache, simulate, read_from_file,
}
use cmu_ics.Csim.Search.{Line, find_tag, find_victim}
use cmu_ics.Csim.History.{Tracks, Counted, find_cache-Tracks, init_cache-Tracks}
use cmu_ics.Csim.Reference.{empty, refer_all}
use cmu_ics.Csim.Reference.Agree.{SameCounts, read_from_file-refer_all}
use cmu_ics.Csim.Options.{
  Opt, Settings, initial, checked, parse_cmd, config_of, IsUsable, parse_cmd-IsUsable,
}

program : Unit {0}
unfolding find_tag find_victim hit_line fill_line access_set find_cache simulate read_from_file
    run_trace
program = tt

-- Two sets of two lines of 16 bytes.
abbrev small : Config
small = record { set_bits = 1; lines = 2; block_bits = 4 }

abbrev op_load : ℕ → Access
op_load a = record { op = b'L'; addr = a }

-- Three tags in one set: the second is used again, so the first is evicted, and then missed.
abbrev script : List Access
script =
    op_load 0x00
    ∷ op_load 0x20
    ∷ record { op = b'I'; addr = 0 }
    ∷ op_load 0x24
    ∷ record { op = b'M'; addr = 0x40 }
    ∷ op_load 0x20
    ∷ op_load 0x00
    ∷ []

abbrev final : State
final = record {
  cnt = 7;
  caches =
      (record { valid = 6; tag = 0 } ∷ record { valid = 5; tag = 1 } ∷ [])
      ∷ (record { valid = 0; tag = 0 } ∷ record { valid = 0; tag = 0 } ∷ [])
      ∷ [];
  hits = 3;
  misses = 4;
  evictions = 2;
}

read_from_file-script : run_trace small script ≡ some final
unfolding program
read_from_file-script = refl

find_cache-Tracks_example :
    (lines : List Line) × (s' : State) × (get_elem? (cleared_cache small).caches (set_of small 0x27)
      ≡ some lines)
    × (find_cache small (cleared_cache small) 0x27 ≡ some s')
    × Tracks small (0x27 ∷ []) s'
    × Counted lines (tag_of small 0x27) (cleared_cache small) s'
find_cache-Tracks_example =
    find_cache-Tracks small [] (cleared_cache small) 0x27 (init_cache-Tracks small)
      (omega arith, omega arith, omega arith, omega arith) (omega arith, omega arith) (omega arith)

-- The reference counts 3 hits, 4 misses and 2 evictions.
read_from_file-refer_all_example :
    (s : State) × (run_trace small script ≡ some s) × SameCounts s (refer_all small script empty)
read_from_file-refer_all_example =
    read_from_file-refer_all small (omega arith) (omega arith, omega arith) script (omega arith)

refer_all-script :
    let r = refer_all small script empty in (r.hits ≡ 3) × (r.misses ≡ 4) × (r.evictions ≡ 2)
unfolding refer_all
refer_all-script = (refl, refl, refl)

options : List Opt
options = Opt.set_bits (pos 4) ∷ Opt.lines (pos 1) ∷ Opt.block_bits (pos 4) ∷ Opt.trace [] ∷ []

abbrev parsed : Settings
parsed = record initial { set = pos 4; e = pos 1; block = pos 4; path = some [] }

parse_cmd-IsUsable_example : IsUsable (config_of parsed) × (parsed.path ≢ none)
unfolding parse_cmd checked options
parse_cmd-IsUsable_example =
    parse_cmd-IsUsable options initial parsed refl (omega arith) (omega arith)
