-- ===== src/Malloc/Tags.antt =====
-- The headers and footers of blocks, as mm_blk.c, mm_list.c, mm.c and mm_right.c of malloclab-handout all
-- have them: a size that is a multiple of eight, and in its low bit whether the block is in use.
use Prim.Native.Nat.{bit_and, bit_or}
use cmu_ics.Prelude.{ℕ, ◌+◌, ◌-◌, ◌*◌, ◌/◌, ◌%◌, ◌^◌, ◌<◌, ◌≡◌, refl, ap, ◌∙◌, arith}
use cmu_ics.Word.{word, lognot, add}
use cmu_ics.Word.Digits.{and_digit}
use cmu_ics.Word.Masks.{and-mask, and-ones, or-fields}
use cmu_ics.Malloc.Memory.{Memory, store}

-- `ALIGN(size)`
unfoldable pub align : ℕ → ℕ
align size = bit_and (add size 7) (lognot 7)

unfoldable pub pack : ℕ → ℕ → ℕ
pack size alloc = bit_or size alloc

unfoldable pub unpack_size : Memory → ℕ → ℕ
unpack_size m p = bit_and (m p) (lognot 7)

unfoldable pub unpack_alloc : Memory → ℕ → ℕ
unpack_alloc m p = bit_and (m p) 1

-- The header, the footer and the neighbours of the block whose payload is at `p`.
abbrev pub get_hdr : ℕ → ℕ
get_hdr p = p - 4

abbrev pub get_ftr : Memory → ℕ → ℕ
get_ftr m p = p + unpack_size m (get_hdr p) - 8

abbrev pub pre_blk : Memory → ℕ → ℕ
pre_blk m p = p - unpack_size m (p - 8)

abbrev pub next_blk : Memory → ℕ → ℕ
next_blk m p = p + unpack_size m (p - 4)

-- The links of a free block, which stand in its payload.
abbrev pub pre_lstp : ℕ → ℕ
pre_lstp p = p

abbrev pub next_lstp : ℕ → ℕ
next_lstp p = p + 4

abbrev pub pre_lst : Memory → ℕ → ℕ
pre_lst m p = m p

abbrev pub next_lst : Memory → ℕ → ℕ
next_lst m p = m (p + 4)

-- `set(get_hdr(bp), pack(size, alloc)); set(get_ftr(bp), pack(size, alloc));`
unfoldable pub set_tags : Memory → ℕ → ℕ → ℕ → Memory
unfolding pack unpack_size
set_tags m p size alloc =
    let m' = store (get_hdr p) (pack size alloc) m in store (get_ftr m' p) (pack size alloc) m'

and-lognot_seven : (x : ℕ) → x < word → bit_and x (lognot 7) ≡ x / 8 * 8
and-lognot_seven x h = omega (
  arith,
  and_digit x (lognot 7),
  and_digit (x / 2) (lognot 7 / 2),
  and_digit (x / 2 / 2) (lognot 7 / 2 / 2),
  and-ones 29 (x / 2 / 2 / 2) (omega arith),
)

pub align_lem : (size : ℕ) → size + 7 < word → align size ≡ (size + 7) / 8 * 8
unfolding align
align_lem size h = and-lognot_seven (add size 7) (omega arith) ∙ omega arith

pub pack-sum :
    (size alloc : ℕ) → size < word → size % 8 ≡ 0 → alloc < 2 → pack size alloc ≡ size + alloc
unfolding pack
pack-sum size alloc h even bit =
    let split : size ≡ size / 2 * 2 ^ 1 = omega arith in
    ap (λ t. bit_or t alloc) split
    ∙ or-fields 32 1 (size / 2) alloc (omega arith) (omega arith)
    ∙ omega arith

pub unpack_size-tag :
    (m : Memory) (p size alloc : ℕ)
    → m p ≡ size + alloc
    → size < word
    → size % 8 ≡ 0
    → alloc < 2
    → unpack_size m p ≡ size
unfolding unpack_size
unpack_size-tag m p size alloc e h even bit =
    rw e (and-lognot_seven (size + alloc) (omega arith) ∙ omega arith)

pub unpack_alloc-tag :
    (m : Memory) (p size alloc : ℕ)
    → m p ≡ size + alloc
    → size < word
    → size % 8 ≡ 0
    → alloc < 2
    → unpack_alloc m p ≡ alloc
unfolding unpack_alloc
unpack_alloc-tag m p size alloc e h even bit =
    rw e (and-mask 32 1 (size + alloc) (omega arith) ∙ omega arith)

-- Where the two tags come to stand: the footer is found by the header that was just written.
pub set_tags-stores :
    (m : Memory) (p size alloc : ℕ)
    → size < word
    → size % 8 ≡ 0
    → alloc < 2
    → set_tags m p size alloc ≡ store (p + size - 8) (size + alloc) (store (p - 4) (size + alloc) m)
unfolding set_tags
set_tags-stores m p size alloc h even bit =
    let m' = store (p - 4) (size + alloc) m in
    let written : m' (p - 4) ≡ size + alloc = ground arith in
    rw (pack-sum size alloc h even bit, unpack_size-tag m' (p - 4) size alloc written h even bit)
      refl
