-- ===== src/Malloc/Memory.antt =====
-- The memory of malloclab-handout: words at byte addresses, and the break of memlib.c. The program is
-- compiled for 32 bits, so a pointer is a number and fits in a word. An access is to four bytes
-- at a multiple of four, so two accesses are to the same word or apart.
use cmu_ics.Prelude.{
  ℕ, ◌+◌, ◌-◌, ◌*◌, ◌/◌, ◌%◌, ◌^◌, Option, none, some, List, [], ◌∷◌, ◌||◌, ltb, leb, ◌==◌,
  if◌then◌else◌,
}
use cmu_ics.Word.{half, add}

abbrev pub Memory : Type 0
Memory = ℕ → ℕ

-- `*(unsigned*)p = val`
abbrev pub store : ℕ → ℕ → Memory → Memory
store p v m a = if a == p then v else m a

-- `mem_start_brk`, `mem_brk`, `mem_max_addr` and what is stored.
pub record Heap : Type 0 where
  pub mem_start_brk : ℕ
  pub mem_brk : ℕ
  pub mem_max_addr : ℕ
  pub mem : Memory

abbrev pub max_heap : ℕ
max_heap = 20 * 2 ^ 20

-- `storage` is the address that `malloc` returns for `MAX_HEAP` bytes, `garbage` what they hold.
abbrev pub mem_init : ℕ → Memory → Heap
mem_init storage garbage = record {
  mem_start_brk = storage;
  mem_brk = storage;
  mem_max_addr = storage + max_heap;
  mem = garbage;
}

abbrev pub mem_reset_brk : Heap → Heap
mem_reset_brk h = record h { mem_brk = h.mem_start_brk }

-- `none` is `(void*)-1`. The argument is an `int`, negative from 2 ^ 31 on, and the sum
-- of pointers wraps around.
unfoldable pub mem_sbrk : Heap → ℕ → Option ℕ × Heap
mem_sbrk h incr =
    if leb half incr || ltb h.mem_max_addr (add h.mem_brk incr)
    then (none, h)
    else (some h.mem_brk, record h { mem_brk = add h.mem_brk incr })

abbrev pub mem_heap_lo : Heap → ℕ
mem_heap_lo h = h.mem_start_brk

abbrev pub mem_heap_hi : Heap → ℕ
mem_heap_hi h = h.mem_brk - 1

abbrev pub mem_heapsize : Heap → ℕ
mem_heapsize h = h.mem_brk - h.mem_start_brk

-- `memcpy(dst, src, n)` of ranges apart, by words, the last of which may be copied in part.
abbrev pub memcpy : Memory → ℕ → ℕ → ℕ → Memory
memcpy m dst src n a =
    let left = dst + n - a in
    let word_of = m (src + (a - dst)) in
    if ltb a dst || leb (dst + n) a
    then m a
    else if leb 4 left
    then word_of
    else word_of % 2 ^ (8 * left) + m a / 2 ^ (8 * left) * 2 ^ (8 * left)

-- A memory by the words at some addresses, with 0 elsewhere.
abbrev pub words : List (ℕ × ℕ) → Memory
words [] a = 0
words ((p, v) ∷ ws) a = if a == p then v else words ws a
