-- ===== src/Malloc/Implicit.antt =====
-- The allocator of malloclab-handout/mm_blk.c: blocks one behind the other, searched from the first. The
-- state is the memory system and `heap_listp`; NULL is 0.
pub mod Coalesce
pub mod Merge
pub mod Free
pub mod Place
pub mod Extend
pub mod Fit
pub mod Allocate
pub mod Init
pub mod Payload
pub mod Reallocate
pub mod Owned
pub mod System
pub mod Break
pub mod Client
pub mod Served
pub mod Lawful
pub mod Tests
use cmu_ics.Prelude.{
  ℕ, zero, suc, ◌+◌, ◌-◌, ◌*◌, ◌/◌, ◌%◌, ◌^◌, Option, none, some, not, ◌&&◌, ltb, leb, ◌==◌,
  if◌then◌else◌,
}
use cmu_ics.Word.{word, half, add}
use cmu_ics.Malloc.Memory.{Memory, Heap, store, mem_sbrk, memcpy}
use cmu_ics.Malloc.Tags.{
  align, pack, unpack_size, unpack_alloc, get_hdr, get_ftr, pre_blk, next_blk, set_tags,
}

abbrev pub chunksize : ℕ
chunksize = 2 ^ 12

-- `max` of two `int`s.
abbrev pub max_int : ℕ → ℕ → ℕ
max_int x y = if ltb (add x half) (add y half) then y else x

unfoldable pub coalesce : Memory → ℕ → ℕ × Memory
unfolding unpack_size unpack_alloc set_tags
coalesce m bp =
    let size = unpack_size m (get_hdr bp) in
    let pre_alloc = unpack_alloc m (get_ftr m (pre_blk m bp)) in
    let next_alloc = unpack_alloc m (get_hdr (next_blk m bp)) in
    let next_size = unpack_size m (get_hdr (next_blk m bp)) in
    let pre_size = unpack_size m (get_hdr (pre_blk m bp)) in
    if not (pre_alloc == 0) && not (next_alloc == 0)
    then (bp, m)
    else if not (pre_alloc == 0)
    then (bp, set_tags m bp (add size next_size) 0)
    else if not (next_alloc == 0)
    then (pre_blk m bp, set_tags m (pre_blk m bp) (add size pre_size) 0)
    else (pre_blk m bp, set_tags m (pre_blk m bp) (add (add size next_size) pre_size) 0)

-- `extend_heap` once `mem_sbrk` has returned: 0 when the memory system has no more room.
unfoldable pub tag_room : ℕ → Option ℕ × Heap → ℕ × Heap
unfolding set_tags pack unpack_size coalesce
tag_room size (none, h) = (0, h)
tag_room size (some bp, h) =
    let m = set_tags h.mem bp size 0 in
    let (bp', m') = coalesce (store (get_hdr (next_blk m bp)) (pack 0 1) m) bp in
    (bp', record h { mem = m' })

unfoldable pub extend_heap : Heap → ℕ → ℕ × Heap
unfolding mem_sbrk tag_room
extend_heap h words =
    let size = if words % 2 == 0 then words * 4 % word else (words + 1) * 4 % word in
    tag_room size (mem_sbrk h size)

-- `mm_init` once `mem_sbrk` has returned: `heap_listp`, or `none` for the result -1.
unfoldable pub tag_prologue : Option ℕ × Heap → Option ℕ × Heap
unfolding pack extend_heap
tag_prologue (none, h) = (none, h)
tag_prologue (some p, h) =
    let m =
      store (p + 12) (pack 0 1)
        (store (p + 8) (pack 8 1) (store (p + 4) (pack 8 1) (store p 0 h.mem))) in
    let (bp, h') = extend_heap (record h { mem = m }) (chunksize / 4) in
    (if bp == 0 then none else some (p + 8), h')

unfoldable pub mm_init : Heap → Option ℕ × Heap
unfolding mem_sbrk tag_prologue
mm_init h = tag_prologue (mem_sbrk h 16)

-- The loop of `first_fit` at `bp`, whose size is `blk_size`. Every round goes on by eight bytes or more,
-- so the length of the heap is enough fuel.
unfoldable pub fit_loop : ℕ → Memory → ℕ → ℕ → ℕ
unfolding unpack_size unpack_alloc
fit_loop zero m bp req_size = 0
fit_loop (suc fuel) m bp req_size =
    let next = next_blk m bp in
    let rest = fit_loop fuel m next req_size in
    if unpack_size m (get_hdr bp) == 0
    then 0
    else if leb req_size (unpack_size m (get_hdr next)) && unpack_alloc m (get_hdr next) == 0
    then next
    else rest

unfoldable pub first_fit : Heap → ℕ → ℕ → ℕ
unfolding fit_loop
first_fit h heap_listp req_size = fit_loop (h.mem_brk - heap_listp + 1) h.mem heap_listp req_size

unfoldable pub place : Memory → ℕ → ℕ → Memory
unfolding unpack_size set_tags
place m bp req_size =
    let cur_size = unpack_size m (get_hdr bp) in
    let rem_size = (cur_size + word - req_size) % word in
    if ltb rem_size 16
    then set_tags m bp cur_size 1
    else let m' = set_tags m bp req_size 1 in set_tags m' (next_blk m' bp) rem_size 0

unfoldable pub mm_malloc : Heap → ℕ → ℕ → ℕ × Heap
unfolding align first_fit place extend_heap
mm_malloc h heap_listp size =
    let blk_size = align (add size 8) in
    let bp = first_fit h heap_listp blk_size in
    let (bp', h') = extend_heap h (max_int blk_size chunksize / 4) in
    if size == 0
    then (0, h)
    else if not (bp == 0)
    then (bp, record h { mem = place h.mem bp blk_size })
    else if not (bp' == 0)
    then (bp', record h' { mem = place h'.mem bp' blk_size })
    else (0, h')

unfoldable pub mm_free : Heap → ℕ → Heap
unfolding unpack_size set_tags coalesce
mm_free h bp =
    let m = set_tags h.mem bp (unpack_size h.mem (get_hdr bp)) 0 in
    if bp == 0 then h else record h { mem = (coalesce m bp).1 }

-- `min` of two `int`s.
abbrev pub min_int : ℕ → ℕ → ℕ
min_int x y = if ltb (add x half) (add y half) then x else y

-- `mm_realloc` once `mm_malloc` has returned.
unfoldable pub move : ℕ × Heap → ℕ → ℕ → ℕ × Heap
move (newptr, h) ptr size =
    let copy_size = min_int size (unpack_size h.mem (get_hdr ptr)) in
    if newptr == 0
    then (0, h)
    else (newptr, mm_free (record h { mem = memcpy h.mem newptr ptr copy_size }) ptr)

unfoldable pub mm_realloc : Heap → ℕ → ℕ → ℕ → ℕ × Heap
unfolding move
mm_realloc h heap_listp ptr size =
    if ptr == 0
    then mm_malloc h heap_listp size
    else if size == 0
    then (0, mm_free h ptr)
    else move (mm_malloc h heap_listp size) ptr size
