-- ===== src/Malloc/Segregated.antt =====
-- The allocator of malloclab-handout/mm.c: a doubly linked list of free blocks for each of twenty size
-- classes, whose heads stand in the heap from `free_listp` on. The state is the memory system; `free_listp`
-- does not change after `mm_init`. NULL is 0.
pub mod Class
pub mod Spaced
pub mod Lists
pub mod Insert
mod Tests
use cmu_ics.Prelude.{
  ℕ, zero, suc, ◌+◌, ◌-◌, ◌*◌, ◌/◌, ◌%◌, ◌^◌, Option, none, some, not, ◌&&◌, ltb, leb, ◌==◌,
  if◌then◌else◌,
}
use cmu_ics.Word.{word, half, add}
use cmu_ics.Malloc.Memory.{Memory, Heap, store, mem_sbrk, mem_heapsize, memcpy}
use cmu_ics.Malloc.Tags.{
  align, pack, unpack_size, unpack_alloc, get_hdr, get_ftr, pre_blk, next_blk, pre_lst, next_lst,
  pre_lstp, next_lstp, set_tags,
}
use cmu_ics.Malloc.Implicit.{chunksize}

abbrev pub classnum : ℕ
classnum = 20

-- `max` and `min` of two `unsigned`s.
abbrev pub max : ℕ → ℕ → ℕ
max x y = if ltb y x then x else y

abbrev pub min : ℕ → ℕ → ℕ
min x y = if ltb x y then x else y

-- The loop of `get_list_idx` with `left` rounds to go, from `i` on.
unfoldable pub idx_loop : ℕ → ℕ → ℕ → ℕ
idx_loop zero size i = classnum - 1
idx_loop (suc left) size i =
    let rest = idx_loop left size (i + 1) in if leb size (2 ^ i) then i - 4 else rest

unfoldable pub get_list_idx : ℕ → ℕ
unfolding idx_loop
get_list_idx size = idx_loop classnum size 4

unfoldable pub remove_free_blk : ℕ → Memory → ℕ → Memory
unfolding unpack_size get_list_idx
remove_free_blk free_listp m bp =
    let prev = pre_lst m bp in
    let next = next_lst m bp in
    let head = free_listp + get_list_idx (unpack_size m (get_hdr bp)) * 4 in
    if prev == 0 && next == 0
    then store head 0 m
    else if prev == 0 && not (next == 0)
    then store head next (store (pre_lstp next) 0 m)
    else if not (prev == 0) && next == 0
    then store (next_lstp prev) 0 m
    else store (next_lstp prev) next (store (pre_lstp next) prev m)

unfoldable pub insert_free_blk : ℕ → Memory → ℕ → Memory
unfolding unpack_size get_list_idx
insert_free_blk free_listp m bp =
    let head = free_listp + get_list_idx (unpack_size m (get_hdr bp)) * 4 in
    let root = m head in
    let m' =
      if root == 0
      then store (next_lstp bp) 0 (store (pre_lstp bp) 0 m)
      else store (pre_lstp root) bp (store (next_lstp bp) root (store (pre_lstp bp) 0 m)) in
    store head bp m'

-- The end of `coalesce`: one free block of `size` bytes at `bp`.
unfoldable pub join : ℕ → Memory → ℕ → ℕ → ℕ × Memory
unfolding set_tags insert_free_blk
join free_listp m bp size = (bp, insert_free_blk free_listp (set_tags m bp size 0) bp)

unfoldable pub coalesce : ℕ → Memory → ℕ → ℕ × Memory
unfolding unpack_size unpack_alloc insert_free_blk remove_free_blk join
coalesce free_listp m bp =
    let prev_blk = pre_blk m bp in
    let next = next_blk m bp in
    let size = unpack_size m (get_hdr bp) in
    let prev_alloc = unpack_alloc m (get_hdr prev_blk) in
    let next_alloc = unpack_alloc m (get_hdr next) in
    let next_size = unpack_size m (get_hdr next) in
    let prev_size = unpack_size m (get_hdr prev_blk) in
    let without_next = remove_free_blk free_listp m next in
    let without_prev = remove_free_blk free_listp m prev_blk in
    let without_both = remove_free_blk free_listp without_next prev_blk in
    if not (prev_alloc == 0) && not (next_alloc == 0)
    then (bp, insert_free_blk free_listp m bp)
    else if not (prev_alloc == 0) && next_alloc == 0
    then join free_listp without_next bp (add size next_size)
    else if prev_alloc == 0 && not (next_alloc == 0)
    then join free_listp without_prev prev_blk (add size prev_size)
    else join free_listp without_both prev_blk (add (add size next_size) prev_size)

-- `extend_heap` once `mem_sbrk` has returned.
unfoldable pub tag_room : ℕ → ℕ → Option ℕ × Heap → ℕ × Heap
unfolding set_tags pack unpack_size coalesce
tag_room free_listp size (none, h) = (0, h)
tag_room free_listp size (some bp, h) =
    let m = set_tags h.mem bp size 0 in
    let (bp', m') = coalesce free_listp (store (get_hdr (next_blk m bp)) (pack 0 1) m) bp in
    (bp', record h { mem = m' })

unfoldable pub extend_heap : Heap → ℕ → ℕ → ℕ × Heap
unfolding mem_sbrk tag_room
extend_heap h free_listp words =
    let size = if words % 2 == 0 then words * 4 % word else (words + 1) * 4 % word in
    tag_room free_listp size (mem_sbrk h size)

-- The loop of `mm_init` that empties the lists.
unfoldable pub clear_lists : ℕ → ℕ → Memory → Memory
clear_lists zero free_listp m = m
clear_lists (suc i) free_listp m = store (free_listp + i * 4) 0 (clear_lists i free_listp m)

-- `mm_init` once `mem_sbrk` has returned: `free_listp`, or `none` for the result -1.
unfoldable pub tag_prologue : Option ℕ × Heap → Option ℕ × Heap
unfolding pack clear_lists extend_heap
tag_prologue (none, h) = (none, h)
tag_prologue (some p, h) =
    let m = store (p + 92) (pack 0 1) (
      store (p + 88) (pack 8 1)
        (store (p + 84) (pack 8 1) (store (p + 80) 0 (clear_lists classnum p h.mem)))) in
    let (bp, h') = extend_heap (record h { mem = m }) p (chunksize / 4) in
    (if bp == 0 then none else some p, h')

unfoldable pub mm_init : Heap → Option ℕ × Heap
unfolding mem_sbrk tag_prologue
mm_init h = tag_prologue (mem_sbrk h 96)

-- The inner loop of `find_fit`, which is at `free_hdr`.
unfoldable pub fit_loop : ℕ → Memory → ℕ → ℕ → ℕ
unfolding unpack_size
fit_loop zero m size free_hdr = 0
fit_loop (suc fuel) m size free_hdr =
    let rest = fit_loop fuel m size (next_lst m free_hdr) in
    if free_hdr == 0
    then 0
    else if leb size (unpack_size m (get_hdr free_hdr))
    then free_hdr
    else rest

-- The outer loop, with `left` lists to go from `idx` on.
unfoldable pub class_loop : ℕ → ℕ → ℕ → Memory → ℕ → ℕ → ℕ
unfolding fit_loop
class_loop zero fuel free_listp m size idx = 0
class_loop (suc left) fuel free_listp m size idx =
    let rest = class_loop left fuel free_listp m size (idx + 1) in
    let found = fit_loop fuel m size (m (free_listp + idx * 4)) in
    if not (found == 0) then found else rest

-- No list is longer than the heap.
unfoldable pub find_fit : Heap → ℕ → ℕ → ℕ
unfolding get_list_idx class_loop
find_fit h free_listp size =
    class_loop (classnum - get_list_idx size) (mem_heapsize h + 1) free_listp h.mem size
      (get_list_idx size)

unfoldable pub place : ℕ → Memory → ℕ → ℕ → Memory
unfolding unpack_size set_tags remove_free_blk insert_free_blk
place free_listp m bp req_size =
    let total_size = unpack_size m (get_hdr bp) in
    let rem_size = (total_size + word - req_size) % word in
    let m' = remove_free_blk free_listp m bp in
    let m'' = set_tags m' bp req_size 1 in
    let next = next_blk m'' bp in
    if ltb rem_size 16
    then set_tags m' bp total_size 1
    else insert_free_blk free_listp (set_tags m'' next rem_size 0) next

-- `place` in the heap.
abbrev pub place_in : Heap → ℕ → ℕ → ℕ → ℕ × Heap
place_in h free_listp bp req_size = (bp, record h { mem = place free_listp h.mem bp req_size })

unfoldable pub mm_malloc : Heap → ℕ → ℕ → ℕ × Heap
unfolding align find_fit place extend_heap
mm_malloc h free_listp size =
    let blk_size = add 8 (align size) in
    let bp = find_fit h free_listp blk_size in
    let (bp', h') = extend_heap h free_listp (max blk_size chunksize / 4) in
    if size == 0
    then (0, h)
    else if not (bp == 0)
    then place_in h free_listp bp blk_size
    else if not (bp' == 0)
    then place_in h' free_listp bp' blk_size
    else (0, h')

unfoldable pub mm_free : Heap → ℕ → ℕ → Heap
unfolding unpack_size set_tags coalesce
mm_free h free_listp bp =
    let m = set_tags h.mem bp (unpack_size h.mem (get_hdr bp)) 0 in
    if bp == 0 then h else record h { mem = (coalesce free_listp m bp).1 }

-- There is no test that `mm_malloc` has found a block: `memcpy` to the null pointer is undefined, and
-- the model then writes from address 0 on.
unfoldable pub mm_realloc : Heap → ℕ → ℕ → ℕ → ℕ × Heap
unfolding mm_malloc mm_free unpack_size
mm_realloc h free_listp ptr size =
    let (new_ptr, h') = mm_malloc h free_listp size in
    let blk_size = min size (unpack_size h'.mem (get_hdr ptr)) in
    if ptr == 0
    then mm_malloc h free_listp size
    else if size == 0
    then (0, mm_free h free_listp ptr)
    else (new_ptr, mm_free (record h' { mem = memcpy h'.mem new_ptr ptr blk_size }) free_listp ptr)
