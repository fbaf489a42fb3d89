-- ===== src/Malloc/BestFit.antt =====
-- The allocator of malloclab-handout/mm_right.c: as that of mm.c, with other size classes, and the smallest
-- block that is large enough. Accessors, `max` and `min` are those of mm.c.
pub mod Class
mod Tests
use cmu_ics.Prelude.{
  ℕ, zero, suc, ◌+◌, ◌-◌, ◌*◌, ◌/◌, ◌%◌, Option, none, some, not, ◌&&◌, ltb, leb, ◌==◌,
  if◌then◌else◌,
}
use cmu_ics.Word.{word, half, add}
use cmu_ics.Malloc.Memory.{Memory, Heap, store, mem_sbrk, mem_heapsize, memcpy}
use cmu_ics.Malloc.Tags.{
  align, pack, unpack_size, unpack_alloc, get_hdr, get_ftr, pre_blk, next_blk, pre_lst, next_lst,
  pre_lstp, next_lstp, set_tags,
}
use cmu_ics.Malloc.Implicit.{chunksize}
use cmu_ics.Malloc.Segregated.{classnum, max, min}

abbrev pub get_head : ℕ → Memory → ℕ → ℕ
get_head free_listp m class_num = m (free_listp + 4 * class_num)

-- The loop of `get_list_index`, and its result; `none` when the fuel runs out.
unfoldable pub index_loop : ℕ → ℕ → ℕ → ℕ → Option ℕ
index_loop zero size index blk_size = none
index_loop (suc fuel) size index blk_size =
    let rest = index_loop fuel size (index + 1) (blk_size * 2 % word) in
    if ltb blk_size size
    then rest
    else some (if ltb classnum index then classnum - 1 else index - 2)

abbrev or_zero : Option ℕ → ℕ
or_zero none = 0
or_zero (some i) = i

-- `blk_size` doubles from 4 up to 2 ^ 31, in thirty rounds at most. For a larger size it wraps round to 0, and
-- the loop does not end; 0 stands for that here.
unfoldable pub get_list_index : ℕ → ℕ
unfolding index_loop
get_list_index size = or_zero (index_loop 30 size 2 4)

unfoldable pub insert_free_blk : ℕ → Memory → ℕ → Memory
unfolding unpack_size get_list_index
insert_free_blk free_listp m bp =
    let class_num = get_list_index (unpack_size m (get_hdr bp)) in
    let m' = store bp 0 m in
    let empty = store (bp + 4) 0 m' in
    let chained = store (bp + 4) (get_head free_listp m' class_num) m' in
    let linked = store (get_head free_listp chained class_num) bp chained in
    store (free_listp + 4 * class_num) bp
      (if get_head free_listp m class_num == 0 then empty else linked)

unfoldable pub remove_free_blk : ℕ → Memory → ℕ → Memory
unfolding unpack_size get_list_index
remove_free_blk free_listp m bp =
    let class_num = get_list_index (unpack_size m (get_hdr bp)) in
    let pre_p = pre_lst m bp in
    let suc_p = next_lst m bp in
    if pre_p == 0 && suc_p == 0
    then store (free_listp + 4 * class_num) 0 m
    else if not (pre_p == 0) && suc_p == 0
    then store (pre_p + 4) 0 m
    else if pre_p == 0 && not (suc_p == 0)
    then store suc_p 0 (store (free_listp + 4 * class_num) suc_p m)
    else store suc_p pre_p (store (pre_p + 4) suc_p m)

-- The end of `coalesce`: one free block of `size` bytes at `bp`.
unfoldable pub join : ℕ → Memory → ℕ → ℕ → ℕ × Memory
unfolding set_tags insert_free_blk
join free_listp m bp size = (bp, insert_free_blk free_listp (set_tags m bp size 0) bp)

unfoldable pub coalesce : ℕ → Memory → ℕ → ℕ × Memory
unfolding unpack_size unpack_alloc insert_free_blk remove_free_blk join
coalesce free_listp m bp =
    let prev_blk = pre_blk m bp in
    let next = next_blk m bp in
    let size = unpack_size m (get_hdr bp) in
    let prev_alloc = unpack_alloc m (get_ftr m prev_blk) in
    let next_alloc = unpack_alloc m (get_hdr next) in
    let next_size = unpack_size m (get_hdr next) in
    let prev_size = unpack_size m (get_hdr prev_blk) in
    let without_next = remove_free_blk free_listp m next in
    let without_prev = remove_free_blk free_listp m prev_blk in
    let without_both = remove_free_blk free_listp without_next prev_blk in
    if not (prev_alloc == 0) && not (next_alloc == 0)
    then (bp, insert_free_blk free_listp m bp)
    else if not (prev_alloc == 0) && next_alloc == 0
    then join free_listp without_next bp (add size next_size)
    else if prev_alloc == 0 && not (next_alloc == 0)
    then join free_listp without_prev prev_blk (add size prev_size)
    else join free_listp without_both prev_blk (add (add size next_size) prev_size)

-- `extend_heap` once `mem_sbrk` has returned.
unfoldable pub tag_room : ℕ → ℕ → Option ℕ × Heap → ℕ × Heap
unfolding set_tags pack unpack_size coalesce
tag_room free_listp size (none, h) = (0, h)
tag_room free_listp size (some bp, h) =
    let m = set_tags h.mem bp size 0 in
    let (bp', m') = coalesce free_listp (store (get_hdr (next_blk m bp)) (pack 0 1) m) bp in
    (bp', record h { mem = m' })

unfoldable pub extend_heap : Heap → ℕ → ℕ → ℕ × Heap
unfolding mem_sbrk tag_room
extend_heap h free_listp words =
    let size = if words % 2 == 0 then words * 4 % word else (words + 1) * 4 % word in
    tag_room free_listp size (mem_sbrk h size)

-- The loop of `mm_init` that empties the lists.
unfoldable pub clear_lists : ℕ → ℕ → Memory → Memory
clear_lists zero free_listp m = m
clear_lists (suc i) free_listp m = store (free_listp + i * 4) 0 (clear_lists i free_listp m)

-- `mm_init` once `mem_sbrk` has returned: `free_listp`, or `none` for the result -1.
unfoldable pub tag_prologue : Option ℕ × Heap → Option ℕ × Heap
unfolding pack clear_lists extend_heap
tag_prologue (none, h) = (none, h)
tag_prologue (some p, h) =
    let m = store (p + 92) (pack 0 1) (
      store (p + 88) (pack 8 1)
        (store (p + 84) (pack 8 1) (store (p + 80) 0 (clear_lists classnum p h.mem)))) in
    let (bp, h') = extend_heap (record h { mem = m }) p (chunksize / 4) in
    (if bp == 0 then none else some p, h')

unfoldable pub mm_init : Heap → Option ℕ × Heap
unfolding mem_sbrk tag_prologue
mm_init h = tag_prologue (mem_sbrk h 96)

-- The inner loop of `find_fit`, which is at `bp`, and its `min_bp`.
unfoldable pub best_loop : ℕ → Memory → ℕ → ℕ → ℕ → ℕ → ℕ
unfolding unpack_size
best_loop zero m asize min_size min_bp bp = min_bp
best_loop (suc fuel) m asize min_size min_bp bp =
    let cur_size = unpack_size m (get_hdr bp) in
    let better = leb asize cur_size && ltb cur_size min_size in
    let rest =
      best_loop fuel m asize (if better then cur_size else min_size) (if better then bp else min_bp)
        (next_lst m bp) in
    if bp == 0 then min_bp else rest

-- The outer loop, with `left` lists to go from `class_num` on.
unfoldable pub class_loop : ℕ → ℕ → ℕ → Memory → ℕ → ℕ → ℕ
unfolding best_loop
class_loop zero fuel free_listp m asize class_num = 0
class_loop (suc left) fuel free_listp m asize class_num =
    let rest = class_loop left fuel free_listp m asize (class_num + 1) in
    let min_bp = best_loop fuel m asize (word - 1) 0 (get_head free_listp m class_num) in
    if not (min_bp == 0) then min_bp else rest

-- No list is longer than the heap.
unfoldable pub find_fit : Heap → ℕ → ℕ → ℕ
unfolding get_list_index class_loop
find_fit h free_listp asize =
    class_loop (classnum - get_list_index asize) (mem_heapsize h + 1) free_listp h.mem asize
      (get_list_index asize)

unfoldable pub place : ℕ → Memory → ℕ → ℕ → Memory
unfolding unpack_size set_tags remove_free_blk insert_free_blk
place free_listp m bp req_size =
    let total_size = unpack_size m (get_hdr bp) in
    let rem_size = (total_size + word - req_size) % word in
    let m' = remove_free_blk free_listp m bp in
    let m'' = set_tags m' bp req_size 1 in
    let next = next_blk m'' bp in
    if leb 16 rem_size
    then insert_free_blk free_listp (set_tags m'' next rem_size 0) next
    else set_tags m' bp total_size 1

-- `place` in the heap.
abbrev pub place_in : Heap → ℕ → ℕ → ℕ → ℕ × Heap
place_in h free_listp bp req_size = (bp, record h { mem = place free_listp h.mem bp req_size })

unfoldable pub mm_malloc : Heap → ℕ → ℕ → ℕ × Heap
unfolding align find_fit place extend_heap
mm_malloc h free_listp size =
    let blk_size = if leb size 8 then 16 else add 8 (align size) in
    let bp = find_fit h free_listp blk_size in
    let (bp', h') = extend_heap h free_listp (max blk_size chunksize / 4) in
    if size == 0
    then (0, h)
    else if not (bp == 0)
    then place_in h free_listp bp blk_size
    else if not (bp' == 0)
    then place_in h' free_listp bp' blk_size
    else (0, h')

unfoldable pub mm_free : Heap → ℕ → ℕ → Heap
unfolding unpack_size set_tags coalesce
mm_free h free_listp bp =
    let m = set_tags h.mem bp (unpack_size h.mem (get_hdr bp)) 0 in
    if bp == 0 then h else record h { mem = (coalesce free_listp m bp).1 }

unfoldable pub mm_realloc : Heap → ℕ → ℕ → ℕ → ℕ × Heap
unfolding mm_malloc mm_free unpack_size
mm_realloc h free_listp ptr size =
    let (new_ptr, h') = mm_malloc h free_listp size in
    let blk_size = min size (unpack_size h'.mem (get_hdr ptr)) in
    if ptr == 0
    then mm_malloc h free_listp size
    else if size == 0
    then (0, mm_free h free_listp ptr)
    else if new_ptr == 0
    then (0, h')
    else (new_ptr, mm_free (record h' { mem = memcpy h'.mem new_ptr ptr blk_size }) free_listp ptr)
