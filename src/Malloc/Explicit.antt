-- ===== src/Malloc/Explicit.antt =====
-- The allocator of malloclab-handout/mm_list.c: all free blocks on one doubly linked list, whose links stand
-- in the payloads. The state is the memory system and `free_listp`; NULL is 0. Accessors, `max` and `min`
-- are those of mm_blk.c.
pub mod FreeList
mod Tests
use cmu_ics.Prelude.{
  ℕ, zero, suc, ◌+◌, ◌-◌, ◌*◌, ◌/◌, ◌%◌, Option, none, some, not, ◌&&◌, ltb, leb, ◌==◌,
  if◌then◌else◌,
}
use cmu_ics.Word.{word, half, add}
use cmu_ics.Malloc.Memory.{Memory, Heap, store, mem_sbrk, mem_heapsize, memcpy}
use cmu_ics.Malloc.Tags.{
  align, pack, unpack_size, unpack_alloc, get_hdr, get_ftr, pre_blk, next_blk, pre_lst, next_lst,
  pre_lstp, next_lstp, set_tags,
}
use cmu_ics.Malloc.Implicit.{chunksize, max_int, min_int}

-- Memory and `free_listp`.
abbrev pub Lists : Type 0
Lists = Memory × ℕ

unfoldable pub remove_free_blk : Lists → ℕ → Lists
remove_free_blk (m, free_listp) bp =
    let pre = pre_lst m bp in
    let next = next_lst m bp in
    if pre == 0 && next == 0
    then (m, 0)
    else if pre == 0 && not (next == 0)
    then (store (pre_lstp next) 0 m, next)
    else if not (pre == 0) && next == 0
    then (store (next_lstp pre) 0 m, free_listp)
    else (store (next_lstp pre) next (store (pre_lstp next) pre m), free_listp)

unfoldable pub insert_free_blk : Lists → ℕ → Lists
insert_free_blk (m, old_free) bp =
    let m' = store (next_lstp bp) old_free (store (pre_lstp bp) 0 m) in
    (if old_free == 0 then m' else store (pre_lstp old_free) bp m', bp)

-- The end of `coalesce`: one free block of `size` bytes at `bp`.
unfoldable pub join : Lists → ℕ → ℕ → ℕ × Lists
unfolding set_tags insert_free_blk
join (m, free_listp) bp size = (bp, insert_free_blk (set_tags m bp size 0, free_listp) bp)

unfoldable pub coalesce : Lists → ℕ → ℕ × Lists
unfolding unpack_size unpack_alloc insert_free_blk remove_free_blk join
coalesce (m, free_listp) bp =
    let size = unpack_size m (get_hdr bp) in
    let pre_alloc = unpack_alloc m (get_ftr m (pre_blk m bp)) in
    let next_alloc = unpack_alloc m (get_hdr (next_blk m bp)) in
    let next_size = unpack_size m (get_hdr (next_blk m bp)) in
    let without_next = remove_free_blk (m, free_listp) (next_blk m bp) in
    let without_pre = remove_free_blk (m, free_listp) (pre_blk m bp) in
    let m' = without_next.0 in
    let without_both = remove_free_blk without_next (pre_blk m' bp) in
    if not (pre_alloc == 0) && not (next_alloc == 0)
    then (bp, insert_free_blk (m, free_listp) bp)
    else if not (pre_alloc == 0)
    then join without_next bp (add size next_size)
    else if not (next_alloc == 0)
    then join without_pre (pre_blk without_pre.0 bp)
        (add size (unpack_size m (get_ftr m (pre_blk m bp))))
    else join without_both (pre_blk without_both.0 bp)
        (add (add size next_size) (unpack_size m (get_hdr (pre_blk m bp))))

-- `extend_heap` once `mem_sbrk` has returned.
unfoldable pub tag_room : ℕ → ℕ → Option ℕ × Heap → ℕ × Heap × ℕ
unfolding set_tags pack unpack_size coalesce
tag_room free_listp size (none, h) = (0, h, free_listp)
tag_room free_listp size (some bp, h) =
    let m = set_tags h.mem bp size 0 in
    let m₁ = store (get_hdr (next_blk m bp)) (pack 0 1) m in
    let m₂ = store (next_lstp bp) 0 (store (pre_lstp bp) 0 m₁) in
    let (bp', (m₃, free_listp')) = coalesce (m₂, free_listp) bp in
    (bp', record h { mem = m₃ }, free_listp')

unfoldable pub extend_heap : Heap → ℕ → ℕ → ℕ × Heap × ℕ
unfolding mem_sbrk tag_room
extend_heap h free_listp words =
    let size = if words % 2 == 0 then words * 4 % word else (words + 1) * 4 % word in
    tag_room free_listp size (mem_sbrk h size)

-- `mm_init` once `mem_sbrk` has returned: `heap_listp`, or `none` for the result -1.
unfoldable pub tag_prologue : ℕ → Option ℕ × Heap → Option ℕ × Heap × ℕ
unfolding pack extend_heap
tag_prologue free_listp (none, h) = (none, h, free_listp)
tag_prologue free_listp (some p, h) =
    let m =
      store (p + 12) (pack 0 1)
        (store (p + 8) (pack 8 1) (store (p + 4) (pack 8 1) (store p 0 h.mem))) in
    let (bp, h', free_listp') = extend_heap (record h { mem = m }) free_listp (chunksize / 4) in
    if bp == 0 then (none, h', free_listp') else (
      some (p + 8),
      record h' { mem = store (next_lstp bp) 0 (store (pre_lstp bp) 0 h'.mem) },
      free_listp',
    )

-- `free_listp` is as the last use of the allocator left it.
unfoldable pub mm_init : Heap → ℕ → Option ℕ × Heap × ℕ
unfolding mem_sbrk tag_prologue
mm_init h free_listp = tag_prologue free_listp (mem_sbrk h 16)

-- The loop of `first_fit`, which is at `bp`.
unfoldable pub fit_loop : ℕ → Memory → ℕ → ℕ → ℕ
unfolding unpack_size
fit_loop zero m req_size bp = 0
fit_loop (suc fuel) m req_size bp =
    let rest = fit_loop fuel m req_size (next_lst m bp) in
    if bp == 0 then 0 else if leb req_size (unpack_size m (get_hdr bp)) then bp else rest

-- No list is longer than the heap.
unfoldable pub first_fit : Heap → ℕ → ℕ → ℕ
unfolding fit_loop
first_fit h free_listp req_size = fit_loop (mem_heapsize h + 1) h.mem req_size free_listp

unfoldable pub place : Lists → ℕ → ℕ → Lists
unfolding unpack_size set_tags remove_free_blk insert_free_blk
place (m, free_listp) bp req_size =
    let cur_size = unpack_size m (get_hdr bp) in
    let rem_size = (cur_size + word - req_size) % word in
    let (m', free_listp') = remove_free_blk (set_tags m bp req_size 1, free_listp) bp in
    let next = next_blk m' bp in
    if ltb rem_size 16
    then remove_free_blk (set_tags m bp cur_size 1, free_listp) bp
    else insert_free_blk (set_tags m' next rem_size 0, free_listp') next

-- `place` in the heap.
abbrev pub place_in : Heap → ℕ → ℕ → ℕ → ℕ × Heap × ℕ
place_in h free_listp bp req_size =
    let (m, free_listp') = place (h.mem, free_listp) bp req_size in
    (bp, record h { mem = m }, free_listp')

unfoldable pub mm_malloc : Heap → ℕ → ℕ → ℕ × Heap × ℕ
unfolding align first_fit place extend_heap
mm_malloc h free_listp size =
    let blk_size = align (add size 8) in
    let bp = first_fit h free_listp blk_size in
    let (bp', h', free_listp') = extend_heap h free_listp (max_int blk_size chunksize / 4) in
    if size == 0
    then (0, h, free_listp)
    else if not (bp == 0)
    then place_in h free_listp bp blk_size
    else if not (bp' == 0)
    then place_in h' free_listp' bp' blk_size
    else (0, h', free_listp')

unfoldable pub mm_free : Heap → ℕ → ℕ → Heap × ℕ
unfolding unpack_size set_tags coalesce
mm_free h free_listp bp =
    let m = set_tags h.mem bp (unpack_size h.mem (get_hdr bp)) 0 in
    let (bp', (m', free_listp')) = coalesce (m, free_listp) bp in
    if bp == 0 then (h, free_listp) else (record h { mem = m' }, free_listp')

unfoldable pub mm_realloc : Heap → ℕ → ℕ → ℕ → ℕ × Heap × ℕ
unfolding mm_malloc mm_free unpack_size
mm_realloc h free_listp ptr size =
    let (newptr, h', free_listp') = mm_malloc h free_listp size in
    let copy_size = min_int size (unpack_size h'.mem (get_hdr ptr)) in
    let (freed, left) = mm_free h free_listp ptr in
    let copied = record h' { mem = memcpy h'.mem newptr ptr copy_size } in
    let (moved, left') = mm_free copied free_listp' ptr in
    if ptr == 0
    then mm_malloc h free_listp size
    else if size == 0
    then (0, freed, left)
    else if newptr == 0
    then (0, h', free_listp')
    else (newptr, moved, left')
