-- ===== src/Malloc/Driver/Tests.antt =====
-- Traces and ranges for malloclab-handout/mdriver.c, with mm_blk.c as the allocator.
use cmu_ics.Prelude.{
  ℕ, ◌+◌, ◌%◌, ◌≤◌, ◌<◌, ◌≡◌, ◌↔◌, refl, ◌⊎◌, inl, inr, List, [], ◌∷◌, All, arith,
}
use cmu_ics.Malloc.Memory.{Heap, mem_init, mem_heapsize}
use cmu_ics.Malloc.Driver.{
  Range, OpType, TraceOp, alloc, release, realloc, added, add_range, eval_mm_valid, valid, Driver,
  eval_op, realloc_failed, data_lost,
}
use cmu_ics.Malloc.Driver.Ranges.{Passed, add_range_iff}
use cmu_ics.Malloc.Driver.Step.{IsRunning, filled, filled-IsRunning}
use cmu_ics.Malloc.Driver.Legal.{Legal, Sized, Fair}
use cmu_ics.Malloc.Driver.Valid.{eval_mm_valid-Fair}
use cmu_ics.Malloc.Driver.Signed.{eval_op-data_lost}
use cmu_ics.Malloc.Implicit.Owned.{Owns}
use cmu_ics.Malloc.Implicit.Tests.{heap, blocks, heap-IsHeap, heap-extents}
use cmu_ics.Malloc.Implicit.Client.{implicit}
use cmu_ics.Malloc.Driver.Util.{eval_mm_util, ratio}
use cmu_ics.Malloc.Driver.Util.Peak.{peak}
use cmu_ics.Malloc.Driver.Util.Runs.{replay, eval_mm_util-ratio}
use cmu_ics.Word.{half}
use cmu_ics.Malloc.Implicit.Lawful.{
  Headroom, IsReady, implicit-init, implicit_laws, eval_mm_valid-implicit,
}

abbrev op : OpType → ℕ → ℕ → TraceOp
op t i n = record { type = t; index = i; size = n }

-- The storage at 4096, with 0 in it.
abbrev fresh : Heap
fresh = mem_init 4096 (λ a. 0)

fresh-IsReady : IsReady fresh
fresh-IsReady = (refl, omega arith, omega arith, omega arith)

abbrev trace : List TraceOp
trace = op alloc 0 16 ∷ op alloc 1 24 ∷ op realloc 0 40 ∷ op release 1 0 ∷ op release 0 0 ∷ []

fresh-Headroom : Headroom half fresh
fresh-Headroom size less = ground arith

trace-Legal : Legal trace []
trace-Legal =
    let sized : Sized 16 = (omega arith, omega arith) in
    let sized' : Sized 24 = (omega arith, omega arith) in
    let sized'' : Sized 40 = (omega arith, omega arith) in
    (
      tt,
      sized,
      (
        (omega arith, tt),
        sized',
        (
          sized'',
          omega arith,
          (
            1 ∷ [],
            [],
            refl,
            (omega arith, tt),
            (0 ∷ [], [], refl, (omega arith, tt), ([], [], refl, tt, tt)),
          ),
        ),
      ),
    )

eval_mm_valid-Fair_example : Fair (eval_mm_valid implicit (fresh, 0) trace (λ i. 0) (λ i. 0))
eval_mm_valid-Fair_example =
    eval_mm_valid-Fair implicit (implicit_laws half) (fresh, 0) trace (λ i. 0) (λ i. 0)
      (fresh-IsReady, fresh-Headroom) trace-Legal
      (omega arith, (omega arith, (omega arith, (tt, (tt, tt)))))

eval_mm_valid-implicit_example : eval_mm_valid implicit (fresh, 0) trace (λ i. 0) (λ i. 0) ≡ valid
eval_mm_valid-implicit_example =
    eval_mm_valid-implicit fresh 0 trace (λ i. 0) (λ i. 0) fresh-IsReady trace-Legal (omega arith)

trace-peak : peak trace [] 0 < half
unfolding peak
trace-peak = omega arith

-- mm_blk.c on the same trace.
eval_mm_util-ratio_example :
    eval_mm_util implicit (λ (h, start). mem_heapsize h) (fresh, 0) trace (λ i. 0) (λ i. 0)
    ≡ ratio (peak trace [] 0) (
        mem_heapsize
          (replay implicit trace
            ((implicit.mm_init (implicit.mem_reset_brk (fresh, 0))).1, λ i. 0)).0)
eval_mm_util-ratio_example =
    eval_mm_util-ratio implicit (λ (h, start). mem_heapsize h) (implicit_laws half) (fresh, 0) trace
      (λ i. 0) (λ i. 0) (fresh-IsReady, fresh-Headroom) trace-Legal trace-peak
      (let (ok, o, left, same) = implicit-init fresh 0 fresh-IsReady in omega (arith, left))

-- A heap of 64 bytes at 4096, and a payload of four bytes in it.
abbrev small_heap : Heap
small_heap = record fresh { mem_brk = 4160 }

abbrev four_bytes : Range
four_bytes = record { lo = 4112; hi = 4115 }

add_range_iff_example :
    (add_range implicit (small_heap, 0) (four_bytes ∷ []) 4104 16
      ≡ added (record { lo = 4104; hi = 4119 } ∷ four_bytes ∷ []))
    ↔ ((4104 % 8 ≡ 0)
        × (4096 ≤ 4104)
        × (4104 + 16 ≤ 4159 + 1)
        × All (Passed 4104 4119) (four_bytes ∷ []))
add_range_iff_example =
    add_range_iff implicit (small_heap, 0) (four_bytes ∷ []) 4104 16 (omega arith) (omega arith)
      (omega arith, tt)

-- The new payload has all four bytes of the old one in it, and is accepted.
contained :
    add_range implicit (small_heap, 0) (four_bytes ∷ []) 4104 16
    ≡ added (record { lo = 4104; hi = 4119 } ∷ four_bytes ∷ [])
contained =
    (add_range_iff implicit (small_heap, 0) (four_bytes ∷ []) 4104 16 (omega arith) (omega arith)
        (omega arith, tt)).1
      (refl, omega arith, omega arith, (inr (inr (omega arith, omega arith)), tt))

-- Eight bytes at 16 in the heap of four blocks, for the client.
eight-Owns : Owns heap 8 ((16, 8) ∷ [])
eight-Owns = record {
  blocks = blocks;
  ordered = heap-IsHeap;
  held = (
    record {
      room = 16;
      extent = ((8, 8) ∷ [], (64, 16) ∷ [], heap-extents);
      other = omega arith;
      fits = omega arith;
      some_bytes = omega arith;
    },
    tt,
  );
  distinct = (tt, tt);
  low = omega arith;
  bounded = omega arith;
}

abbrev idle : Driver implicit
idle = record { state = (heap, 8); ranges = []; blocks = λ i. 0; block_sizes = λ i. 0 }

abbrev eight : Range
eight = record { lo = 16; hi = 23 }

-- The driver once the payload has the index 200.
abbrev running : Driver implicit
running = filled implicit (implicit_laws half) idle (heap, 8) (eight ∷ []) 200 16 8

running-IsRunning :
    IsRunning implicit
      (implicit_laws half)
      running
      (record { index = 200; ptr = 16; size = 8 } ∷ [])
running-IsRunning =
    filled-IsRunning implicit (implicit_laws half) idle (heap, 8) [] 200 16 8
      (eight-Owns, λ size less. ground arith) tt tt tt

eval_op-data_lost_example :
    let r = eval_op implicit running (op realloc 200 12) in
    (r ≡ inl realloc_failed) ⊎ (r ≡ inl data_lost)
eval_op-data_lost_example =
    eval_op-data_lost implicit (implicit_laws half) running
      (record { index = 200; ptr = 16; size = 8 } ∷ []) [] 200 [] 12 running-IsRunning refl
      (omega arith) (omega arith, omega arith) (inl (omega arith))
