-- ===== src/Malloc/Driver/Util/Tests.antt =====
-- `eval_mm_util` of malloclab-handout/mdriver.c with an allocator that only moves the break.
use cmu_ics.Prelude.{ℕ, ◌+◌, ◌-◌, ◌<◌, ◌≡◌, refl, List, [], ◌∷◌, true, arith}
use cmu_ics.Word.{half}
use cmu_ics.Malloc.Driver.{Allocator, TraceOp, alloc, release, realloc}
use cmu_ics.Malloc.Driver.Util.{eval_mm_util, ratio}
use cmu_ics.Malloc.Driver.Util.Peak.{peak}
use cmu_ics.Malloc.Driver.Legal.{Legal, Sized}

-- The state is the break, from 8 on.
abbrev bump : Allocator
bump = record {
  State = ℕ;
  mem_reset_brk = λ s. 8;
  mem_heap_lo = λ s. 8;
  mem_heap_hi = λ s. s - 1;
  mm_init = λ s. (true, s);
  mm_malloc = λ s n. (s, s + n);
  mm_realloc = λ s p n. (s, s + n);
  mm_free = λ s p. s;
  get_byte = λ s a. 0;
  memset = λ s p v n. s;
}

-- 16 and 24 bytes, then 40 in place of the 16.
abbrev ops : List TraceOp
ops =
    record { type = alloc; index = 0; size = 16 }
    ∷ record { type = alloc; index = 1; size = 24 }
    ∷ record { type = realloc; index = 0; size = 40 }
    ∷ record { type = release; index = 1; size = 0 }
    ∷ []

ops-Legal : Legal ops []
ops-Legal =
    let sized : Sized 16 = (omega arith, omega arith) in
    let sized' : Sized 24 = (omega arith, omega arith) in
    let sized'' : Sized 40 = (omega arith, omega arith) in
    (
      tt,
      sized,
      (
        (omega arith, tt),
        sized',
        (
          sized'',
          omega arith,
          (1 ∷ [], [], refl, (omega arith, tt), (0 ∷ [], [], refl, (omega arith, tt), tt)),
        ),
      ),
    )

-- 64 bytes are in use at a time, and the heap has grown to 80.
measured_run : eval_mm_util bump (λ s. s - 8) 0 ops (λ i. 0) (λ i. 0) ≡ ratio 64 80
unfolding eval_mm_util
measured_run = refl

ops-peak : peak ops [] 0 < half
unfolding peak
ops-peak = omega arith
