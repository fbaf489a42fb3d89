-- ===== src/Malloc/Implicit/Lawful.antt =====
-- malloclab-handout/mm_blk.c has the laws that the driver asks of an allocator.
use mathlib.Core.Path.{subst, ap₂}
use cmu_ics.Prelude.{
  ℕ, ◌+◌, ◌-◌, ◌%◌, ◌≤◌, ◌<◌, ◌≡◌, refl, sym, ap, ◌⊎◌, inl, inr, some, List, [], ◌∷◌, ◌++◌, map,
  true, All, All-without, All-at, arith,
}
use cmu_ics.Word.{word, half}
use cmu_ics.Malloc.Memory.{Heap, mem_reset_brk}
use cmu_ics.Malloc.Bytes.{get_byte, memset, get_byte-memset, memset-outside}
use cmu_ics.Malloc.Extents.{extents}
use cmu_ics.Malloc.Links.{Absent, Absent-append, Distinct, Distinct-without}
use cmu_ics.Malloc.Driver.Laws.{Payloads, Clear, Preserves, IsLawful}
use cmu_ics.Malloc.Implicit.{mm_init, mm_malloc, mm_free, mm_realloc, chunksize}
use cmu_ics.Malloc.Implicit.Free.{IsHeap}
use cmu_ics.Malloc.Implicit.Init.{mm_init-IsHeap}
use cmu_ics.Malloc.Implicit.Payload.{payload-IsHeap}
use cmu_ics.Malloc.Implicit.Owned.{Held, Owns, around}
use cmu_ics.Malloc.Driver.{eval_mm_valid, TraceOp, valid}
use cmu_ics.Malloc.Driver.Legal.{Legal, total_price}
use cmu_ics.Malloc.Driver.Valid.{eval_mm_valid-valid}
use cmu_ics.Malloc.Implicit.Break.{cost, mm_free-brk, mm_init-brk}
use cmu_ics.Malloc.Implicit.System.{
  mm_malloc-SameSystem, mm_realloc-SameSystem, mm_free-SameSystem, mm_init-SameSystem,
}
use cmu_ics.Malloc.Implicit.Client.{
  set_up, implicit, Held-Clear, Held-even, Kept-Preserves, Held-others, All-pair,
}
use cmu_ics.Malloc.Implicit.Served.{
  room, implicit-malloc, implicit-malloc_room, implicit-free, implicit-realloc,
  implicit-realloc_room,
}

pub implicit-memset :
    (h : Heap) (start : ℕ) (bs : Payloads) (p n v : ℕ)
    → Owns h start ((p, n) ∷ bs)
    → v < 256
    → let h' = record h { mem = memset h.mem p v n } in
      Owns h' start ((p, n) ∷ bs)
      × Preserves implicit (h, start) (h', start) bs
      × ((j : ℕ) → j < n → get_byte (memset h.mem p v n) (p + j) ≡ v)
implicit-memset h start bs p n v o small =
    let (here, held) = o.held in
    let (xs, ys, parts) = here.extent in
    let even = Held-even h start o.blocks o.ordered p n here in
    let outside : (a : ℕ) → (a < p) ⊎ (p + here.room - 8 ≤ a) → memset h.mem p v n a ≡ h.mem a =
      λ a out. memset-outside h.mem p v n a (omega (arith, even)) (wider a out) in
    let (v', kept) =
      payload-IsHeap h start o.blocks xs ys p here.room (memset h.mem p v n) o.ordered parts
        outside in
    let h' : Heap = record h { mem = memset h.mem p v n } in
    (
      record {
        blocks = o.blocks;
        ordered = v';
        held = o.held;
        distinct = o.distinct;
        low = o.low;
        bounded = o.bounded;
      },
      Kept-Preserves h h' start o.blocks (xs ++ ys) bs o.ordered kept (
          All-pair (λ b. Held start (extents start o.blocks) b.0 b.1)
            (λ b. Held start (xs ++ ys) b.0 b.1) bs held
            (Held-others start (extents start o.blocks) xs p here.room ys bs parts o.distinct.0
              held)),
      λ j less. get_byte-memset h.mem p v n j small less,
    )
  where
    wider : (a : ℕ) → (a < p) ⊎ (p + o.held.0.room - 8 ≤ a) → (a < p) ⊎ (p + n ≤ a)
    wider a (inl below) = inl below
    wider a (inr above) = inr (omega (arith, above, o.held.0.fits))

Distinct-Absent :
    (xs : List ℕ) (p : ℕ) (ys : List ℕ) → Distinct (xs ++ (p ∷ ys)) → Absent p (xs ++ ys)
Distinct-Absent [] p ys (a, d) = a
Distinct-Absent (x ∷ xs) p ys (a, d) =
    let (l, (ne, r)) = Absent-append x xs (p ∷ ys) a in
    ((λ e. ne (sym e)), Distinct-Absent xs p ys d)

pointers-append :
    (xs ys : Payloads) → map (λ b. b.0) (xs ++ ys) ≡ map (λ b. b.0) xs ++ map (λ b. b.0) ys
pointers-append [] ys = refl
pointers-append (x ∷ xs) ys = ap (λ t. x.0 ∷ t) (pointers-append xs ys)

pub implicit-front :
    (h : Heap) (start : ℕ) (xs : Payloads) (b : ℕ × ℕ) (ys : Payloads)
    → Owns h start (xs ++ (b ∷ ys))
    → Owns h start (b ∷ (xs ++ ys))
implicit-front h start xs b ys o =
    let P : ℕ × ℕ → Type 0 = λ b. Held start (extents start o.blocks) b.0 b.1 in
    let d = subst Distinct (pointers-append xs (b ∷ ys)) o.distinct in
    let ps = map (λ b. b.0) xs in
    let qs = map (λ b. b.0) ys in
    record {
      blocks = o.blocks;
      ordered = o.ordered;
      held = (All-at P xs b ys o.held, All-without P xs b ys o.held);
      distinct = (
        subst (Absent b.0) (sym (pointers-append xs ys)) (Distinct-Absent ps b.0 qs d),
        subst Distinct (sym (pointers-append xs ys)) (Distinct-without ps b.0 qs d),
      );
      low = o.low;
      bounded = o.bounded;
    }

pub implicit-placed :
    (h : Heap) (start p n : ℕ) (bs : Payloads)
    → Owns h start ((p, n) ∷ bs)
    → (p % 8 ≡ 0)
      × (h.mem_start_brk ≤ p)
      × (p + n ≤ h.mem_brk - 1 + 1)
      × (0 < n)
      × (n < half)
      × All (Clear p n) bs
implicit-placed h start p n bs o =
    let (here, held) = o.held in
    let (xs, ys, parts) = here.extent in
    let (low, even, high, others) = around h start o.blocks xs p here.room ys o.ordered parts in
    (
      even,
      omega (arith, low, o.low),
      omega (arith, high, here.fits),
      here.some_bytes,
      omega (arith, high, here.fits, o.ordered.bounded, low, o.low, o.bounded),
      clear o.ordered here bs held o.distinct.0,
    )
  where
    clear :
        IsHeap h start o.blocks
        → Held start (extents start o.blocks) p n
        → (bs : Payloads) → All (λ b. Held start (extents start o.blocks) b.0 b.1) bs
        → Absent p (map (λ b. b.0) bs)
        → All (Clear p n) bs
    clear v here [] held out = tt
    clear v here (b ∷ bs) (there, held) (ne, out) = (
      Held-Clear h start o.blocks v p n b.0 b.1 here there (λ e. ne (sym e)),
      clear v here bs held out,
    )

-- The start of the heap is aligned, there is room for the first extension, and the heap is below 2 GB.
abbrev pub IsReady : Heap → Type 0
IsReady h =
    (h.mem_start_brk % 8 ≡ 0)
    × (h.mem_start_brk + 16 + chunksize ≤ h.mem_max_addr)
    × (h.mem_max_addr < h.mem_start_brk + half)
    × (h.mem_max_addr < word)

-- `mm_init` succeeds, and leaves all but its first 4112 bytes.
pub implicit-init :
    (h : Heap) (old : ℕ)
    → IsReady h
    → let (ok, (h', start)) = set_up old (mm_init (mem_reset_brk h)) in
      (ok ≡ true)
      × Owns h' start []
      × (h.mem_max_addr ≤ h.mem_start_brk + 16 + chunksize + room h')
      × (h'.mem_max_addr ≡ h.mem_max_addr)
implicit-init h old (even, space, narrow, small) =
    let (e, bs, v, seen) = mm_init-IsHeap (mem_reset_brk h) even space small in
    let (same, same') = mm_init-SameSystem (mem_reset_brk h) in
    let grown = mm_init-brk (mem_reset_brk h) in
    let r : mm_init (mem_reset_brk h)
        ≡ (some (h.mem_start_brk + 8), (mm_init (mem_reset_brk h)).1) =
      ap₂ (λ a b. (a, b)) e refl in
    subst
      (λ r.
        let (ok, (h', start)) = set_up old r in
        (ok ≡ true)
        × Owns h' start []
        × (h.mem_max_addr ≤ h.mem_start_brk + 16 + chunksize + room h')
        × (h'.mem_max_addr ≡ h.mem_max_addr))
      (sym r)
      (
        refl,
        record {
          blocks = bs;
          ordered = v;
          held = tt;
          distinct = tt;
          low = omega (arith, same);
          bounded = omega (arith, same, same', narrow);
        },
        omega (arith, same', grown),
        same',
      )

-- The end of the memory leaves addresses for a request of a size below the limit.
abbrev pub Headroom : ℕ → Heap → Type 0
Headroom limit h = (size : ℕ) → size + 15 < limit → h.mem_max_addr + cost size < word

pub Headroom-same :
    (limit : ℕ) (h h' : Heap)
    → h'.mem_max_addr ≡ h.mem_max_addr
    → Headroom limit h
    → Headroom limit h'
Headroom-same limit h h' e r size less = omega (arith, e, r size less)

pub unwrapped :
    (limit : ℕ) (h : Heap) (start : ℕ) (bs : Payloads) (size : ℕ)
    → Owns h start bs
    → Headroom limit h
    → (size + 15 < limit) ⊎ (cost size ≤ room h)
    → h.mem_brk + cost size < word
unwrapped limit h start bs size o r (inl less) = omega (arith, r size less, o.ordered.bounded)
unwrapped limit h start bs size o r (inr fits) =
    omega (arith, fits, o.ordered.bounded, o.ordered.small)

-- The allocator of mm_blk.c has the laws that the driver asks for, with any payloads in use, up to a limit for
-- which there are addresses behind the memory.
abbrev pub implicit_laws : ℕ → IsLawful implicit
implicit_laws limit = record {
  limit = limit;
  Ready = λ (h, start). IsReady h × Headroom limit h;
  Owned = λ (h, start) bs. Owns h start bs × Headroom limit h;
  room = λ (h, start). room h;
  cost = cost;
  owned-init = λ (h, start) (ready, r).
      let (ok, o, left, same) = implicit-init h start ready in
      (ok, (o, Headroom-same limit h (set_up start (mm_init (mem_reset_brk h))).1.0 same r));
  owned-front = λ (h, start) xs b ys (o, r). (implicit-front h start xs b ys o, r);
  placed = λ (h, start) p n bs (o, r). implicit-placed h start p n bs o;
  malloc-law = λ (h, start) bs size (o, r) pos small asked found.
      let (o', kept) =
        implicit-malloc h start bs size o pos small (unwrapped limit h start bs size o r asked)
          found in
      (
        (
          o',
          Headroom-same limit h (mm_malloc h start size).1 (mm_malloc-SameSystem h start size).1 r,
        ),
        kept,
      );
  malloc-room = λ (h, start) bs size (o, r) pos small asked.
      implicit-malloc_room h start bs size o pos small (unwrapped limit h start bs size o r asked);
  realloc-law = λ (h, start) bs p n size (o, r) pos small asked found.
      let (o', kept, copied) =
        implicit-realloc h start bs p n size o pos small
          (unwrapped limit h start ((p, n) ∷ bs) size o r asked) found in
      (
        (
          o',
          Headroom-same limit h (mm_realloc h start p size).1
              (mm_realloc-SameSystem h start p size).1 r,
        ),
        kept,
        copied,
      );
  realloc-room = λ (h, start) bs p n size (o, r) pos small asked.
      implicit-realloc_room h start bs p n size o pos small
        (unwrapped limit h start ((p, n) ∷ bs) size o r asked);
  free-room = λ (h, start) bs p n o.
      let (e, e') = mm_free-SameSystem h p in omega (arith, e', mm_free-brk h p);
  memset-room = λ (h, start) p n v. omega arith;
  free-law = λ (h, start) bs p n (o, r).
      let (o', kept) = implicit-free h start bs p n o in
      ((o', Headroom-same limit h (mm_free h p) (mm_free-SameSystem h p).1 r), kept);
  memset-law = λ (h, start) bs p n v (o, r) small.
      let (o', kept, bytes) = implicit-memset h start bs p n v o small in ((o', r), kept, bytes);
}

-- mm_blk.c passes `eval_mm_valid` on every legal trace whose allocations fit into the memory that `mm_init`
-- leaves, each with 4096 bytes or, if that is more, with `(size + 15) / 8 * 8`.
pub eval_mm_valid-implicit :
    (h : Heap) (old : ℕ) (ops : List TraceOp) (blocks block_sizes : ℕ → ℕ)
    → IsReady h
    → Legal ops []
    → h.mem_start_brk + 16 + chunksize + total_price cost ops ≤ h.mem_max_addr
    → eval_mm_valid implicit (h, old) ops blocks block_sizes ≡ valid
eval_mm_valid-implicit h old ops blocks block_sizes ready legal enough =
    let (ok, o, left, same) = implicit-init h old ready in
    eval_mm_valid-valid implicit (implicit_laws 0) (h, old) ops blocks block_sizes
      (ready, λ size less. absurd (omega arith)) legal (omega (arith, left, enough))
