-- ===== src/Malloc/Driver/Util/Runs.antt =====
-- `eval_mm_util` of malloclab-handout/mdriver.c with an allocator that has the laws and room enough.
use mathlib.Core.Path.{subst}
use cmu_ics.Prelude.{
  ℕ, ◌+◌, ◌≤◌, ◌<◌, ◌≡◌, ◌≢◌, refl, sym, ap, ◌∙◌, inl, inr, some, List, [], ◌∷◌, ◌++◌, map, ==_true,
  ==_false, All, All-without, All-at, arith,
}
use cmu_ics.Word.{half, add}
use cmu_ics.Malloc.Links.{Absent}
use cmu_ics.Malloc.Driver.{Allocator, OpType, alloc, release, realloc, TraceOp, set_at}
use cmu_ics.Malloc.Driver.Laws.{IsLawful}
use cmu_ics.Malloc.Driver.Step.{Live, payload, owned_at}
use cmu_ics.Malloc.Driver.Legal.{Legal, LegalOp, indices, block_of, price, total_price}
use cmu_ics.Malloc.Driver.Util.{
  sub, max_of, Utilization, app_error, ratio, Meter, measured, util_op, go_on, util_ops,
  eval_mm_util,
}
use cmu_ics.Malloc.Driver.Util.Peak.{peak, eval_mm_util-peak}

-- The calls of the trace alone, without the sizes: the state of the allocator and the addresses by index.
module _ (A : Allocator) where
  abbrev pub renew : ℕ → ℕ × A.State → (ℕ → ℕ) → A.State × (ℕ → ℕ)
  renew i (p, s) blocks = (s, set_at blocks i p)

  abbrev pub replay_op : OpType → ℕ → ℕ → A.State × (ℕ → ℕ) → A.State × (ℕ → ℕ)
  replay_op alloc i size (s, blocks) = renew i (A.mm_malloc s size) blocks
  replay_op realloc i size (s, blocks) = renew i (A.mm_realloc s (blocks i) size) blocks
  replay_op release i size (s, blocks) = (A.mm_free s (blocks i), blocks)

  abbrev pub replay : List TraceOp → A.State × (ℕ → ℕ) → A.State
  replay [] (s, blocks) = s
  replay (op ∷ ops) r = replay ops (replay_op op.type op.index op.size r)

-- The array holds the addresses of the blocks.
abbrev At : (ℕ → ℕ) → List Live → Type 0
At blocks = All (λ l. blocks l.index ≡ l.ptr)

At-set :
    (blocks : ℕ → ℕ) (i p : ℕ) (ls : List Live)
    → Absent i (indices ls)
    → At blocks ls
    → At (set_at blocks i p) ls
At-set blocks i p [] out a = tt
At-set blocks i p (l ∷ ls) (ne, out) (here, a) =
    (rw (==_false l.index i (λ e. ne (sym e))) here, At-set blocks i p ls out a)

module _ (A : Allocator) (mem_heapsize : A.State → ℕ) (L : IsLawful A) where
  record Holds (d : Meter A mem_heapsize) (ls : List Live) : Type 0 where
    owned : L.Owned d.state (map payload ls)
    at : At d.blocks ls

  -- A round that does not fail.
  abbrev Runs : Meter A mem_heapsize → OpType → ℕ → ℕ → (List ℕ → Type 0) → Type 0
  Runs d t i size more =
      (d' : Meter A mem_heapsize) × (ls : List Live) × (util_op A mem_heapsize d t i size ≡ some d')
      × Holds d' ls
      × more (indices ls)
      × (L.room d.state ≤ L.room d'.state + price L.cost t size)
      × (◌≡◌ {A = A.State × (ℕ → ℕ)} (d'.state, d'.blocks)
          (replay_op A t i size (d.state, d.blocks)))

  measured-some :
      (d : Meter A mem_heapsize) (i size total : ℕ) (p : ℕ) (s : A.State) (ls : List Live)
      → p ≢ 0
      → L.Owned s ((p, size) ∷ map payload ls)
      → Absent i (indices ls)
      → At d.blocks ls
      → (d' : Meter A mem_heapsize) × (measured A mem_heapsize d i size total (p, s) ≡ some d')
        × Holds d' (record { index = i; ptr = p; size = size } ∷ ls)
        × (d'.state ≡ s)
        × (◌≡◌ {A = A.State × (ℕ → ℕ)} (d'.state, d'.blocks) (s, set_at d.blocks i p))
  unfolding measured
  measured-some d i size total p s ls found o out a = (
    record {
      state = s;
      blocks = set_at d.blocks i p;
      block_sizes = set_at d.block_sizes i size;
      total_size = total;
      max_total_size = max_of total d.max_total_size;
    },
    rw (==_false p 0 found) refl,
    record { owned = o; at = (rw (==_true i) refl, At-set d.blocks i p ls out a) },
    refl,
    refl,
  )

  -- The block of an index, and the others.
  record Taken (d : Meter A mem_heapsize) (i : ℕ) (left : List ℕ) : Type 0 where
    size : ℕ
    others : List Live
    owned : L.Owned d.state ((d.blocks i, size) ∷ map payload others)
    at : At d.blocks others
    same : indices others ≡ left

  take_block :
      (d : Meter A mem_heapsize) (ls : List Live) (xs : List ℕ) (i : ℕ) (ys : List ℕ)
      → Holds d ls
      → indices ls ≡ xs ++ (i ∷ ys)
      → Taken d i (xs ++ ys)
  take_block d ls xs i ys h e =
      let (front, l, back, parts, here, others) = block_of ls xs i ys e in
      let P : Live → Type 0 = λ l. d.blocks l.index ≡ l.ptr in
      let all = subst (All P) parts h.at in
      let pointer : d.blocks i ≡ l.ptr = ap d.blocks (sym here) ∙ All-at P front l back all in
      let o = subst (λ t. L.Owned d.state (map payload t)) parts h.owned in
      record {
        size = l.size;
        others = front ++ back;
        owned =
            subst (λ p. L.Owned d.state ((p, l.size) ∷ map payload (front ++ back))) (sym pointer)
              (owned_at A L d.state front l back o);
        at = All-without P front l back all;
        same = others;
      }

  util_op-Runs :
      (d : Meter A mem_heapsize) (t : OpType) (i size : ℕ) (ls : List Live) (more : List ℕ → Type 0)
      → Holds d ls
      → LegalOp t i size (indices ls) more
      → price L.cost t size ≤ L.room d.state
      → Runs d t i size more
  unfolding util_op
  util_op-Runs d alloc i size ls more h (out, (pos, small), legal) enough =
      let (p, s) = A.mm_malloc d.state size in
      let (full, left) =
        L.malloc-room d.state (map payload ls) size h.owned pos small (inr enough) in
      let found : p ≢ 0 = λ e. omega (arith, full e, enough) in
      let (o, kept) =
        L.malloc-law d.state (map payload ls) size h.owned pos small (inr enough) found in
      let (d', e, h', same, now) =
        measured-some d i size (add d.total_size size) p s ls found o out h.at in
      (
        d',
        record { index = i; ptr = p; size = size } ∷ ls,
        e,
        h',
        legal,
        subst (λ t. L.room d.state ≤ L.room t + L.cost size) (sym same) left,
        now,
      )
  util_op-Runs d realloc i size ls more h ((pos, small), low, (xs, ys, e, out, legal)) enough =
      let b = take_block d ls xs i ys h e in
      let (p, s) = A.mm_realloc d.state (d.blocks i) size in
      let (full, left) =
        L.realloc-room d.state (map payload b.others) (d.blocks i) b.size size b.owned pos small
          (inr enough) in
      let found : p ≢ 0 = λ e. omega (arith, full e, enough) in
      let (o, kept, copied) =
        L.realloc-law d.state (map payload b.others) (d.blocks i) b.size size b.owned pos small
          (inr enough) found in
      let (d', e, h', same, now) =
        measured-some d i size (add d.total_size (sub size (d.block_sizes i))) p s b.others found o
          (subst (Absent i) (sym b.same) out) b.at in
      (
        d',
        record { index = i; ptr = p; size = size } ∷ b.others,
        e,
        h',
        subst (λ t. more (i ∷ t)) (sym b.same) legal,
        subst (λ t. L.room d.state ≤ L.room t + L.cost size) (sym same) left,
        now,
      )
  util_op-Runs d release i size ls more h (xs, ys, e, out, legal) enough =
      let b = take_block d ls xs i ys h e in
      let (o, kept) = L.free-law d.state (map payload b.others) (d.blocks i) b.size b.owned in
      (
        record d {
          state = A.mm_free d.state (d.blocks i);
          total_size = sub d.total_size (d.block_sizes i);
        },
        b.others,
        refl,
        record { owned = o; at = b.at },
        subst more (sym b.same) legal,
        omega (arith, L.free-room d.state (map payload b.others) (d.blocks i) b.size b.owned),
        refl,
      )

  -- A quotient with that denominator.
  abbrev IsRatio : ℕ → Utilization → Type 0
  IsRatio n app_error = ⊥
  IsRatio n (ratio x y) = y ≡ n

  util_ops-IsRatio :
      (ops : List TraceOp) (d : Meter A mem_heapsize) (ls : List Live)
      → Holds d ls
      → Legal ops (indices ls)
      → total_price L.cost ops ≤ L.room d.state
      → IsRatio (mem_heapsize (replay A ops (d.state, d.blocks))) (util_ops A mem_heapsize ops d)
  unfolding util_ops
  util_ops-IsRatio [] d ls h legal enough = refl
  util_ops-IsRatio (op ∷ ops) d ls h legal enough =
      let (d', ls', e, h', legal', left, now) =
        util_op-Runs d op.type op.index op.size ls (Legal ops) h legal (omega (arith, enough)) in
      let rest =
        subst (λ r. IsRatio (mem_heapsize (replay A ops r)) (util_ops A mem_heapsize ops d')) now
          (util_ops-IsRatio ops d' ls' h' legal' (omega (arith, left, enough))) in
      subst
        (λ r.
          IsRatio (mem_heapsize (replay A (op ∷ ops) (d.state, d.blocks)))
            (go_on A mem_heapsize (util_ops A mem_heapsize ops) r))
        (sym e) rest

  -- For an allocator with the laws, ready to be set up, and a legal trace whose allocations fit into the room and that
  -- has fewer than 2 ^ 31 bytes in use at a time, `eval_mm_util` divides the most bytes that the trace
  -- has in use at a time by the size of the heap after all calls of the trace.
  pub eval_mm_util-ratio :
      (s : A.State) (ops : List TraceOp) (blocks block_sizes : ℕ → ℕ)
      → L.Ready s
      → Legal ops []
      → peak ops [] 0 < half
      → total_price L.cost ops ≤ L.room (A.mm_init (A.mem_reset_brk s)).1
      → eval_mm_util A mem_heapsize s ops blocks block_sizes
        ≡ ratio
            (peak ops [] 0)
            (mem_heapsize (replay A ops ((A.mm_init (A.mem_reset_brk s)).1, blocks)))
  unfolding eval_mm_util
  eval_mm_util-ratio s ops blocks block_sizes ready legal small enough =
      let (ok, o) = L.owned-init s ready in
      let d : Meter A mem_heapsize = record {
        state = (A.mm_init (A.mem_reset_brk s)).1;
        blocks = blocks;
        block_sizes = block_sizes;
        total_size = 0;
        max_total_size = 0;
      } in
      let size = mem_heapsize (replay A ops ((A.mm_init (A.mem_reset_brk s)).1, blocks)) in
      let runs : IsRatio size (eval_mm_util A mem_heapsize s ops blocks block_sizes) =
        let started : eval_mm_util A mem_heapsize s ops blocks block_sizes
            ≡ util_ops A mem_heapsize ops d =
          rw ok refl in
        subst (IsRatio size) (sym started)
          (util_ops-IsRatio ops d [] (record { owned = o; at = tt }) legal enough) in
      elim (eval_mm_util-peak A mem_heapsize s ops blocks block_sizes legal small) [
        | inl failed ↦ absurd (subst (IsRatio size) failed runs)
        | inr (s', e) ↦ e ∙ ap (ratio (peak ops [] 0)) (subst (IsRatio size) e runs)
      ]
