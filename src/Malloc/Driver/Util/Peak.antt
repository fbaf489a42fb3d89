-- ===== src/Malloc/Driver/Util/Peak.antt =====
-- What `eval_mm_util` of malloclab-handout/mdriver.c measures.
use mathlib.Core.Path.{subst, ap₂}
use native.Mathlib.Decide.{ℕ_discrete}
use Prim.Native.Nat.{max}
use cmu_ics.Prelude.{
  ℕ, ◌+◌, ◌≤◌, ◌<◌, ◌≡◌, refl, sym, ap, ◌∙◌, ◌⊎◌, inl, inr, Option, none, some, List, [], ◌∷◌, ◌++◌,
  map, ◌==◌, ==_true, ==_false, if◌then◌else◌, Bool-cases, All, arith,
}
use cmu_ics.Word.{half, add}
use cmu_ics.Malloc.Links.{Absent}
use cmu_ics.Malloc.Driver.{Allocator, OpType, alloc, release, realloc, TraceOp, set_at}
use cmu_ics.Malloc.Driver.Legal.{Legal, LegalOp}
use cmu_ics.Malloc.Driver.Util.{
  sub, max_of, app_error, ratio, Meter, measured, util_op, go_on, util_ops, eval_mm_util,
}

-- The indices in use, each with its size.
abbrev pub Sizes : Type 0
Sizes = List (ℕ × ℕ)

abbrev pub sum : Sizes → ℕ
sum [] = 0
sum (b ∷ bs) = b.1 + sum bs

abbrev pub without : ℕ → Sizes → Sizes
without i [] = []
without i (b ∷ bs) = if b.0 == i then bs else b ∷ without i bs

-- The most bytes in use at a time, by the trace alone: `most` so far, with the blocks `live`.
abbrev pub after_op : OpType → ℕ → ℕ → Sizes → Sizes
after_op alloc i size live = (i, size) ∷ live
after_op realloc i size live = (i, size) ∷ without i live
after_op release i size live = without i live

unfoldable pub peak : List TraceOp → Sizes → ℕ → ℕ
peak [] live most = most
peak (op ∷ ops) live most =
    let live' = after_op op.type op.index op.size live in peak ops live' (max most (sum live'))

peak-grows : (ops : List TraceOp) (live : Sizes) (most : ℕ) → most ≤ peak ops live most
unfolding peak
peak-grows [] live most = omega arith
peak-grows (op ∷ ops) live most =
    let live' = after_op op.type op.index op.size live in
    omega (arith, peak-grows ops live' (max most (sum live')))

-- A block in use, and the others.
record Split (P : ℕ × ℕ → Type 0) (live : Sizes) (i : ℕ) (others : List ℕ) : Type 0 where
  size : ℕ
  here : P (i, size)
  rest : All P (without i live)
  total : sum (without i live) + size ≡ sum live
  left : map (λ b. b.0) (without i live) ≡ others

split :
    (P : ℕ × ℕ → Type 0) (live : Sizes) (xs : List ℕ) (i : ℕ) (ys : List ℕ)
    → map (λ b. b.0) live ≡ xs ++ (i ∷ ys)
    → Absent i (xs ++ ys)
    → All P live
    → Split P live i (xs ++ ys)
split P [] [] i ys e out a = absurd (cc)
split P [] (x ∷ xs) i ys e out a = absurd (cc)
split P (b ∷ bs) [] i ys e out (here, a) =
    let same : b.0 ≡ i = ground (arith, e) in
    let gone : without i (b ∷ bs) ≡ bs = rw (same, ==_true i) refl in
    record {
      size = b.1;
      here = subst (λ t. P (t, b.1)) same here;
      rest = subst (All P) (sym gone) a;
      total = ap (λ t. sum t + b.1) gone ∙ omega arith;
      left = ap (map (λ b. b.0)) gone ∙ ground (arith, e);
    }
split P (b ∷ bs) (x ∷ xs) i ys e (ne, out) (here, a) =
    let same : b.0 ≡ x = ground (arith, e) in
    let s = split P bs xs i ys (ground (arith, e)) out a in
    let stays : without i (b ∷ bs) ≡ b ∷ without i bs =
      rw (==_false b.0 i (λ z. ne (sym (sym same ∙ z)))) refl in
    record {
      size = s.size;
      here = s.here;
      rest = subst (All P) (sym stays) (here, s.rest);
      total = ap (λ t. sum t + s.size) stays ∙ omega (arith, s.total);
      left = ap (map (λ b. b.0)) stays ∙ ground (arith, same, s.left);
    }

sizes-set :
    (f : ℕ → ℕ) (i v : ℕ) (live : Sizes)
    → Absent i (map (λ b. b.0) live)
    → All (λ b. f b.0 ≡ b.1) live
    → All (λ b. set_at f i v b.0 ≡ b.1) live
sizes-set f i v [] out a = tt
sizes-set f i v (b ∷ live) (ne, out) (here, a) =
    (rw (==_false b.0 i (λ e. ne (sym e))) here, sizes-set f i v live out a)

max_of_lem : (x y : ℕ) → x < half → y < half → max_of x y ≡ max y x
max_of_lem x y h h' = ground (arith, h, h')

module _ (A : Allocator) (mem_heapsize : A.State → ℕ) where
  -- The loop has counted the blocks `live`, and `most` bytes at a time.
  record Counts (d : Meter A mem_heapsize) (live : Sizes) (most : ℕ) : Type 0 where
    total : d.total_size ≡ sum live
    highest : d.max_total_size ≡ most
    sizes : All (λ b. d.block_sizes b.0 ≡ b.1) live
    bound : sum live ≤ most

  abbrev Goes : Option (Meter A mem_heapsize) → Sizes → ℕ → Type 0
  Goes r live most = (r ≡ none) ⊎ ((d : Meter A mem_heapsize) × (r ≡ some d) × Counts d live most)

  measured-Goes :
      (d : Meter A mem_heapsize) (i size total most : ℕ) (rest : Sizes) (r : ℕ × A.State)
      → total ≡ size + sum rest
      → d.max_total_size ≡ most
      → All (λ b. d.block_sizes b.0 ≡ b.1) rest
      → Absent i (map (λ b. b.0) rest)
      → max most (size + sum rest) < half
      → Goes
          (measured A mem_heapsize d i size total r)
          ((i, size) ∷ rest)
          (max most (size + sum rest))
  unfolding measured
  measured-Goes d i size total most rest (p, s) at highest sizes out small = elim (ℕ_discrete p 0) [
    | yes null ↦ inl (rw null refl)
    | no found ↦ inr (
      record {
        state = s;
        blocks = set_at d.blocks i p;
        block_sizes = set_at d.block_sizes i size;
        total_size = total;
        max_total_size = max_of total d.max_total_size;
      },
      rw (==_false p 0 found) refl,
      record {
        total = at;
        highest =
            ap₂ max_of at highest
            ∙ max_of_lem (size + sum rest) most (omega (arith, small)) (omega (arith, small));
        sizes = (rw (==_true i) refl, sizes-set d.block_sizes i size rest out sizes);
        bound = omega arith;
      },
    )
  ]

  util_op-Goes :
      (d : Meter A mem_heapsize) (t : OpType) (i size most : ℕ) (live : Sizes)
      (more : List ℕ → Type 0)
      → Counts d live most
      → LegalOp t i size (map (λ b. b.0) live) more
      → max most (sum (after_op t i size live)) < half
      → Goes
          (util_op A mem_heapsize d t i size)
          (after_op t i size live)
          (max most (sum (after_op t i size live)))
        × more (map (λ b. b.0) (after_op t i size live))
  unfolding util_op
  util_op-Goes d alloc i size most live more v (out, sized, legal) small = (
    measured-Goes d i size (add d.total_size size) most live (A.mm_malloc d.state size)
        (omega (arith, v.total, small)) v.highest v.sizes out small,
    legal,
  )
  util_op-Goes d realloc i size most live more v (sized, low, (xs, ys, e, out, legal)) small =
      let s = split (λ b. d.block_sizes b.0 ≡ b.1) live xs i ys e out v.sizes in
      (
        measured-Goes d i size (add d.total_size (sub size (d.block_sizes i))) most (without i live)
            (A.mm_realloc d.state (d.blocks i) size)
            (omega (arith, v.total, small, s.here, s.total, v.bound)) v.highest s.rest
            (subst (Absent i) (sym s.left) out) small,
        subst (λ t. more (i ∷ t)) (sym s.left) legal,
      )
  util_op-Goes d release i size most live more v (xs, ys, e, out, legal) small =
      let s = split (λ b. d.block_sizes b.0 ≡ b.1) live xs i ys e out v.sizes in
      (
        inr (
          record d {
            state = A.mm_free d.state (d.blocks i);
            total_size = sub d.total_size (d.block_sizes i);
          },
          refl,
          record {
            total = omega (arith, v.total, s.here, s.total, small, v.bound);
            highest = v.highest ∙ omega (arith, s.total, v.bound);
            sizes = s.rest;
            bound = omega arith;
          },
        ),
        subst more (sym s.left) legal,
      )

  util_ops-peak :
      (ops : List TraceOp) (d : Meter A mem_heapsize) (live : Sizes) (most : ℕ)
      → Counts d live most
      → Legal ops (map (λ b. b.0) live)
      → peak ops live most < half
      → (util_ops A mem_heapsize ops d ≡ app_error)
        ⊎ ((s : A.State) × (util_ops A mem_heapsize ops d
              ≡ ratio (peak ops live most) (mem_heapsize s)))
  unfolding util_ops peak
  util_ops-peak [] d live most v legal small =
      inr (d.state, ap (λ t. ratio t (mem_heapsize d.state)) v.highest)
  util_ops-peak (op ∷ ops) d live most v legal small =
      let live' = after_op op.type op.index op.size live in
      let most' = max most (sum live') in
      let (goes, legal') =
        util_op-Goes d op.type op.index op.size most live (Legal ops) v legal
          (omega (arith, small, peak-grows ops live' most')) in
      elim goes [
        | inl failed ↦ inl (ap (go_on A mem_heapsize (util_ops A mem_heapsize ops)) failed)
        | inr (d', e, v') ↦
            let same = ap (go_on A mem_heapsize (util_ops A mem_heapsize ops)) e in
            elim (util_ops-peak ops d' live' most' v' legal' small) [
              | inl failed ↦ inl (same ∙ failed)
              | inr (s, r) ↦ inr (s, same ∙ r)
            ]
      ]

  -- For a legal trace with fewer than 2 ^ 31 bytes in use at a time, `eval_mm_util` ends by `app_error` or
  -- divides the most bytes that the trace has in use at a time, whatever the allocator does, by the size
  -- of a heap.
  pub eval_mm_util-peak :
      (s : A.State) (ops : List TraceOp) (blocks block_sizes : ℕ → ℕ)
      → Legal ops []
      → peak ops [] 0 < half
      → (eval_mm_util A mem_heapsize s ops blocks block_sizes ≡ app_error)
        ⊎ ((s' : A.State) × (eval_mm_util A mem_heapsize s ops blocks block_sizes
              ≡ ratio (peak ops [] 0) (mem_heapsize s')))
  unfolding eval_mm_util
  eval_mm_util-peak s ops blocks block_sizes legal small =
      let (ok, s') = A.mm_init (A.mem_reset_brk s) in
      elim (Bool-cases ok) [
        | inr failed ↦ inl (rw failed refl)
        | inl set_up ↦ rw set_up (
            util_ops-peak ops
              (record {
                state = s';
                blocks = blocks;
                block_sizes = block_sizes;
                total_size = 0;
                max_total_size = 0;
              })
              [] 0 (record { total = refl; highest = refl; sizes = tt; bound = omega arith }) legal
              small)
      ]
