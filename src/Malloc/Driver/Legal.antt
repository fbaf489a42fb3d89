-- ===== src/Malloc/Driver/Legal.antt =====
-- The traces that `eval_mm_valid` of malloclab-handout/mdriver.c is run on, and what they ask of an allocator.
use mathlib.Core.Path.{ap₂}
use cmu_ics.Prelude.{
  ◌⊎◌, inl, inr, ◌≤◌, ℕ, ◌+◌, ◌%◌, ◌<◌, ◌≡◌, refl, ap, List, [], ◌∷◌, ◌++◌, map, arith,
}
use cmu_ics.Word.{half}
use cmu_ics.Malloc.Links.{Absent}
use cmu_ics.Malloc.Driver.{
  OpType, alloc, release, realloc, TraceOp, Verdict, valid, init_failed, malloc_failed,
  realloc_failed, range_refused, data_lost, aborted,
}
use cmu_ics.Malloc.Driver.Step.{Live}

-- A size that an allocator is asked for.
abbrev pub Sized : ℕ → Type 0
Sized size = (0 < size) × (size + 15 < half)

-- The index is in use, once, and `rest` holds when it is taken out.
abbrev pub InUse : ℕ → List ℕ → (List ℕ → Type 0) → Type 0
InUse i live rest =
    (xs : List ℕ) × (ys : List ℕ) × (live ≡ xs ++ (i ∷ ys)) × Absent i (xs ++ ys) × rest (xs ++ ys)

abbrev pub LegalOp : OpType → ℕ → ℕ → List ℕ → (List ℕ → Type 0) → Type 0
LegalOp alloc i size live rest = Absent i live × Sized size × rest (i ∷ live)
LegalOp realloc i size live rest =
    Sized size × (i % 256 < 128) × InUse i live (λ others. rest (i ∷ others))
LegalOp release i size live rest = InUse i live rest

-- A trace that uses its indices in turn, with sizes from 1 up to 2 ^ 31 - 16. The low byte of an index that
-- is reallocated is below 128.
abbrev pub Legal : List TraceOp → List ℕ → Type 0
Legal [] live = Unit {0}
Legal (op ∷ ops) live = LegalOp op.type op.index op.size live (Legal ops)

-- The verdicts that do not accuse the allocator of a fault.
abbrev pub Fair : Verdict → Type 0
Fair valid = Unit {0}
Fair init_failed = ⊥
Fair malloc_failed = Unit {0}
Fair realloc_failed = Unit {0}
Fair range_refused = ⊥
Fair data_lost = ⊥
Fair aborted = ⊥

-- What the allocations of a trace take of the room at most.
abbrev pub price : (ℕ → ℕ) → OpType → ℕ → ℕ
price cost alloc size = cost size
price cost realloc size = cost size
price cost release size = 0

abbrev pub total_price : (ℕ → ℕ) → List TraceOp → ℕ
total_price cost [] = 0
total_price cost (op ∷ ops) = price cost op.type op.size + total_price cost ops

-- A request that the laws speak of: below the limit, or with room for it.
abbrev pub Asked : ℕ → (ℕ → ℕ) → ℕ → OpType → ℕ → Type 0
Asked limit cost room alloc size = (size + 15 < limit) ⊎ (cost size ≤ room)
Asked limit cost room realloc size = (size + 15 < limit) ⊎ (cost size ≤ room)
Asked limit cost room release size = Unit {0}

-- The sizes that an operation, and a trace, asks for are below the limit.
abbrev pub Below : ℕ → OpType → ℕ → Type 0
Below limit alloc size = size + 15 < limit
Below limit realloc size = size + 15 < limit
Below limit release size = Unit {0}

pub Below-Asked :
    (limit : ℕ) (cost : ℕ → ℕ) (room : ℕ) (t : OpType) (size : ℕ)
    → Below limit t size
    → Asked limit cost room t size
Below-Asked limit cost room alloc size less = inl less
Below-Asked limit cost room realloc size less = inl less
Below-Asked limit cost room release size less = tt

pub price-Asked :
    (limit : ℕ) (cost : ℕ → ℕ) (room : ℕ) (t : OpType) (size : ℕ)
    → price cost t size ≤ room
    → Asked limit cost room t size
price-Asked limit cost room alloc size fits = inr fits
price-Asked limit cost room realloc size fits = inr fits
price-Asked limit cost room release size fits = tt

abbrev pub indices : List Live → List ℕ
indices = map (λ l. l.index)

-- The block of an index that is in use.
pub block_of :
    (ls : List Live) (xs : List ℕ) (i : ℕ) (ys : List ℕ)
    → indices ls ≡ xs ++ (i ∷ ys)
    → (front : List Live) × (l : Live) × (back : List Live) × (ls ≡ front ++ (l ∷ back))
      × (l.index ≡ i)
      × (indices (front ++ back) ≡ xs ++ ys)
block_of [] [] i ys e = absurd (cc)
block_of [] (x ∷ xs) i ys e = absurd (cc)
block_of (l ∷ ls) [] i ys e = ([], l, ls, refl, ground (arith, e), ground (arith, e))
block_of (l ∷ ls) (x ∷ xs) i ys e =
    let (front, l', back, parts, same, rest) = block_of ls xs i ys (ground (arith, e)) in
    let head : l.index ≡ x = ground (arith, e) in
    (l ∷ front, l', back, ap (λ t. l ∷ t) parts, same, ap₂ ◌∷◌ head rest)
