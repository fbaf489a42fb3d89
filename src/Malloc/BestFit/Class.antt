-- ===== src/Malloc/BestFit/Class.antt =====
-- The size classes and the search of malloclab-handout/mm_right.c.
use native.Mathlib.Nat.{pow-suc}
use mathlib.Core.Path.{subst}
use cmu_ics.Prelude.{
  ℕ, zero, suc, ◌+◌, ◌-◌, ◌*◌, ◌%◌, ◌^◌, ◌≤◌, ◌<◌, ◌≡◌, refl, sym, ap, ◌∙◌, ◌⊎◌, inl, inr, none,
  some, List, [], ◌∷◌, ◌++◌, true, false, ◌&&◌, ltb, leb, ==_false, Bool-cases, length, arith,
}
use cmu_ics.Word.{word, half}
use cmu_ics.Malloc.Memory.{Memory}
use cmu_ics.Malloc.Tags.{unpack_size}
use cmu_ics.Malloc.Links.{Chain, first_of}
use cmu_ics.Malloc.Segregated.{classnum}
use cmu_ics.Malloc.BestFit.{index_loop, best_loop}

factor_lt : (b x : ℕ) → b * 2 * x ≡ half → b < half
factor_lt b zero e = absurd (omega (arith, e))
factor_lt b (suc x) e =
    let split : b * 2 + b * 2 * x ≡ half = grind (arith, e) in omega (arith, split)

-- The values that `blk_size` takes: powers of two up to 2 ^ 31.
double : (blk k : ℕ) → blk * 2 ^ (suc k) ≡ half → (blk * 2 * 2 ^ k ≡ half) × (blk < half)
double blk k e =
    let split : blk * (2 ^ k * 2) ≡ half = ap (λ t. blk * t) (sym (pow-suc 2 k)) ∙ e in
    let moved : blk * 2 * 2 ^ k ≡ half = grind (arith, split) in
    (moved, factor_lt blk (2 ^ k) moved)

-- The loop of `get_list_index` ends for a size of at most 2 ^ 31.
index_loop-ends :
    (fuel size index blk : ℕ)
    → blk * 2 ^ fuel ≡ half
    → size ≤ half
    → (r : ℕ) × (index_loop (suc fuel) size index blk ≡ some r) × (r < classnum)
unfolding index_loop
index_loop-ends zero size index blk e small =
    let hit : ltb blk size ≡ false = ground (arith, e) in rw hit (_, refl, ground arith)
index_loop-ends (suc fuel) size index blk e small =
    let (e', below) = double blk fuel e in
    let same : blk * 2 % word ≡ blk * 2 = omega arith in
    let rest = index_loop-ends fuel size (index + 1) (blk * 2) e' small in
    elim (Bool-cases (ltb blk size)) [
      | inl on ↦ rw (on, same) rest
      | inr hit ↦ rw hit (_, refl, ground arith)
    ]

index_loop-zero : (fuel size index : ℕ) → 0 < size → index_loop fuel size index 0 ≡ none
unfolding index_loop
index_loop-zero zero size index pos = refl
index_loop-zero (suc fuel) size index pos =
    let miss : ltb 0 size ≡ true = ground (arith, pos) in
    rw miss (index_loop-zero fuel size (index + 1) pos)

index_loop-endless :
    (fuel size index blk k : ℕ)
    → half < size
    → blk * 2 ^ k ≡ half
    → index_loop fuel size index blk ≡ none
unfolding index_loop
index_loop-endless zero size index blk k large e = refl
index_loop-endless (suc fuel) size index blk zero large e =
    let miss : ltb blk size ≡ true = ground (arith, large, e) in
    let wrap : blk * 2 % word ≡ 0 = omega (arith, e) in
    rw (miss, wrap) (index_loop-zero fuel size (index + 1) (omega arith))
index_loop-endless (suc fuel) size index blk (suc k) large e =
    let (e', below) = double blk k e in
    let miss : ltb blk size ≡ true = ground (arith, large, below) in
    let same : blk * 2 % word ≡ blk * 2 = omega arith in
    rw (miss, same) (index_loop-endless fuel size (index + 1) (blk * 2) k large e')

-- The loop of `get_list_index` returns a class for a size up to 2 ^ 31, within thirty rounds, and does not end
-- for any larger size, which is always larger than `blk_size`.
pub index_loop_iff :
    (size : ℕ)
    → (size ≤ half → (r : ℕ) × (index_loop 30 size 2 4 ≡ some r) × (r < classnum))
      × (half < size → (fuel : ℕ) → index_loop fuel size 2 4 ≡ none)
index_loop_iff size = (
  λ small. index_loop-ends 29 size 2 4 refl small,
  λ large fuel. index_loop-endless fuel size 2 4 29 large refl,
)

-- Every block of a list with `req` bytes or more has at least `n`.
abbrev pub AtLeast : Memory → ℕ → ℕ → List ℕ → Type 0
AtLeast m req n [] = Unit {0}
AtLeast m req n (p ∷ ps) =
    (req ≤ unpack_size m (p - 4) → n ≤ unpack_size m (p - 4)) × AtLeast m req n ps

AtLeast-le :
    (m : Memory) (req n n' : ℕ) (ps : List ℕ) → n' ≤ n → AtLeast m req n ps → AtLeast m req n' ps
AtLeast-le m req n n' [] le a = tt
AtLeast-le m req n n' (p ∷ ps) le (here, a) =
    (λ fits. omega (arith, here fits), AtLeast-le m req n n' ps le a)

-- `r` is a smallest block of the list with `req` bytes or more, and has fewer than `most`.
pub record Best (m : Memory) (req most : ℕ) (ps : List ℕ) (r : ℕ) : Type 0 where
  pub front : List ℕ
  pub back : List ℕ
  pub parts : ps ≡ front ++ (r ∷ back)
  pub fits : req ≤ unpack_size m (r - 4)
  pub below : unpack_size m (r - 4) < most
  pub least : AtLeast m req (unpack_size m (r - 4)) ps

Best-cons :
    (m : Memory) (req most most' p : ℕ) (ps : List ℕ) (r : ℕ)
    → most' ≤ most
    → (req ≤ unpack_size m (p - 4) → most' ≤ unpack_size m (p - 4))
    → Best m req most' ps r
    → Best m req most (p ∷ ps) r
Best-cons m req most most' p ps r le here b = record {
  front = p ∷ b.front;
  back = b.back;
  parts = ap (λ t. p ∷ t) b.parts;
  fits = b.fits;
  below = omega (arith, b.below);
  least = (λ fits. omega (arith, b.below, here fits), b.least);
}

-- The inner loop of `find_fit`, with fuel for the whole list, returns a smallest block of those that are
-- large enough and smaller than `min_size`, or `min_bp` when the list has none of these.
pub best_loop-Best :
    (fuel : ℕ) (m : Memory) (pre req min_size min_bp : ℕ) (ps : List ℕ)
    → Chain m pre ps
    → length ps < fuel
    → ((best_loop fuel m req min_size min_bp (first_of ps) ≡ min_bp) × AtLeast m req min_size ps)
      ⊎ Best m req min_size ps (best_loop fuel m req min_size min_bp (first_of ps))
unfolding best_loop
best_loop-Best zero m pre req min_size min_bp ps c enough = absurd (omega arith)
best_loop-Best (suc fuel) m pre req min_size min_bp [] c enough = inl (refl, tt)
best_loop-Best (suc fuel) m pre req min_size min_bp (p ∷ ps) (pos, even, back, next, c) enough =
    let size = unpack_size m (p - 4) in
    rw (==_false p 0 pos, next)
      (elim (Bool-cases (leb req size && ltb size min_size)) [
        | inl better ↦ rw better (elim (best_loop-Best fuel m p req size p ps c (omega arith)) [
          | inl (e, least) ↦ inr (
              subst (Best m req min_size (p ∷ ps)) (sym e) (record {
                front = [];
                back = ps;
                parts = refl;
                fits = ground (arith, better);
                below = ground (arith, better);
                least = (λ fits. omega arith, least);
              }))
          | inr b ↦ inr (
              Best-cons m req min_size size p ps (best_loop fuel m req size p (first_of ps))
                (ground (arith, better)) (λ fits. omega arith) b)
        ])
        | inr worse ↦
            let here : req ≤ size → min_size ≤ size = λ fits. ground (arith, worse, fits) in
            rw worse (elim (best_loop-Best fuel m p req min_size min_bp ps c (omega arith)) [
              | inl (e, least) ↦ inl (e, (here, least))
              | inr b ↦ inr (
                  Best-cons m req min_size min_size p ps
                    (best_loop fuel m req min_size min_bp (first_of ps)) (omega arith) here b)
            ])
      ])
