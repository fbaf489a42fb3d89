-- ===== src/Malloc/Segregated/Class.antt =====
-- The size classes and the search of malloclab-handout/mm.c.
use native.Mathlib.Decide.{ℕ_discrete}
use mathlib.Core.Path.{subst}
use cmu_ics.Prelude.{
  ℕ, zero, suc, ◌+◌, ◌-◌, ◌*◌, ◌^◌, ◌≤◌, ◌<◌, ◌≡◌, ◌≢◌, refl, ap, ◌⊎◌, inl, inr, List, [], ◌∷◌,
  ◌++◌, false, ltb, leb, ==_false, if◌then◌else◌, Bool-cases, length, arith,
}
use cmu_ics.Malloc.Memory.{Memory, Heap, mem_heapsize}
use cmu_ics.Malloc.Tags.{unpack_size}
use cmu_ics.Malloc.Links.{Chain, first_of, IsFreeList}
use cmu_ics.Malloc.Segregated.{classnum, idx_loop, get_list_idx, fit_loop, class_loop, find_fit}

idx_loop-round :
    (left size i : ℕ)
    → idx_loop (suc left) size i ≡ (if leb size (2 ^ i) then i - 4 else idx_loop left size (i + 1))
unfolding idx_loop
idx_loop-round left size i = refl

idx_loop-bounds :
    (left size i : ℕ) → left + i ≡ 24 → (i ≤ idx_loop left size i + 5) × (idx_loop left size i < 20)
unfolding idx_loop
idx_loop-bounds zero size i e = (omega arith, omega arith)
idx_loop-bounds (suc left) size i e =
    let (low, high) = idx_loop-bounds left size (i + 1) (omega arith) in
    elim (Bool-cases (leb size (2 ^ i))) [
      | inl here ↦ rw here (omega arith, omega arith)
      | inr on ↦ rw on (omega (arith, low), high)
    ]

idx_loop-le :
    (left size size' i : ℕ)
    → left + i ≡ 24
    → 4 ≤ i
    → size ≤ size'
    → idx_loop left size i ≤ idx_loop left size' i
unfolding idx_loop
idx_loop-le zero size size' i e low le = omega arith
idx_loop-le (suc left) size size' i e low le =
    let rest = idx_loop-le left size size' (i + 1) (omega arith) (omega arith) le in
    let above = (idx_loop-bounds left size' (i + 1) (omega arith)).0 in
    elim (Bool-cases (leb size (2 ^ i))) [
      | inl here ↦ elim (Bool-cases (leb size' (2 ^ i))) [
        | inl here' ↦ rw (here, here') (omega arith)
        | inr on' ↦ rw (here, on') (omega (arith, above))
      ]
      | inr on ↦ let on' : leb size' (2 ^ i) ≡ false = ground (arith, on, le) in rw (on, on') rest
    ]

-- `get_list_idx` is a class, and that of a larger size is no lower.
pub get_list_idx-bounds :
    (size size' : ℕ)
    → size ≤ size'
    → (get_list_idx size ≤ get_list_idx size') × (get_list_idx size' < classnum)
unfolding get_list_idx
get_list_idx-bounds size size' le =
    (idx_loop-le 20 size size' 4 refl (omega arith) le, (idx_loop-bounds 20 size' 4 refl).1)

-- No block of a list has `req` bytes.
abbrev pub AllSmall : Memory → ℕ → List ℕ → Type 0
AllSmall m req [] = Unit {0}
AllSmall m req (p ∷ ps) = (unpack_size m (p - 4) < req) × AllSmall m req ps

-- `r` is the first block of a list with `req` bytes or more.
pub record Large (m : Memory) (req : ℕ) (ps : List ℕ) (r : ℕ) : Type 0 where
  pub front : List ℕ
  pub back : List ℕ
  pub parts : ps ≡ front ++ (r ∷ back)
  pub first : AllSmall m req front
  pub roomy : req ≤ unpack_size m (r - 4)
  pub no_null : r ≢ 0

fit_loop-cases :
    (fuel : ℕ) (m : Memory) (pre req : ℕ) (ps : List ℕ)
    → Chain m pre ps
    → length ps < fuel
    → ((fit_loop fuel m req (first_of ps) ≡ 0) × AllSmall m req ps)
      ⊎ Large m req ps (fit_loop fuel m req (first_of ps))
unfolding fit_loop
fit_loop-cases zero m pre req ps c enough = absurd (omega arith)
fit_loop-cases (suc fuel) m pre req [] c enough = inl (refl, tt)
fit_loop-cases (suc fuel) m pre req (p ∷ ps) (pos, even, back, next, c) enough =
    let rest = fit_loop-cases fuel m p req ps c (omega arith) in
    rw (==_false p 0 pos, next)
      (elim (Bool-cases (leb req (unpack_size m (p - 4)))) [
        | inl fits ↦ rw fits (
            inr (record {
              front = [];
              back = ps;
              parts = refl;
              first = tt;
              roomy = ground (arith, fits);
              no_null = pos;
            }))
        | inr short ↦ rw short (elim rest [
          | inl (e, small) ↦ inl (e, (ground (arith, short), small))
          | inr l ↦ inr (record {
            front = p ∷ l.front;
            back = l.back;
            parts = ap (λ t. p ∷ t) l.parts;
            first = (ground (arith, short), l.first);
            roomy = l.roomy;
            no_null = l.no_null;
          })
        ])
      ])

-- Every block of a list is in the class `i`.
abbrev pub InClass : Memory → ℕ → List ℕ → Type 0
InClass m i [] = Unit {0}
InClass m i (p ∷ ps) = (get_list_idx (unpack_size m (p - 4)) ≡ i) × InClass m i ps

-- The free lists of the heap, one for each class, none of more than `most` blocks.
pub record IsClasses (free_listp : ℕ) (m : Memory) (lists : ℕ → List ℕ) (most : ℕ) : Type 0 where
  pub linked : (i : ℕ) → i < classnum → IsFreeList m (m (free_listp + i * 4)) (lists i)
  pub sorted : (i : ℕ) → i < classnum → InClass m i (lists i)
  pub short : (i : ℕ) → i < classnum → length (lists i) ≤ most

-- A lower class has only smaller blocks.
lower_class :
    (m : Memory) (req i : ℕ) (ps : List ℕ)
    → i < get_list_idx req
    → InClass m i ps
    → AllSmall m req ps
lower_class m req i [] below c = tt
lower_class m req i (p ∷ ps) below (here, c) = elim (Bool-cases (ltb (unpack_size m (p - 4)) req)) [
  | inl small ↦ (ground (arith, small), lower_class m req i ps below c)
  | inr large ↦ absurd (
      omega
        (arith, here, (get_list_idx-bounds req (unpack_size m (p - 4)) (ground (arith, large))).0))
]

-- What a search from the class `from` on returns.
abbrev pub Search : Memory → ℕ → (ℕ → List ℕ) → ℕ → ℕ → Type 0
Search m req lists from r =
    ((r ≡ 0) × ((i : ℕ) → from ≤ i → i < classnum → AllSmall m req (lists i)))
    ⊎ ((i : ℕ) × (from ≤ i) × (i < classnum) × Large m req (lists i) r)

class_loop-Search :
    (left fuel free_listp : ℕ) (m : Memory) (req idx : ℕ) (lists : ℕ → List ℕ) (most : ℕ)
    → IsClasses free_listp m lists most
    → most < fuel
    → left + idx ≡ classnum
    → Search m req lists idx (class_loop left fuel free_listp m req idx)
unfolding class_loop
class_loop-Search zero fuel free_listp m req idx lists most v enough e =
    inl (refl, λ i from below. absurd (omega arith))
class_loop-Search (suc left) fuel free_listp m req idx lists most v enough e =
    let rest =
      class_loop-Search left fuel free_listp m req (idx + 1) lists most v enough (omega arith) in
    let l = v.linked idx (omega arith) in
    let here =
      fit_loop-cases fuel m 0 req (lists idx) l.chain (omega (arith, v.short idx (omega arith))) in
    rw l.starts (elim here [
      | inl (none_here, small) ↦ rw none_here (elim rest [
        | inl (e', all_small) ↦ inl (
          e',
          λ i from below. elim (ℕ_discrete idx i) [
            | yes same ↦ subst (λ j. AllSmall m req (lists j)) same small
            | no other ↦ all_small i (omega arith) below
          ],
        )
        | inr (i, from, below, large) ↦ inr (i, omega (arith, from), below, large)
      ])
      | inr large ↦
          rw (==_false (fit_loop fuel m req (first_of (lists idx))) 0 large.no_null)
            (inr (idx, omega arith, omega arith, large))
    ])

-- `find_fit` returns NULL when every block on a free list is smaller than asked for, or else the first block
-- of a list that is large enough, when the lists are in order and none is longer than the heap.
pub find_fit-Search :
    (h : Heap) (free_listp req : ℕ) (lists : ℕ → List ℕ)
    → IsClasses free_listp h.mem lists (mem_heapsize h)
    → Search h.mem req lists 0 (find_fit h free_listp req)
unfolding find_fit
find_fit-Search h free_listp req lists v =
    let idx = get_list_idx req in
    let below = (get_list_idx-bounds req req (omega arith)).1 in
    elim (class_loop-Search (classnum - idx) (mem_heapsize h + 1) free_listp h.mem req idx lists
      (mem_heapsize h) v (omega arith) (omega (arith, below))) [
        | inl (e, small) ↦ inl (
          e,
          λ i low high. elim (Bool-cases (ltb i idx)) [
            | inl lower ↦
                lower_class h.mem req i (lists i) (ground (arith, lower)) (v.sorted i high)
            | inr higher ↦ small i (ground (arith, higher)) high
          ],
        )
        | inr (i, from, high, large) ↦ inr (i, omega arith, high, large)
      ]
