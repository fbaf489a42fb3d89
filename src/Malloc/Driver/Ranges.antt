-- ===== src/Malloc/Driver/Ranges.antt =====
-- `add_range` and `remove_range` of malloclab-handout/mdriver.c.
use mathlib.Core.Path.{subst}
use cmu_ics.Prelude.{
  ℕ, ◌+◌, ◌-◌, ◌%◌, ◌≤◌, ◌<◌, ◌≡◌, ◌≢◌, ◌↔◌, refl, sym, ap, ◌⊎◌, inl, inr, List, [], ◌∷◌, ◌++◌,
  Bool, false, ◌&&◌, ◌||◌, ltb, leb, ◌==◌, ==_true, ==_false, Bool-cases, All, arith,
}
use cmu_ics.Word.{half}
use cmu_ics.Malloc.Driver.{
  Allocator, Range, Added, added, refused, assertion, overlaps, remove_range, add_range,
}

-- A range that the test lets pass: it is apart from the new one, or lies strictly within it.
abbrev pub Passed : ℕ → ℕ → Range → Type 0
Passed lo hi p = (hi < p.lo) ⊎ (p.hi < lo) ⊎ ((lo < p.lo) × (p.hi < hi))

abbrev hit : ℕ → ℕ → Range → Bool
hit lo hi p = (leb p.lo lo && leb lo p.hi) || (leb p.lo hi && leb hi p.hi)

hit-Passed : (lo hi : ℕ) (p : Range) → lo ≤ hi → p.lo ≤ p.hi → hit lo hi p ≡ false → Passed lo hi p
hit-Passed lo hi p up here e = elim (Bool-cases (ltb hi p.lo)) [
  | inl before ↦ inl (ground (arith, before))
  | inr not_before ↦ elim (Bool-cases (ltb p.hi lo)) [
    | inl behind ↦ inr (inl (ground (arith, behind)))
    | inr not_behind ↦
        inr (
          inr
            (ground (arith, e, not_before, not_behind), ground (arith, e, not_before, not_behind)))
  ]
]

Passed-hit : (lo hi : ℕ) (p : Range) → lo ≤ hi → Passed lo hi p → hit lo hi p ≡ false
Passed-hit lo hi p up (inl before) = ground (arith, before, up)
Passed-hit lo hi p up (inr (inl behind)) = ground (arith, behind, up)
Passed-hit lo hi p up (inr (inr (low, high))) = ground (arith, low, high, up)

overlaps-Passed :
    (ranges : List Range) (lo hi : ℕ)
    → lo ≤ hi
    → All (λ p. p.lo ≤ p.hi) ranges
    → (overlaps ranges lo hi ≡ false) ↔ All (Passed lo hi) ranges
unfolding overlaps
overlaps-Passed ranges lo hi up v = (forth ranges v, back ranges)
  where
    forth :
        (ranges : List Range)
        → All (λ p. p.lo ≤ p.hi) ranges
        → overlaps ranges lo hi ≡ false
        → All (Passed lo hi) ranges
    forth [] v e = tt
    forth (p ∷ ps) (here, v) e = elim (Bool-cases (hit lo hi p)) [
      | inl yes_hit ↦ absurd (cc (rw yes_hit at e))
      | inr no_hit ↦ (hit-Passed lo hi p up here no_hit, forth ps v (rw no_hit at e))
    ]

    back : (ranges : List Range) → All (Passed lo hi) ranges → overlaps ranges lo hi ≡ false
    back [] a = refl
    back (p ∷ ps) (here, a) = rw (Passed-hit lo hi p up here) (back ps a)

abbrev IsAdded : Added → Type 0
IsAdded (added ranges) = Unit {0}
IsAdded refused = ⊥
IsAdded assertion = ⊥

module _ (A : Allocator) (s : A.State) (ranges : List Range) (lo size : ℕ) where
  abbrev outside : Bool
  outside =
      ltb lo (A.mem_heap_lo s)
      || ltb (A.mem_heap_hi s) lo
      || ltb (lo + size - 1) (A.mem_heap_lo s)
      || ltb (A.mem_heap_hi s) (lo + size - 1)

  -- For a positive size, `add_range` accepts a payload exactly when it is aligned and within the heap, and each
  -- payload on the list is apart from it or lies strictly within it.
  pub add_range_iff :
      0 < size
      → size < half
      → All (λ p. p.lo ≤ p.hi) ranges
      → (add_range A s ranges lo size ≡ added (record { lo = lo; hi = lo + size - 1 } ∷ ranges)) ↔ (
          (lo % 8 ≡ 0)
          × (A.mem_heap_lo s ≤ lo)
          × (lo + size ≤ A.mem_heap_hi s + 1)
          × All (Passed lo (lo + size - 1)) ranges)
  unfolding add_range
  add_range_iff pos small v = (
    (λ e. elim (Bool-cases (lo % 8 == 0)) [
      | inr odd ↦ absurd (rw (sized, odd) at (certain e))
      | inl even ↦ elim (Bool-cases outside) [
        | inl out ↦ absurd (rw (sized, even, out) at (certain e))
        | inr inside ↦ elim (Bool-cases (overlaps ranges lo (lo + size - 1))) [
          | inl over ↦ absurd (rw (sized, even, inside, over) at (certain e))
          | inr clear ↦ (
            ground (arith, even),
            ground (arith, inside, pos),
            ground (arith, inside, pos),
            (overlaps-Passed ranges lo (lo + size - 1) up v).0 clear,
          )
        ]
      ]
    ]),
    (λ (aligned, low, high, a).
        let inside : outside ≡ false = ground (arith, low, high, pos) in
        rw (sized, aligned, inside, (overlaps-Passed ranges lo (lo + size - 1) up v).1 a) refl),
  )
    where
      up : lo ≤ lo + size - 1
      up = omega arith

      sized : (size == 0 || leb half size) ≡ false
      sized = ground (arith, pos, small)

      certain :
          add_range A s ranges lo size ≡ added (record { lo = lo; hi = lo + size - 1 } ∷ ranges)
          → IsAdded (add_range A s ranges lo size)
      certain e = subst IsAdded (sym e) tt

pub remove_range-append :
    (xs : List Range) (p : Range) (ys : List Range)
    → All (λ q. q.lo ≢ p.lo) xs
    → remove_range (xs ++ (p ∷ ys)) p.lo ≡ xs ++ ys
unfolding remove_range
remove_range-append [] p ys a = rw (==_true p.lo) refl
remove_range-append (x ∷ xs) p ys (ne, a) =
    rw (==_false x.lo p.lo ne) (ap (λ t. x ∷ t) (remove_range-append xs p ys a))
