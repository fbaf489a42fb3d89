-- ===== src/Malloc/Segregated/Lists.antt =====
-- The free lists of malloclab-handout/mm.c, all classes together: `remove_free_blk`.
use native.Mathlib.Decide.{ℕ_discrete}
use mathlib.Core.Path.{subst}
use cmu_ics.Prelude.{
  All, All-without, All-map, ℕ, ◌+◌, ◌-◌, ◌*◌, ◌%◌, ◌≤◌, ◌<◌, ◌≡◌, ◌≢◌, refl, sym, ap, ◌∙◌, ◌⊎◌,
  inl, inr, List, [], ◌∷◌, ◌++◌, Bool, true, false, ◌==◌, ==_true, ==_false, if◌then◌else◌, length,
  length-append, arith,
}
use cmu_ics.Malloc.Memory.{Memory, store}
use cmu_ics.Malloc.Tags.{unpack_size}
use cmu_ics.Malloc.Links.{
  Absent, Absent-append, append-Absent, Agree, IsFreeList, link, link-Agree, link-IsFreeList,
  link-odd, nonzero,
}
use cmu_ics.Malloc.Segregated.{classnum, get_list_idx, remove_free_blk}
use cmu_ics.Malloc.Segregated.Class.{IsClasses, InClass}
use cmu_ics.Malloc.Segregated.Spaced.{
  Chain-All, neighbours, IsSpaced, with_list, at_list, either_branch, IsFreeList-frame, store-Agree,
  InClass-frame, Absent-low,
}

InClass-at :
    (m : Memory) (i : ℕ) (xs : List ℕ) (bp : ℕ) (ys : List ℕ)
    → InClass m i (xs ++ (bp ∷ ys))
    → (get_list_idx (unpack_size m (bp - 4)) ≡ i) × InClass m i (xs ++ ys)
InClass-at m i [] bp ys (here, c) = (here, c)
InClass-at m i (x ∷ xs) bp ys (here, c) =
    let (e, rest) = InClass-at m i xs bp ys c in (e, (here, rest))

-- The four cases of `remove_free_blk` are two.
remove_free_blk-link :
    (free_listp : ℕ) (m : Memory) (bp : ℕ)
    → let m' = link m (m bp) (m (bp + 4)) in
      remove_free_blk free_listp m bp ≡ (
        if m bp == 0
        then store (free_listp + get_list_idx (unpack_size m (bp - 4)) * 4) (m (bp + 4)) m'
        else m')
unfolding remove_free_blk
remove_free_blk-link free_listp m bp = elim (ℕ_discrete (m bp) 0) [
  | yes no_prev ↦ elim (ℕ_discrete (m (bp + 4)) 0) [
    | yes no_next ↦ rw (no_prev, no_next) refl
    | no next ↦ rw (no_prev, ==_false (m (bp + 4)) 0 next) refl
  ]
  | no prev ↦ elim (ℕ_discrete (m (bp + 4)) 0) [
    | yes no_next ↦ rw (==_false (m bp) 0 prev, no_next) refl
    | no next ↦ rw (==_false (m bp) 0 prev, ==_false (m (bp + 4)) 0 next) refl
  ]
]

-- NULL, or a block behind the heads.
abbrev pub Behind : ℕ → ℕ → Type 0
Behind lo q = (q ≡ 0) ⊎ (lo ≤ q)

link-before :
    (m : Memory) (pre next a lo : ℕ)
    → Behind lo pre
    → Behind lo next
    → a < lo
    → link m pre next a ≡ m a
link-before m pre next a lo (inl e) (inl e') less = rw (e, e') refl
link-before m pre next a lo (inl e) (inr far) less = ground (arith, e, far, less)
link-before m pre next a lo (inr far) (inl e') less = ground (arith, e', far, less)
link-before m pre next a lo (inr far) (inr far') less = ground (arith, far, far', less)

-- The header of a block is no link of another.
link-headers :
    (m : Memory) (pre next : ℕ) (ps : List ℕ)
    → next % 8 ≡ 0
    → Absent (pre + 8) ps
    → All (λ p. p % 8 ≡ 0) ps
    → All (λ p. 16 ≤ p) ps
    → All (λ p. link m pre next (p - 4) ≡ m (p - 4)) ps
link-headers m pre next [] even out aligned high = tt
link-headers m pre next (p ∷ ps) even (ne, out) (p_even, aligned) (p_high, high) =
    let back : p - 8 + 4 ≡ p - 4 = omega arith in
    (
      subst (λ a. link m pre next a ≡ m a) back
          (link-odd m pre next (p - 8) even (omega arith) (λ e. ne (omega (arith, e)))),
      link-headers m pre next ps even out aligned high,
    )

pub store-headers :
    (m : Memory) (a v lo : ℕ) (ps : List ℕ)
    → a + 4 < lo
    → All (λ p. lo ≤ p) ps
    → All (λ p. store a v m (p - 4) ≡ m (p - 4)) ps
store-headers m a v lo [] below above = tt
store-headers m a v lo (p ∷ ps) below (here, above) =
    (ground (arith, below, here), store-headers m a v lo ps below above)

module _ (free_listp : ℕ) (m : Memory) (lists : ℕ → List ℕ) (most i bp : ℕ) (xs ys : List ℕ)
    (v : IsClasses free_listp m lists most) (s : IsSpaced free_listp lists)
    (is_class : i < classnum) (split : lists i ≡ xs ++ (bp ∷ ys)) where
  abbrev linked_up : Memory
  linked_up = link m (m bp) (m (bp + 4))

  abbrev head : ℕ
  head = free_listp + i * 4

  here : IsFreeList m (m head) (xs ++ (bp ∷ ys))
  here = subst (IsFreeList m (m head)) split (v.linked i is_class)

  around : (P : ℕ → Type 0) → P 0 → All P (lists i) → P (m bp) × P (m (bp + 4))
  around P null a = neighbours P m 0 bp xs ys null null (subst (All P) split a) here.chain

  evens : (m bp % 8 ≡ 0) × (m (bp + 4) % 8 ≡ 0)
  evens = around (λ q. q % 8 ≡ 0) refl (Chain-All m 0 (lists i) (v.linked i is_class).chain)

  behind : Behind (free_listp + 96) (m bp) × Behind (free_listp + 96) (m (bp + 4))
  behind = around (Behind (free_listp + 96)) (inl refl) (
      All-map (λ p. free_listp + 96 ≤ p) (Behind (free_listp + 96)) (lists i) (λ p far. inr far)
        (s.above i is_class))

  heads : (j : ℕ) → j < classnum → linked_up (free_listp + j * 4) ≡ m (free_listp + j * 4)
  heads j below =
      link-before m (m bp) (m (bp + 4)) (free_listp + j * 4) (free_listp + 96) behind.0 behind.1
        (omega arith)

  -- Another list.
  other-Agree : (j : ℕ) → j < classnum → i ≢ j → Agree m linked_up (lists j)
  other-Agree j below ne =
      let c = (v.linked j below).chain in
      let (out, out') =
        around (λ q. Absent q (lists j)) (nonzero m 0 (lists j) c)
          (s.apart i j is_class below ne) in
      link-Agree m (m bp) (m (bp + 4)) 0 (lists j) evens.0 evens.1 out out' c

  headers : (j : ℕ) → j < classnum → All (λ p. linked_up (p - 4) ≡ m (p - 4)) (lists j)
  headers j below =
      let high = s.above j below in
      let (out, out') =
        around (λ q. Absent (q + 8) (lists j))
          (Absent-low 8 (free_listp + 96) (lists j) (omega arith) high)
          (s.roomy i j is_class below) in
      link-headers m (m bp) (m (bp + 4)) (lists j) evens.1 out
        (Chain-All m 0 (lists j) (v.linked j below).chain)
        (All-map (λ p. free_listp + 96 ≤ p) (λ p. 16 ≤ p) (lists j) (λ p far. omega (arith, far))
          high)

  -- A memory that differs in the head of the list at most.
  module _ (m' : Memory) (new_head : m' head ≡ (if m bp == 0 then m (bp + 4) else m head))
      (other_heads : (j : ℕ) → i ≢ j → m' (free_listp + j * 4) ≡ linked_up (free_listp + j * 4))
      (same : (ps : List ℕ) → All (λ p. free_listp + 96 ≤ p) ps → Agree linked_up m' ps)
      (same_headers : (ps : List ℕ)
        → All (λ p. free_listp + 96 ≤ p) ps
        → All (λ p. m' (p - 4) ≡ linked_up (p - 4)) ps) where
    far : All (λ p. free_listp + 96 ≤ p) (xs ++ ys)
    far =
        All-without (λ p. free_listp + 96 ≤ p) xs bp ys
          (subst (All (λ p. free_listp + 96 ≤ p)) split (s.above i is_class))

    own : IsFreeList m' (m' head) (xs ++ ys)
    own =
        subst (λ t. IsFreeList m' t (xs ++ ys)) (sym new_head)
          (IsFreeList-frame linked_up m' (if m bp == 0 then m (bp + 4) else m head) (xs ++ ys)
            (same (xs ++ ys) far) (link-IsFreeList m (m head) bp xs ys here))

    own_class : InClass m' i (xs ++ ys)
    own_class =
        let c = (InClass-at m i xs bp ys (subst (InClass m i) split (v.sorted i is_class))).1 in
        let moved =
          All-without (λ p. linked_up (p - 4) ≡ m (p - 4)) xs bp ys
            (subst (All (λ p. linked_up (p - 4) ≡ m (p - 4))) split (headers i is_class)) in
        InClass-frame linked_up m' i (xs ++ ys) (same_headers (xs ++ ys) far)
          (InClass-frame m linked_up i (xs ++ ys) moved c)

    other : (j : ℕ) → j < classnum → i ≢ j → IsFreeList m' (m' (free_listp + j * 4)) (lists j)
    other j below ne =
        subst (λ t. IsFreeList m' t (lists j)) (sym (other_heads j ne ∙ heads j below))
          (IsFreeList-frame linked_up m' (m (free_listp + j * 4)) (lists j)
            (same (lists j) (s.above j below))
            (IsFreeList-frame m linked_up (m (free_listp + j * 4)) (lists j)
              (other-Agree j below ne) (v.linked j below)))

    other_class : (j : ℕ) → j < classnum → InClass m' j (lists j)
    other_class j below =
        InClass-frame linked_up m' j (lists j) (same_headers (lists j) (s.above j below))
          (InClass-frame m linked_up j (lists j) (headers j below) (v.sorted j below))

    shorter : length (xs ++ ys) ≤ most
    shorter =
        let old = ap length split in
        omega (arith, v.short i is_class, old, length-append xs (bp ∷ ys), length-append xs ys)

    removed-IsClasses : IsClasses free_listp m' (with_list lists i (xs ++ ys)) most
    removed-IsClasses = record {
      linked = λ j below.
          at_list (λ k ps. IsFreeList m' (m' (free_listp + k * 4)) ps) lists i (xs ++ ys) j own
            (other j below);
      sorted = λ j below.
          at_list (InClass m') lists i (xs ++ ys) j own_class (λ ne. other_class j below);
      short = λ j below.
          at_list (λ k ps. length ps ≤ most) lists i (xs ++ ys) j shorter (λ ne. v.short j below);
    }

  Agree-refl : (m : Memory) (ps : List ℕ) → Agree m m ps
  Agree-refl m [] = tt
  Agree-refl m (p ∷ ps) = (refl, refl, Agree-refl m ps)

  unchanged_headers : (m : Memory) (ps : List ℕ) → All (λ p. m (p - 4) ≡ m (p - 4)) ps
  unchanged_headers m [] = tt
  unchanged_headers m (p ∷ ps) = (refl, unchanged_headers m ps)

  head_if :
      (b : Bool)
      → (m bp == 0) ≡ b
      → (if b then m (bp + 4) else m head) ≡ (if m bp == 0 then m (bp + 4) else m head)
  head_if b e = ap (λ t. if t then m (bp + 4) else m head) (sym e)

  abbrev fewer : ℕ → List ℕ
  fewer = with_list lists i (xs ++ ys)

  fewer-All : (P : ℕ → Type 0) (j : ℕ) → All P (lists j) → All P (fewer j)
  fewer-All P j a =
      at_list (λ k ps. All P (lists k) → All P ps) lists i (xs ++ ys) j
        (λ a'. All-without P xs bp ys (subst (All P) split a')) (λ ne a'. a') a

  fewer-Absent : (q j : ℕ) → Absent q (lists j) → Absent q (fewer j)
  fewer-Absent q j a =
      at_list (λ k ps. Absent q (lists k) → Absent q ps) lists i (xs ++ ys) j
        (λ a'.
          let (l, r) = Absent-append q xs (bp ∷ ys) (subst (Absent q) split a') in
          append-Absent q xs ys l r.1)
        (λ ne a'. a') a

  fewer-IsSpaced : IsSpaced free_listp (with_list lists i (xs ++ ys))
  fewer-IsSpaced = record {
    aligned = s.aligned;
    above = λ j below. fewer-All (λ p. free_listp + 96 ≤ p) j (s.above j below);
    apart = λ j k below below' ne.
        fewer-All (λ p. Absent p (fewer k)) j
          (All-map (λ p. Absent p (lists k)) (λ p. Absent p (fewer k)) (lists j)
            (λ p a. fewer-Absent p k a) (s.apart j k below below' ne));
    roomy = λ j k below below'.
        fewer-All (λ p. Absent (p + 8) (fewer k)) j
          (All-map (λ p. Absent (p + 8) (lists k)) (λ p. Absent (p + 8) (fewer k)) (lists j)
            (λ p a. fewer-Absent (p + 8) k a) (s.roomy j k below below'));
  }

  removed-lists :
      IsClasses free_listp (remove_free_blk free_listp m bp) (with_list lists i (xs ++ ys)) most
  removed-lists =
      let class = (InClass-at m i xs bp ys (subst (InClass m i) split (v.sorted i is_class))).0 in
      let result =
        remove_free_blk-link free_listp m bp
        ∙ ap
            (λ k.
              if m bp == 0 then store (free_listp + k * 4) (m (bp + 4)) linked_up else linked_up)
            class in
      subst (λ t. IsClasses free_listp t (with_list lists i (xs ++ ys)) most) (sym result)
        (either_branch (λ t. IsClasses free_listp t (with_list lists i (xs ++ ys)) most) (m bp == 0)
          (store head (m (bp + 4)) linked_up) linked_up
          (λ first.
            removed-IsClasses (store head (m (bp + 4)) linked_up)
              (rw (==_true head) (head_if true first))
              (λ j ne. rw (==_false (free_listp + j * 4) head (λ e. ne (omega (arith, e)))) refl)
              (λ ps above.
                store-Agree linked_up head (m (bp + 4)) (free_listp + 96) ps (omega arith) above)
              (λ ps above.
                store-headers linked_up head (m (bp + 4)) (free_listp + 96) ps (omega arith) above))
          (λ inner.
            removed-IsClasses linked_up (heads i is_class ∙ head_if false inner) (λ j ne. refl)
              (λ ps above. Agree-refl linked_up ps) (λ ps above. unchanged_headers linked_up ps)))

  -- `remove_free_blk` of a block on the list of its class takes it off that list. The lists of all classes
  -- stay in order, with the same blocks in the others, and the blocks of all lists apart.
  pub remove_free_blk-IsClasses :
      IsClasses free_listp (remove_free_blk free_listp m bp) (with_list lists i (xs ++ ys)) most
      × IsSpaced free_listp (with_list lists i (xs ++ ys))
  remove_free_blk-IsClasses = (removed-lists, fewer-IsSpaced)
