-- ===== src/Malloc/Segregated/Insert.antt =====
-- The free lists of malloclab-handout/mm.c, all classes together: `insert_free_blk`.
use native.Mathlib.Decide.{ℕ_discrete}
use mathlib.Core.Path.{subst}
use cmu_ics.Prelude.{
  All, All-map, All-both, ℕ, ◌+◌, ◌-◌, ◌*◌, ◌%◌, ◌≤◌, ◌<◌, ◌≡◌, ◌≢◌, refl, sym, inl, inr, List, [],
  ◌∷◌, false, ◌==◌, ==_true, ==_false, length, arith,
}
use cmu_ics.Malloc.Memory.{Memory, store}
use cmu_ics.Malloc.Tags.{unpack_size}
use cmu_ics.Malloc.Links.{Absent, first_of, IsFreeList, push, push-IsFreeList, nonzero}
use cmu_ics.Malloc.Segregated.{classnum, get_list_idx, insert_free_blk}
use cmu_ics.Malloc.Segregated.Class.{IsClasses, InClass}
use cmu_ics.Malloc.Segregated.Spaced.{
  Chain-All, IsSpaced, with_list, at_list, IsFreeList-frame, store-Agree, InClass-frame,
}
use cmu_ics.Malloc.Segregated.Class.{get_list_idx-bounds}
use cmu_ics.Malloc.Segregated.Lists.{Behind, store-headers}
use cmu_ics.Malloc.Links.{push-Agree, push-odd}

-- The two cases of `insert_free_blk` are one.
insert_free_blk-push :
    (free_listp : ℕ) (m : Memory) (bp : ℕ)
    → let head = free_listp + get_list_idx (unpack_size m (bp - 4)) * 4 in
      insert_free_blk free_listp m bp ≡ store head bp (push m bp (m head))
unfolding insert_free_blk
insert_free_blk-push free_listp m bp =
    let head = free_listp + get_list_idx (unpack_size m (bp - 4)) * 4 in
    elim (ℕ_discrete (m head) 0) [
      | yes empty ↦ rw empty refl
      | no root ↦ rw (==_false (m head) 0 root) refl
    ]

first_of-any : (P : ℕ → Type 0) (ps : List ℕ) → P 0 → All P ps → P (first_of ps)
first_of-any P [] null a = null
first_of-any P (p ∷ ps) null (here, a) = here

push-before :
    (m : Memory) (bp old a lo : ℕ) → lo ≤ bp → Behind lo old → a < lo → push m bp old a ≡ m a
push-before m bp old a lo far (inl e) less = rw e (ground (arith, far, less))
push-before m bp old a lo far (inr far') less = ground (arith, far, far', less)

-- The header of a block is no link of another.
push-headers :
    (m : Memory) (bp old : ℕ) (ps : List ℕ)
    → bp % 8 ≡ 0
    → old % 8 ≡ 0
    → Absent (bp + 8) ps
    → All (λ p. p % 8 ≡ 0) ps
    → All (λ p. 16 ≤ p) ps
    → All (λ p. push m bp old (p - 4) ≡ m (p - 4)) ps
push-headers m bp old [] even old_even out aligned high = tt
push-headers m bp old (p ∷ ps) even old_even (ne, out) (p_even, aligned) (p_high, high) =
    let back : p - 8 + 4 ≡ p - 4 = omega arith in
    (
      subst (λ a. push m bp old a ≡ m a) back
          (push-odd m bp old (p - 8) even old_even (omega arith) (λ e. ne (omega (arith, e)))),
      push-headers m bp old ps even old_even out aligned high,
    )

Absent-All : (q : ℕ) (ps : List ℕ) → Absent q ps → All (λ p. p ≢ q) ps
Absent-All q [] a = tt
Absent-All q (p ∷ ps) (ne, a) = (λ e. ne (sym e), Absent-All q ps a)

-- A block that is sixteen bytes or more from those of all lists, and behind the heads.
pub record IsNew (free_listp : ℕ) (lists : ℕ → List ℕ) (bp : ℕ) : Type 0 where
  pub even : bp % 8 ≡ 0
  pub far : free_listp + 96 ≤ bp
  pub fresh : (j : ℕ) → j < classnum → Absent bp (lists j)
  pub behind : (j : ℕ) → j < classnum → Absent (bp + 8) (lists j)
  pub before : (j : ℕ) → j < classnum → All (λ p. p + 8 ≢ bp) (lists j)

module _ (free_listp : ℕ) (m : Memory) (lists : ℕ → List ℕ) (most bp : ℕ)
    (v : IsClasses free_listp m lists most) (s : IsSpaced free_listp lists)
    (b : IsNew free_listp lists bp) where
  abbrev i : ℕ
  i = get_list_idx (unpack_size m (bp - 4))

  is_class : i < classnum
  is_class = (get_list_idx-bounds 0 (unpack_size m (bp - 4)) (omega arith)).1

  abbrev head : ℕ
  head = free_listp + i * 4

  abbrev pushed : Memory
  pushed = push m bp (m head)

  abbrev result : Memory
  result = store head bp pushed

  root : (P : ℕ → Type 0) → P 0 → All P (lists i) → P (m head)
  root P null a = subst P (sym (v.linked i is_class).starts) (first_of-any P (lists i) null a)

  root_even : m head % 8 ≡ 0
  root_even = root (λ q. q % 8 ≡ 0) refl (Chain-All m 0 (lists i) (v.linked i is_class).chain)

  root_behind : Behind (free_listp + 96) (m head)
  root_behind = root (Behind (free_listp + 96)) (inl refl) (
      All-map (λ p. free_listp + 96 ≤ p) (Behind (free_listp + 96)) (lists i) (λ p far. inr far)
        (s.above i is_class))

  headers : (j : ℕ) → j < classnum → All (λ p. pushed (p - 4) ≡ m (p - 4)) (lists j)
  headers j below =
      push-headers m bp (m head) (lists j) b.even root_even (b.behind j below)
        (Chain-All m 0 (lists j) (v.linked j below).chain)
        (All-map (λ p. free_listp + 96 ≤ p) (λ p. 16 ≤ p) (lists j) (λ p far. omega (arith, far))
          (s.above j below))

  own_header : pushed (bp - 4) ≡ m (bp - 4)
  own_header =
      let far = b.far in
      let even = b.even in
      (push-headers m bp (m head) (bp ∷ []) even root_even (omega arith, tt) (even, tt)
        (omega arith, tt)).0

  own : IsFreeList result (result head) (bp ∷ lists i)
  own =
      let far = b.far in
      let new_head : result head ≡ bp = rw (==_true head) refl in
      subst (λ t. IsFreeList result t (bp ∷ lists i)) (sym new_head)
        (IsFreeList-frame pushed result bp (bp ∷ lists i)
          (store-Agree pushed head bp (free_listp + 96) (bp ∷ lists i) (omega (arith, is_class))
            (far, s.above i is_class))
          (push-IsFreeList m (m head) bp (lists i) (v.linked i is_class) (omega arith) b.even
            (b.fresh i is_class)))

  own_class : InClass result i (bp ∷ lists i)
  own_class =
      InClass-frame pushed result i (bp ∷ lists i)
        (store-headers pushed head bp (free_listp + 96) (bp ∷ lists i) (omega (arith, is_class))
          (b.far, s.above i is_class))
        (InClass-frame m pushed i (bp ∷ lists i) (own_header, headers i is_class)
          (refl, v.sorted i is_class))

  other : (j : ℕ) → j < classnum → i ≢ j → IsFreeList result (result (free_listp + j * 4)) (lists j)
  other j below ne =
      let c = (v.linked j below).chain in
      let out =
        root (λ q. Absent q (lists j)) (nonzero m 0 (lists j) c) (s.apart i j is_class below ne) in
      let apart : (free_listp + j * 4 == head) ≡ false =
        ==_false (free_listp + j * 4) head (λ e. ne (omega (arith, e))) in
      let old_head : result (free_listp + j * 4) ≡ m (free_listp + j * 4) = rw apart (
        push-before m bp (m head) (free_listp + j * 4) (free_listp + 96) b.far root_behind
          (omega arith)) in
      subst (λ t. IsFreeList result t (lists j)) (sym old_head)
        (IsFreeList-frame pushed result (m (free_listp + j * 4)) (lists j)
          (store-Agree pushed head bp (free_listp + 96) (lists j) (omega (arith, is_class))
            (s.above j below))
          (IsFreeList-frame m pushed (m (free_listp + j * 4)) (lists j)
            (push-Agree m bp (m head) 0 (lists j) b.even root_even (b.fresh j below) out c)
            (v.linked j below)))

  other_class : (j : ℕ) → j < classnum → InClass result j (lists j)
  other_class j below =
      InClass-frame pushed result j (lists j)
        (store-headers pushed head bp (free_listp + 96) (lists j) (omega (arith, is_class))
          (s.above j below))
        (InClass-frame m pushed j (lists j) (headers j below) (v.sorted j below))

  more_blocks : ℕ → List ℕ
  more_blocks = with_list lists i (bp ∷ lists i)

  more_blocks-All : (P : ℕ → Type 0) (j : ℕ) → P bp → All P (lists j) → All P (more_blocks j)
  unfolding more_blocks
  more_blocks-All P j new a =
      at_list (λ k ps. All P (lists k) → All P ps) lists i (bp ∷ lists i) j (λ a'. (new, a'))
        (λ ne a'. a') a

  more_blocks-Absent : (q j : ℕ) → q ≢ bp → Absent q (lists j) → Absent q (more_blocks j)
  unfolding more_blocks
  more_blocks-Absent q j new a =
      at_list (λ k ps. Absent q (lists k) → Absent q ps) lists i (bp ∷ lists i) j (λ a'. (new, a'))
        (λ ne a'. a') a

  more_blocks-apart :
      (j k : ℕ)
      → j < classnum
      → k < classnum
      → j ≢ k
      → All (λ p. Absent p (more_blocks k)) (more_blocks j)
  unfolding more_blocks
  more_blocks-apart j k below below' ne =
      at_list (λ j ps. j < classnum → j ≢ k → All (λ p. Absent p (more_blocks k)) ps) lists i
        (bp ∷ lists i) j
        (λ below ne.
          let old : more_blocks k ≡ lists k = rw (==_false k i (λ e. ne (sym e))) refl in
          subst (λ t. Absent bp t × All (λ p. Absent p t) (lists i)) (sym old)
            (b.fresh k below', s.apart i k is_class below' ne))
        (λ ne' below ne.
          All-both (λ p. p ≢ bp) (λ p. Absent p (lists k)) (λ p. Absent p (more_blocks k)) (lists j)
            (λ p new out. more_blocks-Absent p k new out)
            (Absent-All bp (lists j) (b.fresh j below)) (s.apart j k below below' ne))
        below ne

  more_blocks-IsSpaced : IsSpaced free_listp (with_list lists i (bp ∷ lists i))
  unfolding more_blocks
  more_blocks-IsSpaced = record {
    aligned = s.aligned;
    above = λ j below. more_blocks-All (λ p. free_listp + 96 ≤ p) j b.far (s.above j below);
    apart = more_blocks-apart;
    roomy = λ j k below below'.
        more_blocks-All (λ p. Absent (p + 8) (more_blocks k)) j
          (more_blocks-Absent (bp + 8) k (omega arith) (b.behind k below'))
          (All-both (λ p. p + 8 ≢ bp) (λ p. Absent (p + 8) (lists k))
            (λ p. Absent (p + 8) (more_blocks k)) (lists j)
            (λ p ne out. more_blocks-Absent (p + 8) k ne out) (b.before j below)
            (s.roomy j k below below'));
  }

  -- `insert_free_blk` of a block that is on no list and sixteen bytes from all that are puts it in front of
  -- the list of its class. The lists of all classes stay in order, and the blocks of all lists apart.
  pub insert_free_blk-IsClasses :
      ((j : ℕ) → j < classnum → length (lists j) < most)
      → let lists' =
          with_list lists
            (get_list_idx (unpack_size m (bp - 4)))
            (bp ∷ lists (get_list_idx (unpack_size m (bp - 4)))) in
        IsClasses free_listp (insert_free_blk free_listp m bp) lists' most
        × IsSpaced free_listp lists'
  insert_free_blk-IsClasses short = (
    subst (λ t. IsClasses free_listp t (with_list lists i (bp ∷ lists i)) most)
        (sym (insert_free_blk-push free_listp m bp))
        (record {
          linked = λ j below.
              at_list (λ k ps. IsFreeList result (result (free_listp + k * 4)) ps) lists i
                (bp ∷ lists i) j own (other j below);
          sorted = λ j below.
              at_list (InClass result) lists i (bp ∷ lists i) j own_class
                (λ ne. other_class j below);
          short = λ j below.
              at_list (λ k ps. length ps ≤ most) lists i (bp ∷ lists i) j (short i is_class)
                (λ ne. omega (arith, short j below));
        }),
    more_blocks-IsSpaced,
  )
