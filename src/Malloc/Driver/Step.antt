-- ===== src/Malloc/Driver/Step.antt =====
-- The state that the loop of `eval_mm_valid` of malloclab-handout/mdriver.c keeps, for an allocator with the laws.
use mathlib.Core.Path.{subst}
use cmu_ics.Prelude.{
  ℕ, ◌+◌, ◌-◌, ◌%◌, ◌≤◌, ◌<◌, ◌≡◌, ◌≢◌, refl, sym, ap, ◌∙◌, inl, inr, List, [], ◌∷◌, ◌++◌, map,
  ==_true, ==_false, All, All-both, arith,
}
use cmu_ics.Malloc.Links.{Absent}
use cmu_ics.Malloc.Driver.{Allocator, Range, added, remove_range, add_range, set_at, Driver}
use cmu_ics.Malloc.Driver.Laws.{Payloads, Clear, SameBytes, Preserves, IsLawful}
use cmu_ics.Malloc.Driver.Ranges.{Passed, add_range_iff, remove_range-append}

-- A block of the trace that is in use.
pub record Live : Type 0 where
  pub index : ℕ
  pub ptr : ℕ
  pub size : ℕ

abbrev pub payload : Live → ℕ × ℕ
payload l = (l.ptr, l.size)

abbrev pub range : Live → Range
range l = record { lo = l.ptr; hi = l.ptr + l.size - 1 }

module _ (A : Allocator) (L : IsLawful A) where
  -- The arrays say where a block is, and it is filled with its index.
  abbrev pub Remembered : Driver A → Live → Type 0
  Remembered d l =
      (d.blocks l.index ≡ l.ptr)
      × (d.block_sizes l.index ≡ l.size)
      × ((j : ℕ) → j < l.size → A.get_byte d.state (l.ptr + j) ≡ l.index % 256)

  pub record IsRunning (d : Driver A) (ls : List Live) : Type 0 where
    pub owned : L.Owned d.state (map payload ls)
    pub listed : d.ranges ≡ map range ls
    pub remembered : All (Remembered d) ls

  All-payload :
      (P : ℕ × ℕ → Type 0) (ls : List Live) → All P (map payload ls) → All (λ l. P (payload l)) ls
  All-payload P [] a = tt
  All-payload P (l ∷ ls) (here, a) = (here, All-payload P ls a)

  map-append :
      {B : Type 0} (f : Live → B) (xs ys : List Live) → map f (xs ++ ys) ≡ map f xs ++ map f ys
  map-append f [] ys = refl
  map-append f (x ∷ xs) ys = ap (λ t. f x ∷ t) (map-append f xs ys)

  pub Preserves-trans :
      (s s' s'' : A.State) (bs : Payloads)
      → Preserves A s s' bs
      → Preserves A s' s'' bs
      → Preserves A s s'' bs
  Preserves-trans s s' s'' bs =
      All-both (λ b. SameBytes A s s' b.0 b.1) (λ b. SameBytes A s' s'' b.0 b.1)
        (λ b. SameBytes A s s'' b.0 b.1) bs (λ b same same' j less. same' j less ∙ same j less)

  -- A block in use, brought to the front.
  pub owned_at :
      (s : A.State) (xs : List Live) (l : Live) (ys : List Live)
      → L.Owned s (map payload (xs ++ (l ∷ ys)))
      → L.Owned s (payload l ∷ map payload (xs ++ ys))
  owned_at s xs l ys o =
      subst (λ t. L.Owned s (payload l ∷ t)) (sym (map-append payload xs ys))
        (L.owned-front s (map payload xs) (payload l) (map payload ys)
          (subst (L.Owned s) (map-append payload xs (l ∷ ys)) o))

  -- The blocks are apart, so the list is searched up to the right one.
  pub removed_at :
      (d : Driver A) (xs : List Live) (l : Live) (ys : List Live)
      → L.Owned d.state (map payload (xs ++ (l ∷ ys)))
      → d.ranges ≡ map range (xs ++ (l ∷ ys))
      → remove_range d.ranges l.ptr ≡ map range (xs ++ ys)
  removed_at d xs l ys o e =
      let (aligned, low, high, pos, small, clear) =
        L.placed d.state l.ptr l.size (map payload (xs ++ ys)) (owned_at d.state xs l ys o) in
      ap (λ t. remove_range t l.ptr) (e ∙ map-append range xs (l ∷ ys))
      ∙ remove_range-append (map range xs) (range l) (map range ys) (others xs pos clear)
      ∙ sym (map-append range xs ys)
    where
      others :
          (xs : List Live)
          → 0 < l.size
          → All (Clear l.ptr l.size) (map payload (xs ++ ys))
          → All (λ q. q.lo ≢ l.ptr) (map range xs)
      others [] pos clear = tt
      others (x ∷ xs) pos ((some_bytes, inl behind), clear) =
          (omega (arith, behind, pos), others xs pos clear)
      others (x ∷ xs) pos ((some_bytes, inr before), clear) =
          (omega (arith, before, some_bytes), others xs pos clear)

  -- The driver accepts the payload that an allocator with the laws returns.
  pub accepted :
      (s : A.State) (ls : List Live) (p size : ℕ)
      → L.Owned s ((p, size) ∷ map payload ls)
      → add_range A s (map range ls) p size
        ≡ added (record { lo = p; hi = p + size - 1 } ∷ map range ls)
  accepted s ls p size o =
      let (aligned, low, high, pos, small, clear) = L.placed s p size (map payload ls) o in
      (add_range_iff A s (map range ls) p size pos small (upward ls clear)).1
        (aligned, low, high, passed ls pos clear)
    where
      upward :
          (ls : List Live)
          → All (Clear p size) (map payload ls)
          → All (λ q. q.lo ≤ q.hi) (map range ls)
      upward [] clear = tt
      upward (l ∷ ls) ((some_bytes, apart), clear) = (omega (arith, some_bytes), upward ls clear)

      passed :
          (ls : List Live)
          → 0 < size
          → All (Clear p size) (map payload ls)
          → All (Passed p (p + size - 1)) (map range ls)
      passed [] pos clear = tt
      passed (l ∷ ls) pos ((some_bytes, inl behind), clear) =
          (inl (omega (arith, behind, pos)), passed ls pos clear)
      passed (l ∷ ls) pos ((some_bytes, inr before), clear) =
          (inr (inl (omega (arith, before, some_bytes))), passed ls pos clear)

  abbrev pub filled : Driver A → A.State → List Range → ℕ → ℕ → ℕ → Driver A
  filled d s ranges index p size = record {
    state = A.memset s p (index % 256) size;
    ranges = ranges;
    blocks = set_at d.blocks index p;
    block_sizes = set_at d.block_sizes index size;
  }

  -- Other blocks are remembered as before, when their contents are.
  pub Remembered-kept :
      (d d' : Driver A) (index : ℕ) (ls : List Live)
      → ((i : ℕ) → i ≢ index → (d'.blocks i ≡ d.blocks i) × (d'.block_sizes i ≡ d.block_sizes i))
      → Absent index (map (λ l. l.index) ls)
      → Preserves A d.state d'.state (map payload ls)
      → All (Remembered d) ls
      → All (Remembered d') ls
  Remembered-kept d d' index [] arrays out same r = tt
  Remembered-kept d d' index (l ∷ ls) arrays (ne, out) (here, same) ((at, sized, bytes), r) =
      let (at', sized') = arrays l.index (λ e. ne (sym e)) in
      (
        (at' ∙ at, sized' ∙ sized, λ j less. here j less ∙ bytes j less),
        Remembered-kept d d' index ls arrays out same r,
      )

  -- After the block `p` is filled and remembered.
  pub filled-IsRunning :
      (d : Driver A) (s : A.State) (ls : List Live) (index p size : ℕ)
      → L.Owned s ((p, size) ∷ map payload ls)
      → Preserves A d.state s (map payload ls)
      → All (Remembered d) ls
      → Absent index (map (λ l. l.index) ls)
      → IsRunning
          (filled d s (record { lo = p; hi = p + size - 1 } ∷ map range ls) index p size)
          (record { index = index; ptr = p; size = size } ∷ ls)
  filled-IsRunning d s ls index p size o kept r out =
      let (o', same, bytes) =
        L.memset-law s (map payload ls) p size (index % 256) o (omega arith) in
      let d' = filled d s (record { lo = p; hi = p + size - 1 } ∷ map range ls) index p size in
      record {
        owned = o';
        listed = refl;
        remembered = (
          (rw (==_true index) refl, rw (==_true index) refl, bytes),
          Remembered-kept d d' index ls
              (λ i ne. (rw (==_false i index ne) refl, rw (==_false i index ne) refl)) out
              (Preserves-trans d.state s d'.state (map payload ls) kept same) r,
        );
      }
