-- ===== src/Malloc/Segregated/Spaced.antt =====
-- The free lists of malloclab-handout/mm.c, all classes together: where their blocks stand.
use native.Mathlib.Decide.{ℕ_discrete}
use mathlib.Core.Path.{subst}
use cmu_ics.Prelude.{
  All, ℕ, ◌+◌, ◌-◌, ◌%◌, ◌≤◌, ◌<◌, ◌≡◌, ◌≢◌, refl, sym, List, [], ◌∷◌, ◌++◌, Bool, true, false,
  ◌==◌, ==_true, ==_false, if◌then◌else◌, arith,
}
use cmu_ics.Malloc.Memory.{Memory, store}
use cmu_ics.Malloc.Tags.{unpack_size}
use cmu_ics.Malloc.Links.{Absent, Agree, Chain, Chain-frame, IsFreeList}
use cmu_ics.Malloc.Segregated.{classnum}
use cmu_ics.Malloc.Segregated.Class.{InClass}

pub Chain-All : (m : Memory) (pre : ℕ) (ps : List ℕ) → Chain m pre ps → All (λ p. p % 8 ≡ 0) ps
Chain-All m pre [] c = tt
Chain-All m pre (p ∷ ps) (pos, even, back, next, c) = (even, Chain-All m p ps c)

-- What holds of NULL and of all blocks of a list holds of the neighbours of a block.
pub neighbours :
    (P : ℕ → Type 0) (m : Memory) (pre bp : ℕ) (xs ys : List ℕ)
    → P 0
    → P pre
    → All P (xs ++ (bp ∷ ys))
    → Chain m pre (xs ++ (bp ∷ ys))
    → P (m bp) × P (m (bp + 4))
neighbours P m pre bp [] [] null first a (pos, even, back, next, c) =
    (subst P (sym back) first, subst P (sym next) null)
neighbours P m pre bp [] (y ∷ ys) null first a (pos, even, back, next, c) =
    (subst P (sym back) first, subst P (sym next) a.1.0)
neighbours P m pre bp (x ∷ xs) ys null first a (pos, even, back, next, c) =
    neighbours P m x bp xs ys null a.0 a.1 c

-- The blocks of the lists stand behind the heads, at least sixteen bytes from each other.
pub record IsSpaced (free_listp : ℕ) (lists : ℕ → List ℕ) : Type 0 where
  pub aligned : free_listp % 8 ≡ 0
  pub above : (i : ℕ) → i < classnum → All (λ p. free_listp + 96 ≤ p) (lists i)
  pub apart :
      (i j : ℕ) → i < classnum → j < classnum → i ≢ j → All (λ p. Absent p (lists j)) (lists i)
  pub roomy :
      (i j : ℕ) → i < classnum → j < classnum → All (λ p. Absent (p + 8) (lists j)) (lists i)

-- The lists with the one of class `i` replaced.
abbrev pub with_list : (ℕ → List ℕ) → ℕ → List ℕ → ℕ → List ℕ
with_list lists i ps j = if j == i then ps else lists j

pub either_branch :
    (C : Memory → Type 0) (b : Bool) (m m' : Memory)
    → (b ≡ true → C m)
    → (b ≡ false → C m')
    → C (if b then m else m')
either_branch C true m m' yes_case no_case = yes_case refl
either_branch C false m m' yes_case no_case = no_case refl

pub at_list :
    (C : ℕ → List ℕ → Type 0) (lists : ℕ → List ℕ) (i : ℕ) (ps : List ℕ) (j : ℕ)
    → C i ps
    → (i ≢ j → C j (lists j))
    → C j (with_list lists i ps j)
at_list C lists i ps j own other = elim (ℕ_discrete i j) [
  | yes e ↦ subst (λ k. C k (with_list lists i ps k)) e (rw (==_true i) own)
  | no ne ↦ rw (==_false j i (λ e. ne (sym e))) (other ne)
]

pub IsFreeList-frame :
    (m m' : Memory) (head : ℕ) (ps : List ℕ)
    → Agree m m' ps
    → IsFreeList m head ps
    → IsFreeList m' head ps
IsFreeList-frame m m' head ps same v = record {
  starts = v.starts;
  chain = Chain-frame m m' 0 ps same v.chain;
  distinct = v.distinct;
}

-- A store to a head changes no block.
pub store-Agree :
    (m : Memory) (a v lo : ℕ) (ps : List ℕ)
    → a < lo
    → All (λ p. lo ≤ p) ps
    → Agree m (store a v m) ps
store-Agree m a v lo [] below above = tt
store-Agree m a v lo (p ∷ ps) below (here, above) =
    (ground (arith, below, here), ground (arith, below, here), store-Agree m a v lo ps below above)

pub InClass-frame :
    (m m' : Memory) (i : ℕ) (ps : List ℕ)
    → All (λ p. m' (p - 4) ≡ m (p - 4)) ps
    → InClass m i ps
    → InClass m' i ps
unfolding unpack_size
InClass-frame m m' i [] same c = tt
InClass-frame m m' i (p ∷ ps) (e, same) (here, c) = (rw e here, InClass-frame m m' i ps same c)

pub Absent-low : (q lo : ℕ) (ps : List ℕ) → q < lo → All (λ p. lo ≤ p) ps → Absent q ps
Absent-low q lo [] less above = tt
Absent-low q lo (p ∷ ps) less (far, above) = (omega arith, Absent-low q lo ps less above)
