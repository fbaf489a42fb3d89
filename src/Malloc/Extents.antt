-- ===== src/Malloc/Extents.antt =====
-- The blocks in use, as their addresses and sizes: what the clients of an allocator of malloclab-handout
-- see of its heap.
use mathlib.Core.Path.{ap₂}
use cmu_ics.Prelude.{
  All, All-map, ◌⊎◌, ℕ, ◌+◌, ◌-◌, ◌%◌, ◌≤◌, ◌<◌, ◌≡◌, ◌≢◌, refl, ap, ◌∙◌, inl, inr, List, [], ◌∷◌,
  ◌++◌, false, ◌==◌, if◌then◌else◌, Bool-cases, arith,
}
use cmu_ics.Malloc.Memory.{Memory}
use cmu_ics.Malloc.Tiles.{Block, Tiled, Tiled-total, SameFrom, total}

abbrev pub Extents : Type 0
Extents = List (ℕ × ℕ)

unfoldable pub extents : ℕ → List Block → Extents
extents p [] = []
extents p (b ∷ bs) =
    if b.alloc == 0 then extents (p + b.size) bs else (p, b.size) ∷ extents (p + b.size) bs

pub extents-append :
    (p : ℕ) (xs ys : List Block) → extents p (xs ++ ys) ≡ extents p xs ++ extents (p + total xs) ys
unfolding extents
extents-append p [] ys = ap (λ q. extents q ys) (omega arith)
extents-append p (b ∷ xs) ys =
    let far : p + b.size + total xs ≡ p + (b.size + total xs) = omega arith in
    ground (arith, extents-append (p + b.size) xs ys, far)

-- Two memories agree on the payloads of the extents.
abbrev pub Kept : Memory → Memory → Extents → Type 0
Kept m m' [] = Unit {0}
Kept m m' ((p, size) ∷ es) = ((a : ℕ) → p ≤ a → a < p + size - 8 → m' a ≡ m a) × Kept m m' es

pub Kept-append :
    (m m' : Memory) (xs ys : Extents) → Kept m m' xs → Kept m m' ys → Kept m m' (xs ++ ys)
Kept-append m m' [] ys k l = l
Kept-append m m' (x ∷ xs) ys (here, k) l = (here, Kept-append m m' xs ys k l)

pub Kept-without :
    (m m' : Memory) (xs ys : Extents) (x : ℕ × ℕ)
    → Kept m m' (xs ++ (x ∷ ys))
    → Kept m m' (xs ++ ys)
Kept-without m m' [] ys x (here, k) = k
Kept-without m m' (z ∷ xs) ys x (here, k) = (here, Kept-without m m' xs ys x k)

pub Kept-trans : (m m' m'' : Memory) (es : Extents) → Kept m m' es → Kept m' m'' es → Kept m m'' es
Kept-trans m m' m'' [] k l = tt
Kept-trans m m' m'' (x ∷ es) (here, k) (here', l) =
    (λ a h h'. here' a h h' ∙ here a h h', Kept-trans m m' m'' es k l)

-- The payloads of a stretch of blocks lie within it.
pub Kept-Tiled :
    (m m' : Memory) (p : ℕ) (bs : List Block) (q : ℕ)
    → Tiled m p bs q
    → SameFrom p (q - 8) m m'
    → Kept m m' (extents p bs)
unfolding extents
Kept-Tiled m m' p [] q t same = tt
Kept-Tiled m m' p (b ∷ bs) q (v, t) same =
    let end = Tiled-total m (p + b.size) bs q t in
    let rest = Kept-Tiled m m' (p + b.size) bs q t (λ a h h'. same a (omega arith) h') in
    elim (Bool-cases (b.alloc == 0)) [
      | inl free ↦ rw free rest
      | inr used ↦ rw used ((λ a h h'. same a h (omega arith)), rest)
    ]

-- Where an extent stands among the blocks.
pub record Found (p : ℕ) (bs : List Block) (xs ys : Extents) (a n : ℕ) : Type 0 where
  pub front : List Block
  pub back : List Block
  pub found : Block
  pub parts : bs ≡ front ++ (found ∷ back)
  pub extent : found.size ≡ n
  pub used : found.alloc ≢ 0
  pub place : a ≡ p + total front
  pub before : extents p front ≡ xs
  pub behind : extents (a + n) back ≡ ys

Found-cons :
    (p : ℕ) (b : Block) (bs : List Block) (xs ys : Extents) (a n : ℕ) (seen : Extents)
    → extents p (b ∷ []) ≡ seen
    → Found (p + b.size) bs xs ys a n
    → Found p (b ∷ bs) (seen ++ xs) ys a n
Found-cons p b bs xs ys a n seen e f = record {
  front = b ∷ f.front;
  back = f.back;
  found = f.found;
  parts = ap (λ t. b ∷ t) f.parts;
  extent = f.extent;
  used = f.used;
  place = omega (arith, f.place);
  before =
      extents-append p (b ∷ []) f.front
      ∙ ap₂ ◌++◌ e (ap (λ q. extents q f.front) (omega arith) ∙ f.before);
  behind = f.behind;
}

pub extents-Found :
    (p : ℕ) (bs : List Block) (xs ys : Extents) (a n : ℕ)
    → extents p bs ≡ xs ++ ((a, n) ∷ ys)
    → Found p bs xs ys a n
unfolding extents
extents-Found p [] [] ys a n e = absurd (cc)
extents-Found p [] (x ∷ xs) ys a n e = absurd (cc)
extents-Found p (b ∷ bs) xs ys a n e = elim (Bool-cases (b.alloc == 0)) [
  | inl free ↦
      Found-cons p b bs xs ys a n [] (rw free refl)
        (extents-Found (p + b.size) bs xs ys a n (rw free at e))
  | inr used ↦ first xs (λ zs. extents-Found (p + b.size) bs zs ys a n) (rw used at e) used
]
  where
    first :
        (xs : Extents)
        → ((zs : Extents)
            → extents (p + b.size) bs ≡ zs ++ ((a, n) ∷ ys)
            → Found (p + b.size) bs zs ys a n)
        → (p, b.size) ∷ extents (p + b.size) bs ≡ xs ++ ((a, n) ∷ ys)
        → (b.alloc == 0) ≡ false
        → Found p (b ∷ bs) xs ys a n
    first [] more e used = record {
      front = [];
      back = bs;
      found = b;
      parts = refl;
      extent = ground arith;
      used = ground arith;
      place = ground arith;
      before = refl;
      behind = ground arith;
    }
    first (x ∷ xs) more e used =
        let same : x ≡ (p, b.size) = ground arith in
        Found-cons p b bs xs ys a n (x ∷ []) (rw used (ground (arith, same)))
          (more xs (ground arith))

-- The extents are at multiples of eight, apart from each other, and within the heap.
abbrev pub Apart : ℕ → Extents → ℕ → Type 0
Apart lo [] hi = lo ≤ hi
Apart lo ((p, size) ∷ es) hi = (lo ≤ p) × (p % 8 ≡ 0) × Apart (p + size) es hi

pub extents-Apart :
    (m : Memory) (p : ℕ) (bs : List Block) (q lo : ℕ)
    → Tiled m p bs q
    → p % 8 ≡ 0
    → lo ≤ p
    → Apart lo (extents p bs) q
unfolding extents
extents-Apart m p [] q lo t even low = omega (arith, t)
extents-Apart m p (b ∷ bs) q lo (v, t) even low = elim (Bool-cases (b.alloc == 0)) [
  | inl free ↦
      rw free (extents-Apart m (p + b.size) bs q lo t (omega (arith, v.even)) (omega arith))
  | inr used ↦ rw used (
    low,
    even,
    extents-Apart m (p + b.size) bs q (p + b.size) t (omega (arith, v.even)) (omega arith),
  )
]

-- Where an extent stands, and that the others are apart from it.
pub Apart-bounds : (lo : ℕ) (es : Extents) (hi : ℕ) → Apart lo es hi → lo ≤ hi
Apart-bounds lo [] hi a = a
Apart-bounds lo ((p, n) ∷ es) hi (low, even, a) = omega (arith, low, Apart-bounds (p + n) es hi a)

Apart-behind : (lo p : ℕ) (es : Extents) (hi : ℕ) → p ≤ lo → Apart lo es hi → All (λ e. p ≤ e.0) es
Apart-behind lo p [] hi le a = tt
Apart-behind lo p ((q, n) ∷ es) hi le (low, even, a) =
    (omega (arith, low), Apart-behind (q + n) p es hi (omega (arith, low)) a)

pub Apart-at :
    (lo : ℕ) (xs : Extents) (p n : ℕ) (ys : Extents) (hi : ℕ)
    → Apart lo (xs ++ ((p, n) ∷ ys)) hi
    → (lo ≤ p) × (p % 8 ≡ 0) × (p + n ≤ hi) × All (λ e. (p + n ≤ e.0) ⊎ (e.0 + e.1 ≤ p)) (xs ++ ys)
Apart-at lo [] p n ys hi (low, even, a) = (
  low,
  even,
  Apart-bounds (p + n) ys hi a,
  All-map (λ e. p + n ≤ e.0) (λ e. (p + n ≤ e.0) ⊎ (e.0 + e.1 ≤ p)) ys (λ e behind. inl behind)
      (Apart-behind (p + n) (p + n) ys hi (omega arith) a),
)
Apart-at lo ((q, k) ∷ xs) p n ys hi (low, even, a) =
    let (far, p_even, high, others) = Apart-at (q + k) xs p n ys hi a in
    (omega (arith, low, far), p_even, high, (inr far, others))
