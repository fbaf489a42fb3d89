-- ===== src/Malloc/Tiles.antt =====
-- A stretch of memory that is tiled with blocks, as a list of them: what the headers and footers of the
-- allocators of malloclab-handout mean.
use cmu_ics.Prelude.{
  ℕ, ◌+◌, ◌-◌, ◌%◌, ◌≤◌, ◌<◌, ◌≡◌, ◌≢◌, refl, sym, ◌∙◌, List, [], ◌∷◌, ◌++◌, arith,
}
use cmu_ics.Word.{word}
use cmu_ics.Malloc.Memory.{Memory}
use mathlib.Core.Path.{subst}
use cmu_ics.Malloc.Tags.{
  set_tags, set_tags-stores, unpack_size, unpack_alloc, unpack_size-tag, unpack_alloc-tag,
}

pub record Block : Type 0 where
  pub size : ℕ
  pub alloc : ℕ

abbrev pub tag : Block → ℕ
tag b = b.size + b.alloc

abbrev pub total : List Block → ℕ
total [] = 0
total (b ∷ bs) = b.size + total bs

pub total-append : (xs ys : List Block) → total (xs ++ ys) ≡ total xs + total ys
total-append [] ys = omega arith
total-append (x ∷ xs) ys = omega (arith, total-append xs ys)

-- The header and the footer of the block at `p`.
pub record IsBlock (m : Memory) (p : ℕ) (b : Block) : Type 0 where
  pub header : m (p - 4) ≡ tag b
  pub footer : m (p + b.size - 8) ≡ tag b
  pub roomy : 8 ≤ b.size
  pub even : b.size % 8 ≡ 0
  pub bit : b.alloc < 2
  pub small : b.size < word

-- From `p` on stand the blocks `bs`, up to `q`.
abbrev pub Tiled : Memory → ℕ → List Block → ℕ → Type 0
Tiled m p [] q = p ≡ q
Tiled m p (b ∷ bs) q = IsBlock m p b × Tiled m (p + b.size) bs q

-- The memory is the same from `lo` up to `hi`.
abbrev pub SameFrom : ℕ → ℕ → Memory → Memory → Type 0
SameFrom lo hi m m' = (a : ℕ) → lo ≤ a → a < hi → m' a ≡ m a

pub Tiled-total : (m : Memory) (p : ℕ) (bs : List Block) (q : ℕ) → Tiled m p bs q → q ≡ p + total bs
Tiled-total m p [] q t = omega (arith, t)
Tiled-total m p (b ∷ bs) q (v, t) = omega (arith, Tiled-total m (p + b.size) bs q t)

-- The tags of a stretch lie between its first header and the header behind it.
pub Tiled-frame :
    (m m' : Memory) (p : ℕ) (bs : List Block) (q : ℕ)
    → 8 ≤ p
    → Tiled m p bs q
    → SameFrom (p - 4) (q - 4) m m'
    → Tiled m' p bs q
Tiled-frame m m' p [] q low t same = t
Tiled-frame m m' p (b ∷ bs) q low (v, t) same =
    let end = Tiled-total m (p + b.size) bs q t in
    let open_end = v.roomy in
    (
      record {
        header = same (p - 4) (omega arith) (omega arith) ∙ v.header;
        footer = same (p + b.size - 8) (omega arith) (omega arith) ∙ v.footer;
        roomy = v.roomy;
        even = v.even;
        bit = v.bit;
        small = v.small;
      },
      Tiled-frame m m' (p + b.size) bs q (omega arith) t (λ a h h'. same a (omega arith) h'),
    )

pub Tiled-append :
    (m : Memory) (p : ℕ) (xs ys : List Block) (q : ℕ)
    → Tiled m p (xs ++ ys) q
    → (r : ℕ) × Tiled m p xs r × Tiled m r ys q
Tiled-append m p [] ys q t = (p, refl, t)
Tiled-append m p (b ∷ xs) ys q (v, t) =
    let (r, u, w) = Tiled-append m (p + b.size) xs ys q t in (r, (v, u), w)

pub append-Tiled :
    (m : Memory) (p r : ℕ) (xs ys : List Block) (q : ℕ)
    → Tiled m p xs r
    → Tiled m r ys q
    → Tiled m p (xs ++ ys) q
append-Tiled m p r [] ys q t u = subst (λ s. Tiled m s ys q) (sym t) u
append-Tiled m p r (b ∷ xs) ys q (v, t) u = (v, append-Tiled m (p + b.size) r xs ys q t u)

abbrev pub block : ℕ → ℕ → Block
block size alloc = record { size = size; alloc = alloc }

-- What a header may say.
pub record IsTag (size alloc : ℕ) : Type 0 where
  pub roomy : 8 ≤ size
  pub even : size % 8 ≡ 0
  pub bit : alloc < 2
  pub small : size < word

module _ (m : Memory) (s size alloc : ℕ) (low : 8 ≤ s) (v : IsTag size alloc) where
  pub set_tags-same : (a : ℕ) → a ≢ s - 4 → a ≢ s + size - 8 → set_tags m s size alloc a ≡ m a
  set_tags-same a h h' = rw (set_tags-stores m s size alloc v.small v.even v.bit) (ground arith)

  pub set_tags-IsBlock : IsBlock (set_tags m s size alloc) s (block size alloc)
  set_tags-IsBlock = rw (set_tags-stores m s size alloc v.small v.even v.bit) (record {
    header = ground (arith, v.roomy);
    footer = ground arith;
    roomy = v.roomy;
    even = v.even;
    bit = v.bit;
    small = v.small;
  })

  -- New tags from `s` on for a whole number of blocks make them one.
  pub retile :
      (p : ℕ) (xs ys : List Block) (q : ℕ)
      → 8 ≤ p
      → Tiled m p xs s
      → Tiled m (s + size) ys q
      → Tiled (set_tags m s size alloc) p (xs ++ (block size alloc ∷ ys)) q
  retile p xs ys q low' t u =
      let front = Tiled-total m p xs s t in
      let m' = set_tags m s size alloc in
      let roomy = v.roomy in
      append-Tiled m' p s xs (block size alloc ∷ ys) q
        (Tiled-frame m m' p xs s low' t (λ a h h'. set_tags-same a (omega arith) (omega arith)))
        (
          set_tags-IsBlock,
          Tiled-frame m m' (s + size) ys q (omega arith) u
              (λ a h h'. set_tags-same a (omega arith) (omega arith)),
        )

-- What the accessors read from a block at `p` and from one that ends at `p`.
module _ (m : Memory) (p : ℕ) (b : Block) (v : IsBlock m p b) where
  pub header-size : unpack_size m (p - 4) ≡ b.size
  header-size = unpack_size-tag m (p - 4) b.size b.alloc v.header v.small v.even v.bit

  pub header-alloc : unpack_alloc m (p - 4) ≡ b.alloc
  header-alloc = unpack_alloc-tag m (p - 4) b.size b.alloc v.header v.small v.even v.bit

  pub footer-size : unpack_size m (p + b.size - 8) ≡ b.size
  footer-size = unpack_size-tag m (p + b.size - 8) b.size b.alloc v.footer v.small v.even v.bit

  pub footer-alloc : unpack_alloc m (p + b.size - 8) ≡ b.alloc
  footer-alloc = unpack_alloc-tag m (p + b.size - 8) b.size b.alloc v.footer v.small v.even v.bit

-- The header at the end of the heap: no bytes, and in use.
pub end-size : (m : Memory) (q : ℕ) → m (q - 4) ≡ 1 → unpack_size m (q - 4) ≡ 0
end-size m q h = unpack_size-tag m (q - 4) 0 1 h (omega arith) refl (omega arith)

pub end-alloc : (m : Memory) (q : ℕ) → m (q - 4) ≡ 1 → unpack_alloc m (q - 4) ≡ 1
end-alloc m q h = unpack_alloc-tag m (q - 4) 0 1 h (omega arith) refl (omega arith)
