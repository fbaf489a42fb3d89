-- ===== src/Malloc/Implicit/Coalesce.antt =====
-- `coalesce` of malloclab-handout/mm_blk.c joins a free block with its free neighbours.
use native.Mathlib.Decide.{ℕ_discrete}
use mathlib.Core.Path.{subst}
use mathlib.Core.List.{append_assoc}
use cmu_ics.Prelude.{
  ℕ, ◌+◌, ◌-◌, ◌%◌, ◌≤◌, ◌<◌, ◌≡◌, ◌≢◌, refl, sym, ◌∙◌, List, [], ◌∷◌, ◌++◌, not, ◌&&◌, ◌==◌,
  ==_false, if◌then◌else◌, arith,
}
use cmu_ics.Word.{word, add}
use cmu_ics.Malloc.Memory.{Memory}
use cmu_ics.Malloc.Tags.{unpack_size, unpack_alloc, get_ftr, pre_blk, set_tags}
use cmu_ics.Malloc.Tiles.{
  Block, block, IsBlock, IsTag, Tiled, Tiled-total, append-Tiled, retile, set_tags-same,
  header-size, header-alloc, footer-size, footer-alloc, end-size, end-alloc,
}
use cmu_ics.Malloc.Implicit.{coalesce}

-- The size of a free block of size `n` with the free block behind it, and what then stands behind it.
abbrev pub join_next : ℕ → List Block → ℕ
join_next n [] = n
join_next n (y ∷ ys) = if y.alloc == 0 then n + y.size else n

abbrev pub behind : List Block → List Block
behind [] = []
behind (y ∷ ys) = if y.alloc == 0 then ys else y ∷ ys

-- The blocks from the previous one on.
abbrev pub joined : Block → ℕ → List Block → List Block
joined pr n ys =
    if pr.alloc == 0
    then block (pr.size + join_next n ys) 0 ∷ behind ys
    else pr ∷ block (join_next n ys) 0 ∷ behind ys

-- Where the block is then.
abbrev pub joined_at : ℕ → Block → ℕ
joined_at o pr = if pr.alloc == 0 then o else o + pr.size

abbrev pub joined_size : Block → ℕ → List Block → ℕ
joined_size pr n ys = if pr.alloc == 0 then pr.size + join_next n ys else join_next n ys

-- What `coalesce` does, by what it reads.
coalesce-reads :
    (m : Memory) (r o size pre_alloc next_alloc next_size pre_size : ℕ)
    → unpack_size m (r - 4) ≡ size
    → pre_blk m r ≡ o
    → unpack_alloc m (get_ftr m o) ≡ pre_alloc
    → unpack_alloc m (r + size - 4) ≡ next_alloc
    → unpack_size m (r + size - 4) ≡ next_size
    → unpack_size m (o - 4) ≡ pre_size
    → coalesce m r ≡ (
        if not (pre_alloc == 0) && not (next_alloc == 0)
        then (r, m)
        else if not (pre_alloc == 0)
        then (r, set_tags m r (add size next_size) 0)
        else if not (next_alloc == 0)
        then (o, set_tags m o (add size pre_size) 0)
        else (o, set_tags m o (add (add size next_size) pre_size) 0))
unfolding coalesce
coalesce-reads m r o size pre_alloc next_alloc next_size pre_size a b c d e f =
    rw (a, b, c, d, e, f) refl

-- The free block `b` at `r` behind the block `pr`, with the blocks `ys` up to the end of the heap at `q`.
pub record Middle (m : Memory) (p : ℕ) (xs : List Block) (o : ℕ) (pr b : Block) (ys : List Block)
    (q : ℕ) : Type 0 where
  pub before : Tiled m p xs o
  pub previous : IsBlock m o pr
  pub here : IsBlock m (o + pr.size) b
  pub after : Tiled m (o + pr.size + b.size) ys q
  pub epilogue : m (q - 4) ≡ 1
  pub low : 8 ≤ p
  pub free : b.alloc ≡ 0
  pub fits : q < word

-- What it is then: the tiles, with the joined block free, and all but its two tags as before.
pub record Joined (m : Memory) (p : ℕ) (xs : List Block) (o : ℕ) (pr b : Block) (ys : List Block)
    (q : ℕ) (r : ℕ × Memory) : Type 0 where
  pub place : r.0 ≡ joined_at o pr
  pub tiles : Tiled r.1 p (xs ++ joined pr b.size ys) q
  pub epilogue : r.1 (q - 4) ≡ 1
  pub same :
      (a : ℕ)
      → a ≢ joined_at o pr - 4
      → a ≢ joined_at o pr + joined_size pr b.size ys - 8
      → r.1 a ≡ m a

module _ (m : Memory) (p : ℕ) (xs : List Block) (o : ℕ) (pr b : Block) (q : ℕ) where
  reads :
      (ys : List Block) (next_alloc next_size : ℕ)
      → Middle m p xs o pr b ys q
      → unpack_alloc m (o + pr.size + b.size - 4) ≡ next_alloc
      → unpack_size m (o + pr.size + b.size - 4) ≡ next_size
      → coalesce m (o + pr.size) ≡ (
          if not (pr.alloc == 0) && not (next_alloc == 0)
          then (o + pr.size, m)
          else if not (pr.alloc == 0)
          then (o + pr.size, set_tags m (o + pr.size) (add b.size next_size) 0)
          else if not (next_alloc == 0)
          then (o, set_tags m o (add b.size pr.size) 0)
          else (o, set_tags m o (add (add b.size next_size) pr.size) 0))
  reads ys next_alloc next_size v e e' =
      let back : pre_blk m (o + pr.size) ≡ o = omega (arith, footer-size m o pr v.previous) in
      let ftr : unpack_alloc m (get_ftr m o) ≡ pr.alloc =
        rw (header-size m o pr v.previous) (footer-alloc m o pr v.previous) in
      coalesce-reads m (o + pr.size) o b.size pr.alloc next_alloc next_size pr.size
        (header-size m (o + pr.size) b v.here) back ftr e e' (header-size m o pr v.previous)

  -- Nothing to join.
  alone :
      (ys : List Block)
      → Middle m p xs o pr b ys q
      → joined_at o pr ≡ o + pr.size
      → joined pr b.size ys ≡ pr ∷ b ∷ ys
      → Joined m p xs o pr b ys q (o + pr.size, m)
  alone ys v e e' = record {
    place = sym e;
    tiles = rw e' (append-Tiled m p o xs (pr ∷ b ∷ ys) q v.before (v.previous, (v.here, v.after)));
    epilogue = v.epilogue;
    same = λ a h h'. refl;
  }

  -- New tags for `n` bytes from `s` on.
  retagged :
      (ys front back : List Block) (s n : ℕ)
      → Middle m p xs o pr b ys q
      → Tiled m p front s
      → Tiled m (s + n) back q
      → n % 8 ≡ 0
      → b.size ≤ n
      → joined_at o pr ≡ s
      → joined_size pr b.size ys ≡ n
      → xs ++ joined pr b.size ys ≡ front ++ (block n 0 ∷ back)
      → Joined m p xs o pr b ys q (s, set_tags m s n 0)
  retagged ys front back s n v t u even big e e' e'' =
      let start = Tiled-total m p front s t in
      let finish = Tiled-total m (s + n) back q u in
      let valid : IsTag n 0 = record {
        roomy = omega (arith, v.here.roomy);
        even = even;
        bit = omega arith;
        small = omega (arith, v.fits);
      } in
      let low : 8 ≤ s = omega (arith, v.low) in
      record {
        place = sym e;
        tiles = rw e'' (retile m s n 0 low valid p front back q v.low t u);
        epilogue =
            set_tags-same m s n 0 low valid (q - 4) (omega (arith, v.here.roomy))
              (omega (arith, v.here.roomy))
            ∙ v.epilogue;
        same = λ a h h'. set_tags-same m s n 0 low valid a (rw e at h) (rw (e, e') at h');
      }

  -- The outcomes of `coalesce`, by whether the neighbours are in use.
  keep :
      (ys : List Block)
      → Middle m p xs o pr b ys q
      → pr.alloc ≢ 0
      → joined pr b.size ys ≡ pr ∷ b ∷ ys
      → coalesce m (o + pr.size) ≡ (o + pr.size, m)
      → Joined m p xs o pr b ys q (coalesce m (o + pr.size))
  keep ys v used e out = rw out (alone ys v (rw (==_false pr.alloc 0 used) refl) e)

  forward :
      (y : Block) (ys : List Block)
      → Middle m p xs o pr b (y ∷ ys) q
      → pr.alloc ≢ 0
      → y.alloc ≡ 0
      → coalesce m (o + pr.size) ≡ (o + pr.size, set_tags m (o + pr.size) (b.size + y.size) 0)
      → Joined m p xs o pr b (y ∷ ys) q (coalesce m (o + pr.size))
  forward y ys v used idle out =
      let no_pr = ==_false pr.alloc 0 used in
      let (next, rest) = v.after in
      rw out (
        retagged (y ∷ ys) (xs ++ (pr ∷ [])) ys (o + pr.size) (b.size + y.size) v
          (append-Tiled m p o xs (pr ∷ []) (o + pr.size) v.before (v.previous, refl))
          (subst (λ t. Tiled m t ys q) (omega arith) rest) (omega (arith, v.here.even, next.even))
          (omega arith) (rw no_pr refl) (rw (no_pr, idle) refl)
          (rw (no_pr, idle) (sym (append_assoc xs (pr ∷ []) (block (b.size + y.size) 0 ∷ ys)))))

  backward :
      (ys back : List Block) (n : ℕ)
      → Middle m p xs o pr b ys q
      → pr.alloc ≡ 0
      → Tiled m (o + n) back q
      → n ≡ pr.size + join_next b.size ys
      → back ≡ behind ys
      → n % 8 ≡ 0
      → b.size ≤ n
      → coalesce m (o + pr.size) ≡ (o, set_tags m o n 0)
      → Joined m p xs o pr b ys q (coalesce m (o + pr.size))
  backward ys back n v idle t e e' even big out = rw out (
      retagged ys xs back o n v v.before t even big (rw idle refl) (rw idle (sym e))
        (rw idle (rw (e, e') refl)))

  pub coalesce-Joined :
      (ys : List Block)
      → Middle m p xs o pr b ys q
      → Joined m p xs o pr b ys q (coalesce m (o + pr.size))
  coalesce-Joined [] v =
      let last = v.after in
      let read =
        reads [] 1 0 v (rw last (end-alloc m q v.epilogue)) (rw last (end-size m q v.epilogue)) in
      elim (ℕ_discrete pr.alloc 0) [
        | yes idle ↦
            let sum : add b.size pr.size ≡ pr.size + b.size = omega (arith, v.fits) in
            backward [] [] (pr.size + b.size) v idle (omega arith) refl refl
              (omega (arith, v.here.even, v.previous.even)) (omega arith)
              (read ∙ rw (idle, sum) refl)
        | no used ↦
            keep [] v used (rw (==_false pr.alloc 0 used) (ground (arith, v.free)))
              (read ∙ rw (==_false pr.alloc 0 used) refl)
      ]
  coalesce-Joined (y ∷ ys) v =
      let (next, rest) = v.after in
      let r = o + pr.size in
      let n = r + b.size in
      let finish = Tiled-total m (n + y.size) ys q rest in
      let read =
        reads (y ∷ ys) y.alloc y.size v (header-alloc m n y next) (header-size m n y next) in
      elim (ℕ_discrete pr.alloc 0) [
        | yes idle ↦ elim (ℕ_discrete y.alloc 0) [
          | yes open_next ↦
              let sum : add (add b.size y.size) pr.size ≡ pr.size + (b.size + y.size) =
                omega (arith, v.fits) in
              backward (y ∷ ys) ys (pr.size + (b.size + y.size)) v idle
                (subst (λ t. Tiled m t ys q) (omega arith) rest) (rw open_next refl)
                (rw open_next refl) (omega (arith, v.here.even, v.previous.even, next.even))
                (omega arith) (read ∙ rw (idle, open_next, sum) refl)
          | no shut ↦
              let sum : add b.size pr.size ≡ pr.size + b.size = omega (arith, v.fits) in
              let no_y = ==_false y.alloc 0 shut in
              backward (y ∷ ys) (y ∷ ys) (pr.size + b.size) v idle
                (subst (λ t. Tiled m t (y ∷ ys) q) (omega arith) (next, rest)) (rw no_y refl)
                (rw no_y refl) (omega (arith, v.here.even, v.previous.even)) (omega arith)
                (read ∙ rw (idle, no_y, sum) refl)
        ]
        | no used ↦ elim (ℕ_discrete y.alloc 0) [
          | yes open_next ↦
              let sum : add b.size y.size ≡ b.size + y.size = omega (arith, v.fits) in
              forward y ys v used open_next
                (read ∙ rw (==_false pr.alloc 0 used, open_next, sum) refl)
          | no shut ↦
              let no_y = ==_false y.alloc 0 shut in
              keep (y ∷ ys) v used (rw (==_false pr.alloc 0 used, no_y) (ground (arith, v.free)))
                (read ∙ rw (==_false pr.alloc 0 used, no_y) refl)
        ]
      ]
