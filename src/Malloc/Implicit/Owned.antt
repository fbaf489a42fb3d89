-- ===== src/Malloc/Implicit/Owned.antt =====
-- The payloads that a client of malloclab-handout/mm_blk.c has asked for, in any order.
use mathlib.Core.Path.{subst}
use cmu_ics.Prelude.{
  ℕ, ◌+◌, ◌%◌, ◌≤◌, ◌<◌, ◌≡◌, ◌≢◌, refl, ap, ◌⊎◌, List, [], ◌∷◌, ◌++◌, map, All, All-at, arith,
}
use cmu_ics.Word.{half}
use cmu_ics.Malloc.Memory.{Memory, Heap}
use cmu_ics.Malloc.Bytes.{get_byte, same_bytes}
use cmu_ics.Malloc.Tiles.{Block}
use cmu_ics.Malloc.Extents.{Extents, extents, Kept, Apart, Apart-at}
use cmu_ics.Malloc.Links.{Distinct}
use cmu_ics.Malloc.Implicit.Merge.{Guarded}
use cmu_ics.Malloc.Implicit.Free.{IsHeap}
use cmu_ics.Malloc.Implicit.Payload.{IsHeap-Apart, Kept-at}

-- Where an extent stands in a list.
abbrev pub In : ℕ × ℕ → Extents → Type 0
In e es = (xs : Extents) × (ys : Extents) × (es ≡ xs ++ (e ∷ ys))

pub In-All : (P : ℕ × ℕ → Type 0) (e : ℕ × ℕ) (es : Extents) → In e es → All P es → P e
In-All P e es (xs, ys, parts) a = All-at P xs e ys (subst (All P) parts a)

In-cons : (e x : ℕ × ℕ) (es : Extents) → In e es → In e (x ∷ es)
In-cons e x es (xs, ys, parts) = (x ∷ xs, ys, ap (λ t. x ∷ t) parts)

pub In-insert : (e x : ℕ × ℕ) (xs ys : Extents) → In e (xs ++ ys) → In e (xs ++ (x ∷ ys))
In-insert e x [] ys i = In-cons e x ys i
In-insert e x (z ∷ xs) ys ([], back, parts) =
    let here : z ≡ e = ground (arith, parts) in
    ([], xs ++ (x ∷ ys), ap (λ t. t ∷ (xs ++ (x ∷ ys))) here)
In-insert e x (z ∷ xs) ys (f ∷ front, back, parts) =
    In-cons e z (xs ++ (x ∷ ys)) (In-insert e x xs ys (front, back, ground (arith, parts)))

pub In-drop : (e x : ℕ × ℕ) (xs ys : Extents) → In e (xs ++ (x ∷ ys)) → e.0 ≢ x.0 → In e (xs ++ ys)
In-drop e x [] ys ([], back, parts) ne = absurd (ne (ground (arith, parts)))
In-drop e x [] ys (f ∷ front, back, parts) ne = (front, back, ground (arith, parts))
In-drop e x (z ∷ xs) ys ([], back, parts) ne =
    let here : z ≡ e = ground (arith, parts) in ([], xs ++ ys, ap (λ t. t ∷ (xs ++ ys)) here)
In-drop e x (z ∷ xs) ys (f ∷ front, back, parts) ne =
    In-cons e z (xs ++ ys) (In-drop e x xs ys (front, back, ground (arith, parts)) ne)

-- A block in use, other than the prologue, has room for the payload.
pub record Held (start : ℕ) (es : Extents) (p n : ℕ) : Type 0 where
  pub room : ℕ
  pub extent : In (p, room) es
  pub other : p ≢ start
  pub fits : n + 8 ≤ room
  pub some_bytes : 0 < n

pub record Owns (h : Heap) (start : ℕ) (bs : List (ℕ × ℕ)) : Type 0 where
  pub blocks : List Block
  pub ordered : IsHeap h start blocks
  pub held : All (λ b. Held start (extents start blocks) b.0 b.1) bs
  pub distinct : Distinct (map (λ b. b.0) bs)
  pub low : h.mem_start_brk ≤ start
  pub bounded : h.mem_max_addr < h.mem_start_brk + half

-- The prologue is the first extent.
pub extents-prologue :
    (start : ℕ) (bs : List Block)
    → Guarded bs
    → (es : Extents) × (extents start bs ≡ (start, 8) ∷ es)
unfolding extents
extents-prologue start bs (rest, e) = (extents (start + 8) rest, rw e refl)

-- What stands around an extent is apart from it.
pub around :
    (h : Heap) (start : ℕ) (bs : List Block) (xs : Extents) (p n : ℕ) (ys : Extents)
    → IsHeap h start bs
    → extents start bs ≡ xs ++ ((p, n) ∷ ys)
    → (start ≤ p)
      × (p % 8 ≡ 0)
      × (p + n ≤ h.mem_brk)
      × All (λ e. (p + n ≤ e.0) ⊎ (e.0 + e.1 ≤ p)) (xs ++ ys)
around h start bs xs p n ys v e =
    Apart-at start xs p n ys h.mem_brk
      (subst (λ es. Apart start es h.mem_brk) e (IsHeap-Apart h start bs v))

-- Payloads that are kept have the same bytes.
pub Kept-bytes :
    (m m' : Memory) (es : Extents) (p k n : ℕ)
    → Kept m m' es
    → In (p, k) es
    → p % 8 ≡ 0
    → n + 8 ≤ k
    → (j : ℕ) → j < n
    → get_byte m' (p + j) ≡ get_byte m (p + j)
Kept-bytes m m' es p k n kept (xs, ys, parts) even fits =
    let kept_p = Kept-at m m' xs ys p k (subst (Kept m m') parts kept) in
    same_bytes m m' p p n (omega (arith, even)) (omega (arith, even))
      (λ i less i_even. kept_p (p + i) (omega arith) (omega (arith, less, fits)))
