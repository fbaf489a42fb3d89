-- ===== src/Malloc/Links.antt =====
-- Doubly linked lists of free blocks in memory, as mm_list.c, mm.c and mm_right.c of malloclab-handout have
-- them: the first word of a payload is the address of the previous block, the second that of the next one.
use cmu_ics.Prelude.{
  ℕ, ◌+◌, ◌%◌, ◌≡◌, ◌≢◌, refl, sym, ◌∙◌, List, [], ◌∷◌, ◌++◌, ◌==◌, ==_false, if◌then◌else◌, arith,
}
use mathlib.Core.Path.{subst}
use cmu_ics.Malloc.Memory.{Memory, store}

-- The address of the first block, or NULL.
abbrev pub first_of : List ℕ → ℕ
first_of [] = 0
first_of (p ∷ ps) = p

abbrev pub Absent : ℕ → List ℕ → Type 0
Absent q [] = Unit {0}
Absent q (p ∷ ps) = (q ≢ p) × Absent q ps

abbrev pub Distinct : List ℕ → Type 0
Distinct [] = Unit {0}
Distinct (p ∷ ps) = Absent p ps × Distinct ps

-- The blocks `ps` are linked both ways, with `pre` before the first.
abbrev pub Chain : Memory → ℕ → List ℕ → Type 0
Chain m pre [] = Unit {0}
Chain m pre (p ∷ ps) =
    (p ≢ 0) × (p % 8 ≡ 0) × (m p ≡ pre) × (m (p + 4) ≡ first_of ps) × Chain m p ps

pub Absent-append : (q : ℕ) (xs ys : List ℕ) → Absent q (xs ++ ys) → Absent q xs × Absent q ys
Absent-append q [] ys a = (tt, a)
Absent-append q (x ∷ xs) ys (ne, a) = let (l, r) = Absent-append q xs ys a in ((ne, l), r)

pub append-Absent : (q : ℕ) (xs ys : List ℕ) → Absent q xs → Absent q ys → Absent q (xs ++ ys)
append-Absent q [] ys l r = r
append-Absent q (x ∷ xs) ys (ne, l) r = (ne, append-Absent q xs ys l r)

pub Distinct-without :
    (xs : List ℕ) (p : ℕ) (ys : List ℕ) → Distinct (xs ++ (p ∷ ys)) → Distinct (xs ++ ys)
Distinct-without [] p ys (a, d) = d
Distinct-without (x ∷ xs) p ys (a, d) =
    let (l, r) = Absent-append x xs (p ∷ ys) a in
    (append-Absent x xs ys l r.1, Distinct-without xs p ys d)

-- The links of the blocks `ps` are the same.
abbrev pub Agree : Memory → Memory → List ℕ → Type 0
Agree m m' [] = Unit {0}
Agree m m' (p ∷ ps) = (m' p ≡ m p) × (m' (p + 4) ≡ m (p + 4)) × Agree m m' ps

pub Chain-frame :
    (m m' : Memory) (pre : ℕ) (ps : List ℕ) → Agree m m' ps → Chain m pre ps → Chain m' pre ps
Chain-frame m m' pre [] same c = tt
Chain-frame m m' pre (p ∷ ps) (e, e', same) (pos, even, back, next, c) =
    (pos, even, e ∙ back, e' ∙ next, Chain-frame m m' p ps same c)

-- What `remove_free_blk` does to the neighbours.
abbrev pub link : Memory → ℕ → ℕ → Memory
link m pre next =
    let m' = if next == 0 then m else store next pre m in
    if pre == 0 then m' else store (pre + 4) next m'

pub link-even :
    (m : Memory) (pre next a : ℕ) → pre % 8 ≡ 0 → a % 8 ≡ 0 → a ≢ next → link m pre next a ≡ m a
link-even m pre next a pre_even even ne = ground (arith, pre_even, even, ne)

pub link-odd :
    (m : Memory) (pre next q : ℕ)
    → next % 8 ≡ 0
    → q % 8 ≡ 0
    → q ≢ pre
    → link m pre next (q + 4) ≡ m (q + 4)
link-odd m pre next q next_even even ne = ground (arith, next_even, even, ne)

pub link-Agree :
    (m : Memory) (pre next x : ℕ) (ps : List ℕ)
    → pre % 8 ≡ 0
    → next % 8 ≡ 0
    → Absent pre ps
    → Absent next ps
    → Chain m x ps
    → Agree m (link m pre next) ps
link-Agree m pre next x [] pre_even next_even a a' c = tt
link-Agree m pre next x (p ∷ ps) pre_even next_even (ne, a) (ne', a') (pos, even, back, after, c) =
    (
      link-even m pre next p pre_even even (λ e. ne' (sym e)),
      link-odd m pre next p next_even even (λ e. ne (sym e)),
      link-Agree m pre next p ps pre_even next_even a a' c,
    )

-- The list without the block between `xs` and `ys`, and the words that have not changed.
record Unlinked (m m' : Memory) (pre bp : ℕ) (xs ys : List ℕ) : Type 0 where
  chain : Chain m' pre (xs ++ ys)
  first : pre ≢ 0 → m (pre + 4) ≡ first_of (xs ++ (bp ∷ ys)) → m' (pre + 4) ≡ first_of (xs ++ ys)
  low : (a : ℕ) → a % 8 ≡ 0 → Absent a ys → m' a ≡ m a
  high : (q : ℕ) → q % 8 ≡ 0 → q ≢ pre → Absent q xs → m' (q + 4) ≡ m (q + 4)

unlink_head :
    (m : Memory) (pre bp : ℕ) (ys : List ℕ)
    → pre % 8 ≡ 0
    → Absent pre (bp ∷ ys)
    → Distinct ys
    → Chain m bp ys
    → Unlinked m (link m pre (first_of ys)) pre bp [] ys
unlink_head m pre bp [] even (ne, a) d c = record {
  chain = tt;
  first = λ pos e. ground (arith, pos);
  low = λ b b_even out. ground (arith, b_even, even);
  high = λ q q_even q_ne out. ground (arith, q_even, even, q_ne);
}
unlink_head m pre bp (y ∷ ys) even (ne, (ne', a)) (fresh, d) (pos, y_even, back, next, c) = record {
  chain = (
    pos,
    y_even,
    ground (arith, pos, y_even, even),
    link-odd m pre y y y_even y_even (λ e. ne' (sym e)) ∙ next,
    Chain-frame m (link m pre y) y ys (link-Agree m pre y y ys even y_even a fresh c) c,
  );
  first = λ pre_pos e. ground (arith, pos, pre_pos, even);
  low = λ b b_even out. link-even m pre y b even b_even out.0;
  high = λ q q_even q_ne out. link-odd m pre y q y_even q_even q_ne;
}

unlink_from :
    (m : Memory) (pre bp : ℕ) (xs ys : List ℕ)
    → pre % 8 ≡ 0
    → Absent pre (xs ++ (bp ∷ ys))
    → Distinct (xs ++ (bp ∷ ys))
    → Chain m pre (xs ++ (bp ∷ ys))
    → Unlinked m (link m (m bp) (m (bp + 4))) pre bp xs ys
unlink_from m pre bp [] ys even out d (pos, bp_even, back, next, c) =
    rw (back, next) (unlink_head m pre bp ys even out d.1 c)
unlink_from m pre bp (x ∷ xs) ys even (ne, out) (fresh, d) (pos, x_even, back, next, c) =
    let u = unlink_from m x bp xs ys x_even fresh d c in
    let (out_xs, out_ys) = Absent-append pre xs (bp ∷ ys) out in
    let (fresh_xs, fresh_ys) = Absent-append x xs (bp ∷ ys) fresh in
    record {
      chain = (pos, x_even, u.low x x_even fresh_ys.1 ∙ back, u.first pos next, u.chain);
      first = λ pre_pos e. u.high pre even ne out_xs ∙ e;
      low = λ a a_even a_out. u.low a a_even a_out;
      high = λ q q_even q_ne q_out. u.high q q_even q_out.0 q_out.1;
    }

-- A list that starts at `head`.
pub record IsFreeList (m : Memory) (head : ℕ) (ps : List ℕ) : Type 0 where
  pub starts : head ≡ first_of ps
  pub chain : Chain m 0 ps
  pub distinct : Distinct ps

pub nonzero : (m : Memory) (pre : ℕ) (ps : List ℕ) → Chain m pre ps → Absent 0 ps
nonzero m pre [] c = tt
nonzero m pre (p ∷ ps) (pos, even, back, next, c) = (λ e. pos (sym e), nonzero m p ps c)

behind-nonzero :
    (m : Memory) (pre x bp : ℕ) (xs ys : List ℕ) → Chain m pre (x ∷ (xs ++ (bp ∷ ys))) → m bp ≢ 0
behind-nonzero m pre x bp [] ys (pos, even, back, next, (pos', even', back', next', c)) =
    λ e. pos (sym back' ∙ e)
behind-nonzero m pre x bp (z ∷ xs) ys (pos, even, back, next, c) = behind-nonzero m x z bp xs ys c

-- The new head.
new_head :
    (m : Memory) (head bp : ℕ) (ys xs : List ℕ)
    → Chain m 0 (xs ++ (bp ∷ ys))
    → head ≡ first_of (xs ++ (bp ∷ ys))
    → (if m bp == 0 then m (bp + 4) else head) ≡ first_of (xs ++ ys)
new_head m head bp ys [] (pos, even, back, next, c) e = rw back next
new_head m head bp ys (x ∷ xs) c e = rw (==_false (m bp) 0 (behind-nonzero m 0 x bp xs ys c)) e

-- Unlinking a block from a list leaves the others, in order, and all but their links.
module _ (m : Memory) (head bp : ℕ) (xs ys : List ℕ) (v : IsFreeList m head (xs ++ (bp ∷ ys))) where
  unlinked : Unlinked m (link m (m bp) (m (bp + 4))) 0 bp xs ys
  unlinked =
      unlink_from m 0 bp xs ys refl (nonzero m 0 (xs ++ (bp ∷ ys)) v.chain) v.distinct v.chain

  pub link-IsFreeList :
      IsFreeList (link m (m bp) (m (bp + 4))) (if m bp == 0 then m (bp + 4) else head) (xs ++ ys)
  link-IsFreeList = record {
    starts = new_head m head bp ys xs v.chain v.starts;
    chain = unlinked.chain;
    distinct = Distinct-without xs bp ys v.distinct;
  }

  pub link-low : (a : ℕ) → a % 8 ≡ 0 → Absent a ys → link m (m bp) (m (bp + 4)) a ≡ m a
  link-low = unlinked.low

  pub link-high :
      (q : ℕ) → q % 8 ≡ 0 → q ≢ 0 → Absent q xs → link m (m bp) (m (bp + 4)) (q + 4) ≡ m (q + 4)
  link-high = unlinked.high

-- A block of its own, put in front.
abbrev pub push : Memory → ℕ → ℕ → Memory
push m bp old =
    let m' = store (bp + 4) old (store bp 0 m) in if old == 0 then m' else store old bp m'

pub push-even :
    (m : Memory) (bp old a : ℕ) → bp % 8 ≡ 0 → a % 8 ≡ 0 → a ≢ bp → a ≢ old → push m bp old a ≡ m a
push-even m bp old a bp_even even ne ne' = ground (arith, bp_even, even, ne, ne')

pub push-odd :
    (m : Memory) (bp old q : ℕ)
    → bp % 8 ≡ 0
    → old % 8 ≡ 0
    → q % 8 ≡ 0
    → q ≢ bp
    → push m bp old (q + 4) ≡ m (q + 4)
push-odd m bp old q bp_even old_even even ne = ground (arith, bp_even, old_even, even, ne)

pub push-Agree :
    (m : Memory) (bp old x : ℕ) (ps : List ℕ)
    → bp % 8 ≡ 0
    → old % 8 ≡ 0
    → Absent bp ps
    → Absent old ps
    → Chain m x ps
    → Agree m (push m bp old) ps
push-Agree m bp old x [] bp_even old_even a a' c = tt
push-Agree m bp old x (p ∷ ps) bp_even old_even (ne, a) (ne', a') (pos, even, back, after, c) = (
  push-even m bp old p bp_even even (λ e. ne (sym e)) (λ e. ne' (sym e)),
  push-odd m bp old p bp_even old_even even (λ e. ne (sym e)),
  push-Agree m bp old p ps bp_even old_even a a' c,
)

pub push-IsFreeList :
    (m : Memory) (head bp : ℕ) (ps : List ℕ)
    → IsFreeList m head ps
    → bp ≢ 0
    → bp % 8 ≡ 0
    → Absent bp ps
    → IsFreeList (push m bp head) bp (bp ∷ ps)
push-IsFreeList m head bp ps v pos even out = record {
  starts = refl;
  chain =
      let (back, next, c) = linked ps v.chain v.distinct out in
      subst (λ h. Chain (push m bp h) 0 (bp ∷ ps)) (sym v.starts) (pos, even, back, next, c);
  distinct = (out, v.distinct);
}
  where
    linked :
        (ps : List ℕ)
        → Chain m 0 ps
        → Distinct ps
        → Absent bp ps
        → (push m bp (first_of ps) bp ≡ 0)
          × (push m bp (first_of ps) (bp + 4) ≡ first_of ps)
          × Chain (push m bp (first_of ps)) bp ps
    linked [] c d out = (ground arith, ground arith, tt)
    linked (p ∷ ps) (p_pos, p_even, back, next, c) (fresh, d) (ne, out) = (
      ground (arith, p_pos, ne),
      ground (arith, p_pos, p_even, even),
      (
        p_pos,
        p_even,
        ground (arith, p_pos),
        push-odd m bp p p even p_even p_even (λ e. ne (sym e)) ∙ next,
        Chain-frame m (push m bp p) p ps (push-Agree m bp p p ps even p_even out fresh c) c,
      ),
    )
