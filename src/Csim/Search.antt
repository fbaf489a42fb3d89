-- ===== src/Csim/Search.antt =====
-- The two loops of `find_cache` in cachelab-handout/csim.c over the lines of one set, and what each
-- of them finds.
use cmu_ics.Prelude.{
  ℕ, zero, suc, ◌+◌, ◌≤◌, ◌<◌, ◌≡◌, ◌≢◌, refl, inl, inr, Option, none, some, List, [], ◌∷◌, Bool,
  true, not, ◌&&◌, ltb, ◌==◌, if◌then◌else◌, Bool-cases, get_elem?, arith,
}

-- `cache_line_t`; `valid` is 0 or the time of the last use.
pub record Line : Type 0 where
  pub valid : ℕ
  pub tag : ℕ

-- `caches[set_index][i].valid && caches[set_index][i].tag == tag`
abbrev pub holds : Line → ℕ → Bool
holds l tag = not (l.valid == 0) && l.tag == tag

-- The first loop, from index `i` on; `none` is `line_index == -1`.
unfoldable pub find_tag : List Line → ℕ → ℕ → Option ℕ
find_tag [] tag i = none
find_tag (l ∷ ls) tag i = if holds l tag then some i else find_tag ls tag (i + 1)

-- The second loop, with `line_index` and `valid_min`.
unfoldable pub find_victim : List Line → ℕ → Option ℕ → ℕ → Option ℕ
find_victim [] i index low = index
find_victim (l ∷ ls) i index low =
    let rest =
      find_victim ls (i + 1) (if ltb l.valid low then some i else index)
        (if ltb l.valid low then l.valid else low) in
    if l.valid == 0 then some i else rest

-- The tag is in a valid line.
abbrev pub IsResident : List Line → ℕ → Type 0
IsResident ls tag = (i : ℕ) × (l : Line) × (get_elem? ls i ≡ some l) × (l.valid ≢ 0) × (l.tag ≡ tag)

-- What the first loop finds is a valid line with the tag.
pub find_tag-holds :
    (ls : List Line) (tag i j : ℕ)
    → find_tag ls tag i ≡ some j
    → (k : ℕ) × (l : Line) × (j ≡ i + k) × (get_elem? ls k ≡ some l) × (holds l tag ≡ true)
unfolding find_tag
find_tag-holds [] tag i j h = absurd (cc)
find_tag-holds (l ∷ ls) tag i j h = elim (Bool-cases (holds l tag)) [
  | inl here ↦ (0, l, ground arith, refl, here)
  | inr there ↦
      let (k, l', e, at, held) = find_tag-holds ls tag (i + 1) j (rw there at h) in
      (suc k, l', omega arith, at, held)
]

-- If it finds none, no valid line has the tag.
pub find_tag-none :
    (ls : List Line) (tag i : ℕ)
    → find_tag ls tag i ≡ none
    → (k : ℕ) (l : Line) → get_elem? ls k ≡ some l
    → l.valid ≢ 0
    → l.tag ≢ tag
unfolding find_tag
find_tag-none [] tag i h k l at = absurd (cc)
find_tag-none (l₀ ∷ ls) tag i h zero l at = ground arith
find_tag-none (l₀ ∷ ls) tag i h (suc k) l at = find_tag-none ls tag (i + 1) (ground arith) k l at

-- Every line is valid and was last used at `m` or later.
abbrev pub AllFrom : ℕ → List Line → Type 0
AllFrom m [] = Unit {0}
AllFrom m (l ∷ ls) = (m ≤ l.valid) × (l.valid ≢ 0) × AllFrom m ls

pub AllFrom-get_elem? :
    (m : ℕ) (ls : List Line) (k : ℕ) {l : Line}
    → AllFrom m ls
    → get_elem? ls k ≡ some l
    → (m ≤ l.valid) × (l.valid ≢ 0)
AllFrom-get_elem? m [] k a h = absurd (cc)
AllFrom-get_elem? m (x ∷ ls) zero a h = ground arith
AllFrom-get_elem? m (x ∷ ls) (suc k) a h = AllFrom-get_elem? m ls k a.2 h

pub AllFrom-weaken : (m n : ℕ) (ls : List Line) → n ≤ m → AllFrom m ls → AllFrom n ls
AllFrom-weaken m n [] le a = tt
AllFrom-weaken m n (x ∷ ls) le a = (omega arith, a.1, AllFrom-weaken m n ls le a.2)

-- What the second loop, from `index` and `low`, makes of the lines: an unused line; or nothing below
-- `low`; or the least line, if that is below `low`.
pub data Victim (ls : List Line) (i : ℕ) (index : Option ℕ) (low : ℕ) (r : Option ℕ) : Type 0 where
  unused :
      (k : ℕ) (l : Line)
      → r ≡ some (i + k)
      → get_elem? ls k ≡ some l
      → l.valid ≡ 0
      → Victim ls i index low r
  kept : AllFrom low ls → r ≡ index → Victim ls i index low r
  least :
      (k : ℕ) (l : Line)
      → r ≡ some (i + k)
      → get_elem? ls k ≡ some l
      → l.valid < low
      → AllFrom l.valid ls
      → Victim ls i index low r

module _ (x : Line) (ls : List Line) (i : ℕ) (index : Option ℕ) (low : ℕ) (r : Option ℕ) where
  Victim-older :
      low ≤ x.valid → x.valid ≢ 0 → Victim ls (i + 1) index low r → Victim (x ∷ ls) i index low r
  Victim-older le pos (unused k l e at free) = unused (suc k) l (ground arith) at free
  Victim-older le pos (kept all e) = kept (le, pos, all) e
  Victim-older le pos (least k l e at lt all) =
      least (suc k) l (ground arith) at lt (omega arith, pos, all)

  Victim-newer :
      x.valid < low
      → x.valid ≢ 0
      → Victim ls (i + 1) (some i) x.valid r
      → Victim (x ∷ ls) i index low r
  Victim-newer lt pos (unused k l e at free) = unused (suc k) l (ground arith) at free
  Victim-newer lt pos (kept all e) = least 0 x (ground arith) refl lt (omega arith, pos, all)
  Victim-newer lt pos (least k l e at lt' all) =
      least (suc k) l (ground arith) at (omega arith) (omega arith, pos, all)

pub find_victim-Victim :
    (ls : List Line) (i : ℕ) (index : Option ℕ) (low : ℕ)
    → Victim ls i index low (find_victim ls i index low)
unfolding find_victim
find_victim-Victim [] i index low = kept tt refl
find_victim-Victim (x ∷ ls) i index low = elim (Bool-cases (x.valid == 0)) [
  | inl free ↦ unused 0 x (ground arith) refl (ground arith)
  | inr used ↦ elim (Bool-cases (ltb x.valid low)) [
    | inl lt ↦
        rw (used, lt)
          (Victim-newer x ls i index low _ (ground arith) (ground arith)
            (find_victim-Victim ls (i + 1) (some i) x.valid))
    | inr ge ↦
        rw (used, ge)
          (Victim-older x ls i index low _ (ground arith) (ground arith)
            (find_victim-Victim ls (i + 1) index low))
  ]
]
