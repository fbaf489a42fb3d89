-- ===== src/Csim/Lru.antt =====
-- One set of cachelab-handout/csim.c against the history of its uses: `used t` is the time of the
-- last use of the tag `t`, 0 if there is none.
use cmu_ics.Prelude.{
  ℕ, suc, ◌≤◌, ◌<◌, ◌≡◌, ◌≢◌, refl, ◌⊎◌, inl, inr, some, List, [], ◌∷◌, ◌∙◌, sym, ==_false, ◌==◌,
  if◌then◌else◌, get_elem?, set, arith, length, length-set, get_elem?-lt, get_elem?-set_cases,
  get_elem?-set_self, get_elem?-set_ne,
}
use native.Mathlib.Decide.{ℕ_discrete}
use cmu_ics.Csim.Search.{Line, IsResident, AllFrom, AllFrom-get_elem?}

-- The lines hold the most recently used tags: each valid line is stamped with the last use of its
-- tag, and a tag that was used and is not held was used before all that are held.
pub record SetTracks (cap now : ℕ) (used : ℕ → ℕ) (lines : List Line) : Type 0 where
  pub size : length lines ≡ cap
  pub stamped : (k : ℕ) (l : Line) → get_elem? lines k ≡ some l → l.valid ≢ 0 → l.valid ≡ used l.tag
  pub distinct :
      (j k : ℕ) (l l' : Line)
      → get_elem? lines j ≡ some l
      → get_elem? lines k ≡ some l'
      → l.valid ≢ 0
      → l'.valid ≢ 0
      → l.tag ≡ l'.tag
      → j ≡ k
  pub recent : (t : ℕ) → used t ≢ 0 → IsResident lines t ⊎ AllFrom (suc (used t)) lines
  pub past : (t : ℕ) → used t < now
  pub apart : (t u : ℕ) → used t ≢ 0 → used t ≡ used u → t ≡ u

abbrev pub touch : (ℕ → ℕ) → ℕ → ℕ → ℕ → ℕ
touch used tag now t = if t == tag then now else used t

AllFrom-intro :
    (m : ℕ) (ls : List Line)
    → ((k : ℕ) (l : Line) → get_elem? ls k ≡ some l → (m ≤ l.valid) × (l.valid ≢ 0))
    → AllFrom m ls
AllFrom-intro m [] h = tt
AllFrom-intro m (x ∷ ls) h = ((h 0 x refl).0, (h 0 x refl).1, AllFrom-intro m ls (λ k. h (suc k)))

module _ (cap now : ℕ) (used : ℕ → ℕ) (lines : List Line) (tr : SetTracks cap now used lines)
    (tag i : ℕ) (l v : Line) (at : get_elem? lines i ≡ some l) (stamp : v.valid ≡ now)
    (tagged : v.tag ≡ tag) (pos : now ≢ 0) where
  -- The line that was overwritten held the tag, was unused, or was the least recently used.
  abbrev pub Overwritten : Type 0
  Overwritten =
      ((l.valid ≢ 0) × (l.tag ≡ tag))
      ⊎ (((k : ℕ) (x : Line) → get_elem? lines k ≡ some x → x.valid ≢ 0 → x.tag ≢ tag)
          × ((l.valid ≡ 0) ⊎ AllFrom l.valid lines))

  stamped-set :
      (k : ℕ) (x : Line)
      → get_elem? (set lines i v) k ≡ some x
      → x.valid ≢ 0
      → Overwritten
      → x.valid ≡ touch used tag now x.tag
  stamped-set k x h nz (inl (lv, lt)) = elim (get_elem?-set_cases lines i k v h) [
    | inl (e, f) ↦ ground (arith, stamp, tagged)
    | inr (ne, g) ↦ ground (arith, tr.stamped k x g, tr.distinct i k l x at g)
  ]
  stamped-set k x h nz (inr (new, _)) = elim (get_elem?-set_cases lines i k v h) [
    | inl (e, f) ↦ ground (arith, stamp, tagged)
    | inr (ne, g) ↦ ground (arith, tr.stamped k x g, new k x g)
  ]

  -- No other valid line has the tag.
  no_other :
      (k : ℕ) (x : Line)
      → get_elem? lines k ≡ some x
      → x.valid ≢ 0
      → i ≢ k
      → x.tag ≡ tag
      → ¬ Overwritten
  no_other k x g nz ne e (inl (lv, lt)) = ne (tr.distinct i k l x at g lv nz (lt ∙ sym e))
  no_other k x g nz ne e (inr (new, _)) = new k x g nz e

  distinct-set :
      (j k : ℕ) (x x' : Line)
      → get_elem? (set lines i v) j ≡ some x
      → get_elem? (set lines i v) k ≡ some x'
      → x.valid ≢ 0
      → x'.valid ≢ 0
      → x.tag ≡ x'.tag
      → Overwritten
      → j ≡ k
  distinct-set j k x x' h h' nz nz' e o = elim (get_elem?-set_cases lines i j v h) [
    | inl (ej, fj) ↦ elim (get_elem?-set_cases lines i k v h') [
      | inl (ek, fk) ↦ omega arith
      | inr (nk, gk) ↦ absurd (no_other k x' gk nz' nk (ground (arith, tagged)) o)
    ]
    | inr (nj, gj) ↦ elim (get_elem?-set_cases lines i k v h') [
      | inl (ek, fk) ↦ absurd (no_other j x gj nz nj (ground (arith, tagged)) o)
      | inr (nk, gk) ↦ tr.distinct j k x x' gj gk nz nz' e
    ]
  ]

  -- The stamp `m` is below what every line but the one overwritten bears.
  AllFrom-set :
      (m : ℕ)
      → m ≤ now
      → ((k : ℕ) (x : Line) → i ≢ k → get_elem? lines k ≡ some x → (m ≤ x.valid) × (x.valid ≢ 0))
      → AllFrom m (set lines i v)
  AllFrom-set m le h = AllFrom-intro m (set lines i v) each
    where
      each :
          (k : ℕ) (x : Line) → get_elem? (set lines i v) k ≡ some x → (m ≤ x.valid) × (x.valid ≢ 0)
      each k x g = elim (get_elem?-set_cases lines i k v g) [
        | inl (e, f) ↦ ground (arith, stamp, pos)
        | inr (ne, g') ↦ h k x ne g'
      ]

  -- Every other line was used after the tag that is evicted.
  evicted :
      (k : ℕ) (x : Line)
      → l.valid ≢ 0
      → AllFrom l.valid lines
      → i ≢ k
      → get_elem? lines k ≡ some x
      → (suc (used l.tag) ≤ x.valid) × (x.valid ≢ 0)
  evicted k x nz all ne g =
      let (le, nx) = AllFrom-get_elem? l.valid lines k all g in
      elim (ℕ_discrete l.valid x.valid) [
        | no apart ↦ (omega (arith, tr.stamped i l at nz), nx)
        | yes e ↦ absurd (
            ne (
              tr.distinct i k l x at g nz nx (
                tr.apart l.tag x.tag (ground (arith, tr.stamped i l at nz))
                  (ground (arith, tr.stamped i l at nz, tr.stamped k x g nx)))))
      ]

  recent-set_replaced :
      (x : Line)
      → x.tag ≢ tag
      → get_elem? lines i ≡ some x
      → x.valid ≢ 0
      → Overwritten
      → AllFrom (suc (used x.tag)) (set lines i v)
  recent-set_replaced x ne h nz (inl (lv, lt)) = absurd (ne (ground arith))
  recent-set_replaced x ne h nz (inr (new, inl free)) = absurd (nz (ground arith))
  recent-set_replaced x ne h nz (inr (new, inr all)) =
      let e : l ≡ x = cc in
      AllFrom-set (suc (used x.tag)) (tr.past x.tag)
        (λ k y nk g. ground (arith, evicted k y (ground arith) all nk g))

  recent-set :
      (t : ℕ)
      → touch used tag now t ≢ 0
      → Overwritten
      → IsResident (set lines i v) t ⊎ AllFrom (suc (touch used tag now t)) (set lines i v)
  recent-set t h o = elim (ℕ_discrete t tag) [
    | yes e ↦ inl (
      i,
      v,
      get_elem?-set_self lines i v (get_elem?-lt lines i at),
      ground (arith, stamp),
      ground (arith, tagged),
    )
    | no ne ↦ rw (==_false t tag ne) (old ne)
  ]
    where
      old : t ≢ tag → IsResident (set lines i v) t ⊎ AllFrom (suc (used t)) (set lines i v)
      old ne = elim (tr.recent t (ground arith)) [
        | inl (k, x, g, nz, e) ↦ elim (ℕ_discrete i k) [
          | yes same ↦ inr (rw e at (recent-set_replaced x (ground arith) (rw same g) nz o))
          | no apart ↦ inl (k, x, get_elem?-set_ne lines v apart ∙ g, nz, e)
        ]
        | inr all ↦
            inr (
              AllFrom-set (suc (used t)) (tr.past t)
                (λ k x ne g. AllFrom-get_elem? _ lines k all g))
      ]

  -- The set after a use of the tag.
  pub SetTracks-set : Overwritten → SetTracks cap (suc now) (touch used tag now) (set lines i v)
  SetTracks-set o = record {
    size = length-set lines i v ∙ tr.size;
    stamped = λ k x g nz. stamped-set k x g nz o;
    distinct = λ j k x x' g g' nz nz' e. distinct-set j k x x' g g' nz nz' e o;
    recent = λ t nz. recent-set t nz o;
    past = λ t. ground (arith, tr.past t);
    apart = λ t u nz e. ground (arith, tr.apart t u, tr.past t, tr.past u);
  }
