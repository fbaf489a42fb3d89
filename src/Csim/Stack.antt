-- ===== src/Csim/Stack.antt =====
-- Lists of tags by the time of their last use, the latest first, and what they say of a set of cachelab-handout/csim.c.
pub mod Top
use mathlib.Core.Path.{subst}
use native.Mathlib.Decide.{ℕ_discrete}
use cmu_ics.Prelude.{
  ℕ, zero, suc, ◌≤◌, ◌<◌, ◌≡◌, ◌≢◌, refl, sym, ap, ◌∙◌, inl, inr, List, [], ◌∷◌, Bool, true, false,
  ◌||◌, ◌==◌, ==_true, ==_false, if◌then◌else◌, Bool-cases, take, length, All, All-map, All-both,
  arith,
}
use cmu_ics.Csim.Search.{Line, IsResident, AllFrom, AllFrom-get_elem?, AllFrom-weaken}
use cmu_ics.Prelude.{length-take}
use cmu_ics.Csim.Lru.{SetTracks, touch}

abbrev pub member : ℕ → List ℕ → Bool
member t [] = false
member t (x ∷ xs) = x == t || member t xs

abbrev pub without : ℕ → List ℕ → List ℕ
without t [] = []
without t (x ∷ xs) = let rest = without t xs in if x == t then rest else x ∷ rest

abbrev pub NoRepeats : List ℕ → Type 0
NoRepeats [] = Unit {0}
NoRepeats (x ∷ xs) = (member x xs ≡ false) × NoRepeats xs

member-without : (x t : ℕ) (xs : List ℕ) → t ≢ x → member t (without x xs) ≡ member t xs
member-without x t [] ne = refl
member-without x t (y ∷ xs) ne = elim (ℕ_discrete y x) [
  | yes same ↦ rw (same, ==_true x, ==_false x t (λ e. ne (sym e))) (member-without x t xs ne)
  | no other ↦ rw (==_false y x other) (ap (λ b. y == t || b) (member-without x t xs ne))
]

length-without : (x : ℕ) (xs : List ℕ) → length (without x xs) ≤ length xs
length-without x [] = omega arith
length-without x (y ∷ xs) = ground (arith, length-without x xs)

length-without_member :
    (x : ℕ) (xs : List ℕ) → member x xs ≡ true → length (without x xs) < length xs
length-without_member x [] e = absurd (cc)
length-without_member x (y ∷ xs) e = elim (ℕ_discrete y x) [
  | yes same ↦ rw (same, ==_true x) (omega (arith, length-without x xs))
  | no other ↦
      rw (==_false y x other)
        (omega (arith, length-without_member x xs (rw (==_false y x other) at e)))
]

-- Different tags in a list are not more than it has.
pub pigeonhole :
    (xs ys : List ℕ)
    → NoRepeats xs
    → ((t : ℕ) → member t xs ≡ true → member t ys ≡ true)
    → length xs ≤ length ys
pigeonhole [] ys d f = omega arith
pigeonhole (x ∷ xs) ys (new, d) f =
    let here = f x (rw (==_true x) refl) in
    let fewer = length-without_member x ys here in
    omega (
      arith,
      fewer,
      pigeonhole xs (without x ys) d (λ t at.
          let ne : t ≢ x = λ e. absurd (cc (sym new ∙ ap (λ u. member u xs) (sym e) ∙ at)) in
          member-without x t ys ne ∙ f t (ground (arith, at))),
    )

-- Latest first, and only tags that were used.
abbrev pub Recent : (ℕ → ℕ) → List ℕ → Type 0
Recent used [] = Unit {0}
Recent used (t ∷ ts) = (used t ≢ 0) × All (λ u. used u < used t) ts × Recent used ts

pub record IsStack (used : ℕ → ℕ) (st : List ℕ) : Type 0 where
  pub ordered : Recent used st
  pub complete : (t : ℕ) → used t ≢ 0 → member t st ≡ true

pub All-member : (P : ℕ → Type 0) (xs : List ℕ) (t : ℕ) → All P xs → member t xs ≡ true → P t
All-member P [] t a e = absurd (cc)
All-member P (x ∷ xs) t (here, a) e = elim (ℕ_discrete x t) [
  | yes same ↦ subst P same here
  | no other ↦ All-member P xs t a (rw (==_false x t other) at e)
]

member-All : (P : ℕ → Type 0) (xs : List ℕ) → ((t : ℕ) → member t xs ≡ true → P t) → All P xs
member-All P [] f = tt
member-All P (x ∷ xs) f =
    (f x (rw (==_true x) refl), member-All P xs (λ t e. f t (ground (arith, e))))

pub Recent-NoRepeats : (used : ℕ → ℕ) (st : List ℕ) → Recent used st → NoRepeats st
Recent-NoRepeats used [] r = tt
Recent-NoRepeats used (t ∷ ts) (nz, later, r) = elim (Bool-cases (member t ts)) [
  | inl twice ↦ absurd (omega (arith, All-member (λ u. used u < used t) ts t later twice))
  | inr once ↦ (once, Recent-NoRepeats used ts r)
]

pub Recent-nonzero :
    (used : ℕ → ℕ) (st : List ℕ) (t : ℕ) → Recent used st → member t st ≡ true → used t ≢ 0
Recent-nonzero used [] t r e = absurd (cc)
Recent-nonzero used (x ∷ st) t (nz, later, r) e = elim (ℕ_discrete x t) [
  | yes same ↦ subst (λ u. used u ≢ 0) same nz
  | no other ↦ Recent-nonzero used st t r (rw (==_false x t other) at e)
]

All-without_lem : (P : ℕ → Type 0) (t : ℕ) (xs : List ℕ) → All P xs → All P (without t xs)
All-without_lem P t [] a = tt
All-without_lem P t (x ∷ xs) (here, a) = elim (ℕ_discrete x t) [
  | yes same ↦ rw (same, ==_true t) (All-without_lem P t xs a)
  | no other ↦ rw (==_false x t other) (here, All-without_lem P t xs a)
]

-- The other tags are as recent as before.
Recent-touch :
    (used : ℕ → ℕ) (tag now : ℕ) (st : List ℕ)
    → Recent used st
    → Recent (touch used tag now) (without tag st)
      × All (λ u. touch used tag now u ≡ used u) (without tag st)
Recent-touch used tag now [] r = (tt, tt)
Recent-touch used tag now (x ∷ st) (nz, later, r) =
    let (r', same) = Recent-touch used tag now st r in
    elim (ℕ_discrete x tag) [
      | yes e ↦ rw (e, ==_true tag) (r', same)
      | no ne ↦
          let here : touch used tag now x ≡ used x = rw (==_false x tag ne) refl in
          rw (==_false x tag ne) (
            (
              (λ z. nz (sym here ∙ z)),
              All-both (λ u. used u < used x) (λ u. touch used tag now u ≡ used u)
                  (λ u. touch used tag now u < touch used tag now x) (without tag st)
                  (λ u less e. omega (arith, less, e, here))
                  (All-without_lem (λ u. used u < used x) tag st later) same,
              r',
            ),
            (here, same),
          )
    ]

-- A use of a tag, at a later time than all before.
pub IsStack-touch :
    (used : ℕ → ℕ) (tag now : ℕ) (st : List ℕ)
    → IsStack used st
    → ((t : ℕ) → used t < now)
    → IsStack (touch used tag now) (tag ∷ without tag st)
IsStack-touch used tag now st v past =
    let (r, same) = Recent-touch used tag now st v.ordered in
    let here : touch used tag now tag ≡ now = rw (==_true tag) refl in
    record {
      ordered = (
        (λ z. absurd (omega (arith, past tag, here, z))),
        All-map (λ u. touch used tag now u ≡ used u)
            (λ u. touch used tag now u < touch used tag now tag) (without tag st)
            (λ u e. omega (arith, e, here, past u)) same,
        r,
      );
      complete = λ t nz. elim (ℕ_discrete tag t) [
        | yes e ↦ rw (e, ==_true t) refl
        | no ne ↦
            let old : touch used tag now t ≡ used t = rw (==_false t tag (λ e. ne (sym e))) refl in
            rw (==_false tag t ne)
              (member-without tag t st (λ e. ne (sym e)) ∙ v.complete t (λ z. nz (old ∙ z)))
      ];
    }

-- What is not among the first tags comes behind all of these.
pub behind :
    (used : ℕ → ℕ) (n : ℕ) (st : List ℕ) (t : ℕ)
    → Recent used st
    → member t st ≡ true
    → member t (take n st) ≡ false
    → All (λ u. used t < used u) (take n st) × (length (take n st) ≡ n)
behind used zero st t r e out = (tt, refl)
behind used (suc n) [] t r e out = absurd (cc)
behind used (suc n) (x ∷ st) t (nz, later, r) e out = elim (ℕ_discrete x t) [
  | yes same ↦ absurd (cc (sym (rw (same, ==_true t) at out)))
  | no other ↦
      let below = rw (==_false x t other) at e in
      let (a, full) = behind used n st t r below (rw (==_false x t other) at out) in
      ((All-member (λ u. used u < used x) st t later below, a), omega (arith, full))
]

-- The tags used after one of the first.
pub ahead :
    (used : ℕ → ℕ) (n : ℕ) (st : List ℕ) (t : ℕ)
    → Recent used st
    → member t (take n st) ≡ true
    → (xs : List ℕ) × (length xs < n)
      × ((u : ℕ) → member u st ≡ true → used t < used u → member u xs ≡ true)
ahead used zero st t r e = absurd (cc)
ahead used (suc n) [] t r e = absurd (cc)
ahead used (suc n) (x ∷ st) t (nz, later, r) e = elim (ℕ_discrete x t) [
  | yes same ↦ (
    [],
    omega arith,
    λ u at less. elim (ℕ_discrete x u) [
      | yes e' ↦ absurd (omega (arith, less, ap used (sym same ∙ e')))
      | no other ↦ absurd (
          omega (
            arith,
            less,
            ap used same,
            All-member (λ u. used u < used x) st u later (rw (==_false x u other) at at),
          ))
    ],
  )
  | no other ↦
      let (xs, short, f) = ahead used n st t r (rw (==_false x t other) at e) in
      (
        x ∷ xs,
        omega (arith, short),
        λ u at less. elim (ℕ_discrete x u) [
          | yes same ↦ subst (λ y. (y == u || member u xs) ≡ true) (sym same) (rw (==_true u) refl)
          | no ne ↦ rw (==_false x u ne) (f u (rw (==_false x u ne) at at) less)
        ],
      )
]

pub take-member : (n : ℕ) (st : List ℕ) (t : ℕ) → member t (take n st) ≡ true → member t st ≡ true
take-member zero st t e = absurd (cc)
take-member (suc n) [] t e = absurd (cc)
take-member (suc n) (x ∷ st) t e = elim (ℕ_discrete x t) [
  | yes same ↦ rw (same, ==_true t) refl
  | no other ↦ rw (==_false x t other) (take-member n st t (rw (==_false x t other) at e))
]

pub NoRepeats-take : (n : ℕ) (st : List ℕ) → NoRepeats st → NoRepeats (take n st)
NoRepeats-take zero st d = tt
NoRepeats-take (suc n) [] d = tt
NoRepeats-take (suc n) (x ∷ st) (new, d) = (
  elim (Bool-cases (member x (take n st))) [
    | inl twice ↦ absurd (cc (sym new ∙ take-member n st x twice))
    | inr once ↦ once
  ],
  NoRepeats-take n st d,
)
