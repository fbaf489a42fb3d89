-- ===== src/Csim/Stack/Top.antt =====
-- One set of cachelab-handout/csim.c against the stack of its tags.
use native.Mathlib.Decide.{ℕ_discrete}
use cmu_ics.Prelude.{
  ℕ, zero, suc, ◌≤◌, ◌<◌, ◌≡◌, ◌≢◌, refl, sym, ap, ◌∙◌, inl, inr, some, List, [], ◌∷◌, true, false,
  ltb, ◌==◌, ==_true, ==_false, if◌then◌else◌, Bool-cases, get_elem?, take, length, arith,
}
use cmu_ics.Csim.Search.{Line, IsResident, AllFrom, AllFrom-get_elem?, AllFrom-weaken}
use cmu_ics.Prelude.{length-take}
use cmu_ics.Csim.Lru.{SetTracks}
use cmu_ics.Csim.Stack.{
  member, NoRepeats, pigeonhole, IsStack, All-member, Recent-NoRepeats, Recent-nonzero, behind,
  ahead, take-member, NoRepeats-take,
}

-- The tags of the lines in use.
abbrev held : List Line → List ℕ
held [] = []
held (l ∷ ls) = let rest = held ls in if l.valid == 0 then rest else l.tag ∷ rest

length-held : (ls : List Line) → length (held ls) ≤ length ls
length-held [] = omega arith
length-held (l ∷ ls) = ground (arith, length-held ls)

length-held_full : (ls : List Line) → AllFrom 1 ls → length (held ls) ≡ length ls
length-held_full [] a = refl
length-held_full (l ∷ ls) (le, nz, a) =
    rw (==_false l.valid 0 nz) (omega (arith, length-held_full ls a))

length-held_free :
    (ls : List Line) (i : ℕ) (l : Line)
    → get_elem? ls i ≡ some l
    → l.valid ≡ 0
    → length (held ls) < length ls
length-held_free [] i l at free = absurd (cc)
length-held_free (x ∷ ls) zero l at free =
    let same : x.valid ≡ 0 = ground (arith, at, free) in rw same (omega (arith, length-held ls))
length-held_free (x ∷ ls) (suc i) l at free = ground (arith, length-held_free ls i l at free)

held-IsResident : (ls : List Line) (t : ℕ) → member t (held ls) ≡ true → IsResident ls t
held-IsResident [] t e = absurd (cc)
held-IsResident (x ∷ ls) t e = elim (ℕ_discrete x.valid 0) [
  | yes free ↦
      let (k, l, at, nz, tag) = held-IsResident ls t (rw (free, ==_true 0) at e) in
      (suc k, l, at, nz, tag)
  | no nz ↦ elim (ℕ_discrete x.tag t) [
    | yes same ↦ (0, x, refl, nz, same)
    | no other ↦
        let (k, l, at, nz', tag) =
          held-IsResident ls t (rw (==_false x.valid 0 nz, ==_false x.tag t other) at e) in
        (suc k, l, at, nz', tag)
  ]
]

IsResident-held :
    (ls : List Line) (t k : ℕ) (l : Line)
    → get_elem? ls k ≡ some l
    → l.valid ≢ 0
    → l.tag ≡ t
    → member t (held ls) ≡ true
IsResident-held [] t k l at nz tag = absurd (cc)
IsResident-held (x ∷ ls) t zero l at nz tag =
    let same : x ≡ l = ground (arith, at) in
    let in_use : x.valid ≢ 0 = λ z. nz (ap (λ l. l.valid) (sym same) ∙ z) in
    let e : x.tag ≡ t = ap (λ l. l.tag) same ∙ tag in
    rw (==_false x.valid 0 in_use, e, ==_true t) refl
IsResident-held (x ∷ ls) t (suc k) l at nz tag = ground (arith, IsResident-held ls t k l at nz tag)

-- No two lines in use have one tag.
abbrev Apart : List Line → Type 0
Apart ls =
    (j k : ℕ) (l l' : Line)
    → get_elem? ls j ≡ some l
    → get_elem? ls k ≡ some l'
    → l.valid ≢ 0
    → l'.valid ≢ 0
    → l.tag ≡ l'.tag
    → j ≡ k

held-NoRepeats : (ls : List Line) → Apart ls → NoRepeats (held ls)
held-NoRepeats [] d = tt
held-NoRepeats (x ∷ ls) d =
    let rest =
      held-NoRepeats ls
        (λ j k l l' g g' nz nz' e. omega (arith, d (suc j) (suc k) l l' g g' nz nz' e)) in
    elim (ℕ_discrete x.valid 0) [
      | yes free ↦ rw free rest
      | no nz ↦ rw (==_false x.valid 0 nz) (
        elim (Bool-cases (member x.tag (held ls))) [
          | inl twice ↦
              let (k, l, at, nz', e) = held-IsResident ls x.tag twice in
              absurd (omega (arith, d 0 (suc k) x l refl at nz nz' (sym e)))
          | inr once ↦ once
        ],
        rest,
      )
    ]

-- A set of `cap` lines against the stack of its tags.
module _ (cap now : ℕ) (used : ℕ → ℕ) (lines : List Line) (tr : SetTracks cap now used lines)
    (st : List ℕ) (v : IsStack used st) where
  later-IsResident :
      (t u k : ℕ) (l : Line)
      → get_elem? lines k ≡ some l
      → l.valid ≢ 0
      → l.tag ≡ t
      → used t < used u
      → IsResident lines u
  later-IsResident t u k l at nz tag less =
      elim (tr.recent u (λ z. absurd (omega (arith, less, z)))) [
        | inl here ↦ here
        | inr all ↦
            let (le, _) = AllFrom-get_elem? (suc (used u)) lines k all at in
            absurd (omega (arith, le, less, tr.stamped k l at nz, ap used tag))
      ]

  -- What a set holds is the top of the stack.
  pub top-IsResident : (t : ℕ) → member t (take cap st) ≡ true → IsResident lines t
  top-IsResident t top =
      let (xs, short, f) = ahead used cap st t v.ordered top in
      let nz = Recent-nonzero used st t v.ordered (take-member cap st t top) in
      elim (tr.recent t nz) [
        | inl here ↦ here
        | inr all ↦ absurd (
            omega (
              arith,
              short,
              tr.size,
              length-held_full lines (AllFrom-weaken (suc (used t)) 1 lines (omega arith) all),
              pigeonhole (held lines) xs (held-NoRepeats lines tr.distinct) (λ u e.
                  let (k, l, at, in_use, tag) = held-IsResident lines u e in
                  let stamp : used u ≡ l.valid =
                    ap used (sym tag) ∙ sym (tr.stamped k l at in_use) in
                  let (le, _) = AllFrom-get_elem? (suc (used t)) lines k all at in
                  f u (v.complete u (λ z. in_use (sym stamp ∙ z))) (omega (arith, le, stamp))),
            ))
      ]

  pub IsResident-top : (t : ℕ) → IsResident lines t → member t (take cap st) ≡ true
  IsResident-top t (k, l, at, nz, tag) = elim (Bool-cases (member t (take cap st))) [
    | inl top ↦ top
    | inr out ↦
        let stamp : used t ≡ l.valid = ap used (sym tag) ∙ sym (tr.stamped k l at nz) in
        let (a, full) =
          behind used cap st t v.ordered (v.complete t (λ z. nz (sym stamp ∙ z))) out in
        absurd (
          omega (
            arith,
            full,
            tr.size,
            length-held lines,
            pigeonhole (t ∷ take cap st) (held lines)
                (out, NoRepeats-take cap st (Recent-NoRepeats used st v.ordered))
                (λ u e. elim (ℕ_discrete t u) [
                  | yes same ↦ IsResident-held lines u k l at nz (tag ∙ same)
                  | no other ↦
                      let less =
                        All-member (λ u. used t < used u) (take cap st) u a
                          (rw (==_false t u other) at e) in
                      let (k', l', at', nz', tag') = later-IsResident t u k l at nz tag less in
                      IsResident-held lines u k' l' at' nz' tag'
                ]),
          ))
  ]

  -- All lines are in use when the stack is as long as the set.
  pub full-length : AllFrom 1 lines → cap ≤ length st
  full-length all = omega (
    arith,
    tr.size,
    length-held_full lines all,
    pigeonhole (held lines) st (held-NoRepeats lines tr.distinct) (λ u e.
        let (k, l, at, nz, tag) = held-IsResident lines u e in
        v.complete u (λ z. nz (tr.stamped k l at nz ∙ ap used tag ∙ z))),
  )

  pub free-length : (i : ℕ) (l : Line) → get_elem? lines i ≡ some l → l.valid ≡ 0 → length st < cap
  free-length i l at free = elim (Bool-cases (ltb (length st) cap)) [
    | inl less ↦ ground (arith, less)
    | inr full ↦ absurd (
        omega (
          arith,
          length-held_free lines i l at free,
          tr.size,
          length-take cap st,
          not_less full,
          pigeonhole (take cap st) (held lines)
              (NoRepeats-take cap st (Recent-NoRepeats used st v.ordered))
              (λ u e.
                let (k', l', at', nz', tag') = top-IsResident u e in
                IsResident-held lines u k' l' at' nz' tag'),
        ))
  ]
    where
      not_less : ltb (length st) cap ≡ false → cap ≤ length st
      not_less e = ground (arith, e)
