-- ===== src/Proxy/Cache/Table.antt =====
-- The two loops of proxylab-handout/cache.c: the search for a URL and the choice of the oldest entry.
use cmu_ics.Prelude.{
  ℕ, zero, suc, ◌+◌, ◌≤◌, ◌<◌, ◌≡◌, refl, inl, inr, none, some, List, [], ◌∷◌, true, ltb,
  Bool-cases, Option-cases, get_elem?, set, length, arith,
}
use cmu_ics.Proxy.Cache.{Entry, same_text, find_url, oldest}

pub same_text_self : (s : List ℕ) → same_text s s ≡ true
unfolding same_text
same_text_self [] = refl
same_text_self (c ∷ s) = ground (arith, same_text_self s)

pub same_text-eq : (s t : List ℕ) → same_text s t ≡ true → s ≡ t
unfolding same_text
same_text-eq [] [] h = refl
same_text-eq [] (d ∷ t) h = absurd (ground arith)
same_text-eq (c ∷ s) [] h = absurd (ground arith)
same_text-eq (c ∷ s) (d ∷ t) h =
    let here : c ≡ d = ground arith in
    let rest : s ≡ t = same_text-eq s t (ground arith) in rw (here, rest) refl

-- An entry for the URL that stands first is found, whatever stands behind it.
pub find_url-set :
    (n m j : ℕ) (es : List Entry) (uri : List ℕ) (e : Entry)
    → find_url n es uri ≡ none
    → j ≤ n
    → j < m
    → j < length es
    → e.url ≡ uri
    → find_url m (set es j e) uri ≡ some j
unfolding find_url
find_url-set n zero j es uri e absent le lt fits same = absurd (omega arith)
find_url-set n (suc m) j [] uri e absent le lt fits same = absurd (omega arith)
find_url-set n (suc m) zero (x ∷ es) uri e absent le lt fits same =
    ground (arith, same, same_text_self uri)
find_url-set zero (suc m) (suc j) (x ∷ es) uri e absent le lt fits same = absurd (omega arith)
find_url-set (suc n) (suc m) (suc j) (x ∷ es) uri e absent le lt fits same =
    elim (Bool-cases (same_text uri x.url)) [
      | inl here ↦ absurd (ground arith)
      | inr other ↦ elim (Option-cases (find_url n es uri)) [
        | inl none_left ↦
            rw
              (
                other,
                find_url-set n m j es uri e none_left (omega arith) (omega arith) (omega arith)
                    same,
              )
              refl
        | inr found ↦ absurd (ground (arith, found.1))
      ]
    ]

-- No entry was used before `low`.
abbrev pub AllFrom : ℕ → List Entry → Type 0
AllFrom low [] = Unit {0}
AllFrom low (e ∷ es) = (low ≤ e.timestp) × AllFrom low es

pub AllFrom-get_elem? :
    (low : ℕ) (es : List Entry) (k : ℕ) {e : Entry}
    → AllFrom low es
    → get_elem? es k ≡ some e
    → low ≤ e.timestp
AllFrom-get_elem? low [] k a h = absurd (cc)
AllFrom-get_elem? low (x ∷ es) zero a h = ground arith
AllFrom-get_elem? low (x ∷ es) (suc k) a h = AllFrom-get_elem? low es k a.1 h

-- What the loop, from entry `i` on, makes of `index` and `old_time`.
pub data Choice (es : List Entry) (i index old_time r : ℕ) : Type 0 where
  kept : AllFrom old_time es → r ≡ index → Choice es i index old_time r
  older :
      (k : ℕ) (e : Entry)
      → r ≡ i + k
      → get_elem? es k ≡ some e
      → e.timestp < old_time
      → AllFrom e.timestp es
      → Choice es i index old_time r

pub oldest-Choice :
    (es : List Entry) (i index old_time : ℕ)
    → Choice es i index old_time (oldest es i index old_time)
unfolding oldest
oldest-Choice [] i index old_time = kept tt refl
oldest-Choice (x ∷ es) i index old_time = elim (Bool-cases (ltb x.timestp old_time)) [
  | inl lt ↦ rw lt (elim (oldest-Choice es (suc i) i x.timestp) [
    | kept all e ↦ older 0 x (ground arith) refl (ground arith) (omega arith, all)
    | older k e r at less all ↦ older (suc k) e (ground arith) at (ground arith) (omega arith, all)
  ])
  | inr ge ↦ rw ge (elim (oldest-Choice es (suc i) index old_time) [
    | kept all e ↦ kept (ground arith, all) e
    | older k e r at less all ↦ older (suc k) e (ground arith) at less (ground arith, all)
  ])
]
