-- ===== src/Proxy/Cache/Answers.antt =====
-- What proxylab-handout/cache.c keeps and what it hands out.
use cmu_ics.Prelude.{
  ℕ, ◌+◌, ◌-◌, ◌^◌, ◌≤◌, ◌<◌, ◌≡◌, refl, ap, ◌∙◌, inl, inr, none, some, List, [], ◌∷◌, ◌++◌, ltb,
  if◌then◌else◌, Bool-cases, get_elem?, set, take, drop, get_elem?-set_cases, get_elem?-set_self,
  get_elem?-lt, get_elem?-some, length, length-set, arith,
}
use cmu_ics.Proxy.Cache.{
  Entry, Cache, copy_over, max_object_size, max_cache_size, uri_len, find_url, store, oldest,
  cache_src, cache_add,
}
use cmu_ics.Proxy.Cache.Table.{AllFrom, AllFrom-get_elem?, kept, older, oldest-Choice, find_url-set}

pub record IsCache (c : Cache) : Type 0 where
  pub slots : length c.caches ≡ max_cache_size
  pub used : c.cache_size ≤ max_cache_size
  pub past :
      (i : ℕ) (e : Entry) → i < c.cache_size → get_elem? c.caches i ≡ some e → e.timestp < c.timestp

-- What fits the arrays and the counter.
abbrev pub Fits : Cache → List ℕ → List ℕ → Type 0
Fits c url answer =
    (length url < uri_len) × (length answer ≤ max_object_size) × (c.timestp < 2 ^ 31 - 1)

-- The entry that `cache_add` makes of `e`.
abbrev pub written : Cache → List ℕ → List ℕ → Entry → Entry
written c url answer e = record {
  url = url;
  size = length answer;
  timestp = c.timestp;
  content = copy_over answer e.content;
}

store-written :
    (c : Cache) (i : ℕ) (url answer : List ℕ) (e : Entry)
    → Fits c url answer
    → get_elem? c.caches i ≡ some e
    → store c i url answer
      ≡ some
          (record c { caches = set c.caches i (written c url answer e); timestp = c.timestp + 1 })
unfolding store
store-written c i url answer e fits at = rw (store, at) (ground arith)

-- The place that `cache_add` writes to: the next one, or the oldest when none is left.
place_of : Cache → ℕ
place_of c = if ltb c.cache_size max_cache_size then c.cache_size else oldest c.caches 0 0 c.timestp

after_add : Cache → List ℕ → List ℕ → Entry → Cache
after_add c url answer e = record {
  caches = set c.caches (place_of c) (written c url answer e);
  timestp = c.timestp + 1;
  cache_size = if ltb c.cache_size max_cache_size then c.cache_size + 1 else c.cache_size;
}

cache_add-written :
    (c : Cache) (url answer : List ℕ) (e : Entry)
    → Fits c url answer
    → get_elem? c.caches (place_of c) ≡ some e
    → cache_add c url answer ≡ some (after_add c url answer e)
unfolding cache_add place_of after_add
cache_add-written c url answer e fits at = elim (Bool-cases (ltb c.cache_size max_cache_size)) [
  | inl room ↦
      let here : get_elem? c.caches c.cache_size ≡ some e = ground arith in
      rw (room, store-written c c.cache_size url answer e fits here) refl
  | inr full ↦
      let here : get_elem? c.caches (oldest c.caches 0 0 c.timestp) ≡ some e = ground arith in
      rw (full, store-written c (oldest c.caches 0 0 c.timestp) url answer e fits here) refl
]

-- In a full cache the place is that of an entry that no other is older than.
full_place :
    (c : Cache)
    → IsCache c
    → c.cache_size ≡ max_cache_size
    → (e : Entry) × (get_elem? c.caches (oldest c.caches 0 0 c.timestp) ≡ some e)
      × AllFrom e.timestp c.caches
full_place c v full = elim (oldest-Choice c.caches 0 0 c.timestp) [
  | kept all e ↦
      let (first, at) = get_elem?-some c.caches 0 (omega (arith, v.slots)) in
      absurd (
        omega
          (arith, AllFrom-get_elem? c.timestp c.caches 0 all at, v.past 0 first (omega arith) at))
  | older k e r at less all ↦
      let same : oldest c.caches 0 0 c.timestp ≡ k = omega (arith, r) in (e, rw same at, all)
]

-- Into a full cache `cache_add` puts an answer that fits in place of an entry that was used no later
-- than any other, and leaves the others as they are.
pub cache_add-AllFrom :
    (c : Cache) (url answer : List ℕ)
    → IsCache c
    → Fits c url answer
    → c.cache_size ≡ max_cache_size
    → (j : ℕ) × (e : Entry) × (c' : Cache) × (cache_add c url answer ≡ some c')
      × (get_elem? c.caches j ≡ some e)
      × AllFrom e.timestp c.caches
      × (c'.caches ≡ set c.caches j (written c url answer e))
unfolding place_of after_add
cache_add-AllFrom c url answer v fits full =
    let (e, at, all) = full_place c v full in
    let place : place_of c ≡ oldest c.caches 0 0 c.timestp = ground arith in
    (
      oldest c.caches 0 0 c.timestp,
      e,
      after_add c url answer e,
      cache_add-written c url answer e fits (rw place at),
      at,
      all,
      rw place refl,
    )

-- Every place that `cache_add` chooses exists.
placed : (c : Cache) → IsCache c → (e : Entry) × (get_elem? c.caches (place_of c) ≡ some e)
unfolding place_of
placed c v = elim (Bool-cases (ltb c.cache_size max_cache_size)) [
  | inl room ↦ rw room (get_elem?-some c.caches c.cache_size (ground (arith, v.slots)))
  | inr full ↦ let (e, at, all) = full_place c v (ground (arith, v.used)) in rw full (e, at)
]

after_add-IsCache :
    (c : Cache) (url answer : List ℕ) (e : Entry) → IsCache c → IsCache (after_add c url answer e)
unfolding place_of after_add
after_add-IsCache c url answer e v = record {
  slots = length-set c.caches (place_of c) (written c url answer e) ∙ v.slots;
  used = ground (arith, v.used);
  past = λ i x lt at.
      elim (get_elem?-set_cases c.caches (place_of c) i (written c url answer e) at) [
        | inl (same, new) ↦ rw new (omega arith)
        | inr (other, old) ↦
            let before : i < c.cache_size = ground arith in omega (arith, v.past i x before old)
      ];
}

-- A well-formed cache takes every answer that fits, and stays well formed.
pub cache_add-IsCache :
    (c : Cache) (url answer : List ℕ)
    → IsCache c
    → Fits c url answer
    → (c' : Cache) × (cache_add c url answer ≡ some c') × IsCache c'
cache_add-IsCache c url answer v fits =
    let (e, at) = placed c v in
    (
      after_add c url answer e,
      cache_add-written c url answer e fits at,
      after_add-IsCache c url answer e v,
    )

take-append : (xs ys : List ℕ) → take (length xs) (xs ++ ys) ≡ xs
take-append [] ys = refl
take-append (x ∷ xs) ys = ap (λ t. x ∷ t) (take-append xs ys)

abbrev served : Cache → ℕ → Entry → Cache
served c i e = record c {
  caches = set c.caches i (record e { timestp = c.timestp });
  timestp = c.timestp + 1;
}

-- An entry that is found is sent up to its size, and is the one used last from then on.
src_found :
    (c : Cache) (uri : List ℕ) (i : ℕ) (e : Entry)
    → find_url c.cache_size c.caches uri ≡ some i
    → get_elem? c.caches i ≡ some e
    → c.timestp < 2 ^ 31 - 1
    → cache_src c uri ≡ some (some (take e.size e.content), served c i e)
unfolding cache_src
src_found c uri i e found at small = rw (cache_src, found, at) (ground arith)

-- An answer that fits, for a URL that the cache has no entry for, is stored without a fault, and a
-- search for the URL straight after sends exactly this answer.
pub cache_src-cache_add :
    (c : Cache) (url answer : List ℕ)
    → IsCache c
    → Fits c url answer
    → c.timestp + 1 < 2 ^ 31 - 1
    → find_url c.cache_size c.caches url ≡ none
    → (c' : Cache) × (c'' : Cache) × (cache_add c url answer ≡ some c')
      × (cache_src c' url ≡ some (some answer, c''))
unfolding place_of after_add
cache_src-cache_add c url answer v fits small absent =
    let (e, at) = placed c v in
    let new = written c url answer e in
    let c' = after_add c url answer e in
    let inside : place_of c < length c.caches = get_elem?-lt c.caches (place_of c) at in
    let in_use : place_of c < c'.cache_size = ground (arith, v.slots) in
    let known : place_of c ≤ c.cache_size = ground (arith, v.slots, v.used) in
    let found =
      find_url-set c.cache_size c'.cache_size (place_of c) c.caches url new absent known in_use
        inside refl in
    let there = get_elem?-set_self c.caches (place_of c) new inside in
    (
      c',
      served c' (place_of c) new,
      cache_add-written c url answer e fits at,
      src_found c' url (place_of c) new found there small
          ∙ ap (λ t. some (some t, served c' (place_of c) new))
              (take-append answer (drop (length answer) e.content)),
    )
