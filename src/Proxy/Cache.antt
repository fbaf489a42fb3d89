-- ===== src/Proxy/Cache.antt =====
-- The cache of proxylab-handout/cache.c. A text is the list of its bytes. A fault, the overflow of a
-- fixed array or of the `int` that counts the uses, is `none`.
pub mod Table
pub mod Answers
use cmu_ics.Prelude.{
  ℕ, zero, suc, ◌+◌, ◌-◌, ◌^◌, Option, none, some, List, [], ◌∷◌, ◌++◌, Bool, true, false, ◌&&◌,
  ltb, leb, ◌==◌, if◌then◌else◌, get_elem?, set, take, drop, replicate, length,
}

pub record Entry : Type 0 where
  pub url : List ℕ
  pub size : ℕ
  pub timestp : ℕ
  pub content : List ℕ

pub record Cache : Type 0 where
  pub caches : List Entry
  pub timestp : ℕ
  pub cache_size : ℕ

abbrev pub max_cache_size : ℕ
max_cache_size = 10

abbrev pub max_object_size : ℕ
max_object_size = 102400

abbrev pub uri_len : ℕ
uri_len = 1024

-- The static variables before the first call.
abbrev pub blank : Entry
blank = record { url = []; size = 0; timestp = 0; content = [] }

abbrev pub start : Cache
start = record { caches = replicate max_cache_size blank; timestp = 0; cache_size = 0 }

-- `!strcmp(a, b)`
unfoldable pub same_text : List ℕ → List ℕ → Bool
same_text [] [] = true
same_text [] (d ∷ t) = false
same_text (c ∷ s) [] = false
same_text (c ∷ s) (d ∷ t) = let rest = same_text s t in if c == d then rest else false

-- The loop of `cache_src`: the first of the `n` entries in use that is for `uri`.
unfoldable pub find_url : ℕ → List Entry → List ℕ → Option ℕ
unfolding same_text
find_url zero es uri = none
find_url (suc n) [] uri = none
find_url (suc n) (e ∷ es) uri =
    let rest : Option ℕ = elim (find_url n es uri) [ none ↦ none | some i ↦ some (suc i) ] in
    if same_text uri e.url then some 0 else rest

-- What `Rio_writen` sends: `none` when nothing is found, and the answer otherwise.
unfoldable pub cache_src : Cache → List ℕ → Option (Option (List ℕ) × Cache)
unfolding find_url
cache_src c uri = elim (find_url c.cache_size c.caches uri) [
  | none ↦ some (none, c)
  | some i ↦ elim (get_elem? c.caches i) [
    | none ↦ none
    | some e ↦
        if ltb c.timestp (2 ^ 31 - 1)
        then some (
          some (take e.size e.content),
          record c {
            caches = set c.caches i (record e { timestp = c.timestp });
            timestp = c.timestp + 1;
          },
        )
        else none
  ]
]

-- The loop that chooses an entry to replace, from entry `i` on: `index` and `old_time`.
unfoldable pub oldest : List Entry → ℕ → ℕ → ℕ → ℕ
oldest [] i index old_time = index
oldest (e ∷ es) i index old_time =
    if ltb e.timestp old_time
    then oldest es (suc i) i e.timestp
    else oldest es (suc i) index old_time

-- `memcpy(content, cache_content, n)`: bytes beyond the first `n` stay.
abbrev pub copy_over : List ℕ → List ℕ → List ℕ
copy_over new old = new ++ drop (length new) old

-- `strcpy` of the URL and `memcpy` of the answer overflow their arrays when these are longer.
unfoldable pub store : Cache → ℕ → List ℕ → List ℕ → Option Cache
store c i url answer = elim (get_elem? c.caches i) [
  | none ↦ none
  | some e ↦
      if ltb (length url) uri_len
        && leb (length answer) max_object_size
        && ltb c.timestp (2 ^ 31 - 1)
      then some (record c {
        caches = set c.caches i (record {
          url = url;
          size = length answer;
          timestp = c.timestp;
          content = copy_over answer e.content;
        });
        timestp = c.timestp + 1;
      })
      else none
]

unfoldable pub cache_add : Cache → List ℕ → List ℕ → Option Cache
unfolding store oldest
cache_add c url answer =
    if ltb c.cache_size max_cache_size
    then elim (store c c.cache_size url answer) [
      | none ↦ none
      | some c' ↦ some (record c' { cache_size = c'.cache_size + 1 })
    ]
    else store c (oldest c.caches 0 0 c.timestp) url answer
