-- ===== src/Csim/Earlier/Frozen.antt =====
-- The options of cachelab-handout_back/csim.c, and what becomes of a set once all of its lines are in use.
use cmu_ics.Prelude.{
  ℕ, ◌+◌, ◌-◌, ◌^◌, ◌≤◌, ◌<◌, ◌≡◌, ◌≢◌, refl, sym, ap, ◌∙◌, ◌⊎◌, inl, inr, Option, none, some, List,
  [], ◌∷◌, map, true, false, not, ◌&&◌, ltb, ◌==◌, ==_false, Bool-cases, Option-cases, length, All,
  arith,
}
use cmu_ics.Csim.{int_max, can_count}
use cmu_ics.Csim.Options.{
  Opt, Settings, exit_success, exit_failure, initial, verbose, set_bits, lines, block_bits, trace,
  unknown, help,
}
use cmu_ics.Csim.Earlier.{
  Line, Counts, hit_loop, fill_loop, evict_loop, find_cache, passed, next_stamp, counted,
  behind_first, behind_second, options, main, started, Scan, exited,
}
use mathlib.Core.Path.{subst}

-- Without `-t` there is no trace, and with it `main` returns.
options-ends :
    (o : Settings) (opts : List Opt)
    → o.path ≡ none
    → (options o opts ≡ exit_success) ⊎ (options o opts ≡ exit_failure)
unfolding options
options-ends o [] e = inr (rw e (ground arith))
options-ends o (verbose ∷ rest) e = options-ends _ rest e
options-ends o (help ∷ rest) e = options-ends _ rest e
options-ends o (set_bits n ∷ rest) e = options-ends _ rest e
options-ends o (lines n ∷ rest) e = options-ends _ rest e
options-ends o (block_bits n ∷ rest) e = options-ends _ rest e
options-ends o (trace p ∷ rest) e = inl refl
options-ends o (unknown ∷ rest) e = inl refl

-- The program ends with 0 or 1 before it reads a trace, whatever its options are.
pub main-ends :
    (opts : List Opt) (scans : List Scan)
    → (main opts scans ≡ exited 0) ⊎ (main opts scans ≡ exited 1)
unfolding main
main-ends opts scans = elim (options-ends initial opts refl) [
  | inl e ↦ inl (ap (started scans) e)
  | inr e ↦ inr (ap (started scans) e)
]

-- What a line holds, whatever its counter is.
abbrev pub contents : Line → ℕ × ℕ
contents l = (l.valid, l.tag)

abbrev pub InUse : List Line → Type 0
InUse = All (λ l. l.valid ≢ 0)

hit_loop-contents :
    (ls ls' : List Line) (tag : ℕ) → hit_loop ls tag ≡ some ls' → map contents ls' ≡ map contents ls
unfolding hit_loop
hit_loop-contents [] ls' tag e = absurd (cc)
hit_loop-contents (l ∷ ls) ls' tag e = elim (Bool-cases (not (l.valid == 0) && l.tag == tag)) [
  | inl here ↦
      let same : record l { timestp = next_stamp l.timestp } ∷ ls ≡ ls' =
        ground (arith, rw here at e) in
      subst (λ t. map contents t ≡ map contents (l ∷ ls)) same refl
  | inr there ↦ elim (Option-cases (hit_loop ls tag)) [
    | inl gone ↦ absurd (cc (rw (there, gone) at e))
    | inr (t, found) ↦
        let same : l ∷ t ≡ ls' = ground (arith, rw (there, found) at e) in
        subst (λ t. map contents t ≡ map contents (l ∷ ls)) same
          (ap (λ t. contents l ∷ t) (hit_loop-contents ls t tag found))
  ]
]

fill_loop-full : (ls : List Line) (tag : ℕ) → InUse ls → fill_loop ls tag ≡ none
unfolding fill_loop
fill_loop-full [] tag v = refl
fill_loop-full (l ∷ ls) tag (here, v) = rw (==_false l.valid 0 here, fill_loop-full ls tag v) refl

InUse-contents : (ls ls' : List Line) → map contents ls' ≡ map contents ls → InUse ls → InUse ls'
InUse-contents [] [] e v = tt
InUse-contents [] (l' ∷ ls') e v = absurd (cc)
InUse-contents (l ∷ ls) [] e v = absurd (cc)
InUse-contents (l ∷ ls) (l' ∷ ls') e (here, v) =
    let same : l'.valid ≡ l.valid = ground (arith, e) in
    ((λ z. here (sym same ∙ z)), InUse-contents ls ls' (ground (arith, e)) v)

abbrev pub go_on :
    (List Line → Counts → Option (List Line × Counts))
    → Option (List Line × Counts)
    → Option (List Line × Counts)
go_on more none = none
go_on more (some (ls, c)) = more ls c

-- The uses of one set, in turn.
unfoldable pub use_all : List ℕ → List Line → Counts → Option (List Line × Counts)
use_all [] ls c = some (ls, c)
use_all (tag ∷ tags) ls c = go_on (use_all tags) (find_cache tag ls c)

hit_loop-here :
    (l : Line) (ls : List Line) (tag : ℕ)
    → (not (l.valid == 0) && l.tag == tag) ≡ true
    → hit_loop (l ∷ ls) tag ≡ some (record l { timestp = next_stamp l.timestp } ∷ ls)
unfolding hit_loop
hit_loop-here l ls tag e = rw e refl

hit_loop-passed :
    (l : Line) (ls : List Line) (tag : ℕ) (r : Option (List Line))
    → (not (l.valid == 0) && l.tag == tag) ≡ false
    → hit_loop ls tag ≡ r
    → hit_loop (l ∷ ls) tag ≡ passed l r
unfolding hit_loop
hit_loop-passed l ls tag r e rest = rw e (ap (passed l) rest)

evict_loop-here :
    (l : Line) (ls : List Line) (tag : ℕ)
    → ltb l.timestp (2 ^ 32 - 1) ≡ true
    → evict_loop (l ∷ ls) tag
      ≡ some (record { valid = 1; tag = tag; timestp = next_stamp l.timestp } ∷ ls)
unfolding evict_loop
evict_loop-here l ls tag e = rw e refl

-- No counter goes past `INT_MAX` in `n` uses.
abbrev pub RoomFor : ℕ → Counts → Type 0
RoomFor n c = (c.hit + n ≤ int_max) × (c.miss + n ≤ int_max) × (c.evict + n ≤ int_max)

-- A use of a set whose lines are all in use: it is a hit, or a miss that evicts the first line. The others hold
-- what they held.
record Used (tag : ℕ) (l : Line) (ls : List Line) (c : Counts) : Type 0 where
  pub first : Line
  pub rest : List Line
  pub counts : Counts
  pub result : find_cache tag (l ∷ ls) c ≡ some (first ∷ rest, counts)
  pub some_use : first.valid ≢ 0
  pub same : map contents rest ≡ map contents ls
  pub stamp : first.timestp ≤ l.timestp + 1
  pub evictions : counts.miss + c.evict ≡ counts.evict + c.miss
  pub total : counts.hit + counts.miss ≡ c.hit + c.miss + 1
  pub steps : (counts.hit ≤ c.hit + 1) × (counts.miss ≤ c.miss + 1) × (counts.evict ≤ c.evict + 1)

find_cache-Used :
    (tag : ℕ) (l : Line) (ls : List Line) (c : Counts)
    → InUse (l ∷ ls)
    → l.timestp < 2 ^ 32 - 1
    → RoomFor 1 c
    → Used tag l ls c
unfolding find_cache
find_cache-Used tag l ls c (here, v) low room =
    let hits : can_count c.hit ≡ true = ground (arith, room) in
    let misses : (can_count c.miss && can_count c.evict) ≡ true = ground (arith, room) in
    elim (Bool-cases (not (l.valid == 0) && l.tag == tag)) [
      | inl at_first ↦ record {
        first = record l { timestp = next_stamp l.timestp };
        rest = ls;
        counts = record c { hit = c.hit + 1 };
        result = ap (behind_first c (l ∷ ls) tag) (hit_loop-here l ls tag at_first) ∙ rw hits refl;
        some_use = here;
        same = refl;
        stamp = omega arith;
        evictions = omega arith;
        total = omega arith;
        steps = omega arith;
      }
      | inr not_first ↦ elim (Option-cases (hit_loop ls tag)) [
        | inr (ls', found) ↦ record {
          first = l;
          rest = ls';
          counts = record c { hit = c.hit + 1 };
          result =
              ap (behind_first c (l ∷ ls) tag) (hit_loop-passed l ls tag (some ls') not_first found)
              ∙ rw hits refl;
          some_use = here;
          same = hit_loop-contents ls ls' tag found;
          stamp = omega arith;
          evictions = omega arith;
          total = omega arith;
          steps = omega arith;
        }
        | inl gone ↦
            let below : ltb l.timestp (2 ^ 32 - 1) ≡ true = ground (arith, low) in
            record {
              first = record { valid = 1; tag = tag; timestp = next_stamp l.timestp };
              rest = ls;
              counts = record c { miss = c.miss + 1; evict = c.evict + 1 };
              result =
                  ap (behind_first c (l ∷ ls) tag) (hit_loop-passed l ls tag none not_first gone)
                  ∙ ap (behind_second c (l ∷ ls) tag) (fill_loop-full (l ∷ ls) tag (here, v))
                  ∙ rw misses refl
                  ∙ ap (counted (record c { miss = c.miss + 1; evict = c.evict + 1 }))
                      (evict_loop-here l ls tag below);
              some_use = omega arith;
              same = refl;
              stamp = omega arith;
              evictions = omega arith;
              total = omega arith;
              steps = omega arith;
            }
      ]
    ]

-- What a run of uses leaves of a set whose lines are all in use.
pub record Frozen (tags : List ℕ) (l : Line) (ls : List Line) (c : Counts) : Type 0 where
  pub first : Line
  pub rest : List Line
  pub counts : Counts
  pub result : use_all tags (l ∷ ls) c ≡ some (first ∷ rest, counts)
  pub same : map contents rest ≡ map contents ls
  pub evictions : counts.miss + c.evict ≡ counts.evict + c.miss
  pub total : counts.hit + counts.miss ≡ c.hit + c.miss + length tags

-- Once all lines of a set are in use, each use of a tag is a hit, or a miss that evicts a line, and no line but the
-- first is ever replaced, whichever was used least recently, as long as the counter of the first line
-- stays below `UINT_MAX` and no other counter goes past `INT_MAX`.
pub use_all-Frozen :
    (tags : List ℕ) (l : Line) (ls : List Line) (c : Counts)
    → InUse (l ∷ ls)
    → l.timestp + length tags < 2 ^ 32
    → RoomFor (length tags) c
    → Frozen tags l ls c
unfolding use_all
use_all-Frozen [] l ls c v low room = record {
  first = l;
  rest = ls;
  counts = c;
  result = refl;
  same = refl;
  evictions = omega arith;
  total = omega arith;
}
use_all-Frozen (tag ∷ tags) l ls c v low room =
    let u = find_cache-Used tag l ls c v (omega arith) (omega (arith, room)) in
    let f =
      use_all-Frozen tags u.first u.rest u.counts (u.some_use, InUse-contents ls u.rest u.same v.1)
        (omega (arith, u.stamp, low)) (omega (arith, u.steps, room)) in
    record {
      first = f.first;
      rest = f.rest;
      counts = f.counts;
      result = ap (go_on (use_all tags)) u.result ∙ f.result;
      same = f.same ∙ u.same;
      evictions = omega (arith, f.evictions, u.evictions);
      total = omega (arith, f.total, u.total);
    }
