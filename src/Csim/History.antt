-- ===== src/Csim/History.antt =====
-- The whole simulator of cachelab-handout/csim.c against the history of the addresses it was given.
use native.Mathlib.Decide.{ℕ_discrete}
use native.Mathlib.Nat.{one-le-pow, mod-lt}
use mathlib.Core.Path.{fun_ext, subst₂, subst₃}
use cmu_ics.Prelude.{
  ℕ, suc, ◌+◌, ◌/◌, ◌^◌, ◌≤◌, ◌<◌, ◌≡◌, ◌≢◌, refl, ◌∙◌, sym, ap, ◌⊎◌, inl, inr, none, some, List,
  [], ◌∷◌, true, ◌&&◌, ◌||◌, ◌==◌, ==_false, if◌then◌else◌, Option-cases, get_elem?, set, replicate,
  arith, length, length-set, get_elem?-some, get_elem?-replicate, length-replicate,
  get_elem?-set_cases,
}
use cmu_ics.Csim.Search.{
  Line, IsResident, AllFrom, AllFrom-get_elem?, AllFrom-weaken, find_tag, find_victim,
  find_tag-holds, find_tag-none, find_victim-Victim, Victim, unused, kept, least,
}
use cmu_ics.Csim.Lru.{SetTracks, SetTracks-set, touch}
use cmu_ics.Csim.{
  Config, State, int_max, set_of, tag_of, cleared_cache, can_count, shifts_defined, hit_line,
  fill_line, access_set, find_cache,
}

-- What a use of the tag counts, when `lines` is its set before: a hit if the tag is held; otherwise
-- a miss, and an eviction exactly if every line is in use.
abbrev pub Counted : List Line → ℕ → State → State → Type 0
Counted lines tag s s' =
    (IsResident lines tag
      × (s'.hits ≡ s.hits + 1)
      × (s'.misses ≡ s.misses)
      × (s'.evictions ≡ s.evictions))
    ⊎ ((¬ IsResident lines tag)
        × (s'.hits ≡ s.hits)
        × (s'.misses ≡ s.misses + 1)
        × ((AllFrom 1 lines × (s'.evictions ≡ s.evictions + 1))
            ⊎ ((i : ℕ) × (l : Line) × (get_elem? lines i ≡ some l)
                × (l.valid ≡ 0)
                × (s'.evictions ≡ s.evictions))))

-- The counters can be incremented.
abbrev pub HasRoom : State → Type 0
HasRoom s = (s.cnt < int_max) × (s.hits < int_max) × (s.misses < int_max) × (s.evictions < int_max)

-- Shifts by these counts are defined.
abbrev pub IsShiftable : Config → Type 0
IsShiftable c = (c.set_bits < 31) × (c.set_bits + c.block_bits < 64)

module _ (c : Config) where
  -- The time of the last use of the tag `t` in the set `i`, from the addresses used, the latest
  -- first. The first use is at time 1; 0 stands for none.
  abbrev pub last_use : ℕ → List ℕ → ℕ → ℕ
  last_use i [] t = 0
  last_use i (a ∷ h) t =
      if set_of c a == i && tag_of c a == t then suc (length h) else last_use i h t

  last_use-le : (i : ℕ) (h : List ℕ) (t : ℕ) → last_use i h t ≤ length h
  last_use-le i [] t = omega arith
  last_use-le i (a ∷ h) t = ground (arith, last_use-le i h t)

  pub last_use_other : (i a : ℕ) (h : List ℕ) → set_of c a ≢ i → last_use i (a ∷ h) ≡ last_use i h
  last_use_other i a h ne = fun_ext (λ t. rw (==_false (set_of c a) i ne))

  pub last_use_same :
      (a : ℕ) (h : List ℕ)
      → last_use (set_of c a) (a ∷ h)
        ≡ touch (last_use (set_of c a) h) (tag_of c a) (suc (length h))
  last_use_same a h = fun_ext (λ t. ground arith)

  -- The state of the simulator after the uses `h`, the latest first.
  pub record Tracks (h : List ℕ) (s : State) : Type 0 where
    pub time : s.cnt ≡ suc (length h)
    pub count : length s.caches ≡ 2 ^ c.set_bits
    pub sets :
        (i : ℕ) (lines : List Line)
        → get_elem? s.caches i ≡ some lines
        → SetTracks c.lines s.cnt (last_use i h) lines

  SetTracks-later :
      (cap now : ℕ) (used : ℕ → ℕ) (lines : List Line)
      → SetTracks cap now used lines
      → SetTracks cap (suc now) used lines
  SetTracks-later cap now used lines t = record {
    size = t.size;
    stamped = t.stamped;
    distinct = t.distinct;
    recent = t.recent;
    past = λ x. omega (arith, t.past x);
    apart = t.apart;
  }

  -- What a use of the address does to a state that a line of its set changes to.
  Tracks-set :
      (h : List ℕ) (s s' : State) (a : ℕ) (lines : List Line)
      → Tracks h s
      → get_elem? s.caches (set_of c a) ≡ some lines
      → (lines' : List Line) → s'.caches ≡ set s.caches (set_of c a) lines'
      → s'.cnt ≡ s.cnt + 1
      → SetTracks c.lines (suc s.cnt) (touch (last_use (set_of c a) h) (tag_of c a) s.cnt) lines'
      → Tracks (a ∷ h) s'
  Tracks-set h s s' a lines tr at lines' ec en st = record {
    time = omega (arith, tr.time);
    count = rw ec (length-set _ _ _ ∙ tr.count);
    sets = λ i ls g. each i ls g;
  }
    where
      each :
          (i : ℕ) (ls : List Line)
          → get_elem? s'.caches i ≡ some ls
          → SetTracks c.lines s'.cnt (last_use i (a ∷ h)) ls
      each i ls g = elim (get_elem?-set_cases s.caches (set_of c a) i lines' (rw ec at g)) [
        | inl (e, f) ↦
            subst₃ (SetTracks c.lines) (omega arith)
              (sym (last_use_same a h ∙ ap (touch _ _) (sym tr.time))
                ∙ ap (λ k. last_use k (a ∷ h)) e)
              (sym f) st
        | inr (ne, g') ↦
            subst₂ (λ n u. SetTracks c.lines n u ls) (omega arith) (sym (last_use_other i a h ne))
              (SetTracks-later c.lines s.cnt (last_use i h) ls (tr.sets i ls g'))
      ]

  module _ (h : List ℕ) (s : State) (a : ℕ) (lines : List Line) (tr : Tracks h s)
      (at : get_elem? s.caches (set_of c a) ≡ some lines) (room : HasRoom s)
      (some_line : 0 < c.lines) where
    abbrev Used : State → Type 0
    Used s' = Tracks (a ∷ h) s' × Counted lines (tag_of c a) s s'

    hit_line-Used :
        (i : ℕ) (l : Line)
        → get_elem? lines i ≡ some l
        → l.valid ≢ 0
        → l.tag ≡ tag_of c a
        → (s' : State) × (hit_line s (set_of c a) lines i ≡ some s') × Used s'
    unfolding hit_line
    hit_line-Used i l g nz e =
        let granted : (can_count s.hits && can_count s.cnt) ≡ true = ground (arith, room) in
        let v : Line = record l { valid = s.cnt } in
        let s₁ : State = record s {
          hits = s.hits + 1;
          caches = set s.caches (set_of c a) (set lines i v);
          cnt = s.cnt + 1;
        } in
        (
          s₁,
          rw (g, granted, hit_line),
          (
            Tracks-set h s s₁ a lines tr at (set lines i v) refl refl (
                SetTracks-set c.lines s.cnt (last_use (set_of c a) h) lines (tr.sets _ lines at)
                  (tag_of c a) i l v g refl e (omega (arith, tr.time)) (inl (nz, e))),
            inl ((i, l, g, nz, e), refl, refl, refl),
          ),
        )

    fill_line-Used :
        (i : ℕ) (l : Line)
        → get_elem? lines i ≡ some l
        → find_tag lines (tag_of c a) 0 ≡ none
        → ((l.valid ≡ 0) ⊎ AllFrom l.valid lines)
        → (s' : State) × (fill_line s (set_of c a) (tag_of c a) lines i ≡ some s') × Used s'
    unfolding fill_line
    fill_line-Used i l g miss which =
        let granted : (can_count s.misses
              && ((l.valid == 0 || can_count s.evictions) && can_count s.cnt))
            ≡ true =
          ground (arith, room) in
        let v : Line = record { valid = s.cnt; tag = tag_of c a } in
        let new = find_tag-none lines (tag_of c a) 0 miss in
        let s₁ : State = record s {
          misses = s.misses + 1;
          evictions = if l.valid == 0 then s.evictions else s.evictions + 1;
          caches = set s.caches (set_of c a) (set lines i v);
          cnt = s.cnt + 1;
        } in
        (
          s₁,
          rw (g, granted, fill_line),
          (
            Tracks-set h s s₁ a lines tr at (set lines i v) refl refl (
                SetTracks-set c.lines s.cnt (last_use (set_of c a) h) lines (tr.sets _ lines at)
                  (tag_of c a) i l v g refl refl (omega (arith, tr.time)) (inr (new, which))),
            inr ((λ r. new r.0 r.1 r.2 r.3 r.4), refl, refl, counted which),
          ),
        )
      where
        counted :
            ((l.valid ≡ 0) ⊎ AllFrom l.valid lines)
            → (AllFrom 1 lines
                × ((if l.valid == 0 then s.evictions else s.evictions + 1) ≡ s.evictions + 1))
              ⊎ ((i : ℕ) × (l' : Line) × (get_elem? lines i ≡ some l')
                  × (l'.valid ≡ 0)
                  × ((if l.valid == 0 then s.evictions else s.evictions + 1) ≡ s.evictions))
        counted (inl free) = inr (i, l, g, free, ground arith)
        counted (inr all) = elim (ℕ_discrete l.valid 0) [
          | yes free ↦ inr (i, l, g, free, ground arith)
          | no nz ↦ inl (AllFrom-weaken l.valid 1 lines (omega arith) all, ground arith)
        ]

    -- With a line in the set and stamps below `INT_MAX` the second loop finds a line.
    find_victim-some :
        (i : ℕ) × (l : Line) × (find_victim lines 0 none int_max ≡ some i)
        × (get_elem? lines i ≡ some l)
        × ((l.valid ≡ 0) ⊎ AllFrom l.valid lines)
    find_victim-some = of (find_victim-Victim lines 0 none int_max)
      where
        of :
            Victim lines 0 none int_max (find_victim lines 0 none int_max)
            → (i : ℕ) × (l : Line) × (find_victim lines 0 none int_max ≡ some i)
              × (get_elem? lines i ≡ some l)
              × ((l.valid ≡ 0) ⊎ AllFrom l.valid lines)
        of (unused k l e g free) = (k, l, e ∙ ap some (omega arith), g, inl free)
        of (least k l e g lt all) = (k, l, e ∙ ap some (omega arith), g, inr all)
        of (kept all e) =
            let st = tr.sets _ lines at in
            let (l, g) = get_elem?-some lines 0 (omega (arith, st.size)) in
            let (le, nz) = AllFrom-get_elem? int_max lines 0 all g in
            absurd (omega (arith, room.0, st.stamped 0 l g nz, st.past l.tag))

    access_set-Used :
        (s' : State) × (access_set s (set_of c a) (tag_of c a) lines ≡ some s') × Used s'
    unfolding access_set
    access_set-Used = elim (Option-cases (find_tag lines (tag_of c a) 0)) [
      | inr (j, found) ↦
          let (k, l, e, g, held) = find_tag-holds lines (tag_of c a) 0 j found in
          let at_k : find_tag lines (tag_of c a) 0 ≡ some k = found ∙ ap some (omega arith) in
          rw (at_k, access_set) (hit_line-Used k l g (ground arith) (ground arith))
      | inl miss ↦
          let (i, l, found, g, which) = find_victim-some in
          rw (miss, found, access_set) (fill_line-Used i l g miss which)
    ]

  -- In a state that tracks a history, with a line in each set and all counters below `INT_MAX`, for
  -- fewer than 31 bits of the set and 64 of both, a use
  -- of any address accesses no element out of range. It leads to a state that tracks the longer
  -- history, so that the least recently used tag is what it replaces, and counts a hit, a miss and
  -- an eviction by what the set held.
  pub find_cache-Tracks :
      (h : List ℕ) (s : State) (a : ℕ)
      → Tracks h s
      → HasRoom s
      → IsShiftable c
      → 0 < c.lines
      → (lines : List Line) × (s' : State) × (get_elem? s.caches (set_of c a) ≡ some lines)
        × (find_cache c s a ≡ some s')
        × Tracks (a ∷ h) s'
        × Counted lines (tag_of c a) s s'
  unfolding find_cache
  find_cache-Tracks h s a tr room fits some_line =
      let defined : shifts_defined c ≡ true = ground (arith, fits) in
      let pos = one-le-pow c.set_bits 2 (omega arith) in
      let (lines, at) =
        get_elem?-some s.caches (set_of c a) (rw tr.count (mod-lt (a / 2 ^ c.block_bits) pos)) in
      let (s', e, u) = access_set-Used h s a lines tr at room some_line in
      (lines, s', at, rw (defined, at, find_cache) e, u.0, u.1)

  -- The empty cache tracks the empty history.
  pub init_cache-Tracks : Tracks [] (cleared_cache c)
  init_cache-Tracks = record {
    time = refl;
    count = length-replicate _ _;
    sets = λ i lines g. rw (get_elem?-replicate _ _ i g) fresh;
  }
    where
      fresh :
          SetTracks c.lines 1 (last_use 0 []) (replicate c.lines (record { valid = 0; tag = 0 }))
      fresh = record {
        size = length-replicate _ _;
        stamped = λ k l g nz. absurd (nz (ap (λ x. x.valid) (get_elem?-replicate c.lines _ k g)));
        distinct = λ j k l l' g g' nz nz' e.
            absurd (nz (ap (λ x. x.valid) (get_elem?-replicate c.lines _ j g)));
        recent = λ t nz. absurd (nz refl);
        past = λ t. omega arith;
        apart = λ t u nz e. absurd (nz refl);
      }
