-- ===== src/Csim/Reference/Agree.antt =====
-- cachelab-handout/csim.c counts what the least recently used cache counts.
use mathlib.Core.Path.{subst, subst₂}
use native.Mathlib.Decide.{ℕ_discrete}
use cmu_ics.Prelude.{
  ℕ, suc, ◌+◌, ◌*◌, ltb, ◌≤◌, ◌<◌, ◌≡◌, refl, sym, ap, ◌∙◌, inl, inr, some, List, [], ◌∷◌, Bool,
  true, false, leb, ◌==◌, ==_true, ==_false, if◌then◌else◌, Bool-cases, get_elem?, take, length,
  arith,
}
use cmu_ics.Csim.{
  Config, State, Access, int_max, set_of, tag_of, simulate, read_from_file, init_cache,
  cleared_cache, can_count, run_trace,
}
use cmu_ics.Csim.Search.{Line, IsResident}
use cmu_ics.Csim.Lru.{SetTracks}
use cmu_ics.Csim.History.{
  IsShiftable, Tracks, Counted, last_use, last_use_same, last_use_other, find_cache-Tracks,
  init_cache-Tracks,
}
use cmu_ics.Csim.Stack.{member, without, IsStack, IsStack-touch}
use cmu_ics.Csim.Stack.Top.{top-IsResident, IsResident-top, full-length, free-length}
use cmu_ics.Csim.Reference.{Reference, empty, moved, use_address, refer, refer_all}

-- The counters are the same.
abbrev pub SameCounts : State → Reference → Type 0
SameCounts s r = (s.hits ≡ r.hits) × (s.misses ≡ r.misses) × (s.evictions ≡ r.evictions)

module _ (c : Config) where
  record Agrees (h : List ℕ) (s : State) (r : Reference) : Type 0 where
    tracks : Tracks c h s
    stacks : (i : ℕ) → IsStack (last_use c i h) (r.stacks i)
    counts : SameCounts s r

  moved-IsStack :
      (h : List ℕ) (a : ℕ) (stacks : ℕ → List ℕ)
      → ((i : ℕ) → IsStack (last_use c i h) (stacks i))
      → ((t : ℕ) → last_use c (set_of c a) h t < suc (length h))
      → (j : ℕ) → IsStack (last_use c j (a ∷ h)) (moved stacks (set_of c a) (tag_of c a) j)
  moved-IsStack h a stacks v past j =
      let i = set_of c a in
      let t = tag_of c a in
      elim (ℕ_discrete i j) [
        | yes same ↦
            subst (λ j. IsStack (last_use c j (a ∷ h)) (moved stacks i t j)) same
              (subst₂ IsStack (sym (last_use_same c a h)) (sym (chosen (==_true i)))
                (IsStack-touch (last_use c i h) t (suc (length h)) (stacks i) (v i) past))
        | no other ↦
            subst₂ IsStack (sym (last_use_other c j a h other))
              (sym (unchosen (==_false i j other))) (v j)
      ]
    where
      chosen :
          (set_of c a == set_of c a) ≡ true
          → moved stacks (set_of c a) (tag_of c a) (set_of c a)
            ≡ tag_of c a ∷ without (tag_of c a) (stacks (set_of c a))
      chosen e =
          ap
            (λ b.
              if b
              then tag_of c a ∷ without (tag_of c a) (stacks (set_of c a))
              else stacks (set_of c a))
            e

      unchosen : (set_of c a == j) ≡ false → moved stacks (set_of c a) (tag_of c a) j ≡ stacks j
      unchosen e = ap (λ b. if b then tag_of c a ∷ without (tag_of c a) (stacks j) else stacks j) e

  module _ (h : List ℕ) (a : ℕ) (lines : List Line) (s s' : State) (r : Reference)
      (v : Agrees h s r) (at : get_elem? s.caches (set_of c a) ≡ some lines)
      (tr : Tracks c (a ∷ h) s') where
    abbrev stack : List ℕ
    stack = r.stacks (set_of c a)

    abbrev here : SetTracks c.lines s.cnt (last_use c (set_of c a) h) lines
    here = v.tracks.sets (set_of c a) lines at

    use_address_lem :
        (b full : Bool)
        → member (tag_of c a) (take c.lines stack) ≡ b
        → leb c.lines (length stack) ≡ full
        → use_address c a r ≡ (
            if b
            then record r { hits = r.hits + 1; stacks = moved r.stacks (set_of c a) (tag_of c a) }
            else record r {
              misses = r.misses + 1;
              evictions = if full then r.evictions + 1 else r.evictions;
              stacks = moved r.stacks (set_of c a) (tag_of c a);
            })
    unfolding use_address
    use_address_lem b full e e' = rw (e, e') refl

    hit_miss-Agrees :
        (r' : Reference)
        → use_address c a r ≡ r'
        → r'.stacks ≡ moved r.stacks (set_of c a) (tag_of c a)
        → SameCounts s' r'
        → Agrees (a ∷ h) s' (use_address c a r)
    hit_miss-Agrees r' e stacks counts = subst (Agrees (a ∷ h) s') (sym e) (record {
      tracks = tr;
      stacks = λ j.
          subst (λ f. IsStack (last_use c j (a ∷ h)) (f j)) (sym stacks)
            (moved-IsStack h a r.stacks v.stacks (λ t. omega (arith, here.past t, v.tracks.time))
              j);
      counts = counts;
    })

    missed : ¬ IsResident lines (tag_of c a) → member (tag_of c a) (take c.lines stack) ≡ false
    missed absent = elim (Bool-cases (member (tag_of c a) (take c.lines stack))) [
      | inl top ↦ absurd (
          absent (
            top-IsResident c.lines s.cnt (last_use c (set_of c a) h) lines here stack
              (v.stacks (set_of c a)) (tag_of c a) top))
      | inr out ↦ out
    ]

    use_address-Agrees : Counted lines (tag_of c a) s s' → Agrees (a ∷ h) s' (use_address c a r)
    use_address-Agrees (inl (resident, hits, misses, evictions)) =
        let (eh, em, ee) = v.counts in
        let top =
          IsResident-top c.lines s.cnt (last_use c (set_of c a) h) lines here stack
            (v.stacks (set_of c a)) (tag_of c a) resident in
        hit_miss-Agrees _ (use_address_lem true (leb c.lines (length stack)) top refl) refl
          (omega (arith, hits, eh), misses ∙ em, evictions ∙ ee)
    use_address-Agrees (inr (absent, hits, misses, inl (all, evictions))) =
        let (eh, em, ee) = v.counts in
        let full : leb c.lines (length stack) ≡ true = ground (
          arith,
          full-length c.lines s.cnt (last_use c (set_of c a) h) lines here stack
              (v.stacks (set_of c a)) all,
        ) in
        hit_miss-Agrees _ (use_address_lem false true (missed absent) full) refl
          (hits ∙ eh, omega (arith, misses, em), omega (arith, evictions, ee))
    use_address-Agrees (inr (absent, hits, misses, inr (k, l, unused, free, evictions))) =
        let (eh, em, ee) = v.counts in
        let room : leb c.lines (length stack) ≡ false = ground (
          arith,
          free-length c.lines s.cnt (last_use c (set_of c a) h) lines here stack
              (v.stacks (set_of c a)) k l unused free,
        ) in
        hit_miss-Agrees _ (use_address_lem false false (missed absent) room) refl
          (hits ∙ eh, omega (arith, misses, em), evictions ∙ ee)

  -- The counters are far enough from `INT_MAX` for `n` entries.
  abbrev RoomFor : ℕ → State → Type 0
  RoomFor n s =
      (s.cnt + n ≤ int_max)
      × (s.hits + 2 * n ≤ int_max)
      × (s.misses + n ≤ int_max)
      × (s.evictions + n ≤ int_max)

  RoomFor-use :
      (lines : List Line) (tag n : ℕ) (s s' : State)
      → RoomFor (suc n) s
      → Counted lines tag s s'
      → s'.cnt ≤ s.cnt + 1
      → RoomFor n s' × (s'.hits + 1 + 2 * n ≤ int_max)
  RoomFor-use lines tag n s s' room (inl (_, h, m, e)) le = omega arith
  RoomFor-use lines tag n s s' room (inr (_, h, m, inl (_, e))) le = omega arith
  RoomFor-use lines tag n s s' room (inr (_, h, m, inr (_, _, _, _, e))) le = omega arith

  module _ (some_line : 0 < c.lines) (fits : IsShiftable c) where
    -- One line of the trace.
    refer-Agrees :
        (n : ℕ) (h : List ℕ) (s : State) (r : Reference) (a : Access)
        → Agrees h s r
        → RoomFor (suc n) s
        → (h' : List ℕ) × (s' : State) × (simulate c s a ≡ some s')
          × Agrees h' s' (refer c a r)
          × RoomFor n s'
    unfolding simulate refer
    refer-Agrees n h s r a v room = elim (Bool-cases (a.op == b'I')) [
      | inl load ↦ (h, s, rw (load, simulate), rw load v, omega (arith, room))
      | inr use_ ↦
          let (lines, s', at, e, tr, counted) =
            find_cache-Tracks c h s a.addr v.tracks (omega (arith, room)) fits some_line in
          let v' = use_address-Agrees h a.addr lines s s' r v at tr counted in
          let (left, again_) =
            RoomFor-use lines (tag_of c a.addr) n s s' room counted
              (omega (arith, tr.time, v.tracks.time)) in
          elim (Bool-cases (a.op == b'M')) [
            | inl again ↦
                let (eh, em, ee) = v'.counts in
                let granted : can_count s'.hits ≡ true = ground (arith, again_) in
                (
                  a.addr ∷ h,
                  record s' { hits = s'.hits + 1 },
                  rw (use_, e, again, granted, simulate),
                  rw (use_, again)
                      (record {
                        tracks = record { time = tr.time; count = tr.count; sets = tr.sets };
                        stacks = v'.stacks;
                        counts = (ap (λ n. n + 1) eh, em, ee);
                      }),
                  omega (arith, left, again_),
                )
            | inr once ↦ (a.addr ∷ h, s', rw (use_, e, once, simulate), rw (use_, once) v', left)
          ]
    ]

    refer_all-Agrees :
        (trace : List Access) (h : List ℕ) (s : State) (r : Reference)
        → Agrees h s r
        → RoomFor (length trace) s
        → (s' : State) × (read_from_file c s trace ≡ some s') × SameCounts s' (refer_all c trace r)
    unfolding read_from_file refer_all
    refer_all-Agrees [] h s r v room = (s, refl, v.counts)
    refer_all-Agrees (a ∷ trace) h s r v room =
        let (h', s₁, e₁, v₁, le) = refer-Agrees (length trace) h s r a v room in
        let (s₂, e₂, counts) = refer_all-Agrees trace h' s₁ (refer c a r) v₁ le in
        (s₂, rw (e₁, read_from_file) e₂, counts)

    -- With at least one line in a set, fewer than 31 bits of the set and 64 of both the set and the offset, a trace of at
    -- most `INT_MAX / 2` entries runs to its end without a fault, and the simulator has counted the hits, the misses and the evictions of the least recently
    -- used cache.
    pub read_from_file-refer_all :
        (trace : List Access)
        → 2 * length trace ≤ int_max
        → (s : State) × (run_trace c trace ≡ some s) × SameCounts s (refer_all c trace empty)
    unfolding run_trace init_cache
    read_from_file-refer_all trace short =
        let defined : ltb c.set_bits 31 ≡ true = ground (arith, fits) in
        rw (defined, run_trace)
          (refer_all-Agrees trace [] (cleared_cache c) empty
            (record {
              tracks = init_cache-Tracks c;
              stacks = λ i. record { ordered = tt; complete = λ t nz. absurd (nz refl) };
              counts = (refl, refl, refl);
            })
            (omega arith))
