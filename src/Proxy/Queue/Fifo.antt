-- ===== src/Proxy/Queue/Fifo.antt =====
-- The queue of proxylab-handout/proxy.c hands on the connections in the order of their arrival.
use mathlib.Core.Path.{ap₂}
use native.Mathlib.Nat.{mod-add-mod, mod-eq_of_lt, mod-eq-sub-mod, add-zero, mod-lt}
use native.Mathlib.Decide.{dec_lt}
use native.Mathlib.Numerals.{add-one}
use cmu_ics.Prelude.{
  ℕ, zero, suc, ◌+◌, ◌-◌, ◌%◌, ◌≤◌, ◌<◌, ◌≡◌, ◌≢◌, refl, sym, ap, ◌∙◌, ◌⊎◌, inl, inr, none, some,
  List, [], ◌∷◌, ◌++◌, leb, ◌==◌, Bool-cases, get_or, set, length, length-set, arith,
}
use cmu_ics.Proxy.Queue.{Queue, queue_init, queue_push, queue_pop, Step, main_pushes, client_pops}
use mathlib.Core.List.{append_assoc}

-- `n` descriptors from index `at` on.
abbrev pub held : List ℕ → ℕ → ℕ → ℕ → List ℕ
held buf cap at zero = []
held buf cap at (suc n) = get_or buf at 0 ∷ held buf cap ((at + 1) % cap) n

abbrev pub contents : Queue → List ℕ
contents q = held q.buf q.cap q.front q.size

pub record IsQueue (q : Queue) : Type 0 where
  pub room : 0 < q.cap
  pub whole : length q.buf ≡ q.cap
  pub starts : q.front < q.cap
  pub ends : q.rear ≡ (q.front + q.size) % q.cap
  pub fits : q.size ≤ q.cap

get_or-set_self : (xs : List ℕ) (i v : ℕ) → i < length xs → get_or (set xs i v) i 0 ≡ v
get_or-set_self [] i v h = absurd (omega arith)
get_or-set_self (x ∷ xs) zero v h = refl
get_or-set_self (x ∷ xs) (suc i) v h = get_or-set_self xs i v (omega arith)

get_or-set_ne : (xs : List ℕ) (i j v : ℕ) → i ≢ j → get_or (set xs i v) j 0 ≡ get_or xs j 0
get_or-set_ne [] i j v h = refl
get_or-set_ne (x ∷ xs) zero zero v h = absurd (h refl)
get_or-set_ne (x ∷ xs) zero (suc j) v h = refl
get_or-set_ne (x ∷ xs) (suc i) zero v h = refl
get_or-set_ne (x ∷ xs) (suc i) (suc j) v h = get_or-set_ne xs i j v (λ e. h (ap suc e))

-- Going on by one place first, or last, comes to the same place.
turn : (cap at n : ℕ) → ((at + 1) % cap + n) % cap ≡ (at + suc n) % cap
turn cap at n = rw mod-add-mod (ap (λ k. k % cap) (omega arith))

-- No place that is less than a whole turn ahead is this one.
ahead : (cap at n : ℕ) → at < cap → suc n < cap → (at + suc n) % cap ≢ at
ahead cap at n ha hn = elim (dec_lt (at + suc n) cap) [
  | yes h ↦ omega (arith, mod-eq_of_lt h)
  | no h ↦ omega (
    arith,
    mod-eq-sub-mod {n = at + suc n} {m = cap} (omega arith),
    mod-eq_of_lt {n = at + suc n - cap} {m = cap} (omega arith),
  )
]

below_cap : (cap k : ℕ) → 0 < cap → k % cap < cap
below_cap cap k h = omega (arith, mod-lt k h)

-- A write behind the last descriptor adds it to what is held.
held-set :
    (buf : List ℕ) (cap n at fd : ℕ)
    → length buf ≡ cap
    → at < cap
    → n < cap
    → held (set buf ((at + n) % cap) fd) cap at (suc n) ≡ held buf cap at n ++ (fd ∷ [])
held-set buf cap zero at fd hb ha hn =
    rw (add-zero, mod-eq_of_lt ha, get_or-set_self buf at fd (omega arith)) refl
held-set buf cap (suc n) at fd hb ha hn =
    ap₂ ◌∷◌ (get_or-set_ne buf ((at + suc n) % cap) at fd (ahead cap at n ha hn)) (
      ap (λ i. held (set buf i fd) cap ((at + 1) % cap) (suc n)) (sym (turn cap at n))
      ∙ held-set buf cap n ((at + 1) % cap) fd hb (below_cap cap (at + 1) (omega arith))
          (omega arith))

held-suc :
    (buf : List ℕ) (cap at n : ℕ)
    → n ≢ 0
    → held buf cap at n ≡ get_or buf at 0 ∷ held buf cap ((at + 1) % cap) (n - 1)
held-suc buf cap at zero h = absurd (h refl)
held-suc buf cap at (suc n) h =
    ap (λ k. get_or buf at 0 ∷ held buf cap ((at + 1) % cap) k) (omega arith)

-- In a well-formed queue, `queue_push` waits exactly when it is full; otherwise it keeps the queue
-- well formed, of the same capacity, and adds the descriptor behind those held.
pub queue_push-refines :
    (q : Queue) (fd : ℕ)
    → IsQueue q
    → (queue_push q fd ≡ none × q.size ≡ q.cap)
      ⊎ ((q' : Queue) × (queue_push q fd ≡ some q')
          × IsQueue q'
          × (q'.cap ≡ q.cap)
          × (contents q' ≡ contents q ++ (fd ∷ [])))
unfolding queue_push
queue_push-refines q fd v = elim (Bool-cases (leb q.cap q.size)) [
  | inl e ↦ inl (rw e refl, ground arith)
  | inr e ↦
      let less : q.size < q.cap = ground arith in
      inr (next, rw e refl, valid less, refl, grown less)
]
  where
    next : Queue
    next = record q {
      buf = set q.buf (q.rear % q.cap) fd;
      size = q.size + 1;
      rear = (q.rear + 1) % q.cap;
    }

    same_end : q.rear % q.cap ≡ (q.front + q.size) % q.cap
    same_end = rw v.ends (mod-eq_of_lt (below_cap q.cap (q.front + q.size) v.room))

    valid : q.size < q.cap → IsQueue next
    valid less = record {
      room = v.room;
      whole = length-set q.buf (q.rear % q.cap) fd ∙ v.whole;
      starts = v.starts;
      ends = rw (v.ends, mod-add-mod) (ap (λ k. k % q.cap) (omega arith));
      fits = omega arith;
    }

    grown : q.size < q.cap → contents next ≡ contents q ++ (fd ∷ [])
    grown less =
        rw (same_end, add-one) (held-set q.buf q.cap q.size q.front fd v.whole v.starts less)

-- In a well-formed queue, `queue_pop` waits exactly when it is empty; otherwise it keeps the queue well
-- formed, of the same capacity, and returns and removes the first descriptor held.
pub queue_pop-refines :
    (q : Queue)
    → IsQueue q
    → (queue_pop q ≡ none × q.size ≡ 0)
      ⊎ ((fd : ℕ) × (q' : Queue) × (queue_pop q ≡ some (fd, q'))
          × IsQueue q'
          × (q'.cap ≡ q.cap)
          × (contents q ≡ fd ∷ contents q'))
unfolding queue_pop
queue_pop-refines q v = elim (Bool-cases (q.size == 0)) [
  | inl e ↦ inl (rw e refl, ground arith)
  | inr e ↦
      let some_held : q.size ≢ 0 = ground arith in
      inr
        (get_or q.buf (q.front % q.cap) 0, next, rw e refl, valid some_held, refl, first some_held)
]
  where
    next : Queue
    next = record q { size = q.size - 1; front = (q.front + 1) % q.cap }

    valid : q.size ≢ 0 → IsQueue next
    valid some_held = record {
      room = v.room;
      whole = v.whole;
      starts = below_cap q.cap (q.front + 1) v.room;
      ends = rw (v.ends, mod-add-mod) (ap (λ k. k % q.cap) (omega arith));
      fits = omega (arith, v.fits);
    }

    first : q.size ≢ 0 → contents q ≡ get_or q.buf (q.front % q.cap) 0 ∷ contents next
    first some_held = rw (mod-eq_of_lt v.starts) (held-suc q.buf q.cap q.front q.size some_held)

-- What holds of the queue, the descriptors accepted and the descriptors handled.
pub InOrder : Queue × List ℕ × List ℕ → Type 0
InOrder (q, ins, outs) = IsQueue q × (ins ≡ outs ++ contents q)

Step-InOrder : (x y : Queue × List ℕ × List ℕ) → Step x y → InOrder x → InOrder y
unfolding InOrder
Step-InOrder _ _ (main_pushes q q' fd ins outs e) (v, order) = elim (queue_push-refines q fd v) [
  | inl (waits, full) ↦ absurd (ground arith)
  | inr (q'', e', v', same, grown) ↦
      let returned : q'' ≡ q' = ground arith in
      rw (← returned) (
        v',
        ap (λ k. k ++ (fd ∷ [])) order
            ∙ append_assoc outs (contents q) (fd ∷ [])
            ∙ ap (λ k. outs ++ k) (sym grown),
      )
]
Step-InOrder _ _ (client_pops q q' fd ins outs e) (v, order) = elim (queue_pop-refines q v) [
  | inl (waits, empty) ↦ absurd (ground arith)
  | inr (fd'', q'', e', v', same, first) ↦
      let returned : q'' ≡ q' = ground arith in
      let handled : fd'' ≡ fd = ground arith in
      rw (← returned, ← handled)
        (v', order ∙ ap (λ k. outs ++ k) first ∙ sym (append_assoc outs (fd'' ∷ []) (contents q'')))
]

pub data Reach (capacity : ℕ) (storage : List ℕ) : Queue × List ℕ × List ℕ → Type 0 where
  at_start : Reach capacity storage (queue_init capacity storage, [], [])
  after :
      (x y : Queue × List ℕ × List ℕ)
      → Reach capacity storage x
      → Step x y
      → Reach capacity storage y

-- However the calls of the threads interleave: the descriptors handled, followed by those in the
-- queue, are the descriptors accepted, in the order of their arrival; and the queue stays well formed.
pub Reach-InOrder :
    (capacity : ℕ) (storage : List ℕ) (x : Queue × List ℕ × List ℕ)
    → 0 < capacity
    → length storage ≡ capacity
    → Reach capacity storage x
    → InOrder x
unfolding InOrder
Reach-InOrder capacity storage _ room h at_start = (
  record {
    room = room;
    whole = h;
    starts = room;
    ends = sym (mod-eq_of_lt room);
    fits = omega arith;
  },
  refl,
)
Reach-InOrder capacity storage y room h (after x _ r step) =
    Step-InOrder x y step (Reach-InOrder capacity storage x room h r)
