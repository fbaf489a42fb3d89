-- ===== src/Proxy/Relay.antt =====
-- The loop of `do_request` in proxylab-handout/proxy.c that passes the answer of the server on to the
-- client and keeps a copy for the cache. A piece is what one call of `Rio_readlineb` returns.
use mathlib.Core.List.{append_assoc, append-nil}
use cmu_ics.Prelude.{
  ℕ, zero, suc, ◌+◌, ◌-◌, ◌≤◌, ◌<◌, ◌≡◌, refl, sym, ap, ◌∙◌, inl, inr, Option, none, some, List, [],
  ◌∷◌, ◌++◌, ltb, if◌then◌else◌, Bool-cases, take, drop, length, length-append, arith,
}
use cmu_ics.Proxy.Cache.{max_object_size}

pub record Relay : Type 0 where
  pub cache : List ℕ
  pub cache_n : ℕ
  pub sent : List ℕ

-- `memcpy(cache + at, buf, n)`
abbrev pub copy_at : ℕ → List ℕ → List ℕ → List ℕ
copy_at at buf cache = take at cache ++ (buf ++ drop (at + length buf) cache)

unfoldable pub pass_on : Relay → List ℕ → Relay
pass_on r buf =
    let n = length buf in
    record {
      cache =
          if ltb (r.cache_n + n) max_object_size then copy_at r.cache_n buf r.cache else r.cache;
      cache_n = r.cache_n + n;
      sent = r.sent ++ buf;
    }

unfoldable pub relay : List (List ℕ) → Relay → Relay
unfolding pass_on
relay [] r = r
relay (buf ∷ pieces) r = relay pieces (pass_on r buf)

-- What `cache_add` is called with, if it is called. `garbage` is what the array holds at first.
unfoldable pub copy_of : List (List ℕ) → List ℕ → List ℕ × Option (List ℕ)
unfolding relay
copy_of pieces garbage =
    let r = relay pieces (record { cache = garbage; cache_n = 0; sent = [] }) in
    (r.sent, if ltb r.cache_n max_object_size then some (take r.cache_n r.cache) else none)

abbrev pub join : List (List ℕ) → List ℕ
join [] = []
join (x ∷ xs) = x ++ join xs

-- As long as the answer fits, what was copied is what was sent.
record IsCopy (r : Relay) : Type 0 where
  counted : length r.sent ≡ r.cache_n
  whole : length r.cache ≡ max_object_size
  kept : r.cache_n < max_object_size → take r.cache_n r.cache ≡ r.sent

take-append : (xs ys : List ℕ) (n : ℕ) → n ≡ length xs → take n (xs ++ ys) ≡ xs
take-append [] ys n h = rw h refl
take-append (x ∷ xs) ys n h = rw h (ap (λ t. x ∷ t) (take-append xs ys (length xs) refl))

length-take : (n : ℕ) (xs : List ℕ) → n ≤ length xs → length (take n xs) ≡ n
length-take zero xs h = refl
length-take (suc n) [] h = absurd (omega arith)
length-take (suc n) (x ∷ xs) h = ap suc (length-take n xs (omega arith))

length-drop : (n : ℕ) (xs : List ℕ) → length (drop n xs) ≡ length xs - n
length-drop zero xs = omega arith
length-drop (suc n) [] = omega arith
length-drop (suc n) (x ∷ xs) = omega (arith, length-drop n xs)

length-copy_at :
    (at : ℕ) (buf cache : List ℕ)
    → at + length buf ≤ length cache
    → length (copy_at at buf cache) ≡ length cache
length-copy_at at buf cache h =
    rw
      (
        length-append (take at cache) (buf ++ drop (at + length buf) cache),
        length-append buf (drop (at + length buf) cache),
        length-take at cache (omega arith),
        length-drop (at + length buf) cache,
      )
      (omega arith)

take-copy_at :
    (at n : ℕ) (buf cache : List ℕ)
    → at + length buf ≤ length cache
    → n ≡ at + length buf
    → take n (copy_at at buf cache) ≡ take at cache ++ buf
take-copy_at at n buf cache h e =
    ap (take n) (sym (append_assoc (take at cache) buf (drop (at + length buf) cache)))
    ∙ take-append (take at cache ++ buf) (drop (at + length buf) cache) n (
        e
        ∙ sym (
            length-append (take at cache) buf
            ∙ ap (λ t. t + length buf) (length-take at cache (omega arith))))

pass_on-IsCopy : (r : Relay) (buf : List ℕ) → IsCopy r → IsCopy (pass_on r buf)
unfolding pass_on
pass_on-IsCopy r buf v = elim (Bool-cases (ltb (r.cache_n + length buf) max_object_size)) [
  | inl small ↦
      let lt : r.cache_n + length buf < max_object_size = ground arith in
      let fits : r.cache_n + length buf ≤ length r.cache = omega (arith, v.whole) in
      rw small (record {
        counted = length-append r.sent buf ∙ ap (λ t. t + length buf) v.counted;
        whole = length-copy_at r.cache_n buf r.cache fits ∙ v.whole;
        kept = λ h.
            take-copy_at r.cache_n (r.cache_n + length buf) buf r.cache fits refl
            ∙ ap (λ t. t ++ buf) (v.kept (omega arith));
      })
  | inr large ↦ rw large (record {
    counted = length-append r.sent buf ∙ ap (λ t. t + length buf) v.counted;
    whole = v.whole;
    kept = λ h. absurd (ground arith);
  })
]

relay-IsCopy :
    (pieces : List (List ℕ)) (r : Relay)
    → IsCopy r
    → IsCopy (relay pieces r) × ((relay pieces r).sent ≡ r.sent ++ join pieces)
unfolding relay pass_on
relay-IsCopy [] r v = (v, sym (append-nil r.sent))
relay-IsCopy (buf ∷ pieces) r v =
    let (copied, sent) = relay-IsCopy pieces (pass_on r buf) (pass_on-IsCopy r buf v) in
    (copied, sent ∙ append_assoc r.sent buf (join pieces))

finished :
    (r : Relay) (all : List ℕ)
    → IsCopy r
    → r.sent ≡ all
    → r.cache_n ≡ length all
    → ◌≡◌ {A = List ℕ × Option (List ℕ)}
        (r.sent, if ltb r.cache_n max_object_size then some (take r.cache_n r.cache) else none)
        (all, if ltb (length all) max_object_size then some all else none)
finished r all v sent counted = elim (Bool-cases (ltb (length all) max_object_size)) [
  | inl small ↦
      let lt : r.cache_n < max_object_size = ground arith in
      let same : take r.cache_n r.cache ≡ all = v.kept lt ∙ sent in ground arith
  | inr large ↦ ground arith
]

-- The client gets all pieces of the answer. The cache gets exactly the same bytes, whatever the array
-- held before, when there are fewer than `MAX_OBJECT_SIZE` of them, and otherwise nothing.
pub copy_of-join :
    (pieces : List (List ℕ)) (garbage : List ℕ)
    → length garbage ≡ max_object_size
    → copy_of pieces garbage ≡ (
      join pieces,
      if ltb (length (join pieces)) max_object_size then some (join pieces) else none,
    )
unfolding copy_of
copy_of-join pieces garbage h =
    let empty : Relay = record { cache = garbage; cache_n = 0; sent = [] } in
    let first : IsCopy empty = record { counted = refl; whole = h; kept = λ k. refl } in
    let (v, sent) = relay-IsCopy pieces empty first in
    let counted : (relay pieces empty).cache_n ≡ length (join pieces) =
      sym v.counted ∙ ap length sent in
    finished (relay pieces empty) (join pieces) v sent counted
