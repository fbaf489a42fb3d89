-- ===== src/Malloc/Bytes.antt =====
-- Memory by bytes, as malloclab-handout/mdriver.c fills and compares payloads: four to a word, the lowest
-- first.
use native.Mathlib.Decide.{ℕ_discrete}
use mathlib.Core.Path.{subst}
use cmu_ics.Prelude.{
  ℕ, zero, suc, ◌+◌, ◌-◌, ◌*◌, ◌/◌, ◌%◌, ◌^◌, ◌≤◌, ◌<◌, ◌≡◌, ◌≢◌, refl, ◌∙◌, ◌⊎◌, inl, inr, false,
  ltb, leb, ==_true, ==_false, Bool-cases, arith,
}
use cmu_ics.Malloc.Memory.{Memory, store, memcpy}

-- A byte of a word.
abbrev pub digit : ℕ → ℕ → ℕ
digit k w = w / 2 ^ (8 * k) % 256

abbrev pub with_digit : ℕ → ℕ → ℕ → ℕ
with_digit k v w = w - digit k w * 2 ^ (8 * k) + v * 2 ^ (8 * k)

unfoldable pub get_byte : Memory → ℕ → ℕ
get_byte m a = digit (a % 4) (m (a / 4 * 4))

unfoldable pub set_byte : Memory → ℕ → ℕ → Memory
set_byte m a v = store (a / 4 * 4) (with_digit (a % 4) v (m (a / 4 * 4))) m

-- `memset(p, v, n)`
unfoldable pub memset : Memory → ℕ → ℕ → ℕ → Memory
unfolding set_byte
memset m p v zero = m
memset m p v (suc n) = set_byte (memset m p v n) (p + n) v

-- The places of a byte in a word.
below_four : (k : ℕ) → k < 4 → (k ≡ 0) ⊎ (k ≡ 1) ⊎ (k ≡ 2) ⊎ (k ≡ 3)
below_four zero h = inl refl
below_four (suc zero) h = inr (inl refl)
below_four (suc (suc zero)) h = inr (inr (inl refl))
below_four (suc (suc (suc k))) h = inr (inr (inr (omega arith)))

-- A statement on a byte's place, from its four instances.
at_place : (P : ℕ → Type 0) → P 0 → P 1 → P 2 → P 3 → (k : ℕ) → k < 4 → P k
at_place P p0 p1 p2 p3 zero h = p0
at_place P p0 p1 p2 p3 (suc zero) h = p1
at_place P p0 p1 p2 p3 (suc (suc zero)) h = p2
at_place P p0 p1 p2 p3 (suc (suc (suc k))) h = subst P (omega arith) p3

digit-with_digit : (v w : ℕ) → v < 256 → (k : ℕ) → k < 4 → digit k (with_digit k v w) ≡ v
digit-with_digit v w small =
    at_place (λ k. digit k (with_digit k v w) ≡ v) (omega arith) (omega arith) (omega arith)
      (omega arith)

digit-with_other :
    (v w : ℕ)
    → v < 256
    → (j : ℕ) → j < 4
    → (k : ℕ) → k < 4
    → j ≢ k
    → digit j (with_digit k v w) ≡ digit j w
digit-with_other v w small =
    at_place (λ j. (k : ℕ) → k < 4 → j ≢ k → digit j (with_digit k v w) ≡ digit j w)
      (at_place (λ k. 0 ≢ k → digit 0 (with_digit k v w) ≡ digit 0 w) (λ ne. absurd (ne refl))
        (λ ne. omega arith) (λ ne. omega arith) (λ ne. omega arith))
      (at_place (λ k. 1 ≢ k → digit 1 (with_digit k v w) ≡ digit 1 w) (λ ne. omega arith)
        (λ ne. absurd (ne refl)) (λ ne. omega arith) (λ ne. omega arith))
      (at_place (λ k. 2 ≢ k → digit 2 (with_digit k v w) ≡ digit 2 w) (λ ne. omega arith)
        (λ ne. omega arith) (λ ne. absurd (ne refl)) (λ ne. omega arith))
      (at_place (λ k. 3 ≢ k → digit 3 (with_digit k v w) ≡ digit 3 w) (λ ne. omega arith)
        (λ ne. omega arith) (λ ne. omega arith) (λ ne. absurd (ne refl)))

get_byte-set_byte : (m : Memory) (a v : ℕ) → v < 256 → get_byte (set_byte m a v) a ≡ v
unfolding get_byte set_byte
get_byte-set_byte m a v small =
    rw (==_true (a / 4 * 4)) (digit-with_digit v (m (a / 4 * 4)) small (a % 4) (omega arith))

get_byte-set_other :
    (m : Memory) (a b v : ℕ) → v < 256 → b ≢ a → get_byte (set_byte m a v) b ≡ get_byte m b
unfolding get_byte set_byte
get_byte-set_other m a b v small ne = elim (ℕ_discrete (b / 4 * 4) (a / 4 * 4)) [
  | yes same ↦
      rw (same, ==_true (a / 4 * 4))
        (digit-with_other v (m (a / 4 * 4)) small (b % 4) (omega arith) (a % 4) (omega arith)
          (λ e. ne (omega (arith, e, same))))
  | no other ↦ rw (==_false (b / 4 * 4) (a / 4 * 4) other) refl
]

pub get_byte-memset :
    (m : Memory) (p v n j : ℕ) → v < 256 → j < n → get_byte (memset m p v n) (p + j) ≡ v
unfolding memset
get_byte-memset m p v zero j small less = absurd (omega arith)
get_byte-memset m p v (suc n) j small less = elim (ℕ_discrete j n) [
  | yes same ↦ rw same (get_byte-set_byte (memset m p v n) (p + n) v small)
  | no other ↦
      get_byte-set_other (memset m p v n) (p + n) (p + j) v small (λ e. other (omega (arith, e)))
      ∙ get_byte-memset m p v n j small (omega arith)
]

pub memset-outside :
    (m : Memory) (p v n a : ℕ) → p % 4 ≡ 0 → (a < p) ⊎ (p + n ≤ a) → memset m p v n a ≡ m a
unfolding memset set_byte
memset-outside m p v zero a aligned out = refl
memset-outside m p v (suc n) a aligned (inl below) =
    rw (==_false a ((p + n) / 4 * 4) (omega (arith, aligned, below)))
      (memset-outside m p v n a aligned (inl below))
memset-outside m p v (suc n) a aligned (inr above) =
    rw (==_false a ((p + n) / 4 * 4) (omega (arith, above)))
      (memset-outside m p v n a aligned (inr (omega (arith, above))))

-- Equal words have equal bytes.
pub same_bytes :
    (m m' : Memory) (p q n : ℕ)
    → p % 4 ≡ 0
    → q % 4 ≡ 0
    → ((i : ℕ) → i < n → i % 4 ≡ 0 → m' (q + i) ≡ m (p + i))
    → (j : ℕ) → j < n
    → get_byte m' (q + j) ≡ get_byte m (p + j)
unfolding get_byte
same_bytes m m' p q n even even' same j less =
    let e : (q + j) / 4 * 4 ≡ q + j / 4 * 4 = omega (arith, even') in
    let e' : (p + j) / 4 * 4 ≡ p + j / 4 * 4 = omega (arith, even) in
    let r : (q + j) % 4 ≡ (p + j) % 4 = omega (arith, even, even') in
    rw (e, e', r, same (j / 4 * 4) (omega arith) (omega arith)) refl

-- The last word, of which `left` bytes are copied.
abbrev cut : ℕ → ℕ → ℕ → ℕ
cut x y left = x % 2 ^ (8 * left) + y / 2 ^ (8 * left) * 2 ^ (8 * left)

digit-cut :
    (x y left : ℕ) → left < 4 → (k : ℕ) → k < 4 → k < left → digit k (cut x y left) ≡ digit k x
digit-cut x y left =
    at_place (λ l. (k : ℕ) → k < 4 → k < l → digit k (cut x y l) ≡ digit k x)
      (at_place (λ k. k < 0 → digit k (cut x y 0) ≡ digit k x) (λ less. omega arith)
        (λ less. omega arith) (λ less. omega arith) (λ less. omega arith))
      (at_place (λ k. k < 1 → digit k (cut x y 1) ≡ digit k x) (λ less. omega arith)
        (λ less. omega arith) (λ less. omega arith) (λ less. omega arith))
      (at_place (λ k. k < 2 → digit k (cut x y 2) ≡ digit k x) (λ less. omega arith)
        (λ less. omega arith) (λ less. omega arith) (λ less. omega arith))
      (at_place (λ k. k < 3 → digit k (cut x y 3) ≡ digit k x) (λ less. omega arith)
        (λ less. omega arith) (λ less. omega arith) (λ less. omega arith))
      left

-- `memcpy` copies bytes, in the last word as well.
pub get_byte-memcpy :
    (m : Memory) (dst src n j : ℕ)
    → dst % 4 ≡ 0
    → src % 4 ≡ 0
    → j < n
    → get_byte (memcpy m dst src n) (dst + j) ≡ get_byte m (src + j)
unfolding get_byte
get_byte-memcpy m dst src n j even even' less =
    let i = j / 4 * 4 in
    let key : (dst + j) / 4 * 4 ≡ dst + i = omega (arith, even) in
    let key' : (src + j) / 4 * 4 ≡ src + i = omega (arith, even') in
    let low : ltb (dst + i) dst ≡ false = ground arith in
    let high : leb (dst + n) (dst + i) ≡ false = ground (arith, less) in
    let offset : src + (dst + i - dst) ≡ src + i = omega arith in
    let left : dst + n - (dst + i) ≡ n - i = omega arith in
    let place : (dst + j) % 4 ≡ j % 4 = omega (arith, even) in
    let place' : (src + j) % 4 ≡ j % 4 = omega (arith, even') in
    elim (Bool-cases (leb 4 (n - i))) [
      | inl whole ↦ rw (key, key', place, place', low, high, offset, left, whole) refl
      | inr part ↦
          rw (key, key', place, place', low, high, offset, left, part)
            (digit-cut (m (src + i)) (m (dst + i)) (n - i) (ground (arith, part)) (j % 4)
              (omega arith) (omega (arith, less)))
    ]
