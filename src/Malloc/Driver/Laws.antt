-- ===== src/Malloc/Driver/Laws.antt =====
-- What the driver of malloclab-handout/mdriver.c may ask of an allocator: an interface that is stated on the
-- payloads that were asked for, newest first, whatever the heap looks like.
use cmu_ics.Prelude.{ℕ, ◌+◌, ◌%◌, ◌≤◌, ◌<◌, ◌≡◌, ◌≢◌, ◌⊎◌, List, [], ◌∷◌, ◌++◌, true, All}
use cmu_ics.Word.{half}
use cmu_ics.Malloc.Driver.{Allocator}

-- Addresses and sizes.
abbrev pub Payloads : Type 0
Payloads = List (ℕ × ℕ)

-- The payload at `p` has no byte in common with another, which is not empty.
abbrev pub Clear : ℕ → ℕ → ℕ × ℕ → Type 0
Clear p n (q, k) = (0 < k) × ((p + n ≤ q) ⊎ (q + k ≤ p))

module _ (A : Allocator) where
  abbrev pub SameBytes : A.State → A.State → ℕ → ℕ → Type 0
  SameBytes s s' p n = (j : ℕ) → j < n → A.get_byte s' (p + j) ≡ A.get_byte s (p + j)

  -- The contents of the payloads are the same.
  abbrev pub Preserves : A.State → A.State → Payloads → Type 0
  Preserves s s' = All (λ b. SameBytes s s' b.0 b.1)

  pub record IsLawful : Type 1 where
    -- What holds before the allocator is set up, and which payloads are in use from then on.
    pub Ready : A.State → Type 0
    pub Owned : A.State → Payloads → Type 0
    -- The room that is left for payloads, and what a payload of a size takes of it at most.
    pub room : A.State → ℕ
    pub cost : ℕ → ℕ
    -- From this size on, the laws speak of requests that fit into the room only.
    pub limit : ℕ
    pub owned-init :
        (s : A.State)
        → Ready s
        → let (ok, s') = A.mm_init (A.mem_reset_brk s) in (ok ≡ true) × Owned s' []
    pub owned-front :
        (s : A.State) (xs : Payloads) (b : ℕ × ℕ) (ys : Payloads)
        → Owned s (xs ++ (b ∷ ys))
        → Owned s (b ∷ (xs ++ ys))
    pub placed :
        (s : A.State) (p n : ℕ) (bs : Payloads)
        → Owned s ((p, n) ∷ bs)
        → (p % 8 ≡ 0)
          × (A.mem_heap_lo s ≤ p)
          × (p + n ≤ A.mem_heap_hi s + 1)
          × (0 < n)
          × (n < half)
          × All (Clear p n) bs
    pub malloc-law :
        (s : A.State) (bs : Payloads) (size : ℕ)
        → Owned s bs
        → 0 < size
        → size + 15 < half
        → (size + 15 < limit) ⊎ (cost size ≤ room s)
        → let (p, s') = A.mm_malloc s size in p ≢ 0 → Owned s' ((p, size) ∷ bs) × Preserves s s' bs
    pub malloc-room :
        (s : A.State) (bs : Payloads) (size : ℕ)
        → Owned s bs
        → 0 < size
        → size + 15 < half
        → (size + 15 < limit) ⊎ (cost size ≤ room s)
        → let (p, s') = A.mm_malloc s size in
          (p ≡ 0 → room s < cost size) × (room s ≤ room s' + cost size)
    pub realloc-law :
        (s : A.State) (bs : Payloads) (p n size : ℕ)
        → Owned s ((p, n) ∷ bs)
        → 0 < size
        → size + 15 < half
        → (size + 15 < limit) ⊎ (cost size ≤ room s)
        → let (q, s') = A.mm_realloc s p size in
          q ≢ 0
          → Owned s' ((q, size) ∷ bs)
            × Preserves s s' bs
            × ((j : ℕ) → j < n → j < size → A.get_byte s' (q + j) ≡ A.get_byte s (p + j))
    pub realloc-room :
        (s : A.State) (bs : Payloads) (p n size : ℕ)
        → Owned s ((p, n) ∷ bs)
        → 0 < size
        → size + 15 < half
        → (size + 15 < limit) ⊎ (cost size ≤ room s)
        → let (q, s') = A.mm_realloc s p size in
          (q ≡ 0 → room s < cost size) × (room s ≤ room s' + cost size)
    pub free-room :
        (s : A.State) (bs : Payloads) (p n : ℕ)
        → Owned s ((p, n) ∷ bs)
        → room s ≤ room (A.mm_free s p)
    pub memset-room : (s : A.State) (p n v : ℕ) → room s ≤ room (A.memset s p v n)
    pub free-law :
        (s : A.State) (bs : Payloads) (p n : ℕ)
        → Owned s ((p, n) ∷ bs)
        → Owned (A.mm_free s p) bs × Preserves s (A.mm_free s p) bs
    pub memset-law :
        (s : A.State) (bs : Payloads) (p n v : ℕ)
        → Owned s ((p, n) ∷ bs)
        → v < 256
        → let s' = A.memset s p v n in
          Owned s' ((p, n) ∷ bs) × Preserves s s' bs × ((j : ℕ) → j < n → A.get_byte s' (p + j) ≡ v)
