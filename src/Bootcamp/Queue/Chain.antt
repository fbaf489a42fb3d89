-- ===== src/Bootcamp/Queue/Chain.antt =====
-- The nodes of a queue of cbootcamp/extras/ref-queue.c as a list of entries.
use cmu_ics.Prelude.{
  ℕ, ◌≡◌, ◌≢◌, refl, sym, ap, ◌∙◌, Option, none, some, List, [], ◌∷◌, ◌++◌, ==_true, ==_false,
  length, All, arith,
}
use cmu_ics.Bootcamp.Queue.{Node, Nodes, Queue, lookup, put}

-- What a node holds for its user.
pub record Entry : Type 0 where
  pub id : List ℕ
  pub bytes : List ℕ

-- Entries with the addresses of their nodes.
abbrev pub Cells : Type 0
Cells = List (ℕ × Entry)

abbrev pub first_of : Cells → ℕ
first_of [] = 0
first_of (c ∷ cs) = c.0

abbrev pub last_of : ℕ → Cells → ℕ
last_of pre [] = pre
last_of pre (c ∷ cs) = last_of c.0 cs

abbrev pub node : Entry → ℕ → ℕ → Node
node e pre next = record {
  id = e.id;
  data_bytes = e.bytes;
  next = next;
  prev = pre;
  len = length e.bytes;
}

-- The cells are linked both ways, with `pre` before the first.
abbrev pub Chain : Nodes → ℕ → Cells → Type 0
Chain nodes pre [] = Unit {0}
Chain nodes pre ((p, e) ∷ cs) =
    (p ≢ 0) × (nodes p ≡ some (node e pre (first_of cs))) × Chain nodes p cs

-- No cell has the address `q`.
abbrev pub Absent : ℕ → Cells → Type 0
Absent q = All (λ c. c.0 ≢ q)

abbrev pub Distinct : Cells → Type 0
Distinct [] = Unit {0}
Distinct (c ∷ cs) = Absent c.0 cs × Distinct cs

-- The queue holds these cells, first to last.
pub record IsQueue (q : Queue) (cs : Cells) : Type 0 where
  pub chain : Chain q.nodes 0 cs
  pub head_at : q.head ≡ first_of cs
  pub tail_at : q.tail ≡ last_of 0 cs
  pub distinct : Distinct cs

pub put-same : (p : ℕ) (n : Option Node) (nodes : Nodes) → put p n nodes p ≡ n
put-same p n nodes = rw (==_true p) refl

pub put-other : (p q : ℕ) (n : Option Node) (nodes : Nodes) → q ≢ p → put p n nodes q ≡ nodes q
put-other p q n nodes ne = rw (==_false q p ne) refl

pub lookup-some : (nodes : Nodes) (p : ℕ) → p ≢ 0 → lookup nodes p ≡ nodes p
lookup-some nodes p ne = rw (==_false p 0 ne) refl

-- What is not written stays linked.
pub Chain-frame :
    (nodes nodes' : Nodes) (pre : ℕ) (cs : Cells)
    → All (λ c. nodes' c.0 ≡ nodes c.0) cs
    → Chain nodes pre cs
    → Chain nodes' pre cs
Chain-frame nodes nodes' pre [] same c = tt
Chain-frame nodes nodes' pre (x ∷ cs) (here, same) (pos, at, c) =
    (pos, here ∙ at, Chain-frame nodes nodes' x.0 cs same c)

-- An address with no node is none of a cell.
pub Absent-none :
    (nodes : Nodes) (pre new : ℕ) (cs : Cells)
    → nodes new ≡ none
    → Chain nodes pre cs
    → Absent new cs
Absent-none nodes pre new [] out c = tt
Absent-none nodes pre new (x ∷ cs) out (pos, at, c) =
    ((λ e. absurd (cc (sym at ∙ ap nodes e ∙ out))), Absent-none nodes x.0 new cs out c)

-- The last node.
pub last-node :
    (nodes : Nodes) (pre : ℕ) (x : ℕ × Entry) (cs : Cells)
    → Chain nodes pre (x ∷ cs)
    → (last_of pre (x ∷ cs) ≢ 0) × (n : Node) × (nodes (last_of pre (x ∷ cs)) ≡ some n)
last-node nodes pre x [] (pos, at, c) = (pos, node x.1 pre 0, at)
last-node nodes pre x (y ∷ cs) (pos, at, c) = last-node nodes x.0 y cs c

-- The last address is that of a cell.
last_of-other :
    (pre q : ℕ) (x : ℕ × Entry) (cs : Cells) → Absent q (x ∷ cs) → last_of pre (x ∷ cs) ≢ q
last_of-other pre q x [] (ne, a) = ne
last_of-other pre q x (y ∷ cs) (ne, a) = last_of-other x.0 q y cs a

-- A node with another link forwards.
abbrev pub before : Node → ℕ → Node
before n new = record n { next = new }

-- A cell linked behind the last.
pub Chain-append :
    (nodes : Nodes) (pre : ℕ) (x : ℕ × Entry) (cs : Cells) (n : Node) (new : ℕ) (e : Entry)
    → Chain nodes pre (x ∷ cs)
    → Distinct (x ∷ cs)
    → Absent new (x ∷ cs)
    → new ≢ 0
    → nodes (last_of pre (x ∷ cs)) ≡ some n
    → let last = last_of pre (x ∷ cs) in
      Chain
        (put new (some (node e last 0)) (put last (some (before n new)) nodes))
        pre
        ((x ∷ cs) ++ ((new, e) ∷ []))
Chain-append nodes pre x [] n new e (pos, at, c) d (ne, a) fresh found =
    let same : n ≡ node x.1 pre 0 = ground (arith, sym found ∙ at) in
    (
      pos,
      put-other new x.0 (some (node e x.0 0)) (put x.0 (some (before n new)) nodes) ne
          ∙ put-same x.0 (some (before n new)) nodes
          ∙ ap (λ n. some (before n new)) same,
      (fresh, put-same new (some (node e x.0 0)) (put x.0 (some (before n new)) nodes), tt),
    )
Chain-append nodes pre x (y ∷ cs) n new e (pos, at, c) (out, d) (ne, a) fresh found =
    let last = last_of x.0 (y ∷ cs) in
    (
      pos,
      put-other new x.0 (some (node e last 0)) (put last (some (before n new)) nodes) ne
          ∙ put-other last x.0 (some (before n new)) nodes
              (λ same. last_of-other x.0 x.0 y cs out (sym same))
          ∙ at,
      Chain-append nodes x.0 y cs n new e c d a fresh found,
    )

pub last_of-append : (pre : ℕ) (cs : Cells) (c : ℕ × Entry) → last_of pre (cs ++ (c ∷ [])) ≡ c.0
last_of-append pre [] c = refl
last_of-append pre (x ∷ cs) c = last_of-append x.0 cs c

Absent-append :
    (q : ℕ) (cs : Cells) (c : ℕ × Entry) → Absent q cs → c.0 ≢ q → Absent q (cs ++ (c ∷ []))
Absent-append q [] c a ne = (ne, tt)
Absent-append q (x ∷ cs) c (here, a) ne = (here, Absent-append q cs c a ne)

pub Distinct-append :
    (cs : Cells) (c : ℕ × Entry) → Distinct cs → Absent c.0 cs → Distinct (cs ++ (c ∷ []))
Distinct-append [] c d a = (tt, tt)
Distinct-append (x ∷ cs) c (out, d) (ne, a) =
    (Absent-append x.0 cs c out (λ e. ne (sym e)), Distinct-append cs c d a)

-- Writes to two other addresses.
pub unwritten :
    (nodes : Nodes) (p r : ℕ) (n m : Option Node) (cs : Cells)
    → Absent p cs
    → Absent r cs
    → All (λ c. put p n (put r m nodes) c.0 ≡ nodes c.0) cs
unwritten nodes p r n m [] out out' = tt
unwritten nodes p r n m (c ∷ cs) (ne, out) (ne', out') = (
  put-other p c.0 n (put r m nodes) ne ∙ put-other r c.0 m nodes ne',
  unwritten nodes p r n m cs out out',
)
