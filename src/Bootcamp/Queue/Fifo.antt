-- ===== src/Bootcamp/Queue/Fifo.antt =====
-- The operations of cbootcamp/extras/ref-queue.c on the list of entries that a queue holds.
use mathlib.Core.Path.{subst, ap₂}
use cmu_ics.Prelude.{
  ℕ, zero, suc, ◌≤◌, ◌<◌, ◌≡◌, ◌≢◌, ◌↔◌, refl, sym, ap, ◌∙◌, ◌⊎◌, inl, inr, none, some, List, [],
  ◌∷◌, ◌++◌, true, false, not, ◌||◌, ltb, ◌==◌, ==_true, ==_false, Bool-cases, take, length, All,
  arith,
}
use cmu_ics.Prelude.{length-take}
use cmu_ics.Bootcamp.Queue.{
  Node, Nodes, Queue, Outcome, fault, error, done, lookup, put, init_queue, find_loop, same_text,
  find_object, add_node, new_node, enqueue, unlink, returned, dequeue,
}
use cmu_ics.Bootcamp.Queue.Chain.{
  Entry, Cells, first_of, last_of, node, Chain, IsQueue, put-same, put-other, lookup-some,
  Chain-frame, Absent-none, last-node, before, unwritten, Chain-append, last_of-append,
  Distinct-append,
}

-- The entry that `enqueue` makes.
abbrev pub entry : List ℕ → List ℕ → ℕ → Entry
entry id bytes size = record { id = id; bytes = take size bytes }

module _ (q : Queue) (new : ℕ) (id bytes : List ℕ) (size : ℕ) (fresh : new ≢ 0)
    (out : q.nodes new ≡ none) (enough : size ≤ length bytes) where
  abbrev added : Outcome Queue
  added = enqueue (some q) new id bytes size

  abbrev linked : ℕ → Node
  linked pre = record (new_node id bytes size) { prev = pre; next = 0 }

  linked_lem : (pre : ℕ) → linked pre ≡ node (entry id bytes size) pre 0
  linked_lem pre =
      let e : size ≡ length (take size bytes) = omega (arith, length-take size bytes, enough) in
      ap (λ n. record (linked pre) { len = n }) e

  allowed : (new == 0 || ltb (length bytes) size) ≡ false
  allowed = ground (arith, fresh, enough)

  add_node-done :
      (n : Node)
      → q.tail ≢ 0
      → q.nodes q.tail ≡ some n
      → add_node q new (new_node id bytes size)
        ≡ done (record {
          nodes = put new (some (linked q.tail)) (put q.tail (some (before n new)) q.nodes);
          head = q.head;
          tail = new;
        })
  unfolding add_node
  add_node-done n pos found = rw (==_false q.tail 0 pos, found) refl

  -- `enqueue` of an entry puts it behind all others, when `malloc` returns an address with no node and `data` has the
  -- `size` bytes.
  pub enqueue-IsQueue :
      (cs : Cells)
      → IsQueue q cs
      → (q' : Queue) × (added ≡ done q') × IsQueue q' (cs ++ ((new, entry id bytes size) ∷ []))
  unfolding enqueue
  enqueue-IsQueue [] v =
      let q' : Queue = record {
        nodes = put new (some (linked 0)) q.nodes;
        head = new;
        tail = new;
      } in
      (
        q',
        rw (allowed, v.head_at) refl,
        record {
          chain = (fresh, put-same new (some (linked 0)) q.nodes ∙ ap some (linked_lem 0), tt);
          head_at = refl;
          tail_at = refl;
          distinct = (tt, tt);
        },
      )
  enqueue-IsQueue (x ∷ cs) v =
      let last = last_of 0 (x ∷ cs) in
      let (pos, n, found) = last-node q.nodes 0 x cs v.chain in
      let e = entry id bytes size in
      let some_node : not (q.head == 0) ≡ true = ground (arith, v.head_at, v.chain.0) in
      let tail_pos : q.tail ≢ 0 = λ z. pos (sym v.tail_at ∙ z) in
      let q' : Queue = record {
        nodes = put new (some (linked q.tail)) (put q.tail (some (before n new)) q.nodes);
        head = q.head;
        tail = new;
      } in
      let chain =
        Chain-append q.nodes 0 x cs n new e v.chain v.distinct
          (Absent-none q.nodes 0 new (x ∷ cs) out v.chain) fresh found in
      (
        q',
        rw (allowed, some_node) (add_node-done n tail_pos (ap q.nodes v.tail_at ∙ found)),
        record {
          chain =
              subst
                (λ l.
                  Chain (put new (some l) (put q.tail (some (before n new)) q.nodes)) 0
                    ((x ∷ cs) ++ ((new, e) ∷ [])))
                (sym (linked_lem q.tail))
                (subst
                  (λ t.
                    Chain (put new (some (node e t 0)) (put t (some (before n new)) q.nodes)) 0
                      ((x ∷ cs) ++ ((new, e) ∷ [])))
                  (sym v.tail_at) chain);
          head_at = v.head_at;
          tail_at = sym (last_of-append 0 (x ∷ cs) (new, e));
          distinct =
              Distinct-append (x ∷ cs) (new, e) v.distinct
                (Absent-none q.nodes 0 new (x ∷ cs) out v.chain);
        },
      )

pub take-all : (xs : List ℕ) → take (length xs) xs ≡ xs
take-all [] = refl
take-all (x ∷ xs) = ap (λ t. x ∷ t) (take-all xs)

module _ (q : Queue) (p : ℕ) (e : Entry) where
  -- `unlink` of the first node.
  unlink-IsQueue :
      (cs : Cells)
      → IsQueue q ((p, e) ∷ cs)
      → (q' : Queue) × (unlink q p (node e 0 (first_of cs)) ≡ done q')
        × IsQueue q' cs
        × (q'.nodes p ≡ none)
  unfolding unlink
  unlink-IsQueue [] v =
      let q' : Queue = record { nodes = put p none q.nodes; head = 0; tail = 0 } in
      (
        q',
        refl,
        record { chain = tt; head_at = refl; tail_at = refl; distinct = tt },
        put-same p none q.nodes,
      )
  unlink-IsQueue (y ∷ cs) v =
      let (pos, at, (y_pos, y_at, c)) = v.chain in
      let ((ne, out), (y_out, d)) = v.distinct in
      let second : Node = node y.1 0 (first_of cs) in
      let nodes = put p none (put y.0 (some second) q.nodes) in
      let q' : Queue = record { nodes = nodes; head = y.0; tail = q.tail } in
      let linked : not (y.0 == 0) ≡ true = ground (arith, y_pos) in
      (
        q',
        rw (linked, ==_false y.0 0 y_pos, y_at) refl,
        record {
          chain = (
            y_pos,
            put-other p y.0 none (put y.0 (some second) q.nodes) ne
                ∙ put-same y.0 (some second) q.nodes,
            Chain-frame q.nodes nodes y.0 cs
                (unwritten q.nodes p y.0 none (some second) cs out y_out) c,
          );
          head_at = refl;
          tail_at = v.tail_at;
          distinct = (y_out, d);
        },
        put-same p none (put y.0 (some second) q.nodes),
      )

-- What `dequeue` with a buffer of `size` bytes does to a queue.
abbrev pub Dequeued : Queue → ℕ → Cells → Type 0
Dequeued q size [] = dequeue (some q) size ≡ fault
Dequeued q size ((p, e) ∷ cs) =
    ((size < length e.bytes) × (dequeue (some q) size ≡ error))
    ⊎ ((length e.bytes ≤ size)
        × (q' : Queue) × (dequeue (some q) size ≡ done (e.bytes, q'))
        × IsQueue q' cs
        × (q'.nodes p ≡ none))

-- `dequeue` faults on an empty queue. Otherwise it returns -1 and changes nothing when the data of the first entry do
-- not fit into the buffer, or else it returns them and leaves the other entries; the node is freed.
pub dequeue-Dequeued : (q : Queue) (size : ℕ) (cs : Cells) → IsQueue q cs → Dequeued q size cs
unfolding dequeue
dequeue-Dequeued q size [] v = rw (v.head_at) refl
dequeue-Dequeued q size ((p, e) ∷ cs) v =
    let (pos, at, c) = v.chain in
    let here : lookup q.nodes q.head ≡ some (node e 0 (first_of cs)) =
      ap (lookup q.nodes) v.head_at ∙ lookup-some q.nodes p pos ∙ at in
    elim (Bool-cases (ltb size (length e.bytes))) [
      | inl short ↦ inl (ground (arith, short), rw (here, short) refl)
      | inr fits ↦
          let (q', result, v', freed) = unlink-IsQueue q p e cs v in
          inr (
            ground (arith, fits),
            q',
            rw (here, fits)
                (ap
                    (λ t.
                      returned (take (length e.bytes) e.bytes)
                        (unlink q t (node e 0 (first_of cs))))
                    v.head_at
                  ∙ ap (returned (take (length e.bytes) e.bytes)) result
                  ∙ ap (λ t. done (t, q')) (take-all e.bytes)),
            v',
            freed,
          )
    ]

same_text_iff : (xs ys : List ℕ) → (same_text xs ys ≡ true) ↔ (xs ≡ ys)
unfolding same_text
same_text_iff [] [] = ((λ e. refl), (λ e. refl))
same_text_iff [] (y ∷ ys) = ((λ e. absurd (cc)), (λ e. absurd (cc)))
same_text_iff (x ∷ xs) [] = ((λ e. absurd (cc)), (λ e. absurd (cc)))
same_text_iff (x ∷ xs) (y ∷ ys) = (
  (λ e. ap₂ ◌∷◌ (ground (arith, e)) ((same_text_iff xs ys).0 (ground (arith, e)))),
  (λ e.
      let tail = (same_text_iff xs ys).1 (ground (arith, e)) in
      let head : x ≡ y = ground (arith, e) in rw (head, ==_true y) tail),
)

-- The first cell with an id, or none.
abbrev pub Found : List ℕ → Cells → Outcome ℕ → Type 0
Found id cs r =
    ((xs : Cells) × (p : ℕ) × (e : Entry) × (ys : Cells) × (cs ≡ xs ++ ((p, e) ∷ ys))
      × (e.id ≡ id)
      × All (λ c. c.1.id ≢ id) xs
      × (r ≡ done p))
    ⊎ (All (λ c. c.1.id ≢ id) cs × (r ≡ done 0))

find_loop-Found :
    (fuel : ℕ) (nodes : Nodes) (pre : ℕ) (id : List ℕ) (cs : Cells)
    → Chain nodes pre cs
    → length cs ≤ fuel
    → Found id cs (find_loop fuel nodes (first_of cs) (λ t. same_text t id))
unfolding find_loop
find_loop-Found zero nodes pre id [] c enough = inr (tt, refl)
find_loop-Found (suc fuel) nodes pre id [] c enough = inr (tt, refl)
find_loop-Found zero nodes pre id (x ∷ cs) c enough = absurd (omega (arith, enough))
find_loop-Found (suc fuel) nodes pre id (x ∷ cs) (pos, at, c) enough =
    let here = lookup-some nodes x.0 pos ∙ at in
    elim (Bool-cases (same_text x.1.id id)) [
      | inl same ↦ inl (
        [],
        x.0,
        x.1,
        cs,
        refl,
        (same_text_iff x.1.id id).0 same,
        tt,
        rw (==_false x.0 0 pos, at, same) refl,
      )
      | inr other ↦
          let differs : x.1.id ≢ id =
            λ e. absurd (cc (sym other ∙ (same_text_iff x.1.id id).1 e)) in
          let step : find_loop (suc fuel) nodes x.0 (λ t. same_text t id)
              ≡ find_loop fuel nodes (first_of cs) (λ t. same_text t id) =
            rw (==_false x.0 0 pos, at, other) refl in
          elim (find_loop-Found fuel nodes x.0 id cs c (omega (arith, enough))) [
            | inl (xs, p, e, ys, parts, same, others, r) ↦
                inl (x ∷ xs, p, e, ys, ap (λ t. x ∷ t) parts, same, (differs, others), step ∙ r)
            | inr (others, r) ↦ inr ((differs, others), step ∙ r)
          ]
    ]

-- `find_object` returns the node of the first entry with the id, or NULL when there is none; as many rounds as the
-- queue has entries are enough.
pub find_object-Found :
    (fuel : ℕ) (q : Queue) (id : List ℕ) (cs : Cells)
    → IsQueue q cs
    → length cs ≤ fuel
    → Found id cs (find_object fuel (some q) id)
unfolding find_object
find_object-Found fuel q id cs v enough =
    subst (λ t. Found id cs (find_loop fuel q.nodes t (λ t. same_text t id))) (sym v.head_at)
      (find_loop-Found fuel q.nodes 0 id cs v.chain enough)

-- A new queue is empty.
pub init_queue-IsQueue : (nodes : Nodes) → IsQueue (init_queue nodes) []
unfolding init_queue
init_queue-IsQueue nodes = record { chain = tt; head_at = refl; tail_at = refl; distinct = tt }
