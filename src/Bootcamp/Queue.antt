-- ===== src/Bootcamp/Queue.antt =====
-- The linked queue of cbootcamp/extras/ref-queue.c. Memory is the nodes that are allocated, by their addresses; an
-- access to any other address is a fault. An address that `malloc` returns is an argument.
pub mod Chain
pub mod Fifo
mod Tests
use cmu_ics.Prelude.{
  ℕ, zero, suc, Option, none, some, List, [], ◌∷◌, Bool, true, false, not, ◌&&◌, ◌||◌, ltb, ◌==◌,
  if◌then◌else◌, take, length,
}

-- `node`, with the strings that `id` and `data` point to, which it owns.
pub record Node : Type 0 where
  pub id : List ℕ
  pub data_bytes : List ℕ
  pub next : ℕ
  pub prev : ℕ
  pub len : ℕ

abbrev pub Nodes : Type 0
Nodes = ℕ → Option Node

-- The two boundaries, which point to each other: the `queue_pointer` of each.
pub record Queue : Type 0 where
  pub nodes : Nodes
  pub head : ℕ
  pub tail : ℕ

-- How a function ends: with a fault, with the result -1, or with another one.
pub data Outcome {ℓ} (A : Type ℓ) : Type ℓ where
  fault : Outcome A
  error : Outcome A
  done : A → Outcome A
  unfinished : Outcome A

-- `*p`
abbrev pub lookup : Nodes → ℕ → Option Node
lookup nodes p = if p == 0 then none else nodes p

abbrev pub opened {ℓ} : {A : Type ℓ} → (Node → Outcome A) → Option Node → Outcome A
opened f none = fault
opened f (some n) = f n

abbrev pub put : ℕ → Option Node → Nodes → Nodes
put p n nodes q = if q == p then n else nodes q

unfoldable pub init_queue : Nodes → Queue
init_queue nodes = record { nodes = nodes; head = 0; tail = 0 }

-- The loop of `find_object` from `rover` on; `fuel` bounds its rounds.
unfoldable pub find_loop : ℕ → Nodes → ℕ → (List ℕ → Bool) → Outcome ℕ
find_loop zero nodes rover same = if rover == 0 then done 0 else unfinished
find_loop (suc fuel) nodes rover same =
    if rover == 0
    then done 0
    else opened (λ n. if same n.id then done rover else find_loop fuel nodes n.next same)
        (lookup nodes rover)

-- `strcmp(a, b) == 0`
unfoldable pub same_text : List ℕ → List ℕ → Bool
same_text [] [] = true
same_text [] (y ∷ ys) = false
same_text (x ∷ xs) [] = false
same_text (x ∷ xs) (y ∷ ys) = x == y && same_text xs ys

-- The `head` of the functions is NULL or a queue.
unfoldable pub find_object : ℕ → Option Queue → List ℕ → Outcome ℕ
unfolding find_loop same_text
find_object fuel none id = done 0
find_object fuel (some q) id = find_loop fuel q.nodes q.head (λ t. same_text t id)

-- `add_node` of the node at `new`.
unfoldable pub add_node : Queue → ℕ → Node → Outcome Queue
add_node q new n =
    opened
      (λ last. done (record {
        nodes =
            put new (some (record n { prev = q.tail; next = 0 }))
              (put q.tail (some (record last { next = new })) q.nodes);
        head = q.head;
        tail = new;
      }))
      (lookup q.nodes q.tail)

-- A node for `id` and the first `size` bytes of `data`, whose links are still to be set.
abbrev pub new_node : List ℕ → List ℕ → ℕ → Node
new_node id data_bytes size = record {
  id = id;
  data_bytes = take size data_bytes;
  next = 0;
  prev = 0;
  len = size;
}

-- `bytes` are those from `data` on, and `new` is what `malloc` returns for the node, which is not tested.
unfoldable pub enqueue : Option Queue → ℕ → List ℕ → List ℕ → ℕ → Outcome Queue
unfolding add_node
enqueue none new id bytes size = error
enqueue (some q) new id bytes size =
    if new == 0 || ltb (length bytes) size
    then fault
    else if not (q.head == 0)
    then add_node q new (new_node id bytes size)
    else done
        (record { nodes = put new (some (new_node id bytes size)) q.nodes; head = new; tail = new })

-- The queue without its first node `n`, at `p`, which is then freed.
unfoldable pub unlink : Queue → ℕ → Node → Outcome Queue
unlink q p n =
    if not (n.next == 0)
    then opened
        (λ second. done (record {
          nodes = put p none (put n.next (some (record second { prev = 0 })) q.nodes);
          head = n.next;
          tail = q.tail;
        }))
        (lookup q.nodes n.next)
    else done (record { nodes = put p none q.nodes; head = 0; tail = 0 })

-- What is written to `return_data`, with the queue.
abbrev pub returned : List ℕ → Outcome Queue → Outcome (List ℕ × Queue)
returned bytes fault = fault
returned bytes error = error
returned bytes (done q) = done (bytes, q)
returned bytes unfinished = unfinished

unfoldable pub dequeue : Option Queue → ℕ → Outcome (List ℕ × Queue)
unfolding unlink
dequeue none size = fault
dequeue (some q) size =
    opened
      (λ n.
        if ltb size n.len then error else returned (take n.len n.data_bytes) (unlink q q.head n))
      (lookup q.nodes q.head)
