-- ===== src/Bootcamp/Queue/Tests.antt =====
-- A queue of cbootcamp/extras/ref-queue.c with two entries.
use cmu_ics.Prelude.{◌≡◌, refl, none, some, [], ◌∷◌, ◌++◌, ◌==◌, if◌then◌else◌, arith}
use cmu_ics.Bootcamp.Queue.{Nodes, Queue, done, enqueue, find_object}
use cmu_ics.Bootcamp.Queue.Chain.{Cells, Entry, node, IsQueue}
use cmu_ics.Bootcamp.Queue.Fifo.{
  entry, enqueue-IsQueue, Dequeued, dequeue-Dequeued, Found, find_object-Found,
}

abbrev a : Entry
a = record { id = 97 ∷ []; bytes = 1 ∷ 2 ∷ [] }

abbrev b : Entry
b = record { id = 98 ∷ []; bytes = 3 ∷ [] }

abbrev nodes : Nodes
nodes p = if p == 16 then some (node a 0 32) else if p == 32 then some (node b 16 0) else none

abbrev two : Queue
two = record { nodes = nodes; head = 16; tail = 32 }

abbrev cells : Cells
cells = (16, a) ∷ (32, b) ∷ []

two-IsQueue : IsQueue two cells
two-IsQueue = record {
  chain = (omega arith, refl, (omega arith, refl, tt));
  head_at = refl;
  tail_at = refl;
  distinct = ((omega arith, tt), (tt, tt));
}

enqueue-IsQueue_example :
    (q' : Queue) × (enqueue (some two) 48 (99 ∷ []) (4 ∷ 5 ∷ 6 ∷ []) 2 ≡ done q')
    × IsQueue q' (cells ++ ((48, entry (99 ∷ []) (4 ∷ 5 ∷ 6 ∷ []) 2) ∷ []))
enqueue-IsQueue_example =
    enqueue-IsQueue two 48 (99 ∷ []) (4 ∷ 5 ∷ 6 ∷ []) 2 (omega arith) refl (omega arith) cells
      two-IsQueue

dequeue-Dequeued_example : Dequeued two 2 cells
dequeue-Dequeued_example = dequeue-Dequeued two 2 cells two-IsQueue

find_object-Found_example : Found (98 ∷ []) cells (find_object 2 (some two) (98 ∷ []))
find_object-Found_example = find_object-Found 2 two (98 ∷ []) cells two-IsQueue (omega arith)
