-- ===== src/Proxy/Queue.antt =====
-- The queue of connections of proxylab-handout/proxy.c. The mutex makes each call one step; a call that
-- waits on the condition is a step that is not enabled.
pub mod Fifo
use cmu_ics.Prelude.{
  ℕ, ◌+◌, ◌-◌, ◌%◌, ◌≡◌, Option, none, some, List, [], ◌∷◌, ◌++◌, leb, ◌==◌, if◌then◌else◌, get_or,
  set,
}

pub record Queue : Type 0 where
  pub buf : List ℕ
  pub front : ℕ
  pub rear : ℕ
  pub cap : ℕ
  pub size : ℕ

-- `storage` is what `Malloc` returns.
abbrev pub queue_init : ℕ → List ℕ → Queue
queue_init cap storage = record { buf = storage; front = 0; rear = 0; cap = cap; size = 0 }

-- `none` while the caller waits for a place.
unfoldable pub queue_push : Queue → ℕ → Option Queue
queue_push q fd =
    if leb q.cap q.size
    then none
    else some (record q {
      buf = set q.buf (q.rear % q.cap) fd;
      size = q.size + 1;
      rear = (q.rear + 1) % q.cap;
    })

-- `none` while the caller waits for a connection.
unfoldable pub queue_pop : Queue → Option (ℕ × Queue)
queue_pop q =
    if q.size == 0
    then none
    else some (
      get_or q.buf (q.front % q.cap) 0,
      record q { size = q.size - 1; front = (q.front + 1) % q.cap },
    )

-- The threads' calls that return, in the order in which they hold the mutex: from a queue, with the
-- descriptors accepted so far and those handled so far.
pub data Step : Queue × List ℕ × List ℕ → Queue × List ℕ × List ℕ → Type 0 where
  main_pushes :
      (q q' : Queue) (fd : ℕ) (ins outs : List ℕ)
      → queue_push q fd ≡ some q'
      → Step (q, ins, outs) (q', ins ++ (fd ∷ []), outs)
  client_pops :
      (q q' : Queue) (fd : ℕ) (ins outs : List ℕ)
      → queue_pop q ≡ some (fd, q')
      → Step (q, ins, outs) (q', ins, outs ++ (fd ∷ []))
