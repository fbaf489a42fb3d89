-- ===== src/Malloc/Driver/Valid.antt =====
-- `eval_mm_valid` of malloclab-handout/mdriver.c, for an allocator with the laws.
use mathlib.Core.Path.{subst}
use cmu_ics.Prelude.{All, ℕ, ◌≤◌, ◌≡◌, refl, sym, ap, ◌∙◌, inl, inr, List, [], ◌∷◌, arith}
use cmu_ics.Malloc.Driver.{Allocator, TraceOp, Driver, valid, carry_on, eval_ops, eval_mm_valid}
use cmu_ics.Malloc.Driver.Laws.{IsLawful}
use cmu_ics.Malloc.Driver.Step.{Live, IsRunning}
use cmu_ics.Malloc.Driver.Legal.{Below, Below-Asked, price-Asked, Legal, Fair, total_price, indices}
use cmu_ics.Malloc.Driver.Advance.{op-Advances}

module _ (A : Allocator) (L : IsLawful A) where
  eval_ops-Fair :
      (ops : List TraceOp) (d : Driver A) (ls : List Live)
      → IsRunning A L d ls
      → Legal ops (indices ls)
      → All (λ op. Below L.limit op.type op.size) ops
      → Fair (eval_ops A ops d)
  unfolding eval_ops
  eval_ops-Fair [] d ls v legal sizes = tt
  eval_ops-Fair (op ∷ ops) d ls v legal sizes =
      elim (op-Advances A L d ls op (Legal ops) v legal
        (Below-Asked L.limit L.cost (L.room d.state) op.type op.size sizes.0)) [
          | inl (verdict, e, fair, full) ↦
              subst (λ r. Fair (carry_on A (eval_ops A ops) r)) (sym e) fair
          | inr (d', ls', e, v', legal', left) ↦
              subst (λ r. Fair (carry_on A (eval_ops A ops) r)) (sym e)
                (eval_ops-Fair ops d' ls' v' legal' sizes.1)
        ]

  eval_ops-valid :
      (ops : List TraceOp) (d : Driver A) (ls : List Live)
      → IsRunning A L d ls
      → Legal ops (indices ls)
      → total_price L.cost ops ≤ L.room d.state
      → eval_ops A ops d ≡ valid
  unfolding eval_ops
  eval_ops-valid [] d ls v legal enough = refl
  eval_ops-valid (op ∷ ops) d ls v legal enough =
      elim (op-Advances A L d ls op (Legal ops) v legal
        (price-Asked L.limit L.cost (L.room d.state) op.type op.size (omega (arith, enough)))) [
          | inl (verdict, e, fair, full) ↦ absurd (omega (arith, full, enough))
          | inr (d', ls', e, v', legal', left) ↦
              ap (carry_on A (eval_ops A ops)) e
              ∙ eval_ops-valid ops d' ls' v' legal' (omega (arith, left, enough))
        ]

  module _ (s : A.State) (ops : List TraceOp) (blocks block_sizes : ℕ → ℕ) (ready : L.Ready s)
      (legal : Legal ops []) where
    abbrev start_of : A.State → Driver A
    start_of s = record { state = s; ranges = []; blocks = blocks; block_sizes = block_sizes }

    init_lem :
        eval_mm_valid A s ops blocks block_sizes
        ≡ eval_ops A ops (start_of (A.mm_init (A.mem_reset_brk s)).1)
    unfolding eval_mm_valid
    init_lem = rw ((L.owned-init s ready).0) refl

    start-IsRunning : IsRunning A L (start_of (A.mm_init (A.mem_reset_brk s)).1) []
    start-IsRunning = record { owned = (L.owned-init s ready).1; listed = refl; remembered = tt }

    -- For an allocator with the laws, ready to be set up, and a legal trace whose sizes are below the limit of the
    -- laws, `eval_mm_valid` finds no fault:
    -- it accepts the trace, or ends because `mm_malloc` or `mm_realloc` reports that it failed.
    pub eval_mm_valid-Fair :
        All (λ op. Below L.limit op.type op.size) ops
        → Fair (eval_mm_valid A s ops blocks block_sizes)
    eval_mm_valid-Fair sizes = subst Fair (sym init_lem) (
        eval_ops-Fair ops (start_of (A.mm_init (A.mem_reset_brk s)).1) [] start-IsRunning legal
          sizes)

    -- It accepts the trace when all of its allocations fit into the room.
    pub eval_mm_valid-valid :
        total_price L.cost ops ≤ L.room (A.mm_init (A.mem_reset_brk s)).1
        → eval_mm_valid A s ops blocks block_sizes ≡ valid
    eval_mm_valid-valid enough =
        init_lem
        ∙ eval_ops-valid ops (start_of (A.mm_init (A.mem_reset_brk s)).1) [] start-IsRunning legal
            enough
