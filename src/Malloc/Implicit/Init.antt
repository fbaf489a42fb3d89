-- ===== src/Malloc/Implicit/Init.antt =====
-- `mm_init` of malloclab-handout/mm_blk.c.
use mathlib.Core.Path.{subst}
use cmu_ics.Prelude.{
  ◌+◌, ◌%◌, ◌≤◌, ◌<◌, ◌≡◌, refl, sym, ap, ◌∙◌, inl, inr, none, some, List, [], ◌∷◌, ◌++◌, false,
  ◌==◌, ==_false, if◌then◌else◌, arith,
}
use cmu_ics.Word.{word}
use cmu_ics.Malloc.Memory.{Heap, store}
use cmu_ics.Malloc.Tags.{pack}
use cmu_ics.Malloc.Tiles.{Block, block}
use cmu_ics.Malloc.Extents.{extents}
use cmu_ics.Malloc.Implicit.{extend_heap, mm_init, chunksize}
use cmu_ics.Malloc.Implicit.Free.{IsHeap}
use cmu_ics.Malloc.Implicit.{tag_prologue}
use cmu_ics.Malloc.Implicit.Extend.{extend_heap-Extended, mem_sbrk-room}

module _ (h : Heap) (aligned : h.mem_brk % 8 ≡ 0)
    (space : h.mem_brk + 16 + chunksize ≤ h.mem_max_addr) (small : h.mem_max_addr < word) where
  -- The heap before the first extension.
  abbrev first_words : Heap
  first_words = record h {
    mem_brk = h.mem_brk + 16;
    mem =
        store (h.mem_brk + 12) 1
          (store (h.mem_brk + 8) 9 (store (h.mem_brk + 4) 9 (store h.mem_brk 0 h.mem)));
  }

  first_words-IsHeap : IsHeap first_words (h.mem_brk + 8) (block 8 1 ∷ [])
  first_words-IsHeap = record {
    holds = record {
      tiles = (
        record {
          header = ground arith;
          footer = ground arith;
          roomy = omega arith;
          even = refl;
          bit = omega arith;
          small = omega arith;
        },
        omega arith,
      );
      epilogue = ground arith;
      low = omega arith;
      aligned = omega (arith, aligned);
      guarded = ([], refl);
      fits = omega (arith, small, space);
    };
    bounded = omega (arith, space);
    small = small;
  }

  mm_init-first : mm_init h ≡ (
    if (extend_heap first_words 1024).0 == 0 then none else some (h.mem_brk + 8),
    (extend_heap first_words 1024).1,
  )
  unfolding mm_init tag_prologue pack
  mm_init-first = ap tag_prologue (mem_sbrk-room h 16 (omega (arith, space)) (omega arith) small)

  -- With an aligned break and room for 4112 bytes, `mm_init` succeeds. The heap is then in order, with the
  -- prologue as the only block in use.
  pub mm_init-IsHeap :
      ((mm_init h).0 ≡ some (h.mem_brk + 8))
      × (bs : List Block) × IsHeap (mm_init h).1 (h.mem_brk + 8) bs
      × (extents (h.mem_brk + 8) bs ≡ (h.mem_brk + 8, 8) ∷ [])
  unfolding extents
  mm_init-IsHeap =
      elim (extend_heap-Extended first_words (h.mem_brk + 8) (block 8 1 ∷ []) 1024
        first_words-IsHeap (omega arith) (omega arith) (omega (arith, space, small))) [
          | inl (full, e) ↦ absurd (omega (arith, full, space))
          | inr x ↦
              let r = extend_heap first_words 1024 in
              let found : (r.0 == 0) ≡ false = ==_false r.0 0 (omega (arith, x.at)) in
              let e : mm_init h ≡ (some (h.mem_brk + 8), r.1) = mm_init-first ∙ rw found refl in
              (
                ap (λ t. t.0) e,
                x.front ++ (block x.room 0 ∷ x.back),
                subst (λ t. IsHeap t.1 (h.mem_brk + 8) (x.front ++ (block x.room 0 ∷ x.back)))
                    (sym e) x.ordered,
                x.unchanged,
              )
        ]
