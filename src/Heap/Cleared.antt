-- ===== src/Heap/Cleared.antt =====
-- `calloc` keeps the client served, and what it gives is zero.
use dynamic_memory_allocator.Base.{
  ℕ, zero, suc, ◌+◌, ◌*◌, ◌^◌, ◌≤◌, ◌<◌, ◌≡◌, ◌⊎◌, ◌∙◌, refl, List, ◌∷◌, arith, inl, inr, ==_ne,
  ==_iff, mul64, Bool-cases,
}
use dynamic_memory_allocator.Machine.{State, read}
use dynamic_memory_allocator.Machine.Ends.{Ends, ends, Ends-continue}
use dynamic_memory_allocator.Memlib.Copy.{mem_memset-IsFilled, repeat_byte}
use dynamic_memory_allocator.Block.{null}
use dynamic_memory_allocator.Allocator.{calloc, calloc_refuses}
use dynamic_memory_allocator.Heap.Blocks.{UsedIn-bounds}
use dynamic_memory_allocator.Heap.Served.{Grant, IsServed, malloc-IsServed, payload-IsServed}

repeat_byte-zero : (n : ℕ) → repeat_byte 0 n ≡ 0
unfolding repeat_byte
repeat_byte-zero zero = refl
repeat_byte-zero (suc n) = omega (arith, repeat_byte-zero n)

-- `calloc` for a client whose requests are served, of less than 2 ^ 61 bytes in all, ends: it gives
-- `NULL` and changes nothing, or a grant of its own in which every byte is zero.
pub calloc-IsServed :
    (s : State) (live : List Grant)
    → IsServed s live
    → (elements size : ℕ) → elements * size < 2 ^ 61
    → Ends
        (λ r t.
          ((r ≡ null) × (t ≡ s))
          ⊎ (IsServed t (record { payload = r; size = elements * size } ∷ live)
              × (read t.bytes r (elements * size) ≡ 0)))
        (calloc elements size s)
unfolding calloc
calloc-IsServed s live h elements size small =
    let exact : mul64 elements size ≡ elements * size = omega arith in
    elim (Bool-cases (calloc_refuses elements size)) [
      | inl refuses ↦ rw refuses (ends (inl (refl, refl)))
      | inr takes ↦
          rw (takes, exact)
            (Ends-continue (malloc-IsServed s live h (elements * size) small) λ r t is. elim is [
              | inl (nothing, same) ↦ rw ((==_iff r null).1 nothing) (ends (inl (refl, same)))
              | inr served ↦
                  let mine = served.held.0 in
                  let at : r ≡ mine.block + 8 = mine.at in
                  let enough : elements * size + 8 ≤ mine.room = mine.enough in
                  let whole = served.sound.ready.heap in
                  let bounds = UsedIn-bounds _ _ _ _ served.ps _ _ _ whole.tiles mine.block_used in
                  let fits = whole.small in
                  let room = whole.room in
                  rw (==_ne r null (omega arith)) (
                    Ends-continue (mem_memset-IsFilled t r 0 (elements * size) fits (omega arith))
                      λ _ u (here, is'). ends (
                        inr (
                          payload-IsServed t _ served mine.block mine.room mine.block_used u
                              is'.state λ y far. is'.same y 8 (omega arith),
                          is'.filled ∙ repeat_byte-zero (elements * size),
                        )))
            ])
    ]
