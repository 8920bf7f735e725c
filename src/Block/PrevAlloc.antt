-- ===== src/Block/PrevAlloc.antt =====
-- What `write_prev_alloc` writes, and what it does not.
use dynamic_memory_allocator.Base.{ℕ, ◌≡◌, false, not, ◌&&◌, ◌==◌, Bool-cases, inl, inr}
use dynamic_memory_allocator.Machine.{State, done}
use dynamic_memory_allocator.Memlib.Word.{word, InHeap, load-word}
use dynamic_memory_allocator.Block.{
  write_prev_alloc, get_alloc, is_mini_block, get_size, header_to_footer, extract_alloc,
  extract_size, min_block_size,
}

module _ (s : State) (block : ℕ) (inside : InHeap s block) where
  -- Told that the previous block is free, `write_prev_alloc` changes nothing, whatever the header
  -- says: it never clears the bit.
  pub write_prev_alloc_free : write_prev_alloc block false s ≡ done tt s
  unfolding write_prev_alloc get_alloc is_mini_block get_size header_to_footer
  write_prev_alloc_free =
      let header = word s.bytes block in
      rw (load-word s block inside, load-word s block inside)
        (elim (Bool-cases
          (not (extract_alloc header) && not (extract_size header == min_block_size))) [
            | inl footed ↦ rw (footed, load-word s block inside)
            | inr bare ↦ rw bare
          ])
