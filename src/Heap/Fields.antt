-- ===== src/Heap/Fields.antt =====
-- Reading a block whose header is known.
use dynamic_memory_allocator.Base.{
  ℕ, ◌+◌, ◌-◌, ◌^◌, ◌≤◌, ◌<◌, ◌≡◌, refl, Bool, true, false, arith, ◌==◌, ==_ne, add64, sub64,
}
use dynamic_memory_allocator.Machine.{State, done}
use dynamic_memory_allocator.Memlib.Word.{word, InHeap, load-word}
use dynamic_memory_allocator.Block.{
  min_block_size, pack_all, get_size, get_alloc, get_prev_alloc, get_prev_mini, is_mini_block,
  find_next, find_prev, find_prev_footer, footer_to_header, header_to_footer,
}
use dynamic_memory_allocator.Block.Header.{IsBlockSize, extract-pack_all}

-- The word at `a`, in the heap, is the header of a block with these parts.
pub record HasHeader (s : State) (a size : ℕ) (alloc pa pm : Bool) : Type 0 where
  pub inside : InHeap s a
  pub fits : IsBlockSize size
  pub header : word s.bytes a ≡ pack_all size alloc pa pm

module _ (s : State) (a size : ℕ) (alloc pa pm : Bool) (h : HasHeader s a size alloc pa pm) where
  pub get_size-HasHeader : get_size a s ≡ done size s
  unfolding get_size
  get_size-HasHeader =
      rw (load-word s a h.inside, h.header, (extract-pack_all size alloc pa pm h.fits).0) refl

  pub get_alloc-HasHeader : get_alloc a s ≡ done alloc s
  unfolding get_alloc
  get_alloc-HasHeader =
      rw (load-word s a h.inside, h.header, (extract-pack_all size alloc pa pm h.fits).1) refl

  pub get_prev_alloc-HasHeader : get_prev_alloc a s ≡ done pa s
  unfolding get_prev_alloc
  get_prev_alloc-HasHeader =
      rw (load-word s a h.inside, h.header, (extract-pack_all size alloc pa pm h.fits).2) refl

  pub get_prev_mini-HasHeader : get_prev_mini a s ≡ done pm s
  unfolding get_prev_mini
  get_prev_mini-HasHeader =
      rw (load-word s a h.inside, h.header, (extract-pack_all size alloc pa pm h.fits).3) refl

  pub is_mini_block-HasHeader : is_mini_block a s ≡ done (size == min_block_size) s
  unfolding is_mini_block
  is_mini_block-HasHeader = rw get_size-HasHeader refl

  pub find_next-HasHeader : a + size < 2 ^ 64 → find_next a s ≡ done (a + size) s
  unfolding find_next
  find_next-HasHeader near =
      let at : add64 a size ≡ a + size = omega arith in rw (get_size-HasHeader, at) refl

  pub header_to_footer-HasHeader :
      min_block_size ≤ size → a + size < 2 ^ 64 → header_to_footer a s ≡ done (a + size - 8) s
  unfolding header_to_footer
  header_to_footer-HasHeader least near =
      let at : sub64 (add64 (add64 a 8) size) 16 ≡ a + size - 8 = omega arith in
      rw (get_size-HasHeader, at) refl

  -- The previous block is a mini block.
  pub find_prev-mini : pm ≡ true → 16 ≤ a → a < 2 ^ 64 → find_prev a s ≡ done (a - 16) s
  unfolding find_prev
  find_prev-mini mini least near =
      let at : sub64 a 16 ≡ a - 16 = omega arith in rw (get_prev_mini-HasHeader, mini, at) refl

  -- A footer with the size of the block that it ends.
  pub footer_to_header-HasHeader :
      size ≤ a + 8 → a + 8 < 2 ^ 64 → footer_to_header a s ≡ done (a + 8 - size) s
  unfolding footer_to_header
  footer_to_header-HasHeader enough near =
      let from : sub64 (add64 a 8) size ≡ a + 8 - size = omega arith in
      rw (load-word s a h.inside, h.header, (extract-pack_all size alloc pa pm h.fits).0, from) refl

-- The word before the header of a block is a footer, with the size of the previous block.
pub find_prev-footer :
    (s : State) (a size : ℕ) (alloc pa pm : Bool) (size' : ℕ) (alloc' pa' pm' : Bool)
    → HasHeader s a size alloc pa pm
    → HasHeader s (a - 8) size' alloc' pa' pm'
    → pm ≡ false
    → 8 ≤ a
    → a < 2 ^ 64
    → min_block_size ≤ size'
    → size' ≤ a
    → find_prev a s ≡ done (a - size') s
unfolding find_prev find_prev_footer
find_prev-footer s a size alloc pa pm size' alloc' pa' pm' h foot large some_a near least enough =
    let before : sub64 a 8 ≡ a - 8 = omega arith in
    let back = (extract-pack_all size' alloc' pa' pm' foot.fits).0 in
    let from = footer_to_header-HasHeader s (a - 8) size' alloc' pa' pm' foot in
    let here : a - 8 + 8 - size' ≡ a - size' = omega arith in
    rw
      (
        get_prev_mini-HasHeader s a size alloc pa pm h,
        large,
        before,
        load-word s (a - 8) foot.inside,
        foot.header,
        back,
        ==_ne size' 0 (omega arith),
        from (omega arith) (omega arith),
        here,
      )
      refl
