-- ===== src/Heap/Packed.antt =====
-- What `write_pack` writes, at the level of whole words.
use dynamic_memory_allocator.Base.{
  ℕ, ◌+◌, ◌-◌, ◌^◌, ◌≤◌, ◌<◌, ◌≡◌, ◌≢◌, refl, Bool, true, false, arith, Bool-cases, inl, inr, ◌==◌,
  not, ◌&&◌, add64, sub64,
}
use dynamic_memory_allocator.Machine.{State, done}
use dynamic_memory_allocator.Machine.ReadWrite.{Apart}
use dynamic_memory_allocator.Machine.Ends.{Ends, ends}
use dynamic_memory_allocator.Memlib.Word.{
  word, put, load-word, store-put, word-put_self, word-put-Apart, word-put_two_first,
  word-put_two_second, word-put_two-Apart,
}
use dynamic_memory_allocator.Block.{
  min_block_size, pack_all, write_pack, header_to_footer, get_size,
}
use dynamic_memory_allocator.Block.Header.{IsBlockSize, pack_all-lt, extract-pack_all}

-- The header is written, the footer too where the block has one, and no other word.
pub record IsPacked (s : State) (a size : ℕ) (alloc pa pm : Bool) (t : State) : Type 0 where
  pub state : t ≡ record s { bytes = t.bytes }
  pub header : word t.bytes a ≡ pack_all size alloc pa pm
  pub footer :
      alloc ≡ false
      → size ≢ min_block_size
      → word t.bytes (a + size - 8) ≡ pack_all size alloc pa pm
  pub same :
      (x : ℕ)
      → Apart a 8 x 8
      → (alloc ≡ false → size ≢ min_block_size → Apart (a + size - 8) 8 x 8)
      → word t.bytes x ≡ word s.bytes x

-- The facts on a block to be written: it lies in the heap, and its size has room for the flags.
pub record IsRoom (s : State) (a size : ℕ) : Type 0 where
  pub small : s.mem_brk < 2 ^ 64
  pub lower : s.heap ≤ a
  pub upper : a + 8 ≤ s.mem_brk
  pub fits : IsBlockSize size

module _ (s : State) (a size : ℕ) (pa pm : Bool) (room : IsRoom s a size) where
  abbrev headed : Bool → State
  headed alloc = put s a (pack_all size alloc pa pm)

  -- A block without footer.
  pub write_pack-header :
      (alloc : Bool)
      → (not alloc && not (size == min_block_size)) ≡ false
      → Ends (λ _. IsPacked s a size alloc pa pm) (write_pack a size alloc pa pm s)
  unfolding write_pack
  write_pack-header alloc plain =
      rw (store-put s a (pack_all size alloc pa pm) (room.lower, room.upper), plain)
        (ends (record {
          state = refl;
          header = word-put_self s.bytes a _ (pack_all-lt size alloc pa pm room.fits);
          footer = λ free large. ground arith;
          same = λ x off far. word-put-Apart s.bytes a _ x off;
        }))

  header_to_footer_lem :
      min_block_size ≤ size
      → a + size ≤ s.mem_brk
      → header_to_footer a (headed false) ≡ done (a + size - 8) (headed false)
  unfolding header_to_footer get_size
  header_to_footer_lem least upper =
      let here = word-put_self s.bytes a _ (pack_all-lt size false pa pm room.fits) in
      let read_back = (extract-pack_all size false pa pm room.fits).0 in
      let fits = room.small in
      let at : sub64 (add64 (add64 a 8) size) 16 ≡ a + size - 8 = omega arith in
      rw (load-word (headed false) a (room.lower, room.upper), here, read_back, at) refl

  -- A free block with a footer.
  pub write_pack-footer :
      min_block_size ≤ size
      → a + size ≤ s.mem_brk
      → (size == min_block_size) ≡ false
      → Ends (λ _. IsPacked s a size false pa pm) (write_pack a size false pa pm s)
  unfolding write_pack
  write_pack-footer least upper large =
      let word_fits = pack_all-lt size false pa pm room.fits in
      let aligned = room.fits.0 in
      let more : 32 ≤ size = ground arith in
      let foot_inside : (s.heap ≤ a + size - 8) × (a + size - 8 + 8 ≤ s.mem_brk) =
        omega (arith, room.lower) in
      rw
        (
          store-put s a (pack_all size false pa pm) (room.lower, room.upper),
          large,
          header_to_footer_lem least upper,
          store-put (headed false) (a + size - 8) (pack_all size false pa pm) foot_inside,
        )
        (ends (record {
          state = refl;
          header = word-put_two_first s.bytes a _ (a + size - 8) _ (omega arith) word_fits;
          footer = λ free other. word-put_two_second s.bytes a _ (a + size - 8) _ word_fits;
          same = λ x off far.
              word-put_two-Apart s.bytes a _ (a + size - 8) _ x off (far refl (λ e. cc));
        }))

-- `write_pack` on a block in the heap writes the header, the footer where the block has one, and
-- nothing else.
pub write_pack-IsPacked :
    (s : State) (a size : ℕ) (alloc pa pm : Bool)
    → IsRoom s a size
    → (alloc ≡ false → (min_block_size ≤ size) × (a + size ≤ s.mem_brk))
    → Ends (λ _. IsPacked s a size alloc pa pm) (write_pack a size alloc pa pm s)
write_pack-IsPacked s a size true pa pm room inside =
    write_pack-header s a size pa pm room true refl
write_pack-IsPacked s a size false pa pm room inside = elim (Bool-cases (size == min_block_size)) [
  | inl mini ↦ write_pack-header s a size pa pm room false (rw mini refl)
  | inr large ↦ write_pack-footer s a size pa pm room (inside refl).0 (inside refl).1 large
]
