-- ===== src/Block/Header.antt =====
-- The packed header word: size, allocation bit, and the two bits on the previous block.
use dynamic_memory_allocator.Base.{
  ℕ, ◌+◌, ◌*◌, ◌/◌, ◌%◌, ◌^◌, ◌<◌, ◌≡◌, Bool, true, false, arith, bit, ◌==◌, bit_or,
}
use dynamic_memory_allocator.Base.Bits.{
  bit_and-one, bit_and-two, bit_and-four, bit_or-one, bit_or-two, bit_or-four, bit_and-size_mask,
}
use dynamic_memory_allocator.Block.{
  pack_all, extract_size, extract_alloc, extract_prev_alloc, extract_prev_mini, prev_alloc_mask,
}

-- What a size must be for its four low bits to be free for the flags.
abbrev pub IsBlockSize : ℕ → Type 0
IsBlockSize size = (size % 16 ≡ 0) × (size < 2 ^ 64)

pub pack_all-eq-sum :
    (size : ℕ) (alloc prev_alloc prev_mini : Bool)
    → size % 16 ≡ 0
    → pack_all size alloc prev_alloc prev_mini
      ≡ size + bit alloc + 2 * bit prev_alloc + 4 * bit prev_mini
unfolding pack_all
pack_all-eq-sum size false false false h = omega arith
pack_all-eq-sum size false false true h = omega (arith, bit_or-four size)
pack_all-eq-sum size false true false h = omega (arith, bit_or-two size)
pack_all-eq-sum size false true true h = omega (arith, bit_or-two size, bit_or-four (bit_or size 2))
pack_all-eq-sum size true false false h = omega (arith, bit_or-one size)
pack_all-eq-sum size true false true h = omega (arith, bit_or-one size, bit_or-four (bit_or size 1))
pack_all-eq-sum size true true false h = omega (arith, bit_or-one size, bit_or-two (bit_or size 1))
pack_all-eq-sum size true true true h =
    omega
      (arith, bit_or-one size, bit_or-two (bit_or size 1), bit_or-four (bit_or (bit_or size 1) 2))

pub extract_size-eq : (w : ℕ) → w < 2 ^ 64 → extract_size w ≡ w / 16 * 16
unfolding extract_size
extract_size-eq w h = bit_and-size_mask w h

pub extract_alloc-eq : (w : ℕ) → extract_alloc w ≡ (w % 2 == 1)
unfolding extract_alloc
extract_alloc-eq w = ground (arith, bit_and-one w)

pub extract_prev_alloc-eq : (w : ℕ) → extract_prev_alloc w ≡ (w / 2 % 2 == 1)
unfolding extract_prev_alloc
extract_prev_alloc-eq w = ground (arith, bit_and-two w)

pub extract_prev_mini-eq : (w : ℕ) → extract_prev_mini w ≡ (w / 4 % 2 == 1)
unfolding extract_prev_mini
extract_prev_mini-eq w = ground (arith, bit_and-four w)

module _ (size : ℕ) (alloc prev_alloc prev_mini : Bool) (fits : IsBlockSize size) where
  pub pack_all-lt : pack_all size alloc prev_alloc prev_mini < 2 ^ 64
  pack_all-lt = ground (arith, pack_all-eq-sum size alloc prev_alloc prev_mini)

  -- Each of the four parts that are packed into a header is read back as it was.
  pub extract-pack_all :
      (extract_size (pack_all size alloc prev_alloc prev_mini) ≡ size)
      × (extract_alloc (pack_all size alloc prev_alloc prev_mini) ≡ alloc)
      × (extract_prev_alloc (pack_all size alloc prev_alloc prev_mini) ≡ prev_alloc)
      × (extract_prev_mini (pack_all size alloc prev_alloc prev_mini) ≡ prev_mini)
  extract-pack_all =
      let word = pack_all size alloc prev_alloc prev_mini in
      let parts = pack_all-eq-sum size alloc prev_alloc prev_mini fits.0 in
      (
        ground (arith, extract_size-eq word pack_all-lt, parts),
        ground (arith, extract_alloc-eq word, parts),
        ground (arith, extract_prev_alloc-eq word, parts),
        ground (arith, extract_prev_mini-eq word, parts),
      )

-- Setting the bit by `|` is packing with the bit set.
pub pack_all-set_prev_alloc :
    (size : ℕ) (alloc prev_alloc prev_mini : Bool)
    → size % 16 ≡ 0
    → bit_or (pack_all size alloc prev_alloc prev_mini) prev_alloc_mask
      ≡ pack_all size alloc true prev_mini
pack_all-set_prev_alloc size alloc prev_alloc prev_mini h = ground (
  arith,
  pack_all-eq-sum size alloc prev_alloc prev_mini,
  pack_all-eq-sum size alloc true prev_mini,
  bit_or-two (pack_all size alloc prev_alloc prev_mini),
)
