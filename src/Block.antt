-- ===== src/Block.antt =====
-- mm.c: the constants, the packed header word, and the short helpers on blocks.
pub mod Header
pub mod Sizes
pub mod PrevAlloc
use dynamic_memory_allocator.Base.{
  ℕ, ◌-◌, ◌*◌, ◌/◌, ◌^◌, Bool, true, not, ◌&&◌, ◌==◌, ltb, if◌then◌else◌, add64, sub64, mul64,
  bit_and, bit_or,
}
use dynamic_memory_allocator.Machine.{Cmd, pure, ◌>>=◌, ◌>>◌}
use dynamic_memory_allocator.Memlib.{load, store}

abbrev pub null : ℕ
null = 0

abbrev pub wsize : ℕ
wsize = 8

abbrev pub dsize : ℕ
dsize = 2 * wsize

abbrev pub min_block_size : ℕ
min_block_size = dsize

abbrev pub chunksize : ℕ
chunksize = 2 ^ 12

abbrev pub alloc_mask : ℕ
alloc_mask = 0x1

abbrev pub prev_alloc_mask : ℕ
prev_alloc_mask = 0x2

abbrev pub prev_mini_mask : ℕ
prev_mini_mask = 0x4

-- `~(word_t)0xF`
abbrev pub size_mask : ℕ
size_mask = 2 ^ 64 - 1 - 0xf

-- Where the fields of `block_t` and `mini_block_t` lie.
abbrev pub payload_offset : ℕ
payload_offset = 8

abbrev pub prev_offset : ℕ
prev_offset = 8

abbrev pub next_offset : ℕ
next_offset = 16

abbrev pub mini_next_offset : ℕ
mini_next_offset = 8

-- Arithmetic on sizes and words

unfoldable pub max : ℕ → ℕ → ℕ
max x y = if ltb y x then x else y

unfoldable pub round_up : ℕ → ℕ → ℕ
round_up size n = mul64 n (add64 size (sub64 n 1) / n)

unfoldable pub pack_all : (size : ℕ) (alloc prev_alloc prev_mini : Bool) → ℕ
pack_all size alloc prev_alloc prev_mini =
    let word = if alloc then bit_or size alloc_mask else size in
    let word' = if prev_alloc then bit_or word prev_alloc_mask else word in
    if prev_mini then bit_or word' prev_mini_mask else word'

unfoldable pub extract_size : ℕ → ℕ
extract_size word = bit_and word size_mask

unfoldable pub extract_alloc : ℕ → Bool
extract_alloc word = not (bit_and word alloc_mask == 0)

-- The tests of `get_prev_alloc` and `get_prev_mini` on the header that they read.
unfoldable pub extract_prev_alloc : ℕ → Bool
extract_prev_alloc header = not (bit_and header prev_alloc_mask / 2 == 0)

unfoldable pub extract_prev_mini : ℕ → Bool
extract_prev_mini header = not (bit_and header prev_mini_mask / 4 == 0)

-- Reading a block

unfoldable pub get_size : ℕ → Cmd ℕ
get_size block = do header ← load block; pure (extract_size header)

unfoldable pub payload_to_header : ℕ → ℕ
payload_to_header bp = sub64 bp payload_offset

unfoldable pub header_to_payload : ℕ → ℕ
header_to_payload block = add64 block payload_offset

unfoldable pub header_to_footer : ℕ → Cmd ℕ
unfolding get_size
header_to_footer block = do
  size ← get_size block
  pure (sub64 (add64 (add64 block payload_offset) size) dsize)

unfoldable pub footer_to_header : ℕ → Cmd ℕ
footer_to_header footer = do
  word ← load footer
  pure (sub64 (add64 footer wsize) (extract_size word))

unfoldable pub get_payload_size : ℕ → Cmd ℕ
get_payload_size block = do asize ← get_size block; pure (sub64 asize dsize)

unfoldable pub get_alloc : ℕ → Cmd Bool
get_alloc block = do header ← load block; pure (extract_alloc header)

unfoldable pub get_prev_alloc : ℕ → Cmd Bool
get_prev_alloc block = do header ← load block; pure (extract_prev_alloc header)

unfoldable pub get_prev_mini : ℕ → Cmd Bool
get_prev_mini block = do header ← load block; pure (extract_prev_mini header)

unfoldable pub is_mini_block : ℕ → Cmd Bool
is_mini_block block = do size ← get_size block; pure (size == min_block_size)

unfoldable pub find_next : ℕ → Cmd ℕ
find_next block = do size ← get_size block; pure (add64 block size)

unfoldable pub find_prev_footer : ℕ → ℕ
find_prev_footer block = sub64 block wsize

-- `NULL` where the previous footer is the prologue.
unfoldable pub find_prev : ℕ → Cmd ℕ
find_prev block = do
  prev_mini ← get_prev_mini block
  if not prev_mini
      then (do
        footer ← load (find_prev_footer block)
        if extract_size footer == 0 then pure null else footer_to_header (find_prev_footer block))
      else pure (sub64 block min_block_size)

-- Writing a block

unfoldable pub write_epilogue : ℕ → (prev_alloc prev_mini : Bool) → Cmd (Unit {0})
write_epilogue block prev_alloc prev_mini = store block (pack_all 0 true prev_alloc prev_mini)

unfoldable pub write_pack : (block size : ℕ) (alloc prev_alloc prev_mini : Bool) → Cmd (Unit {0})
write_pack block size alloc prev_alloc prev_mini = do
  store block (pack_all size alloc prev_alloc prev_mini)
  if not alloc && not (size == min_block_size)
      then (do
        footer ← header_to_footer block
        store footer (pack_all size alloc prev_alloc prev_mini))
      else pure tt

-- `*p = *p | prev_alloc_mask`, if the previous block is allocated.
or_prev_alloc : ℕ → Bool → Cmd (Unit {0})
or_prev_alloc p prev_alloc =
    if prev_alloc then (do word ← load p; store p (bit_or word prev_alloc_mask)) else pure tt

unfoldable pub write_prev_alloc : ℕ → Bool → Cmd (Unit {0})
unfolding or_prev_alloc
write_prev_alloc block prev_alloc = do
  or_prev_alloc block prev_alloc
  alloc ← get_alloc block
  is_mini ← is_mini_block block
  if not alloc && not is_mini
      then (do footer ← header_to_footer block; or_prev_alloc footer prev_alloc)
      else pure tt
