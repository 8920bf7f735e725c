-- ===== src/Naive.antt =====
-- mm-naive.c, the allocator that never reuses memory.
use dynamic_memory_allocator.Base.{
  ℕ, ◌*◌, ◌/◌, Bool, true, none, some, ◌==◌, ltb, if◌then◌else◌, add64, sub64, mul64,
}
use dynamic_memory_allocator.Machine.{Cmd, pure, ◌>>=◌, ◌>>◌}
use dynamic_memory_allocator.Memlib.{load, store, mem_sbrk, mem_memcpy, mem_memset}

-- WSIZE, ALIGNMENT, and HEADER_SIZE, where the payload lies behind a size and its padding.
abbrev pub word_size : ℕ
word_size = 8

abbrev pub alignment : ℕ
alignment = 2 * word_size

abbrev pub header_size : ℕ
header_size = 16

unfoldable pub mm_init : Cmd Bool
mm_init = pure true

unfoldable pub payload_to_header : ℕ → ℕ
payload_to_header bp = sub64 bp header_size

unfoldable pub header_to_payload : ℕ → ℕ
header_to_payload block = add64 block header_size

unfoldable pub roundup : (size multiple : ℕ) → ℕ
roundup size multiple = mul64 multiple (sub64 (add64 size multiple) 1 / multiple)

-- 0 is `NULL`.
unfoldable pub malloc : ℕ → Cmd ℕ
malloc size = do
  let newsize = roundup (add64 size header_size) alignment
  block ← mem_sbrk newsize
  elim block [
    | none ↦ pure 0
    | some block ↦ (do store block newsize; pure (header_to_payload block))
  ]

unfoldable pub free : ℕ → Cmd (Unit {0})
free ptr = pure tt

unfoldable pub realloc : (oldptr size : ℕ) → Cmd ℕ
realloc oldptr size =
    if size == 0 then (do free oldptr; pure 0) else if oldptr == 0 then malloc size else (do
      newptr ← malloc size
      if newptr == 0 then pure 0 else do
        copysize ← load (payload_to_header oldptr)
        _ ← mem_memcpy newptr oldptr (if ltb size copysize then size else copysize)
        free oldptr
        pure newptr)

unfoldable pub calloc : (nmemb size : ℕ) → Cmd ℕ
calloc nmemb size = do
  let bytes = mul64 nmemb size
  newptr ← malloc bytes
  _ ← mem_memset newptr 0 bytes
  pure newptr

unfoldable pub mm_checkheap : ℕ → Cmd Bool
mm_checkheap lineno = pure true
