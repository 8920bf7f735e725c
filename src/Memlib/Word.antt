-- ===== src/Memlib/Word.antt =====
-- The 64-bit words of memory, and what `load` and `store` do to them.
use dynamic_memory_allocator.Base.{ℕ, ◌+◌, ◌^◌, ◌≤◌, ◌<◌, ◌≡◌, ◌∙◌, arith}
use dynamic_memory_allocator.Machine.{State, done, Bytes, read, write}
use dynamic_memory_allocator.Machine.ReadWrite.{Apart, read-lt, read-write_self, read-write-Apart}
use dynamic_memory_allocator.Memlib.{load, store}

abbrev pub word : Bytes → ℕ → ℕ
word m a = read m a 8

-- Memory after a word is stored.
abbrev pub put_word : Bytes → ℕ → ℕ → Bytes
put_word m a v = write m a v 8

abbrev pub put : State → ℕ → ℕ → State
put s a v = record s { bytes = put_word s.bytes a v }

-- The word at `a` lies in the heap.
abbrev pub InHeap : State → ℕ → Type 0
InHeap s a = (s.heap ≤ a) × (a + 8 ≤ s.mem_brk)

pub word-lt : (m : Bytes) (a : ℕ) → word m a < 2 ^ 64
word-lt m a = read-lt m a 8

pub load-word : (s : State) (a : ℕ) → InHeap s a → load a s ≡ done (word s.bytes a) s
unfolding load
load-word s a h = ground arith

pub store-put : (s : State) (a v : ℕ) → InHeap s a → store a v s ≡ done tt (put s a v)
unfolding store
store-put s a v h = ground arith

pub word-put_self : (m : Bytes) (a v : ℕ) → v < 2 ^ 64 → word (put_word m a v) a ≡ v
word-put_self m a v h = read-write_self m a v 8 ∙ (omega arith)

pub word-put-Apart : (m : Bytes) (a v b : ℕ) → Apart a 8 b 8 → word (put_word m a v) b ≡ word m b
word-put-Apart m a v b h = read-write-Apart m a v 8 b 8 h

-- Two stores in a row.
module _ (m : Bytes) (p v q w : ℕ) where
  abbrev pub put_two : Bytes
  put_two = put_word (put_word m p v) q w

  pub word-put_two-Apart : (x : ℕ) → Apart p 8 x 8 → Apart q 8 x 8 → word put_two x ≡ word m x
  word-put_two-Apart x h k = word-put-Apart (put_word m p v) q w x k ∙ word-put-Apart m p v x h

  pub word-put_two_first : Apart q 8 p 8 → v < 2 ^ 64 → word put_two p ≡ v
  word-put_two_first h small = word-put-Apart (put_word m p v) q w p h ∙ word-put_self m p v small

  pub word-put_two_second : w < 2 ^ 64 → word put_two q ≡ w
  word-put_two_second = word-put_self (put_word m p v) q w
