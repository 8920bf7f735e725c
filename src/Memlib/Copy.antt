-- ===== src/Memlib/Copy.antt =====
-- `mem_memcpy` and `mem_memset`: eight bytes at a time, and the rest at once.
use native.Mathlib.Nat.{mod-eq_of_lt, add-mul-mod_self_left, pow-suc}
use dynamic_memory_allocator.Base.{
  ℕ, zero, suc, ◌+◌, ◌-◌, ◌*◌, ◌%◌, ◌^◌, ◌≤◌, ◌<◌, ◌≡◌, ◌∙◌, refl, sym, ap, inl, inr, Bool, true,
  ◌&&◌, leb, ◌==◌, add64, leb_iff, ==_iff, Bool-cases, arith,
}
use dynamic_memory_allocator.Base.Bits.{bit_and_mask}
use dynamic_memory_allocator.Machine.{State, done, Bytes, read, write}
use dynamic_memory_allocator.Machine.Ends.{Ends, ends, Ends-mono, Ends-continue}
use dynamic_memory_allocator.Machine.ReadWrite.{
  Apart, read-lt, read-write_self, read-write-Apart, read-add,
}
use dynamic_memory_allocator.Memlib.{
  mem_read, mem_write, memcpy_loop, mem_memcpy, memset_loop, mem_memset, fill_word,
}

-- The `n` bytes from `a` on lie in the heap.
abbrev pub InRange : State → ℕ → ℕ → Type 0
InRange s a n = (s.heap ≤ a) × (a + n ≤ s.mem_brk)

pub read-ok : (s : State) (a n : ℕ) → InRange s a n → mem_read a n s ≡ done (read s.bytes a n) s
unfolding mem_read
read-ok s a n h = ground arith

pub write-ok :
    (s : State) (a v n : ℕ)
    → InRange s a n
    → mem_write a v n s ≡ done tt (record s { bytes = write s.bytes a v n })
unfolding mem_write
write-ok s a v n h = ground arith

-- The first eight bytes of a read, and the rest.
read-eight :
    (m : Bytes) (a n : ℕ) → 8 ≤ n → read m a n ≡ read m a 8 + 2 ^ 64 * read m (a + 8) (n - 8)
read-eight m a n h =
    let split : 8 + (n - 8) ≡ n = omega arith in ap (read m a) (sym split) ∙ read-add m a 8 (n - 8)

-- The bytes from `dst` on read as `v` and the others are as they were.
pub record IsFilled (s : State) (dst n v : ℕ) (t : State) : Type 0 where
  pub state : t ≡ record s { bytes = t.bytes }
  pub filled : read t.bytes dst n ≡ v
  pub same : (x k : ℕ) → Apart dst n x k → read t.bytes x k ≡ read s.bytes x k

module _ (dst n v : ℕ) where
  -- A fill of eight bytes and one of those behind them.
  IsFilled-eight :
      (s t : State) (w : ℕ)
      → 8 ≤ n
      → w < 2 ^ 64
      → v ≡ w + 2 ^ 64 * read t.bytes (dst + 8) (n - 8)
      → IsFilled
          (record s { bytes = write s.bytes dst w 8 })
          (dst + 8)
          (n - 8)
          (read t.bytes (dst + 8) (n - 8))
          t
      → IsFilled s dst n v t
  IsFilled-eight s t w long small e rest = record {
    state = rest.state;
    filled =
        read-eight t.bytes dst n long
        ∙ omega (arith, rest.same dst 8 (inr (omega arith)), read-write_self s.bytes dst w 8);
    same = λ x k apart.
        rest.same x k (omega arith) ∙ read-write-Apart s.bytes dst w 8 x k (omega arith);
  }

-- One write, of a value that fits the length.
IsFilled-write :
    (s : State) (dst n v : ℕ)
    → v < 256 ^ n
    → IsFilled s dst n v (record s { bytes = write s.bytes dst v n })
IsFilled-write s dst n v fits = record {
  state = refl;
  filled = read-write_self s.bytes dst v n ∙ mod-eq_of_lt fits;
  same = λ x k apart. read-write-Apart s.bytes dst v n x k apart;
}

read-none : (m : Bytes) (a : ℕ) → read m a 0 ≡ 0
unfolding read
read-none m a = refl

-- No bytes.
IsFilled-none : (s : State) (dst : ℕ) → IsFilled s dst 0 0 s
unfolding read
IsFilled-none s dst = record { state = refl; filled = refl; same = λ x k apart. refl }

-- The loop of the copy, from any point of it on.
memcpy_loop-IsFilled :
    (k : ℕ) (s : State) (dst src n : ℕ)
    → n < k
    → s.mem_brk < 2 ^ 64
    → InRange s dst n
    → InRange s src n
    → Apart dst n src n
    → Ends (λ _. IsFilled s dst n (read s.bytes src n)) (memcpy_loop k dst src n s)
unfolding memcpy_loop
memcpy_loop-IsFilled zero s dst src n enough small to from apart = absurd (omega arith)
memcpy_loop-IsFilled (suc k) s dst src n enough small to from apart =
    let w = read s.bytes src 8 in
    let s' : State = record s { bytes = write s.bytes dst w 8 } in
    elim (Bool-cases (leb 8 n)) [
      | inl long ↦
          let eight : 8 ≤ n = (leb_iff 8 n).0 long in
          let dst8 : add64 dst 8 ≡ dst + 8 = omega arith in
          let src8 : add64 src 8 ≡ src + 8 = omega arith in
          let later : read s'.bytes (src + 8) (n - 8) ≡ read s.bytes (src + 8) (n - 8) =
            read-write-Apart s.bytes dst w 8 (src + 8) (n - 8) (omega arith) in
          rw (long, read-ok s src 8 (omega arith), write-ok s dst w 8 (omega arith), dst8, src8)
            (Ends-mono
              (memcpy_loop-IsFilled k s' (dst + 8) (src + 8) (n - 8) (omega arith) small
                (omega arith) (omega arith) (omega arith))
              λ _ t is.
                IsFilled-eight dst n _ s t w eight (read-lt s.bytes src 8)
                  (omega (arith, read-eight s.bytes src n eight, is.filled, later))
                  (rw (is.filled) is))
      | inr short ↦ rw short (elim (Bool-cases (n == 0)) [
        | inl none_left ↦
            rw (none_left, (==_iff n 0).0 none_left)
              (ends (rw (read-none s.bytes src) (IsFilled-none s dst)))
        | inr some_left ↦
            rw (some_left, read-ok s src n from, write-ok s dst (read s.bytes src n) n to)
              (ends (IsFilled-write s dst n (read s.bytes src n) (read-lt s.bytes src n)))
      ])
    ]

-- `mem_memcpy` ends and gives `dst` back; the target then holds what the source held, and nothing
-- else in the state changes. The ranges lie in the heap and share no byte.
pub mem_memcpy-IsFilled :
    (s : State) (dst src n : ℕ)
    → s.mem_brk < 2 ^ 64
    → InRange s dst n
    → InRange s src n
    → Apart dst n src n
    → Ends (λ r t. (r ≡ dst) × IsFilled s dst n (read s.bytes src n) t) (mem_memcpy dst src n s)
unfolding mem_memcpy
mem_memcpy-IsFilled s dst src n small to from apart =
    Ends-continue (memcpy_loop-IsFilled (suc n) s dst src n (omega arith) small to from apart)
      λ _ t is. ends (refl, is)

-- The number that `n` bytes of value `byte` are.
unfoldable pub repeat_byte : ℕ → ℕ → ℕ
repeat_byte byte zero = 0
repeat_byte byte (suc n) = byte + 256 * repeat_byte byte n

repeat_byte-none : (byte : ℕ) → repeat_byte byte 0 ≡ 0
unfolding repeat_byte
repeat_byte-none byte = refl

-- The word of the fill, checked at every byte.
fill_words_from : ℕ → Bool
fill_words_from zero = true
fill_words_from (suc n) = (fill_word n 8 == repeat_byte n 8) && fill_words_from n

fill_words_below :
    (n byte : ℕ) → fill_words_from n ≡ true → byte < n → fill_word byte 8 ≡ repeat_byte byte 8
unfolding fill_words_from
fill_words_below zero byte h lt = absurd (omega arith)
fill_words_below (suc n) byte h lt = elim (Bool-cases (byte == n)) [
  | inl e ↦ rw ((==_iff byte n).0 e) (ground (arith, ==_iff (fill_word n 8) (repeat_byte n 8)))
  | inr ne ↦ fill_words_below n byte (ground arith) (ground arith)
]

every_fill_word : fill_words_from 256 ≡ true
unfolding fill_words_from fill_word repeat_byte
every_fill_word = refl

fill_word-repeat_byte : (byte : ℕ) → byte < 256 → fill_word byte 8 ≡ repeat_byte byte 8
fill_word-repeat_byte byte h = fill_words_below 256 byte every_fill_word h

repeat_byte-lt : (byte n : ℕ) → byte < 256 → repeat_byte byte n < 256 ^ n
unfolding repeat_byte
repeat_byte-lt byte zero h = omega arith
repeat_byte-lt byte (suc n) h = rw pow-suc (omega (arith, repeat_byte-lt byte n h))

repeat_byte-add :
    (byte k n : ℕ) → repeat_byte byte (k + n) ≡ repeat_byte byte k + 256 ^ k * repeat_byte byte n
unfolding repeat_byte
repeat_byte-add byte zero n = let len : 0 + n ≡ n = omega arith in rw len (omega arith)
repeat_byte-add byte (suc k) n =
    let len : suc k + n ≡ suc (k + n) = omega arith in
    rw (len, pow-suc, repeat_byte-add byte k n) (omega arith)

repeat_byte-eight :
    (byte n : ℕ)
    → 8 ≤ n
    → repeat_byte byte n ≡ repeat_byte byte 8 + 2 ^ 64 * repeat_byte byte (n - 8)
repeat_byte-eight byte n h =
    let split : 8 + (n - 8) ≡ n = omega arith in
    ap (repeat_byte byte) (sym split) ∙ repeat_byte-add byte 8 (n - 8)

-- The lowest bytes of the word are the same bytes again.
low_bytes : (byte n : ℕ) → byte < 256 → n ≤ 8 → repeat_byte byte 8 % 256 ^ n ≡ repeat_byte byte n
low_bytes byte n h short =
    let split : n + (8 - n) ≡ 8 = omega arith in
    ap (λ (k : ℕ). repeat_byte byte k % 256 ^ n) (sym split)
    ∙ ap (λ (v : ℕ). v % 256 ^ n) (repeat_byte-add byte n (8 - n))
    ∙ add-mul-mod_self_left _ (256 ^ n) _
    ∙ mod-eq_of_lt (repeat_byte-lt byte n h)

memset_loop-IsFilled :
    (k : ℕ) (s : State) (dst byte n : ℕ)
    → byte < 256
    → n < k
    → s.mem_brk < 2 ^ 64
    → InRange s dst n
    → Ends (λ _. IsFilled s dst n (repeat_byte byte n)) (memset_loop k dst (repeat_byte byte 8) n s)
unfolding memset_loop
memset_loop-IsFilled zero s dst byte n small enough fits to = absurd (omega arith)
memset_loop-IsFilled (suc k) s dst byte n small enough fits to =
    let w = repeat_byte byte 8 in
    let s' : State = record s { bytes = write s.bytes dst w 8 } in
    elim (Bool-cases (leb 8 n)) [
      | inl long ↦
          let eight : 8 ≤ n = (leb_iff 8 n).0 long in
          let dst8 : add64 dst 8 ≡ dst + 8 = omega arith in
          rw (long, write-ok s dst w 8 (omega arith), dst8)
            (Ends-mono
              (memset_loop-IsFilled k s' (dst + 8) byte (n - 8) small (omega arith) fits
                (omega arith))
              λ _ t is.
                IsFilled-eight dst n _ s t w eight (repeat_byte-lt byte 8 small)
                  (omega (arith, repeat_byte-eight byte n eight, is.filled)) (rw (is.filled) is))
      | inr short ↦ rw short (elim (Bool-cases (n == 0)) [
        | inl none_left ↦
            rw (none_left, (==_iff n 0).0 none_left)
              (ends (rw (repeat_byte-none byte) (IsFilled-none s dst)))
        | inr some_left ↦
            rw (some_left, write-ok s dst w n to)
              (ends (record {
                state = refl;
                filled = read-write_self s.bytes dst w n ∙ low_bytes byte n small (ground arith);
                same = λ x k apart. read-write-Apart s.bytes dst w n x k apart;
              }))
      ])
    ]

-- `mem_memset` ends and gives `dst` back; the range then holds the low byte of `c` throughout, and
-- nothing else in the state changes.
pub mem_memset-IsFilled :
    (s : State) (dst c n : ℕ)
    → s.mem_brk < 2 ^ 64
    → InRange s dst n
    → Ends (λ r t. (r ≡ dst) × IsFilled s dst n (repeat_byte (c % 256) n) t) (mem_memset dst c n s)
unfolding mem_memset
mem_memset-IsFilled s dst c n fits to =
    rw (bit_and_mask 8 c, fill_word-repeat_byte (c % 256) (omega arith))
      (Ends-continue
        (memset_loop-IsFilled (suc n) s dst (c % 256) n (omega arith) (omega arith) fits to)
        λ _ t is. ends (refl, is))
