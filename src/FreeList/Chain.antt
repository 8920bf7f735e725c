-- ===== src/FreeList/Chain.antt =====
-- Lists of blocks in memory: each holds the address of the next at one offset, and, in the
-- segregated lists, that of the one before it at another.
use dynamic_memory_allocator.Base.{ℕ, ◌+◌, ◌≤◌, ◌≡◌, ◌≢◌, ◌∙◌, refl, List, [], ◌∷◌, All, arith}
use dynamic_memory_allocator.Machine.{Bytes}
use dynamic_memory_allocator.Machine.ReadWrite.{Apart}
use dynamic_memory_allocator.Memlib.Word.{word, put_word, put_two, word-put-Apart}
use dynamic_memory_allocator.Block.{null, prev_offset}

-- From `p` on, the words at the offset lead through the blocks of the list to `NULL`.
abbrev pub Chain : (offset : ℕ) → Bytes → ℕ → List ℕ → Type 0
Chain offset m p [] = p ≡ null
Chain offset m p (a ∷ xs) = (p ≡ a) × (a ≢ null) × Chain offset m (word m (a + offset)) xs

-- Each block behind `a` points back to the one before it.
abbrev pub BackFrom : Bytes → ℕ → List ℕ → Type 0
BackFrom m a [] = Unit
BackFrom m a (b ∷ bs) = (word m (b + prev_offset) ≡ a) × BackFrom m b bs

-- What the first block points back to is not said: the program leaves it as it was.
abbrev pub Back : Bytes → List ℕ → Type 0
Back m [] = Unit
Back m (a ∷ xs) = BackFrom m a xs

-- Two blocks whose header and links share no byte.
abbrev pub Clear : ℕ → ℕ → Type 0
Clear a b = Apart a 24 b 24

abbrev pub Spread : List ℕ → Type 0
Spread [] = Unit
Spread (a ∷ xs) = All (Clear a) xs × Spread xs

-- The word at an offset is the same in both memories, for each block of the list.
abbrev pub SameAt : (offset : ℕ) (m m' : Bytes) → List ℕ → Type 0
SameAt offset m m' = All (λ a. word m' (a + offset) ≡ word m (a + offset))

module _ (m m' : Bytes) where
  pub Chain-same :
      (offset p : ℕ) (xs : List ℕ)
      → SameAt offset m m' xs
      → Chain offset m p xs
      → Chain offset m' p xs
  Chain-same offset p [] same c = c
  Chain-same offset p (a ∷ xs) same c =
      (c.0, c.1, rw (same.0) (Chain-same offset (word m (a + offset)) xs same.1 c.2))

  pub BackFrom-same :
      (a : ℕ) (xs : List ℕ) → SameAt prev_offset m m' xs → BackFrom m a xs → BackFrom m' a xs
  BackFrom-same a [] same b = b
  BackFrom-same a (x ∷ xs) same b = (rw (same.0) b.0, BackFrom-same x xs same.1 b.1)

pub SameAt-refl : (offset : ℕ) (m : Bytes) (xs : List ℕ) → SameAt offset m m xs
SameAt-refl offset m [] = tt
SameAt-refl offset m (a ∷ xs) = (refl, SameAt-refl offset m xs)

-- The word at `p` lies in none of the blocks' headers and links.
abbrev pub Away : ℕ → List ℕ → Type 0
Away p = All (λ a. Apart p 8 a 24)

pub Away-of_Clear :
    (b offset : ℕ) (xs : List ℕ) → offset ≤ 16 → All (Clear b) xs → Away (b + offset) xs
Away-of_Clear b offset [] o h = tt
Away-of_Clear b offset (a ∷ xs) o h = (omega arith, Away-of_Clear b offset xs o h.1)

-- A word stored away from the list leaves its links alone.
pub SameAt-put :
    (m : Bytes) (p v offset : ℕ) (xs : List ℕ)
    → offset ≤ 16
    → Away p xs
    → SameAt offset m (put_word m p v) xs
SameAt-put m p v offset [] o h = tt
SameAt-put m p v offset (a ∷ xs) o h =
    (word-put-Apart m p v (a + offset) (omega arith), SameAt-put m p v offset xs o h.1)

pub SameAt-trans :
    (offset : ℕ) (m m' m'' : Bytes) (xs : List ℕ)
    → SameAt offset m m' xs
    → SameAt offset m' m'' xs
    → SameAt offset m m'' xs
SameAt-trans offset m m' m'' [] h k = tt
SameAt-trans offset m m' m'' (a ∷ xs) h k = (k.0 ∙ h.0, SameAt-trans offset m m' m'' xs h.1 k.1)

pub SameAt-put_two :
    (m : Bytes) (p v q w offset : ℕ) (xs : List ℕ)
    → offset ≤ 16
    → Away p xs
    → Away q xs
    → SameAt offset m (put_two m p v q w) xs
SameAt-put_two m p v q w offset xs o h k =
    SameAt-trans offset m (put_word m p v) _ xs (SameAt-put m p v offset xs o h)
      (SameAt-put (put_word m p v) q w offset xs o k)
