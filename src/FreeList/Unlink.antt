-- ===== src/FreeList/Unlink.antt =====
-- A block taken out of the middle or the end of a chain.
use dynamic_memory_allocator.Base.{
  ℕ, ◌+◌, ◌≡◌, ◌≢◌, List, [], ◌∷◌, ◌++◌, All, All-append, All-drop_middle, All-second, arith,
}
use dynamic_memory_allocator.Machine.{Bytes}
use dynamic_memory_allocator.Memlib.Word.{word}
use dynamic_memory_allocator.Block.{null, prev_offset}
use dynamic_memory_allocator.FreeList.Chain.{
  Chain, Back, BackFrom, Clear, Spread, SameAt, Chain-same, BackFrom-same,
}

module _ (offset : ℕ) (m : Bytes) where
  -- A block of a chain is not null, and the rest of the chain starts at its link.
  pub Chain-at :
      (h : ℕ) (pre : List ℕ) (b : ℕ) (post : List ℕ)
      → Chain offset m h (pre ++ b ∷ post)
      → (b ≢ null) × Chain offset m (word m (b + offset)) post
  Chain-at h [] b post c = (c.1, c.2)
  Chain-at h (a ∷ pre) b post c = Chain-at (word m (a + offset)) pre b post c.2

  pub Chain-second :
      (h : ℕ) (pre : List ℕ) (p b : ℕ) (post : List ℕ)
      → Chain offset m h (pre ++ p ∷ b ∷ post)
      → Chain offset m (word m (b + offset)) post
  Chain-second h [] p b post c = c.2.2
  Chain-second h (a ∷ pre) p b post c = Chain-second (word m (a + offset)) pre p b post c.2

  -- The chain with `p` linked past `b`.
  pub Chain-unlink :
      (m' : Bytes) (h : ℕ) (pre : List ℕ) (p b : ℕ) (post : List ℕ)
      → Chain offset m h (pre ++ p ∷ b ∷ post)
      → word m' (p + offset) ≡ word m (b + offset)
      → SameAt offset m m' pre
      → SameAt offset m m' post
      → Chain offset m' h (pre ++ p ∷ post)
  Chain-unlink m' h [] p b post c past front back =
      (c.0, c.1, rw past (Chain-same m m' offset _ post back c.2.2))
  Chain-unlink m' h (a ∷ pre) p b post c past front back = (
    c.0,
    c.1,
    rw (front.0) (Chain-unlink m' (word m (a + offset)) pre p b post c.2 past front.1 back),
  )

module _ (m m' : Bytes) where
  pub BackFrom-at :
      (a : ℕ) (pre : List ℕ) (p b : ℕ) (post : List ℕ)
      → BackFrom m a (pre ++ p ∷ b ∷ post)
      → word m (b + prev_offset) ≡ p
  BackFrom-at a [] p b post h = h.1.0
  BackFrom-at a (x ∷ pre) p b post h = BackFrom-at x pre p b post h.1

  -- `b` was the last block.
  BackFrom-unlink_last :
      (a : ℕ) (pre : List ℕ) (p b : ℕ)
      → BackFrom m a (pre ++ p ∷ b ∷ [])
      → SameAt prev_offset m m' pre
      → word m' (p + prev_offset) ≡ word m (p + prev_offset)
      → BackFrom m' a (pre ++ p ∷ [])
  BackFrom-unlink_last a [] p b h front at_p = (rw at_p h.0, tt)
  BackFrom-unlink_last a (x ∷ pre) p b h front at_p =
      (rw (front.0) h.0, BackFrom-unlink_last x pre p b h.1 front.1 at_p)

  -- `n` came after `b`, and now points back to `p`.
  BackFrom-unlink_inner :
      (a : ℕ) (pre : List ℕ) (p b n : ℕ) (post : List ℕ)
      → BackFrom m a (pre ++ p ∷ b ∷ n ∷ post)
      → SameAt prev_offset m m' pre
      → word m' (p + prev_offset) ≡ word m (p + prev_offset)
      → word m' (n + prev_offset) ≡ p
      → SameAt prev_offset m m' post
      → BackFrom m' a (pre ++ p ∷ n ∷ post)
  BackFrom-unlink_inner a [] p b n post h front at_p at_n back =
      (rw at_p h.0, (at_n, BackFrom-same m m' n post back h.1.1.1))
  BackFrom-unlink_inner a (x ∷ pre) p b n post h front at_p at_n back =
      (rw (front.0) h.0, BackFrom-unlink_inner x pre p b n post h.1 front.1 at_p at_n back)

  pub Back-at :
      (pre : List ℕ) (p b : ℕ) (post : List ℕ)
      → Back m (pre ++ p ∷ b ∷ post)
      → word m (b + prev_offset) ≡ p
  Back-at [] p b post h = h.0
  Back-at (x ∷ pre) p b post h = BackFrom-at x pre p b post h

  pub Back-unlink_last :
      (pre : List ℕ) (p b : ℕ)
      → Back m (pre ++ p ∷ b ∷ [])
      → SameAt prev_offset m m' pre
      → word m' (p + prev_offset) ≡ word m (p + prev_offset)
      → Back m' (pre ++ p ∷ [])
  Back-unlink_last [] p b h front at_p = tt
  Back-unlink_last (x ∷ pre) p b h front at_p = BackFrom-unlink_last x pre p b h front.1 at_p

  pub Back-unlink_inner :
      (pre : List ℕ) (p b n : ℕ) (post : List ℕ)
      → Back m (pre ++ p ∷ b ∷ n ∷ post)
      → SameAt prev_offset m m' pre
      → word m' (p + prev_offset) ≡ word m (p + prev_offset)
      → word m' (n + prev_offset) ≡ p
      → SameAt prev_offset m m' post
      → Back m' (pre ++ p ∷ n ∷ post)
  Back-unlink_inner [] p b n post h front at_p at_n back =
      (at_n, BackFrom-same m m' n post back h.1.1)
  Back-unlink_inner (x ∷ pre) p b n post h front at_p at_n back =
      BackFrom-unlink_inner x pre p b n post h front.1 at_p at_n back

-- Without its first block.
pub Back-tail : (m : Bytes) (a : ℕ) (xs : List ℕ) → BackFrom m a xs → Back m xs
Back-tail m a [] h = tt
Back-tail m a (x ∷ xs) h = h.1

pub Spread-second :
    (pre : List ℕ) (p b : ℕ) (post : List ℕ)
    → Spread (pre ++ p ∷ b ∷ post)
    → Spread (pre ++ p ∷ post)
Spread-second [] p b post h = (h.0.1, h.1.1)
Spread-second (x ∷ pre) p b post h =
    (All-second (Clear x) pre p b post h.0, Spread-second pre p b post h.1)

pub Spread-drop_middle :
    (pre : List ℕ) (b : ℕ) (post : List ℕ) → Spread (pre ++ b ∷ post) → Spread (pre ++ post)
Spread-drop_middle [] b post h = h.1
Spread-drop_middle (x ∷ pre) b post h =
    (All-drop_middle (Clear x) pre b post h.0, Spread-drop_middle pre b post h.1)

-- A block of a spread list is clear of those before it and of those after it.
pub Spread-at :
    (pre : List ℕ) (b : ℕ) (post : List ℕ)
    → Spread (pre ++ b ∷ post)
    → All (Clear b) pre × All (Clear b) post
Spread-at [] b post h = (tt, h.0)
Spread-at (x ∷ pre) b post h =
    let clear : Clear x b = (All-append (Clear x) pre (b ∷ post) h.0).1.0 in
    let rest = Spread-at pre b post h.1 in ((omega arith, rest.0), rest.1)

pub Spread-second_at :
    (pre : List ℕ) (p n : ℕ) (post : List ℕ)
    → Spread (pre ++ p ∷ n ∷ post)
    → All (Clear n) pre × All (Clear n) post
Spread-second_at [] p n post h = (tt, h.1.0)
Spread-second_at (x ∷ pre) p n post h =
    let clear : Clear x n = (All-append (Clear x) pre (p ∷ n ∷ post) h.0).1.1.0 in
    let rest = Spread-second_at pre p n post h.1 in ((omega arith, rest.0), rest.1)

-- What holds of a chain's blocks holds of its first.
pub Chain-first {ℓ} :
    (P : ℕ → Type ℓ) (offset : ℕ) (m : Bytes) (h : ℕ) (pre : List ℕ) (p : ℕ) (post : List ℕ)
    → Chain offset m h (pre ++ p ∷ post)
    → All P (pre ++ p ∷ post)
    → P h × (h ≢ null)
Chain-first P offset m h [] p post c all = rw (c.0) (all.0, c.1)
Chain-first P offset m h (x ∷ pre) p post c all = rw (c.0) (all.0, c.1)

-- The second address of a chain with a block behind the first.
pub Chain-next_ne_null :
    (offset : ℕ) (m : Bytes) (h : ℕ) (pre : List ℕ) (p b : ℕ) (post : List ℕ)
    → Chain offset m h (pre ++ p ∷ b ∷ post)
    → word m (h + offset) ≢ null
Chain-next_ne_null offset m h [] p b post c = rw (c.0, c.2.0) c.2.1
Chain-next_ne_null offset m h (x ∷ []) p b post c = rw (c.0, c.2.0) c.2.1
Chain-next_ne_null offset m h (x ∷ y ∷ pre) p b post c = rw (c.0, c.2.0) c.2.1

-- The first address of a chain is is no later block of it.
pub Chain-ne :
    (offset : ℕ) (m : Bytes) (h : ℕ) (pre : List ℕ) (p b : ℕ) (post : List ℕ)
    → Chain offset m h (pre ++ p ∷ b ∷ post)
    → Spread (pre ++ p ∷ b ∷ post)
    → b ≢ h
Chain-ne offset m h [] p b post c s = omega arith
Chain-ne offset m h (x ∷ pre) p b post c s =
    let clear : Clear x b = (All-append (Clear x) pre (p ∷ b ∷ post) s.0).1.1.0 in omega arith
