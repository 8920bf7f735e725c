-- ===== src/FreeList/RemoveMini.antt =====
-- `remove_free` on a mini block.
use mathlib.Core.List.{append_assoc}
use dynamic_memory_allocator.Base.{
  ℕ, zero, suc, ◌+◌, ◌-◌, ◌<◌, ◌≡◌, ◌≢◌, refl, sym, inl, inr, List, [], ◌∷◌, ◌++◌, All, length,
  length-append, All-append, All-second, arith, ◌==◌, true, ==_ne, ==_self, snoc-cases,
}
use dynamic_memory_allocator.Machine.{State, done}
use dynamic_memory_allocator.Machine.Ends.{Ends, ends}
use dynamic_memory_allocator.Machine.ReadWrite.{Apart}
use dynamic_memory_allocator.Memlib.Word.{
  word, put, put_word, load-word, store-put, word-lt, word-put_self, word-put-Apart,
}
use dynamic_memory_allocator.Block.{
  null, min_block_size, mini_next_offset, extract_size, get_size, is_mini_block,
}
use dynamic_memory_allocator.FreeList.{remove_mini, remove_mini_loop, remove_free}
use dynamic_memory_allocator.FreeList.Chain.{Chain, Spread, Away-of_Clear, SameAt-put}
use dynamic_memory_allocator.FreeList.Segregated.{IsArena, Inside, SameOffMiniLinks}
use dynamic_memory_allocator.FreeList.Mini.{IsMiniList}
use dynamic_memory_allocator.FreeList.Rounds.{rounds-heapsize, length-lt-rounds}
use dynamic_memory_allocator.FreeList.Unlink.{
  Chain-first, Chain-next_ne_null, Chain-unlink, Chain-ne, Spread-at, Spread-second,
}

-- What is true of the state after a mini block is taken out, which leaves `xs`.
pub record IsRemoved (s : State) (xs : List ℕ) (t : State) : Type 0 where
  pub state : t ≡ record s { bytes = t.bytes; mini_list = t.mini_list }
  pub list : IsMiniList t t.mini_list xs
  pub same : SameOffMiniLinks s.bytes t.bytes xs

module _ (s : State) where
  -- The walk from `h` on finds the block before `block` and links it past it.
  remove_mini_loop-put :
      (k h : ℕ) (pre : List ℕ) (p block : ℕ) (post : List ℕ)
      → length pre < k
      → Chain mini_next_offset s.bytes h (pre ++ p ∷ block ∷ post)
      → Spread (pre ++ p ∷ block ∷ post)
      → All (Inside s) (pre ++ p ∷ block ∷ post)
      → remove_mini_loop k h block s
        ≡ done tt (put s (p + mini_next_offset) (word s.bytes (block + mini_next_offset)))
  unfolding remove_mini_loop
  remove_mini_loop-put zero h pre p block post enough c spread inside = absurd (omega arith)
  remove_mini_loop-put (suc k) h [] p block post enough c spread inside = rw (
    c.0,
    load-word s (p + mini_next_offset) (omega arith),
    c.2.0,
    ==_self block,
    load-word s (block + mini_next_offset) (omega arith),
    store-put s (p + mini_next_offset) (word s.bytes (block + mini_next_offset)) (omega arith),
  )
  remove_mini_loop-put (suc k) h (a ∷ pre) p block post enough c spread inside =
      let next = word s.bytes (a + mini_next_offset) in
      let ne : block ≢ next =
        Chain-ne mini_next_offset s.bytes next pre p block post c.2 spread.1 in
      rw (c.0, load-word s (a + mini_next_offset) (omega arith), ==_ne next block (λ e. ne (sym e)))
        (remove_mini_loop-put k next pre p block post (omega arith) c.2 spread.1 inside.1)

  module _ (arena : IsArena s) (block : ℕ) where
    -- The only block: the source tests for it first.
    remove-only :
        IsMiniList s s.mini_list (block ∷ []) → Ends (λ _. IsRemoved s []) (remove_mini block s)
    unfolding remove_mini
    remove-only old =
        let none_left : word s.bytes (s.mini_list + mini_next_offset) ≡ null =
          rw (old.chain.0) (old.chain.2) in
        rw (load-word s (s.mini_list + mini_next_offset) (omega arith), none_left)
          (ends (record {
            state = refl;
            list = record { chain = refl; spread = tt; inside = tt };
            same = λ x off. refl;
          }))

    remove-head :
        (n : ℕ) (post : List ℕ)
        → IsMiniList s s.mini_list (block ∷ n ∷ post)
        → Ends (λ _. IsRemoved s (n ∷ post)) (remove_mini block s)
    unfolding remove_mini
    remove-head n post old =
        let next = word s.bytes (s.mini_list + mini_next_offset) in
        let next_n : next ≡ n = rw (old.chain.0) (old.chain.2.0) in
        let heads : (block == s.mini_list) ≡ true = rw (old.chain.0) (==_self block) in
        let rest : Chain mini_next_offset s.bytes next (n ∷ post) =
          rw (old.chain.0) (old.chain.2) in
        rw
          (
            load-word s (s.mini_list + mini_next_offset) (omega arith),
            ==_ne next null (rw next_n old.chain.2.1),
            heads,
          )
          (ends (record {
            state = refl;
            list = record { chain = rest; spread = old.spread.1; inside = old.inside.1 };
            same = λ x off. refl;
          }))

    remove-behind :
        (pre : List ℕ) (p : ℕ) (post : List ℕ)
        → IsMiniList s s.mini_list (pre ++ p ∷ block ∷ post)
        → Ends (λ _. IsRemoved s (pre ++ p ∷ post)) (remove_mini block s)
    unfolding remove_mini
    remove-behind pre p post old =
        let head = s.mini_list in
        let first =
          Chain-first (Inside s) mini_next_offset s.bytes head pre p (block ∷ post) old.chain
            old.inside in
        let after = word s.bytes (block + mini_next_offset) in
        let m = put_word s.bytes (p + mini_next_offset) after in
        let at_p = Spread-at pre p (block ∷ post) old.spread in
        let inside_p : Inside s p = (All-append (Inside s) pre (p ∷ block ∷ post) old.inside).1.0 in
        let p_pre = Away-of_Clear p mini_next_offset pre (omega arith) at_p.0 in
        let p_post = Away-of_Clear p mini_next_offset post (omega arith) at_p.1.1 in
        let enough : length pre < suc (s.mem_brk - s.heap) = omega (
          arith,
          length-append pre (p ∷ block ∷ post),
          length-lt-rounds s (pre ++ p ∷ block ∷ post) old.spread old.inside,
        ) in
        rw
          (
            load-word s (head + mini_next_offset) (omega arith),
            ==_ne _ null
                (Chain-next_ne_null mini_next_offset s.bytes head pre p block post old.chain),
            ==_ne block head
                (Chain-ne mini_next_offset s.bytes head pre p block post old.chain old.spread),
            rounds-heapsize s arena (omega arith),
            remove_mini_loop-put (suc (s.mem_brk - s.heap)) head pre p block post enough old.chain
                old.spread old.inside,
          )
          (ends (record {
            state = refl;
            list = record {
              chain =
                  Chain-unlink mini_next_offset s.bytes m head pre p block post old.chain
                    (word-put_self s.bytes (p + mini_next_offset) after (word-lt s.bytes _))
                    (SameAt-put s.bytes _ after mini_next_offset pre (omega arith) p_pre)
                    (SameAt-put s.bytes _ after mini_next_offset post (omega arith) p_post);
              spread = Spread-second pre p block post old.spread;
              inside = All-second (Inside s) pre p block post old.inside;
            };
            same = λ x off.
                let off_p = (All-append (λ a. Apart x 8 (a + 8) 8) pre (p ∷ post) off).1.0 in
                word-put-Apart s.bytes _ after x (omega arith);
          }))

remove_mini-IsRemoved :
    (s : State) (pre : List ℕ) (block : ℕ) (post : List ℕ)
    → IsArena s
    → IsMiniList s s.mini_list (pre ++ block ∷ post)
    → Ends (λ _. IsRemoved s (pre ++ post)) (remove_mini block s)
remove_mini-IsRemoved s pre block post arena old = elim (snoc-cases pre) [
  | inl e ↦ rw e (first s block arena post (rw e at old))
  | inr (front, p, e) ↦
      rw (e, append_assoc) (remove-behind s arena block front p post (rw (e, append_assoc) at old))
]
  where
    first :
        (s : State) (block : ℕ)
        → IsArena s
        → (post : List ℕ) → IsMiniList s s.mini_list (block ∷ post)
        → Ends (λ _. IsRemoved s post) (remove_mini block s)
    first s block arena [] old = remove-only s arena block old
    first s block arena (n ∷ post) old = remove-head s arena block n post old

-- `remove_free` takes a mini block out of the list of mini blocks, wherever in the list it stands;
-- the walk to the block before it ends, and nothing in memory but links of the blocks that stay
-- changes.
pub remove_free_mini-IsRemoved :
    (s : State) (pre : List ℕ) (block : ℕ) (post : List ℕ)
    → IsArena s
    → extract_size (word s.bytes block) ≡ min_block_size
    → IsMiniList s s.mini_list (pre ++ block ∷ post)
    → Ends (λ _. IsRemoved s (pre ++ post)) (remove_free block s)
unfolding remove_free is_mini_block get_size
remove_free_mini-IsRemoved s pre block post arena mini old =
    let inside : Inside s block = (All-append (Inside s) pre (block ∷ post) old.inside).1.0 in
    rw (load-word s block (omega arith), mini) (remove_mini-IsRemoved s pre block post arena old)
