-- ===== src/FreeList/Remove.antt =====
-- `remove_free` on a block of the segregated list.
use mathlib.Core.List.{append_assoc}
use dynamic_memory_allocator.Base.{
  ℕ, ◌+◌, ◌≡◌, ◌≢◌, ◌∙◌, refl, sym, List, [], ◌∷◌, ◌++◌, All-append, All-second, arith, ◌==◌, true,
  false, ==_ne, ==_self, if_ne, snoc-cases, inl, inr,
}
use dynamic_memory_allocator.Machine.{State}
use dynamic_memory_allocator.Machine.ReadWrite.{Apart}
use dynamic_memory_allocator.Machine.Ends.{Ends, ends}
use dynamic_memory_allocator.Memlib.Word.{
  word, put, put_word, put_two, load-word, store-put, word-put_self, word-put-Apart,
  word-put_two_first, word-put_two_second, word-put_two-Apart,
}
use dynamic_memory_allocator.Block.{
  null, min_block_size, next_offset, prev_offset, extract_size, get_size, is_mini_block,
}
use dynamic_memory_allocator.FreeList.{remove_seg, remove_free, is_head}
use dynamic_memory_allocator.FreeList.Chain.{Clear, Away, Away-of_Clear, SameAt-put, SameAt-put_two}
use dynamic_memory_allocator.FreeList.Segregated.{
  IsArena, Inside, class_at, IsFreeList, SameOffLinks,
}
use dynamic_memory_allocator.FreeList.Unlink.{
  Chain-second, Chain-unlink, Chain-ne, Back-at, Back-tail, Back-unlink_last, Back-unlink_inner,
  Spread-at, Spread-second, Spread-second_at,
}

-- What is true of the state after a block is taken out of class `c`, which leaves `xs`.
pub record IsRemoved (s : State) (c : ℕ) (xs : List ℕ) (t : State) : Type 0 where
  pub state : t ≡ record s { bytes = t.bytes; seg_list = t.seg_list }
  pub others : (i : ℕ) → i ≢ c → t.seg_list i ≡ s.seg_list i
  pub list : IsFreeList t (t.seg_list c) xs
  pub same : SameOffLinks s.bytes t.bytes xs

module _ (s : State) (block : ℕ) (arena : IsArena s) (inside : Inside s block) where
  -- The list with its first block gone: only the head changes.
  remove-head :
      (post : List ℕ)
      → IsFreeList s (s.seg_list (class_at s block)) (block ∷ post)
      → Ends (λ _. IsRemoved s (class_at s block) post) (remove_seg block s)
  unfolding remove_seg is_head get_size
  remove-head post old =
      let after = word s.bytes (block + next_offset) in
      let heads : (block == s.seg_list (class_at s block)) ≡ true =
        rw old.chain.0 (==_self block) in
      rw
        (
          load-word s (block + prev_offset) (omega arith),
          load-word s (block + next_offset) (omega arith),
          load-word s block (omega arith),
          heads,
        )
        (ends (record {
          state = refl;
          others = λ i ne. if_ne i _ _ _ ne;
          list = rw (==_self (class_at s block)) (record {
            chain = old.chain.2;
            back = Back-tail s.bytes block post old.back;
            spread = old.spread.1;
            inside = old.inside.1;
          });
          same = λ x off. refl;
        }))

  module _ (pre : List ℕ) (p : ℕ) where
    -- A block behind `p` is not the first of its list.
    not_head :
        (post : List ℕ)
        → IsFreeList s (s.seg_list (class_at s block)) (pre ++ p ∷ block ∷ post)
        → (block == s.seg_list (class_at s block)) ≡ false
    not_head post old =
        ==_ne _ _ (Chain-ne next_offset s.bytes _ pre p block post old.chain old.spread)

    -- The last block: the one before it becomes the end of the list.
    remove-last :
        IsFreeList s (s.seg_list (class_at s block)) (pre ++ p ∷ block ∷ [])
        → Ends (λ _. IsRemoved s (class_at s block) (pre ++ p ∷ [])) (remove_seg block s)
    unfolding remove_seg is_head get_size
    remove-last old =
        let m = put_word s.bytes (p + next_offset) null in
        let inside_p : Inside s p = (All-append (Inside s) pre (p ∷ block ∷ []) old.inside).1.0 in
        let clear = (Spread-at pre p (block ∷ []) old.spread).0 in
        let away : Away (p + next_offset) pre =
          Away-of_Clear p next_offset pre (omega arith) clear in
        let ended : word s.bytes (block + next_offset) ≡ null =
          Chain-second next_offset s.bytes (s.seg_list (class_at s block)) pre p block []
            old.chain in
        let past : word m (p + next_offset) ≡ word s.bytes (block + next_offset) =
          word-put_self s.bytes (p + next_offset) null (omega arith) ∙ sym ended in
        rw
          (
            load-word s (block + prev_offset) (omega arith),
            load-word s (block + next_offset) (omega arith),
            load-word s block (omega arith),
            not_head [] old,
            ended,
            Back-at s.bytes m pre p block [] old.back,
            store-put s (p + next_offset) null (omega arith),
          )
          (ends (record {
            state = refl;
            others = λ i ne. refl;
            list = record {
              chain =
                  Chain-unlink next_offset s.bytes m _ pre p block [] old.chain past
                    (SameAt-put s.bytes _ null next_offset pre (omega arith) away) tt;
              back =
                  Back-unlink_last s.bytes m pre p block old.back
                    (SameAt-put s.bytes _ null prev_offset pre (omega arith) away)
                    (word-put-Apart s.bytes _ null (p + prev_offset) (omega arith));
              spread = Spread-second pre p block [] old.spread;
              inside = All-second (Inside s) pre p block [] old.inside;
            };
            same = λ x off. word-put-Apart s.bytes _ null x (
                let at_p = (All-append (λ a. Apart x 8 (a + 8) 16) pre (p ∷ []) off).1.0 in
                omega arith);
          }))

    -- A block between two others: they are linked to each other.
    remove-inner :
        (n : ℕ) (post : List ℕ)
        → IsFreeList s (s.seg_list (class_at s block)) (pre ++ p ∷ block ∷ n ∷ post)
        → Ends (λ _. IsRemoved s (class_at s block) (pre ++ p ∷ n ∷ post)) (remove_seg block s)
    unfolding remove_seg is_head get_size
    remove-inner n post old =
        let m = put_two s.bytes (p + next_offset) n (n + prev_offset) p in
        let all_inside = All-append (Inside s) pre (p ∷ block ∷ n ∷ post) old.inside in
        let rest =
          Chain-second next_offset s.bytes (s.seg_list (class_at s block)) pre p block (n ∷ post)
            old.chain in
        let at_p = Spread-at pre p (block ∷ n ∷ post) old.spread in
        let kept_spread = Spread-second pre p block (n ∷ post) old.spread in
        let at_n = Spread-second_at pre p n post kept_spread in
        let p_pre = Away-of_Clear p next_offset pre (omega arith) at_p.0 in
        let n_pre = Away-of_Clear n prev_offset pre (omega arith) at_n.0 in
        let p_post = Away-of_Clear p next_offset post (omega arith) at_p.1.1.1 in
        let n_post = Away-of_Clear n prev_offset post (omega arith) at_n.1 in
        let p_n : Clear p n = at_p.1.1.0 in
        let inside_p : Inside s p = all_inside.1.0 in
        let inside_n : Inside s n = all_inside.1.1.1.0 in
        let past : word m (p + next_offset) ≡ word s.bytes (block + next_offset) =
          word-put_two_first s.bytes (p + next_offset) n (n + prev_offset) p (omega arith)
            (omega arith)
          ∙ sym rest.0 in
        rw
          (
            load-word s (block + prev_offset) (omega arith),
            load-word s (block + next_offset) (omega arith),
            load-word s block (omega arith),
            not_head (n ∷ post) old,
            rest.0,
            ==_ne n null rest.1,
            Back-at s.bytes m pre p block (n ∷ post) old.back,
            store-put s (p + next_offset) n (omega arith),
            store-put (put s (p + next_offset) n) (n + prev_offset) p (omega arith),
          )
          (ends (record {
            state = refl;
            others = λ i ne. refl;
            list = record {
              chain =
                  Chain-unlink next_offset s.bytes m _ pre p block (n ∷ post) old.chain past
                    (SameAt-put_two s.bytes _ _ _ _ next_offset pre (omega arith) p_pre n_pre)
                    (
                      word-put_two-Apart s.bytes _ _ _ _ (n + next_offset) (omega arith)
                          (omega arith),
                      SameAt-put_two s.bytes _ _ _ _ next_offset post (omega arith) p_post n_post,
                    );
              back =
                  Back-unlink_inner s.bytes m pre p block n post old.back
                    (SameAt-put_two s.bytes _ _ _ _ prev_offset pre (omega arith) p_pre n_pre)
                    (word-put_two-Apart s.bytes _ _ _ _ (p + prev_offset) (omega arith)
                      (omega arith))
                    (word-put_two_second s.bytes _ _ _ _ (omega arith))
                    (SameAt-put_two s.bytes _ _ _ _ prev_offset post (omega arith) p_post n_post);
              spread = kept_spread;
              inside = All-second (Inside s) pre p block (n ∷ post) old.inside;
            };
            same = λ x off.
                let off' = All-append (λ a. Apart x 8 (a + 8) 16) pre (p ∷ n ∷ post) off in
                word-put_two-Apart s.bytes _ _ _ _ x (omega (arith, off'.1.0))
                  (omega (arith, off'.1.1.0));
          }))

remove_seg-IsRemoved :
    (s : State) (pre : List ℕ) (block : ℕ) (post : List ℕ)
    → IsArena s
    → Inside s block
    → IsFreeList s (s.seg_list (class_at s block)) (pre ++ block ∷ post)
    → Ends (λ _. IsRemoved s (class_at s block) (pre ++ post)) (remove_seg block s)
remove_seg-IsRemoved s pre block post arena inside old = elim (snoc-cases pre) [
  | inl e ↦ rw e (remove-head s block arena inside post (rw e at old))
  | inr (front, p, e) ↦
      rw (e, append_assoc) (behind s block arena inside front p post (rw (e, append_assoc) at old))
]
  where
    behind :
        (s : State) (block : ℕ)
        → IsArena s
        → Inside s block
        → (front : List ℕ) (p : ℕ) (post : List ℕ)
        → IsFreeList s (s.seg_list (class_at s block)) (front ++ p ∷ block ∷ post)
        → Ends (λ _. IsRemoved s (class_at s block) (front ++ p ∷ post)) (remove_seg block s)
    behind s block arena inside front p [] old = remove-last s block arena inside front p old
    behind s block arena inside front p (n ∷ post) old =
        remove-inner s block arena inside front p n post old

-- `remove_free` takes a block that is no mini block out of the list of its class, wherever in the
-- list it stands: the other blocks stay, in their order and doubly linked, the other classes keep
-- their heads, and nothing in memory but links of the blocks that stay changes.
pub remove_free-IsRemoved :
    (s : State) (pre : List ℕ) (block : ℕ) (post : List ℕ)
    → IsArena s
    → extract_size (word s.bytes block) ≢ min_block_size
    → IsFreeList s (s.seg_list (class_at s block)) (pre ++ block ∷ post)
    → Ends (λ _. IsRemoved s (class_at s block) (pre ++ post)) (remove_free block s)
unfolding remove_free is_mini_block get_size
remove_free-IsRemoved s pre block post arena large old =
    let inside : Inside s block = (All-append (Inside s) pre (block ∷ post) old.inside).1.0 in
    rw (load-word s block (omega arith), ==_ne _ _ large)
      (remove_seg-IsRemoved s pre block post arena inside old)
