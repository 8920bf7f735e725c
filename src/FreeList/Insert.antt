-- ===== src/FreeList/Insert.antt =====
-- `insert_free` on a block of the segregated list.
use dynamic_memory_allocator.Base.{ℕ, ◌+◌, ◌≡◌, ◌≢◌, refl, List, [], ◌∷◌, All, arith, ==_ne}
use dynamic_memory_allocator.Machine.{State}
use dynamic_memory_allocator.Machine.Ends.{Ends, ends}
use dynamic_memory_allocator.Memlib.Word.{
  word, put, put_two, load-word, store-put, word-put_two_first, word-put_two_second,
  word-put_two-Apart,
}
use dynamic_memory_allocator.Block.{
  null, min_block_size, next_offset, prev_offset, extract_size, get_size, is_mini_block,
}
use dynamic_memory_allocator.FreeList.{find_class, insert_seg, insert_free, set_seg}
use dynamic_memory_allocator.FreeList.Chain.{
  Chain, Clear, Chain-same, BackFrom-same, Away, Away-of_Clear, SameAt-put_two, BackFrom,
}
use dynamic_memory_allocator.FreeList.Segregated.{
  IsArena, Inside, class_at, IsFreeList, SameOffLinks,
}

-- What is true of the state after `block` is put in front of class `c`.
pub record IsInserted (s : State) (block c : ℕ) (xs : List ℕ) (t : State) : Type 0 where
  pub state : t ≡ record (set_seg c block s) { bytes = t.bytes }
  pub list : IsFreeList t block (block ∷ xs)
  pub same : SameOffLinks s.bytes t.bytes (block ∷ xs)

module _ (s : State) (block c : ℕ) (arena : IsArena s) (inside : Inside s block)
    (class : find_class (extract_size (word s.bytes block)) ≡ c) where
  abbrev linked : State
  linked = set_seg c block s

  insert-first : s.seg_list c ≡ null → Ends (λ _. IsInserted s block c []) (insert_seg block s)
  unfolding insert_seg get_size
  insert-first empty =
      rw
        (
          load-word s block (omega arith),
          class,
          empty,
          store-put linked (block + next_offset) null (omega arith),
          store-put (put linked (block + next_offset) null) (block + prev_offset) null
              (omega arith),
        )
        (ends (record {
          state = refl;
          list = record {
            chain =
                (refl, omega arith, word-put_two_first s.bytes _ _ _ _ (omega arith) (omega arith));
            back = tt;
            spread = (tt, tt);
            inside = (inside, tt);
          };
          same = λ x off. word-put_two-Apart s.bytes _ _ _ _ x (omega arith) (omega arith);
        }))

  insert-next :
      (a : ℕ) (xs : List ℕ)
      → s.seg_list c ≡ a
      → IsFreeList s a (a ∷ xs)
      → All (Clear block) (a ∷ xs)
      → Ends (λ _. IsInserted s block c (a ∷ xs)) (insert_seg block s)
  unfolding insert_seg get_size
  insert-next a xs first old clear =
      let m = put_two s.bytes (a + prev_offset) block (block + next_offset) a in
      let from_a : Away (a + prev_offset) xs =
        Away-of_Clear a prev_offset xs (omega arith) old.spread.0 in
      let from_block : Away (block + next_offset) xs =
        Away-of_Clear block next_offset xs (omega arith) clear.1 in
      let chain_rest : Chain next_offset m (word m (a + next_offset)) xs =
        rw
          (word-put_two-Apart s.bytes (a + prev_offset) block (block + next_offset) a
            (a + next_offset) (omega arith) (omega arith))
          (Chain-same s.bytes m next_offset _ xs
            (SameAt-put_two s.bytes _ _ _ _ next_offset xs (omega arith) from_a from_block)
            old.chain.2) in
      let back_rest : BackFrom m a xs =
        BackFrom-same s.bytes m a xs
          (SameAt-put_two s.bytes _ _ _ _ prev_offset xs (omega arith) from_a from_block)
          old.back in
      rw
        (
          load-word s block (omega arith),
          class,
          first,
          ==_ne a null old.chain.1,
          store-put linked (a + prev_offset) block (omega arith),
          store-put (put linked (a + prev_offset) block) (block + next_offset) a (omega arith),
        )
        (ends (record {
          state = refl;
          list = record {
            chain = (
              refl,
              omega arith,
              (word-put_two_second s.bytes _ _ _ _ (omega arith), old.chain.1, chain_rest),
            );
            back = (word-put_two_first s.bytes _ _ _ _ (omega arith) (omega arith), back_rest);
            spread = (clear, old.spread);
            inside = (inside, old.inside);
          };
          same = λ x off. word-put_two-Apart s.bytes _ _ _ _ x (omega arith) (omega arith);
        }))

-- `insert_free` puts a block that is no mini block in front of the list of its class: the list then
-- holds the block and the old blocks, doubly linked, and nothing but links of these changes.
pub insert_seg-IsInserted :
    (s : State) (block : ℕ) (xs : List ℕ)
    → IsArena s
    → Inside s block
    → extract_size (word s.bytes block) ≢ min_block_size
    → IsFreeList s (s.seg_list (class_at s block)) xs
    → All (Clear block) xs
    → Ends (λ _. IsInserted s block (class_at s block) xs) (insert_free block s)
unfolding insert_free is_mini_block get_size
insert_seg-IsInserted s block [] arena inside large old clear =
    rw (load-word s block (omega arith), ==_ne _ _ large)
      (insert-first s block _ arena inside refl old.chain)
insert_seg-IsInserted s block (a ∷ xs) arena inside large old clear =
    rw (load-word s block (omega arith), ==_ne _ _ large)
      (insert-next s block _ arena inside refl a xs old.chain.0 (rw old.chain.0 at old) clear)
