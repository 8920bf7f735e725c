-- ===== src/FreeList/Mini.antt =====
-- The list of mini blocks.
use dynamic_memory_allocator.Base.{ℕ, ◌+◌, ◌≡◌, ◌≢◌, refl, List, [], ◌∷◌, All, arith, ==_ne}
use dynamic_memory_allocator.Machine.{State}
use dynamic_memory_allocator.Machine.Ends.{Ends, ends}
use dynamic_memory_allocator.Memlib.Word.{
  word, put_word, load-word, store-put, word-put_self, word-put-Apart,
}
use dynamic_memory_allocator.Block.{
  null, mini_next_offset, min_block_size, extract_size, get_size, is_mini_block,
}
use dynamic_memory_allocator.FreeList.{insert_mini, insert_free, set_mini}
use dynamic_memory_allocator.FreeList.Chain.{
  Chain, Clear, Spread, Chain-same, Away, Away-of_Clear, SameAt-put,
}
use dynamic_memory_allocator.FreeList.Segregated.{IsArena, Inside, SameOffMiniLinks}

-- From `p` on, the singly linked list of exactly these blocks.
pub record IsMiniList (s : State) (p : ℕ) (xs : List ℕ) : Type 0 where
  pub chain : Chain mini_next_offset s.bytes p xs
  pub spread : Spread xs
  pub inside : All (Inside s) xs

-- What is true of the state after `block` is put in front.
pub record IsInserted (s : State) (block : ℕ) (xs : List ℕ) (t : State) : Type 0 where
  pub state : t ≡ record (set_mini block s) { bytes = t.bytes }
  pub list : IsMiniList t block (block ∷ xs)
  pub same : SameOffMiniLinks s.bytes t.bytes (block ∷ [])

module _ (s : State) (block : ℕ) (arena : IsArena s) (inside : Inside s block) where
  insert-first : s.mini_list ≡ null → Ends (λ _. IsInserted s block []) (insert_mini block s)
  unfolding insert_mini
  insert-first empty =
      rw (empty, store-put (set_mini block s) (block + mini_next_offset) null (omega arith))
        (ends (record {
          state = refl;
          list = record {
            chain = (refl, omega arith, word-put_self s.bytes _ null (omega arith));
            spread = (tt, tt);
            inside = (inside, tt);
          };
          same = λ x off. word-put-Apart s.bytes _ null x (omega arith);
        }))

  insert-next :
      (a : ℕ) (xs : List ℕ)
      → IsMiniList s s.mini_list (a ∷ xs)
      → All (Clear block) (a ∷ xs)
      → Ends (λ _. IsInserted s block (a ∷ xs)) (insert_mini block s)
  unfolding insert_mini
  insert-next a xs old clear =
      let first = s.mini_list in
      let m = put_word s.bytes (block + mini_next_offset) first in
      let away : Away (block + mini_next_offset) (a ∷ xs) =
        Away-of_Clear block mini_next_offset (a ∷ xs) (omega arith) clear in
      let kept : Chain mini_next_offset m first (a ∷ xs) =
        Chain-same s.bytes m mini_next_offset first (a ∷ xs)
          (SameAt-put s.bytes _ first mini_next_offset (a ∷ xs) (omega arith) away) old.chain in
      let some_first : first ≢ null = rw old.chain.0 old.chain.1 in
      let linked : word m (block + mini_next_offset) ≡ first =
        word-put_self s.bytes (block + mini_next_offset) first (omega arith) in
      rw (==_ne first null some_first, store-put s (block + mini_next_offset) first (omega arith))
        (ends (record {
          state = refl;
          list = record {
            chain = (refl, omega arith, rw linked kept);
            spread = (clear, old.spread);
            inside = (inside, old.inside);
          };
          same = λ x off. word-put-Apart s.bytes _ first x (omega arith);
        }))

-- `insert_free` puts a mini block in front of the list of mini blocks, and changes nothing but
-- its link.
pub insert_mini-IsInserted :
    (s : State) (block : ℕ) (xs : List ℕ)
    → IsArena s
    → Inside s block
    → extract_size (word s.bytes block) ≡ min_block_size
    → IsMiniList s s.mini_list xs
    → All (Clear block) xs
    → Ends (λ _. IsInserted s block xs) (insert_free block s)
unfolding insert_free is_mini_block get_size
insert_mini-IsInserted s block [] arena inside mini old clear =
    rw (load-word s block (omega arith), mini) (insert-first s block arena inside old.chain)
insert_mini-IsInserted s block (a ∷ xs) arena inside mini old clear =
    rw (load-word s block (omega arith), mini) (insert-next s block arena inside a xs old clear)
