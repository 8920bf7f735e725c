-- ===== src/Tests/Heaps.antt =====
-- The theorems on the heap as a whole applied to small heaps.
use mathlib.Core.Path.{subst}
use dynamic_memory_allocator.Base.{
  ℕ, ◌+◌, ◌<◌, ◌≡◌, ◌⊎◌, refl, Bool, true, false, [], ◌∷◌, arith, inl, inr,
}
use dynamic_memory_allocator.Machine.{
  State, Run, Bytes, done, fault, out_of_rounds, read, write, set_byte,
}
use dynamic_memory_allocator.Machine.Ends.{Ends, Ends-done}
use dynamic_memory_allocator.Memlib.{max_dense_heap, load, store, mem_read, mem_write}
use dynamic_memory_allocator.Memlib.Word.{word, put_word}
use dynamic_memory_allocator.Memlib.Break.{IsBreak}
use dynamic_memory_allocator.Block.{
  null, pack_all, round_up, dsize, extract_size, is_mini_block, get_size, find_next, find_prev,
  write_pack,
}
use dynamic_memory_allocator.FreeList.{
  insert_free, insert_seg, insert_mini, find_class, remove_free,
}
use dynamic_memory_allocator.FreeList.Segregated.{IsArena}
use dynamic_memory_allocator.FreeList.Listed.{Blocks, IsListed, IsRelinked, With, Without}
use dynamic_memory_allocator.FreeList.Listed.Insert.{insert_free-IsListed}
use dynamic_memory_allocator.FreeList.Listed.Remove.{remove_free-IsListed}
use dynamic_memory_allocator.Allocator.{coalesce_block, extend_heap, malloc, free}
use dynamic_memory_allocator.Heap.{Piece, IsPiece, IsHeap}
use dynamic_memory_allocator.Heap.Packed.{IsPacked, write_pack-IsPacked}
use dynamic_memory_allocator.Heap.Walk.{find_next-IsHeap, find_prev-IsHeap}
use dynamic_memory_allocator.Heap.Open.{}
use dynamic_memory_allocator.Heap.Coalesce.{IsCoalesced, IsFreed}
use dynamic_memory_allocator.Heap.Coalesce.Whole.{coalesce_block-IsCoalesced}
use dynamic_memory_allocator.Heap.Grow.{IsOffered, extend_heap-IsOffered}
use dynamic_memory_allocator.Heap.Allocate.{IsSound, IsGiven, malloc-IsGiven}
use dynamic_memory_allocator.Heap.Begin.{}
use dynamic_memory_allocator.Heap.Dispose.{IsReleased, free-IsReleased}

-- A heap of one block of 32 bytes at 72, free or in use.
abbrev zeros : Bytes
zeros a = 0

abbrev bytes_with : (alloc : Bool) → Bytes
bytes_with alloc =
    put_word
      (put_word
        (put_word (put_word zeros 64 (pack_all 0 true false false)) 72
          (pack_all 32 alloc true false))
        96 (pack_all 32 alloc true false))
      104 (pack_all 0 true alloc false)

abbrev heap_with : Bool → State
heap_with alloc = record {
  bytes = bytes_with alloc;
  heap = 64;
  mem_brk = 112;
  mem_brk_chunk = 4096;
  mem_max_addr = 64 + max_dense_heap;
  pagesize = 4096;
  mprotect = λ a n. true;
  heap_start = 72;
  seg_list = λ i. 0;
  mini_list = 0;
}

abbrev block_with : Bool → Piece
block_with alloc = record { size = 32; alloc = alloc }

none-IsListed : (alloc : Bool) (F : Blocks) → ((a n : ℕ) → F a n → ⊥) → IsListed (heap_with alloc) F
none-IsListed alloc F nothing = record {
  seg = λ c. [];
  minis = [];
  seg_lists = λ c. record { chain = refl; back = tt; spread = tt; inside = tt };
  mini = record { chain = refl; spread = tt; inside = tt };
  sizes = λ a n f. absurd (nothing a n f);
  spread = λ a n b k f. absurd (nothing a n f);
  seg_in = λ c a i. elim i [ ];
  seg_has = λ a n f. absurd (nothing a n f);
  mini_in = λ a i. elim i [ ];
  mini_has = λ a f. absurd (nothing a _ f);
}

words_of :
    (alloc : Bool)
    → (word (bytes_with alloc) 64 ≡ pack_all 0 true false false)
      × (word (bytes_with alloc) 72 ≡ pack_all 32 alloc true false)
      × (word (bytes_with alloc) 96 ≡ pack_all 32 alloc true false)
      × (word (bytes_with alloc) 104 ≡ pack_all 0 true alloc false)
unfolding read write set_byte pack_all
words_of false = (refl, refl, refl, refl)
words_of true = (refl, refl, refl, refl)

block_IsPiece : (alloc : Bool) → IsPiece (bytes_with alloc) 72 true false (block_with alloc)
block_IsPiece alloc = record {
  header = (words_of alloc).1;
  footer = λ free large. (words_of alloc).2;
  aligned = refl;
  least = omega arith;
}

one_IsHeap : (alloc : Bool) → IsHeap (heap_with alloc) (block_with alloc ∷ [])
one_IsHeap alloc = record {
  some_heap = omega arith;
  small = omega arith;
  room = omega arith;
  aligned = refl;
  start = refl;
  prologue = (words_of alloc).0;
  tiles = (block_IsPiece alloc, refl);
  epilogue = (words_of alloc).3;
}

heap_limits : (alloc : Bool) → IsBreak (heap_with alloc)
heap_limits alloc = record { ordered = omega arith; bounded = omega arith; small = omega arith }

used_IsSound : IsSound (heap_with true) (block_with true ∷ [])
used_IsSound = record {
  ready = record {
    heap = one_IsHeap true;
    ordered = (inl refl, tt);
    listed =
        none-IsListed true _
          (λ a n f. elim f [ inl here ↦ (let wrong : true ≡ false = here.2 in cc) | inr v ↦ v ]);
  };
  limits = heap_limits true;
}

free_IsFreed : IsFreed (heap_with false) [] 72 104 false false []
free_IsFreed = record {
  opened = record {
    framed = record {
      some_heap = omega arith;
      small = omega arith;
      room = omega arith;
      aligned = refl;
      start = refl;
      prologue = (words_of false).0;
    };
    left = refl;
    right = (refl, (words_of false).3);
    gap = omega arith;
    multiple = refl;
    ordered_left = tt;
    ordered_right = tt;
    listed = none-IsListed false _ (λ a n f. elim f [ inl v ↦ v | inr v ↦ v ]);
  };
  piece = block_IsPiece false;
}

find_next-IsHeap_example : find_next 72 (heap_with false) ≡ done 104 (heap_with false)
find_next-IsHeap_example =
    find_next-IsHeap (heap_with false) [] (block_with false) [] (one_IsHeap false)

find_prev-IsHeap_example : find_prev 104 (heap_with false) ≡ done 72 (heap_with false)
find_prev-IsHeap_example =
    find_prev-IsHeap (heap_with false) [] (block_with false) [] (one_IsHeap false) refl

write_pack-IsPacked_example :
    Ends
      (λ _. IsPacked (heap_with true) 72 32 false true false)
      (write_pack 72 32 false true false (heap_with true))
write_pack-IsPacked_example =
    write_pack-IsPacked (heap_with true) 72 32 false true false
      (record { small = omega arith; lower = omega arith; upper = omega arith; fits = omega arith })
      (λ free. omega arith)

coalesce_block-IsCoalesced_example :
    Ends (IsCoalesced (heap_with false) [] 72 104 []) (coalesce_block 72 (heap_with false))
coalesce_block-IsCoalesced_example =
    coalesce_block-IsCoalesced (heap_with false) 72 104 false false [] [] free_IsFreed

rounded : round_up 48 dsize ≡ 48
unfolding round_up
rounded = refl

extend_heap-IsOffered_example :
    Ends
      (λ r t.
        ((r ≡ null) × (t ≡ heap_with true))
        ⊎ IsOffered (heap_with true) (block_with true ∷ []) 48 r t)
      (extend_heap 48 (heap_with true))
extend_heap-IsOffered_example =
    extend_heap-IsOffered (heap_with true) (block_with true ∷ []) used_IsSound.ready
      (heap_limits true) 48 refl (omega arith) 48 rounded (omega arith)

malloc-IsGiven_example :
    Ends
      (λ r t.
        ((r ≡ null) × (t ≡ heap_with true))
        ⊎ ((0 < 100) × IsGiven (heap_with true) (block_with true ∷ []) 100 r t))
      (malloc 100 (heap_with true))
malloc-IsGiven_example =
    malloc-IsGiven (heap_with true) (block_with true ∷ []) used_IsSound 100 (omega arith)

free-IsReleased_example :
    Ends (λ _ t. IsReleased (heap_with true) [] 32 [] t) (free 80 (heap_with true))
free-IsReleased_example = free-IsReleased (heap_with true) [] 32 [] used_IsSound

size : extract_size (word (bytes_with false) 72) ≡ 32
unfolding extract_size read write set_byte pack_all
size = refl

-- The free block goes to its list, and out of it again.
abbrev nothing_listed : Blocks
nothing_listed a n = ⊥

insert_free-IsListed_example :
    Ends
      (λ _ t.
        IsRelinked (heap_with false) (With 72 32 nothing_listed) t
        × IsListed t (With 72 32 nothing_listed))
      (insert_free 72 (heap_with false))
insert_free-IsListed_example =
    insert_free-IsListed (heap_with false) nothing_listed 72 32 (omega arith)
      (none-IsListed false nothing_listed (λ a n f. f)) (omega arith) size (λ a n f. elim f [ ])

abbrev after : {A : Type 0} → Run A → State → State
after (done a t) s = t
after fault s = s
after out_of_rounds s = s

listed_state : State
listed_state = after (insert_free 72 (heap_with false)) (heap_with false)

insert_run : insert_free 72 (heap_with false) ≡ done tt listed_state
unfolding listed_state insert_free insert_seg insert_mini find_class is_mini_block get_size load
    store mem_read mem_write extract_size read write set_byte pack_all
insert_run = refl

one-IsListed : IsListed listed_state (With 72 32 nothing_listed)
one-IsListed = (Ends-done (subst (Ends _) insert_run insert_free-IsListed_example)).1

listed-IsArena : IsArena listed_state
unfolding listed_state insert_free insert_seg insert_mini find_class is_mini_block get_size load
    store mem_read mem_write extract_size read write set_byte pack_all
listed-IsArena = (omega arith, omega arith)

remove_free-IsListed_example :
    Ends
      (λ _ t.
        IsRelinked listed_state (With 72 32 nothing_listed) t
        × IsListed t (Without 72 (With 72 32 nothing_listed)))
      (remove_free 72 listed_state)
remove_free-IsListed_example =
    remove_free-IsListed listed_state (With 72 32 nothing_listed) 72 32 listed-IsArena one-IsListed
      (inl (refl, refl))
