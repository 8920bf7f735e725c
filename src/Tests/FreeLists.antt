-- ===== src/Tests/FreeLists.antt =====
-- The theorems on free lists, at a heap of three free blocks of 64, 96 and 80 bytes in one class
-- and two mini blocks.
use dynamic_memory_allocator.Base.{
  ℕ, ◌≡◌, refl, ◌<◌, List, [], ◌∷◌, All, ◌==◌, ==_iff, Bool-cases, true, if◌then◌else◌, inl, inr,
  arith,
}
use dynamic_memory_allocator.Machine.{State, done, Bytes, read, write}
use dynamic_memory_allocator.Machine.Ends.{Ends}
use dynamic_memory_allocator.Memlib.Word.{put_word}
use dynamic_memory_allocator.Memlib.{load, mem_heapsize}
use dynamic_memory_allocator.Block.{extract_size, extract_alloc, get_size, get_alloc}
use dynamic_memory_allocator.FreeList.{
  insert_free, remove_free, find_fit, find_class, seg_length, rounds,
}
use dynamic_memory_allocator.FreeList.Segregated.{IsFreeList, class_at}
use dynamic_memory_allocator.FreeList.Mini.{IsMiniList, insert_mini-IsInserted}
use dynamic_memory_allocator.FreeList.Mini
use dynamic_memory_allocator.FreeList.Insert
use dynamic_memory_allocator.FreeList.Insert.{insert_seg-IsInserted}
use dynamic_memory_allocator.FreeList.Remove
use dynamic_memory_allocator.FreeList.Remove.{remove_free-IsRemoved}
use dynamic_memory_allocator.FreeList.RemoveMini
use dynamic_memory_allocator.FreeList.RemoveMini.{remove_free_mini-IsRemoved}
use dynamic_memory_allocator.FreeList.Fit.{IsSegList, IsFitFor, find_fit-IsFitFor}

-- Words stored one after another.
store_all : List (ℕ × ℕ) → Bytes
store_all [] = λ a. 0
store_all ((p, v) ∷ rest) = put_word (store_all rest) p v

-- The headers of the free blocks, each behind an allocated one, and their links; 4904 and 4952
-- are blocks in no list.
memory : Bytes
unfolding store_all
memory = store_all (
    (4104, 66)
    ∷ (4120, 4200)
    ∷ (4200, 98)
    ∷ (4208, 4104)
    ∷ (4216, 4400)
    ∷ (4400, 82)
    ∷ (4408, 4200)
    ∷ (4600, 18)
    ∷ (4608, 4704)
    ∷ (4704, 18)
    ∷ (4904, 66)
    ∷ (5000, 18)
    ∷ [])

state : State
state = record {
  bytes = memory;
  heap = 4096;
  mem_brk = 8192;
  mem_brk_chunk = 8192;
  mem_max_addr = 65536;
  pagesize = 4096;
  mprotect = λ a n. true;
  heap_start = 4104;
  seg_list = λ i. if i == 2 then 4104 else 0;
  mini_list = 4600;
}

nodes : ℕ → List ℕ
nodes i = if i == 2 then 4104 ∷ 4200 ∷ 4400 ∷ [] else []

class_two : IsFreeList state 4104 (4104 ∷ 4200 ∷ 4400 ∷ [])
unfolding state memory read write
class_two = record {
  chain = (refl, omega arith, (refl, omega arith, (refl, omega arith, refl)));
  back = (refl, (refl, tt));
  spread = omega arith;
  inside = omega arith;
}

minis : IsMiniList state 4600 (4600 ∷ 4704 ∷ [])
unfolding state memory read write
minis = record {
  chain = (refl, omega arith, (refl, omega arith, refl));
  spread = omega arith;
  inside = omega arith;
}

empty_class : IsFreeList state 0 []
empty_class = record { chain = refl; back = tt; spread = tt; inside = tt }

insert_seg-IsInserted_example :
    Ends (λ _. Insert.IsInserted state 4904 2 (4104 ∷ 4200 ∷ 4400 ∷ [])) (insert_free 4904 state)
unfolding state memory read write extract_size find_class
insert_seg-IsInserted_example =
    insert_seg-IsInserted state 4904 (4104 ∷ 4200 ∷ 4400 ∷ []) (omega arith) (omega arith)
      (omega arith) class_two (omega arith)

insert_mini-IsInserted_example :
    Ends (λ _. Mini.IsInserted state 5000 (4600 ∷ 4704 ∷ [])) (insert_free 5000 state)
unfolding state memory read write extract_size
insert_mini-IsInserted_example =
    insert_mini-IsInserted state 5000 (4600 ∷ 4704 ∷ []) (omega arith) (omega arith) refl minis
      (omega arith)

-- The block in the middle, and the last mini block.
remove_free-IsRemoved_example :
    Ends (λ _. Remove.IsRemoved state 2 (4104 ∷ 4400 ∷ [])) (remove_free 4200 state)
unfolding state memory read write extract_size find_class
remove_free-IsRemoved_example =
    remove_free-IsRemoved state (4104 ∷ []) 4200 (4400 ∷ []) (omega arith) (omega arith) class_two

remove_free_mini-IsRemoved_example :
    Ends (λ _. RemoveMini.IsRemoved state (4600 ∷ [])) (remove_free 4704 state)
unfolding state memory read write extract_size
remove_free_mini-IsRemoved_example =
    remove_free_mini-IsRemoved state (4600 ∷ []) 4704 [] (omega arith) refl minis

lists_of : (i : ℕ) → i < seg_length → IsFreeList state (state.seg_list i) (nodes i)
unfolding state nodes
lists_of i h = elim (Bool-cases (i == 2)) [ inl e ↦ rw e class_two | inr ne ↦ rw ne empty_class ]

classes_of : (i : ℕ) → i < seg_length → All (λ a. class_at state a ≡ i) (nodes i)
unfolding state nodes memory read write extract_size find_class
classes_of i h = elim (Bool-cases (i == 2)) [
  | inl e ↦ rw ((==_iff i 2).0 e) (refl, (refl, (refl, tt)))
  | inr ne ↦ rw ne tt
]

IsSegList-of : IsSegList state nodes
IsSegList-of = record { lists = lists_of; classes = classes_of }

find_fit-IsFitFor_example :
    Ends (λ r t. (t ≡ state) × IsFitFor state nodes 80 r) (find_fit 80 state)
unfolding state
find_fit-IsFitFor_example =
    find_fit-IsFitFor state nodes 80 (omega arith) (omega arith) IsSegList-of

-- Of the blocks of 64, 96 and 80 bytes a request of 80 is given the last.
find_fit_best : find_fit 80 state ≡ done 4400 state
unfolding find_fit state memory read write find_class rounds mem_heapsize get_alloc load get_size
    extract_alloc extract_size
find_fit_best = refl
