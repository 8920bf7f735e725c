-- ===== src/Tests/Driver.antt =====
-- The theorems on the driver's data structures.
use dynamic_memory_allocator.Base.{
  ℕ, ◌+◌, ◌*◌, ◌%◌, ◌==◌, if◌then◌else◌, ◌<◌, ◌≡◌, ◌↔◌, refl, true, some, [], arith,
}
use dynamic_memory_allocator.Machine.{State, ◌>>=◌}
use dynamic_memory_allocator.Machine.Ends.{Ends}
use dynamic_memory_allocator.Tree.{Tree, signed_rank, tree_find, tree_find_nearest, tree_insert}
use dynamic_memory_allocator.Tree.Find.{
  Shape, leaf, branch, IsOrdered, LookedUp, tree_find-LookedUp,
}
use dynamic_memory_allocator.Ranges.{
  overlaps_neighbour, successor, link_range, RangeSet, dbg_cheap, is_aligned, outside_heap,
  add_range,
}
use dynamic_memory_allocator.Ranges.Links.{}
use dynamic_memory_allocator.Traces.{Trace, wall}
use dynamic_memory_allocator.Payloads.{fill_size, set_base, randomize_block, check_index}
use dynamic_memory_allocator.Payloads.Garbled.{
  IsIntact, IsRandomized, IsChecked, check_index_iff, randomize_block-IsRandomized,
  check_index-randomize_block,
}

abbrev heap_state : State
heap_state = record {
  bytes = λ a. a % 256;
  heap = 4096;
  mem_brk = 8192;
  mem_brk_chunk = 8192;
  mem_max_addr = 65536;
  pagesize = 4096;
  mprotect = λ a n. true;
  heap_start = 4104;
  seg_list = λ i. 0;
  mini_list = 0;
}

abbrev trace : Trace
trace = record {
  data_bytes = 2500;
  num_ids = 5;
  num_ops = 0;
  weight = wall;
  ops = [];
  blocks = λ i. 5000;
  block_sizes = λ i. 2500;
  block_rand_base = λ i. 7;
}

abbrev random_data : ℕ → ℕ
random_data i = (i * 3 + 1) % 256

random_data-lt : (i : ℕ) → random_data i < 256
random_data-lt i = omega arith

trace-IsChecked : IsChecked trace 4 dbg_cheap heap_state
unfolding fill_size
trace-IsChecked = record {
  checks = cc;
  has_block = omega arith;
  small = omega arith;
  range = omega arith;
}

check_index_iff_example :
    Ends
      (λ answer t.
        (t ≡ heap_state)
        × ((answer ≡ true) ↔ IsIntact random_data 5000 7 heap_state.bytes 0 (fill_size 2500)))
      (check_index dbg_cheap random_data trace 4 heap_state)
check_index_iff_example = check_index_iff random_data trace 4 dbg_cheap heap_state trace-IsChecked

randomize_block-IsRandomized_example :
    Ends
      (λ noted t.
        (noted ≡ set_base trace 4 99)
        × IsRandomized random_data 5000 99 heap_state 0 (fill_size 2500) t)
      (randomize_block dbg_cheap random_data trace 4 99 heap_state)
randomize_block-IsRandomized_example =
    randomize_block-IsRandomized random_data trace 4 dbg_cheap heap_state 99 random_data-lt
      trace-IsChecked

check_index-randomize_block_example :
    Ends
      (λ answer t. answer ≡ true)
      ((randomize_block dbg_cheap random_data trace 4 99 >>= λ noted.
          check_index dbg_cheap random_data noted 4)
        heap_state)
check_index-randomize_block_example =
    check_index-randomize_block random_data trace 4 dbg_cheap heap_state 99 random_data-lt
      trace-IsChecked

-- Keys 10, 20, 30 with the root in the middle; the node at address 8 * n has the key 10 * n.
abbrev three : Tree
three = record {
  nodes = λ i.
      if i == 16
      then record { left = 8; right = 24; parent = 0; key = 20; user_record = 200 }
      else record {
        left = 0;
        right = 0;
        parent = 16;
        key = if i == 8 then 10 else 30;
        user_record = i;
      };
  root = 16;
  node_count = 3;
  comparison_count = 0;
}

abbrev three_shape : Shape
three_shape = branch (branch leaf 8 leaf) 16 (branch leaf 24 leaf)

three-IsOrdered : IsOrdered three three_shape
unfolding signed_rank
three-IsOrdered = ((omega arith, tt, tt), (omega arith, tt, tt), (tt, tt, tt, tt), (tt, tt, tt, tt))

tree_find-LookedUp_example : LookedUp three 30 three_shape (tree_find three 30)
tree_find-LookedUp_example =
    tree_find-LookedUp three 30 three_shape (omega arith)
      (refl, omega arith, (refl, omega arith, refl, refl), (refl, omega arith, refl, refl))
      three-IsOrdered

-- A range from 4224 to 4255 in the heap, at address 800, with its node at address 16.
abbrev one_range : RangeSet
one_range = record {
  ranges = λ i. record { lo = 4224; hi = 4255; index = 0; next = 0; prev = 0 };
  list = 800;
  lo_tree = record {
    nodes = λ i. record { left = 0; right = 0; parent = 0; key = 4224; user_record = 800 };
    root = 16;
    node_count = 1;
    comparison_count = 0;
  };
}

-- The payload from 4208 to 4239 overlaps the range from 4224 on. It is accepted, and the list of the
-- ranges is the new one alone.
overlap_accepted :
    (q : RangeSet) × (add_range dbg_cheap 4096 8191 one_range 900 32 4208 32 1 ≡ some (true, q))
    × (q.list ≡ 900)
    × ((q.ranges 900).next ≡ 0)
unfolding add_range is_aligned outside_heap overlaps_neighbour successor link_range
    tree_find_nearest tree_insert
overlap_accepted = (_, refl, refl, refl)
