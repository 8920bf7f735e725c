-- ===== src/Check/Reached.antt =====
-- `mm_checkheap` in the states that a client of the allocator reaches.
use dynamic_memory_allocator.Base.{◌≡◌, true, List}
use dynamic_memory_allocator.Machine.{State, done}
use dynamic_memory_allocator.Heap.Served.{Grant}
use dynamic_memory_allocator.Heap.Client.{Reaches, Reaches-IsServed}
use dynamic_memory_allocator.Check.{mm_checkheap}
use dynamic_memory_allocator.Check.Lists.{mm_checkheap-accepts}

-- In every state that a client can reach from fresh memory by `mm_init`, calls of `malloc`,
-- `free`, `realloc` and `calloc` and writes to payloads that it holds, `mm_checkheap` ends, changes
-- nothing and answers true.
pub Reaches-mm_checkheap :
    (s : State) (live : List Grant) → Reaches s live → mm_checkheap s ≡ done true s
Reaches-mm_checkheap s live reached =
    let served = Reaches-IsServed s live reached in
    mm_checkheap-accepts s served.ps served.sound.ready
