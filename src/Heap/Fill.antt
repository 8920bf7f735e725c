-- ===== src/Heap/Fill.antt =====
-- Making the gap one piece: its header and footer, the flags of what stands behind it, and its place
-- in the lists.
mod Gap
mod Marked
mod Unlisted
pub use dynamic_memory_allocator.Heap.Fill.Gap.{
  IsFlanked, piece_in, filler, IsFilled, write_pack-IsFilled, IsOpen-inside, IsKept-inside,
}
pub use dynamic_memory_allocator.Heap.Fill.Marked.{IsMarked, IsPacked-IsMarked, write_pack-IsMarked}
pub use dynamic_memory_allocator.Heap.Fill.Unlisted.{IsUnlisted, insert_free-IsReady}
