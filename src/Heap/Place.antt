-- ===== src/Heap/Place.antt =====
-- Placing a request in a free block: the steps that turn the front of the gap into a block in use.
pub mod Taken
mod Split
mod Carve
pub use dynamic_memory_allocator.Heap.Place.Carve.{carved, place-IsReady}
