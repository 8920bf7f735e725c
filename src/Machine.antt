-- ===== src/Machine.antt =====
-- The machine that the allocator runs on: the bytes of memory, the variables of memlib.c (dense
-- mode) and the static variables of mm.c, as one state, and commands that read and change it.
mod Memory
mod Command
pub mod Ends
pub mod ReadWrite
unfoldable pub use Memory.{set_byte, read, write}
pub use Memory.{Bytes}
pub use Command.*
