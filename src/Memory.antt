-- ===== src/Memory.antt =====
-- kernel/src/memory: who owns which memory.
pub mod FrameAllocator
pub mod FreeList
mod Tests
