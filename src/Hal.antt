-- ===== src/Hal.antt =====
-- hal/src: the plain data that the kernel and the architecture code share.
pub mod Addr
pub mod Frame
pub mod MemoryMap
pub mod Paging
pub mod Elf
pub mod Fat
mod Tests
