-- ===== src/Hal/Fat.antt =====
-- hal/src/fat.rs: what a FAT32 volume says about itself, and reading its files.
pub mod Directory
pub mod Boot
pub mod Names
pub mod Storing
pub mod NameLaws
pub mod Layout
pub mod Volume
pub mod Reading
mod Tests
