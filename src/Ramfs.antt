-- ===== src/Ramfs.antt =====
-- src/fs.c: the file system in memory, 256 nodes in an array with parent links.
pub mod Node
pub mod Create
pub mod Table
pub mod Tree
pub mod Content
pub mod Grow
pub mod Update
pub mod Rename
pub mod ReadWrite
pub mod Init
pub mod Remove
pub mod Marks
pub mod Collect
pub mod Search
pub mod Climb
pub mod Prune
pub mod Erase
pub mod Path
pub mod Deep
pub mod Listing
mod Tests
