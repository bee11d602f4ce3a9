-- ===== src/Pool.antt =====
-- src/storage/buffer_pool: the buffer pool, a cache of disk pages in frames of memory.
pub mod Frame
pub mod PageTable
pub mod FreeFrames
pub mod Clock
pub mod Metrics
pub mod Disk
pub mod Manager
pub mod System
