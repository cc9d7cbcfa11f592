-- ===== src/Router.antt =====
-- src/cachyDB/storage/router.py: the engine's core. A method under the lock of a table is one step, and
-- so is a flush, which the executor runs at some time after it was submitted.
pub mod Packing
pub mod State
pub mod Disk
pub mod Flush
pub mod View
pub mod Write
pub mod Read
pub mod Session
pub mod Tests
pub mod Chunks
