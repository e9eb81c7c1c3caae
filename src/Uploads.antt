-- ===== src/Uploads.antt =====
-- The reliable upload queue (web/src/uploads): its data, the hash of a file, the parts of a file,
-- the queue's operations, and the interleavings of its asynchronous work.
pub mod Model
pub mod Hash
pub mod Parts
pub mod Retry
pub mod Queue
pub mod Cancel
pub mod Run
pub mod Operations
pub mod Restoring
pub mod Drawer
pub mod Frame
pub mod System
mod Tests
