-- ===== src/Mr.antt =====
-- The MapReduce library: 6.824/src/mr.
pub mod Master
pub mod Worker
pub mod Sequential
pub mod Apps
