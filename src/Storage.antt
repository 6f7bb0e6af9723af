-- ===== src/Storage.antt =====
-- mdv_storage/mdv_lmdb.c and mdv_storage/mdv_2pset.c: the stored maps and the two-phase set of
-- objects on them. LMDB itself is a parameter (`Storage.Lmdb`).
pub mod Rows
pub mod Lmdb
pub mod Session
pub mod TwoPSet
pub mod Objects
pub mod Scanned
pub mod Sets
pub mod Refine
pub mod Delete
pub mod Batch
pub mod Steps
pub mod Ids
pub mod Run
pub mod Deleted
pub mod Sound
pub mod Next
pub mod Reserved
pub mod Surely
pub mod Whole
pub mod Memory
pub mod Limited
mod Tests
