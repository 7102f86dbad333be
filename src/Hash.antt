-- ===== src/Hash.antt =====
-- hash/uc_hash.c and include/uc_hash.h: the chained hash table.
pub mod Key
pub mod Crc
pub mod Table
pub mod Walk
pub mod History
mod Tests
