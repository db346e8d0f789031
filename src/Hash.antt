-- ===== src/Hash.antt =====
-- pkg/libapenetwork/src/ape_hash.c and ape_hash.h: hash tables of chains, and MurmurHash2.
pub mod Murmur
pub mod Bytes
pub mod Chain
pub mod Laws
pub mod State
pub mod Table
pub mod Insert
pub mod Erase
pub mod Ints
pub mod Strings
pub mod Init
pub mod Free
pub mod Freed
mod Tests
