-- ===== src/Pool.antt =====
-- pkg/libapenetwork/src/ape_pool.c and ape_pool.h: linked lists of slots on an explicit heap.
pub mod State
pub mod Seg
pub mod ToCurrent
pub mod ToQueue
pub mod Apart
pub mod ToItem
pub mod Grow
pub mod Fresh
pub mod Push
pub mod Destroy
pub mod Chain
pub mod Gather
pub mod Teardown
pub mod Cleaned
mod Tests
mod DestroyTests
