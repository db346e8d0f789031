-- ===== src/Buffer.antt =====
-- pkg/libapenetwork/src/ape_buffer.c and ape_buffer.h, as built without zlib.
pub mod State
pub mod Growth
pub mod Append
pub mod Tail
pub mod Puts
pub mod Appended
pub mod Camelify
pub mod Utf8
pub mod Recode
pub mod Trim
pub mod ToUtf8
pub mod Decode
pub mod FromUtf8
mod Tests
