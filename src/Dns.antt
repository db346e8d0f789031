-- ===== src/Dns.antt =====
-- pkg/libapenetwork/src/ape_dns.c: the sockets of c-ares and its answers.
pub mod State
pub mod Table
pub mod Watch
pub mod Request
pub mod Life
mod Tests
