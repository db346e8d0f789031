-- ===== src/Socket.antt =====
-- pkg/libapenetwork/src/ape_socket.c and ape_socket.h: a socket, its jobs and its end.
pub mod Types
pub mod Read
pub mod Jobs
pub mod Close
pub mod Lifecycle
pub mod Release
pub mod Write
pub mod Packets
pub mod Slots
pub mod Sent
pub mod Queued
pub mod Writing
mod Tests
mod WriteTests
pub mod DoJobs
pub mod Sending
pub mod Settling
pub mod Rounds
mod DoJobsTests
pub mod Handing
pub mod Reading
pub mod Datagrams
mod ReadTests
pub mod Open
pub mod Attempts
pub mod Opening
pub mod Connecting
pub mod Stranded
pub mod Accepting
mod OpenTests
pub mod Files
pub mod Free
mod FreeTests
