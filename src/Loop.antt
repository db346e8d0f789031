-- ===== src/Loop.antt =====
-- pkg/libapenetwork/src/ape_events_loop.c: what the event loop does with an event of a client's socket.
pub mod Client
pub mod Ended
mod Tests
