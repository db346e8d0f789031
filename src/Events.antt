-- ===== src/Events.antt =====
-- pkg/libapenetwork/src/ape_events.c, ape_events.h and ape_event_epoll.c: the table of descriptors.
pub mod Epoll
pub mod State
pub mod PowerOfTwo
pub mod Table
pub mod Masks
mod Tests
