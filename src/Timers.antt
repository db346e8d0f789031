-- ===== src/Timers.antt =====
-- The timers of ape_timers_next.c.
pub mod State
pub mod Run
pub mod Links
pub mod Ends
pub mod Visits
pub mod Loop
pub mod Asyncs
pub mod Process
pub mod Tests
