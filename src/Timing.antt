-- ===== src/Timing.antt =====
-- shared/km/timing.h: the 32-bit timestamp unwrapper, ticks in microseconds, and the exact frame pacer.
pub mod Unwrap
pub mod Pacer
pub mod Ticks
mod Tests
