-- ===== src/Apps.antt =====
-- apps/: the command-line programs, by what they print and return. The text around the numbers
-- that they print is left out.
pub mod Scan
pub mod InspectWal
pub mod Replay
pub mod Pub
pub mod Sub
pub mod Bench
