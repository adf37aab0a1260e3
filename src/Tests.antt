-- ===== src/Tests.antt =====
-- Concrete inputs: each theorem applied where its hypotheses hold, and runs of the definitions.
pub mod Data
mod Ring
mod Brokers
mod Log
mod Small
mod Cli
mod Pub
mod Tools
mod ZeroCopy
mod Apps
mod Histogram
mod Io
