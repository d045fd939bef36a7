-- ===== src/Icinga.antt =====
-- src/diamond/collectors/icinga_stats/icinga_stats.py, for the lines of the status file.
pub mod Parse
pub mod Entities
pub mod Program
pub mod Run
pub mod Tallies
pub mod Counts
pub mod Blocks
pub mod RoundTrip
pub mod Slots
