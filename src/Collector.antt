-- ===== src/Collector.antt =====
-- src/diamond/collector.py: the base class of all collectors, a child module for each part.
pub mod State
pub mod Path
pub mod Derivative
pub mod Flush
pub mod Publish
pub mod Quiet
pub mod Delivery
pub mod Endless
pub mod Config
pub mod Reading
pub mod Processed
pub mod Run
pub mod Search
pub mod Outcome
pub mod Names
pub mod Rates
