-- ===== src/Tests.antt =====
-- Concrete runs of the models.
pub mod Floats
pub mod Worlds
mod Conversions
mod Collectors
mod Processes
mod Loading
mod Readings
mod Documents
mod Reloads
mod Status
