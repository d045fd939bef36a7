-- ===== src/Sys.antt =====
-- More collectors of the operating system, under src/diamond/collectors: network, conntrack,
-- interrupt, loadavg, sockstat and vmstat.
pub mod Network
pub mod Conntrack
pub mod Interrupt
pub mod Sockets
pub mod Sums
