-- ===== src/Processes.antt =====
-- What a daemon samples: the processes of its computer and their counters.
pub mod Pids
pub mod Monitor
pub mod Collector
