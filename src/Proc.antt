-- ===== src/Proc.antt =====
-- Package `proc`: its types (proc/read.go), the tracker (proc/tracker.go) and the grouper
-- (proc/grouper.go).
pub mod Types
pub mod Counts
pub mod Tracker
pub mod Grouper
pub mod Procfs
