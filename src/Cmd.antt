-- ===== src/Cmd.antt =====
-- The program cmd/process-exporter: the choice of processes on the command line, and what the flags
-- make of the collector.
pub mod NameMapper
pub mod Listed
pub mod Options
pub mod Original
