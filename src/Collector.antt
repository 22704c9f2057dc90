-- ===== src/Collector.antt =====
-- Package `collector`: what a scrape sends to Prometheus (collector/cgroup_collector.go,
-- collector/process_collector.go).
pub mod Metric
pub mod Descs
pub mod Families
pub mod Cgroups
pub mod Labels
pub mod Names
pub mod Policy
pub mod Windows
pub mod Paths
pub mod Overlaps
pub mod ProcessDescs
pub mod Scrape
pub mod Failures
pub mod Errors
pub mod Announced
