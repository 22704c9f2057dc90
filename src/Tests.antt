-- ===== src/Tests.antt =====
-- Concrete runs: each theorem applied to small inputs.
mod Data
mod Tracker
mod Grouper
mod Cgroup
mod Config
mod Collector
mod Procfs
mod Scrape
mod Cmd
