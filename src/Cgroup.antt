-- ===== src/Cgroup.antt =====
-- Package `cgroup`: the parsers of cgroupv2 pseudo-files (cgroup/stat.go, cgroup/psi.go)
-- and the reader of files and path patterns (cgroup/reader.go).
pub mod Strings
pub mod Stat
pub mod Psi
pub mod Numbers
pub mod Limits
pub mod Reader
pub mod Patterns
