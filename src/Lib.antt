-- ===== src/Lib.antt =====
-- process-exporter reads /proc, follows the processes that a namer wants through their whole lives,
-- and exports counters and gauges for each group of them; it also exports cgroupv2 files. This
-- library models its core: the tracker and the grouper of package `proc`, the parsers and the reader
-- of package `cgroup`, the namer of package `config`, the two collectors of package `collector`, and
-- the selection of processes on the command line.
--
-- How the parts interact. `Grouper.Update` calls `Tracker.Update`, which goes through an `Iter` of
-- processes, updates those it tracks, removes those that have gone, asks the namer about new ones,
-- lets the others inherit a group from an ancestor, and returns a report for each tracked process.
-- The grouper adds the reports up by group and adds what earlier cycles counted. The reader of
-- package `cgroup` turns patterns into cgroup paths and files into values. `scrape` of package
-- `collector` calls `Grouper.Update`, counts the errors and sends the metrics of each group; for a
-- group of one cgroup it sends the metrics of the cgroup too, and at the end those of the configured
-- cgroup paths.
--
-- - Proc/Types.antt, Proc/Counts.antt: the types of proc/read.go and common.go, `Counts.Add`,
--   `Counts.Sub`, `States.Add`. `Proc` and `Iter` are the answers that their methods give.
-- - Proc/Procfs.antt: `proccache` and its cached reads, `FS`, `GetProcID` of proc/read.go, and what they
--   use of the library procfs (`Library`); Proc/Procfs/Details.antt: `GetStatic`;
--   Proc/Procfs/Metrics.antt: `GetCounts`, `GetStates`, `GetMetrics`; Proc/Procfs/Listing.antt:
--   `procIterator`, `NewFS`, `AllProcs`, `GetThreads`; Proc/Procfs/Scanning.antt:
--   `handleProc` on a process of procfs, read call by call, and the loop of `update` over such
--   processes. The other files below Proc/Procfs hold theorems.
-- - Proc/Tracker/Defs.antt: `Tracker`, `track`, `ignore`, `trackedProc.update`, `getUpdate` of
--   proc/tracker.go; Proc/Tracker/Scan.antt: `handleProc`, `update`; Proc/Tracker/Ancestry.antt:
--   `checkAncestry`; Proc/Tracker/Cycle.antt: `lookupUid`, `Update`. The other files below
--   Proc/Tracker hold theorems.
-- - Proc/Grouper/Group.antt: `Group`, `groupadd` of proc/grouper.go; Proc/Grouper/Defs.antt:
--   `Grouper`, `groups`, `threads`, `Update`. The other files below Proc/Grouper hold theorems.
-- - Cgroup/Stat.antt: cgroup/stat.go; Cgroup/Psi.antt: cgroup/psi.go; Cgroup/Reader.antt:
--   cgroup/reader.go; Cgroup/Strings.antt: what they use of `strings`, `strconv` and `bufio`.
--   Cgroup/Numbers.antt, Cgroup/Limits.antt and Cgroup/Patterns.antt hold theorems.
-- - Config/Matchers.antt: the matchers and namers of config/config.go; Config/Rules.antt: `ToConfig`.
--   Config/Settings.antt: `UnmarshalYAML`. The other files below Config hold theorems.
-- - Collector/Metric.antt: a descriptor and a metric of the Prometheus client. Collector/Descs.antt,
--   Collector/Families.antt, Collector/Cgroups.antt: the descriptors of collector/cgroup_collector.go,
--   the metrics of one cgroup (`collectOne` and what it calls), and construction, `collectGroup`,
--   `collectPaths`, `collectSummary`. Collector/ProcessDescs.antt, Collector/Scrape.antt and
--   Collector/Scrape/Metrics.antt: the descriptors, `NewProcessCollector`, `Describe` and `scrape` of
--   collector/process_collector.go, and what `scrape` sends for a group.
--   The other files below Collector hold theorems.
-- - Cmd/NameMapper.antt: `parseNameMapper`, `nameMapperRegex.MatchAndName` and the list of `-procnames`
--   of cmd/process-exporter/main.go; Cmd/Options.antt: what `main` makes of the flags up to
--   `NewProcessCollector`. The other files below Cmd hold theorems.
-- - Prelude: shared types and lemmas. Tests: each theorem at concrete inputs.
--
-- How values are modelled. A pid is a natural number. Go's `int` counters and `uint64` are 64-bit
-- patterns, and their sums and differences wrap modulo 2^64 (`add64`, `sub64`). `float64` is the
-- interface `Float64`, of which no law is assumed. A `time.Time` is the number of nanoseconds since
-- its zero value, a `time.Duration` an integer. A string is the list of its bytes; white space in
-- cgroup files is ASCII white space. A map is an association list with one entry for each key, and
-- a loop over it goes through the entries in their order. A nil pointer is `none`. A state that the
-- source mutates is passed on and returned. What is sent on a channel is the list of it, in order.
--
-- Parameters. The namer, `user.LookupId`, the readings of the clock (`Env`), the answers of `Proc`
-- and `Iter`, the operating system under the reader (`Root`, which stays as it is during one scrape),
-- regular expressions and templates (`Engine`), the library procfs (`Library`), whose reads take the
-- state of the world and return it, and the answers of the configuration file are arguments.
--
-- Fuel and bounds. `checkAncestry` recurs without a bound; its model takes fuel, and `none` stands
-- for a stack that overflows. Where the parents of new processes form no cycle, fuel above the rank
-- of the process is enough (`check_ancestry_ends`). The loop of `GetThreads` takes fuel, of which one
-- more than the number of threads is enough (`get_threads_reads_all`). All other functions recur on
-- their data. A `bufio.Scanner` stops at a line of 64 KiB.
--
-- Not modelled: logging and debug output, the help texts of descriptors and the channels of requests
-- (collector), the YAML library and files in config/config.go, flag parsing, signals and the HTTP
-- server in cmd/process-exporter, and the programs cmd/integration-tester and cmd/load-generator.
pub mod Prelude
pub mod Proc
pub mod Cgroup
pub mod Config
pub mod Collector
pub mod Cmd
pub mod Tests
