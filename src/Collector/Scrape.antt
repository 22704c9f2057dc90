-- ===== src/Collector/Scrape.antt =====
-- collector/process_collector.go: the state of the collector, its construction, and a scrape. The
-- channel of the metrics is the list of what is sent, in order; a scrape takes what the clock, the
-- user database and the process file system answer during it.
use process_exporter.Prelude.{
  ℕ, Bool, Option, none, some, List, [], ◌∷◌, ◌++◌, Text, ℤ, Map, Float64, add64, if◌then◌else◌,
}
use process_exporter.Proc.Types.{MatchNamer, Iter}
use process_exporter.Proc.Tracker.Defs.{CollectErrors}
use process_exporter.Proc.Tracker.Cycle.{Env}
use process_exporter.Proc.Grouper.Group.{Group}
use process_exporter.Proc.Grouper.Defs.{Grouper, new_grouper, update_groups}
use process_exporter.Collector.Metric.{Desc, Metric}
use process_exporter.Collector.Descs.{describe_cgroups}
use process_exporter.Collector.ProcessDescs
use process_exporter.Collector.Families.{CgroupCollector, counter_of, when}
use process_exporter.Collector.Cgroups.{
  CgroupCollectorOption, new_cgroup_collector, collect_group, collect_paths, collect_summary,
}
mod Metrics
unfoldable pub use Metrics.*

-- `ProcessCollectorOption`, without what is only logged; `fs_opens` is whether `proc.NewFS` can open
-- the path of the process file system.
pub record ProcessCollectorOption : Type 0 where
  pub fs_opens : Bool
  pub children : Bool
  pub threads : Bool
  pub gather_smaps : Bool
  pub namer : MatchNamer
  pub recheck : Bool
  pub recheck_time_limit : ℤ
  pub remove_empty_groups : Bool
  pub cgroup : Option CgroupCollectorOption

-- `NamedProcessCollector`; the counters of errors are `int`.
pub record NamedProcessCollector (F : Type 0) : Type 0 where
  pub grouper : Grouper F
  pub threads : Bool
  pub smaps : Bool
  pub scrape_errors : ℕ
  pub scrape_proc_read_errors : ℕ
  pub scrape_partial_errors : ℕ
  pub cgroup : Option (CgroupCollector F)

module _ {F : Type 0} ⦃fl : Float64 F⦄ where
  -- The collector of cgroups that is there, with what it sends, or nothing.
  abbrev pub if_cgroup :
      Option (CgroupCollector F)
      → (CgroupCollector F → CgroupCollector F × List (Metric F))
      → Option (CgroupCollector F) × List (Metric F)
  if_cgroup none run = (none, [])
  if_cgroup (some c) run = let (c', ms) = run c in (some c', ms)

  -- The body of the loop over the groups.
  unfoldable pub scrape_group :
      (smaps threads : Bool)
      → Text
      → Group F
      → Option (CgroupCollector F)
      → Option (CgroupCollector F) × List (Metric F)
  unfolding counts_metrics wchan_metrics smaps_metrics threads_metrics collect_group
  scrape_group smaps threads gname grp cgroup =
      let (cgroup', own) = if_cgroup cgroup (λ c. collect_group c gname grp) in
      (
        cgroup',
        counts_metrics gname grp
            ++ wchan_metrics gname grp.wchans
            ++ own
            ++ when smaps (smaps_metrics gname grp)
            ++ when threads (threads_metrics gname grp.threads),
      )

  -- The loop over the groups.
  unfoldable pub scrape_groups :
      (smaps threads : Bool)
      → Map Text (Group F)
      → Option (CgroupCollector F)
      → Option (CgroupCollector F) × List (Metric F)
  unfolding scrape_group
  scrape_groups smaps threads [] cgroup = (cgroup, [])
  scrape_groups smaps threads ((gname, grp) ∷ groups) cgroup =
      let (cgroup', ms) = scrape_group smaps threads gname grp cgroup in
      let (cgroup'', rest) = scrape_groups smaps threads groups cgroup' in (cgroup'', ms ++ rest)

  -- The counters of errors.
  unfoldable pub error_metrics : NamedProcessCollector F → List (Metric F)
  error_metrics p =
      counter_of ProcessDescs.scrape_errors_desc (float_of p.scrape_errors) []
      ++ counter_of ProcessDescs.scrape_proc_read_errors_desc (float_of p.scrape_proc_read_errors)
          []
      ++ counter_of ProcessDescs.scrape_partial_errors_desc (float_of p.scrape_partial_errors) []

  -- The paths and the counters of the cgroups.
  unfoldable pub cgroups_end : CgroupCollector F → CgroupCollector F × List (Metric F)
  unfolding collect_paths collect_summary
  cgroups_end c = let (c', ms) = collect_paths c in (c', ms ++ collect_summary c')

  -- `scrape`, after `Update` has answered.
  unfoldable pub finish_scrape :
      NamedProcessCollector F
      → Grouper F × CollectErrors × Option (Map Text (Group F))
      → NamedProcessCollector F × List (Metric F)
  unfolding scrape_groups error_metrics cgroups_end
  finish_scrape p (g, errs, none) =
      let p' : NamedProcessCollector F = record p {
        grouper = g;
        scrape_partial_errors = add64 p.scrape_partial_errors errs.partial;
        scrape_errors = add64 p.scrape_errors 1;
      } in
      let (cgroup, end) = if_cgroup p.cgroup cgroups_end in
      (record p' { cgroup = cgroup }, error_metrics p' ++ end)
  finish_scrape p (g, errs, some groups) =
      let p' : NamedProcessCollector F = record p {
        grouper = g;
        scrape_partial_errors = add64 p.scrape_partial_errors errs.partial;
      } in
      let (cgroup, ms) = scrape_groups p.smaps p.threads groups p.cgroup in
      let (cgroup', end) = if_cgroup cgroup cgroups_end in
      (record p' { cgroup = cgroup' }, ms ++ error_metrics p' ++ end)

  abbrev pub scraped :
      NamedProcessCollector F
      → Option (Grouper F × CollectErrors × Option (Map Text (Group F)))
      → Option (NamedProcessCollector F × List (Metric F))
  scraped p none = none
  scraped p (some updated) = some (finish_scrape p updated)

  -- `(p *NamedProcessCollector) scrape(ch)`; `none` is a stack that overflows in `Update`.
  unfoldable pub scrape :
      ℕ
      → Env
      → Iter F
      → NamedProcessCollector F
      → Option (NamedProcessCollector F × List (Metric F))
  unfolding finish_scrape update_groups
  scrape fuel env iter p = scraped p (update_groups fuel env iter p.grouper)

  abbrev pub if_some_cgroup : Option (CgroupCollector F) → List Desc
  if_some_cgroup none = []
  if_some_cgroup (some c) = describe_cgroups

  -- `Describe`
  unfoldable pub describe : NamedProcessCollector F → List Desc
  unfolding describe_cgroups
  describe p = ProcessDescs.process_descs ++ if_some_cgroup p.cgroup

  -- The collector before the first `Update`.
  unfoldable pub start_collector :
      ProcessCollectorOption → Option (CgroupCollector F) → NamedProcessCollector F
  unfolding new_grouper
  start_collector options cgroup = record {
    grouper =
        new_grouper options.namer options.children options.recheck options.recheck_time_limit
          options.remove_empty_groups;
    threads = options.threads;
    smaps = options.gather_smaps;
    scrape_errors = 0;
    scrape_proc_read_errors = 0;
    scrape_partial_errors = 0;
    cgroup = cgroup;
  }

  -- The cgroup collector of the options: the outer `none` is an error.
  abbrev pub cgroup_of : Option CgroupCollectorOption → Option (Option (CgroupCollector F))
  cgroup_of none = some none
  cgroup_of (some opt) = new_cgroup_collector opt

  -- The first `Update`, whose groups are not used.
  abbrev pub after_first :
      NamedProcessCollector F
      → Grouper F × CollectErrors × Option (Map Text (Group F))
      → Option (NamedProcessCollector F)
  after_first p (g, errs, none) = none
  after_first p (g, errs, some groups) = some (record p {
    grouper = g;
    scrape_partial_errors = add64 p.scrape_partial_errors errs.partial;
    scrape_proc_read_errors = add64 p.scrape_proc_read_errors errs.read;
  })

  abbrev pub after_update :
      NamedProcessCollector F
      → Option (Grouper F × CollectErrors × Option (Map Text (Group F)))
      → Option (Option (NamedProcessCollector F))
  after_update p none = none
  after_update p (some updated) = some (after_first p updated)

  -- `NewProcessCollector` from the cgroup collector on.
  unfoldable pub started :
      ℕ
      → Env
      → Iter F
      → ProcessCollectorOption
      → Option (Option (CgroupCollector F))
      → Option (Option (NamedProcessCollector F))
  unfolding start_collector update_groups
  started fuel env iter options none = some none
  started fuel env iter options (some cgroup) =
      let p = start_collector options cgroup in
      after_update p (update_groups fuel env iter p.grouper)

  -- `NewProcessCollector(options)`: the outer `none` is a stack that overflows, the inner one an
  -- error.
  unfoldable pub new_process_collector :
      ℕ → Env → Iter F → ProcessCollectorOption → Option (Option (NamedProcessCollector F))
  unfolding started
  new_process_collector fuel env iter options =
      let made = started fuel env iter options (cgroup_of options.cgroup) in
      if options.fs_opens then made else some none
