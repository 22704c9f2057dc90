-- ===== src/Tests/Scrape.antt =====
-- The theorems on a scrape at concrete inputs.
use process_exporter.Prelude.{
  ℕ, ◌≡◌, ◌↔◌, refl, true, false, Option, none, some, [], ◌∷◌, Text, bytes, bytes_eq, IsIn, Every,
  get, put, List, add64, Map, ◌≢◌, IsIn-nth,
}
use process_exporter.Cgroup.Stat.{parse_uint64}
use process_exporter.Cgroup.Psi.{parse_psi}
use process_exporter.Cgroup.Reader.{read_psi, read_uint64}
use process_exporter.Proc.Grouper.Defs.{groups, Grouper, update_groups}
use process_exporter.Collector.Metric.{Metric, IsLabelled}
use process_exporter.Collector.Descs.{group_descs}
use process_exporter.Collector.Families.{collect_memory, collect_one, when, if_loaded, if_some}
use process_exporter.Collector.Cgroups.{new_cgroup_collector, collect_group, resolve_psi_windows}
use process_exporter.Proc.Types.{id_beq, Iter}
use process_exporter.Proc.Tracker.Cycle.{update_all, lookup_uid}
use process_exporter.Proc.Tracker.Scan.{update, handle_proc}
use process_exporter.Proc.Tracker.Defs.{update_proc, CollectErrors}
use process_exporter.Proc.Tracker.Ancestry.{check_ancestry, parent_id}
use process_exporter.Collector.Names.{group_and_path_names_differ}
use process_exporter.Proc.Grouper.Group.{Group, groupadd, add_wchans}
use process_exporter.Collector.Scrape.{
  NamedProcessCollector, scrape, describe, scrape_group, scrape_groups, counts_metrics,
  wchan_metrics,
}
use process_exporter.Collector.Failures.{IsSentOnFailure}
use process_exporter.Collector.Errors.{
  failed_scrape_sends_errors, read_errors_frozen, num_procs_metric, groups_all_sent,
}
use process_exporter.Collector.Announced.Scraped.{scrape_is_announced}
use process_exporter.Tests.Collector.{cgroups, memory_metric, metric_of_path}
use process_exporter.Tests.Data.{nat_float, two_procs, env_at, grouper_of}
use process_exporter.Tests.Grouper.{main, main_group}

abbrev collector : NamedProcessCollector ℕ
collector = record {
  grouper = grouper_of false;
  threads = true;
  smaps = true;
  scrape_errors = 0;
  scrape_proc_read_errors = 2;
  scrape_partial_errors = 0;
  cgroup = some cgroups;
}

abbrev after :
    Option (NamedProcessCollector ℕ × List (Metric ℕ)) → NamedProcessCollector ℕ × List (Metric ℕ)
after none = (collector, [])
after (some done) = done

abbrev scraped_once : NamedProcessCollector ℕ × List (Metric ℕ)
scraped_once = after (scrape 3 (env_at 50) two_procs collector)

abbrev updated :
    Option (Grouper ℕ × CollectErrors × Option (Map Text (Group ℕ)))
    → Grouper ℕ × CollectErrors × Map Text (Group ℕ)
updated (some (g, errs, some by_name)) = (g, errs, by_name)
updated _ = (grouper_of false, record { read = 0; partial = 0 }, [])

abbrev updated_once : Grouper ℕ × CollectErrors × Map Text (Group ℕ)
updated_once = updated (update_groups 3 (env_at 50) two_procs collector.grouper)

scraped_once_runs : scrape 3 (env_at 50) two_procs collector ≡ some (scraped_once.0, scraped_once.1)
unfolding scrape update_all update handle_proc get id_beq put lookup_uid update_proc check_ancestry
    parent_id
scraped_once_runs = refl

updated_once_runs :
    update_groups 3 (env_at 50) two_procs collector.grouper
    ≡ some (updated_once.0, updated_once.1, some updated_once.2)
unfolding update_groups update_all update handle_proc get id_beq put lookup_uid update_proc
    check_ancestry parent_id
updated_once_runs = refl

read_errors_frozen_example :
    scraped_once.0.scrape_proc_read_errors ≡ collector.scrape_proc_read_errors
read_errors_frozen_example =
    read_errors_frozen 3 (env_at 50) two_procs collector scraped_once.0 scraped_once.1
      scraped_once_runs

scrape_is_announced_example :
    Every (λ m. IsLabelled m × IsIn m.desc (describe collector)) scraped_once.1
scrape_is_announced_example =
    scrape_is_announced 3 (env_at 50) two_procs collector scraped_once.0 scraped_once.1
      scraped_once_runs

abbrev failing : Iter ℕ
failing = record two_procs { close_fails = true }

failed_scrape_sends_errors_example :
    (g : Grouper ℕ) × (errs : CollectErrors) × (p' : NamedProcessCollector ℕ) × (ms : List
      (Metric ℕ))
    × (update_groups 0 (env_at 50) failing collector.grouper ≡ some (g, errs, none))
    × (scrape 0 (env_at 50) failing collector ≡ some (p', ms))
    × (p'.scrape_errors ≡ 1)
    × (p'.scrape_partial_errors ≡ add64 collector.scrape_partial_errors errs.partial)
    × ((m : Metric ℕ) → IsIn m ms ↔ IsSentOnFailure collector errs m)
unfolding add64
failed_scrape_sends_errors_example = failed_scrape_sends_errors 0 (env_at 50) failing collector refl

groups_all_sent_example :
    (p' : NamedProcessCollector ℕ) × (ms : List (Metric ℕ)) × (scrape 3
        (env_at 50)
        two_procs
        collector
      ≡ some (p', ms))
    × (p'.grouper ≡ updated_once.0)
    × (p'.scrape_errors ≡ collector.scrape_errors)
    × (p'.scrape_partial_errors ≡ add64 collector.scrape_partial_errors updated_once.1.partial)
    × ((gname : Text) (grp : Group ℕ)
        → get gname updated_once.2 ≡ some grp
        → IsIn (num_procs_metric gname grp) ms)
groups_all_sent_example =
    groups_all_sent 3 (env_at 50) two_procs collector updated_once.0 updated_once.1 updated_once.2
      updated_once_runs

-- The group "main" in the cgroup "/a/x".
abbrev groups_in_x : Map Text (Group ℕ)
groups_in_x =
    (main, record main_group { cgroup_v2_path = bytes "/a/x"; cgroup_v2_conflict = false }) ∷ []

abbrev group_metric : Metric ℕ
group_metric = record memory_metric { desc = group_descs.memory_current; label_values = main ∷ [] }

metric_of_group : IsIn group_metric (scrape_groups true true groups_in_x (some cgroups)).1
unfolding scrape_groups scrape_group counts_metrics wchan_metrics collect_group new_cgroup_collector
    collect_one collect_memory when if_loaded read_psi parse_psi if_some get resolve_psi_windows put
    read_uint64 parse_uint64 groups groupadd add_wchans
metric_of_group =
    IsIn-nth 22 group_metric (scrape_groups true true groups_in_x (some cgroups)).1 refl

group_and_path_names_differ_example : group_metric.desc.fq_name ≢ memory_metric.desc.fq_name
group_and_path_names_differ_example =
    group_and_path_names_differ true true groups_in_x (some cgroups) cgroups group_metric
      memory_metric metric_of_group metric_of_path
