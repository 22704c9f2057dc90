-- ===== src/Collector/Announced.antt =====
-- Every metric of a scrape fits its descriptor, and its descriptor is announced (`Describe` of
-- collector/process_collector.go and `describe` of collector/cgroup_collector.go).
use process_exporter.Prelude.{
  ℕ, ◌≡◌, refl, Option, some, List, [], ◌∷◌, ◌++◌, Text, Map, Float64, length, IsIn, Any-append,
  nth, IsIn-nth, inl, Every, nil, cons, inr, Every-map, none, Every-append, Bool, subst, some_inj,
}
use process_exporter.Proc.Grouper.Group.{Threads, Group}
use process_exporter.Collector.Metric.{Metric, IsLabelled, Desc}
use process_exporter.Collector.ProcessDescs
use process_exporter.Collector.Families.{CgroupCollector, collect_one}
use process_exporter.Collector.Descs.{
  new_desc_set, set_descs, group_descs, path_descs, describe_cgroups, cgroup_skipped_desc,
  cgroup_pattern_dropped_desc,
}
use process_exporter.Collector.Labels.{IsOf, collect_one-IsOf, Every-when}
use process_exporter.Collector.Cgroups.{
  collect_group, collect_matches, collect_expansion, collect_patterns, collect_paths,
  collect_summary,
}
use process_exporter.Cgroup.Reader.{
  Expansion, expanded, root_cgroup, bad_pattern, too_many_matches, expand_pattern,
}
use process_exporter.Proc.Types.{Iter}
use process_exporter.Proc.Tracker.Defs.{CollectErrors}
use process_exporter.Proc.Tracker.Cycle.{Env}
use process_exporter.Proc.Grouper.Defs.{Grouper, update_groups}
use process_exporter.Collector.Scrape.{
  if_cgroup, scrape_group, scrape_groups, cgroups_end, finish_scrape, scraped, scrape, describe,
  NamedProcessCollector, counts_metrics, wchan_metrics, smaps_metrics, threads_metrics,
  error_metrics, if_some_cgroup,
}
pub mod Cgroups
pub mod Scraped

module _ {F : Type 0} ⦃fl : Float64 F⦄ where
  -- The metric has a value for each label of its descriptor, and the descriptor is one of those of
  -- the processes or, where there is a cgroup collector, of the cgroups.
  pub record IsAnnounced (cgroup : Option (CgroupCollector F)) (m : Metric F) : Type 0 where
    pub labelled : IsLabelled m
    pub announced : IsIn m.desc (ProcessDescs.process_descs ++ if_some_cgroup cgroup)

  module _ (cgroup : Option (CgroupCollector F)) where
    own :
        (k : ℕ) (m : Metric F)
        → nth k ProcessDescs.process_descs ≡ some m.desc
        → length m.label_values ≡ length m.desc.labels
        → IsAnnounced cgroup m
    own k m at e = record {
      labelled = e;
      announced =
          (Any-append (λ y. y ≡ m.desc) ProcessDescs.process_descs (if_some_cgroup cgroup)).1
            (inl (IsIn-nth k m.desc _ at));
    }

    pub counts_metrics-IsAnnounced :
        (gname : Text) (grp : Group F) → Every (IsAnnounced cgroup) (counts_metrics gname grp)
    unfolding counts_metrics ProcessDescs.process_descs ProcessDescs.context_switches_desc
        ProcessDescs.cpu_secs_desc ProcessDescs.major_page_faults_desc ProcessDescs.membytes_desc
        ProcessDescs.minor_page_faults_desc ProcessDescs.num_procs_desc
        ProcessDescs.num_threads_desc ProcessDescs.open_fds_desc ProcessDescs.read_bytes_desc
        ProcessDescs.start_time_desc ProcessDescs.states_desc ProcessDescs.worst_fd_ratio_desc
        ProcessDescs.write_bytes_desc
    counts_metrics-IsAnnounced gname grp = cons (own 1 _ refl refl) (
        cons (own 4 _ refl refl) (
          cons (own 4 _ refl refl) (
            cons (own 4 _ refl refl) (
              cons (own 7 _ refl refl) (
                cons (own 5 _ refl refl) (
                  cons (own 6 _ refl refl) (
                    cons (own 0 _ refl refl) (
                      cons (own 0 _ refl refl) (
                        cons (own 2 _ refl refl) (
                          cons (own 3 _ refl refl) (
                            cons (own 8 _ refl refl) (
                              cons (own 9 _ refl refl) (
                                cons (own 10 _ refl refl) (
                                  cons (own 10 _ refl refl) (
                                    cons (own 11 _ refl refl) (
                                      cons (own 12 _ refl refl) (
                                        cons (own 12 _ refl refl) (
                                          cons (own 12 _ refl refl) (
                                            cons (own 12 _ refl refl)
                                              (cons (own 12 _ refl refl) nil))))))))))))))))))))

    pub wchan_metrics-IsAnnounced :
        (gname : Text) (wchans : Map Text ℕ)
        → Every (IsAnnounced cgroup) (wchan_metrics gname wchans)
    unfolding wchan_metrics ProcessDescs.process_descs ProcessDescs.thread_wchan_desc
    wchan_metrics-IsAnnounced gname [] = nil
    wchan_metrics-IsAnnounced gname ((wchan, count) ∷ wchans) =
        cons (own 16 _ refl refl) (wchan_metrics-IsAnnounced gname wchans)

    pub smaps_metrics-IsAnnounced :
        (gname : Text) (grp : Group F) → Every (IsAnnounced cgroup) (smaps_metrics gname grp)
    unfolding smaps_metrics ProcessDescs.process_descs ProcessDescs.membytes_desc
    smaps_metrics-IsAnnounced gname grp = cons (own 4 _ refl refl) (cons (own 4 _ refl refl) nil)

    pub threads_metrics-IsAnnounced :
        (gname : Text) (threads : List (Threads F))
        → Every (IsAnnounced cgroup) (threads_metrics gname threads)
    unfolding threads_metrics ProcessDescs.process_descs ProcessDescs.thread_context_switches_desc
        ProcessDescs.thread_count_desc ProcessDescs.thread_cpu_secs_desc
        ProcessDescs.thread_io_bytes_desc ProcessDescs.thread_major_page_faults_desc
        ProcessDescs.thread_minor_page_faults_desc
    threads_metrics-IsAnnounced gname [] = nil
    threads_metrics-IsAnnounced gname (thr ∷ threads) = cons (own 17 _ refl refl) (
        cons (own 18 _ refl refl) (
          cons (own 18 _ refl refl) (
            cons (own 19 _ refl refl) (
              cons (own 19 _ refl refl) (
                cons (own 20 _ refl refl) (
                  cons (own 21 _ refl refl) (
                    cons (own 22 _ refl refl)
                      (cons (own 22 _ refl refl) (threads_metrics-IsAnnounced gname threads)))))))))

    pub error_metrics-IsAnnounced :
        (p : NamedProcessCollector F) → Every (IsAnnounced cgroup) (error_metrics p)
    unfolding error_metrics ProcessDescs.process_descs ProcessDescs.scrape_errors_desc
        ProcessDescs.scrape_proc_read_errors_desc ProcessDescs.scrape_partial_errors_desc
    error_metrics-IsAnnounced p =
        cons (own 13 _ refl refl) (cons (own 14 _ refl refl) (cons (own 15 _ refl refl) nil))
