-- ===== src/Collector/Failures.antt =====
-- What a scrape sends if the update of the groups fails (collector/process_collector.go).
use process_exporter.Prelude.{
  ◌≡◌, ◌↔◌, ◌⊎◌, refl, Option, none, some, some_inj, List, [], ◌∷◌, ◌++◌, bytes_eq, Float64, add64,
  IsIn, Any-append, inl, inr, sym, subst,
}
use process_exporter.Proc.Tracker.Defs.{CollectErrors}
use process_exporter.Collector.Metric.{Desc, Metric, counter_value}
use process_exporter.Collector.Descs.{cgroup_skipped_desc, cgroup_pattern_dropped_desc}
use process_exporter.Collector.Cgroups.{collect_summary}
use process_exporter.Collector.Paths.{sent, dropped, collect_paths_lem, IsPathMetric, IsIn-sent}
use process_exporter.Collector.ProcessDescs
use process_exporter.Collector.Families.{CgroupCollector}
use process_exporter.Collector.Scrape.{NamedProcessCollector, if_cgroup, float_of, cgroups_end}

module _ {F : Type 0} ⦃fl : Float64 F⦄ where
  abbrev pub counter_metric : Desc → F → Metric F
  counter_metric desc value = record {
    desc = desc;
    value_type = counter_value;
    value = value;
    label_values = [];
  }

  -- The counters of errors after a scrape that fails with these errors.
  abbrev pub error_counters : NamedProcessCollector F → CollectErrors → List (Metric F)
  error_counters p errs =
      counter_metric ProcessDescs.scrape_errors_desc (float_of (add64 p.scrape_errors 1))
      ∷ counter_metric ProcessDescs.scrape_proc_read_errors_desc
          (float_of p.scrape_proc_read_errors)
      ∷ counter_metric ProcessDescs.scrape_partial_errors_desc
          (float_of (add64 p.scrape_partial_errors errs.partial))
      ∷ []

  -- The counters of the cgroup collector after the configured paths.
  abbrev pub cgroup_counters : CgroupCollector F → List (Metric F)
  cgroup_counters c =
      counter_metric cgroup_skipped_desc c.skipped
      ∷ counter_metric cgroup_pattern_dropped_desc (dropped c c.paths c.pattern_dropped)
      ∷ []

  -- What a failed scrape sends: the counters of errors and, where there is a cgroup collector, the
  -- metrics of the cgroups that the configured paths select, and its counters.
  pub data IsSentOnFailure (p : NamedProcessCollector F) (errs : CollectErrors) (m : Metric F)
      : Type 0 where
    of_errors : IsIn m (error_counters p errs) → IsSentOnFailure p errs m
    of_path :
        (c : CgroupCollector F)
        → p.cgroup ≡ some c
        → IsPathMetric c c.paths m
        → IsSentOnFailure p errs m
    of_counters :
        (c : CgroupCollector F)
        → p.cgroup ≡ some c
        → IsIn m (cgroup_counters c)
        → IsSentOnFailure p errs m

  IsIn-cgroups_end :
      (c : CgroupCollector F) (m : Metric F)
      → IsIn m (cgroups_end c).1 ↔ (IsPathMetric c c.paths m ⊎ IsIn m (cgroup_counters c))
  unfolding cgroups_end collect_summary
  IsIn-cgroups_end c m =
      let parts = Any-append (λ y. y ≡ m) (sent c c.paths) (cgroup_counters c) in
      let paths = IsIn-sent c m c.paths in
      rw (collect_paths_lem c) (
        (λ i. elim (parts.0 i) [ inl here ↦ inl (paths.0 here) | inr there ↦ inr there ]),
        λ h. parts.1 (elim h [ inl path ↦ inl (paths.1 path) | inr count ↦ inr count ]),
      )

  IsIn-if_cgroup :
      (cgroup : Option (CgroupCollector F)) (m : Metric F)
      → IsIn m (if_cgroup cgroup cgroups_end).1 ↔ (
          (c : CgroupCollector F) × (cgroup ≡ some c)
          × (IsPathMetric c c.paths m ⊎ IsIn m (cgroup_counters c)))
  IsIn-if_cgroup none m = ((λ i. elim i [ ]), λ (c, e, h). cc)
  IsIn-if_cgroup (some c) m = (
    (λ i. (c, refl, (IsIn-cgroups_end c m).0 i)),
    λ (c', e, h).
        subst (λ x. IsIn m (cgroups_end x).1) (sym (some_inj e)) ((IsIn-cgroups_end c' m).1 h),
  )

  pub IsIn-failed :
      (p : NamedProcessCollector F) (errs : CollectErrors) (m : Metric F)
      → IsIn m (error_counters p errs ++ (if_cgroup p.cgroup cgroups_end).1)
        ↔ IsSentOnFailure p errs m
  IsIn-failed p errs m =
      let parts =
        Any-append (λ y. y ≡ m) (error_counters p errs) (if_cgroup p.cgroup cgroups_end).1 in
      let ends = IsIn-if_cgroup p.cgroup m in
      (
        (λ i. elim (parts.0 i) [
          | inl here ↦ of_errors here
          | inr there ↦
              let (c, e, h) = ends.0 there in
              elim h [ inl path ↦ of_path c e path | inr count ↦ of_counters c e count ]
        ]),
        λ h. parts.1 (elim h [
          | of_errors here ↦ inl here
          | of_path c e path ↦ inr (ends.1 (c, e, inl path))
          | of_counters c e count ↦ inr (ends.1 (c, e, inr count))
        ]),
      )
