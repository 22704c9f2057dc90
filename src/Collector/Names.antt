-- ===== src/Collector/Names.antt =====
-- The metrics of groups and those of configured cgroup paths have different names
-- (collector/process_collector.go, collector/cgroup_collector.go).
use process_exporter.Prelude.{
  ℕ, ◌≡◌, ◌≢◌, refl, sym, ap, ◌∙◌, subst, Bool, true, false, ◌==◌, ◌||◌, nat_eq, Option, none, some,
  List, [], ◌∷◌, Text, bytes, bytes_eq, Map, Float64, IsIn, Every, nil, cons, Every-append,
  Every-map, nth, inl, inr, is_empty, append-nil,
}
use process_exporter.Proc.Grouper.Group.{Group}
use process_exporter.Collector.Metric.{Metric, Desc}
use process_exporter.Collector.ProcessDescs
use process_exporter.Collector.Descs.{group_descs, path_descs}
use process_exporter.Collector.Families.{CgroupCollector, collect_one}
use process_exporter.Collector.Labels.{IsOf, collect_one-IsOf, Every-when}
use process_exporter.Collector.Cgroups.{collect_group, collect_paths}
use process_exporter.Collector.Scrape.{if_cgroup, scrape_group, scrape_groups}
use process_exporter.Collector.Paths.{paths_collected_exactly}
use process_exporter.Collector.Announced.{
  IsAnnounced, counts_metrics-IsAnnounced, wchan_metrics-IsAnnounced, smaps_metrics-IsAnnounced,
  threads_metrics-IsAnnounced,
}
use process_exporter.Collector.Announced.Cgroups.{either}

Every-IsIn : {A : Type 0} (P : A → Type 0) (x : A) {xs : List A} → Every P xs → IsIn x xs → P x
Every-IsIn P x nil i = elim i [ ]
Every-IsIn P x (cons p h) i = elim i [ inl e ↦ subst P e p | inr later ↦ Every-IsIn P x h later ]

abbrev is_c : Option ℕ → Bool
is_c none = false
is_c (some byte) = byte == 99

-- Whether the name goes on with a "c" after "namedprocess_".
abbrev names_path : Text → Bool
names_path name = is_c (nth 13 name)

abbrev some_path : List Desc → Bool
some_path [] = false
some_path (d ∷ ds) = names_path d.fq_name || some_path ds

or_false : (a b : Bool) → (a || b) ≡ false → (a ≡ false) × (b ≡ false)
or_false true b e = cc
or_false false b e = (refl, e)

no_path-IsIn :
    (d : Desc) (ds : List Desc) → some_path ds ≡ false → IsIn d ds → names_path d.fq_name ≡ false
no_path-IsIn d [] e i = elim i [ ]
no_path-IsIn d (first ∷ ds) e i =
    let (here, later) = or_false (names_path first.fq_name) (some_path ds) e in
    elim i [
      | inl same ↦ subst (λ x. names_path x.fq_name ≡ false) same here
      | inr rest ↦ no_path-IsIn d ds later rest
    ]

process_descs_name_no_path : some_path ProcessDescs.process_descs ≡ false
unfolding ProcessDescs.process_descs ProcessDescs.num_procs_desc ProcessDescs.cpu_secs_desc
    ProcessDescs.read_bytes_desc ProcessDescs.write_bytes_desc ProcessDescs.major_page_faults_desc
    ProcessDescs.minor_page_faults_desc ProcessDescs.context_switches_desc
    ProcessDescs.membytes_desc ProcessDescs.open_fds_desc ProcessDescs.worst_fd_ratio_desc
    ProcessDescs.start_time_desc ProcessDescs.num_threads_desc ProcessDescs.states_desc
    ProcessDescs.scrape_errors_desc ProcessDescs.scrape_proc_read_errors_desc
    ProcessDescs.scrape_partial_errors_desc ProcessDescs.thread_wchan_desc
    ProcessDescs.thread_count_desc ProcessDescs.thread_cpu_secs_desc
    ProcessDescs.thread_io_bytes_desc ProcessDescs.thread_major_page_faults_desc
    ProcessDescs.thread_minor_page_faults_desc ProcessDescs.thread_context_switches_desc
process_descs_name_no_path = refl

module _ {F : Type 0} ⦃fl : Float64 F⦄ where
  -- The name is not one of a configured path.
  abbrev IsOther : Metric F → Type 0
  IsOther m = names_path m.desc.fq_name ≡ false

  announced-IsOther : {ms : List (Metric F)} → Every (IsAnnounced none) ms → Every IsOther ms
  announced-IsOther = Every-map (λ m h.
      no_path-IsIn m.desc ProcessDescs.process_descs process_descs_name_no_path
        (subst (IsIn m.desc) (append-nil ProcessDescs.process_descs) h.announced))

  collect_one-IsOther :
      (c : CgroupCollector F) (gname path : Text)
      → Every IsOther (collect_one c group_descs gname path)
  unfolding group_descs
  collect_one-IsOther c gname path =
      Every-map (λ m h. ap names_path h.named.1)
        (collect_one-IsOf (bytes "namedprocess_namegroup_cgroup") _ gname c path)

  collect_group-IsOther :
      (c : CgroupCollector F) (gname : Text) (grp : Group F)
      → Every IsOther (collect_group c gname grp).1
  unfolding collect_group
  collect_group-IsOther c gname grp = either IsOther grp.cgroup_v2_conflict _ _ nil (
      either IsOther (is_empty grp.cgroup_v2_path || grp.cgroup_v2_path == bytes "/") _ _ nil
        (collect_one-IsOther c gname grp.cgroup_v2_path))

  if_cgroup-IsOther :
      (cgroup : Option (CgroupCollector F)) (gname : Text) (grp : Group F)
      → Every IsOther (if_cgroup cgroup (λ c. collect_group c gname grp)).1
  if_cgroup-IsOther none gname grp = nil
  if_cgroup-IsOther (some c) gname grp = collect_group-IsOther c gname grp

  scrape_group-IsOther :
      (smaps threads : Bool) (gname : Text) (grp : Group F) (cgroup : Option (CgroupCollector F))
      → Every IsOther (scrape_group smaps threads gname grp cgroup).1
  unfolding scrape_group
  scrape_group-IsOther smaps threads gname grp cgroup =
      Every-append
        (Every-append
          (Every-append
            (Every-append (announced-IsOther (counts_metrics-IsAnnounced none gname grp))
              (announced-IsOther (wchan_metrics-IsAnnounced none gname grp.wchans)))
            (if_cgroup-IsOther cgroup gname grp))
          (Every-when _ (announced-IsOther (smaps_metrics-IsAnnounced none gname grp))))
        (Every-when _ (announced-IsOther (threads_metrics-IsAnnounced none gname grp.threads)))

  scrape_groups-IsOther :
      (smaps threads : Bool) (groups : Map Text (Group F)) (cgroup : Option (CgroupCollector F))
      → Every IsOther (scrape_groups smaps threads groups cgroup).1
  unfolding scrape_groups
  scrape_groups-IsOther smaps threads [] cgroup = nil
  scrape_groups-IsOther smaps threads ((gname, grp) ∷ groups) cgroup =
      Every-append (scrape_group-IsOther smaps threads gname grp cgroup)
        (scrape_groups-IsOther smaps threads groups (scrape_group smaps threads gname grp cgroup).0)

  path_metric_names_path :
      (c : CgroupCollector F) (path : Text) (m : Metric F)
      → IsIn m (collect_one c path_descs path path)
      → names_path m.desc.fq_name ≡ true
  unfolding path_descs
  path_metric_names_path c path m i =
      ap names_path
        (Every-IsIn (IsOf _ _ path) m (collect_one-IsOf (bytes "namedprocess_cgroup") _ path c path)
          i).named.1

  -- No metric that a scrape sends for a group, whether of its processes, its threads or its cgroup,
  -- has the name of one that `collectPaths` sends for a configured path.
  pub group_and_path_names_differ :
      (smaps threads : Bool) (groups : Map Text (Group F)) (cgroup : Option (CgroupCollector F))
      (c : CgroupCollector F) (m m' : Metric F)
      → IsIn m (scrape_groups smaps threads groups cgroup).1
      → IsIn m' (collect_paths c).1
      → m.desc.fq_name ≢ m'.desc.fq_name
  group_and_path_names_differ smaps threads groups cgroup c m m' i j e =
      let other = Every-IsIn IsOther m (scrape_groups-IsOther smaps threads groups cgroup) i in
      let selected = (paths_collected_exactly c m').0 j in
      let path = path_metric_names_path c selected.path m' selected.own in
      let clash : true ≡ false = sym path ∙ ap names_path (sym e) ∙ other in cc
