-- ===== src/Collector/Announced/Cgroups.antt =====
-- What the cgroup collector sends is announced (collector/cgroup_collector.go, `describe`).
use process_exporter.Prelude.{
  true, false, bytes_eq, ◌≡◌, refl, some, List, [], ◌∷◌, ◌++◌, Text, Float64, IsIn, Any-append, inl,
  Every, nil, cons, inr, Every-map, Every-append, Bool, bytes, if◌then◌else◌, is_empty, ◌||◌, true,
  ◌==◌,
}
use process_exporter.Proc.Grouper.Group.{Group}
use process_exporter.Collector.Metric.{Metric, Desc}
use process_exporter.Collector.ProcessDescs
use process_exporter.Collector.Families.{CgroupCollector, collect_one}
use process_exporter.Collector.Descs.{
  new_desc_set, set_descs, group_descs, path_descs, describe_cgroups, cgroup_skipped_desc,
  cgroup_pattern_dropped_desc,
}
use process_exporter.Collector.Labels.{IsOf, collect_one-IsOf}
use process_exporter.Collector.Cgroups.{
  collect_group, collect_matches, collect_expansion, collect_patterns, collect_paths,
  collect_summary,
}
use process_exporter.Cgroup.Reader.{
  Expansion, expanded, root_cgroup, bad_pattern, too_many_matches, expand_pattern,
}
use process_exporter.Collector.Scrape.{cgroups_end}
use process_exporter.Collector.Announced.{IsAnnounced}

group_descs-IsIn : (desc : Desc) → IsIn desc (set_descs group_descs) → IsIn desc describe_cgroups
unfolding describe_cgroups
group_descs-IsIn desc i =
    let ends = cgroup_skipped_desc ∷ cgroup_pattern_dropped_desc ∷ [] in
    (Any-append (λ y. y ≡ desc) (set_descs group_descs ++ set_descs path_descs) ends).1
      (inl ((Any-append (λ y. y ≡ desc) (set_descs group_descs) (set_descs path_descs)).1 (inl i)))

path_descs-IsIn : (desc : Desc) → IsIn desc (set_descs path_descs) → IsIn desc describe_cgroups
unfolding describe_cgroups
path_descs-IsIn desc i =
    let ends = cgroup_skipped_desc ∷ cgroup_pattern_dropped_desc ∷ [] in
    (Any-append (λ y. y ≡ desc) (set_descs group_descs ++ set_descs path_descs) ends).1
      (inl ((Any-append (λ y. y ≡ desc) (set_descs group_descs) (set_descs path_descs)).1 (inr i)))

module _ {F : Type 0} ⦃fl : Float64 F⦄ where
  IsOf-IsAnnounced :
      (c : CgroupCollector F) (prefix label id : Text) (m : Metric F)
      → ((desc : Desc)
          → IsIn desc (set_descs (new_desc_set prefix label))
          → IsIn desc describe_cgroups)
      → IsOf prefix label id m
      → IsAnnounced (some c) m
  IsOf-IsAnnounced c prefix label id m in_cgroups h = record {
    labelled = h.labelled;
    announced =
        (Any-append (λ y. y ≡ m.desc) ProcessDescs.process_descs describe_cgroups).1
          (inr (in_cgroups m.desc h.described));
  }

  collect_one-IsAnnounced_group :
      (c : CgroupCollector F) (gname path : Text)
      → Every (IsAnnounced (some c)) (collect_one c group_descs gname path)
  unfolding group_descs
  collect_one-IsAnnounced_group c gname path =
      Every-map
        (λ m h.
          IsOf-IsAnnounced c (bytes "namedprocess_namegroup_cgroup") _ gname m group_descs-IsIn h)
        (collect_one-IsOf (bytes "namedprocess_namegroup_cgroup") _ gname c path)

  collect_one-IsAnnounced_path :
      (c : CgroupCollector F) (path : Text)
      → Every (IsAnnounced (some c)) (collect_one c path_descs path path)
  unfolding path_descs
  collect_one-IsAnnounced_path c path =
      Every-map (λ m h. IsOf-IsAnnounced c (bytes "namedprocess_cgroup") _ path m path_descs-IsIn h)
        (collect_one-IsOf (bytes "namedprocess_cgroup") _ path c path)

  -- Only that there is a cgroup collector counts, not its state.
  pub moved :
      (c c' : CgroupCollector F) {ms : List (Metric F)}
      → Every (IsAnnounced (some c)) ms
      → Every (IsAnnounced (some c')) ms
  moved c c' = Every-map (λ m h. record { labelled = h.labelled; announced = h.announced })

  pub either :
      (P : Metric F → Type 0) (b : Bool) (x y : CgroupCollector F × List (Metric F))
      → Every P x.1
      → Every P y.1
      → Every P (if b then x else y).1
  either P true x y h k = h
  either P false x y h k = k

  pub collect_group-IsAnnounced :
      (c : CgroupCollector F) (gname : Text) (grp : Group F)
      → Every (IsAnnounced (some c)) (collect_group c gname grp).1
  unfolding collect_group
  collect_group-IsAnnounced c gname grp =
      either (IsAnnounced (some c)) grp.cgroup_v2_conflict _ _ nil (
        either (IsAnnounced (some c))
          (is_empty grp.cgroup_v2_path || grp.cgroup_v2_path == bytes "/") _ _ nil
          (collect_one-IsAnnounced_group c gname grp.cgroup_v2_path))

  collect_matches-IsAnnounced :
      (c : CgroupCollector F) (matches : List Text)
      → Every (IsAnnounced (some c)) (collect_matches c matches)
  unfolding collect_matches
  collect_matches-IsAnnounced c [] = nil
  collect_matches-IsAnnounced c (p ∷ matches) =
      Every-append (collect_one-IsAnnounced_path c p) (collect_matches-IsAnnounced c matches)

  collect_expansion-IsAnnounced :
      (c : CgroupCollector F) (e : Expansion)
      → Every (IsAnnounced (some c)) (collect_expansion c e).1
  collect_expansion-IsAnnounced c (expanded matches) = collect_matches-IsAnnounced c matches
  collect_expansion-IsAnnounced c root_cgroup = nil
  collect_expansion-IsAnnounced c bad_pattern = nil
  collect_expansion-IsAnnounced c (too_many_matches n) = nil

  collect_patterns-IsAnnounced :
      (patterns : List Text) (c : CgroupCollector F)
      → Every (IsAnnounced (some c)) (collect_patterns patterns c).1
  unfolding collect_patterns
  collect_patterns-IsAnnounced [] c = nil
  collect_patterns-IsAnnounced (pat ∷ patterns) c =
      Every-append (collect_expansion-IsAnnounced c (expand_pattern c.reader pat c.max_paths)) (
        moved (collect_expansion c (expand_pattern c.reader pat c.max_paths)).0 c (
          collect_patterns-IsAnnounced patterns
            (collect_expansion c (expand_pattern c.reader pat c.max_paths)).0))

  ends-IsAnnounced :
      (c : CgroupCollector F) (m : Metric F)
      → m.desc.labels ≡ []
      → m.label_values ≡ []
      → IsIn m.desc (cgroup_skipped_desc ∷ cgroup_pattern_dropped_desc ∷ [])
      → IsAnnounced (some c) m
  unfolding describe_cgroups
  ends-IsAnnounced c m e k i = record {
    labelled = rw (e, k) refl;
    announced = (Any-append (λ y. y ≡ m.desc) ProcessDescs.process_descs describe_cgroups).1 (
        inr (
          (Any-append (λ y. y ≡ m.desc) (set_descs group_descs ++ set_descs path_descs)
              (cgroup_skipped_desc ∷ cgroup_pattern_dropped_desc ∷ [])).1
            (inr i)));
  }

  collect_summary-IsAnnounced :
      (c : CgroupCollector F) → Every (IsAnnounced (some c)) (collect_summary c)
  unfolding collect_summary cgroup_skipped_desc cgroup_pattern_dropped_desc
  collect_summary-IsAnnounced c =
      cons (ends-IsAnnounced c _ refl refl (inl refl))
        (cons (ends-IsAnnounced c _ refl refl (inr (inl refl))) nil)

  pub cgroups_end-IsAnnounced :
      (c : CgroupCollector F) → Every (IsAnnounced (some c)) (cgroups_end c).1
  unfolding cgroups_end collect_paths
  cgroups_end-IsAnnounced c = Every-append (collect_patterns-IsAnnounced c.paths c) (
      moved (collect_patterns c.paths c).0 c
        (collect_summary-IsAnnounced (collect_patterns c.paths c).0))
