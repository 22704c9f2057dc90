-- ===== src/Collector/Policy.antt =====
-- The policy for groups (collector/cgroup_collector.go), over the groups of proc/grouper.go.
use process_exporter.Prelude.{
  ◌≡◌, refl, true, false, ◌||◌, some, List, [], ◌∷◌, Text, bytes, Float64, All, get, bytes_eq,
  if◌then◌else◌, is_empty, ◌==◌, Bool-cases, inl, inr,
}
use process_exporter.Proc.Tracker.Defs.{Update}
use process_exporter.Proc.Grouper.Group.{Group}
use process_exporter.Proc.Grouper.Defs.{Grouper, groups}
use process_exporter.Proc.Grouper.Reports.{reports_of}
use process_exporter.Proc.Grouper.Folds.{paths}
use process_exporter.Proc.Grouper.Membership.{conflict_iff_disagreement}
use process_exporter.Collector.Descs.{group_descs}
use process_exporter.Collector.Families.{CgroupCollector, collect_one}
use process_exporter.Collector.Cgroups.{incremented, collect_group}

module _ {F : Type 0} ⦃fl : Float64 F⦄ where
  group_without_conflict :
      (c : CgroupCollector F) (gname : Text) (grp : Group F) (q : Text)
      → grp.cgroup_v2_conflict ≡ false
      → grp.cgroup_v2_path ≡ q
      → collect_group c gname grp
        ≡ (if is_empty q || q == bytes "/" then (c, []) else (c, collect_one c group_descs gname q))
  unfolding collect_group
  group_without_conflict c gname grp q clear same = rw (clear, same) refl

  group_with_conflict :
      (c : CgroupCollector F) (gname : Text) (grp : Group F)
      → grp.cgroup_v2_conflict ≡ true
      → collect_group c gname grp ≡ (record c { skipped = incremented c.skipped }, [])
  unfolding collect_group
  group_with_conflict c gname grp e = rw e refl

  -- For a group that the grouper returns with reports: if all reports give one cgroup path, the
  -- metrics of that cgroup are sent under the group's name, or none if the path is empty or the
  -- root; if they do not, no metric is sent and the group is counted as skipped.
  pub skip_and_count :
      (c : CgroupCollector F) (gname : Text) (tracked : List (Update F)) (g : Grouper F)
      (ts : Update F) (rest : List (Update F)) (grp : Group F)
      → reports_of gname tracked ≡ ts ∷ rest
      → get gname (groups tracked g).1 ≡ some grp
      → ((q : Text)
          → All (λ p. p ≡ q) (paths (reports_of gname tracked))
          → collect_group c gname grp ≡ (
              if is_empty q || q == bytes "/"
              then (c, [])
              else (c, collect_one c group_descs gname q)))
        × (((q : Text) → ¬ All (λ p. p ≡ q) (paths (reports_of gname tracked)))
            → collect_group c gname grp ≡ (record c { skipped = incremented c.skipped }, []))
  skip_and_count c gname tracked g ts rest grp h e =
      let (agrees, clear) = conflict_iff_disagreement gname tracked g ts rest grp h e in
      (
        (λ q all. group_without_conflict c gname grp q (clear q all).0 (clear q all).1),
        λ differ. elim (Bool-cases grp.cgroup_v2_conflict) [
          | inl conflict ↦ group_with_conflict c gname grp conflict
          | inr none ↦ elim (differ grp.cgroup_v2_path (agrees none)) [ ]
        ],
      )
