-- ===== src/Proc/Grouper/Folds.antt =====
-- What the fold of `groupadd` over the reports of one group computes: sums of the counters modulo
-- 2^64, and the fold of the cgroup paths.
use process_exporter.Prelude.{
  ℕ, ◌+◌, ◌%◌, ◌<◌, ◌≡◌, refl, ◌∙◌, some, List, [], ◌∷◌, arith, Text, Float64, u64, add64, add64-lt,
}
use process_exporter.Proc.Counts.{Counter, counter, counter-add_counts}
use process_exporter.Proc.Tracker.Defs.{Update}
use process_exporter.Proc.Grouper.Group.{Group, groupadd, cgroups_of}
use process_exporter.Proc.Grouper.Cgroups.{add_cgroups}
use process_exporter.Proc.Grouper.Reports.{add_reports}

module _ {F : Type 0} where
  -- The increases that the reports bring to one counter.
  unfoldable pub total : Counter → List (Update F) → ℕ
  total k [] = 0
  total k (ts ∷ tracked) = counter k ts.latest + total k tracked

  unfoldable pub paths : List (Update F) → List Text
  paths [] = []
  paths (ts ∷ tracked) = ts.cgroup_v2_path ∷ paths tracked

module _ {F : Type 0} ⦃fl : Float64 F⦄ where
  -- The fold from a group that is there already.
  unfoldable pub add_all : List (Update F) → Group F → Group F
  add_all [] grp = grp
  add_all (ts ∷ tracked) grp = add_all tracked (groupadd grp ts)

  pub add_reports-some :
      (tracked : List (Update F)) (grp : Group F)
      → add_reports tracked (some grp) ≡ some (add_all tracked grp)
  unfolding add_reports add_all
  add_reports-some [] grp = refl
  add_reports-some (ts ∷ tracked) grp = add_reports-some tracked (groupadd grp ts)

  pub counter-groupadd :
      (k : Counter) (grp : Group F) (ts : Update F)
      → counter k (groupadd grp ts).counts ≡ add64 (counter k grp.counts) (counter k ts.latest)
  unfolding groupadd
  counter-groupadd k grp ts = counter-add_counts k grp.counts ts.latest

  pub counter-add_all :
      (k : Counter) (tracked : List (Update F)) (grp : Group F)
      → counter k grp.counts < u64
      → counter k (add_all tracked grp).counts ≡ (counter k grp.counts + total k tracked) % u64
  unfolding add_all total
  counter-add_all k [] grp h = omega arith
  counter-add_all k (ts ∷ tracked) grp h =
      let step = counter-groupadd k grp ts in
      counter-add_all k tracked (groupadd grp ts) (rw step (add64-lt _ _))
      ∙ rw step (unfold add64 in omega arith)

  pub cgroups-add_all :
      (tracked : List (Update F)) (grp : Group F)
      → cgroups_of (add_all tracked grp) ≡ add_cgroups (paths tracked) (cgroups_of grp)
  unfolding add_all paths add_cgroups groupadd
  cgroups-add_all [] grp = refl
  cgroups-add_all (ts ∷ tracked) grp = cgroups-add_all tracked (groupadd grp ts)
