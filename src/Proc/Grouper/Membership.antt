-- ===== src/Proc/Grouper/Membership.antt =====
-- The cgroup under which a group is returned.
use process_exporter.Prelude.{
  ◌≡◌, ap, ◌∙◌, sym, subst, false, some, List, ◌∷◌, Text, Float64, get, bytes_eq, All, some_inj,
}
use process_exporter.Proc.Tracker.Defs.{Update}
use process_exporter.Proc.Grouper.Group.{Group, Cgroups, groupadd, zero_group, cgroups_of}
use process_exporter.Proc.Grouper.Defs.{Grouper, groups}
use process_exporter.Proc.Grouper.Reports.{reports_of}
use process_exporter.Proc.Grouper.Cgroups.{
  add_cgroups, no_cgroups, no_conflict_agrees, agreement_is_clear,
}
use process_exporter.Proc.Grouper.Folds.{paths, cgroups-add_all}
use process_exporter.Proc.Grouper.Totals.{folded, group_of_reports}

module _ {F : Type 0} ⦃fl : Float64 F⦄ where
  cgroups-folded :
      (ts : Update F) (rest : List (Update F))
      → cgroups_of (folded ts rest) ≡ add_cgroups (paths (ts ∷ rest)) no_cgroups
  unfolding paths add_cgroups groupadd zero_group
  cgroups-folded ts rest = cgroups-add_all rest (groupadd zero_group ts)

  -- The group that `groups` returns.
  pub returned-cgroups :
      (gname : Text) (tracked : List (Update F)) (g : Grouper F) (ts : Update F)
      (rest : List (Update F)) (grp : Group F)
      → reports_of gname tracked ≡ ts ∷ rest
      → get gname (groups tracked g).1 ≡ some grp
      → cgroups_of grp ≡ add_cgroups (paths (reports_of gname tracked)) no_cgroups
  returned-cgroups gname tracked g ts rest grp h e =
      let (threads, seen, accum) = group_of_reports gname tracked g ts rest h in
      ap cgroups_of (some_inj (sym e ∙ seen))
      ∙ cgroups-folded ts rest
      ∙ ap (λ us. add_cgroups (paths us) no_cgroups) (sym h)

  -- A group that has reports is returned without a conflict exactly when all of them give one
  -- cgroup path, the empty path included, and then it holds that path.
  pub conflict_iff_disagreement :
      (gname : Text) (tracked : List (Update F)) (g : Grouper F) (ts : Update F)
      (rest : List (Update F)) (grp : Group F)
      → reports_of gname tracked ≡ ts ∷ rest
      → get gname (groups tracked g).1 ≡ some grp
      → (grp.cgroup_v2_conflict ≡ false
          → All (λ p. p ≡ grp.cgroup_v2_path) (paths (reports_of gname tracked)))
        × ((q : Text)
            → All (λ p. p ≡ q) (paths (reports_of gname tracked))
            → (grp.cgroup_v2_conflict ≡ false) × (grp.cgroup_v2_path ≡ q))
  unfolding paths
  conflict_iff_disagreement gname tracked g ts rest grp h e =
      let same = returned-cgroups gname tracked g ts rest grp h e in
      let agrees : grp.cgroup_v2_conflict ≡ false
          → All (λ p. p ≡ grp.cgroup_v2_path) (paths (reports_of gname tracked)) =
        λ clear.
          subst (λ q. All (λ p. p ≡ q) (paths (reports_of gname tracked)))
            (sym (ap (λ (c : Cgroups). c.path) same))
            (no_conflict_agrees (paths (reports_of gname tracked))
              (sym (ap (λ (c : Cgroups). c.conflict) same) ∙ clear)) in
      let at_head = λ (q : Text) (all : All (λ p. p ≡ q) (paths (reports_of gname tracked))).
        subst (λ us. All (λ p. p ≡ q) (paths us)) h all in
      (
        agrees,
        λ q all.
            let clear =
              ap (λ (c : Cgroups). c.conflict) same
              ∙ agreement_is_clear q (paths (reports_of gname tracked)) all in
            (clear, sym (at_head grp.cgroup_v2_path (agrees clear)).0 ∙ (at_head q all).0),
      )
