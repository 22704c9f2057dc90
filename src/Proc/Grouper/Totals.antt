-- ===== src/Proc/Grouper/Totals.antt =====
-- What `(g *Grouper) groups` returns for a group, and what it leaves in the accumulator.
use process_exporter.Prelude.{
  ℕ, ◌≡◌, refl, ap, ◌∙◌, true, false, Option, none, some, List, [], ◌∷◌, Text, Float64, Map, get,
  bytes_eq, Bool-cases, inl, inr, subst,
}
use process_exporter.Proc.Types.{Counts}
use process_exporter.Proc.Counts.{Counter, counter}
use process_exporter.Proc.Tracker.Defs.{Update}
use process_exporter.Proc.Grouper.Group.{Group, Threads, groupadd, zero_group}
use process_exporter.Proc.Grouper.Defs.{Grouper, groups, add_updates, accumulate_all, add_old}
use process_exporter.Proc.Grouper.Reports.{
  reports_of, add_reports, get-add_updates, add_updates-Distinct,
}
use process_exporter.Proc.Grouper.Folds.{add_all, add_reports-some}
use process_exporter.Proc.Grouper.Observed.{
  Accumulated, accumulated, next_accum, get-group_accum, remove_empty-accumulate_all,
}
use process_exporter.Proc.Grouper.Absent.{
  absent_group, add_absent_keeps, get-add_absent, add_absent_removes, get-add_absent_accum,
}

module _ {F : Type 0} ⦃fl : Float64 F⦄ where
  -- The value of a counter in an accumulator.
  abbrev pub old_counter : Counter → Option (Counts F) → ℕ
  old_counter k none = 0
  old_counter k (some c) = counter k c

  -- The fold over the reports `ts ∷ rest` of one group.
  abbrev pub folded : Update F → List (Update F) → Group F
  folded ts rest = add_all rest (groupadd zero_group ts)

  abbrev pub finished : Group F → Option (Counts F) → List (Threads F) → Group F
  finished grp old threads = record grp { counts = add_old grp.counts old; threads = threads }

  nothing_left :
      (o : Option (Counts F))
      → elim o as (λ _. Option (Counts F)) [ none ↦ o | some c ↦ none ] ≡ none
  nothing_left none = refl
  nothing_left (some c) = refl

  module _ (gname : Text) (tracked : List (Update F)) (g : Grouper F) where
    -- The state after the first two loops.
    abbrev observed : Map Text (Group F)
    observed = (add_updates tracked [] []).0

    abbrev after_two : Grouper F × Map Text (Group F)
    after_two = accumulate_all observed (add_updates tracked [] []).1 g

    get-observed : get gname observed ≡ add_reports (reports_of gname tracked) none
    unfolding get
    get-observed = get-add_updates gname tracked [] []

    after_two-Accumulated :
        Accumulated
          (add_reports (reports_of gname tracked) none)
          (get gname g.group_accum)
          (get gname after_two.1)
    after_two-Accumulated =
        subst (λ o. Accumulated o (get gname g.group_accum) (get gname after_two.1)) get-observed
          (accumulated gname observed (add_updates tracked [] []).1 g)

    get-after_two :
        get gname after_two.0.group_accum
        ≡ next_accum (add_reports (reports_of gname tracked) none) (get gname g.group_accum)
    get-after_two =
        get-group_accum gname observed (add_updates tracked [] []).1 g
          (add_updates-Distinct tracked [] [] tt)
        ∙ ap (λ o. next_accum o (get gname g.group_accum)) get-observed

    -- The third loop leaves alone what was observed.
    third_loop :
        (grp : Group F)
        → get gname after_two.1 ≡ some grp
        → (get gname (groups tracked g).1 ≡ some grp)
          × (get gname (groups tracked g).0.group_accum ≡ get gname after_two.0.group_accum)
    unfolding groups
    third_loop grp e = elim (Bool-cases after_two.0.remove_empty_groups) [
      | inl h ↦ (
        ap (get gname) (add_absent_removes after_two.0.group_accum after_two.0 after_two.1 h) ∙ e,
        get-add_absent_accum gname after_two.0.group_accum after_two.0 after_two.1 h ∙ rw e,
      )
      | inr h ↦ (
        get-add_absent gname after_two.0.group_accum after_two.0 after_two.1 h ∙ rw e,
        ap (λ (g' : Grouper F). get gname g'.group_accum)
            (add_absent_keeps after_two.0.group_accum after_two.0 after_two.1 h),
      )
    ]

    fold_of_reports :
        (ts : Update F) (rest : List (Update F))
        → reports_of gname tracked ≡ ts ∷ rest
        → add_reports (reports_of gname tracked) none ≡ some (folded ts rest)
    unfolding add_reports
    fold_of_reports ts rest h =
        ap (λ us. add_reports us none) h ∙ add_reports-some rest (groupadd zero_group ts)

    -- A group that has reports: the fold of them, with the old counts added.
    pub group_of_reports :
        (ts : Update F) (rest : List (Update F))
        → reports_of gname tracked ≡ ts ∷ rest
        → (threads : List (Threads F)) × (get gname (groups tracked g).1
            ≡ some (finished (folded ts rest) (get gname g.group_accum) threads))
          × (get gname (groups tracked g).0.group_accum
              ≡ some (add_old (folded ts rest).counts (get gname g.group_accum)))
    group_of_reports ts rest h =
        let fold = fold_of_reports ts rest h in
        let (threads, e) =
          subst (λ o. Accumulated o (get gname g.group_accum) (get gname after_two.1)) fold
            after_two-Accumulated in
        let (seen, accum) = third_loop _ e in
        (
          threads,
          seen,
          accum ∙ get-after_two ∙ ap (λ o. next_accum o (get gname g.group_accum)) fold,
        )

    none_of_reports :
        reports_of gname tracked ≡ []
        → (get gname after_two.1 ≡ none)
          × (get gname after_two.0.group_accum ≡ get gname g.group_accum)
    unfolding add_reports
    none_of_reports h =
        let fold = ap (λ us. add_reports us none) h in
        (
          subst (λ o. Accumulated o (get gname g.group_accum) (get gname after_two.1)) fold
              after_two-Accumulated,
          get-after_two ∙ ap (λ o. next_accum o (get gname g.group_accum)) fold,
        )

    -- Without `removeEmptyGroups`, a group that has no report in this cycle is returned with the
    -- counts that it had and with zeros elsewhere, and its accumulator is kept.
    pub absent_group_is_kept :
        reports_of gname tracked ≡ []
        → g.remove_empty_groups ≡ false
        → (get gname (groups tracked g).1 ≡ absent_group (get gname g.group_accum))
          × (get gname (groups tracked g).0.group_accum ≡ get gname g.group_accum)
    unfolding groups
    absent_group_is_kept h keeps =
        let (seen, accum) = none_of_reports h in
        let flag = remove_empty-accumulate_all observed (add_updates tracked [] []).1 g ∙ keeps in
        (
          get-add_absent gname after_two.0.group_accum after_two.0 after_two.1 flag
              ∙ rw seen (ap absent_group accum),
          ap (λ (g' : Grouper F). get gname g'.group_accum)
                (add_absent_keeps after_two.0.group_accum after_two.0 after_two.1 flag)
              ∙ accum,
        )

    -- With `removeEmptyGroups`, a group that has no report in this cycle is not returned, and its
    -- accumulator is gone.
    pub absent_group_is_removed :
        reports_of gname tracked ≡ []
        → g.remove_empty_groups ≡ true
        → (get gname (groups tracked g).1 ≡ none)
          × (get gname (groups tracked g).0.group_accum ≡ none)
    unfolding groups
    absent_group_is_removed h removes =
        let (seen, accum) = none_of_reports h in
        let flag = remove_empty-accumulate_all observed (add_updates tracked [] []).1 g ∙ removes in
        (
          ap (get gname) (add_absent_removes after_two.0.group_accum after_two.0 after_two.1 flag)
              ∙ seen,
          get-add_absent_accum gname after_two.0.group_accum after_two.0 after_two.1 flag
              ∙ rw seen (nothing_left (get gname after_two.0.group_accum)),
        )
