-- ===== src/Tests/Grouper.antt =====
-- The theorems on the grouper at concrete inputs.
use process_exporter.Prelude.{
  ℕ, ◌≡◌, ◌≤◌, ◌+◌, ◌%◌, refl, true, false, Option, none, some, List, [], ◌∷◌, Text, bytes, arith,
  get, put, All, u64, bytes_eq,
}
use process_exporter.Proc.Counts.{Counter, counter, read_bytes, ctx_switch_voluntary}
use process_exporter.Proc.Tracker.Defs.{Update, get_update, update_proc}
use process_exporter.Proc.Grouper.Falls.{falling_counter_lowers_group}
use process_exporter.Proc.Grouper.Group.{Group, zero_group}
use process_exporter.Proc.Grouper.Defs.{groups}
use process_exporter.Proc.Grouper.Reports.{reports_of}
use process_exporter.Proc.Grouper.Absent.{absent_group}
use process_exporter.Proc.Grouper.Folds.{total, paths}
use process_exporter.Proc.Grouper.Totals.{
  old_counter, absent_group_is_kept, absent_group_is_removed,
}
use process_exporter.Proc.Grouper.Counters.{counters_accumulate, counters_never_fall}
use process_exporter.Proc.Grouper.Membership.{conflict_iff_disagreement}
use process_exporter.Proc.Grouper.Gauges.{
  Among, Gauge, share_total, starts, gauges_are_sums, oldest_is_minimum,
}
use process_exporter.Tests.Data.{
  nat_float, update_of, grouper_of, counts_of, metrics_of, tracked_of,
}

abbrev pub main : Text
main = bytes "main"

abbrev pub two_reports : List (Update ℕ)
two_reports = update_of 3 ∷ update_of 4 ∷ []

abbrev group_after : Option (Group ℕ) → Group ℕ
group_after none = zero_group
group_after (some grp) = grp

-- What is returned for the two reports.
abbrev pub main_group : Group ℕ
main_group = group_after (get main (groups two_reports (grouper_of false)).1)

counters_accumulate_example :
    (grp : Group ℕ) × (get main (groups two_reports (grouper_of false)).1 ≡ some grp)
    × (get main (groups two_reports (grouper_of false)).0.group_accum ≡ some grp.counts)
    × ((k : Counter)
        → counter k grp.counts
          ≡ (old_counter k (get main (grouper_of false).group_accum) + total k two_reports) % u64)
unfolding reports_of
counters_accumulate_example =
    counters_accumulate main two_reports (grouper_of false) (update_of 3) (update_of 4 ∷ []) refl

counters_never_fall_example :
    (grp : Group ℕ) × (get main (groups two_reports (grouper_of false)).1 ≡ some grp)
    × (counter read_bytes grp.counts
        ≡ counter read_bytes (counts_of 5) + total read_bytes (reports_of main two_reports))
unfolding reports_of total get
counters_never_fall_example =
    counters_never_fall main two_reports (grouper_of false) (counts_of 5) read_bytes refl refl
      (omega arith)

absent_group_is_kept_example :
    (get main (groups [] (grouper_of false)).1
      ≡ absent_group (get main (grouper_of false).group_accum))
    × (get main (groups [] (grouper_of false)).0.group_accum
        ≡ get main (grouper_of false).group_accum)
unfolding reports_of
absent_group_is_kept_example = absent_group_is_kept main [] (grouper_of false) refl refl

absent_group_is_removed_example :
    (get main (groups [] (grouper_of true)).1 ≡ none)
    × (get main (groups [] (grouper_of true)).0.group_accum ≡ none)
unfolding reports_of
absent_group_is_removed_example = absent_group_is_removed main [] (grouper_of true) refl refl

conflict_iff_disagreement_example :
    (main_group.cgroup_v2_conflict ≡ false
      → All (λ p. p ≡ main_group.cgroup_v2_path) (paths (reports_of main two_reports)))
    × ((q : Text)
        → All (λ p. p ≡ q) (paths (reports_of main two_reports))
        → (main_group.cgroup_v2_conflict ≡ false) × (main_group.cgroup_v2_path ≡ q))
unfolding reports_of groups get put
conflict_iff_disagreement_example =
    conflict_iff_disagreement main two_reports (grouper_of false) (update_of 3) (update_of 4 ∷ [])
      main_group refl refl

gauges_are_sums_example :
    main_group.memory.resident_bytes
    ≡ share_total Gauge.resident_bytes (reports_of main two_reports) % u64
unfolding reports_of groups get put
gauges_are_sums_example =
    gauges_are_sums main two_reports (grouper_of false) (update_of 3) (update_of 4 ∷ []) main_group
      Gauge.resident_bytes refl refl

oldest_is_minimum_example :
    All (λ t. main_group.oldest_start_time ≤ t) (starts two_reports)
    × Among main_group.oldest_start_time (starts two_reports)
unfolding reports_of groups get put starts
oldest_is_minimum_example =
    oldest_is_minimum main two_reports (grouper_of false) (update_of 3) (update_of 4 ∷ [])
      main_group refl refl (omega arith, (omega arith, tt))

-- The process had switched 9 times, more often than the group had counted.
abbrev with_falling : List (Update ℕ)
with_falling = update_of 3 ∷ get_update (update_proc (metrics_of 7) 60 [] (tracked_of 9)) ∷ []

falling_counter_lowers_group_example :
    (grp : Group ℕ) × (get main (groups with_falling (grouper_of false)).1 ≡ some grp)
    × (counter ctx_switch_voluntary grp.counts + 2 ≡ 8)
unfolding get reports_of total get_update update_proc
falling_counter_lowers_group_example =
    falling_counter_lowers_group (metrics_of 7) 60 [] (tracked_of 9) with_falling (update_of 3 ∷ [])
      [] (grouper_of false) (counts_of 5) ctx_switch_voluntary refl (omega arith) (omega arith)
      (omega arith) (omega arith) refl
