-- ===== src/Proc/Grouper/Counters.antt =====
-- The counters of a group over a cycle: they grow by what the reports bring, and wrap with them.
use process_exporter.Prelude.{
  ℕ, ◌+◌, ◌%◌, ◌<◌, ◌≡◌, refl, ap, ◌∙◌, false, Option, none, some, List, [], ◌∷◌, arith, Text,
  Float64, get, bytes_eq, u64, add64, add64-lt,
}
use process_exporter.Proc.Types.{Counts}
use process_exporter.Proc.Counts.{Counter, counter, counter-add_counts, counter-zero_counts}
use process_exporter.Proc.Tracker.Defs.{Update}
use process_exporter.Proc.Grouper.Group.{Group, groupadd, zero_group}
use process_exporter.Proc.Grouper.Defs.{Grouper, groups, add_old}
use process_exporter.Proc.Grouper.Reports.{reports_of}
use process_exporter.Proc.Grouper.Folds.{total, counter-add_all, counter-groupadd}
use process_exporter.Proc.Grouper.Absent.{absent_group}
use process_exporter.Proc.Grouper.Totals.{
  old_counter, folded, finished, group_of_reports, absent_group_is_kept,
}

counter-zero_group :
    (F : Type 0) (fl : Float64 F) (k : Counter)
    → counter k (zero_group {F = F} ⦃fl = fl⦄).counts ≡ 0
unfolding zero_group
counter-zero_group F fl k = counter-zero_counts F fl k

module _ {F : Type 0} ⦃fl : Float64 F⦄ where
  counter-folded :
      (k : Counter) (ts : Update F) (rest : List (Update F))
      → counter k (folded ts rest).counts ≡ total k (ts ∷ rest) % u64
  unfolding total add64
  counter-folded k ts rest =
      let first = counter-groupadd k zero_group ts in
      let start = counter-zero_group F fl k in
      counter-add_all k rest (groupadd zero_group ts) (rw first (add64-lt _ _))
      ∙ rw first (rw start (omega arith))

  counter-add_old :
      (k : Counter) (c : Counts F) (old : Option (Counts F)) (n : ℕ)
      → counter k c ≡ n % u64
      → counter k (add_old c old) ≡ (old_counter k old + n) % u64
  unfolding add64
  counter-add_old k c none n h = omega arith
  counter-add_old k c (some old) n h = omega (arith, counter-add_counts k c old)

  -- A group that has reports is returned with every `uint64` counter equal, modulo 2^64, to the
  -- accumulated value plus what the reports bring, and its accumulator takes the same counts.
  pub counters_accumulate :
      (gname : Text) (tracked : List (Update F)) (g : Grouper F) (ts : Update F)
      (rest : List (Update F))
      → reports_of gname tracked ≡ ts ∷ rest
      → (grp : Group F) × (get gname (groups tracked g).1 ≡ some grp)
        × (get gname (groups tracked g).0.group_accum ≡ some grp.counts)
        × ((k : Counter)
            → counter k grp.counts
              ≡ (old_counter k (get gname g.group_accum) + total k (ts ∷ rest)) % u64)
  counters_accumulate gname tracked g ts rest h =
      let (threads, seen, accum) = group_of_reports gname tracked g ts rest h in
      (
        finished (folded ts rest) (get gname g.group_accum) threads,
        seen,
        accum,
        λ k.
            counter-add_old k (folded ts rest).counts (get gname g.group_accum) _
              (counter-folded k ts rest),
      )

  -- Without `removeEmptyGroups`, a group that has counts is returned, with or without reports,
  -- and a counter whose old value and reports together stay below 2^64 grows by exactly what the
  -- reports bring.
  pub counters_never_fall :
      (gname : Text) (tracked : List (Update F)) (g : Grouper F) (old : Counts F) (k : Counter)
      → g.remove_empty_groups ≡ false
      → get gname g.group_accum ≡ some old
      → counter k old + total k (reports_of gname tracked) < u64
      → (grp : Group F) × (get gname (groups tracked g).1 ≡ some grp)
        × (counter k grp.counts ≡ counter k old + total k (reports_of gname tracked))
  unfolding total
  counters_never_fall gname tracked g old k keeps known fits = go (reports_of gname tracked) refl
    where
      go :
          (us : List (Update F))
          → reports_of gname tracked ≡ us
          → (grp : Group F) × (get gname (groups tracked g).1 ≡ some grp)
            × (counter k grp.counts ≡ counter k old + total k (reports_of gname tracked))
      go [] h = (
        record zero_group { counts = old },
        (absent_group_is_kept gname tracked g h keeps).0 ∙ ap absent_group known,
        rw h (omega arith),
      )
      go (ts ∷ rest) h =
          let (grp, seen, accum, sums) = counters_accumulate gname tracked g ts rest h in
          (grp, seen, sums k ∙ rw known (omega (arith, ap (total k) h)))
