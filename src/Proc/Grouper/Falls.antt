-- ===== src/Proc/Grouper/Falls.antt =====
-- What a counter of a process that falls, as the context switches do when a thread exits, does to
-- the counter of its group.
use process_exporter.Prelude.{
  ℕ, ◌≡◌, ◌+◌, ◌-◌, ◌%◌, ◌<◌, ◌≤◌, ◌∙◌, some, List, [], ◌∷◌, arith, Time, Float64, get, bytes_eq,
  u64, sub64, ◌++◌, Text,
}
use process_exporter.Proc.Types.{Counts, Metrics, Thread}
use process_exporter.Proc.Counts.{Counter, counter, counter-sub_counts}
use process_exporter.Proc.Tracker.Defs.{TrackedProc, Update, get_update, update_proc}
use process_exporter.Proc.Grouper.Group.{Group}
use process_exporter.Proc.Grouper.Defs.{Grouper, groups}
use process_exporter.Proc.Grouper.Reports.{reports_of}
use process_exporter.Proc.Grouper.Folds.{total}
use process_exporter.Proc.Grouper.Counters.{counters_accumulate}

-- A difference that wraps, added among others, takes the loss away.
wrapped :
    (a b r v w d c : ℕ)
    → d ≡ sub64 w v
    → w < v
    → v < u64
    → v - w ≤ a + b + r
    → a + b + r < u64
    → c ≡ (a + (b + (d + r))) % u64
    → c + (v - w) ≡ a + b + r
unfolding sub64
wrapped a b r v w d c e falls word below fits sum = omega (arith, e, falls, word, below, fits, sum)

module _ {F : Type 0} ⦃fl : Float64 F⦄ where
  total-append :
      (k : Counter) (xs ys : List (Update F)) → total k (xs ++ ys) ≡ total k xs + total k ys
  unfolding total
  total-append k [] ys = omega arith
  total-append k (x ∷ xs) ys = omega (arith, total-append k xs ys)

  latest-update :
      (k : Counter) (metrics : Metrics F) (now : Time) (threads : List (Thread F))
      (tp : TrackedProc F)
      → counter k (get_update (update_proc metrics now threads tp)).latest
        ≡ sub64 (counter k metrics.counts) (counter k tp.metrics.counts)
  unfolding get_update update_proc
  latest-update k metrics now threads tp = counter-sub_counts k metrics.counts tp.metrics.counts

  -- `counters_accumulate` at one report among those of its group.
  counter_around :
      (gname : Text) (tracked before after : List (Update F)) (u : Update F) (g : Grouper F)
      (old : Counts F) (k : Counter)
      → reports_of gname tracked ≡ before ++ u ∷ after
      → get gname g.group_accum ≡ some old
      → (grp : Group F) × (get gname (groups tracked g).1 ≡ some grp)
        × (counter k grp.counts
            ≡ (counter k old + (total k before + (counter k u.latest + total k after))) % u64)
  unfolding total
  counter_around gname tracked [] after u g old k e known =
      let (grp, seen, _, sums) = counters_accumulate gname tracked g u after e in
      (grp, seen, sums k ∙ rw known (omega arith))
  counter_around gname tracked (b ∷ before) after u g old k e known =
      let (grp, seen, _, sums) = counters_accumulate gname tracked g b (before ++ u ∷ after) e in
      (grp, seen, sums k ∙ rw (known, total-append k before (u ∷ after)) (omega arith))

  -- If a counter of a process, below 2^64 before, falls between two cycles, and its group has counted
  -- already, the counter that is returned for the group is by the amount of the fall below the sum of
  -- what the group had counted and what the reports of its other processes bring, as long as that sum
  -- is at least the fall and below 2^64.
  pub falling_counter_lowers_group :
      (metrics : Metrics F) (now : Time) (threads : List (Thread F)) (tp : TrackedProc F)
      (tracked before after : List (Update F)) (g : Grouper F) (old : Counts F) (k : Counter)
      → reports_of tp.group_name tracked
        ≡ before ++ get_update (update_proc metrics now threads tp) ∷ after
      → counter k metrics.counts < counter k tp.metrics.counts
      → counter k tp.metrics.counts < u64
      → counter k tp.metrics.counts - counter k metrics.counts
        ≤ counter k old + total k before + total k after
      → counter k old + total k before + total k after < u64
      → get tp.group_name g.group_accum ≡ some old
      → (grp : Group F) × (get tp.group_name (groups tracked g).1 ≡ some grp)
        × (counter k grp.counts + (counter k tp.metrics.counts - counter k metrics.counts)
            ≡ counter k old + total k before + total k after)
  falling_counter_lowers_group metrics now threads tp tracked before after g old k reported falls
        word below fits known =
      let u = get_update (update_proc metrics now threads tp) in
      let (grp, seen, sum) =
        counter_around tp.group_name tracked before after u g old k reported known in
      (
        grp,
        seen,
        wrapped (counter k old) (total k before) (total k after) _ _ _ _
            (latest-update k metrics now threads tp) falls word below fits sum,
      )
