-- ===== src/Proc/Grouper/Defs.antt =====
-- proc/grouper.go: `groups`, `threads` and `Update`.
use process_exporter.Prelude.{
  ℕ, Bool, true, false, Option, none, some, List, [], ◌∷◌, ◌++◌, Text, ℤ, Float64, if◌then◌else◌,
  Map, get, put, add64, nat_eq, bytes_eq, remove,
}
use process_exporter.Proc.Types.{Counts, MatchNamer, Iter}
use process_exporter.Proc.Counts.{zero_counts, add_counts}
use process_exporter.Proc.Tracker.Defs.{Tracker, ThreadUpdate, Update, new_tracker, CollectErrors}
use process_exporter.Proc.Tracker.Cycle.{Env, update_all}
use process_exporter.Proc.Grouper.Group.{Threads, Group, groupadd, zero_group}

pub record Grouper (F : Type 0) : Type 0 where
  pub group_accum : Map Text (Counts F)
  pub tracker : Tracker F
  pub thread_accum : Map Text (Map Text (Threads F))
  pub remove_empty_groups : Bool

abbrev pub is_nil {ℓ} : {A : Type ℓ} → List A → Bool
is_nil [] = true
is_nil (x ∷ xs) = false

module _ {F : Type 0} ⦃fl : Float64 F⦄ where
  abbrev pub or_zero : Option (Group F) → Group F
  or_zero none = zero_group
  or_zero (some grp) = grp

  abbrev pub or_empty : Option (List (ThreadUpdate F)) → List (ThreadUpdate F)
  or_empty none = []
  or_empty (some threads) = threads

  -- The first loop of `groups`: the reports by group, and their threads by group.
  unfoldable pub add_updates :
      List (Update F)
      → Map Text (Group F)
      → Map Text (List (ThreadUpdate F))
      → Map Text (Group F) × Map Text (List (ThreadUpdate F))
  add_updates [] groups threads = (groups, threads)
  add_updates (ts ∷ tracked) groups threads =
      add_updates tracked
        (put ts.group_name (groupadd (or_zero (get ts.group_name groups)) ts) groups)
        (if is_nil ts.threads
          then threads
          else put ts.group_name (or_empty (get ts.group_name threads) ++ ts.threads) threads)

  abbrev pub or_new : Option (Threads F) → Threads F
  or_new none = record { name = []; num_threads = 0; counts = zero_counts }
  or_new (some thr) = thr

  -- The first loop of `threads`: the thread reports by thread name.
  unfoldable pub by_thread_name :
      List (ThreadUpdate F) → Map Text (Threads F) → Map Text (Threads F)
  by_thread_name [] threads = threads
  by_thread_name (nc ∷ tracked) threads =
      let curthr = or_new (get nc.thread_name threads) in
      by_thread_name tracked (
        put nc.thread_name
          (record {
            name = nc.thread_name;
            num_threads = add64 curthr.num_threads 1;
            counts = add_counts curthr.counts nc.latest;
          })
          threads)

  -- The counts that a thread name had are added to what was just observed.
  unfoldable pub with_history : Map Text (Threads F) → Map Text (Threads F) → Map Text (Threads F)
  with_history history [] = []
  with_history history ((tname, thr) ∷ threads) =
      (
        tname,
        elim (get tname history) [
          | none ↦ thr
          | some old ↦ record thr { counts = add_counts thr.counts old.counts }
        ],
      )
      ∷ with_history history threads

  unfoldable pub values : Map Text (Threads F) → List (Threads F)
  values [] = []
  values ((tname, thr) ∷ threads) = thr ∷ values threads

  abbrev pub history_of : Option (Map Text (Threads F)) → Map Text (Threads F)
  history_of none = []
  history_of (some history) = history

  -- `(g *Grouper) threads(gname, tracked)`
  unfoldable pub group_threads :
      Text → List (ThreadUpdate F) → Grouper F → Grouper F × List (Threads F)
  unfolding by_thread_name with_history values
  group_threads gname [] g = (record g { thread_accum = remove gname g.thread_accum }, [])
  group_threads gname (nc ∷ tracked) g =
      let threads =
        with_history (history_of (get gname g.thread_accum)) (by_thread_name (nc ∷ tracked) []) in
      (record g { thread_accum = put gname threads g.thread_accum }, values threads)

  -- `group.Counts.Add(Delta(oldcounts))`, if there are old counts
  abbrev pub add_old : Counts F → Option (Counts F) → Counts F
  add_old counts none = counts
  add_old counts (some old) = add_counts counts old

  -- The body of the second loop of `groups`.
  unfoldable pub accumulate :
      Text → Group F → List (ThreadUpdate F) → Grouper F → Grouper F × Group F
  unfolding group_threads
  accumulate gname group tracked g =
      let counts = add_old group.counts (get gname g.group_accum) in
      let (g', threads) =
        group_threads gname tracked (record g { group_accum = put gname counts g.group_accum }) in
      (g', record group { counts = counts; threads = threads })

  -- The second loop of `groups`: what was observed is added to the accumulators.
  unfoldable pub accumulate_all :
      Map Text (Group F)
      → Map Text (List (ThreadUpdate F))
      → Grouper F
      → Grouper F × Map Text (Group F)
  unfolding accumulate
  accumulate_all [] threads g = (g, [])
  accumulate_all ((gname, group) ∷ groups) threads g =
      let (g', group') = accumulate gname group (or_empty (get gname threads)) g in
      let (g'', groups') = accumulate_all groups threads g' in (g'', (gname, group') ∷ groups')

  -- The third loop of `groups`, given the entries of `g.groupAccum`.
  unfoldable pub add_absent :
      Map Text (Counts F) → Grouper F → Map Text (Group F) → Grouper F × Map Text (Group F)
  unfolding zero_group
  add_absent [] g groups = (g, groups)
  add_absent ((gname, gcounts) ∷ entries) g groups = elim (get gname groups) [
    | some grp ↦ add_absent entries g groups
    | none ↦
        add_absent entries
          (if g.remove_empty_groups
            then record g {
              group_accum = remove gname g.group_accum;
              thread_accum = remove gname g.thread_accum;
            }
            else g)
          (if g.remove_empty_groups
            then groups
            else put gname (record zero_group { counts = gcounts }) groups)
  ]

  -- `(g *Grouper) groups(tracked)`
  unfoldable pub groups : List (Update F) → Grouper F → Grouper F × Map Text (Group F)
  unfolding add_updates accumulate_all add_absent
  groups tracked g =
      let (observed, threads) = add_updates tracked [] [] in
      let (g', seen) = accumulate_all observed threads g in add_absent g'.group_accum g' seen

  -- `NewGrouper`, without the flags that are not read
  unfoldable pub new_grouper : MatchNamer → Bool → Bool → ℤ → Bool → Grouper F
  unfolding new_tracker
  new_grouper namer track_children recheck recheck_time_limit remove_empty_groups = record {
    group_accum = [];
    tracker = new_tracker namer track_children recheck recheck_time_limit;
    thread_accum = [];
    remove_empty_groups = remove_empty_groups;
  }

  -- `(g *Grouper) Update(iter)`; the inner `none` is a fatal error, the outer a stack that overflows.
  unfoldable pub update_groups :
      ℕ
      → Env
      → Iter F
      → Grouper F
      → Option (Grouper F × CollectErrors × Option (Map Text (Group F)))
  unfolding groups
  update_groups fuel env iter g = elim (update_all fuel env iter g.tracker) [
    | none ↦ none
    | some (t, errs, none) ↦ some (record g { tracker = t }, errs, none)
    | some (t, errs, some tracked) ↦
        let (g', by_name) = groups tracked (record g { tracker = t }) in
        some (g', errs, some by_name)
  ]
