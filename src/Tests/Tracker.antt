-- ===== src/Tests/Tracker.antt =====
-- The theorems on the tracker at concrete inputs.
use process_exporter.Prelude.{
  ℕ, ◌≡◌, refl, true, false, Option, none, some, List, [], ◌∷◌, Text, bytes, arith, get, put, Map,
  All, nat_eq, pos,
}
use process_exporter.Proc.Types.{ProcId, IdInfo, Iter, id_eq, id_beq}
use process_exporter.Proc.Tracker.Defs.{Tracker, TrackedProc, new_tracker, update_proc, track}
use process_exporter.Proc.Tracker.Scan.{update, handle_proc}
use process_exporter.Proc.Tracker.Ancestry.{check_ancestry, parent_id}
use process_exporter.Proc.Tracker.Invariant.{IsConsistent}
use process_exporter.Proc.Tracker.Pids.{DistinctPids, IsNew, update_news}
use process_exporter.Proc.Tracker.Consistency.{run_cycles, tracker_stays-IsConsistent}
use process_exporter.Proc.Tracker.Lineage.{
  Inherits, from_parent, from_lineage, Falls, check_ancestry_ends, check_ancestry_sound,
  check_ancestry_complete,
}
use process_exporter.Proc.Tracker.Survivors.{exited_is_removed, tracked_is_fresh}
use process_exporter.Proc.Tracker.Cycle.{Env, update_all, lookup_uid}
use process_exporter.Tests.Data.{
  nat_float, proc_of, id_of, info_of, two_procs, namer, env_at, tracker_of_one, tracked_of,
}

two_procs-DistinctPids : DistinctPids two_procs.procs
two_procs-DistinctPids =
    ((λ id e. ((λ id' e' same. ground (arith, e, e', same)), tt)), ((λ id e. tt), tt))

tracker_of_one-IsConsistent : IsConsistent tracker_of_one
unfolding get id_beq
tracker_of_one-IsConsistent = record { found = λ id v h. ground (arith, h); distinct = (refl, tt) }

abbrev tracker_after : Option (Tracker ℕ) → Tracker ℕ
tracker_after none = tracker_of_one
tracker_after (some t) = t

abbrev cycles : List (Env × Iter ℕ)
cycles = (env_at 50, two_procs) ∷ (env_at 60, two_procs) ∷ []

tracker_stays-IsConsistent_example :
    IsConsistent (tracker_after (run_cycles 3 cycles (new_tracker namer true false (pos 0))))
unfolding run_cycles new_tracker update_all update handle_proc get lookup_uid put track id_beq
    check_ancestry parent_id update_proc
tracker_stays-IsConsistent_example =
    tracker_stays-IsConsistent namer true false (pos 0) 3 cycles _
      (two_procs-DistinctPids, (two_procs-DistinctPids, tt)) refl

abbrev news_after : Option (List (IdInfo ℕ)) → List (IdInfo ℕ)
news_after none = []
news_after (some news) = news

update_news_example :
    All
      (IsNew (update two_procs 60 tracker_of_one).0)
      (news_after (update two_procs 60 tracker_of_one).1)
unfolding update
update_news_example =
    update_news two_procs 60 tracker_of_one _ two_procs-DistinctPids tracker_of_one-IsConsistent
      refl

-- The process of pid 10 exits, and one of pid 11 is there.
abbrev one_proc : Iter ℕ
one_proc = record { procs = proc_of 11 1 ∷ []; close_fails = false }

one_proc-DistinctPids : DistinctPids one_proc.procs
one_proc-DistinctPids = ((λ id e. tt), tt)

exited_is_removed_example : get (id_of 10) (update one_proc 60 tracker_of_one).0.tracked ≡ none
unfolding get id_beq
exited_is_removed_example =
    exited_is_removed one_proc 60 tracker_of_one (id_of 10) (tracked_of 10) one_proc-DistinctPids
      tracker_of_one-IsConsistent refl refl (λ e. ground (arith, e)) ((λ e. ground (arith, e)), tt)

abbrev tracked_after : Option (Option (TrackedProc ℕ)) → TrackedProc ℕ
tracked_after (some (some tp)) = tp
tracked_after _ = tracked_of 10

abbrev seen_again : TrackedProc ℕ
seen_again = tracked_after (get (id_of 10) (update two_procs 60 tracker_of_one).0.tracked)

tracked_is_fresh_example : seen_again.last_update ≡ 60
unfolding update get handle_proc id_beq put update_proc
tracked_is_fresh_example =
    tracked_is_fresh two_procs 60 tracker_of_one (id_of 10) seen_again two_procs-DistinctPids
      tracker_of_one-IsConsistent refl refl

-- A process of pid 12, whose parent 11 is new, and whose grandparent 10 is tracked.
abbrev newprocs : Map ProcId (IdInfo ℕ)
newprocs = (id_of 11, info_of 11 10) ∷ (id_of 12, info_of 12 11) ∷ []

abbrev parents_known : Tracker ℕ
parents_known = record tracker_of_one {
  proc_ids = (10, id_of 10) ∷ (11, id_of 11) ∷ (12, id_of 12) ∷ [];
}

grandchild-Inherits : Inherits parents_known newprocs (info_of 12 11) (bytes "main")
unfolding get id_beq parent_id
grandchild-Inherits =
    from_lineage (info_of 12 11) (info_of 11 10) (bytes "main") refl refl refl refl
      (from_parent (info_of 11 10) (tracked_of 10) refl refl)

abbrev result_of : Option (Tracker ℕ × Text) → Tracker ℕ × Text
result_of none = (tracker_of_one, [])
result_of (some r) = r

abbrev search : Tracker ℕ × Text
search = result_of (check_ancestry 3 (λ id. 60) (info_of 12 11) newprocs parents_known)

check_ancestry_complete_example : search.1 ≡ bytes "main"
unfolding check_ancestry get id_beq parent_id
check_ancestry_complete_example =
    check_ancestry_complete newprocs (λ id. 60) grandchild-Inherits 3 search refl

check_ancestry_sound_example : Inherits parents_known newprocs (info_of 12 11) (bytes "main")
unfolding check_ancestry get id_beq parent_id
check_ancestry_sound_example =
    check_ancestry_sound newprocs (λ id. 60) parents_known (bytes "main") 3 (info_of 12 11) search.0
      refl refl

abbrev rank : ProcId → ℕ
rank id = id.pid

newprocs-Falls : Falls parents_known newprocs rank
unfolding get id_beq parent_id
newprocs-Falls = record { below = λ id info pinfo h k. ground (arith, h, k) }

check_ancestry_ends_example :
    (r : Tracker ℕ × Text) × (check_ancestry 13 (λ id. 60) (info_of 12 11) newprocs parents_known
      ≡ some r)
unfolding get id_beq
check_ancestry_ends_example =
    check_ancestry_ends newprocs (λ id. 60) rank parents_known newprocs-Falls 13 (id_of 12)
      (info_of 12 11) refl (omega arith)
