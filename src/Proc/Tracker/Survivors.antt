-- ===== src/Proc/Tracker/Survivors.antt =====
-- What one `update` leaves in the tracker.
use process_exporter.Prelude.{
  sym, subst, ◌≢◌, ◌⊎◌, inl, arith, All, get-put, get-remove, nat_beq_iff, ◌∷◌, ◌≡◌, refl, ◌∙◌,
  false, Option, none, some, List, [], Time, Float64, get, nat_eq,
}
use process_exporter.Proc.Types.{ProcId, IdInfo, Iter, Proc, ok, id_eq, id_beq_iff}
use process_exporter.Proc.Tracker.Defs.{Tracker, TrackedProc, CollectErrors, no_errors, update_proc}
use process_exporter.Proc.Tracker.Scan.{
  Handled, scan, update, finish_update, remember, forget, handle_proc, push, add_errors,
}
use process_exporter.Proc.Tracker.Outcome.{
  Outcome, unchanged, updated, appeared, handle_proc-Outcome,
}
use process_exporter.Proc.Tracker.Invariant.{IsConsistent}
use process_exporter.Proc.Tracker.Pids.{DistinctPids, scan-good}
use process_exporter.Proc.Tracker.Stale.{keep, get-drop_stale}

module _ {F : Type 0} ⦃fl : Float64 F⦄ where
  -- What `update` leaves, by what the scan leaves.
  survivors :
      (iter : Iter F) (now : Time) (t : Tracker F) (id : ProcId)
      → DistinctPids iter.procs
      → IsConsistent t
      → iter.close_fails ≡ false
      → get id (update iter now t).0.tracked
        ≡ keep now (get id (scan iter.procs now [] no_errors t).0.tracked)
  unfolding update finish_update
  survivors iter now t id d c e =
      let (s, news, errs) = scan iter.procs now [] no_errors t in
      subst
        (λ b. get id (finish_update b now (s, news, errs)).0.tracked ≡ keep now (get id s.tracked))
        (sym e) (get-drop_stale now id s (scan-good iter.procs now [] no_errors t d tt c).0)

  -- The process is not the one that `id` names.
  abbrev pub IsOther : ProcId → Proc F → Type 0
  IsOther id p = p.get_proc_id ≢ ok id

  Outcome-other :
      (p : Proc F) (now : Time) (t : Tracker F) (id : ProcId) {h : Handled F}
      → Outcome p now t h
      → IsOther id p
      → (get id h.0.tracked ≡ get id t.tracked) ⊎ (get id h.0.tracked ≡ none)
  unfolding remember
  Outcome-other p now t id (unchanged errs) o = inl refl
  Outcome-other p now t id (updated other last metrics threads errs e k) o = inl (
      ground (
        arith,
        get-put other id (some (update_proc metrics now threads last)) t.tracked,
        id_beq_iff other id,
        o,
        e,
      ))
  Outcome-other p now t id (appeared info errs e k) o = forgotten (get info.id.pid t.proc_ids)
    where
      forgotten :
          (old : Option ProcId)
          → (get id (forget old t.tracked) ≡ get id t.tracked)
            ⊎ (get id (forget old t.tracked) ≡ none)
      forgotten none = inl refl
      forgotten (some old) = ground (arith, get-remove old id t.tracked)

  scan-other :
      (procs : List (Proc F)) (now : Time) (news : List (IdInfo F)) (errs : CollectErrors)
      (t : Tracker F) (id : ProcId)
      → All (IsOther id) procs
      → (get id (scan procs now news errs t).0.tracked ≡ get id t.tracked)
        ⊎ (get id (scan procs now news errs t).0.tracked ≡ none)
  unfolding scan
  scan-other [] now news errs t id o = inl refl
  scan-other (p ∷ procs) now news errs t id o = ground (
    arith,
    Outcome-other p now t id (handle_proc-Outcome p now t) o.0,
    scan-other procs now (push news (handle_proc p now t).1)
        (add_errors errs (handle_proc p now t).2) (handle_proc p now t).0 id o.1,
  )

  -- In a consistent tracker, a tracked process that no process of a scan names is removed by the
  -- scan, if the pids of the scan are distinct, `Close` does not fail, and the process was not
  -- updated at the very time of the scan.
  pub exited_is_removed :
      (iter : Iter F) (now : Time) (t : Tracker F) (id : ProcId) (tp : TrackedProc F)
      → DistinctPids iter.procs
      → IsConsistent t
      → iter.close_fails ≡ false
      → get id t.tracked ≡ some (some tp)
      → tp.last_update ≢ now
      → All (IsOther id) iter.procs
      → get id (update iter now t).0.tracked ≡ none
  exited_is_removed iter now t id tp d c e h old others =
      survivors iter now t id d c e
      ∙ ground (
        arith,
        scan-other iter.procs now [] no_errors t id others,
        h,
        old,
        nat_beq_iff tp.last_update now,
      )

  -- After a scan of a consistent tracker over processes of distinct pids, if `Close` does not
  -- fail, every process that is tracked has been updated at the time of the scan.
  pub tracked_is_fresh :
      (iter : Iter F) (now : Time) (t : Tracker F) (id : ProcId) (tp : TrackedProc F)
      → DistinctPids iter.procs
      → IsConsistent t
      → iter.close_fails ≡ false
      → get id (update iter now t).0.tracked ≡ some (some tp)
      → tp.last_update ≡ now
  tracked_is_fresh iter now t id tp d c e h =
      kept_is_fresh (get id (scan iter.procs now [] no_errors t).0.tracked)
        (sym (survivors iter now t id d c e) ∙ h)
    where
      kept_is_fresh :
          (o : Option (Option (TrackedProc F))) → keep now o ≡ some (some tp) → tp.last_update ≡ now
      kept_is_fresh none k = cc
      kept_is_fresh (some none) k = cc
      kept_is_fresh (some (some tq)) k = ground (arith, k, nat_beq_iff tq.last_update now)
