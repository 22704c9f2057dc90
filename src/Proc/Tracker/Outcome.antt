-- ===== src/Proc/Tracker/Outcome.antt =====
-- The three things that `handleProc` can do to a tracker.
use process_exporter.Prelude.{
  ◌≡◌, refl, Option, none, some, List, Time, Float64, get, put, nat_eq, ℕ,
}
use process_exporter.Proc.Types.{
  ProcId, IdInfo, Metrics, Thread, Read, ok, err, Proc, id_eq, Static, proc_not_exist, other_error,
}
use process_exporter.Proc.Tracker.Defs.{Tracker, TrackedProc, CollectErrors, no_errors, update_proc}
use process_exporter.Proc.Tracker.Scan.{
  Handled, remember, handle_new, handle_metrics, handle_known, handle_id, handle_proc,
}

abbrev as_known : {F : Type 0} → Option (TrackedProc F) → Option (Option (TrackedProc F))
as_known none = none
as_known (some last) = some (some last)

module _ {F : Type 0} ⦃fl : Float64 F⦄ where
  -- The tracker is as before; a known process has an update; or a new process is remembered.
  pub data Outcome (p : Proc F) (now : Time) (t : Tracker F) : Handled F → Type 0 where
    unchanged : (errs : CollectErrors) → Outcome p now t (t, none, errs)
    updated :
        (id : ProcId) (last : TrackedProc F) (metrics : Metrics F) (threads : List (Thread F))
        (errs : CollectErrors)
        → p.get_proc_id ≡ ok id
        → get id t.tracked ≡ some (some last)
        → Outcome p now t (
          record t { tracked = put id (some (update_proc metrics now threads last)) t.tracked },
          none,
          errs,
        )
    appeared :
        (info : IdInfo F) (errs : CollectErrors)
        → p.get_proc_id ≡ ok info.id
        → get info.id t.tracked ≡ none
        → Outcome p now t (remember info.id t, some info, errs)

  module _ (p : Proc F) (now : Time) (t : Tracker F) where
    handle_new-Outcome :
        (id : ProcId) (metrics : Metrics F) (threads : List (Thread F)) (errs : CollectErrors)
        (r : Read Static)
        → p.get_proc_id ≡ ok id
        → get id t.tracked ≡ none
        → Outcome p now t (handle_new id metrics threads errs t r)
    unfolding handle_new
    handle_new-Outcome id metrics threads errs (ok static) e k = appeared _ errs e k
    handle_new-Outcome id metrics threads errs (err x) e k = unchanged errs

    handle_metrics-Outcome :
        (id : ProcId) (known : Option (TrackedProc F)) (r : Read (Metrics F × ℕ))
        → p.get_proc_id ≡ ok id
        → get id t.tracked ≡ as_known known
        → Outcome p now t (handle_metrics p now id known t r)
    unfolding handle_metrics
    handle_metrics-Outcome id (some last) (ok (metrics, soft)) e k = updated id last _ _ _ e k
    handle_metrics-Outcome id none (ok (metrics, soft)) e k =
        handle_new-Outcome id _ _ _ p.get_static e k
    handle_metrics-Outcome id known (err proc_not_exist) e k = unchanged no_errors
    handle_metrics-Outcome id known (err other_error) e k = unchanged _

    handle_known-Outcome :
        (id : ProcId) (known : Option (Option (TrackedProc F)))
        → p.get_proc_id ≡ ok id
        → get id t.tracked ≡ known
        → Outcome p now t (handle_known p now id t known)
    unfolding handle_known
    handle_known-Outcome id none e k = handle_metrics-Outcome id none p.get_metrics e k
    handle_known-Outcome id (some none) e k = unchanged no_errors
    handle_known-Outcome id (some (some last)) e k =
        handle_metrics-Outcome id (some last) p.get_metrics e k

    handle_id-Outcome :
        (r : Read ProcId) → p.get_proc_id ≡ r → Outcome p now t (handle_id p now t r)
    unfolding handle_id
    handle_id-Outcome (ok id) e = handle_known-Outcome id (get id t.tracked) e refl
    handle_id-Outcome (err x) e = unchanged no_errors

    pub handle_proc-Outcome : Outcome p now t (handle_proc p now t)
    unfolding handle_proc
    handle_proc-Outcome = handle_id-Outcome p.get_proc_id refl
