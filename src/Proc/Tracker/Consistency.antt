-- ===== src/Proc/Tracker/Consistency.antt =====
-- Whole cycles keep a tracker consistent.
use process_exporter.Prelude.{
  ◌>>=◌, >>=-eq-some, ℕ, ◌≡◌, refl, subst, Bool, true, false, Option, none, some, List, [], ◌∷◌,
  if_both, Float64, Map, some_inj, All, All-map, AllValues, nat_eq, get, ◌==◌, if◌then◌else◌,
  Duration,
}
use process_exporter.Proc.Types.{ProcId, IdInfo, Iter, MatchNamer, id_eq}
use process_exporter.Proc.Tracker.Defs.{Tracker, CollectErrors, Update, new_tracker}
use process_exporter.Proc.Tracker.Cycle.{
  Env, match_procs, adopt, settle, finish_cycle, update_all, with_first_update,
}
use process_exporter.Proc.Tracker.Invariant.{IsConsistent}
use process_exporter.Proc.Tracker.Pids.{
  IsFound, IsNew, DistinctPids, update-IsConsistent, update_news,
}
use process_exporter.Proc.Tracker.Settled.{IsFound-after, match_procs-Keeps, adopt-Keeps}

module _ {F : Type 0} ⦃fl : Float64 F⦄ where
  settle-IsConsistent :
      (fuel : ℕ) (env : Env) (news : List (IdInfo F)) (t t' : Tracker F)
      → IsConsistent t
      → All (IsFound t) news
      → settle fuel env news t ≡ some t'
      → IsConsistent t'
  unfolding settle
  settle-IsConsistent fuel env news t t' c found e =
      let (k, all) = match_procs-Keeps env.lookup_id news [] t c found tt in
      let (s, untracked) = match_procs env.lookup_id news [] t in
      let all' =
        All-map (λ (entry : ProcId × IdInfo F). IsFound-after t s entry.1 k.same_pids) untracked
          all in
      go untracked s.track_children k.consistent all' e
    where
      go :
          {s : Tracker F} (untracked : Map ProcId (IdInfo F)) (b : Bool)
          → IsConsistent s
          → AllValues (IsFound s) untracked
          → (if b then adopt fuel env.ignore_time untracked untracked s else some s) ≡ some t'
          → IsConsistent t'
      go {s} untracked true c all e =
          (adopt-Keeps env.ignore_time fuel untracked untracked s t' c all all e).consistent
      go untracked false c all e = subst IsConsistent (some_inj e) c

  finish_cycle-IsConsistent :
      (fuel : ℕ) (env : Env) (t : Tracker F) (news : Option (List (IdInfo F)))
      (errs : CollectErrors) (r : Tracker F × CollectErrors × Option (List (Update F)))
      → IsConsistent t
      → ((infos : List (IdInfo F)) → news ≡ some infos → All (IsNew t) infos)
      → finish_cycle fuel env (t, news, errs) ≡ some r
      → IsConsistent r.0
  unfolding finish_cycle
  finish_cycle-IsConsistent fuel env t none errs r c new e =
      subst (λ (q : Tracker F × CollectErrors × Option (List (Update F))). IsConsistent q.0)
        (some_inj e) c
  finish_cycle-IsConsistent fuel env t (some infos) errs r c new e =
      let (t', settled, same) = >>=-eq-some (settle fuel env infos t) _ e in
      subst (λ (q : Tracker F × CollectErrors × Option (List (Update F))). IsConsistent q.0)
        (some_inj same)
        (settle-IsConsistent fuel env infos t t' c
          (All-map (λ info (h : IsNew t info). h.0) infos (new infos refl)) settled)

  first_update-IsConsistent :
      (start : ℕ) (t : Tracker F) → IsConsistent t → IsConsistent (with_first_update start t)
  first_update-IsConsistent start t c =
      if_both IsConsistent (t.first_update_at == 0)
        (record { found = c.found; distinct = c.distinct }) c

  -- A cycle over processes of distinct pids that ends keeps the tracker consistent, also when the
  -- iterator fails.
  pub update_all-IsConsistent :
      (fuel : ℕ) (env : Env) (iter : Iter F) (t : Tracker F)
      (r : Tracker F × CollectErrors × Option (List (Update F)))
      → DistinctPids iter.procs
      → IsConsistent t
      → update_all fuel env iter t ≡ some r
      → IsConsistent r.0
  unfolding update_all
  update_all-IsConsistent fuel env iter t r d c e =
      let s = with_first_update env.start t in
      let c' = first_update-IsConsistent env.start t c in
      finish_cycle-IsConsistent fuel env _ _ _ r (update-IsConsistent iter env.scan_time s d c')
        (λ infos h. update_news iter env.scan_time s infos d c' h) e

  -- Cycles one after another, as long as they end.
  unfoldable pub run_cycles : ℕ → List (Env × Iter F) → Tracker F → Option (Tracker F)
  run_cycles fuel [] t = some t
  run_cycles fuel ((env, iter) ∷ cycles) t = do
    r ← update_all fuel env iter t
    run_cycles fuel cycles r.0

  abbrev pub AllDistinct : List (Env × Iter F) → Type 0
  AllDistinct [] = Unit
  AllDistinct ((env, iter) ∷ cycles) = DistinctPids iter.procs × AllDistinct cycles

  run_cycles-IsConsistent :
      (fuel : ℕ) (cycles : List (Env × Iter F)) (t t' : Tracker F)
      → AllDistinct cycles
      → IsConsistent t
      → run_cycles fuel cycles t ≡ some t'
      → IsConsistent t'
  unfolding run_cycles
  run_cycles-IsConsistent fuel [] t t' d c e = subst IsConsistent (some_inj e) c
  run_cycles-IsConsistent fuel ((env, iter) ∷ cycles) t t' d c e =
      let (r, ends, rest) = >>=-eq-some (update_all fuel env iter t) _ e in
      run_cycles-IsConsistent fuel cycles r.0 t' d.1
        (update_all-IsConsistent fuel env iter t r d.0 c ends) rest

  -- From a new tracker, after any cycles over processes of distinct pids that all end, every
  -- process that is tracked or ignored is the one that `procIds` gives for its pid, and has one
  -- entry.
  pub tracker_stays-IsConsistent :
      (namer : MatchNamer) (track_children recheck : Bool) (limit : Duration) (fuel : ℕ)
      (cycles : List (Env × Iter F)) (t : Tracker F)
      → AllDistinct cycles
      → run_cycles fuel cycles (new_tracker namer track_children recheck limit) ≡ some t
      → IsConsistent t
  unfolding new_tracker get
  tracker_stays-IsConsistent namer track_children recheck limit fuel cycles t d e =
      run_cycles-IsConsistent fuel cycles _ t d (record { found = λ id v h. cc; distinct = tt }) e
