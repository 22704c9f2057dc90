-- ===== src/Proc/Tracker/Pids.antt =====
-- One scan keeps a tracker consistent, and every new process that it returns is found by its pid.
use process_exporter.Prelude.{
  Bool, true, false, get-remove, ℕ, ◌≡◌, ◌≢◌, refl, ◌∙◌, subst, Option, none, some, List, [], ◌∷◌,
  arith, Time, get, get-put, get-put_self, some_inj, nat_eq, nat_beq_iff, Float64, All, All-append,
  All-map,
}
use process_exporter.Proc.Types.{Iter, id_beq_iff, ProcId, IdInfo, ok, Proc, id_eq}
use process_exporter.Proc.Tracker.Defs.{no_errors, update_proc, Tracker, CollectErrors}
use process_exporter.Proc.Tracker.Scan.{
  finish_update, update, forget, drop_stale, Handled, remember, handle_proc, scan, push,
}
use process_exporter.Proc.Tracker.Outcome.{
  Outcome, unchanged, updated, appeared, handle_proc-Outcome,
}
use process_exporter.Proc.Tracker.Stale.{drop_stale_induct}
use process_exporter.Proc.Tracker.Invariant.{
  drop_stale-IsConsistent, IsConsistent, put-IsConsistent, remember-IsConsistent,
}

module _ {F : Type 0} where
  -- The process, if its id can be read, has another pid than `pid`.
  abbrev pub HasOtherPid : ℕ → Proc F → Type 0
  HasOtherPid pid p = (id : ProcId) → p.get_proc_id ≡ ok id → id.pid ≢ pid

  -- No two processes of a scan have one pid, as no two directories of /proc have one name.
  abbrev pub DistinctPids : List (Proc F) → Type 0
  DistinctPids [] = Unit
  DistinctPids (p ∷ procs) =
      ((id : ProcId) → p.get_proc_id ≡ ok id → All (HasOtherPid id.pid) procs) × DistinctPids procs

  -- `procIds` has the process under its pid.
  abbrev pub IsFound : Tracker F → IdInfo F → Type 0
  IsFound t info = get info.id.pid t.proc_ids ≡ some info.id

  -- The process is found, and neither tracked nor ignored yet.
  abbrev pub IsNew : Tracker F → IdInfo F → Type 0
  IsNew t info = IsFound t info × (get info.id t.tracked ≡ none)

  -- No process of the scan has the pid of `info`.
  abbrev pub IsApart : List (Proc F) → IdInfo F → Type 0
  IsApart procs info = All (HasOtherPid info.id.pid) procs

module _ {F : Type 0} ⦃fl : Float64 F⦄ (p : Proc F) (now : Time) (t : Tracker F) where
  Outcome-IsConsistent : {h : Handled F} → Outcome p now t h → IsConsistent t → IsConsistent h.0
  Outcome-IsConsistent (unchanged errs) c = c
  Outcome-IsConsistent (updated id last metrics threads errs e k) c =
      put-IsConsistent t id _ c (c.found id (some last) k)
  Outcome-IsConsistent (appeared info errs e k) c = remember-IsConsistent t info.id c

  -- Other pids are looked up as before.
  Outcome-others :
      {h : Handled F} (pid : ℕ)
      → Outcome p now t h
      → HasOtherPid pid p
      → get pid h.0.proc_ids ≡ get pid t.proc_ids
  unfolding remember
  Outcome-others pid (unchanged errs) other = refl
  Outcome-others pid (updated id last metrics threads errs e k) other = refl
  Outcome-others pid (appeared info errs e k) other = ground (
    arith,
    get-put info.id.pid pid info.id t.proc_ids,
    nat_beq_iff info.id.pid pid,
    other info.id e,
  )

  -- What is not tracked is not tracked afterwards.
  Outcome-untracked :
      {h : Handled F} (id : ProcId)
      → Outcome p now t h
      → get id t.tracked ≡ none
      → get id h.0.tracked ≡ none
  unfolding remember
  Outcome-untracked id (unchanged errs) n = n
  Outcome-untracked id (updated other last metrics threads errs e k) n = ground (
    arith,
    get-put other id (some (update_proc metrics now threads last)) t.tracked,
    id_beq_iff other id,
  )
  Outcome-untracked id (appeared info errs e k) n = forgotten (get info.id.pid t.proc_ids)
    where
      forgotten : (old : Option ProcId) → get id (forget old t.tracked) ≡ none
      forgotten none = n
      forgotten (some old) = ground (arith, get-remove old id t.tracked)

  Outcome-IsNew :
      {h : Handled F} (info : IdInfo F)
      → Outcome p now t h
      → h.1 ≡ some info
      → (p.get_proc_id ≡ ok info.id) × IsNew h.0 info
  unfolding remember
  Outcome-IsNew info (unchanged errs) n = cc
  Outcome-IsNew info (updated id last metrics threads errs e k) n = cc
  Outcome-IsNew info (appeared new errs e k) n =
      subst (λ i. (p.get_proc_id ≡ ok i.id) × IsNew (remember new.id t) i) (some_inj n)
        (
          e,
          (
            get-put_self new.id.pid new.id t.proc_ids,
            Outcome-untracked new.id (appeared new errs e k) k,
          ),
        )

module _ {F : Type 0} ⦃fl : Float64 F⦄ where
  -- What holds of a new process while the loop has still to visit `procs`.
  abbrev pub IsGood : Tracker F → List (Proc F) → IdInfo F → Type 0
  IsGood t procs info = IsNew t info × IsApart procs info

  push-IsGood :
      (t : Tracker F) (procs : List (Proc F)) (news : List (IdInfo F)) (new : Option (IdInfo F))
      → All (IsGood t procs) news
      → ((info : IdInfo F) → new ≡ some info → IsGood t procs info)
      → All (IsGood t procs) (push news new)
  push-IsGood t procs news none h k = h
  push-IsGood t procs news (some info) h k =
      All-append (IsGood t procs) news (info ∷ []) h (k info refl, tt)

  step-IsGood :
      (p : Proc F) (procs : List (Proc F)) (now : Time) (t : Tracker F) (news : List (IdInfo F))
      → DistinctPids (p ∷ procs)
      → All (IsGood t (p ∷ procs)) news
      → All (IsGood (handle_proc p now t).0 procs) (push news (handle_proc p now t).1)
  step-IsGood p procs now t news d h =
      let out = handle_proc-Outcome p now t in
      push-IsGood (handle_proc p now t).0 procs news (handle_proc p now t).1
        (All-map
          (λ info g. (
            (
              Outcome-others p now t info.id.pid out g.1.0 ∙ g.0.0,
              Outcome-untracked p now t info.id out g.0.1,
            ),
            g.1.1,
          ))
          news h)
        (λ info e.
          let (named, found) = Outcome-IsNew p now t info out e in (found, d.0 info.id named))

  pub scan-good :
      (procs : List (Proc F)) (now : Time) (news : List (IdInfo F)) (errs : CollectErrors)
      (t : Tracker F)
      → DistinctPids procs
      → All (IsGood t procs) news
      → IsConsistent t
      → IsConsistent (scan procs now news errs t).0
        × All (IsNew (scan procs now news errs t).0) (scan procs now news errs t).1
  unfolding scan
  scan-good [] now news errs t d h c = (c, All-map (λ info g. g.0) news h)
  scan-good (p ∷ procs) now news errs t d h c =
      scan-good procs now _ _ _ d.1 (step-IsGood p procs now t news d h)
        (Outcome-IsConsistent p now t (handle_proc-Outcome p now t) c)

module _ {F : Type 0} where
  -- The removal of stale processes leaves the new ones alone.
  drop_stale-IsNew :
      (now : Time) (t : Tracker F) (info : IdInfo F)
      → IsConsistent t
      → IsNew t info
      → IsNew (drop_stale now t.tracked t) info
  drop_stale-IsNew now t info c h =
      drop_stale_induct now (λ s. IsNew s info) t.tracked
        (λ s id tp here old found k. (
          ground (
            arith,
            get-remove id.pid info.id.pid s.proc_ids,
            nat_beq_iff id.pid info.id.pid,
            found,
            k.0,
            here,
            h.1,
          ),
          ground (arith, get-remove id info.id s.tracked, k.1),
        ))
        t refl c h

  finish-IsConsistent :
      (fails : Bool) (now : Time) (t : Tracker F) (news : List (IdInfo F)) (errs : CollectErrors)
      → IsConsistent t
      → IsConsistent (finish_update fails now (t, news, errs)).0
  unfolding finish_update
  finish-IsConsistent true now t news errs c = c
  finish-IsConsistent false now t news errs c =
      drop_stale-IsConsistent now t.tracked t c.distinct c.found c

  finish_news :
      (fails : Bool) (now : Time) (t : Tracker F) (news new : List (IdInfo F))
      (errs : CollectErrors)
      → IsConsistent t
      → All (IsNew t) news
      → (finish_update fails now (t, news, errs)).1 ≡ some new
      → All (IsNew (finish_update fails now (t, news, errs)).0) new
  unfolding finish_update
  finish_news true now t news new errs c h e = cc
  finish_news false now t news new errs c h e =
      subst (All (IsNew (drop_stale now t.tracked t))) (some_inj e)
        (All-map (λ info. drop_stale-IsNew now t info c) news h)

module _ {F : Type 0} ⦃fl : Float64 F⦄ where
  -- A whole `update` over processes of distinct pids keeps the tracker consistent, whether or not
  -- the iterator fails, and what it returns is new.
  pub update-IsConsistent :
      (iter : Iter F) (now : Time) (t : Tracker F)
      → DistinctPids iter.procs
      → IsConsistent t
      → IsConsistent (update iter now t).0
  unfolding update
  update-IsConsistent iter now t d c =
      finish-IsConsistent iter.close_fails now _ _ _
        (scan-good iter.procs now [] no_errors t d tt c).0

  -- Every process that a scan of a consistent tracker over processes of distinct pids returns as
  -- new is the one that `procIds` gives for its pid, and is neither tracked nor ignored.
  pub update_news :
      (iter : Iter F) (now : Time) (t : Tracker F) (news : List (IdInfo F))
      → DistinctPids iter.procs
      → IsConsistent t
      → (update iter now t).1 ≡ some news
      → All (IsNew (update iter now t).0) news
  unfolding update
  update_news iter now t news d c h =
      let (c', good) = scan-good iter.procs now [] no_errors t d tt c in
      finish_news iter.close_fails now _ _ news _ c' good h
