-- ===== src/Proc/Tracker/Settled.antt =====
-- The steps of a cycle after the scan keep the tracker consistent, and change no pid.
use process_exporter.Prelude.{
  >>=-eq-some, ℕ, zero, suc, ◌≡◌, refl, sym, ◌∙◌, ap, subst, Bool, true, false, Option, none, some,
  List, [], ◌∷◌, if_both, Text, Time, Float64, Map, get, put, is_empty, ltb, nat_eq, some_inj,
  is_zero, add_duration, All, All-map, AllValues, AllValues-get, AllValues-put,
}
use process_exporter.Proc.Types.{ProcId, IdInfo, id_eq}
use process_exporter.Proc.Tracker.Defs.{Tracker, TrackedProc, track, ignore}
use process_exporter.Proc.Tracker.Ancestry.{
  parent_id, give_up, check_ancestry, check_root, after_parent,
}
use process_exporter.Proc.Tracker.Cycle.{
  lookup_uid, name_of_uid, place, attributes, match_procs, adopt_one, adopt,
}
use process_exporter.Proc.Tracker.Invariant.{IsConsistent, put-IsConsistent}
use process_exporter.Proc.Tracker.Pids.{IsFound}

-- Steps that change no entry of `procIds` and keep a tracker consistent.
pub record Keeps {F : Type 0} (t t' : Tracker F) : Type 0 where
  pub same_pids : t'.proc_ids ≡ t.proc_ids
  pub consistent : IsConsistent t'

module _ {F : Type 0} where
  pub IsFound-after :
      (t t' : Tracker F) (info : IdInfo F)
      → t'.proc_ids ≡ t.proc_ids
      → IsFound t info
      → IsFound t' info
  IsFound-after t t' info e h = ap (get info.id.pid) e ∙ h

  ignore-Keeps :
      (id : ProcId) (start now : Time) (t : Tracker F)
      → IsConsistent t
      → get id.pid t.proc_ids ≡ some id
      → Keeps t (ignore id start now t)
  unfolding ignore
  ignore-Keeps id start now t c h =
      let stored : Keeps t (record t { tracked = put id none t.tracked }) = record {
        same_pids = refl;
        consistent = put-IsConsistent t id none c h;
      } in
      let same : Keeps t t = record { same_pids = refl; consistent = c } in
      if_both (Keeps t) t.recheck
        (if_both (Keeps t) (is_zero t.recheck_time_limit) same
          (if_both (Keeps t) (ltb now (add_duration start t.recheck_time_limit)) same stored))
        stored

module _ {F : Type 0} ⦃fl : Float64 F⦄ where
  track-Keeps :
      (name : Text) (info : IdInfo F) (t : Tracker F)
      → IsConsistent t
      → IsFound t info
      → Keeps t (track name info t)
  unfolding track
  track-Keeps name info t c h = record {
    same_pids = refl;
    consistent = put-IsConsistent t info.id _ c h;
  }

  -- From a tracker to a later one.
  pub after-Keeps : {t s u : Tracker F} → Keeps t s → (IsConsistent s → Keeps s u) → Keeps t u
  after-Keeps k f =
      let k' = f k.consistent in
      record { same_pids = k'.same_pids ∙ k.same_pids; consistent = k'.consistent }

  module _ (now : ProcId → Time) where
    give_up-Keeps :
        (info : IdInfo F) (t : Tracker F)
        → IsConsistent t
        → IsFound t info
        → Keeps t (give_up now info t).0
    give_up-Keeps info t c h = ignore-Keeps info.id info.static.start_time (now info.id) t c h

    after_parent-Keeps :
        (info : IdInfo F) (t : Tracker F) (o : Option (Tracker F × Text)) (r : Tracker F × Text)
        → IsFound t info
        → ((q : Tracker F × Text) → o ≡ some q → Keeps t q.0)
        → after_parent now info o ≡ some r
        → Keeps t r.0
    unfolding after_parent
    after_parent-Keeps info t none r h ih e = cc
    after_parent-Keeps info t (some (s, name)) r h ih e =
        let k = ih (s, name) refl in
        let found = IsFound-after t s info k.same_pids h in
        subst (λ (q : Tracker F × Text). Keeps t q.0) (some_inj e)
          (if_both (λ (q : Tracker F × Text). Keeps t q.0) (is_empty name)
            (after-Keeps k (λ c. give_up-Keeps info s c found))
            (after-Keeps k (λ c. track-Keeps name info s c found)))

    check_root-Keeps :
        (info : IdInfo F) (t : Tracker F) (rec : IdInfo F → Option (Tracker F × Text)) (root : Bool)
        (known : Option (Option (TrackedProc F))) (parent : Option (IdInfo F))
        (r : Tracker F × Text)
        → IsConsistent t
        → IsFound t info
        → ((pinfo : IdInfo F) (q : Tracker F × Text)
            → parent ≡ some pinfo
            → rec pinfo ≡ some q
            → Keeps t q.0)
        → check_root now info rec t root known parent ≡ some r
        → Keeps t r.0
    unfolding check_root
    check_root-Keeps info t rec true known parent r c h ih e =
        subst (λ (q : Tracker F × Text). Keeps t q.0) (some_inj e) (give_up-Keeps info t c h)
    check_root-Keeps info t rec false (some (some tp)) parent r c h ih e =
        subst (λ (q : Tracker F × Text). Keeps t q.0) (some_inj e)
          (track-Keeps tp.group_name info t c h)
    check_root-Keeps info t rec false (some none) parent r c h ih e =
        subst (λ (q : Tracker F × Text). Keeps t q.0) (some_inj e) (give_up-Keeps info t c h)
    check_root-Keeps info t rec false none none r c h ih e =
        subst (λ (q : Tracker F × Text). Keeps t q.0) (some_inj e) (give_up-Keeps info t c h)
    check_root-Keeps info t rec false none (some pinfo) r c h ih e =
        after_parent-Keeps info t (rec pinfo) r h (λ q k. ih pinfo q refl k) e

    check_ancestry-Keeps :
        (newprocs : Map ProcId (IdInfo F)) (t : Tracker F)
        → IsConsistent t
        → AllValues (IsFound t) newprocs
        → (fuel : ℕ) (info : IdInfo F) (r : Tracker F × Text) → IsFound t info
        → check_ancestry fuel now info newprocs t ≡ some r
        → Keeps t r.0
    unfolding check_ancestry
    check_ancestry-Keeps newprocs t c all zero info r h e = cc
    check_ancestry-Keeps newprocs t c all (suc fuel) info r h e =
        check_root-Keeps info t (λ pinfo. check_ancestry fuel now pinfo newprocs t) _ _ _ r c h
          (λ pinfo q p k.
            check_ancestry-Keeps newprocs t c all fuel pinfo q
              (AllValues-get (IsFound t) (parent_id info t) pinfo newprocs all p) k)
          e

    adopt_one-Keeps :
        (fuel : ℕ) (untracked : Map ProcId (IdInfo F)) (info : IdInfo F) (t t' : Tracker F)
        (known : Option (Option (TrackedProc F)))
        → IsConsistent t
        → AllValues (IsFound t) untracked
        → IsFound t info
        → adopt_one fuel now untracked info t known ≡ some t'
        → Keeps t t'
    unfolding adopt_one
    adopt_one-Keeps fuel untracked info t t' (some entry) c all h e =
        subst (Keeps t) (some_inj e) (record { same_pids = refl; consistent = c })
    adopt_one-Keeps fuel untracked info t t' none c all h e =
        let (r, ends, same) = >>=-eq-some (check_ancestry fuel now info untracked t) _ e in
        subst (Keeps t) (some_inj same) (check_ancestry-Keeps untracked t c all fuel info r h ends)

    pub adopt-Keeps :
        (fuel : ℕ) (untracked entries : Map ProcId (IdInfo F)) (t t' : Tracker F)
        → IsConsistent t
        → AllValues (IsFound t) untracked
        → AllValues (IsFound t) entries
        → adopt fuel now entries untracked t ≡ some t'
        → Keeps t t'
    unfolding adopt
    adopt-Keeps fuel untracked [] t t' c all left e =
        subst (Keeps t) (some_inj e) (record { same_pids = refl; consistent = c })
    adopt-Keeps fuel untracked ((id, info) ∷ entries) t t' c all left e =
        let (s, one, rest) =
          >>=-eq-some (adopt_one fuel now untracked info t (get info.id t.tracked)) _ e in
        let k = adopt_one-Keeps fuel untracked info t s _ c all left.0 one in
        let later = λ (i : IdInfo F) (h : IsFound t i). IsFound-after t s i k.same_pids h in
        after-Keeps k (λ c'.
          adopt-Keeps fuel untracked entries s t' c'
            (All-map (λ entry. later entry.1) untracked all)
            (All-map (λ entry. later entry.1) entries left.1) rest)

  name_of_uid-Keeps :
      (lookup_id : ℕ → Option Text) (uid : ℕ) (t : Tracker F) (o : Option Text)
      → IsConsistent t
      → Keeps t (name_of_uid lookup_id uid t o).0
  unfolding name_of_uid
  name_of_uid-Keeps lookup_id uid t (some name) c = record { same_pids = refl; consistent = c }
  name_of_uid-Keeps lookup_id uid t none c = record {
    same_pids = refl;
    consistent = record { found = c.found; distinct = c.distinct };
  }

  place-Keeps :
      (info : IdInfo F) (untracked : Map ProcId (IdInfo F)) (t : Tracker F) (answer : Bool × Text)
      → IsConsistent t
      → IsFound t info
      → AllValues (IsFound t) untracked
      → Keeps t (place info untracked t answer).0
        × AllValues (IsFound t) (place info untracked t answer).1
  unfolding place
  place-Keeps info untracked t (true, gname) c h all = (track-Keeps gname info t c h, all)
  place-Keeps info untracked t (false, gname) c h all = (
    record { same_pids = refl; consistent = c },
    AllValues-put (IsFound t) info.id info untracked all h,
  )

  pub match_procs-Keeps :
      (lookup_id : ℕ → Option Text) (news : List (IdInfo F)) (untracked : Map ProcId (IdInfo F))
      (t : Tracker F)
      → IsConsistent t
      → All (IsFound t) news
      → AllValues (IsFound t) untracked
      → Keeps t (match_procs lookup_id news untracked t).0
        × AllValues (IsFound t) (match_procs lookup_id news untracked t).1
  unfolding match_procs lookup_uid
  match_procs-Keeps lookup_id [] untracked t c found all =
      (record { same_pids = refl; consistent = c }, all)
  match_procs-Keeps lookup_id (info ∷ news) untracked t c found all =
      let (s, name) = lookup_uid lookup_id info.static.effective_uid t in
      let k =
        name_of_uid-Keeps lookup_id info.static.effective_uid t
          (get info.static.effective_uid t.username) c in
      let answer = s.namer (attributes name info) in
      let (k', all') =
        place-Keeps info untracked s answer k.consistent
          (IsFound-after t s info k.same_pids found.0)
          (All-map (λ entry. IsFound-after t s entry.1 k.same_pids) untracked all) in
      let u = (place info untracked s answer).0 in
      let kept = after-Keeps k (λ _. k') in
      let (k'', all'') =
        match_procs-Keeps lookup_id news (place info untracked s answer).1 u kept.consistent
          (All-map (λ i. IsFound-after t u i kept.same_pids) news found.1)
          (All-map (λ entry. IsFound-after s u entry.1 k'.same_pids)
            (place info untracked s answer).1 all') in
      (
        after-Keeps kept (λ _. k''),
        All-map (λ entry. IsFound-after u t entry.1 (sym kept.same_pids))
            (match_procs lookup_id news (place info untracked s answer).1 u).1 all'',
      )
