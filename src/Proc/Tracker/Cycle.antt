-- ===== src/Proc/Tracker/Cycle.antt =====
-- proc/tracker.go: `lookupUid` and `(t *Tracker) Update`, one whole cycle.
use process_exporter.Prelude.{
  true, false, ◌>>=◌, ℕ, Option, none, some, List, [], ◌∷◌, Text, Time, Float64, ◌==◌,
  if◌then◌else◌, Map, get, put, itoa, nat_eq, Bool,
}
use process_exporter.Proc.Types.{ProcId, IdInfo, Iter, ProcAttributes, id_eq}
use process_exporter.Proc.Tracker.Defs.{
  Tracker, TrackedProc, CollectErrors, Update, get_update, track,
}
use process_exporter.Proc.Tracker.Scan
use process_exporter.Proc.Tracker.Ancestry.{check_ancestry}

-- What the environment answers during one cycle: the readings of the clock at the start, before
-- the scan and at the call of `ignore` for a process, and `user.LookupId`, where `none` is an error.
pub record Env : Type 0 where
  pub start : Time
  pub scan_time : Time
  pub ignore_time : ProcId → Time
  pub lookup_id : ℕ → Option Text

module _ {F : Type 0} ⦃fl : Float64 F⦄ where
  -- `lookupUid`, given the cached name: a failed lookup caches the number.
  unfoldable pub name_of_uid : (ℕ → Option Text) → ℕ → Tracker F → Option Text → Tracker F × Text
  name_of_uid lookup_id uid t (some name) = (t, name)
  name_of_uid lookup_id uid t none =
      let name : Text = elim (lookup_id uid) [ none ↦ itoa uid | some name ↦ name ] in
      (record t { username = put uid name t.username }, name)

  -- `(t *Tracker) lookupUid(uid)`
  unfoldable pub lookup_uid : (ℕ → Option Text) → ℕ → Tracker F → Tracker F × Text
  unfolding name_of_uid
  lookup_uid lookup_id uid t = name_of_uid lookup_id uid t (get uid t.username)

  unfoldable pub attributes : Text → IdInfo F → ProcAttributes
  attributes username info = record {
    name = info.static.name;
    cmdline = info.static.cmdline;
    cgroups = info.static.cgroups;
    username = username;
    pid = info.id.pid;
    start_time = info.static.start_time;
  }

  -- The end of the body of step 1: the process is tracked, or left for step 2.
  unfoldable pub place :
      IdInfo F → Map ProcId (IdInfo F) → Tracker F → Bool × Text → Tracker F × Map ProcId (IdInfo F)
  place info untracked t (true, gname) = (track gname info t, untracked)
  place info untracked t (false, gname) = (t, put info.id info untracked)

  -- Step 1 of `Update`: what the namer wants is tracked, the rest is collected in `untracked`.
  unfoldable pub match_procs :
      (ℕ → Option Text)
      → List (IdInfo F)
      → Map ProcId (IdInfo F)
      → Tracker F
      → Tracker F × Map ProcId (IdInfo F)
  unfolding attributes place
  match_procs lookup_id [] untracked t = (t, untracked)
  match_procs lookup_id (info ∷ news) untracked t =
      let (t', username) = lookup_uid lookup_id info.static.effective_uid t in
      let (t'', untracked') = place info untracked t' (t'.namer (attributes username info)) in
      match_procs lookup_id news untracked' t''

  -- The body of the loop over `untracked`, given what the tracker knows of the process.
  unfoldable pub adopt_one :
      ℕ
      → (ProcId → Time)
      → Map ProcId (IdInfo F)
      → IdInfo F
      → Tracker F
      → Option (Option (TrackedProc F))
      → Option (Tracker F)
  adopt_one fuel now untracked info t (some entry) = some t
  adopt_one fuel now untracked info t none = do
    r ← check_ancestry fuel now info untracked t
    some r.0

  -- Step 2 of `Update`, the loop over `untracked`.
  unfoldable pub adopt :
      ℕ
      → (ProcId → Time)
      → Map ProcId (IdInfo F)
      → Map ProcId (IdInfo F)
      → Tracker F
      → Option (Tracker F)
  unfolding adopt_one
  adopt fuel now [] untracked t = some t
  adopt fuel now ((id, info) ∷ entries) untracked t = do
    t' ← adopt_one fuel now untracked info t (get info.id t.tracked)
    adopt fuel now entries untracked t'

  -- The last loop of `Update`: a report for each process that is tracked.
  unfoldable pub updates : Map ProcId (Option (TrackedProc F)) → List (Update F)
  unfolding get_update
  updates [] = []
  updates ((id, none) ∷ entries) = updates entries
  updates ((id, some tp) ∷ entries) = get_update tp ∷ updates entries

  abbrev pub with_first_update : Time → Tracker F → Tracker F
  with_first_update start t =
      if t.first_update_at == 0 then record t { first_update_at = start } else t

  -- What follows the scan, given the new processes.
  unfoldable pub settle : ℕ → Env → List (IdInfo F) → Tracker F → Option (Tracker F)
  unfolding match_procs adopt
  settle fuel env news t =
      let (t', untracked) = match_procs env.lookup_id news [] t in
      if t'.track_children then adopt fuel env.ignore_time untracked untracked t' else some t'

  -- What `Update` does with the result of `update`.
  unfoldable pub finish_cycle :
      ℕ
      → Env
      → Tracker F × Option (List (IdInfo F)) × CollectErrors
      → Option (Tracker F × CollectErrors × Option (List (Update F)))
  unfolding settle updates
  finish_cycle fuel env (t, none, errs) = some (t, errs, none)
  finish_cycle fuel env (t, some news, errs) = do
    t' ← settle fuel env news t
    some (t', errs, some (updates t'.tracked))

  -- `(t *Tracker) Update(iter)`: the errors, and the reports or, as `none`, a fatal error. The
  -- outer `none` is a stack that overflows in `checkAncestry`.
  unfoldable pub update_all :
      ℕ → Env → Iter F → Tracker F → Option (Tracker F × CollectErrors × Option (List (Update F)))
  unfolding finish_cycle
  update_all fuel env iter t =
      finish_cycle fuel env (Scan.update iter env.scan_time (with_first_update env.start t))
