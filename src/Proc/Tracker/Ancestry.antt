-- ===== src/Proc/Tracker/Ancestry.antt =====
-- proc/tracker.go: `checkAncestry`, by which a new process inherits the group of an ancestor.
-- The source recurs without a bound; here it takes fuel, and `none` is a stack that overflows.
use process_exporter.Prelude.{
  true, false, ℕ, zero, suc, Bool, Option, none, some, Text, Time, Float64, Map, get, is_empty, ltb,
  if◌then◌else◌, nat_eq, [],
}
use process_exporter.Proc.Types.{ProcId, IdInfo, id_eq}
use process_exporter.Proc.Tracker.Defs.{Tracker, track, ignore, TrackedProc}

module _ {F : Type 0} where
  -- `t.procIds[ppid]`, which is the zero value for a pid that is not there
  unfoldable pub parent_id : IdInfo F → Tracker F → ProcId
  parent_id info t = elim (get info.static.parent_pid t.proc_ids) [
    | none ↦ record { pid = 0; start_time_rel = 0 }
    | some id ↦ id
  ]

  -- Ignores the process; `now id` is what `time.Now()` answers at the call for `id`.
  abbrev pub give_up : (ProcId → Time) → IdInfo F → Tracker F → Tracker F × Text
  give_up now info t = (ignore info.id info.static.start_time (now info.id) t, [])

module _ {F : Type 0} ⦃fl : Float64 F⦄ where
  abbrev pub take_name : Text → IdInfo F → Tracker F → Tracker F × Text
  take_name name info t = (track name info t, name)

module _ {F : Type 0} ⦃fl : Float64 F⦄ (now : ProcId → Time) (info : IdInfo F) where
  -- After the recursive call for a parent that is a new process.
  unfoldable pub after_parent : Option (Tracker F × Text) → Option (Tracker F × Text)
  after_parent none = none
  after_parent (some (t, name)) =
      some (if is_empty name then give_up now info t else take_name name info t)

  -- The search for the parent among the new processes.
  unfoldable pub check_new :
      (IdInfo F → Option (Tracker F × Text))
      → Tracker F
      → Option (IdInfo F)
      → Option (Tracker F × Text)
  unfolding after_parent
  check_new rec t none = some (give_up now info t)
  check_new rec t (some pinfo) = after_parent (rec pinfo)

  -- The search for the parent among the processes known to the tracker.
  unfoldable pub check_known :
      (IdInfo F → Option (Tracker F × Text))
      → Tracker F
      → Option (Option (TrackedProc F))
      → Option (IdInfo F)
      → Option (Tracker F × Text)
  unfolding check_new
  check_known rec t (some (some ptproc)) pinfo = some (take_name ptproc.group_name info t)
  check_known rec t (some none) pinfo = some (give_up now info t)
  check_known rec t none pinfo = check_new rec t pinfo

  -- The test whether the root of the process tree is reached.
  unfoldable pub check_root :
      (IdInfo F → Option (Tracker F × Text))
      → Tracker F
      → Bool
      → Option (Option (TrackedProc F))
      → Option (IdInfo F)
      → Option (Tracker F × Text)
  unfolding check_known
  check_root rec t true known pinfo = some (give_up now info t)
  check_root rec t false known pinfo = check_known rec t known pinfo

module _ {F : Type 0} ⦃fl : Float64 F⦄ where
  -- `(t *Tracker) checkAncestry(idinfo, newprocs)`
  unfoldable pub check_ancestry :
      ℕ → (ProcId → Time) → IdInfo F → Map ProcId (IdInfo F) → Tracker F → Option (Tracker F × Text)
  unfolding check_root
  check_ancestry zero now info newprocs t = none
  check_ancestry (suc fuel) now info newprocs t =
      let parent = parent_id info t in
      check_root now info (λ pinfo. check_ancestry fuel now pinfo newprocs t) t (ltb parent.pid 1)
        (get parent t.tracked) (get parent newprocs)
