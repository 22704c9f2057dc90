-- ===== src/Proc/Grouper/Reports.antt =====
-- How `groups` distributes the reports: each group is the fold of `groupadd` over its reports.
use process_exporter.Prelude.{
  ◌≡◌, refl, Option, some, List, [], ◌∷◌, Text, Float64, ◌==◌, if◌then◌else◌, Map, get, get-put,
  Distinct, put-Distinct, bytes_eq, bytes_beq, eq_of_bytes_beq, Bool-cases, inl, inr,
}
use process_exporter.Proc.Tracker.Defs.{ThreadUpdate, Update}
use process_exporter.Proc.Grouper.Group.{Group, groupadd}
use process_exporter.Proc.Grouper.Defs.{add_updates, or_zero}

module _ {F : Type 0} where
  -- The reports of one group, in order.
  unfoldable pub reports_of : Text → List (Update F) → List (Update F)
  reports_of gname [] = []
  reports_of gname (ts ∷ tracked) =
      let rest = reports_of gname tracked in if ts.group_name == gname then ts ∷ rest else rest

module _ {F : Type 0} ⦃fl : Float64 F⦄ where
  unfoldable pub add_reports : List (Update F) → Option (Group F) → Option (Group F)
  add_reports [] o = o
  add_reports (ts ∷ tracked) o = add_reports tracked (some (groupadd (or_zero o) ts))

  pub get-add_updates :
      (gname : Text) (tracked : List (Update F)) (m : Map Text (Group F))
      (threads : Map Text (List (ThreadUpdate F)))
      → get gname (add_updates tracked m threads).0
        ≡ add_reports (reports_of gname tracked) (get gname m)
  unfolding add_updates add_reports reports_of
  get-add_updates gname [] m threads = refl
  get-add_updates gname (ts ∷ tracked) m threads = rw (get-add_updates gname tracked _ _) (
      rw get-put (elim (Bool-cases (bytes_beq ts.group_name gname)) [
        | inl e ↦ rw (e, eq_of_bytes_beq ts.group_name gname e)
        | inr e ↦ rw e
      ]))

  pub add_updates-Distinct :
      (tracked : List (Update F)) (m : Map Text (Group F))
      (threads : Map Text (List (ThreadUpdate F)))
      → Distinct m
      → Distinct (add_updates tracked m threads).0
  unfolding add_updates
  add_updates-Distinct [] m threads d = d
  add_updates-Distinct (ts ∷ tracked) m threads d =
      add_updates-Distinct tracked _ _ (put-Distinct ts.group_name _ m d)
