-- ===== src/Proc/Grouper/Absent.antt =====
-- The third loop of `groups`: what becomes of a group that has no process in this cycle.
use process_exporter.Prelude.{
  ◌≡◌, refl, true, false, Option, none, some, [], ◌∷◌, arith, Text, Float64, Map, get, put, remove,
  get-put, get-remove, bytes_eq, eq_of_bytes_beq,
}
use process_exporter.Proc.Types.{Counts}
use process_exporter.Proc.Grouper.Group.{Group, zero_group}
use process_exporter.Proc.Grouper.Defs.{Grouper, add_absent}

abbrev pub or_else {ℓ} : {A : Type ℓ} → Option A → Option A → Option A
or_else none o = o
or_else (some a) o = some a

module _ {F : Type 0} ⦃fl : Float64 F⦄ where
  -- The group that stands for past counts alone.
  abbrev pub absent_group : Option (Counts F) → Option (Group F)
  absent_group none = none
  absent_group (some c) = some (record zero_group { counts = c })

  pub add_absent_keeps :
      (entries : Map Text (Counts F)) (g : Grouper F) (groups : Map Text (Group F))
      → g.remove_empty_groups ≡ false
      → (add_absent entries g groups).0 ≡ g
  unfolding add_absent
  add_absent_keeps [] g groups h = refl
  add_absent_keeps ((n, c) ∷ entries) g groups h = ground (
    arith,
    add_absent_keeps entries g groups h,
    add_absent_keeps entries g (put n (record zero_group { counts = c }) groups) h,
  )

  pub get-add_absent :
      (gname : Text) (entries : Map Text (Counts F)) (g : Grouper F) (groups : Map Text (Group F))
      → g.remove_empty_groups ≡ false
      → get gname (add_absent entries g groups).1
        ≡ or_else (get gname groups) (absent_group (get gname entries))
  unfolding add_absent get
  get-add_absent gname [] g groups h = ground arith
  get-add_absent gname ((n, c) ∷ entries) g groups h =
      let new = record zero_group { counts = c } in
      ground (
        arith,
        get-add_absent gname entries g groups h,
        get-add_absent gname entries g (put n new groups) h,
        get-put n gname new groups,
        eq_of_bytes_beq n gname,
      )

  abbrev without : Text → Grouper F → Grouper F
  without n g = record g {
    group_accum = remove n g.group_accum;
    thread_accum = remove n g.thread_accum;
  }

  pub add_absent_removes :
      (entries : Map Text (Counts F)) (g : Grouper F) (groups : Map Text (Group F))
      → g.remove_empty_groups ≡ true
      → (add_absent entries g groups).1 ≡ groups
  unfolding add_absent
  add_absent_removes [] g groups h = refl
  add_absent_removes ((n, c) ∷ entries) g groups h = ground (
    arith,
    add_absent_removes entries g groups h,
    add_absent_removes entries (without n g) groups h,
  )

  pub get-add_absent_accum :
      (gname : Text) (entries : Map Text (Counts F)) (g : Grouper F) (groups : Map Text (Group F))
      → g.remove_empty_groups ≡ true
      → get gname (add_absent entries g groups).0.group_accum ≡ elim (get gname groups) [
        | some grp ↦ get gname g.group_accum
        | none ↦ elim (get gname entries) [ none ↦ get gname g.group_accum | some c ↦ none ]
      ]
  unfolding add_absent get
  get-add_absent_accum gname [] g groups h = ground arith
  get-add_absent_accum gname ((n, c) ∷ entries) g groups h = ground (
    arith,
    get-add_absent_accum gname entries g groups h,
    get-add_absent_accum gname entries (without n g) groups h,
    get-remove n gname g.group_accum,
    eq_of_bytes_beq n gname,
  )
