-- ===== src/Proc/Grouper/Observed.antt =====
-- The second loop of `groups`: a group that was observed gets the old counts added, and its
-- accumulator takes the sum.
use process_exporter.Prelude.{
  ◌≡◌, refl, false, Option, none, some, List, [], ◌∷◌, arith, Text, Float64, Map, get, put, get-put,
  get-put_self, subst, bytes_eq, bytes_beq, eq_of_bytes_beq, Distinct, Bool-cases, inl, inr, ◌∙◌,
}
use process_exporter.Proc.Types.{Counts}
use process_exporter.Proc.Tracker.Defs.{ThreadUpdate}
use process_exporter.Proc.Grouper.Group.{Group, Threads}
use process_exporter.Proc.Grouper.Defs.{
  Grouper, accumulate_all, accumulate, group_threads, add_old, or_empty,
}

module _ {F : Type 0} ⦃fl : Float64 F⦄ where
  -- What `threads` touches.
  group_accum-group_threads :
      (gname : Text) (tracked : List (ThreadUpdate F)) (g : Grouper F)
      → (group_threads gname tracked g).0.group_accum ≡ g.group_accum
  unfolding group_threads
  group_accum-group_threads gname [] g = refl
  group_accum-group_threads gname (nc ∷ tracked) g = refl

  remove_empty-group_threads :
      (gname : Text) (tracked : List (ThreadUpdate F)) (g : Grouper F)
      → (group_threads gname tracked g).0.remove_empty_groups ≡ g.remove_empty_groups
  unfolding group_threads
  remove_empty-group_threads gname [] g = refl
  remove_empty-group_threads gname (nc ∷ tracked) g = refl

  group_accum-accumulate :
      (gname : Text) (group : Group F) (tracked : List (ThreadUpdate F)) (g : Grouper F)
      → (accumulate gname group tracked g).0.group_accum
        ≡ put gname (add_old group.counts (get gname g.group_accum)) g.group_accum
  unfolding accumulate
  group_accum-accumulate gname group tracked g = group_accum-group_threads gname tracked _

  accumulate_here :
      (n : Text) (group : Group F) (tracked : List (ThreadUpdate F)) (g : Grouper F)
      → get n (accumulate n group tracked g).0.group_accum
        ≡ some (add_old group.counts (get n g.group_accum))
  accumulate_here n group tracked g = rw group_accum-accumulate (get-put_self n _ g.group_accum)

  accumulate_elsewhere :
      (n gname : Text) (group : Group F) (tracked : List (ThreadUpdate F)) (g : Grouper F)
      → bytes_beq n gname ≡ false
      → get gname (accumulate n group tracked g).0.group_accum ≡ get gname g.group_accum
  accumulate_elsewhere n gname group tracked g e = rw group_accum-accumulate (rw get-put (rw e))

  pub remove_empty-accumulate_all :
      (groups : Map Text (Group F)) (threads : Map Text (List (ThreadUpdate F))) (g : Grouper F)
      → (accumulate_all groups threads g).0.remove_empty_groups ≡ g.remove_empty_groups
  unfolding accumulate_all accumulate
  remove_empty-accumulate_all [] threads g = refl
  remove_empty-accumulate_all ((n, group) ∷ groups) threads g =
      remove_empty-accumulate_all groups threads _
      ∙ remove_empty-group_threads n (or_empty (get n threads)) _

  -- The reports that the loop leaves alone, and what it makes of the others.
  abbrev pub Accumulated : Option (Group F) → Option (Counts F) → Option (Group F) → Type 0
  Accumulated none old result = result ≡ none
  Accumulated (some group) old result =
      (threads : List (Threads F)) × (result
        ≡ some (record group { counts = add_old group.counts old; threads = threads }))

  pub accumulated :
      (gname : Text) (groups : Map Text (Group F)) (threads : Map Text (List (ThreadUpdate F)))
      (g : Grouper F)
      → Accumulated
          (get gname groups)
          (get gname g.group_accum)
          (get gname (accumulate_all groups threads g).1)
  unfolding accumulate_all get
  accumulated gname [] threads g = refl
  accumulated gname ((n, group) ∷ groups) threads g =
      let tracked = or_empty (get n threads) in
      let (g', group') = accumulate n group tracked g in
      elim (Bool-cases (bytes_beq n gname)) [
        | inl e ↦ rw e (group'.threads, rw (eq_of_bytes_beq n gname e))
        | inr e ↦ rw e (
            subst
              (λ o.
                Accumulated (get gname groups) o (get gname (accumulate_all groups threads g').1))
              (accumulate_elsewhere n gname group tracked g e)
              (accumulated gname groups threads g'))
      ]

  abbrev pub next_accum : Option (Group F) → Option (Counts F) → Option (Counts F)
  next_accum none old = old
  next_accum (some group) old = some (add_old group.counts old)

  pub get-group_accum :
      (gname : Text) (groups : Map Text (Group F)) (threads : Map Text (List (ThreadUpdate F)))
      (g : Grouper F)
      → Distinct groups
      → get gname (accumulate_all groups threads g).0.group_accum
        ≡ next_accum (get gname groups) (get gname g.group_accum)
  unfolding accumulate_all get
  get-group_accum gname [] threads g d = refl
  get-group_accum gname ((n, group) ∷ groups) threads g d =
      let tracked = or_empty (get n threads) in
      let g' = (accumulate n group tracked g).0 in
      ground (
        arith,
        get-group_accum gname groups threads g' d.1,
        eq_of_bytes_beq n gname,
        accumulate_elsewhere n gname group tracked g,
        accumulate_here n group tracked g,
      )
