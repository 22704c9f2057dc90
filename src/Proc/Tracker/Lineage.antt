-- ===== src/Proc/Tracker/Lineage.antt =====
-- `checkAncestry`: it ends where the parents of new processes form no cycle, and a process gets
-- the group of its nearest ancestor that is tracked, reached through new processes only.
use process_exporter.Prelude.{
  ℕ, zero, suc, ◌<◌, ◌≡◌, refl, sym, ◌∙◌, ap, subst, Bool, true, false, Option, none, some, [], ◌∷◌,
  arith, Text, Time, Float64, Map, get, is_empty, ltb, nat_eq, some_inj,
}
use process_exporter.Proc.Types.{ProcId, IdInfo, id_eq}
use process_exporter.Proc.Tracker.Defs.{Tracker, TrackedProc, track, ignore}
use process_exporter.Proc.Tracker.Ancestry.{parent_id, check_ancestry, check_root, after_parent}

module _ {F : Type 0} ⦃fl : Float64 F⦄ where
  pub proc_ids-track :
      (name : Text) (info : IdInfo F) (t : Tracker F) → (track name info t).proc_ids ≡ t.proc_ids
  unfolding track
  proc_ids-track name info t = refl

  pub proc_ids-ignore :
      (id : ProcId) (start now : Time) (t : Tracker F)
      → (ignore id start now t).proc_ids ≡ t.proc_ids
  unfolding ignore
  proc_ids-ignore id start now t = ground arith

-- The group that a process inherits, given the new processes: the parent's, or the one that the
-- parent inherits, if that is not empty.
pub data Inherits {F : Type 0} (t : Tracker F) (newprocs : Map ProcId (IdInfo F))
    : IdInfo F → Text → Type 0 where
  from_parent :
      (info : IdInfo F) (tp : TrackedProc F)
      → ltb (parent_id info t).pid 1 ≡ false
      → get (parent_id info t) t.tracked ≡ some (some tp)
      → Inherits t newprocs info tp.group_name
  from_lineage :
      (info pinfo : IdInfo F) (name : Text)
      → ltb (parent_id info t).pid 1 ≡ false
      → get (parent_id info t) t.tracked ≡ none
      → get (parent_id info t) newprocs ≡ some pinfo
      → is_empty name ≡ false
      → Inherits t newprocs pinfo name
      → Inherits t newprocs info name

-- A rank by which the new processes stand below their parents: there is no cycle.
pub record Falls {F : Type 0} (t : Tracker F) (newprocs : Map ProcId (IdInfo F)) (rank : ProcId → ℕ)
    : Type 0 where
  pub below :
      (id : ProcId) (info pinfo : IdInfo F)
      → get id newprocs ≡ some info
      → get (parent_id info t) newprocs ≡ some pinfo
      → rank (parent_id info t) < rank id

module _ {F : Type 0} ⦃fl : Float64 F⦄ (newprocs : Map ProcId (IdInfo F))
    (now : ProcId → Time) where
  ends_step :
      (info : IdInfo F) (t : Tracker F) (rec : IdInfo F → Option (Tracker F × Text)) (root : Bool)
      (known : Option (Option (TrackedProc F))) (parent : Option (IdInfo F))
      → ((pinfo : IdInfo F) → parent ≡ some pinfo → (r : Tracker F × Text) × (rec pinfo ≡ some r))
      → (r : Tracker F × Text) × (check_root now info rec t root known parent ≡ some r)
  unfolding check_root
  ends_step info t rec true known parent ih = (_, refl)
  ends_step info t rec false (some (some tp)) parent ih = (_, refl)
  ends_step info t rec false (some none) parent ih = (_, refl)
  ends_step info t rec false none none ih = (_, refl)
  ends_step info t rec false none (some pinfo) ih =
      let (r, h) = ih pinfo refl in (_, ap (after_parent now info) h)

  -- If a rank falls from every new process to its parent, where that is a new process too, then
  -- `checkAncestry` ends for a new process on fuel above its rank.
  pub check_ancestry_ends :
      (rank : ProcId → ℕ) (t : Tracker F)
      → Falls t newprocs rank
      → (fuel : ℕ) (id : ProcId) (info : IdInfo F) → get id newprocs ≡ some info
      → rank id < fuel
      → (r : Tracker F × Text) × (check_ancestry fuel now info newprocs t ≡ some r)
  unfolding check_ancestry
  check_ancestry_ends rank t falls zero id info e h = absurd (omega arith)
  check_ancestry_ends rank t falls (suc fuel) id info e h =
      ends_step info t (λ pinfo. check_ancestry fuel now pinfo newprocs t) _ _ _
        (λ pinfo p.
          check_ancestry_ends rank t falls fuel (parent_id info t) pinfo p
            (omega (arith, falls.below id info pinfo e p)))

  -- A name that is not empty comes from the parent.
  after_parent_inv :
      (info : IdInfo F) (o : Option (Tracker F × Text)) (t : Tracker F) (name : Text)
      → after_parent now info o ≡ some (t, name)
      → is_empty name ≡ false
      → (s : Tracker F) × (o ≡ some (s, name))
  unfolding after_parent
  after_parent_inv info none t name e n = cc
  after_parent_inv info (some (s, [])) t name e n = cc
  after_parent_inv info (some (s, b ∷ rest)) t name e n = (s, cc)

  sound_step :
      (info : IdInfo F) (t t' : Tracker F) (name : Text)
      (rec : IdInfo F → Option (Tracker F × Text)) (root : Bool)
      (known : Option (Option (TrackedProc F))) (parent : Option (IdInfo F))
      → ltb (parent_id info t).pid 1 ≡ root
      → get (parent_id info t) t.tracked ≡ known
      → get (parent_id info t) newprocs ≡ parent
      → ((pinfo : IdInfo F) (s : Tracker F)
          → rec pinfo ≡ some (s, name)
          → Inherits t newprocs pinfo name)
      → check_root now info rec t root known parent ≡ some (t', name)
      → is_empty name ≡ false
      → Inherits t newprocs info name
  unfolding check_root
  sound_step info t t' name rec true known parent a b c ih e n = cc
  sound_step info t t' name rec false (some (some tp)) parent a b c ih e n =
      subst (Inherits t newprocs info) (ap (λ (r : Tracker F × Text). r.1) (some_inj e))
        (from_parent info tp a b)
  sound_step info t t' name rec false (some none) parent a b c ih e n = cc
  sound_step info t t' name rec false none none a b c ih e n = cc
  sound_step info t t' name rec false none (some pinfo) a b c ih e n =
      let (s, h) = after_parent_inv info (rec pinfo) t' name e n in
      from_lineage info pinfo name a b c n (ih pinfo s h)

  -- A process for which `checkAncestry` returns a name that is not empty inherits that name: it
  -- is the group of its nearest tracked ancestor, reached through new processes only.
  pub check_ancestry_sound :
      (t : Tracker F) (name : Text) (fuel : ℕ) (info : IdInfo F) (t' : Tracker F)
      → check_ancestry fuel now info newprocs t ≡ some (t', name)
      → is_empty name ≡ false
      → Inherits t newprocs info name
  unfolding check_ancestry
  check_ancestry_sound t name zero info t' e n = cc
  check_ancestry_sound t name (suc fuel) info t' e n =
      sound_step info t t' name (λ pinfo. check_ancestry fuel now pinfo newprocs t) _ _ _ refl refl
        refl (λ pinfo s h. check_ancestry_sound t name fuel pinfo s h n) e n

  -- With the tests decided, the search is what its equations say.
  decided :
      (info : IdInfo F) (t : Tracker F) (r : Tracker F × Text)
      (rec : IdInfo F → Option (Tracker F × Text)) (root : Bool)
      (known : Option (Option (TrackedProc F))) (parent : Option (IdInfo F)) {root' : Bool}
      {known' : Option (Option (TrackedProc F))} {parent' : Option (IdInfo F)}
      → root ≡ root'
      → known ≡ known'
      → parent ≡ parent'
      → check_root now info rec t root known parent ≡ some r
      → check_root now info rec t root' known' parent' ≡ some r
  decided info t r rec root known parent a b c e = rw (← a, ← b, ← c) e

  complete_step :
      (info : IdInfo F) (o : Option (Tracker F × Text)) (name : Text) (r : Tracker F × Text)
      → after_parent now info o ≡ some r
      → is_empty name ≡ false
      → ((q : Tracker F × Text) → o ≡ some q → q.1 ≡ name)
      → r.1 ≡ name
  unfolding after_parent
  complete_step info none name r e n ih = cc
  complete_step info (some (s, [])) name r e n ih = cc (ih (s, []) refl)
  complete_step info (some (s, b ∷ rest)) name r e n ih =
      ap (λ (q : Tracker F × Text). q.1) (some_inj (sym e)) ∙ ih (s, b ∷ rest) refl

  -- For a process that inherits a name, `checkAncestry` returns that name, on every fuel on which
  -- it ends.
  pub check_ancestry_complete :
      {t : Tracker F} {info : IdInfo F} {name : Text}
      → Inherits t newprocs info name
      → (fuel : ℕ) (r : Tracker F × Text) → check_ancestry fuel now info newprocs t ≡ some r
      → r.1 ≡ name
  unfolding check_ancestry check_root
  check_ancestry_complete h zero r e = cc
  check_ancestry_complete {t} (from_parent info tp a b) (suc fuel) r e =
      let e' =
        decided info t r (λ pinfo. check_ancestry fuel now pinfo newprocs t) _ _ _ a b refl e in
      ap (λ (q : Tracker F × Text). q.1) (some_inj (sym e'))
  check_ancestry_complete {t} (from_lineage info pinfo name a b c n h) (suc fuel) r e =
      complete_step info (check_ancestry fuel now pinfo newprocs t) name r
        (decided info t r (λ pinfo'. check_ancestry fuel now pinfo' newprocs t) _ _ _ a b c e) n
        (λ q p. check_ancestry_complete {t = t} {info = pinfo} {name = name} h fuel q p)
