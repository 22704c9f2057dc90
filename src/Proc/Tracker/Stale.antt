-- ===== src/Proc/Tracker/Stale.antt =====
-- The loop of `update` that removes the processes which the scan has not seen.
use process_exporter.Prelude.{
  ◌≡◌, refl, subst, sym, some_inj, ◌∙◌, true, false, Option, none, some, [], ◌∷◌, arith, Time, ◌==◌,
  if◌then◌else◌, Map, get, remove, get-remove, Distinct, nat_eq, Bool-cases, inl, inr,
}
use process_exporter.Proc.Types.{ProcId, id_eq, id_beq_iff, id_beq}
use process_exporter.Proc.Tracker.Defs.{Tracker, TrackedProc}
use process_exporter.Proc.Tracker.Scan.{drop_stale}
use process_exporter.Proc.Tracker.Invariant.{Listed, Listed-tail, drop-Listed, IsConsistent}

module _ {F : Type 0} (now : Time) where
  abbrev pub dropped : ProcId → Tracker F → Tracker F
  dropped id t = record t { tracked = remove id t.tracked; proc_ids = remove id.pid t.proc_ids }

  -- The rule of the loop: what holds before, and is kept by the removal of a stale entry, holds
  -- afterwards.
  module _ {ℓ} (P : Tracker F → Type ℓ) (all : Map ProcId (Option (TrackedProc F)))
      (step : (t : Tracker F) (id : ProcId) (tp : TrackedProc F)
        → get id all ≡ some (some tp)
        → (tp.last_update == now) ≡ false
        → get id.pid t.proc_ids ≡ some id
        → P t
        → P (dropped id t)) where
    abbrev IsPart : Map ProcId (Option (TrackedProc F)) → Type 0
    IsPart entries =
        (id : ProcId) (v : Option (TrackedProc F)) → get id entries ≡ some v → get id all ≡ some v

    IsPart-tail :
        (id : ProcId) (v : Option (TrackedProc F)) (entries : Map ProcId (Option (TrackedProc F)))
        → get id entries ≡ none
        → IsPart ((id, v) ∷ entries)
        → IsPart entries
    unfolding get
    IsPart-tail id v entries gone part j w e = part j w (ground (arith, id_beq_iff id j, e, gone))

    pub drop_stale_rule :
        (entries : Map ProcId (Option (TrackedProc F))) (t : Tracker F)
        → Distinct entries
        → IsPart entries
        → Listed entries t
        → P t
        → P (drop_stale now entries t)
    unfolding drop_stale get
    drop_stale_rule [] t d part l h = h
    drop_stale_rule ((id, none) ∷ entries) t d part l h =
        drop_stale_rule entries t d.1 (IsPart-tail id none entries d.0 part)
          (Listed-tail id none entries t d.0 l) h
    drop_stale_rule ((id, some tp) ∷ entries) t d part l h =
        elim (Bool-cases (tp.last_update == now)) [
          | inl e ↦ rw e (
              drop_stale_rule entries t d.1 (IsPart-tail id _ entries d.0 part)
                (Listed-tail id _ entries t d.0 l) h)
          | inr e ↦
              let here = l id (some tp) (rw ((id_beq_iff id id).1 refl)) in
              let there = part id (some tp) (rw ((id_beq_iff id id).1 refl)) in
              rw e (
                drop_stale_rule entries (dropped id t) d.1 (IsPart-tail id _ entries d.0 part)
                  (drop-Listed t id entries d.0 here (Listed-tail id _ entries t d.0 l))
                  (step t id tp there e here h))
        ]

    pub drop_stale_induct :
        (t : Tracker F) → t.tracked ≡ all → IsConsistent t → P t → P (drop_stale now t.tracked t)
    drop_stale_induct t e c h =
        drop_stale_rule t.tracked t c.distinct (λ id v x. subst (λ m. get id m ≡ some v) e x)
          c.found h

  -- What the loop keeps of an entry.
  abbrev pub keep : Option (Option (TrackedProc F)) → Option (Option (TrackedProc F))
  keep (some (some tp)) = if tp.last_update == now then some (some tp) else none
  keep (some none) = some none
  keep none = none

  drop_stale-none :
      (id : ProcId) (entries : Map ProcId (Option (TrackedProc F))) (t : Tracker F)
      → get id t.tracked ≡ none
      → get id (drop_stale now entries t).tracked ≡ none
  unfolding drop_stale
  drop_stale-none id [] t h = h
  drop_stale-none id ((other, none) ∷ entries) t h = drop_stale-none id entries t h
  drop_stale-none id ((other, some tp) ∷ entries) t h = ground (
    arith,
    drop_stale-none id entries t h,
    drop_stale-none id entries (dropped other t),
    get-remove other id t.tracked,
    h,
  )

  drop_stale_gone :
      (id : ProcId) (tp : TrackedProc F) (entries : Map ProcId (Option (TrackedProc F)))
      (t : Tracker F)
      → get id entries ≡ some (some tp)
      → (tp.last_update == now) ≡ false
      → get id (drop_stale now entries t).tracked ≡ none
  unfolding drop_stale get
  drop_stale_gone id tp [] t h e = cc
  drop_stale_gone id tp ((other, none) ∷ entries) t h e =
      drop_stale_gone id tp entries t (ground (arith, h)) e
  drop_stale_gone id tp ((other, some tq) ∷ entries) t h e = elim (Bool-cases (id_beq other id)) [
    | inl same ↦
        let tail =
          drop_stale-none id entries (dropped other t) (get-remove other id t.tracked ∙ rw same) in
        let old =
          subst (λ (tr : TrackedProc F). (tr.last_update == now) ≡ false)
            (sym (some_inj (some_inj (rw same at h)))) e in
        subst
          (λ b. get id (drop_stale now entries (if b then t else dropped other t)).tracked ≡ none)
          (sym old) tail
    | inr differs ↦ drop_stale_gone id tp entries _ (ground (arith, h, differs)) e
  ]

  not_stale_kept :
      (id : ProcId) (t : Tracker F)
      → IsConsistent t
      → ((tp : TrackedProc F) → get id t.tracked ≡ some (some tp) → (tp.last_update == now) ≡ true)
      → get id (drop_stale now t.tracked t).tracked ≡ get id t.tracked
  not_stale_kept id t c fresh =
      drop_stale_induct (λ s. get id s.tracked ≡ get id t.tracked) t.tracked
        (λ s other tp here old found same.
          ground
            (arith, get-remove other id s.tracked, id_beq_iff other id, fresh tp, here, old, same))
        t refl c refl

  -- The loop removes exactly the tracked processes whose last update is not `now`.
  pub get-drop_stale :
      (id : ProcId) (t : Tracker F)
      → IsConsistent t
      → get id (drop_stale now t.tracked t).tracked ≡ keep (get id t.tracked)
  get-drop_stale id t c = go (get id t.tracked) refl
    where
      go :
          (o : Option (Option (TrackedProc F)))
          → get id t.tracked ≡ o
          → get id (drop_stale now t.tracked t).tracked ≡ keep o
      go none e = not_stale_kept id t c (λ tp h. cc) ∙ e
      go (some none) e = not_stale_kept id t c (λ tp h. cc) ∙ e
      go (some (some tp)) e = elim (Bool-cases (tp.last_update == now)) [
        | inl fresh ↦ rw fresh (
            not_stale_kept id t c (λ tq h.
              subst (λ (tr : TrackedProc F). (tr.last_update == now) ≡ true)
                (some_inj (some_inj (sym e ∙ h))) fresh)
            ∙ e)
        | inr old ↦ rw old (drop_stale_gone id tp t.tracked t e old)
      ]
