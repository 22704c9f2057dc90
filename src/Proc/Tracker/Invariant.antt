-- ===== src/Proc/Tracker/Invariant.antt =====
-- The well-formedness of a tracker: `procIds` finds every tracked or ignored process by its pid.
use process_exporter.Prelude.{
  Bool-cases, [], ◌∷◌, refl, ◌≡◌, Option, some, arith, get, put, remove, get-put, Option-cases, inl,
  inr, get-remove, Distinct, put-Distinct, remove-Distinct, nat_eq, nat_beq_iff, Map, none, Time,
  ◌==◌,
}
use process_exporter.Proc.Types.{ProcId, id_eq, id_beq_iff}
use process_exporter.Proc.Tracker.Defs.{Tracker, TrackedProc}
use process_exporter.Proc.Tracker.Scan.{remember, drop_stale}

-- What is tracked is found by its pid, and `tracked` has one entry for each process.
pub record IsConsistent {F : Type 0} (t : Tracker F) : Type 0 where
  pub found :
      (id : ProcId) (v : Option (TrackedProc F))
      → get id t.tracked ≡ some v
      → get id.pid t.proc_ids ≡ some id
  pub distinct : Distinct t.tracked

module _ {F : Type 0} where
  pub put-IsConsistent :
      (t : Tracker F) (id : ProcId) (v : Option (TrackedProc F))
      → IsConsistent t
      → get id.pid t.proc_ids ≡ some id
      → IsConsistent (record t { tracked = put id v t.tracked })
  put-IsConsistent t id v c h = record {
    found = λ j w e. ground (arith, get-put id j v t.tracked, id_beq_iff id j, c.found j w, e);
    distinct = put-Distinct id v t.tracked c.distinct;
  }

  pub remember-IsConsistent :
      (t : Tracker F) (id : ProcId) → IsConsistent t → IsConsistent (remember id t)
  unfolding remember
  remember-IsConsistent t id c = elim (Option-cases (get id.pid t.proc_ids)) [
    | inl e ↦ record {
      found = λ j v h.
          ground (
            arith,
            e,
            get-put id.pid j.pid id t.proc_ids,
            nat_beq_iff id.pid j.pid,
            c.found j v,
            h,
          );
      distinct = rw e c.distinct;
    }
    | inr (old, e) ↦ record {
      found = λ j v h. ground (
        arith,
        e,
        get-remove old j t.tracked,
        get-put id.pid j.pid id t.proc_ids,
        id_beq_iff old j,
        nat_beq_iff id.pid j.pid,
        c.found j v,
        h,
      );
      distinct = rw e (remove-Distinct old t.tracked c.distinct);
    }
  ]

  -- The removal of a process that is found by its pid.
  pub remove-IsConsistent :
      (t : Tracker F) (id : ProcId)
      → IsConsistent t
      → get id.pid t.proc_ids ≡ some id
      → IsConsistent
          (record t { tracked = remove id t.tracked; proc_ids = remove id.pid t.proc_ids })
  remove-IsConsistent t id c h = record {
    found = λ j v e. ground (
      arith,
      get-remove id j t.tracked,
      get-remove id.pid j.pid t.proc_ids,
      id_beq_iff id j,
      nat_beq_iff id.pid j.pid,
      c.found j v,
      e,
    );
    distinct = remove-Distinct id t.tracked c.distinct;
  }

  -- The entries that a loop over `tracked` has still to visit are found by their pids.
  abbrev pub Listed : Map ProcId (Option (TrackedProc F)) → Tracker F → Type 0
  Listed entries t =
      (id : ProcId) (v : Option (TrackedProc F))
      → get id entries ≡ some v
      → get id.pid t.proc_ids ≡ some id

  pub drop-Listed :
      (t : Tracker F) (id : ProcId) (entries : Map ProcId (Option (TrackedProc F)))
      → get id entries ≡ none
      → get id.pid t.proc_ids ≡ some id
      → Listed entries t
      → Listed entries
          (record t { tracked = remove id t.tracked; proc_ids = remove id.pid t.proc_ids })
  drop-Listed t id entries gone h l j v e =
      ground (arith, get-remove id.pid j.pid t.proc_ids, nat_beq_iff id.pid j.pid, l j v e)

  pub Listed-tail :
      (id : ProcId) (v : Option (TrackedProc F)) (entries : Map ProcId (Option (TrackedProc F)))
      (t : Tracker F)
      → get id entries ≡ none
      → Listed ((id, v) ∷ entries) t
      → Listed entries t
  unfolding get
  Listed-tail id v entries t gone l j w e = l j w (ground (arith, id_beq_iff id j, e, gone))

  pub drop_stale-IsConsistent :
      (now : Time) (entries : Map ProcId (Option (TrackedProc F))) (t : Tracker F)
      → Distinct entries
      → Listed entries t
      → IsConsistent t
      → IsConsistent (drop_stale now entries t)
  unfolding drop_stale get
  drop_stale-IsConsistent now [] t d l c = c
  drop_stale-IsConsistent now ((id, none) ∷ entries) t d l c =
      drop_stale-IsConsistent now entries t d.1 (Listed-tail id none entries t d.0 l) c
  drop_stale-IsConsistent now ((id, some tp) ∷ entries) t d l c =
      elim (Bool-cases (tp.last_update == now)) [
        | inl e ↦
            rw e (drop_stale-IsConsistent now entries t d.1 (Listed-tail id _ entries t d.0 l) c)
        | inr e ↦
            let here = l id (some tp) (rw ((id_beq_iff id id).1 refl)) in
            rw e (
              drop_stale-IsConsistent now entries _ d.1
                (drop-Listed t id entries d.0 here (Listed-tail id _ entries t d.0 l))
                (remove-IsConsistent t id c here))
      ]
