-- ===== src/Collector/Labels.antt =====
-- The metrics of a cgroup carry the labels of their descriptors (collector/cgroup_collector.go), so
-- that `MustNewConstMetric` does not panic, and the two sets of descriptors do not meet.
use process_exporter.Prelude.{
  ℕ, ◌≡◌, refl, suc, ap, Bool, true, false, Option, none, some, List, [], ◌∷◌, ◌++◌, Text, Map,
  Float64, length, IsIn, nth, IsIn-nth, Every, nil, cons, Every-append, if◌then◌else◌,
}
use process_exporter.Cgroup.Psi.{PsiLine, PsiStats}
use process_exporter.Cgroup.Reader.{Loaded, loaded, unreadable, malformed}
use process_exporter.Collector.Metric.{Metric, ValueType, IsLabelled}
use process_exporter.Collector.Descs.{desc_of, new_desc_set, set_descs}
use process_exporter.Collector.Families.{
  CgroupCollector, counter_of, if_loaded, if_some, when, IoField, io_stat_fields, event_metrics,
  stat_metrics, device_metrics, devices_metrics, collect_memory, collect_cpu, collect_pids,
  emit_percents, line_metrics, target_metrics, collect_psi, collect_one,
}

-- Any predicate holds of all that the helpers send if it holds of what they are given.
module _ {F : Type 0} {P : Metric F → Type 0} where
  pub Every-if_loaded :
      {E A : Type 0} (x : Loaded E A) {send : A → List (Metric F)}
      → ((a : A) → Every P (send a))
      → Every P (if_loaded x send)
  unfolding if_loaded
  Every-if_loaded (loaded a) h = h a
  Every-if_loaded unreadable h = nil
  Every-if_loaded (malformed e) h = nil

  pub Every-if_some :
      {A : Type 0} (o : Option A) {send : A → List (Metric F)}
      → ((a : A) → Every P (send a))
      → Every P (if_some o send)
  unfolding if_some
  Every-if_some none h = nil
  Every-if_some (some a) h = h a

  pub Every-when : (b : Bool) {ms : List (Metric F)} → Every P ms → Every P (when b ms)
  unfolding when
  Every-when true h = h
  Every-when false h = nil

-- A metric of the set with this prefix and label, for the cgroup `id`: its name has the prefix, its
-- first label is `label` with the value `id`, it has a value for each label, and its descriptor is
-- one of the set.
pub record IsOf {F : Type 0} (prefix label id : Text) (m : Metric F) : Type 0 where
  pub named : (s : Text) × (m.desc.fq_name ≡ prefix ++ s)
  pub first_label : (extra : List Text) × (m.desc.labels ≡ label ∷ extra)
  pub first_value : (rest : List Text) × (m.label_values ≡ id ∷ rest)
  pub labelled : IsLabelled m
  pub described : IsIn m.desc (set_descs (new_desc_set prefix label))

module _ {F : Type 0} ⦃fl : Float64 F⦄ (prefix label id : Text) where
  -- One metric with a value for each extra label.
  fits :
      (k : ℕ) (suffix : Text) (extra rest : List Text) (kind : ValueType) (v : F)
      → nth k (set_descs (new_desc_set prefix label)) ≡ some (desc_of prefix label suffix extra)
      → length rest ≡ length extra
      → Every (IsOf {F = F} prefix label id) (
          record {
            desc = desc_of prefix label suffix extra;
            value_type = kind;
            value = v;
            label_values = id ∷ rest;
          }
          ∷ [])
  fits k suffix extra rest kind v at e =
      cons
        (record {
          named = (suffix, refl);
          first_label = (extra, refl);
          first_value = (rest, refl);
          labelled = ap suc e;
          described = IsIn-nth k _ _ at;
        })
        nil

  event_metrics-IsOf :
      (events : Map Text ℕ)
      → Every (IsOf {F = F} prefix label id) (event_metrics (new_desc_set prefix label) id events)
  unfolding event_metrics new_desc_set set_descs
  event_metrics-IsOf [] = nil
  event_metrics-IsOf ((event, v) ∷ events) =
      Every-append (fits 10 _ _ _ _ _ refl refl) (event_metrics-IsOf events)

  stat_metrics-IsOf :
      (fields : List Text) (stat : Map Text ℕ)
      → Every
          (IsOf {F = F} prefix label id)
          (stat_metrics (new_desc_set prefix label) id fields stat)
  unfolding stat_metrics new_desc_set set_descs
  stat_metrics-IsOf [] stat = nil
  stat_metrics-IsOf (field ∷ fields) stat =
      Every-append (Every-if_some _ (λ v. fits 9 _ _ _ _ _ refl refl))
        (stat_metrics-IsOf fields stat)

  io_desc-IsOf :
      (b : Bool) (dev : Text) (iomode : Text) (v : F)
      → Every (IsOf {F = F} prefix label id) (
          counter_of
            (if b then (new_desc_set prefix label).io_bytes else (new_desc_set prefix label).io_ops)
            v
            (id ∷ dev ∷ iomode ∷ []))
  unfolding new_desc_set set_descs
  io_desc-IsOf true dev iomode v = fits 16 _ _ _ _ _ refl refl
  io_desc-IsOf false dev iomode v = fits 17 _ _ _ _ _ refl refl

  device_metrics-IsOf :
      (dev : Text) (fields : List IoField) (counters : Map Text ℕ)
      → Every
          (IsOf {F = F} prefix label id)
          (device_metrics (new_desc_set prefix label) id dev fields counters)
  unfolding device_metrics
  device_metrics-IsOf dev [] counters = nil
  device_metrics-IsOf dev (f ∷ fields) counters =
      Every-append (Every-if_some _ (λ v. io_desc-IsOf f.is_bytes dev f.iomode _))
        (device_metrics-IsOf dev fields counters)

  devices_metrics-IsOf :
      (devices : Map Text (Map Text ℕ))
      → Every
          (IsOf {F = F} prefix label id)
          (devices_metrics (new_desc_set prefix label) id devices)
  unfolding devices_metrics
  devices_metrics-IsOf [] = nil
  devices_metrics-IsOf ((dev, counters) ∷ devices) =
      Every-append (device_metrics-IsOf dev io_stat_fields counters) (devices_metrics-IsOf devices)

  module _ (c : CgroupCollector F) (path : Text) where
    collect_memory-IsOf :
        Every (IsOf {F = F} prefix label id) (collect_memory c (new_desc_set prefix label) id path)
    unfolding collect_memory new_desc_set set_descs
    collect_memory-IsOf =
        Every-append
          (Every-append
            (Every-append (Every-if_loaded _ (λ cur. fits 7 _ _ _ _ _ refl refl))
              (Every-if_loaded _ (λ sw. fits 8 _ _ _ _ _ refl refl)))
            (Every-if_loaded _ event_metrics-IsOf))
          (Every-if_loaded _ (stat_metrics-IsOf c.mem_stat_fields))

    collect_cpu-IsOf :
        Every (IsOf {F = F} prefix label id) (collect_cpu c (new_desc_set prefix label) id path)
    unfolding collect_cpu new_desc_set set_descs
    collect_cpu-IsOf = Every-if_loaded _ (λ stat.
        Every-append (Every-if_some _ (λ v. fits 11 _ _ _ _ _ refl refl))
          (Every-if_some _ (λ v. fits 11 _ _ _ _ _ refl refl)))

    collect_pids-IsOf :
        Every (IsOf {F = F} prefix label id) (collect_pids c (new_desc_set prefix label) id path)
    unfolding collect_pids new_desc_set set_descs
    collect_pids-IsOf =
        Every-append
          (Every-append
            (Every-append (Every-if_loaded _ (λ cur. fits 12 _ _ _ _ _ refl refl))
              (Every-if_loaded _ (λ limit. Every-when _ (fits 13 _ _ _ _ _ refl refl))))
            (Every-if_loaded _ (λ peak. fits 14 _ _ _ _ _ refl refl)))
          (Every-if_loaded _ (λ events. Every-if_some _ (λ v. fits 15 _ _ _ _ _ refl refl)))

    emit_percents-IsOf :
        (resource kind : Text) (line : PsiLine F)
        → Every
            (IsOf {F = F} prefix label id)
            (emit_percents c (new_desc_set prefix label) id path resource kind line)
    unfolding emit_percents new_desc_set set_descs
    emit_percents-IsOf resource kind line =
        Every-append
          (Every-append (Every-when _ (fits 6 _ _ _ _ _ refl refl))
            (Every-when _ (fits 6 _ _ _ _ _ refl refl)))
          (Every-when _ (fits 6 _ _ _ _ _ refl refl))

    line_metrics-IsOf :
        (k : ℕ) (resource kind suffix : Text) (line : PsiLine F)
        → nth k (set_descs (new_desc_set prefix label)) ≡ some (desc_of prefix label suffix [])
        → Every (IsOf {F = F} prefix label id) (
            line_metrics c
              (new_desc_set prefix label)
              id
              path
              resource
              kind
              (desc_of prefix label suffix [])
              line)
    unfolding line_metrics
    line_metrics-IsOf k resource kind suffix line at =
        Every-append (Every-when _ (fits k _ _ _ _ _ at refl))
          (emit_percents-IsOf resource kind line)

    target_metrics-IsOf :
        (k j : ℕ) (resource waiting stalled : Text)
        → nth k (set_descs (new_desc_set prefix label)) ≡ some (desc_of prefix label waiting [])
        → nth j (set_descs (new_desc_set prefix label)) ≡ some (desc_of prefix label stalled [])
        → (stats : PsiStats F)
        → Every (IsOf {F = F} prefix label id) (
            target_metrics c
              (new_desc_set prefix label)
              id
              path
              (record {
                resource = resource;
                some_desc = desc_of prefix label waiting [];
                full_desc = some (desc_of prefix label stalled []);
              })
              stats)
    unfolding target_metrics if_some
    target_metrics-IsOf k j resource waiting stalled at after stats =
        Every-append (Every-if_some _ (λ line. line_metrics-IsOf k resource _ waiting line at))
          (Every-if_some _ (λ line. line_metrics-IsOf j resource _ stalled line after))

    collect_psi-IsOf :
        Every (IsOf {F = F} prefix label id) (collect_psi c (new_desc_set prefix label) id path)
    unfolding collect_psi new_desc_set set_descs
    collect_psi-IsOf = Every-append (Every-if_loaded _ (target_metrics-IsOf 0 1 _ _ _ refl refl)) (
        Every-append (Every-if_loaded _ (target_metrics-IsOf 2 3 _ _ _ refl refl))
          (Every-append (Every-if_loaded _ (target_metrics-IsOf 4 5 _ _ _ refl refl)) nil))

    pub collect_one-IsOf :
        Every (IsOf {F = F} prefix label id) (collect_one c (new_desc_set prefix label) id path)
    unfolding collect_one
    collect_one-IsOf =
        Every-append
          (Every-append
            (Every-append
              (Every-append (Every-when _ collect_psi-IsOf) (Every-when _ collect_memory-IsOf))
              (Every-when _ collect_cpu-IsOf))
            (Every-when _ collect_pids-IsOf))
          (Every-when _ (Every-if_loaded _ devices_metrics-IsOf))
