-- ===== src/Collector/Windows.antt =====
-- The PSI windows (collector/cgroup_collector.go): what the configuration allows is what is sent.
use process_exporter.Prelude.{
  ◌≡◌, ◌↔◌, ◌⊎◌, inl, inr, refl, ap, sym, subst, Bool, true, false, ◌||◌, Option, none, some, List,
  [], ◌∷◌, Text, bytes, Map, Float64, arith, get, put, get-put, bytes_eq, if◌then◌else◌, ◌==◌,
  Bool-cases, IsIn, Every, nil, cons, Every-append, some_inj, Every-map,
}
use mathlib.Core.List.{cons≢nil}
use process_exporter.Cgroup.Reader.{Root}
use process_exporter.Cgroup.Psi.{PsiLine}
use process_exporter.Collector.Metric.{Desc, Metric}
use process_exporter.Collector.Descs.{DescSet}
use process_exporter.Collector.Families.{
  CgroupCollector, is_set, when, PsiTarget, psi_targets, emit_percents, line_metrics,
  target_metrics, targets_metrics, collect_psi,
}
use process_exporter.Collector.Cgroups.{
  CgroupCollectorOption, is_window, window_set, resolve_psi_windows, opened_with,
  new_cgroup_collector,
}
use process_exporter.Collector.Labels.{Every-if_loaded, Every-if_some}

-- A window that the configured list allows: "total" if the list is empty, and otherwise a known
-- window of the list.
abbrev pub IsAllowed : List Text → Text → Type 0
IsAllowed windows w =
    ((windows ≡ []) × (w ≡ bytes "total")) ⊎ (IsIn w windows × (is_window w ≡ true))

put-is_set :
    (w v : Text) (set : Map Text Bool)
    → is_set (get w (put v true set)) ≡ true ↔ ((is_set (get w set) ≡ true) ⊎ (v ≡ w))
put-is_set w v set = elim (Bool-cases (v == w)) [
  | inl same ↦
      rw (get-put v w true set, same) ((λ h. inr ((bytes_eq.equal_iff v w).0 same)), λ h. refl)
  | inr other ↦
      rw (get-put v w true set, other)
        (
          (λ h. inl h),
          λ h. elim h [ inl p ↦ p | inr e ↦ ground (arith, other, (bytes_eq.equal_iff v w).1 e) ],
        )
]

-- One turn of the loop adds the window that it looks at, if it is a known one.
add_window :
    (w v : Text) (set : Map Text Bool) (b : Bool)
    → is_window v ≡ b
    → is_set (get w (if b then put v true set else set)) ≡ true
      ↔ ((is_set (get w set) ≡ true) ⊎ ((v ≡ w) × (is_window w ≡ true)))
add_window w v set true known = (
  (λ h. elim ((put-is_set w v set).0 h) [
    | inl p ↦ inl p
    | inr e ↦ inr (e, subst (λ x. is_window x ≡ true) e known)
  ]),
  λ h. (put-is_set w v set).1 (elim h [ inl p ↦ inl p | inr q ↦ inr q.0 ]),
)
add_window w v set false unknown = (
  (λ h. inl h),
  λ h. elim h [ inl p ↦ p | inr q ↦ ground (arith, unknown, q.1, ap is_window q.0) ],
)

window_set_lem :
    (w : Text) (windows : List Text) (set : Map Text Bool)
    → is_set (get w (window_set windows set)) ≡ true
      ↔ ((is_set (get w set) ≡ true) ⊎ (IsIn w windows × (is_window w ≡ true)))
unfolding window_set
window_set_lem w [] set = ((λ h. inl h), λ h. elim h [ inl p ↦ p | inr q ↦ elim q.0 [ ] ])
window_set_lem w (v ∷ windows) set =
    let rest = window_set_lem w windows (if is_window v then put v true set else set) in
    let one = add_window w v set (is_window v) refl in
    (
      (λ h. elim (rest.0 h) [
        | inl p ↦ elim (one.0 p) [ inl q ↦ inl q | inr r ↦ inr (inl r.0, r.1) ]
        | inr r ↦ inr (inr r.0, r.1)
      ]),
      λ h. rest.1 (elim h [
        | inl p ↦ inl (one.1 (inl p))
        | inr (inl e, known) ↦ inl (one.1 (inr (e, known)))
        | inr (inr i, known) ↦ inr (i, known)
      ]),
    )

total_only : (w : Text) → is_set (get w ((bytes "total", true) ∷ [])) ≡ true ↔ (bytes "total" ≡ w)
unfolding get
total_only w = elim (Bool-cases (bytes "total" == w)) [
  | inl same ↦ rw same ((λ h. (bytes_eq.equal_iff (bytes "total") w).0 same), λ h. refl)
  | inr other ↦
      rw other ((λ h. cc), λ e. ground (arith, other, (bytes_eq.equal_iff (bytes "total") w).1 e))
]

no_windows : (w : Text) → is_set (get w []) ≡ true → ⊥
unfolding get
no_windows w e = cc

resolve_psi_windows_lem :
    (windows : List Text) (w : Text)
    → (is_set (get w (resolve_psi_windows windows)) ≡ true) ↔ IsAllowed windows w
unfolding resolve_psi_windows
resolve_psi_windows_lem [] w = (
  (λ h. inl (refl, sym ((total_only w).0 h))),
  λ h. elim h [ inl p ↦ (total_only w).1 (sym p.1) | inr q ↦ elim q.0 [ ] ],
)
resolve_psi_windows_lem (v ∷ windows) w =
    let resolved = window_set_lem w (v ∷ windows) [] in
    (
      (λ h. inr (elim (resolved.0 h) [ inl p ↦ elim (no_windows w p) [ ] | inr q ↦ q ])),
      λ h. resolved.1 (elim h [ inl p ↦ elim (cons≢nil p.0) [ ] | inr q ↦ inr q ]),
    )

-- A metric of a window `w` for which `Q` holds: a total, or a percentage labelled with the window.
pub data OfWindow {F : Type 0} (Q : Text → Type 0) (d : DescSet) (id : Text) (m : Metric F)
    : Type 0 where
  a_total : Q (bytes "total") → m.label_values ≡ id ∷ [] → OfWindow Q d id m
  a_percent :
      (resource kind w : Text)
      → Q w
      → m.desc ≡ d.psi_percent
      → m.label_values ≡ id ∷ resource ∷ kind ∷ w ∷ []
      → OfWindow Q d id m

module _ {F : Type 0} ⦃fl : Float64 F⦄ (c : CgroupCollector F) (d : DescSet) (id path : Text) where
  abbrev IsOn : Text → Type 0
  IsOn w = is_set (get w c.psi_windows) ≡ true

  Every-when_set :
      (P : Metric F → Type 0) (b : Bool) {ms : List (Metric F)}
      → (b ≡ true → Every P ms)
      → Every P (when b ms)
  unfolding when
  Every-when_set P true h = h refl
  Every-when_set P false h = nil

  emit_percents-OfWindow :
      (resource kind : Text) (line : PsiLine F)
      → Every (OfWindow {F = F} IsOn d id) (emit_percents c d id path resource kind line)
  unfolding emit_percents
  emit_percents-OfWindow resource kind line =
      Every-append
        (Every-append (Every-when_set _ _ (λ on. cons (a_percent resource kind _ on refl refl) nil))
          (Every-when_set _ _ (λ on. cons (a_percent resource kind _ on refl refl) nil)))
        (Every-when_set _ _ (λ on. cons (a_percent resource kind _ on refl refl) nil))

  line_metrics-OfWindow :
      (resource kind : Text) (desc : Desc) (line : PsiLine F)
      → Every (OfWindow {F = F} IsOn d id) (line_metrics c d id path resource kind desc line)
  unfolding line_metrics
  line_metrics-OfWindow resource kind desc line =
      Every-append (Every-when_set _ _ (λ on. cons (a_total on refl) nil))
        (emit_percents-OfWindow resource kind line)

  targets_metrics-OfWindow :
      (targets : List PsiTarget)
      → Every (OfWindow {F = F} IsOn d id) (targets_metrics c d id path targets)
  unfolding targets_metrics target_metrics
  targets_metrics-OfWindow [] = nil
  targets_metrics-OfWindow (tgt ∷ targets) =
      Every-append
        (Every-if_loaded _ (λ stats.
          Every-append (Every-if_some _ (line_metrics-OfWindow tgt.resource _ _)) (
            Every-if_some _
              (λ line. Every-if_some _ (λ desc. line_metrics-OfWindow tgt.resource _ desc line)))))
        (targets_metrics-OfWindow targets)

  collect_psi-OfWindow : Every (OfWindow {F = F} IsOn d id) (collect_psi c d id path)
  unfolding collect_psi
  collect_psi-OfWindow = targets_metrics-OfWindow (psi_targets d)

module _ {F : Type 0} where
  OfWindow-map :
      {Q R : Text → Type 0} (d : DescSet) (id : Text)
      → ((w : Text) → Q w → R w)
      → (m : Metric F) → OfWindow Q d id m
      → OfWindow R d id m
  OfWindow-map d id f m (a_total q e) = a_total (f _ q) e
  OfWindow-map d id f m (a_percent resource kind w q e e') = a_percent resource kind w (f w q) e e'

module _ {F : Type 0} ⦃fl : Float64 F⦄ where
  -- The collector that is made has the windows of the configuration.
  made_windows :
      (opt : CgroupCollectorOption) (opened : Option Root) (c : CgroupCollector F)
      → opened_with opt opened ≡ some (some c)
      → c.psi_windows ≡ resolve_psi_windows opt.config.psi_windows
  made_windows opt none c e = cc
  made_windows opt (some reader) c e = sym (ap (λ made. made.psi_windows) (some_inj (some_inj e)))

  new_cgroup_collector-windows :
      (opt : CgroupCollectorOption) (c : CgroupCollector F)
      → new_cgroup_collector opt ≡ some (some c)
      → c.psi_windows ≡ resolve_psi_windows opt.config.psi_windows
  unfolding new_cgroup_collector
  new_cgroup_collector-windows opt c e =
      elim (Bool-cases (opt.psi || opt.memory || opt.cpu || opt.pids || opt.io)) [
        | inl on ↦ made_windows opt opt.opened c (rw on at e)
        | inr off ↦ ground (arith, rw off at e)
      ]

  -- Every pressure metric of a collector that was made from the configuration is a total or a
  -- percentage of a window that the configuration allows: "total" alone if the configured list is
  -- empty, and otherwise the known windows of the list. A total carries the cgroup's label only, a
  -- percentage also the resource, the kind of line and the window.
  pub psi_windows_respected :
      (opt : CgroupCollectorOption) (c : CgroupCollector F) (d : DescSet) (id path : Text)
      → new_cgroup_collector opt ≡ some (some c)
      → Every (OfWindow {F = F} (IsAllowed opt.config.psi_windows) d id) (collect_psi c d id path)
  psi_windows_respected opt c d id path e =
      Every-map
        (OfWindow-map d id (λ w on.
          (resolve_psi_windows_lem opt.config.psi_windows w).0
            (subst (λ ws. is_set (get w ws) ≡ true) (new_cgroup_collector-windows opt c e) on)))
        (collect_psi-OfWindow c d id path)
