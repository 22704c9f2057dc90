-- ===== src/Collector/Overlaps.antt =====
-- Configured path patterns that overlap (collector/cgroup_collector.go, `collectPaths`).
use process_exporter.Prelude.{
  ◌≡◌, List, [], ◌∷◌, ◌++◌, Float64, Text, IsIn, Any-append, subst, inl, inr, ◌⊎◌,
}
use process_exporter.Cgroup.Reader.{expand_pattern}
use process_exporter.Collector.Metric.{Metric}
use process_exporter.Collector.Families.{CgroupCollector}
use process_exporter.Collector.Cgroups.{collect_paths}
use process_exporter.Collector.Paths.{
  sent_for, sent, collect_paths_lem, IsPathMetric, configured_in, sent_for_match, IsIn-sent,
}

module _ {A : Type 0} where
  -- An element that is `x` stands before one that is `y`.
  abbrev pub IsBefore : A → A → List A → Type 0
  IsBefore x y [] = ⊥
  IsBefore x y (z ∷ zs) = ((z ≡ x) × IsIn y zs) ⊎ IsBefore x y zs

  IsBefore-across : (x y : A) (xs ys : List A) → IsIn x xs → IsIn y ys → IsBefore x y (xs ++ ys)
  IsBefore-across x y [] ys i j = elim i [ ]
  IsBefore-across x y (z ∷ xs) ys i j = elim i [
    | inl e ↦ inl (e, (Any-append (λ w. w ≡ y) xs ys).1 (inr j))
    | inr k ↦ inr (IsBefore-across x y xs ys k j)
  ]

  IsBefore-after : (x y : A) (xs ys : List A) → IsBefore x y ys → IsBefore x y (xs ++ ys)
  IsBefore-after x y [] ys b = b
  IsBefore-after x y (z ∷ xs) ys b = inr (IsBefore-after x y xs ys b)

  only-IsIn : {x y : A} (ys : List A) → IsIn y ys → IsIn x (y ∷ []) → IsIn x ys
  only-IsIn ys i j = elim j [ inl e ↦ subst (λ w. IsIn w ys) e i | inr k ↦ elim k [ ] ]

module _ {F : Type 0} ⦃fl : Float64 F⦄ where
  sent_alone :
      (c : CgroupCollector F) (m : Metric F) (pat : Text)
      → IsPathMetric c (pat ∷ []) m
      → IsIn m (sent_for c (expand_pattern c.reader pat c.max_paths))
  sent_alone c m pat h = elim h.is_configured [
    | inl e ↦ sent_for_match c m pat h e
    | inr i ↦ elim i [ ]
  ]

  sent-IsBefore :
      (c : CgroupCollector F) (m : Metric F) (p q : Text) (patterns : List Text)
      → IsBefore p q patterns
      → IsPathMetric c (p ∷ []) m
      → IsPathMetric c (q ∷ []) m
      → IsBefore m m (sent c patterns)
  unfolding sent
  sent-IsBefore c m p q [] b h k = elim b [ ]
  sent-IsBefore c m p q (pat ∷ patterns) b h k = elim b [
    | inl (e, i) ↦
        IsBefore-across m m _ _ (sent_alone c m pat (configured_in c m h (rw e h.is_configured)))
          ((IsIn-sent c m patterns).1 (configured_in c m k (only-IsIn _ i k.is_configured)))
    | inr later ↦ IsBefore-after m m _ _ (sent-IsBefore c m p q patterns later h k)
  ]

  -- If one of the configured patterns stands before another, or the same pattern stands there
  -- twice, and both select the cgroup of a metric, then that metric is sent twice in one scrape.
  pub overlapping_patterns_repeat :
      (c : CgroupCollector F) (m : Metric F) (p q : Text)
      → IsBefore p q c.paths
      → IsPathMetric c (p ∷ []) m
      → IsPathMetric c (q ∷ []) m
      → IsBefore m m (collect_paths c).1
  overlapping_patterns_repeat c m p q b h k =
      rw (collect_paths_lem c) (sent-IsBefore c m p q c.paths b h k)
