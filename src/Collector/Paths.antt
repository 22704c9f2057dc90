-- ===== src/Collector/Paths.antt =====
-- The path patterns (collector/cgroup_collector.go, `collectPaths`), over the reader's expansion.
use process_exporter.Prelude.{
  ◌≡◌, refl, List, [], ◌∷◌, ◌++◌, Float64, Text, IsIn, ◌↔◌, Any-append, subst, inl, sym, inr, true,
}
use process_exporter.Cgroup.Reader.{
  Expansion, expanded, root_cgroup, bad_pattern, too_many_matches, expand_pattern, segments_of,
  exists_dir,
}
use process_exporter.Cgroup.Patterns.{Follows, expand_pattern_exact}
use process_exporter.Collector.Metric.{Metric}
use process_exporter.Collector.Descs.{DescSet, path_descs}
use process_exporter.Collector.Families.{
  CgroupCollector, collect_one, collect_psi, collect_memory, collect_cpu, collect_pids, collect_io,
  targets_metrics, target_metrics, line_metrics, emit_percents,
}
use process_exporter.Collector.Cgroups.{
  incremented, collect_matches, collect_expansion, collect_patterns, collect_paths,
}

module _ {F : Type 0} ⦃fl : Float64 F⦄ where
  -- What is sent for a pattern that expands, or else nothing.
  abbrev pub sent_for : CgroupCollector F → Expansion → List (Metric F)
  sent_for c (expanded matches) = collect_matches c matches
  sent_for c _ = []

  -- What is sent for the patterns, each read by itself.
  unfoldable pub sent : CgroupCollector F → List Text → List (Metric F)
  sent c [] = []
  sent c (pat ∷ patterns) = sent_for c (expand_pattern c.reader pat c.max_paths) ++ sent c patterns

  abbrev pub dropped_for : F → Expansion → F
  dropped_for x (expanded matches) = x
  dropped_for x _ = incremented x

  unfoldable pub dropped : CgroupCollector F → List Text → F → F
  dropped c [] x = x
  dropped c (pat ∷ patterns) x =
      dropped c patterns (dropped_for x (expand_pattern c.reader pat c.max_paths))

  -- The counter of dropped patterns is not read by what is sent.
  collect_one-counter :
      (c : CgroupCollector F) (x : F) (d : DescSet) (id path : Text)
      → collect_one (record c { pattern_dropped = x }) d id path ≡ collect_one c d id path
  unfolding collect_one collect_psi collect_memory collect_cpu collect_pids collect_io
      targets_metrics target_metrics line_metrics emit_percents
  collect_one-counter c x d id path = refl

  collect_matches-counter :
      (c : CgroupCollector F) (x : F) (matches : List Text)
      → collect_matches (record c { pattern_dropped = x }) matches ≡ collect_matches c matches
  unfolding collect_matches
  collect_matches-counter c x [] = refl
  collect_matches-counter c x (p ∷ matches) =
      rw (collect_one-counter c x path_descs p p, collect_matches-counter c x matches) refl

  collect_expansion_lem :
      (c : CgroupCollector F) (x : F) (e : Expansion)
      → collect_expansion (record c { pattern_dropped = x }) e
        ≡ (record c { pattern_dropped = dropped_for x e }, sent_for c e)
  collect_expansion_lem c x (expanded matches) = rw (collect_matches-counter c x matches) refl
  collect_expansion_lem c x root_cgroup = refl
  collect_expansion_lem c x bad_pattern = refl
  collect_expansion_lem c x (too_many_matches n) = refl

  collect_patterns_lem :
      (c : CgroupCollector F) (x : F) (patterns : List Text)
      → collect_patterns patterns (record c { pattern_dropped = x })
        ≡ (record c { pattern_dropped = dropped c patterns x }, sent c patterns)
  unfolding collect_patterns sent dropped
  collect_patterns_lem c x [] = refl
  collect_patterns_lem c x (pat ∷ patterns) =
      rw
        (
          collect_expansion_lem c x (expand_pattern c.reader pat c.max_paths),
          collect_patterns_lem c (dropped_for x (expand_pattern c.reader pat c.max_paths)) patterns,
        )
        refl

  pub collect_paths_lem :
      (c : CgroupCollector F)
      → collect_paths c
        ≡ (record c { pattern_dropped = dropped c c.paths c.pattern_dropped }, sent c c.paths)
  unfolding collect_paths
  collect_paths_lem c = collect_patterns_lem c c.pattern_dropped c.paths

  IsIn-collect_matches :
      (c : CgroupCollector F) (m : Metric F) (matches : List Text)
      → IsIn m (collect_matches c matches)
        ↔ ((q : Text) × IsIn q matches × IsIn m (collect_one c path_descs q q))
  unfolding collect_matches
  IsIn-collect_matches c m [] = ((λ h. elim h [ ]), λ (q, i, o). elim i [ ])
  IsIn-collect_matches c m (p ∷ matches) =
      let here =
        Any-append (λ y. y ≡ m) (collect_one c path_descs p p) (collect_matches c matches) in
      let rest = IsIn-collect_matches c m matches in
      (
        (λ h. elim (here.0 h) [
          | inl o ↦ (p, inl refl, o)
          | inr r ↦ let (q, i, o) = rest.0 r in (q, inr i, o)
        ]),
        λ (q, i, o). here.1 (elim i [
          | inl e ↦ inl (subst (λ x. IsIn m (collect_one c path_descs x x)) (sym e) o)
          | inr i' ↦ inr (rest.1 (q, i', o))
        ]),
      )

  -- A metric of a cgroup that a configured pattern selects: the pattern expands, the cgroup is a
  -- directory that follows the root by one name for each segment, and the metric is one of its own,
  -- labelled with its path.
  pub record IsPathMetric (c : CgroupCollector F) (patterns : List Text) (m : Metric F)
      : Type 0 where
    pub pattern : Text
    pub is_configured : IsIn pattern patterns
    pub matches : List Text
    pub expands : expand_pattern c.reader pattern c.max_paths ≡ expanded matches
    pub path : Text
    pub follows : Follows c.reader [] (segments_of pattern) path
    pub exists : exists_dir c.reader path ≡ true
    pub own : IsIn m (collect_one c path_descs path path)

  IsIn-sent_for :
      (c : CgroupCollector F) (m : Metric F) (e : Expansion)
      → IsIn m (sent_for c e)
        ↔ ((matches : List Text) × (e ≡ expanded matches) × IsIn m (collect_matches c matches))
  IsIn-sent_for c m (expanded matches) =
      ((λ h. (matches, refl, h)), λ (out, e, h). subst (λ x. IsIn m (sent_for c x)) (sym e) h)
  IsIn-sent_for c m root_cgroup = ((λ h. elim h [ ]), λ (out, e, h). cc)
  IsIn-sent_for c m bad_pattern = ((λ h. elim h [ ]), λ (out, e, h). cc)
  IsIn-sent_for c m (too_many_matches n) = ((λ h. elim h [ ]), λ (out, e, h). cc)

  selected :
      (c : CgroupCollector F) (m : Metric F) (pat : Text) (patterns : List Text)
      → IsIn m (sent_for c (expand_pattern c.reader pat c.max_paths))
      → IsPathMetric c (pat ∷ patterns) m
  selected c m pat patterns h =
      let (out, expands, i) = (IsIn-sent_for c m _).0 h in
      let (q, match, own) = (IsIn-collect_matches c m out).0 i in
      let (follows, exists) =
        ((expand_pattern_exact c.reader pat c.max_paths out expands).1 q).0 match in
      record {
        pattern = pat;
        is_configured = inl refl;
        matches = out;
        expands = expands;
        path = q;
        follows = follows;
        exists = exists;
        own = own;
      }

  -- Only the list of patterns is exchanged.
  pub configured_in :
      (c : CgroupCollector F) (m : Metric F) {patterns others : List Text}
      (h : IsPathMetric c patterns m)
      → IsIn h.pattern others
      → IsPathMetric c others m
  configured_in c m h i = record {
    pattern = h.pattern;
    is_configured = i;
    matches = h.matches;
    expands = h.expands;
    path = h.path;
    follows = h.follows;
    exists = h.exists;
    own = h.own;
  }

  pub sent_for_match :
      (c : CgroupCollector F) (m : Metric F) (pat : Text) {patterns : List Text}
      (h : IsPathMetric c patterns m)
      → pat ≡ h.pattern
      → IsIn m (sent_for c (expand_pattern c.reader pat c.max_paths))
  sent_for_match c m pat h e =
      let expands =
        subst (λ x. expand_pattern c.reader x c.max_paths ≡ expanded h.matches) (sym e) h.expands in
      let follows = subst (λ x. Follows c.reader [] (segments_of x) h.path) (sym e) h.follows in
      let match =
        ((expand_pattern_exact c.reader pat c.max_paths h.matches expands).1 h.path).1
          (follows, h.exists) in
      (IsIn-sent_for c m _).1
        (h.matches, expands, (IsIn-collect_matches c m h.matches).1 (h.path, match, h.own))

  pub IsIn-sent :
      (c : CgroupCollector F) (m : Metric F) (patterns : List Text)
      → IsIn m (sent c patterns) ↔ IsPathMetric c patterns m
  unfolding sent
  IsIn-sent c m [] = ((λ h. elim h [ ]), λ h. elim h.is_configured [ ])
  IsIn-sent c m (pat ∷ patterns) =
      let parts =
        Any-append (λ y. y ≡ m) (sent_for c (expand_pattern c.reader pat c.max_paths))
          (sent c patterns) in
      let rest = IsIn-sent c m patterns in
      (
        (λ h. elim (parts.0 h) [
          | inl here ↦ selected c m pat patterns here
          | inr there ↦ let h = rest.0 there in configured_in c m h (inr h.is_configured)
        ]),
        λ h. parts.1 (elim h.is_configured [
          | inl e ↦ inl (sent_for_match c m pat h e)
          | inr i ↦ inr (rest.1 (configured_in c m h i))
        ]),
      )

  -- A scrape sends for the configured path patterns exactly the metrics of the cgroups that they
  -- select: those of each directory that follows the root by one name for each segment of a
  -- pattern that expands, labelled with the path of the directory.
  pub paths_collected_exactly :
      (c : CgroupCollector F) (m : Metric F) → IsIn m (collect_paths c).1 ↔ IsPathMetric c c.paths m
  paths_collected_exactly c m = rw (collect_paths_lem c) (IsIn-sent c m c.paths)
