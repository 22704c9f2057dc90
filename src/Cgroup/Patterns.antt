-- ===== src/Cgroup/Patterns.antt =====
-- `ExpandPattern` (cgroup/reader.go) against a description of the paths that match a pattern.
use process_exporter.Prelude.{
  ℕ, suc, ◌≡◌, ◌≤◌, refl, ap, sym, ◌∙◌, ◌↔◌, ◌⊎◌, inl, inr, Bool, true, false, Option, none, some,
  List, [], ◌∷◌, Text, ℤ, pos, map, length, filter, arith, Any, IsIn, Any-append, Any-map,
  IsIn-filter, length-filter, length-map, Any-sort_texts, IsSorted, sort_texts-IsSorted,
  length-sort_texts, Bool-cases, if◌then◌else◌, subst, some_inj, sort_texts,
}
use process_exporter.Cgroup.Reader.{
  Root, Expansion, expanded, below, some_or_nil, keep_match, join_matches, has_wildcard, exceeds,
  child_dirs, matching, next_paths, within, expand, exists_dir, only_dirs, segments_of,
  expand_segments, expand_pattern, too_many_matches, root_cgroup, bad_pattern,
}

expanded_inj : {xs ys : List Text} → expanded xs ≡ expanded ys → xs ≡ ys
expanded_inj e = cc

iff_trans : {P Q R : Type 0} → P ↔ Q → Q ↔ R → P ↔ R
iff_trans h k = ((λ p. k.0 (h.0 p)), λ r. h.1 (k.1 r))

module _ (root : Root) where
  -- `q` is `p` followed by one name for each segment: the segment itself, or, if it has a wildcard,
  -- the name of a child directory that matches it.
  unfoldable pub Follows : Text → List Text → Text → Type 0
  Follows p [] q = p ≡ q
  Follows p (seg ∷ segs) q =
      if has_wildcard seg
      then Any (λ child. (root.glob seg child ≡ some true) × Follows (below p child) segs q)
          (some_or_nil (child_dirs root p))
      else Follows (below p seg) segs q

  Any-keep_match :
      (P : Text → Type 0) (b : Option Bool) (x : Text) (rest : Option (List Text)) {out : List Text}
      (R : Type 0)
      → ((out' : List Text) → rest ≡ some out' → Any P out' ↔ R)
      → keep_match b x rest ≡ some out
      → Any P out ↔ (((b ≡ some true) × P x) ⊎ R)
  Any-keep_match P none x rest R h e = ground (arith, e)
  Any-keep_match P (some true) x none R h e = ground (arith, e)
  Any-keep_match P (some true) x (some paths) R h e =
      subst (λ o. Any P o ↔ (((some true ≡ some true) × P x) ⊎ R)) (some_inj e)
        (
          (λ i. elim i [ inl p ↦ inl (refl, p) | inr r ↦ inr ((h paths refl).0 r) ]),
          λ i. elim i [ inl p ↦ inl p.1 | inr r ↦ inr ((h paths refl).1 r) ],
        )
  Any-keep_match P (some false) x rest R h e =
      ((λ i. inr ((h _ e).0 i)), λ i. elim i [ inl p ↦ ground (arith, p.0) | inr r ↦ (h _ e).1 r ])

  Any-matching :
      (P : Text → Type 0) (seg p : Text) (children : List Text) (out : List Text)
      → matching root seg p children ≡ some out
      → Any P out ↔ Any (λ child. (root.glob seg child ≡ some true) × P (below p child)) children
  unfolding matching
  Any-matching P seg p [] out e = subst (λ o. Any P o ↔ ⊥) (some_inj e) ((λ h. h), λ h. h)
  Any-matching P seg p (child ∷ children) out e =
      Any-keep_match P (root.glob seg child) (below p child) (matching root seg p children) _
        (Any-matching P seg p children) e

  Any-join_matches :
      (P : Text → Type 0) (here rest : Option (List Text)) {out : List Text} (H R : Type 0)
      → ((o : List Text) → here ≡ some o → Any P o ↔ H)
      → ((o : List Text) → rest ≡ some o → Any P o ↔ R)
      → join_matches here rest ≡ some out
      → Any P out ↔ (H ⊎ R)
  Any-join_matches P none rest H R h k e = ground (arith, e)
  Any-join_matches P (some xs) none H R h k e = ground (arith, e)
  Any-join_matches P (some xs) (some ys) H R h k e =
      subst (λ o. Any P o ↔ (H ⊎ R)) (some_inj e)
        (
          (λ i. elim ((Any-append P xs ys).0 i) [
            | inl a ↦ inl ((h xs refl).0 a)
            | inr b ↦ inr ((k ys refl).0 b)
          ]),
          λ i.
              (Any-append P xs ys).1
                (elim i [ inl a ↦ inl ((h xs refl).1 a) | inr b ↦ inr ((k ys refl).1 b) ]),
        )

  Any-next_paths :
      (P : Text → Type 0) (seg : Text) (paths : List Text) (out : List Text)
      → next_paths root seg paths ≡ some out
      → Any P out
        ↔ Any
            (λ p.
              Any
                (λ child. (root.glob seg child ≡ some true) × P (below p child))
                (some_or_nil (child_dirs root p)))
            paths
  unfolding next_paths
  Any-next_paths P seg [] out e = subst (λ o. Any P o ↔ ⊥) (some_inj e) ((λ h. h), λ h. h)
  Any-next_paths P seg (p ∷ paths) out e =
      Any-join_matches P _ _ _ _ (Any-matching P seg p (some_or_nil (child_dirs root p)))
        (Any-next_paths P seg paths) e

  within-expanded :
      (max : ℤ) (next : Option (List Text)) (k : List Text → Expansion) {out : List Text}
      → within max next k ≡ expanded out
      → (paths : List Text) × (next ≡ some paths)
        × (exceeds max (length paths) ≡ false)
        × (k paths ≡ expanded out)
  within-expanded max none k e = ground (arith, e)
  within-expanded max (some paths) k e = elim (Bool-cases (exceeds max (length paths))) [
    | inl t ↦ ground (arith, e, t)
    | inr f ↦ (
      paths,
      refl,
      f,
      ap (λ b. if b then too_many_matches (length paths) else k paths) (sym f) ∙ e,
    )
  ]

  expand_if :
      (b : Bool) (max : ℤ) (seg : Text) (segs paths : List Text) (out : List Text) (q : Text)
      → ((ps o : List Text)
          → expand root max segs ps ≡ expanded o
          → IsIn q o ↔ Any (λ p. Follows p segs q) ps)
      → (if b
          then within max (next_paths root seg paths) (expand root max segs)
          else expand root max segs (map (λ p. below p seg) paths))
        ≡ expanded out
      → IsIn q out
        ↔ Any
            (λ p.
              if b
              then Any
                  (λ child. (root.glob seg child ≡ some true) × Follows (below p child) segs q)
                  (some_or_nil (child_dirs root p))
              else Follows (below p seg) segs q)
            paths
  expand_if true max seg segs paths out q rest e =
      let (next, en, _, ek) =
        within-expanded max (next_paths root seg paths) (expand root max segs) e in
      iff_trans (rest next out ek) (Any-next_paths (λ p. Follows p segs q) seg paths next en)
  expand_if false max seg segs paths out q rest e =
      iff_trans (rest (map (λ p. below p seg) paths) out e)
        (Any-map (λ p. Follows p segs q) (λ p. below p seg) paths)

  expand-Follows :
      (max : ℤ) (segs : List Text) (q : Text) (paths out : List Text)
      → expand root max segs paths ≡ expanded out
      → IsIn q out ↔ Any (λ p. Follows p segs q) paths
  unfolding expand Follows
  expand-Follows max [] q paths out e =
      subst (λ o. IsIn q o ↔ Any (λ p. p ≡ q) paths) (expanded_inj e) ((λ i. i), λ i. i)
  expand-Follows max (seg ∷ segs) q paths out e =
      expand_if (has_wildcard seg) max seg segs paths out q (expand-Follows max segs q) e

  only_dirs-expanded :
      (x : Expansion) (out : List Text)
      → only_dirs root x ≡ expanded out
      → (paths : List Text) × (x ≡ expanded paths)
        × (sort_texts (filter (exists_dir root) paths) ≡ out)
  only_dirs-expanded (expanded paths) out e = (paths, refl, expanded_inj e)
  only_dirs-expanded root_cgroup out e = ground (arith, e)
  only_dirs-expanded bad_pattern out e = ground (arith, e)
  only_dirs-expanded (too_many_matches n) out e = ground (arith, e)

  expand_segments-Follows :
      (max : ℤ) (segs out : List Text)
      → expand_segments root max segs ≡ expanded out
      → IsSorted out × ((q : Text) → IsIn q out ↔ (Follows [] segs q × (exists_dir root q ≡ true)))
  expand_segments-Follows max [] out e = ground (arith, e)
  expand_segments-Follows max (seg ∷ segs) out e =
      let (paths, ep, eo) = only_dirs-expanded (expand root max (seg ∷ segs) ([] ∷ [])) out e in
      (
        subst IsSorted eo (sort_texts-IsSorted (filter (exists_dir root) paths)),
        λ q.
            subst (λ o. IsIn q o ↔ (Follows [] (seg ∷ segs) q × (exists_dir root q ≡ true))) eo
              (iff_trans (Any-sort_texts (λ y. y ≡ q) (filter (exists_dir root) paths)) (
                iff_trans (IsIn-filter (exists_dir root) q paths) (
                  (λ i. (
                    elim ((expand-Follows max (seg ∷ segs) q ([] ∷ []) paths ep).0 i.0) [
                      | inl p ↦ p
                      | inr n ↦ elim n [ ]
                    ],
                    i.1,
                  )),
                  λ i. ((expand-Follows max (seg ∷ segs) q ([] ∷ []) paths ep).1 (inl i.0), i.1),
                ))),
      )

  expand_if-length :
      (b : Bool) (m : ℕ) (seg : Text) (segs paths : List Text) (out : List Text)
      → length paths ≤ suc m
      → ((ps o : List Text)
          → length ps ≤ suc m
          → expand root (pos (suc m)) segs ps ≡ expanded o
          → length o ≤ suc m)
      → (if b
          then within (pos (suc m)) (next_paths root seg paths) (expand root (pos (suc m)) segs)
          else expand root (pos (suc m)) segs (map (λ p. below p seg) paths))
        ≡ expanded out
      → length out ≤ suc m
  expand_if-length true m seg segs paths out h rest e =
      let (next, _, few, ek) =
        within-expanded (pos (suc m)) (next_paths root seg paths) (expand root (pos (suc m)) segs)
          e in
      rest next out (ground (arith, few)) ek
  expand_if-length false m seg segs paths out h rest e =
      rest (map (λ p. below p seg) paths) out
        (omega (arith, h, length-map (λ p. below p seg) paths)) e

  length-expand :
      (m : ℕ) (segs paths out : List Text)
      → length paths ≤ suc m
      → expand root (pos (suc m)) segs paths ≡ expanded out
      → length out ≤ suc m
  unfolding expand
  length-expand m [] paths out h e = subst (λ o. length o ≤ suc m) (expanded_inj e) h
  length-expand m (seg ∷ segs) paths out h e =
      expand_if-length (has_wildcard seg) m seg segs paths out h (length-expand m segs) e

  length-expand_segments :
      (m : ℕ) (segs out : List Text)
      → expand_segments root (pos (suc m)) segs ≡ expanded out
      → length out ≤ suc m
  length-expand_segments m [] out e = ground (arith, e)
  length-expand_segments m (seg ∷ segs) out e =
      let (paths, ep, eo) =
        only_dirs-expanded (expand root (pos (suc m)) (seg ∷ segs) ([] ∷ [])) out e in
      omega (
        arith,
        length-expand m (seg ∷ segs) ([] ∷ []) paths (omega arith) ep,
        length-filter (exists_dir root) paths,
        length-sort_texts (filter (exists_dir root) paths),
        ap length eo,
      )

  -- If `ExpandPattern` with a positive limit returns paths, there are at most as many as the
  -- limit.
  pub expand_pattern_bounded :
      (pat : Text) (m : ℕ) (out : List Text)
      → expand_pattern root pat (pos (suc m)) ≡ expanded out
      → length out ≤ suc m
  unfolding expand_pattern
  expand_pattern_bounded pat m out e = length-expand_segments m (segments_of pat) out e

  -- If `ExpandPattern` returns paths, these are, in order, exactly the paths of existing directories
  -- that follow the root by one name for each segment of the pattern: by the segment if it has no
  -- wildcard, and otherwise by a child directory that matches it.
  pub expand_pattern_exact :
      (pat : Text) (max : ℤ) (out : List Text)
      → expand_pattern root pat max ≡ expanded out
      → IsSorted out
        × ((q : Text) → IsIn q out ↔ (Follows [] (segments_of pat) q × (exists_dir root q ≡ true)))
  unfolding expand_pattern
  expand_pattern_exact pat max out e = expand_segments-Follows max (segments_of pat) out e
