-- ===== src/Proc/Grouper/Cgroups.antt =====
-- The cgroup of a group: a conflict is found exactly when two processes report different paths.
use process_exporter.Prelude.{
  ℕ, ◌≡◌, refl, true, false, List, [], ◌∷◌, arith, Text, bytes_eq, bytes_beq, eq_of_bytes_beq,
  bytes_beq_refl, All, ◌≢◌, Bool-cases, inl, inr, ap, sym, subst, ◌∙◌, bytes_beq_of_eq,
}
use mathlib.Core.Bool.{false≢true}
use process_exporter.Proc.Grouper.Group.{Cgroups, add_cgroup}

unfoldable pub add_cgroups : List Text → Cgroups → Cgroups
add_cgroups [] c = c
add_cgroups (p ∷ ps) c = add_cgroups ps (add_cgroup p c)

add_cgroups_conflict : (ps : List Text) (c : Cgroups) → c.conflict ≡ true → add_cgroups ps c ≡ c
unfolding add_cgroups add_cgroup
add_cgroups_conflict [] c h = refl
add_cgroups_conflict (p ∷ ps) c h = ground (arith, add_cgroups_conflict ps c)

abbrev resolved : Text → Cgroups
resolved q = record { path = q; conflict = false; saw_empty = false }

abbrev unresolved : Cgroups
unresolved = record { path = []; conflict = false; saw_empty = true }

resolved_same :
    (b : ℕ) (q p : Text) → p ≡ b ∷ q → add_cgroup p (resolved (b ∷ q)) ≡ resolved (b ∷ q)
unfolding add_cgroup
resolved_same b q p e = ground (arith, bytes_beq_refl q)

resolved_other :
    (b : ℕ) (q p : Text) → p ≢ b ∷ q → (add_cgroup p (resolved (b ∷ q))).conflict ≡ true
unfolding add_cgroup
resolved_other b q p e = ground (arith, eq_of_bytes_beq (b ∷ q) p)

unresolved_same : add_cgroup [] unresolved ≡ unresolved
unfolding add_cgroup
unresolved_same = refl

unresolved_other : (b : ℕ) (p : Text) → (add_cgroup (b ∷ p) unresolved).conflict ≡ true
unfolding add_cgroup
unresolved_other b p = refl

conflict_stays :
    (ps : List Text) (c : Cgroups) → c.conflict ≡ true → (add_cgroups ps c).conflict ≡ true
conflict_stays ps c h = ap (λ (d : Cgroups). d.conflict) (add_cgroups_conflict ps c h) ∙ h

-- From a state that holds exactly the path `q`, the state is kept while the path is reported.
abbrev holding : Text → Cgroups
holding [] = unresolved
holding (b ∷ q) = resolved (b ∷ q)

holding_same : (q p : Text) → p ≡ q → add_cgroup p (holding q) ≡ holding q
holding_same [] p e = rw e unresolved_same
holding_same (b ∷ q) p e = resolved_same b q p e

holding_other : (q p : Text) → p ≢ q → (add_cgroup p (holding q)).conflict ≡ true
holding_other [] [] e = absurd (e refl)
holding_other [] (b ∷ p) e = unresolved_other b p
holding_other (b ∷ q) p e = resolved_other b q p e

holding-conflict : (q : Text) → (holding q).conflict ≡ false
holding-conflict [] = refl
holding-conflict (b ∷ q) = refl

holding-path : (q : Text) → (holding q).path ≡ q
holding-path [] = refl
holding-path (b ∷ q) = refl

kept : (q : Text) (ps : List Text) → All (λ p. p ≡ q) ps → add_cgroups ps (holding q) ≡ holding q
unfolding add_cgroups
kept q [] h = refl
kept q (p ∷ ps) h = rw (holding_same q p h.0) (kept q ps h.1)

All-same :
    (q : Text) (ps : List Text)
    → (add_cgroups ps (holding q)).conflict ≡ false
    → All (λ p. p ≡ q) ps
unfolding add_cgroups
All-same q [] h = tt
All-same q (p ∷ ps) h = elim (Bool-cases (bytes_beq p q)) [
  | inl e ↦
      let same = eq_of_bytes_beq p q e in
      (
        same,
        All-same q ps (subst (λ c. (add_cgroups ps c).conflict ≡ false) (holding_same q p same) h),
      )
  | inr e ↦ absurd (false≢true (sym h ∙ conflict_stays ps _ (holding_other q p (not_same e))))
]
  where
    not_same : bytes_beq p q ≡ false → p ≢ q
    not_same e d = false≢true (sym e ∙ bytes_beq_of_eq p q d)

abbrev pub no_cgroups : Cgroups
no_cgroups = record { path = []; conflict = false; saw_empty = false }

first_path : (p : Text) → add_cgroup p no_cgroups ≡ holding p
unfolding add_cgroup
first_path [] = refl
first_path (b ∷ p) = refl

-- Without a conflict, every path is the one that the group holds.
pub no_conflict_agrees :
    (ps : List Text)
    → (add_cgroups ps no_cgroups).conflict ≡ false
    → All (λ p. p ≡ (add_cgroups ps no_cgroups).path) ps
unfolding add_cgroups
no_conflict_agrees [] h = tt
no_conflict_agrees (p ∷ ps) h =
    let clear = subst (λ c. (add_cgroups ps c).conflict ≡ false) (first_path p) h in
    let same = All-same p ps clear in
    let end =
      ap (λ (c : Cgroups). c.path) (ap (add_cgroups ps) (first_path p) ∙ kept p ps same)
      ∙ holding-path p in
    subst (λ q. All (λ r. r ≡ q) (p ∷ ps)) (sym end) (refl, same)

-- Where all paths are one, there is no conflict.
pub agreement_is_clear :
    (q : Text) (ps : List Text) → All (λ p. p ≡ q) ps → (add_cgroups ps no_cgroups).conflict ≡ false
unfolding add_cgroups
agreement_is_clear q [] h = refl
agreement_is_clear q (p ∷ ps) h =
    let same : add_cgroup p no_cgroups ≡ holding q = first_path p ∙ ap holding h.0 in
    ap (λ (c : Cgroups). c.conflict) (ap (add_cgroups ps) same ∙ kept q ps h.1) ∙ holding-conflict q
