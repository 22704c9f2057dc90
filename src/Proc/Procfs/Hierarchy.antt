-- ===== src/Proc/Procfs/Hierarchy.antt =====
-- The cgroups of a process as `GetStatic` (proc/read.go) takes them from the lines of its file.
use process_exporter.Prelude.{
  ◌≡◌, ◌≢◌, refl, sym, ◌∙◌, List, [], ◌∷◌, ◌++◌, map, Text, All, ◌==◌, nat_eq, if◌then◌else◌, arith,
  append-nil, append_assoc,
}
use process_exporter.Proc.Procfs.{Cgroup}
use process_exporter.Proc.Procfs.Details.{cgroup_paths}

abbrev pub IsOfVersion1 : Cgroup → Type 0
IsOfVersion1 c = c.hierarchy_id ≢ 0

path_if_first :
    (c : Cgroup) (v2 : Text) → IsOfVersion1 c → (if c.hierarchy_id == 0 then c.path else v2) ≡ v2
path_if_first c v2 h = ground (arith, nat_eq.equal_iff c.hierarchy_id 0, h)

path_if_unified :
    (c : Cgroup) (v2 : Text)
    → c.hierarchy_id ≡ 0
    → (if c.hierarchy_id == 0 then c.path else v2) ≡ c.path
path_if_unified c v2 h = ground (arith, nat_eq.equal_iff c.hierarchy_id 0, h)

path-none :
    (cgroups : List Cgroup) (strs : List Text) (v2 : Text)
    → All IsOfVersion1 cgroups
    → (cgroup_paths cgroups strs v2).1 ≡ v2
unfolding cgroup_paths
path-none [] strs v2 h = refl
path-none (c ∷ cgroups) strs v2 h =
    path-none cgroups (strs ++ c.path ∷ []) _ h.1 ∙ path_if_first c v2 h.0

path-last :
    (before after : List Cgroup) (c : Cgroup) (strs : List Text) (v2 : Text)
    → c.hierarchy_id ≡ 0
    → All IsOfVersion1 after
    → (cgroup_paths (before ++ c ∷ after) strs v2).1 ≡ c.path
unfolding cgroup_paths
path-last [] after c strs v2 e h =
    path-none after (strs ++ c.path ∷ []) _ h ∙ path_if_unified c v2 e
path-last (d ∷ before) after c strs v2 e h = path-last before after c (strs ++ d.path ∷ []) _ e h

strs-all :
    (cgroups : List Cgroup) (strs : List Text) (v2 : Text)
    → (cgroup_paths cgroups strs v2).0 ≡ strs ++ map (λ c. c.path) cgroups
unfolding cgroup_paths
strs-all [] strs v2 = sym (append-nil strs)
strs-all (c ∷ cgroups) strs v2 =
    strs-all cgroups (strs ++ c.path ∷ []) _
    ∙ append_assoc strs (c.path ∷ []) (map (λ d. d.path) cgroups)

-- From the lines of the cgroup file of a process, `GetStatic` keeps all paths in order; and the path
-- of the unified hierarchy is that of the last line with the hierarchy id 0, and empty if there is no
-- such line.
pub unified_path_is_last :
    (cgroups : List Cgroup)
    → ((cgroup_paths cgroups [] []).0 ≡ map (λ c. c.path) cgroups)
      × (All IsOfVersion1 cgroups → (cgroup_paths cgroups [] []).1 ≡ [])
      × ((before after : List Cgroup) (c : Cgroup)
          → cgroups ≡ before ++ c ∷ after
          → c.hierarchy_id ≡ 0
          → All IsOfVersion1 after
          → (cgroup_paths cgroups [] []).1 ≡ c.path)
unified_path_is_last cgroups = (
  strs-all cgroups [] [],
  path-none cgroups [] [],
  λ before after c e z h. rw e (path-last before after c [] [] z h),
)
