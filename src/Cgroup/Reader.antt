-- ===== src/Cgroup/Reader.antt =====
-- cgroup/reader.go. `os.Root` and `path.Match` are the fields of a record.
use process_exporter.Prelude.{
  ℕ, ◌++◌, Bool, true, false, ◌&&◌, ◌||◌, Option, none, some, List, [], ◌∷◌, Text, bytes, ltb,
  nat_beq, ℤ, pos, negsuc, map, length, filter, not, is_empty, if◌then◌else◌, sort_texts, Float64,
  Map,
}
use process_exporter.Cgroup.Stat.{
  Parsed, ParseError, parse_uint64, parse_keyed, parse_pids_max, parse_io_stat,
}
use process_exporter.Cgroup.Psi.{PsiStats, PsiResult, PsiError, parse_psi}

-- What `Reader` asks of the operating system: the content of a file, the names in a directory and
-- whether each is a directory, and whether a path is one. `none` is an error. `join` is
-- `filepath.Join`, and `glob` is `path.Match`, where `none` is `ErrBadPattern`.
pub record Root : Type 0 where
  pub read_all : Text → Option Text
  pub entries : Text → Option (List (Text × Bool))
  pub is_dir : Text → Option Bool
  pub join : Text → Text → Text
  pub glob : Text → Text → Option Bool

-- `strings.Trim(path, "/")`
unfoldable pub trim_left_slash : Text → Text
trim_left_slash [] = []
trim_left_slash (c ∷ s) = let rest = trim_left_slash s in if nat_beq c 47 then rest else c ∷ s

unfoldable pub trim_right_slash : Text → Text
trim_right_slash [] = []
trim_right_slash (c ∷ s) =
    let rest = trim_right_slash s in if nat_beq c 47 && is_empty rest then [] else c ∷ rest

unfoldable pub trim_slashes : Text → Text
unfolding trim_left_slash trim_right_slash
trim_slashes s = trim_right_slash (trim_left_slash s)

-- `strings.TrimPrefix(path, "/")`
unfoldable pub trim_prefix_slash : Text → Text
trim_prefix_slash [] = []
trim_prefix_slash (c ∷ s) = if nat_beq c 47 then s else c ∷ s

-- `strings.Split(pattern, "/")`
abbrev pub onto_segment : ℕ → List Text → List Text
onto_segment c [] = (c ∷ []) ∷ []
onto_segment c (w ∷ words) = (c ∷ w) ∷ words

unfoldable pub split_slash : Text → List Text
split_slash [] = [] ∷ []
split_slash (c ∷ s) =
    let rest = split_slash s in if nat_beq c 47 then [] ∷ rest else onto_segment c rest

-- Why a file gives no value: it cannot be read, or its content cannot be parsed.
pub data Loaded (E A : Type 0) : Type 0 where
  loaded : A → Loaded E A
  unreadable : Loaded E A
  malformed : E → Loaded E A

abbrev pub parsed : {A : Type 0} → Parsed A → Loaded ParseError A
parsed (Parsed.ok a) = loaded a
parsed (Parsed.err e) = malformed e

abbrev pub parsed_psi : {F : Type 0} → PsiResult (PsiStats F) → Loaded PsiError (PsiStats F)
parsed_psi (PsiResult.ok a) = loaded a
parsed_psi (PsiResult.err e) = malformed e

-- `if err != nil { return err }` after `readFile`
abbrev pub with_content : {E A : Type 0} → Option Text → (Text → Loaded E A) → Loaded E A
with_content none k = unreadable
with_content (some content) k = k content

-- Why a pattern has no paths.
pub data Expansion : Type 0 where
  expanded : List Text → Expansion
  root_cgroup bad_pattern : Expansion
  too_many_matches : ℕ → Expansion

abbrev pub some_or_nil {ℓ} : {A : Type ℓ} → Option (List A) → List A
some_or_nil none = []
some_or_nil (some xs) = xs

-- The names of the entries that are directories.
unfoldable pub dir_names : List (Text × Bool) → List Text
dir_names [] = []
dir_names ((name, dir) ∷ es) = let rest = dir_names es in if dir then name ∷ rest else rest

-- `strings.ContainsAny(seg, "*?[")`
unfoldable pub has_wildcard : Text → Bool
has_wildcard [] = false
has_wildcard (c ∷ s) = nat_beq c 42 || nat_beq c 63 || nat_beq c 91 || has_wildcard s

-- `max > 0 && len(next) > max`
abbrev pub exceeds : ℤ → ℕ → Bool
exceeds (pos m) n = ltb 0 m && ltb m n
exceeds (negsuc m) n = false

-- A path and a segment below it.
abbrev pub below : Text → Text → Text
below p seg = p ++ 47 ∷ seg

-- One child of the inner loop: `none` is the error of `path.Match`.
abbrev pub keep_match : Option Bool → Text → Option (List Text) → Option (List Text)
keep_match none path rest = none
keep_match (some true) path none = none
keep_match (some true) path (some paths) = some (path ∷ paths)
keep_match (some false) path rest = rest

abbrev pub join_matches : Option (List Text) → Option (List Text) → Option (List Text)
join_matches none rest = none
join_matches (some paths) none = none
join_matches (some paths) (some rest) = some (paths ++ rest)

-- The names of the directories, in order; `none` if there was an error.
abbrev pub sorted_dirs : Option (List (Text × Bool)) → Option (List Text)
sorted_dirs none = none
sorted_dirs (some es) = some (sort_texts (dir_names es))

-- The guard on the number of matches, and the rest of the segments.
abbrev pub within : ℤ → Option (List Text) → (List Text → Expansion) → Expansion
within max none k = bad_pattern
within max (some next) k =
    let rest = k next in if exceeds max (length next) then too_many_matches (length next) else rest

abbrev pub is_true : Option Bool → Bool
is_true none = false
is_true (some b) = b

-- The segments of the pattern that are not empty.
unfoldable pub segments_of : Text → List Text
unfolding split_slash filter
segments_of pat = filter (λ s. not (is_empty s)) (split_slash pat)

module _ (root : Root) where
  -- `readFile`
  unfoldable pub read_file : Text → Text → Option Text
  unfolding trim_slashes
  read_file cgroup_path name = root.read_all (root.join (trim_slashes cgroup_path) name)

  -- `ReadPSI`
  unfoldable pub read_psi :
      {F : Type 0} → ⦃fl : Float64 F⦄ → (cgroup_path resource : Text) → Loaded PsiError (PsiStats F)
  unfolding read_file
  read_psi {F} cgroup_path resource =
      with_content (read_file cgroup_path (resource ++ bytes ".pressure"))
        (λ content. parsed_psi (parse_psi {F = F} content))

  -- `ReadUint64`
  unfoldable pub read_uint64 : Text → Text → Loaded ParseError ℕ
  unfolding read_file
  read_uint64 cgroup_path name =
      with_content (read_file cgroup_path name) (λ content. parsed (parse_uint64 content))

  -- `ReadKeyed`
  unfoldable pub read_keyed : Text → Text → Loaded ParseError (Map Text ℕ)
  unfolding read_file
  read_keyed cgroup_path name =
      with_content (read_file cgroup_path name) (λ content. parsed (parse_keyed content))

  -- `ReadPidsMax`
  unfoldable pub read_pids_max : Text → Loaded ParseError (ℕ × Bool)
  unfolding read_file
  read_pids_max cgroup_path =
      with_content (read_file cgroup_path (bytes "pids.max"))
        (λ content. parsed (parse_pids_max content))

  -- `ReadIOStat`
  unfoldable pub read_io_stat : Text → Loaded ParseError (Map Text (Map Text ℕ))
  unfolding read_file
  read_io_stat cgroup_path =
      with_content (read_file cgroup_path (bytes "io.stat"))
        (λ content. parsed (parse_io_stat content))

  -- `childDirs`: `none` if the directory cannot be opened or read
  unfoldable pub child_dirs : Text → Option (List Text)
  unfolding trim_slashes
  child_dirs cgroup_path =
      let rel = trim_slashes cgroup_path in
      sorted_dirs (root.entries (if is_empty rel then 46 ∷ [] else rel))

  -- The children of `p` that match `seg`.
  unfoldable pub matching : Text → Text → List Text → Option (List Text)
  matching seg p [] = some []
  matching seg p (child ∷ children) =
      keep_match (root.glob seg child) (below p child) (matching seg p children)

  -- The loop over the paths; a directory that cannot be listed drops out.
  unfoldable pub next_paths : Text → List Text → Option (List Text)
  unfolding matching child_dirs
  next_paths seg [] = some []
  next_paths seg (p ∷ paths) =
      join_matches (matching seg p (some_or_nil (child_dirs p))) (next_paths seg paths)

  -- The loop over the segments.
  unfoldable pub expand : ℤ → List Text → List Text → Expansion
  unfolding next_paths has_wildcard
  expand max [] paths = expanded paths
  expand max (seg ∷ segs) paths =
      let literal = expand max segs (map (λ p. below p seg) paths) in
      let wild = within max (next_paths seg paths) (expand max segs) in
      if has_wildcard seg then wild else literal

  -- `err != nil || !fi.IsDir()` lets a path drop out.
  unfoldable pub exists_dir : Text → Bool
  unfolding trim_prefix_slash
  exists_dir p = is_true (root.is_dir (trim_prefix_slash p))

  abbrev pub only_dirs : Expansion → Expansion
  only_dirs (expanded paths) = expanded (sort_texts (filter exists_dir paths))
  only_dirs root_cgroup = root_cgroup
  only_dirs bad_pattern = bad_pattern
  only_dirs (too_many_matches n) = too_many_matches n

  abbrev pub expand_segments : ℤ → List Text → Expansion
  expand_segments max [] = root_cgroup
  expand_segments max (seg ∷ segs) = only_dirs (expand max (seg ∷ segs) ([] ∷ []))

  -- `ExpandPattern(pattern, max)`
  unfoldable pub expand_pattern : Text → ℤ → Expansion
  unfolding expand segments_of
  expand_pattern pat max = expand_segments max (segments_of pat)
