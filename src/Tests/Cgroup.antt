-- ===== src/Tests/Cgroup.antt =====
-- The theorems on cgroup files and path patterns at concrete inputs.
use process_exporter.Prelude.{
  ℕ, ◌≡◌, ◌≢◌, ◌≤◌, ◌<◌, ◌↔◌, ◌⊎◌, ◌++◌, refl, true, false, none, some, List, [], ◌∷◌, Text, bytes,
  arith, pos, ◌==◌, if◌then◌else◌, bytes_eq, length, IsIn, IsSorted, sort_texts, itoa, u64,
}
use process_exporter.Cgroup.Strings.{trim_space}
use process_exporter.Cgroup.Stat.{ok, max_text, parse_uint64, parse_pids_max}
use process_exporter.Cgroup.Numbers.{AllDigits, value, parse_uint64_exact, parse_uint64_reads}
use process_exporter.Cgroup.Limits.{without_flag, parse_pids_max-parse_uint64}
use process_exporter.Cgroup.Reader.{Root, exists_dir, dir_names, segments_of, expand_pattern}
use process_exporter.Cgroup.Patterns.{Follows, expand_pattern_exact, expand_pattern_bounded}

-- "/a" has the child cgroups "y" and "x", and a file.
abbrev small_root : Root
small_root = record {
  read_all = λ path. none;
  entries = λ path.
      if path == bytes "a"
      then some ((bytes "y", true) ∷ (bytes "pids.max", false) ∷ (bytes "x", true) ∷ [])
      else none;
  is_dir = λ path. some true;
  join = λ dir name. dir ++ 47 ∷ name;
  glob = λ pat name. some true;
}

abbrev both : List Text
both = bytes "/a/x" ∷ bytes "/a/y" ∷ []

expand_pattern_exact_example :
    IsSorted both
    × ((q : Text)
        → IsIn q both ↔ (
            Follows small_root [] (segments_of (bytes "/a/*")) q
            × (exists_dir small_root q ≡ true)))
unfolding expand_pattern sort_texts dir_names exists_dir
expand_pattern_exact_example = expand_pattern_exact small_root (bytes "/a/*") (pos 2) both refl

expand_pattern_bounded_example : length both ≤ 2
unfolding expand_pattern sort_texts dir_names exists_dir
expand_pattern_bounded_example = expand_pattern_bounded small_root (bytes "/a/*") 1 both refl

parse_uint64_exact_example : (parse_uint64 (bytes "42\n") ≡ ok 42) ↔ (
    ((trim_space (bytes "42\n") ≡ max_text) × (◌≡◌ {A = ℕ} 42 0))
    ⊎ ((trim_space (bytes "42\n") ≢ [])
        × AllDigits (trim_space (bytes "42\n"))
        × (value 0 (trim_space (bytes "42\n")) ≡ 42)
        × (42 < u64)))
parse_uint64_exact_example = parse_uint64_exact (bytes "42\n") 42

parse_uint64_reads_example : parse_uint64 (itoa 1024 ++ 10 ∷ []) ≡ ok 1024
parse_uint64_reads_example = parse_uint64_reads 1024 (omega arith)

parse_pids_max-parse_uint64_example :
    (without_flag (parse_pids_max (bytes "max\n")) ≡ parse_uint64 (bytes "max\n"))
    × ((k : ℕ)
        → (parse_pids_max (bytes "max\n") ≡ ok (k, false))
          ↔ ((k ≡ 0) × (trim_space (bytes "max\n") ≡ max_text)))
parse_pids_max-parse_uint64_example = parse_pids_max-parse_uint64 (bytes "max\n")
