-- ===== src/Cgroup/Stat.antt =====
-- cgroup/stat.go: single values, `pids.max`, "key value" files and `io.stat`.
use process_exporter.Prelude.{
  ℕ, Bool, true, false, Option, none, some, List, [], ◌∷◌, Text, bytes, ◌==◌, if◌then◌else◌, Map,
  put, is_empty, bytes_eq,
}
use process_exporter.Cgroup.Strings.{
  trim_space, cut, fields, scan_lines, NumError, Num, num, bad, parse_uint,
}

-- Why a parser fails: an empty file, a number, or a line that is too long for the scanner.
pub data ParseError : Type 0 where
  empty_value too_long : ParseError
  bad_number : NumError → ParseError

pub data Parsed {ℓ} (A : Type ℓ) : Type ℓ where
  ok : A → Parsed A
  err : ParseError → Parsed A

abbrev pub from_num {ℓ} : {A : Type ℓ} → (ℕ → A) → Num → Parsed A
from_num f (num n) = ok (f n)
from_num f (bad e) = err (bad_number e)

-- The literal "max".
abbrev pub max_text : Text
max_text = bytes "max"

-- `ParseUint64(content)`
unfoldable pub parse_uint64 : Text → Parsed ℕ
unfolding trim_space parse_uint
parse_uint64 content =
    let s = trim_space content in
    if is_empty s
    then err empty_value
    else if s == max_text
    then ok 0
    else from_num (λ n. n) (parse_uint s)

-- `ParsePidsMax(content)`: the limit, and whether there is one
unfoldable pub parse_pids_max : Text → Parsed (ℕ × Bool)
unfolding trim_space parse_uint
parse_pids_max content =
    let s = trim_space content in
    if is_empty s
    then err empty_value
    else if s == max_text
    then ok (0, false)
    else from_num (λ n. (n, true)) (parse_uint s)

-- A value that is put into a map if it is a number.
abbrev pub put_num : Text → Num → Map Text ℕ → Map Text ℕ
put_num key (num u) out = put key u out
put_num key (bad e) out = out

abbrev pub put_keyed : Option (Text × Text) → Map Text ℕ → Map Text ℕ
put_keyed none out = out
put_keyed (some (key, val)) out = put_num key (parse_uint (trim_space val)) out

-- The body of the loop of `ParseKeyed`: the value after the first space.
unfoldable pub keyed_line : Text → Map Text ℕ → Map Text ℕ
unfolding cut trim_space parse_uint
keyed_line text out =
    let line = trim_space text in if is_empty line then out else put_keyed (cut 32 line) out

unfoldable pub keyed_lines : List Text → Map Text ℕ → Map Text ℕ
unfolding keyed_line
keyed_lines [] out = out
keyed_lines (l ∷ lines) out = keyed_lines lines (keyed_line l out)

-- `out, nil`, unless the scanner has an error
abbrev pub unless_too_long {ℓ} : {A : Type ℓ} → Bool → A → Parsed A
unless_too_long true out = err too_long
unless_too_long false out = ok out

-- `ParseKeyed(content)`
unfoldable pub parse_keyed : Text → Parsed (Map Text ℕ)
unfolding scan_lines keyed_lines
parse_keyed content =
    let (lines, long) = scan_lines content in unless_too_long long (keyed_lines lines [])

-- The counters `key=value` of one device.
abbrev pub put_counter : Option (Text × Text) → Map Text ℕ → Map Text ℕ
put_counter none counters = counters
put_counter (some (key, val)) counters = put_num key (parse_uint val) counters

unfoldable pub io_counters : List Text → Map Text ℕ → Map Text ℕ
unfolding cut parse_uint
io_counters [] counters = counters
io_counters (pair ∷ pairs) counters = io_counters pairs (put_counter (cut 61 pair) counters)

-- A line of `io.stat`: the device is the first field.
abbrev pub put_device : List Text → Map Text (Map Text ℕ) → Map Text (Map Text ℕ)
put_device [] out = out
put_device (dev ∷ pairs) out = put dev (io_counters pairs []) out

unfoldable pub io_line : Text → Map Text (Map Text ℕ) → Map Text (Map Text ℕ)
unfolding trim_space fields io_counters
io_line text out =
    let line = trim_space text in if is_empty line then out else put_device (fields line) out

unfoldable pub io_lines : List Text → Map Text (Map Text ℕ) → Map Text (Map Text ℕ)
unfolding io_line
io_lines [] out = out
io_lines (l ∷ lines) out = io_lines lines (io_line l out)

-- `ParseIOStat(content)`
unfoldable pub parse_io_stat : Text → Parsed (Map Text (Map Text ℕ))
unfolding scan_lines io_lines
parse_io_stat content =
    let (lines, long) = scan_lines content in unless_too_long long (io_lines lines [])
