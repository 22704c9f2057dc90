-- ===== src/Cgroup/Strings.antt =====
-- What the parsers use of Go's `strings`, `strconv` and `bufio`, on bytes. The pseudo-files are
-- ASCII, so white space is ASCII white space.
use process_exporter.Prelude.{
  ℕ, ◌+◌, ◌-◌, ◌*◌, Bool, true, false, ◌&&◌, ◌||◌, Option, none, some, List, [], ◌∷◌, Text, ltb,
  leb, if◌then◌else◌, nat_beq, is_empty, length, u64,
}

-- `unicode.IsSpace` of an ASCII character
unfoldable pub is_space : ℕ → Bool
is_space c = nat_beq c 32 || (leb 9 c && leb c 13)

-- `strings.TrimLeft(s, " ...")`, `strings.TrimRight` and `strings.TrimSpace`
unfoldable pub trim_left : Text → Text
unfolding is_space
trim_left [] = []
trim_left (c ∷ s) = let rest = trim_left s in if is_space c then rest else c ∷ s

unfoldable pub trim_right : Text → Text
unfolding is_space
trim_right [] = []
trim_right (c ∷ s) = let rest = trim_right s in if is_space c && is_empty rest then [] else c ∷ rest

unfoldable pub trim_space : Text → Text
unfolding trim_left trim_right
trim_space s = trim_right (trim_left s)

-- `strings.Cut(s, sep)` for a separator of one byte; `none` is `found == false`
abbrev pub before_cut : ℕ → Option (Text × Text) → Option (Text × Text)
before_cut c none = none
before_cut c (some (key, val)) = some (c ∷ key, val)

unfoldable pub cut : ℕ → Text → Option (Text × Text)
cut sep [] = none
cut sep (c ∷ s) =
    let rest = before_cut c (cut sep s) in if nat_beq c sep then some ([], s) else rest

-- `strings.Fields(s)`: a character begins a new field if white space or nothing follows it, and
-- otherwise stands before the field that follows.
abbrev pub first_word : ℕ → List Text → Bool → List Text
first_word c words true = (c ∷ []) ∷ words
first_word c [] false = (c ∷ []) ∷ []
first_word c (w ∷ words) false = (c ∷ w) ∷ words

abbrev pub starts_with_space : Text → Bool
starts_with_space [] = true
starts_with_space (c ∷ s) = is_space c

unfoldable pub fields : Text → List Text
unfolding is_space
fields [] = []
fields (c ∷ s) =
    let rest = fields s in if is_space c then rest else first_word c rest (starts_with_space s)

-- The lines of `bufio.ScanLines`, without their line feeds.
abbrev pub onto_line : ℕ → List Text → List Text
onto_line c [] = (c ∷ []) ∷ []
onto_line c (l ∷ lines) = (c ∷ l) ∷ lines

unfoldable pub raw_lines : Text → List Text
raw_lines [] = []
raw_lines (c ∷ s) = let rest = raw_lines s in if nat_beq c 10 then [] ∷ rest else onto_line c rest

-- `dropCR`
unfoldable pub drop_cr : Text → Text
drop_cr [] = []
drop_cr (c ∷ []) = if nat_beq c 13 then [] else c ∷ []
drop_cr (c ∷ d ∷ s) = c ∷ drop_cr (d ∷ s)

-- What a `bufio.Scanner` yields: the lines before the first that does not fit into its buffer of
-- 64 KiB, and whether there is such a line, which `Err` reports.
abbrev pub max_token : ℕ
max_token = 65536

unfoldable pub fitting : List Text → List Text × Bool
unfolding drop_cr
fitting [] = ([], false)
fitting (l ∷ lines) =
    let (rest, too_long) = fitting lines in
    if ltb (length l) max_token then (drop_cr l ∷ rest, too_long) else ([], true)

unfoldable pub scan_lines : Text → List Text × Bool
unfolding raw_lines fitting
scan_lines s = fitting (raw_lines s)

-- The errors of `strconv.ParseUint`.
pub data NumError : Type 0 where
  syntax range : NumError

pub data Num : Type 0 where
  num : ℕ → Num
  bad : NumError → Num

abbrev pub is_digit : ℕ → Bool
is_digit c = leb 48 c && leb c 57

-- `maxUint64 / 10 + 1`
abbrev pub cutoff : ℕ
cutoff = 1844674407370955162

-- The loop of `strconv.ParseUint(s, 10, 64)`: the first character that is no digit, or the first
-- digit that passes 2^64 - 1, ends it.
unfoldable pub parse_digits : ℕ → Text → Num
parse_digits n [] = num n
parse_digits n (c ∷ s) =
    let n1 = n * 10 + (c - 48) in
    let rest = parse_digits n1 s in
    if is_digit c
    then if leb cutoff n then bad range else if leb u64 n1 then bad range else rest
    else bad syntax

unfoldable pub parse_uint : Text → Num
unfolding parse_digits
parse_uint [] = bad syntax
parse_uint (c ∷ s) = parse_digits 0 (c ∷ s)
