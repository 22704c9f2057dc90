-- ===== src/Cgroup/Psi.antt =====
-- cgroup/psi.go: pressure files.
use process_exporter.Prelude.{
  ℕ, Option, none, some, List, [], ◌∷◌, Text, bytes, ◌==◌, if◌then◌else◌, is_empty, bytes_eq,
  Float64,
}
use process_exporter.Cgroup.Strings.{
  trim_space, cut, fields, scan_lines, NumError, Num, num, bad, parse_uint,
}

pub record PsiLine (F : Type 0) : Type 0 where
  pub avg10 : F
  pub avg60 : F
  pub avg300 : F
  pub total : ℕ

-- `none` is a nil pointer.
pub record PsiStats (F : Type 0) : Type 0 where
  pub some_line : Option (PsiLine F)
  pub full_line : Option (PsiLine F)

pub data PsiError : Type 0 where
  malformed_line malformed_field bad_avg unknown_kind too_long : PsiError
  bad_total : NumError → PsiError

pub data PsiResult {ℓ} (A : Type ℓ) : Type ℓ where
  ok : A → PsiResult A
  err : PsiError → PsiResult A

infixl 5 ◌>>=◌
abbrev pub ◌>>=◌ {ℓ κ} : {A : Type ℓ} {B : Type κ} → PsiResult A → (A → PsiResult B) → PsiResult B
ok a >>= f = f a
err e >>= f = err e

-- The keys of `avgFields`.
pub data Window : Type 0 where
  avg10 avg60 avg300 : Window

unfoldable pub avg_field : Text → Option Window
avg_field key =
    if key == bytes "avg10"
    then some avg10
    else if key == bytes "avg60"
    then some avg60
    else if key == bytes "avg300"
    then some avg300
    else none

module _ {F : Type 0} where
  -- `*dst = f`
  unfoldable pub set_avg : Window → F → PsiLine F → PsiLine F
  set_avg avg10 f psi = record psi { avg10 = f }
  set_avg avg60 f psi = record psi { avg60 = f }
  set_avg avg300 f psi = record psi { avg300 = f }

  unfoldable pub set_avg_text : Window → Option F → PsiLine F → PsiResult (PsiLine F)
  unfolding set_avg
  set_avg_text w none psi = err bad_avg
  set_avg_text w (some f) psi = ok (set_avg w f psi)

  unfoldable pub set_total : Num → PsiLine F → PsiResult (PsiLine F)
  set_total (num u) psi = ok (record psi { total = u })
  set_total (bad e) psi = err (bad_total e)

module _ {F : Type 0} ⦃fl : Float64 F⦄ where
  -- One `key=value` with its key looked up; a key that is not known is ignored.
  unfoldable pub set_field : Option Window → Text → Text → PsiLine F → PsiResult (PsiLine F)
  unfolding set_avg_text set_total parse_uint
  set_field (some w) key val psi = set_avg_text w (fl.parse_float val) psi
  set_field none key val psi =
      if key == bytes "total" then set_total (parse_uint val) psi else ok psi

  unfoldable pub set_pair : Option (Text × Text) → PsiLine F → PsiResult (PsiLine F)
  unfolding set_field avg_field
  set_pair none psi = err malformed_field
  set_pair (some (key, val)) psi = set_field (avg_field key) key val psi

  unfoldable pub set_pairs : List Text → PsiLine F → PsiResult (PsiLine F)
  unfolding set_pair cut
  set_pairs [] psi = ok psi
  set_pairs (kv ∷ kvs) psi = do psi' ← set_pair (cut 61 kv) psi; set_pairs kvs psi'

  unfoldable pub zero_line : PsiLine F
  zero_line = record { avg10 = fl.fzero; avg60 = fl.fzero; avg300 = fl.fzero; total = 0 }

  -- `parsePSILine(line)` after the line is split: there must be two fields.
  unfoldable pub parse_fields : List Text → PsiResult (Text × PsiLine F)
  unfolding set_pairs zero_line
  parse_fields [] = err malformed_line
  parse_fields (kind ∷ []) = err malformed_line
  parse_fields (kind ∷ kv ∷ kvs) = do psi ← set_pairs (kv ∷ kvs) zero_line; ok (kind, psi)

  unfoldable pub parse_psi_line : Text → PsiResult (Text × PsiLine F)
  unfolding parse_fields fields
  parse_psi_line line = parse_fields (fields line)

  -- The switch on the kind of the line.
  unfoldable pub store_line : Text × PsiLine F → PsiStats F → PsiResult (PsiStats F)
  store_line (kind, psi) stats =
      if kind == bytes "some"
      then ok (record stats { some_line = some psi })
      else if kind == bytes "full"
      then ok (record stats { full_line = some psi })
      else err unknown_kind

  unfoldable pub psi_line : Text → PsiStats F → PsiResult (PsiStats F)
  unfolding parse_psi_line store_line
  psi_line line stats =
      let parsed = (do r ← parse_psi_line line; store_line r stats) in
      if is_empty line then ok stats else parsed

  unfoldable pub psi_lines : List Text → PsiStats F → PsiResult (PsiStats F)
  unfolding psi_line trim_space
  psi_lines [] stats = ok stats
  psi_lines (l ∷ lines) stats = do stats' ← psi_line (trim_space l) stats; psi_lines lines stats'

  abbrev pub no_stats : PsiStats F
  no_stats = record { some_line = none; full_line = none }

  -- `ParsePSI(content)`: an error of a line comes before an error of the scanner.
  unfoldable pub parse_psi : Text → PsiResult (PsiStats F)
  unfolding psi_lines scan_lines
  parse_psi content = do
    stats ← psi_lines (scan_lines content).0 no_stats
    if (scan_lines content).1 then err too_long else ok stats
