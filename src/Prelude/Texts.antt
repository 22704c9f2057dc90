-- ===== src/Prelude/Texts.antt =====
-- Go strings as lists of bytes.
use Prim.Native.Nat.{ℕ, zero, suc, ◌+◌, ◌/◌, ◌%◌}
use Prim.Native.Char.{code}
use Prim.Native.String.{String}
use mathlib.Core.Bool.{Bool, true, false}
use mathlib.Core.List.{List, [], ◌∷◌}
use process_exporter.Prelude.Tests.{if◌then◌else◌, ltb}

abbrev pub Text : Type 0
Text = List ℕ

-- The bytes of a literal, which is ASCII.
abbrev pub bytes : String → Text
bytes String.[] = []
bytes (String.◌∷◌ c s) = code c ∷ bytes s

abbrev pub is_empty : Text → Bool
is_empty [] = true
is_empty (c ∷ s) = false

-- `strconv.Itoa` of a natural number: the decimal digits, with fuel above the number.
unfoldable pub itoa_onto : ℕ → ℕ → Text → Text
itoa_onto zero n rest = rest
itoa_onto (suc f) n rest =
    let digits = (48 + n % 10) ∷ rest in
    let more = itoa_onto f (n / 10) digits in if ltb n 10 then digits else more

unfoldable pub itoa : ℕ → Text
unfolding itoa_onto
itoa n = itoa_onto (suc n) n []
