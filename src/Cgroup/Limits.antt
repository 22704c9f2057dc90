-- ===== src/Cgroup/Limits.antt =====
-- `ParsePidsMax` against `ParseUint64`: what "max" means to each.
use process_exporter.Prelude.{
  ℕ, ◌≡◌, refl, ◌↔◌, true, false, Text, bytes_eq, ◌==◌, is_empty, if◌then◌else◌, Bool, ◌≢◌, arith,
  ◌∷◌, [],
}
use process_exporter.Cgroup.Strings.{trim_space, Num, num, bad, parse_uint}
use process_exporter.Cgroup.Stat.{
  Parsed, ok, err, from_num, max_text, parse_uint64, parse_pids_max, empty_value,
}

-- What `ParseUint64` makes of a limit: one that is not set is 0.
abbrev pub without_flag : Parsed (ℕ × Bool) → Parsed ℕ
without_flag (ok (n, limited)) = ok n
without_flag (err e) = err e

without_flag-from_num : (n : Num) → without_flag (from_num (λ k. (k, true)) n) ≡ from_num (λ k. k) n
without_flag-from_num (num n) = refl
without_flag-from_num (bad e) = refl

limited_max : (n : Num) (k : ℕ) → from_num {A = ℕ × Bool} (λ m. (m, true)) n ≢ ok (k, false)
limited_max (num n) k e = ground (arith, e)
limited_max (bad x) k e = ground (arith, e)

unfoldable with_flag : Num → Parsed (ℕ × Bool)
with_flag n = from_num (λ k. (k, true)) n

limits_agree :
    {M : Type 0} (b : Bool) (n : Num)
    → (b ≡ true) ↔ M
    → (without_flag (if b then ok (0, false) else with_flag n)
        ≡ (if b then ok 0 else from_num (λ k. k) n))
      × ((k : ℕ) → ((if b then ok (0, false) else with_flag n) ≡ ok (k, false)) ↔ ((k ≡ 0) × M))
unfolding with_flag
limits_agree true n h =
    (refl, λ k. ((λ e. ((ground (arith, e)), h.0 refl)), λ e. ground (arith, e.0)))
limits_agree false n h = (
  without_flag-from_num n,
  λ k. ((λ e. elim (limited_max n k e) [ ]), λ e. ground (arith, h.1 e.1)),
)

limits_agree_text :
    (s : Text)
    → (without_flag (
          if is_empty s
          then err empty_value
          else if s == max_text
          then ok (0, false)
          else with_flag (parse_uint s))
        ≡ (if is_empty s
            then err empty_value
            else if s == max_text
            then ok 0
            else from_num (λ k. k) (parse_uint s)))
      × ((k : ℕ)
          → ((if is_empty s
                then err empty_value
                else if s == max_text
                then ok (0, false)
                else with_flag (parse_uint s))
              ≡ ok (k, false))
            ↔ ((k ≡ 0) × (s ≡ max_text)))
limits_agree_text [] = (refl, λ k. ((λ e. ground (arith, e)), λ e. ground (arith, e.1)))
limits_agree_text (c ∷ s) =
    limits_agree ((c ∷ s) == max_text) (parse_uint (c ∷ s)) (bytes_eq.equal_iff (c ∷ s) max_text)

-- `ParsePidsMax` fails with the error of `ParseUint64` where that fails, and otherwise returns its
-- value; and it says that there is no limit exactly if the content without the white space around
-- it is the literal "max".
pub parse_pids_max-parse_uint64 :
    (content : Text)
    → (without_flag (parse_pids_max content) ≡ parse_uint64 content)
      × ((k : ℕ)
          → (parse_pids_max content ≡ ok (k, false)) ↔ ((k ≡ 0) × (trim_space content ≡ max_text)))
unfolding parse_pids_max parse_uint64 with_flag
parse_pids_max-parse_uint64 content = limits_agree_text (trim_space content)
