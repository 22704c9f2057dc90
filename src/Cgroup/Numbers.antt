-- ===== src/Cgroup/Numbers.antt =====
-- `strconv.ParseUint` against an independent description of decimal numbers, and its round trip
-- with `strconv.Itoa`.
use process_exporter.Prelude.{
  ℕ, zero, suc, ◌+◌, ◌-◌, ◌*◌, ◌/◌, ◌%◌, ◌≤◌, ◌<◌, ◌≡◌, ◌≢◌, refl, ◌∙◌, ◌↔◌, true, false, [], ◌∷◌,
  arith, Text, All, u64, itoa, itoa_onto, if_both, ltb, ap, ◌++◌, ◌⊎◌, subst, Bool, if◌then◌else◌,
  inr, inl, is_empty, sym, ◌==◌, bytes_eq,
}
use process_exporter.Cgroup.Stat.{ok, empty_value, err, from_num, max_text, parse_uint64}
use process_exporter.Cgroup.Strings.{
  is_space, trim_left, trim_right, trim_space, num, is_digit, parse_digits, parse_uint, Num, bad,
}

-- The number that digits spell, after those that spell `n`.
unfoldable pub value : ℕ → Text → ℕ
value n [] = n
value n (c ∷ s) = value (n * 10 + (c - 48)) s

abbrev pub AllDigits : Text → Type 0
AllDigits s = All (λ c. is_digit c ≡ true) s

le-value : (n : ℕ) (s : Text) → n ≤ value n s
unfolding value
le-value n [] = omega arith
le-value n (c ∷ s) = omega (arith, le-value (n * 10 + (c - 48)) s)

parse_digits_sound :
    (n m : ℕ) (s : Text)
    → n < u64
    → parse_digits n s ≡ num m
    → AllDigits s × (value n s ≡ m) × (m < u64)
unfolding parse_digits value
parse_digits_sound n m [] h e = ground (arith, h, e)
parse_digits_sound n m (c ∷ s) h e =
    ground (arith, h, e, parse_digits_sound (n * 10 + (c - 48)) m s)

parse_digits_complete :
    (n : ℕ) (s : Text) → AllDigits s → value n s < u64 → parse_digits n s ≡ num (value n s)
unfolding parse_digits value
parse_digits_complete n [] d h = refl
parse_digits_complete n (c ∷ s) d h =
    ground (
      arith,
      parse_digits_complete (n * 10 + (c - 48)) s d.1 h,
      le-value (n * 10 + (c - 48)) s,
      d.0,
    )

value-itoa_onto : (f n : ℕ) (rest : Text) → n < f → value 0 (itoa_onto f n rest) ≡ value n rest
unfolding itoa_onto value
value-itoa_onto zero n rest h = elim h [ ]
value-itoa_onto (suc f) n rest h = ground (arith, value-itoa_onto f (n / 10) ((48 + n % 10) ∷ rest))

itoa_onto-AllDigits : (f n : ℕ) (rest : Text) → AllDigits rest → AllDigits (itoa_onto f n rest)
unfolding itoa_onto
itoa_onto-AllDigits zero n rest h = h
itoa_onto-AllDigits (suc f) n rest h =
    if_both AllDigits (ltb n 10) (digit, h)
      (itoa_onto-AllDigits f (n / 10) ((48 + n % 10) ∷ rest) (digit, h))
  where
    digit : is_digit (48 + n % 10) ≡ true
    digit = ground arith

-- `strconv.ParseUint(s, 10, 64)` accepts a text as the number `m` exactly if the text is not empty,
-- has only digits, spells `m`, and `m` is below 2^64. So there is no wrap-around.
parse_uint_exact :
    (s : Text) (m : ℕ)
    → (parse_uint s ≡ num m) ↔ ((s ≢ []) × AllDigits s × (value 0 s ≡ m) × (m < u64))
unfolding parse_uint
parse_uint_exact [] m = (λ e. ground (arith, e), λ h. elim (h.0 refl) [ ])
parse_uint_exact (c ∷ s) m = (
  λ e.
      let (d, v, below) = parse_digits_sound 0 m (c ∷ s) (omega arith) e in
      ((λ w. ground (arith, w)), d, v, below),
  λ h.
      let (_, d, v, below) = h in
      parse_digits_complete 0 (c ∷ s) d (omega (arith, v, below)) ∙ ap num v,
)

itoa_onto_nonempty : (f n c : ℕ) (rest : Text) → itoa_onto f n (c ∷ rest) ≢ []
unfolding itoa_onto
itoa_onto_nonempty zero n c rest = λ e. ground (arith, e)
itoa_onto_nonempty (suc f) n c rest =
    if_both (λ s. s ≢ []) (ltb n 10) (λ e. ground (arith, e))
      (itoa_onto_nonempty f (n / 10) (48 + n % 10) (c ∷ rest))

-- What `strconv.Itoa` prints.
itoa_lem : (n : ℕ) → (itoa n ≢ []) × AllDigits (itoa n) × (value 0 (itoa n) ≡ n)
unfolding itoa value
itoa_lem n = (
  if_both (λ s. s ≢ []) (ltb n 10) (λ e. ground (arith, e))
      (itoa_onto_nonempty n (n / 10) (48 + n % 10) []),
  itoa_onto-AllDigits (suc n) n [] tt,
  value-itoa_onto (suc n) n [] (omega arith),
)

from_num_inv : (n : Num) (m : ℕ) → from_num (λ k. k) n ≡ ok m → n ≡ num m
from_num_inv (num n) m e = ground (arith, e)
from_num_inv (bad x) m e = ground (arith, e)

-- The digits of a number, and a line feed, hold no other white space.
trim_right-AllDigits : (s : Text) → AllDigits s → trim_right (s ++ 10 ∷ []) ≡ s
unfolding trim_right is_space
trim_right-AllDigits [] d = refl
trim_right-AllDigits (c ∷ s) d = ground (arith, trim_right-AllDigits s d.1, d.0)

trim_left-AllDigits : (s : Text) → s ≢ [] → AllDigits s → trim_left (s ++ 10 ∷ []) ≡ s ++ 10 ∷ []
unfolding trim_left is_space
trim_left-AllDigits [] ne d = elim (ne refl) [ ]
trim_left-AllDigits (c ∷ s) ne d = ground (arith, d.0)

trim_space-AllDigits : (s : Text) → s ≢ [] → AllDigits s → trim_space (s ++ 10 ∷ []) ≡ s
unfolding trim_space
trim_space-AllDigits s ne d = ap trim_right (trim_left-AllDigits s ne d) ∙ trim_right-AllDigits s d

max-AllDigits : (s : Text) → s ≡ max_text → ¬ AllDigits s
max-AllDigits s e d = ground (arith, (subst AllDigits e d).0)

exact_if :
    (b : Bool) (s : Text) (m : ℕ)
    → (b ≡ true) ↔ (s ≡ max_text)
    → ((if b then ok 0 else from_num (λ k. k) (parse_uint s)) ≡ ok m)
      ↔ (((s ≡ max_text) × (m ≡ 0)) ⊎ ((s ≢ []) × AllDigits s × (value 0 s ≡ m) × (m < u64)))
exact_if true s m h = (
  (λ e. inl (h.0 refl, ground (arith, e))),
  λ q. elim q [ inl p ↦ ap ok (sym p.1) | inr p ↦ elim (max-AllDigits s (h.0 refl) p.1) [ ] ],
)
exact_if false s m h = (
  (λ e. inr ((parse_uint_exact s m).0 (from_num_inv (parse_uint s) m e))),
  λ q. elim q [
    | inl p ↦ ground (arith, h.1 p.0)
    | inr p ↦ ap (from_num (λ k. k)) ((parse_uint_exact s m).1 p)
  ],
)

exact_text :
    (s : Text) (m : ℕ)
    → ((if is_empty s
          then err empty_value
          else if s == max_text
          then ok 0
          else from_num (λ k. k) (parse_uint s))
        ≡ ok m)
      ↔ (((s ≡ max_text) × (m ≡ 0)) ⊎ ((s ≢ []) × AllDigits s × (value 0 s ≡ m) × (m < u64)))
exact_text [] m = (
  (λ e. ground (arith, e)),
  λ q. elim q [ inl p ↦ ground (arith, p.0) | inr p ↦ elim (p.0 refl) [ ] ],
)
exact_text (c ∷ s) m =
    exact_if ((c ∷ s) == max_text) (c ∷ s) m (bytes_eq.equal_iff (c ∷ s) max_text)

-- `ParseUint64` returns `m` exactly if the content without the white space around it is the literal
-- "max" and `m` is 0, or if it has one digit or more and nothing else, spells `m`, and `m` is below
-- 2^64. So there is no wrap-around.
pub parse_uint64_exact :
    (content : Text) (m : ℕ)
    → (parse_uint64 content ≡ ok m) ↔ (
        ((trim_space content ≡ max_text) × (m ≡ 0))
        ⊎ ((trim_space content ≢ [])
            × AllDigits (trim_space content)
            × (value 0 (trim_space content) ≡ m)
            × (m < u64)))
unfolding parse_uint64
parse_uint64_exact content m = exact_text (trim_space content) m

-- `ParseUint64` reads back every number below 2^64 that is printed with its decimal digits and a
-- line feed, as the kernel prints `memory.current`.
pub parse_uint64_reads : (n : ℕ) → n < u64 → parse_uint64 (itoa n ++ 10 ∷ []) ≡ ok n
parse_uint64_reads n h =
    let (ne, d, v) = itoa_lem n in
    let trimmed = trim_space-AllDigits (itoa n) ne d in
    (parse_uint64_exact (itoa n ++ 10 ∷ []) n).1 (
      inr (
        subst (λ s. (s ≢ []) × AllDigits s × (value 0 s ≡ n) × (n < u64)) (sym trimmed)
          (ne, d, v, h)))
