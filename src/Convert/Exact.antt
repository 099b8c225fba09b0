-- ===== src/Convert/Exact.antt =====
-- convert.go: the numbers that integer cells give to integer targets.
use rainbowsquirrel.Base.{
  ℕ, suc, subst, ◌-◌, ◌^◌, ◌<◌, ◌≡◌, ◌⊎◌, inl, inr, refl, arith, Bool-cases, Option, none, some, ℤ,
  pos, negsuc, of_u64, ltb,
}
use rainbowsquirrel.Core.Errors.{unsupported_type}
use rainbowsquirrel.Core.Outcome.{Outcome, ok, fail}
use rainbowsquirrel.Meta.Values.{Value, int_value, uint_value}
use rainbowsquirrel.Convert.Cells.{
  DriverCell, null_cell, int_cell, uint64_cell, uint_cell, small_uint_cell, Floats, Parsers,
  fits_int, fits_uint, set_int, set_uint,
}
use rainbowsquirrel.Convert.Numbers.{convert_to_int, convert_to_uint}

-- The number that a cell of an integer type holds.
abbrev pub number : DriverCell → Option ℤ
number (int_cell w z) = some z
number (uint64_cell n) = some (pos n)
number (uint_cell n) = some (pos n)
number (small_uint_cell w n) = some (pos n)
number c = none

-- The numbers of the signed and the unsigned type of that width.
abbrev pub IsInt : ℕ → ℤ → Type 0
IsInt bits (pos n) = n < 2 ^ (bits - 1)
IsInt bits (negsuc n) = n < 2 ^ (bits - 1)

abbrev pub IsUint : ℕ → ℤ → Type 0
IsUint bits (pos n) = n < 2 ^ bits
IsUint bits (negsuc n) = ⊥

abbrev pub IsWidth : ℕ → Type 0
IsWidth bits = (bits ≡ 8) ⊎ (bits ≡ 16) ⊎ (bits ≡ 32) ⊎ (bits ≡ 64)

-- A cell of the type uint stays within int64; others are not restricted.
abbrev pub DoesNotWrap : DriverCell → Type 0
DoesNotWrap (uint_cell n) = n < 2 ^ 63
DoesNotWrap c = Unit

-- The value is set if it is in range, and refused if it is not.
abbrev pub SetsOrRefuses : Type 0 → Value → Outcome Value → Type 0
SetsOrRefuses InRange v r = (InRange × (r ≡ ok v)) ⊎ (¬ InRange × (r ≡ fail unsupported_type))

set_int_lem : (bits : ℕ) (z : ℤ) → SetsOrRefuses (IsInt bits z) (int_value bits z) (set_int bits z)
unfolding set_int fits_int
set_int_lem bits (pos n) = elim (Bool-cases (ltb n (2 ^ (bits - 1)))) [
  | inl fits ↦ inl (ground arith, ground arith)
  | inr over ↦ inr (λ h. ground (arith, h), ground arith)
]
set_int_lem bits (negsuc n) = elim (Bool-cases (ltb n (2 ^ (bits - 1)))) [
  | inl fits ↦ inl (ground arith, ground arith)
  | inr over ↦ inr (λ h. ground (arith, h), ground arith)
]

set_uint_lem :
    (bits n : ℕ) → SetsOrRefuses (IsUint bits (pos n)) (uint_value bits n) (set_uint bits n)
unfolding set_uint fits_uint
set_uint_lem bits n = elim (Bool-cases (ltb n (2 ^ bits))) [
  | inl fits ↦ inl (ground arith, ground arith)
  | inr over ↦ inr (λ h. ground (arith, h), ground arith)
]

of_u64_small : (n : ℕ) → n < 2 ^ 63 → of_u64 n ≡ pos n
unfolding of_u64
of_u64_small n h = ground arith

-- The same number without its sign.
abbrev pub magnitude : ℤ → ℕ
magnitude (pos n) = n
magnitude (negsuc n) = suc n

-- No int64 is as large: a width's bound is at most that of int64.
width_bound : (bits n : ℕ) → IsWidth bits → n < 2 ^ (bits - 1) → n < 2 ^ 63
width_bound bits n (inl e) h =
    let below : n < 2 ^ (8 - 1) = subst (λ b. n < 2 ^ (b - 1)) e h in omega (arith, below)
width_bound bits n (inr (inl e)) h =
    let below : n < 2 ^ (16 - 1) = subst (λ b. n < 2 ^ (b - 1)) e h in omega (arith, below)
width_bound bits n (inr (inr (inl e))) h =
    let below : n < 2 ^ (32 - 1) = subst (λ b. n < 2 ^ (b - 1)) e h in omega (arith, below)
width_bound bits n (inr (inr (inr e))) h =
    let below : n < 2 ^ (64 - 1) = subst (λ b. n < 2 ^ (b - 1)) e h in omega (arith, below)

module _ (floats : Floats) (parsers : Parsers) where
  convert_to_int_lem :
      (bits : ℕ) (c : DriverCell) (z : ℤ)
      → IsWidth bits
      → DoesNotWrap c
      → number c ≡ some z
      → SetsOrRefuses (IsInt bits z) (int_value bits z) (convert_to_int floats parsers bits c)
  unfolding convert_to_int
  convert_to_int_lem bits (int_cell w y) z width kept e =
      let same : y ≡ z = cc in
      subst (λ x. SetsOrRefuses (IsInt bits x) (int_value bits x) (set_int bits y)) same
        (set_int_lem bits y)
  convert_to_int_lem bits (small_uint_cell w n) z width kept e =
      let same : pos n ≡ z = cc in
      subst (λ x. SetsOrRefuses (IsInt bits x) (int_value bits x) (set_int bits (pos n))) same
        (set_int_lem bits (pos n))
  convert_to_int_lem bits (uint_cell n) z width kept e =
      let same : pos n ≡ z = cc in
      subst (λ x. SetsOrRefuses (IsInt bits x) (int_value bits x) (set_int bits (of_u64 n))) same
        (rw (of_u64_small n kept) (set_int_lem bits (pos n)))
  convert_to_int_lem bits (uint64_cell n) z width kept e =
      let same : pos n ≡ z = cc in
      subst
        (λ x.
          SetsOrRefuses (IsInt bits x) (int_value bits x)
            (convert_to_int floats parsers bits (uint64_cell n)))
        same
        (elim (Bool-cases (ltb (2 ^ 63 - 1) n)) [
          | inl over ↦ inr (λ h. absurd (ground (arith, width_bound bits n width h)), ground arith)
          | inr within ↦
              let kind : convert_to_int floats parsers bits (uint64_cell n) ≡ set_int bits (pos n) =
                rw (within, of_u64_small n (ground arith)) refl in
              rw kind (set_int_lem bits (pos n))
        ])
  convert_to_int_lem bits null_cell z width kept e = cc
  convert_to_int_lem bits _ z width kept e = cc

  convert_to_uint_lem :
      (bits : ℕ) (c : DriverCell) (z : ℤ)
      → number c ≡ some z
      → SetsOrRefuses
          (IsUint bits z)
          (uint_value bits (magnitude z))
          (convert_to_uint floats parsers bits c)
  unfolding convert_to_uint
  convert_to_uint_lem bits (int_cell w (pos n)) z e =
      let same : pos n ≡ z = cc in
      subst (λ x. SetsOrRefuses (IsUint bits x) (uint_value bits (magnitude x)) (set_uint bits n))
        same (set_uint_lem bits n)
  convert_to_uint_lem bits (int_cell w (negsuc n)) z e =
      let same : negsuc n ≡ z = cc in
      subst
        (λ x. SetsOrRefuses (IsUint bits x) (uint_value bits (magnitude x)) (fail unsupported_type))
        same (inr (λ h. h, refl))
  convert_to_uint_lem bits (small_uint_cell w n) z e =
      let same : pos n ≡ z = cc in
      subst (λ x. SetsOrRefuses (IsUint bits x) (uint_value bits (magnitude x)) (set_uint bits n))
        same (set_uint_lem bits n)
  convert_to_uint_lem bits (uint_cell n) z e =
      let same : pos n ≡ z = cc in
      subst (λ x. SetsOrRefuses (IsUint bits x) (uint_value bits (magnitude x)) (set_uint bits n))
        same (set_uint_lem bits n)
  convert_to_uint_lem bits (uint64_cell n) z e =
      let same : pos n ≡ z = cc in
      subst (λ x. SetsOrRefuses (IsUint bits x) (uint_value bits (magnitude x)) (set_uint bits n))
        same (set_uint_lem bits n)
  convert_to_uint_lem bits null_cell z e = cc
  convert_to_uint_lem bits _ z e = cc

  -- A cell of an integer type, of uint only within int64, is set in a signed integer target of 8,
  -- 16, 32 or 64 bits with its own number if that is in the target's range, and refused with
  -- ErrUnsupportedType if not; the same holds of an unsigned target.
  pub convert_exact :
      (bits : ℕ) (c : DriverCell) (z : ℤ)
      → IsWidth bits
      → DoesNotWrap c
      → number c ≡ some z
      → SetsOrRefuses (IsInt bits z) (int_value bits z) (convert_to_int floats parsers bits c)
        × SetsOrRefuses
            (IsUint bits z)
            (uint_value bits (magnitude z))
            (convert_to_uint floats parsers bits c)
  convert_exact bits c z width kept e =
      (convert_to_int_lem bits c z width kept e, convert_to_uint_lem bits c z e)
