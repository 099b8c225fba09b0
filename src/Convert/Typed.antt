-- ===== src/Convert/Typed.antt =====
-- convert.go: convertAssign and the types of what it sets.
use rainbowsquirrel.Base.{
  ℕ, ◌≡◌, inl, inr, refl, subst, Bool-cases, Option, none, some, Option-cases, Bytes, ℤ,
  if◌then◌else◌,
}
use rainbowsquirrel.Core.Outcome.{Outcome, ok, fail, panic, ◌>>=◌}
use rainbowsquirrel.Core.Settings.{Settings}
use rainbowsquirrel.Meta.Types.{
  GoType, Methods, scalar_type, time_type, interface_type, pointer_type, slice_type, named, is_byte,
}
use rainbowsquirrel.Meta.Values.{Value, named_value, pointer}
use rainbowsquirrel.Meta.Collect.{scans}
use rainbowsquirrel.Meta.Typing.{
  HasType, InSigned, InUnsigned, time_typed, pointer_typed, named_typed,
}
use rainbowsquirrel.Convert.Cells.{
  DriverCell, null_cell, int_cell, bytes_cell, string_cell, time_cell, Floats, Parsers,
  is_assignable, assign,
}
use rainbowsquirrel.Convert.Assign.{
  parse_time_string, convert_to_time, builtin_convert, assign_null, run_converter, convert_first,
  convert_assign,
}
use rainbowsquirrel.Convert.Targets.{IsCell, zero_value-HasType, assign-HasType}
use rainbowsquirrel.Convert.Sets.{
  Sets, sets, sets_fail, sets_panic, then-Sets, if-Sets, convert_scalar-Sets, convert_to_bytes-Sets,
}

module _ {Location : Type 0} (floats : Floats) (parsers : Parsers)
    (parse_time : Bytes → Bytes → Option Location → Outcome (ℤ × ℤ))
    (scan : GoType → DriverCell → Outcome Value)
    (converter : GoType → Option (DriverCell → Outcome (Option Value))) (cfg : Settings Location)
    (parse_int-InSigned : (s : Bytes) (bits : ℕ) (z : ℤ)
      → parsers.parse_int s bits ≡ ok z
      → InSigned bits z)
    (parse_uint-InUnsigned : (s : Bytes) (bits n : ℕ)
      → parsers.parse_uint s bits ≡ ok n
      → InUnsigned bits n)
    (scan-HasType : (t : GoType) (c : DriverCell) (v : Value)
      → IsCell c
      → scan t c ≡ ok v
      → HasType t v)
    (converter-HasType : (t : GoType) (f : DriverCell → Outcome (Option Value)) (c : DriverCell)
        (v : Value)
      → IsCell c
      → converter t ≡ some f
      → f c ≡ ok (some v)
      → HasType t v) where
  parse_time_string-Sets :
      (s : Bytes)
      → Sets time_type (parse_time_string floats parsers parse_time scan converter cfg s)
  unfolding parse_time_string
  parse_time_string-Sets s =
      then-Sets _ (parse_time cfg.time_layout s cfg.time_location) _
        (λ t. sets (time_typed t.0 t.1))

  convert_to_time-Sets :
      (c : DriverCell)
      → Sets time_type (convert_to_time floats parsers parse_time scan converter cfg c)
  unfolding convert_to_time
  convert_to_time-Sets (time_cell nano offset) = sets (time_typed nano offset)
  convert_to_time-Sets (bytes_cell b) = parse_time_string-Sets b
  convert_to_time-Sets (string_cell s) = parse_time_string-Sets s
  convert_to_time-Sets null_cell = sets_fail
  convert_to_time-Sets _ = sets_fail

  named-Sets :
      (m : Methods) (t : GoType) (r : Outcome Value)
      → Sets t r
      → Sets (named m t) (r >>= λ v. ok (named_value m v))
  named-Sets m t (ok v) (sets typed) = sets (named_typed typed)
  named-Sets m t (fail e) h = sets_fail
  named-Sets m t panic h = sets_panic

  pointer-Sets :
      (t : GoType) (r : Outcome Value)
      → Sets t r
      → Sets (pointer_type t) (r >>= λ v. ok (pointer v))
  pointer-Sets t (ok v) (sets typed) = sets (pointer_typed typed)
  pointer-Sets t (fail e) h = sets_fail
  pointer-Sets t panic h = sets_panic

  named_pointer-Sets :
      (m : Methods) (t : GoType) (r : Outcome Value)
      → Sets t r
      → Sets (named m (pointer_type t)) (r >>= λ v. ok (named_value m (pointer v)))
  named_pointer-Sets m t (ok v) (sets typed) = sets (named_typed (pointer_typed typed))
  named_pointer-Sets m t (fail e) h = sets_fail
  named_pointer-Sets m t panic h = sets_panic

  builtin_convert-Sets :
      (t : GoType) (c : DriverCell)
      → IsCell c
      → Sets t (builtin_convert floats parsers parse_time scan converter cfg t c)
  unfolding builtin_convert
  builtin_convert-Sets (scalar_type k) c h =
      convert_scalar-Sets floats parsers parse_int-InSigned parse_uint-InUnsigned k c
  builtin_convert-Sets (slice_type t) c h = elim (Bool-cases (is_byte t)) [
    | inl byte ↦
        rw byte
          (convert_to_bytes-Sets floats parsers parse_int-InSigned parse_uint-InUnsigned t c h byte)
    | inr other ↦ rw other sets_fail
  ]
  builtin_convert-Sets time_type c h = convert_to_time-Sets c
  builtin_convert-Sets (named m time_type) c h = sets_fail
  builtin_convert-Sets (named m (scalar_type k)) c h =
      named-Sets m _ _ (builtin_convert-Sets (scalar_type k) c h)
  builtin_convert-Sets (named m t) c h = named-Sets m _ _ (builtin_convert-Sets t c h)
  builtin_convert-Sets interface_type c h = sets_fail
  builtin_convert-Sets t c h = sets_fail

  assign_null-Sets :
      (t : GoType) → Sets t (assign_null floats parsers parse_time scan converter cfg t)
  unfolding assign_null
  assign_null-Sets t = if-Sets t _ _ _ (sets (zero_value-HasType t)) sets_fail

  outcome-Sets :
      (t : GoType) (r : Outcome Value) → ((v : Value) → r ≡ ok v → HasType t v) → Sets t r
  outcome-Sets t (ok v) h = sets (h v refl)
  outcome-Sets t (fail e) h = sets_fail
  outcome-Sets t panic h = sets_panic

  converted-Sets :
      (t : GoType) (r : Outcome (Option Value))
      → ((v : Value) → r ≡ ok (some v) → HasType t v)
      → Sets t (
          r >>= λ v. elim v [
            | none ↦ assign_null floats parsers parse_time scan converter cfg t
            | some w ↦ ok w
          ])
  converted-Sets t (ok none) h = assign_null-Sets t
  converted-Sets t (ok (some v)) h = sets (h v refl)
  converted-Sets t (fail e) h = sets_fail
  converted-Sets t panic h = sets_panic

  run_converter-Sets :
      (t : GoType) (f : DriverCell → Outcome (Option Value)) (c : DriverCell)
      → IsCell c
      → converter t ≡ some f
      → Sets t (run_converter floats parsers parse_time scan converter cfg t f c)
  unfolding run_converter
  run_converter-Sets t f c h e =
      converted-Sets t (f c) (λ v done. converter-HasType t f c v h e done)

  scan-Sets : (t : GoType) (c : DriverCell) → IsCell c → Sets t (scan t c)
  scan-Sets t c h = outcome-Sets t (scan t c) (λ v. scan-HasType t c v h)

  cell_first-Sets :
      (t : GoType) (c : DriverCell) (deeper : Outcome Value)
      → IsCell c
      → Sets t deeper
      → Sets t (
          if scans t
          then scan t c
          else if is_assignable c t
          then ok (assign c t)
          else elim (converter t) [
            | none ↦ deeper
            | some f ↦ run_converter floats parsers parse_time scan converter cfg t f c
          ])
  cell_first-Sets t c deeper cell h =
      if-Sets t (scans t) _ _ (scan-Sets t c cell) (elim (Bool-cases (is_assignable c t)) [
        | inl fits ↦ rw fits (sets (assign-HasType c t cell fits))
        | inr other ↦ elim (Option-cases (converter t)) [
          | inl missing ↦ rw (other, missing) h
          | inr (f, found) ↦ rw (other, found) (run_converter-Sets t f c cell found)
        ]
      ])

  convert_first-Sets :
      (t : GoType) (c : DriverCell) (deeper : Outcome Value)
      → IsCell c
      → Sets t deeper
      → Sets t (convert_first floats parsers parse_time scan converter cfg t c deeper)
  unfolding convert_first
  convert_first-Sets t null_cell deeper cell h =
      if-Sets t (scans t) _ _ (scan-Sets t null_cell cell) (assign_null-Sets t)
  convert_first-Sets t (int_cell w z) deeper cell h = cell_first-Sets t (int_cell w z) deeper cell h
  convert_first-Sets t c deeper cell h = cell_first-Sets t c deeper cell h

  pub convert_assign-Sets :
      (t : GoType) (c : DriverCell)
      → IsCell c
      → Sets t (convert_assign floats parsers parse_time scan converter cfg t c)
  unfolding convert_assign
  convert_assign-Sets (pointer_type t) c h =
      convert_first-Sets (pointer_type t) c _ h (pointer-Sets t _ (convert_assign-Sets t c h))
  convert_assign-Sets (named m (pointer_type t)) c h =
      convert_first-Sets (named m (pointer_type t)) c _ h
        (named_pointer-Sets m t _ (convert_assign-Sets t c h))
  convert_assign-Sets (named m interface_type) c h =
      convert_first-Sets (named m interface_type) c _ h
        (builtin_convert-Sets (named m interface_type) c h)
  convert_assign-Sets t c h = convert_first-Sets t c _ h (builtin_convert-Sets t c h)

  Sets_ok : (t : GoType) (r : Outcome Value) (v : Value) → Sets t r → r ≡ ok v → HasType t v
  Sets_ok t (ok w) v (sets typed) e = let same : w ≡ v = cc in subst (λ u. HasType t u) same typed
  Sets_ok t (fail x) v h e = cc
  Sets_ok t panic v h e = cc

  -- If the Scan methods and the registered converters give values of the types that they are for,
  -- and ParseInt and ParseUint numbers of the width that they are asked for, then whatever
  -- convertAssign sets from a cell of Go is a value of the target's type, each integer in the range
  -- of its own type, through pointers and defined types, for NULL and every other cell.
  pub convert_assign-HasType :
      (t : GoType) (c : DriverCell) (v : Value)
      → IsCell c
      → convert_assign floats parsers parse_time scan converter cfg t c ≡ ok v
      → HasType t v
  convert_assign-HasType t c v h e = Sets_ok t _ v (convert_assign-Sets t c h) e
