-- ===== src/Tests/Convert.antt =====
-- convert.go on concrete cells.
use rainbowsquirrel.Base.{
  ℕ, ◌≡◌, refl, inl, false, [], Option, none, Bytes, ℤ, pos, negsuc, of_u64, codes, arith,
}
use rainbowsquirrel.Bind.Rebind.{question}
use rainbowsquirrel.Core.Errors.{foreign, null_not_allowed}
use rainbowsquirrel.Core.Outcome.{Outcome, ok, fail}
use rainbowsquirrel.Core.Settings.{Settings}
use rainbowsquirrel.Meta.Types.{GoType, scalar_type, pointer_type, int_kind, bool_kind, is_pointer}
use rainbowsquirrel.Meta.Values.{Value, int_value, uint_value, pointer}
use rainbowsquirrel.Meta.Collect.{scans}
use rainbowsquirrel.Meta.Typing.{HasType}
use rainbowsquirrel.Convert.Cells.{
  DriverCell, null_cell, uint64_cell, uint_cell, Floats, Parsers, fits_int, set_int, is_assignable,
}
use rainbowsquirrel.Convert.Numbers.{convert_to_int, convert_to_uint, convert_scalar}
use rainbowsquirrel.Convert.Assign.{builtin_convert, assign_null, convert_first, convert_assign}
use rainbowsquirrel.Convert.Exact.{IsInt, IsUint, magnitude, SetsOrRefuses, convert_exact}
use rainbowsquirrel.Convert.Typed.{convert_assign-HasType}

-- Floats of no use: none is converted here.
abbrev pub floats : Floats
floats = record {
  beyond_i64 = λ n. false;
  beyond_u64 = λ n. false;
  is_negative = λ w n. false;
  to_int = λ w n. pos 0;
  to_uint = λ w n. 0;
  widen = λ w n. n;
  of_int = λ z. 0;
  overflows = λ w n. false;
  narrow = λ w n. n;
}

abbrev pub parsers : Parsers
parsers = record {
  parse_int = λ s bits. fail (foreign 1);
  parse_uint = λ s bits. fail (foreign 1);
  parse_float = λ s bits. fail (foreign 1);
  parse_bool = λ s. fail (foreign 1);
}

abbrev pub parse_time : Bytes → Bytes → Option ℕ → Outcome (ℤ × ℤ)
parse_time layout s location = fail (foreign 2)

abbrev pub scan : GoType → DriverCell → Outcome Value
scan t c = fail (foreign 3)

abbrev pub converter : GoType → Option (DriverCell → Outcome (Option Value))
converter t = none

abbrev pub config : Settings ℕ
config = record {
  tag_name = codes "db";
  name_mapper = λ s. s;
  placeholder = question;
  strict_mode = false;
  slice_expansion = false;
  null_to_zero = false;
  time_location = none;
  time_layout = [];
  map_key_func = λ s. s;
}

convert_exact_example :
    SetsOrRefuses
      (IsInt 8 (pos 200))
      (int_value 8 (pos 200))
      (convert_to_int floats parsers 8 (uint_cell 200))
    × SetsOrRefuses
        (IsUint 8 (pos 200))
        (uint_value 8 (magnitude (pos 200)))
        (convert_to_uint floats parsers 8 (uint_cell 200))
convert_exact_example =
    convert_exact floats parsers 8 (uint_cell 200) (pos 200) (inl refl) (omega arith) refl

-- A uint above the largest int64 becomes a negative number, where a uint64 is refused.
uint_wraps :
    convert_to_int floats parsers 64 (uint_cell 18446744073709551615) ≡ ok (int_value 64 (negsuc 0))
unfolding convert_to_int set_int fits_int of_u64
uint_wraps = refl

to_pointer :
    convert_assign floats parsers parse_time scan converter config
      (pointer_type (scalar_type (int_kind 32)))
      (uint64_cell 5)
    ≡ ok (pointer (int_value 32 (pos 5)))
unfolding convert_assign convert_first scans is_assignable builtin_convert convert_scalar
    convert_to_int set_int fits_int of_u64
to_pointer = refl

null_refused :
    convert_assign floats parsers parse_time scan converter config (scalar_type bool_kind) null_cell
    ≡ fail null_not_allowed
unfolding convert_assign convert_first scans assign_null is_pointer
null_refused = refl

convert_assign-HasType_example :
    HasType (pointer_type (scalar_type (int_kind 32))) (pointer (int_value 32 (pos 5)))
convert_assign-HasType_example =
    convert_assign-HasType floats parsers parse_time scan converter config (λ s bits z e. cc)
      (λ s bits n e. cc) (λ t c v h e. cc) (λ t f c v h e found. cc)
      (pointer_type (scalar_type (int_kind 32))) (uint64_cell 5) _ (omega arith) to_pointer
