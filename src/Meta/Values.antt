-- ===== src/Meta/Values.antt =====
-- Go's values, as an `any` or a reflect.Value holds them.
use rainbowsquirrel.Base.{
  ℕ, Bool, true, false, not, ◌&&◌, ◌||◌, ◌^◌, ◌-◌, List, [], ◌∷◌, map, Option, none, some, Bytes, ℤ,
  pos, negsuc, ◌==◌,
}
use rainbowsquirrel.Meta.Types.{
  GoType, Fields, Methods, scalar_type, time_type, interface_type, pointer_type, slice_type,
  map_type, struct_type, named, other_type, no_fields, field, bool_kind, string_kind, int_kind,
  uint_kind, float_kind, byte_type,
}

-- Integers carry their width, floats their width and bit pattern, a time its Unix nanoseconds and
-- its zone's offset. A map is shown with its keys' texts. `bytes_value` is of the type []byte.
-- A field or element of an interface type holds its dynamic value. `other_value` holds whether it
-- is the zero value of its type.
mutual
  pub data Value : Type 0 where
    nil_value : Value
    bool_value : Bool → Value
    int_value : ℕ → ℤ → Value
    uint_value : ℕ → ℕ → Value
    float_value : ℕ → ℕ → Value
    string_value : Bytes → Value
    time_value : ℤ → ℤ → Value
    bytes_value : Bytes → Value
    nil_pointer : GoType → Value
    pointer : Value → Value
    nil_slice : GoType → Value
    slice_value : GoType → Values → Value
    nil_map : GoType → GoType → Value
    map_value : GoType → GoType → Entries → Value
    struct_value : Fields → Values → Value
    named_value : Methods → Value → Value
    other_value : Bool → Value

  pub data Values : Type 0 where
    no_values : Values
    value_cons : Value → Values → Values

  pub data Entries : Type 0 where
    no_entries : Entries
    entry : Bytes → Value → Entries → Entries

unfoldable pub to_list : Values → List Value
to_list no_values = []
to_list (value_cons v vs) = v ∷ to_list vs

-- `reflect.Zero`
unfoldable mutual
  pub zero_value : GoType → Value
  zero_value (scalar_type bool_kind) = bool_value false
  zero_value (scalar_type string_kind) = string_value []
  zero_value (scalar_type (int_kind bits)) = int_value bits (pos 0)
  zero_value (scalar_type (uint_kind bits)) = uint_value bits 0
  zero_value (scalar_type (float_kind bits)) = float_value bits 0
  zero_value time_type = time_value (negsuc 62135596799999999999) (pos 0)
  zero_value interface_type = nil_value
  zero_value (pointer_type t) = nil_pointer t
  zero_value (slice_type t) = nil_slice t
  zero_value (map_type k t) = nil_map k t
  zero_value (struct_type fs) = struct_value fs (zero_fields fs)
  zero_value (named m t) = named_value m (zero_value t)
  zero_value other_type = other_value true

  pub zero_fields : Fields → Values
  zero_fields no_fields = no_values
  zero_fields (field h t fs) = value_cons (zero_value t) (zero_fields fs)

unfoldable pub is_zero_int : ℤ → Bool
is_zero_int (pos n) = n == 0
is_zero_int (negsuc n) = false

-- isZeroAny. A time's pointer to its zone is shown by the offset; a float that is -0 is zero.
unfoldable mutual
  unfolding is_zero_int

  pub is_zero_any : Value → Bool
  is_zero_any nil_value = true
  is_zero_any (bool_value b) = not b
  is_zero_any (int_value bits z) = is_zero_int z
  is_zero_any (uint_value bits n) = n == 0
  is_zero_any (float_value bits n) = n == 0 || n == 2 ^ (bits - 1)
  is_zero_any (string_value []) = true
  is_zero_any (string_value (c ∷ s)) = false
  is_zero_any (time_value (pos n) offset) = false
  is_zero_any (time_value (negsuc n) offset) = n == 62135596799999999999 && is_zero_int offset
  is_zero_any (bytes_value b) = false
  is_zero_any (nil_pointer t) = true
  is_zero_any (pointer v) = false
  is_zero_any (nil_slice t) = true
  is_zero_any (slice_value t vs) = false
  is_zero_any (nil_map k t) = true
  is_zero_any (map_value k t es) = false
  is_zero_any (struct_value fs vs) = is_zero_values vs
  is_zero_any (named_value m v) = is_zero_any v
  is_zero_any (other_value is_zero) = is_zero

  pub is_zero_values : Values → Bool
  is_zero_values no_values = true
  is_zero_values (value_cons v vs) = is_zero_any v && is_zero_values vs

-- `v.(driver.Valuer)` holds.
unfoldable pub is_valuer : Value → Bool
is_valuer (named_value m v) = m.valuer
is_valuer (pointer (named_value m v)) = m.pointer_valuer
is_valuer (nil_pointer (named m t)) = m.pointer_valuer
is_valuer _ = false

-- The elements of a slice of any type, with their type.
unfoldable pub slice_items : Value → Option (GoType × List Value)
unfolding to_list
slice_items (slice_value t vs) = some (t, to_list vs)
slice_items (bytes_value b) = some (byte_type, map (uint_value 8) b)
slice_items (nil_slice t) = some (t, [])
slice_items (named_value m v) = slice_items v
slice_items _ = none

-- The type is []byte itself.
unfoldable pub is_byte_slice : Value → Bool
is_byte_slice (bytes_value b) = true
is_byte_slice (nil_slice (scalar_type (uint_kind bits))) = bits == 8
is_byte_slice _ = false
