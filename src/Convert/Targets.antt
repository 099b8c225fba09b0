-- ===== src/Convert/Targets.antt =====
-- convert.go: the values of a target's type that need no conversion.
use rainbowsquirrel.Base.{
  ℕ, zero, suc, ◌<◌, ◌^◌, ◌-◌, ◌≡◌, subst, sym, arith, true, false, [], ◌∷◌, Bytes, ◌==◌, ==_iff,
}
use rainbowsquirrel.Meta.Types.{
  GoType, Fields, scalar_type, time_type, interface_type, pointer_type, slice_type, map_type,
  struct_type, named, other_type, no_fields, field, bool_kind, string_kind, int_kind, uint_kind,
  float_kind, is_byte,
}
use rainbowsquirrel.Meta.Values.{
  int_value, uint_value, float_value, bytes_value, zero_value, zero_fields,
}
use rainbowsquirrel.Meta.Typing.{
  HasType, InSigned, InUnsigned, AreBytes, AllTyped, FieldsTyped, bool_typed, string_typed,
  int_typed, uint_typed, float_typed, time_typed, interface_typed, nil_pointer_typed,
  nil_slice_typed, bytes_typed, slice_typed, nil_map_typed, struct_typed, named_typed, other_typed,
  all_typed_nil, all_typed_cons, fields_typed_nil, fields_typed_cons,
}
use rainbowsquirrel.Convert.Cells.{
  DriverCell, int_cell, uint64_cell, uint_cell, small_uint_cell, float_cell, bool_cell, bytes_cell,
  string_cell, time_cell, cell_value, is_assignable, assign, byte_element, byte_elements, bytes_as,
}

-- A cell that Go can hold: its integers are in range, and its texts are of bytes.
abbrev pub IsCell : DriverCell → Type 0
IsCell (int_cell bits z) = InSigned bits z
IsCell (uint64_cell n) = InUnsigned 64 n
IsCell (uint_cell n) = InUnsigned 64 n
IsCell (small_uint_cell bits n) = InUnsigned bits n
IsCell (bytes_cell b) = AreBytes b
IsCell (string_cell s) = AreBytes s
IsCell _ = Unit

positive : (n : ℕ) → 0 < 2 ^ n
positive zero = omega arith
positive (suc n) = omega (arith, positive n)

mutual
  unfolding zero_value

  pub zero_value-HasType : (t : GoType) → HasType t (zero_value t)
  zero_value-HasType (scalar_type bool_kind) = bool_typed false
  zero_value-HasType (scalar_type string_kind) = string_typed []
  zero_value-HasType (scalar_type (int_kind bits)) = int_typed bits _ (positive (bits - 1))
  zero_value-HasType (scalar_type (uint_kind bits)) = uint_typed bits _ (positive bits)
  zero_value-HasType (scalar_type (float_kind bits)) = float_typed bits _
  zero_value-HasType time_type = time_typed _ _
  zero_value-HasType interface_type = interface_typed _
  zero_value-HasType (pointer_type t) = nil_pointer_typed t
  zero_value-HasType (slice_type t) = nil_slice_typed t
  zero_value-HasType (map_type k t) = nil_map_typed k t
  zero_value-HasType (struct_type fs) = struct_typed (zero_fields-FieldsTyped fs)
  zero_value-HasType (named m t) = named_typed (zero_value-HasType t)
  zero_value-HasType other_type = other_typed true

  zero_fields-FieldsTyped : (fs : Fields) → FieldsTyped fs (zero_fields fs)
  zero_fields-FieldsTyped no_fields = fields_typed_nil
  zero_fields-FieldsTyped (field h t fs) =
      fields_typed_cons (zero_value-HasType t) (zero_fields-FieldsTyped fs)

uint8_typed :
    (bits n : ℕ)
    → InUnsigned 8 n
    → (bits == 8) ≡ true
    → HasType (scalar_type (uint_kind bits)) (uint_value 8 n)
uint8_typed bits n h e =
    let same : 8 ≡ bits = sym ((==_iff bits 8).0 e) in
    subst (λ b. HasType (scalar_type (uint_kind b)) (uint_value 8 n)) same (uint_typed 8 n h)

byte_element-HasType :
    (t : GoType) (n : ℕ) → InUnsigned 8 n → is_byte t ≡ true → HasType t (byte_element t n)
unfolding is_byte byte_element
byte_element-HasType (scalar_type (uint_kind bits)) n h e = uint8_typed bits n h e
byte_element-HasType (scalar_type string_kind) n h e = cc
byte_element-HasType (scalar_type k) n h e = cc
byte_element-HasType (named m t) n h e = named_typed (byte_element-HasType t n h e)
byte_element-HasType time_type n h e = cc
byte_element-HasType _ n h e = cc

byte_elements-AllTyped :
    (t : GoType) (b : Bytes) → AreBytes b → is_byte t ≡ true → AllTyped t (byte_elements t b)
unfolding byte_elements
byte_elements-AllTyped t [] h e = all_typed_nil
byte_elements-AllTyped t (n ∷ b) h e =
    all_typed_cons (byte_element-HasType t n h.0 e) (byte_elements-AllTyped t b h.1 e)

bytes8_typed :
    (bits : ℕ) (b : Bytes)
    → AreBytes b
    → (bits == 8) ≡ true
    → HasType (slice_type (scalar_type (uint_kind bits))) (bytes_value b)
bytes8_typed bits b h e =
    let same : 8 ≡ bits = sym ((==_iff bits 8).0 e) in
    subst (λ w. HasType (slice_type (scalar_type (uint_kind w))) (bytes_value b)) same
      (bytes_typed b h)

pub bytes_as-HasType :
    (t : GoType) (b : Bytes) → AreBytes b → is_byte t ≡ true → HasType (slice_type t) (bytes_as t b)
unfolding bytes_as is_byte
bytes_as-HasType (scalar_type (uint_kind bits)) b h e = bytes8_typed bits b h e
bytes_as-HasType (scalar_type string_kind) b h e = cc
bytes_as-HasType (scalar_type k) b h e = cc
bytes_as-HasType (named m t) b h e = slice_typed (byte_elements-AllTyped (named m t) b h e)
bytes_as-HasType time_type b h e = cc
bytes_as-HasType _ b h e = cc

uint_assigned :
    (bits w n : ℕ)
    → InUnsigned bits n
    → (bits == w) ≡ true
    → HasType (scalar_type (uint_kind w)) (uint_value bits n)
uint_assigned bits w n h e =
    let same : bits ≡ w = (==_iff bits w).0 e in
    subst (λ b. HasType (scalar_type (uint_kind b)) (uint_value bits n)) same (uint_typed bits n h)

pub assign-HasType :
    (c : DriverCell) (t : GoType) → IsCell c → is_assignable c t ≡ true → HasType t (assign c t)
unfolding is_assignable assign cell_value
assign-HasType c interface_type h e = interface_typed _
assign-HasType (int_cell bits z) (scalar_type (int_kind w)) h e =
    let same : bits ≡ w = (==_iff bits w).0 e in
    subst (λ b. HasType (scalar_type (int_kind b)) (int_value bits z)) same (int_typed bits z h)
assign-HasType (uint64_cell n) (scalar_type (uint_kind w)) h e =
    uint_assigned 64 w n h (ground arith)
assign-HasType (small_uint_cell bits n) (scalar_type (uint_kind w)) h e = uint_assigned bits w n h e
assign-HasType (float_cell bits n) (scalar_type (float_kind w)) h e =
    let same : bits ≡ w = (==_iff bits w).0 e in
    subst (λ b. HasType (scalar_type (float_kind b)) (float_value bits n)) same (float_typed bits n)
assign-HasType (bool_cell b) (scalar_type bool_kind) h e = bool_typed b
assign-HasType (string_cell s) (scalar_type string_kind) h e = string_typed s
assign-HasType (bytes_cell b) (slice_type (scalar_type (uint_kind w))) h e = bytes8_typed w b h e
assign-HasType (bytes_cell b) (named m (slice_type (scalar_type (uint_kind w)))) h e =
    named_typed (bytes8_typed w b h e)
assign-HasType (time_cell nano offset) time_type h e = time_typed nano offset
assign-HasType c t h e = cc
