-- ===== src/Meta/Types.antt =====
-- Go's types as far as the library asks package reflect about them. A type is finite: one that
-- embeds a pointer to itself has no model. Arrays, channels and functions are `other_type`, and so
-- is a pointer to an interface.
use rainbowsquirrel.Base.{ℕ, Bool, true, false, Bytes, ◌==◌}

-- The scalar types of a signed kind are int8 to int64, and those of an unsigned kind uint8 to
-- uint64: int and uint, which are types of their own, are types defined by int64 and uint64 here.
pub data ScalarKind : Type 0 where
  bool_kind string_kind : ScalarKind
  int_kind uint_kind float_kind : ℕ → ScalarKind

-- What a defined type T implements: whether *T is a sql.Scanner, whether *T is a driver.Valuer and
-- whether T is one itself.
pub record Methods : Type 0 where
  pub scanner : Bool
  pub pointer_valuer : Bool
  pub valuer : Bool

-- reflect.StructField, without its type; `tag` is Tag.Get.
pub record StructField : Type 0 where
  pub name : Bytes
  pub exported : Bool
  pub anonymous : Bool
  pub tag : Bytes → Bytes
  pub offset : ℕ

-- `named` is a defined type over what it is defined by; its kind is that of the latter.
mutual
  pub data GoType : Type 0 where
    scalar_type : ScalarKind → GoType
    time_type : GoType
    interface_type : GoType
    pointer_type : GoType → GoType
    slice_type : GoType → GoType
    map_type : GoType → GoType → GoType
    struct_type : Fields → GoType
    named : Methods → GoType → GoType
    other_type : GoType

  pub data Fields : Type 0 where
    no_fields : Fields
    field : StructField → GoType → Fields → Fields

abbrev pub byte_type : GoType
byte_type = scalar_type (uint_kind 8)

-- `t.Kind() == reflect.Struct`
unfoldable pub is_struct : GoType → Bool
is_struct (struct_type fs) = true
is_struct time_type = true
is_struct (named m t) = is_struct t
is_struct _ = false

unfoldable pub is_map : GoType → Bool
is_map (map_type k t) = true
is_map (named m t) = is_map t
is_map _ = false

unfoldable pub is_pointer : GoType → Bool
is_pointer (pointer_type t) = true
is_pointer (named m t) = is_pointer t
is_pointer _ = false

-- The kind is uint8, as of an element of []byte.
unfoldable pub is_byte : GoType → Bool
is_byte (scalar_type (uint_kind bits)) = bits == 8
is_byte (named m t) = is_byte t
is_byte _ = false

-- The type of map keys: string itself, a type defined by it, or another.
pub data KeyKind : Type 0 where
  string_key defined_string_key other_key : KeyKind

unfoldable pub key_kind : GoType → KeyKind
key_kind (scalar_type string_kind) = string_key
key_kind (named m (scalar_type string_kind)) = defined_string_key
key_kind _ = other_key
