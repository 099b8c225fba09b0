-- ===== src/Tests/Meta.antt =====
-- meta.go on a struct with a tagged field, an untagged one and an embedded pointer.
use rainbowsquirrel.Base.{
  arith, ◌≡◌, ◌⊎◌, refl, true, false, [], ◌∷◌, map, Bytes, codes, equal, pos,
}
use rainbowsquirrel.Bind.Parser.{is_empty}
use rainbowsquirrel.Core.Outcome.{Outcome, ok}
use rainbowsquirrel.Meta.Types.{
  GoType, Fields, StructField, scalar_type, pointer_type, struct_type, no_fields, field, int_kind,
  string_kind, is_struct, is_byte, is_pointer,
}
use rainbowsquirrel.Meta.Values.{
  Value, int_value, string_value, pointer, struct_value, no_values, value_cons,
}
use rainbowsquirrel.Meta.Tags.{
  parse_tag, split_commas, trim_space, trim_left, trim_right, trim_options, is_space, contains,
  to_lower,
}
use rainbowsquirrel.Meta.Collect.{
  FieldInfo, TypeInfo, empty_info, build_type_info, collect_struct, add_field, put_field,
  field_names, is_embedded, is_plain_struct, can_fast_scan, with_offset, resolve_offset, field_at,
}
use rainbowsquirrel.Meta.Lookup.{lookup_bind, lookup_scan, field_by_index}
use rainbowsquirrel.Meta.Typing.{
  HasType, Reaches, int_typed, string_typed, pointer_typed, struct_typed, fields_typed_nil,
  fields_typed_cons,
}
use rainbowsquirrel.Meta.Names.{Gives, build_type_info-lookup, build_type_info-Reaches}

abbrev pub int_type : GoType
int_type = scalar_type (int_kind 64)

abbrev plain_field : Bytes → Bytes → StructField
plain_field name tag = record {
  name = name;
  exported = true;
  anonymous = false;
  tag = λ k. tag;
  offset = 0;
}

abbrev base_type : GoType
base_type = struct_type (field (plain_field (codes "Created") []) int_type no_fields)

abbrev user_fields : Fields
user_fields = field (plain_field (codes "ID") (codes "id,omitempty")) int_type (
    field (plain_field (codes "Name") []) (scalar_type string_kind) (
      field
        (record {
          name = codes "Base";
          exported = true;
          anonymous = true;
          tag = λ k. [];
          offset = 24;
        })
        (pointer_type base_type) no_fields))

abbrev pub user_type : GoType
user_type = struct_type user_fields

abbrev pub user : Value
user = struct_value user_fields (
    value_cons (int_value 64 (pos 7)) (
      value_cons (string_value (codes "Ann")) (
        value_cons
          (pointer (
            struct_value (field (plain_field (codes "Created") []) int_type no_fields)
              (value_cons (int_value 64 (pos 5)) no_values)))
          no_values)))

abbrev pub user_typed : HasType user_type user
user_typed = struct_typed (
    fields_typed_cons (int_typed 64 (pos 7) (omega arith)) (
      fields_typed_cons (string_typed (codes "Ann")) (
        fields_typed_cons
          (pointer_typed (
            struct_typed (fields_typed_cons (int_typed 64 (pos 5) (omega arith)) fields_typed_nil)))
          fields_typed_nil)))

abbrev pub info_of : Outcome TypeInfo → TypeInfo
info_of (ok ti) = ti
info_of _ = empty_info

abbrev pub user_build : Outcome TypeInfo
user_build = build_type_info user_type (codes "db") to_lower

abbrev pub user_info : TypeInfo
user_info = info_of user_build

pub user_build_ok : user_build ≡ ok user_info
unfolding build_type_info collect_struct add_field put_field field_names is_embedded is_plain_struct
    can_fast_scan with_offset resolve_offset field_at is_pointer is_struct is_byte parse_tag
    split_commas trim_space trim_left trim_right trim_options is_space contains to_lower is_empty
    equal
user_build_ok = refl

user_paths :
    map (λ (f : FieldInfo). f.index) user_info.fields ≡ (0 ∷ []) ∷ (1 ∷ []) ∷ (2 ∷ 0 ∷ []) ∷ []
unfolding build_type_info collect_struct add_field put_field field_names is_embedded is_plain_struct
    can_fast_scan with_offset resolve_offset field_at is_pointer is_struct is_byte parse_tag
    split_commas trim_space trim_left trim_right trim_options is_space contains to_lower is_empty
    equal
user_paths = refl

build_type_info-lookup_example :
    Gives
      (λ f. (f.name ≡ codes "created") ⊎ (f.field_name ≡ codes "created"))
      user_info
      (lookup_bind user_info (codes "created"))
    × Gives
        (λ f. (f.name ≡ codes "created") ⊎ (to_lower f.field_name ≡ to_lower (codes "created")))
        user_info
        (lookup_scan user_info (codes "created"))
build_type_info-lookup_example =
    build_type_info-lookup user_type (codes "db") to_lower user_info (codes "created") user_build_ok

build_type_info-Reaches_example :
    Gives
      (λ f. Reaches f.typ (field_by_index user f.index))
      user_info
      (lookup_bind user_info (codes "created"))
    × Gives
        (λ f. Reaches f.typ (field_by_index user f.index))
        user_info
        (lookup_scan user_info (codes "created"))
build_type_info-Reaches_example =
    build_type_info-Reaches user_type user (codes "db") to_lower user_info (codes "created")
      user_typed user_build_ok
