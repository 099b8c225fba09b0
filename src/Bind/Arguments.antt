-- ===== src/Bind/Arguments.antt =====
-- bind.go: the tests on an argument's value, and what becomes of a value that is bound. The errors
-- are the sentinels, without the text that fmt.Errorf puts around them. Of the settings the
-- default ones are what the source writes out for a nil config. json.Marshal and the time zone
-- database are parameters.
use rainbowsquirrel.Base.{
  Bool, true, false, not, ◌&&◌, ◌||◌, List, [], ◌∷◌, Option, none, some, Bytes, ℤ, equal,
  if◌then◌else◌,
}
use rainbowsquirrel.Core.Errors.{unsupported_type, placeholder_not_found, slice_expansion}
use rainbowsquirrel.Core.Outcome.{Outcome, ok, fail, panic, ◌>>=◌}
use rainbowsquirrel.Meta.Types.{
  Fields, field, interface_type, time_type, is_struct, is_map, KeyKind, string_key,
  defined_string_key, other_key, key_kind,
}
use rainbowsquirrel.Meta.Values.{
  Value, Values, Entries, nil_value, bool_value, int_value, uint_value, float_value, string_value,
  time_value, bytes_value, nil_pointer, pointer, nil_slice, slice_value, nil_map, map_value,
  struct_value, named_value, other_value, no_values, value_cons, no_entries, entry, to_list,
  zero_value, is_zero_any, is_valuer, slice_items, is_byte_slice,
}
use rainbowsquirrel.Meta.Collect.{FieldInfo, TypeInfo}
use rainbowsquirrel.Meta.Lookup.{lookup_bind, element_at, field_by_index}

-- What of reflect.Kind the code tells apart; a basic kind is Bool, an integer, a float or String.
pub data Kind : Type 0 where
  invalid_kind basic_kind struct_kind map_kind slice_kind pointer_kind unknown_kind : Kind

unfoldable pub kind : Value → Kind
kind nil_value = invalid_kind
kind (bool_value b) = basic_kind
kind (int_value bits z) = basic_kind
kind (uint_value bits n) = basic_kind
kind (float_value bits n) = basic_kind
kind (string_value s) = basic_kind
kind (time_value nano offset) = struct_kind
kind (bytes_value b) = slice_kind
kind (nil_pointer t) = pointer_kind
kind (pointer v) = pointer_kind
kind (nil_slice t) = slice_kind
kind (slice_value t vs) = slice_kind
kind (nil_map k t) = map_kind
kind (map_value k t es) = map_kind
kind (struct_value fs vs) = struct_kind
kind (named_value m v) = kind v
kind (other_value is_zero) = unknown_kind

-- `for rv.Kind() == reflect.Ptr`: what lies behind the pointers; none if one of them is nil.
unfoldable pub strip_pointers : Value → Option Value
strip_pointers (nil_pointer t) = none
strip_pointers (pointer v) = strip_pointers v
strip_pointers (named_value m (nil_pointer t)) = none
strip_pointers (named_value m (pointer v)) = strip_pointers v
strip_pointers v = some v

unfoldable pub deref_value : Value → Outcome Value
unfolding strip_pointers
deref_value nil_value = fail unsupported_type
deref_value v = elim (strip_pointers v) [ none ↦ fail unsupported_type | some w ↦ ok w ]

unfoldable pub is_time : Value → Bool
is_time (time_value nano offset) = true
is_time _ = false

unfoldable pub is_basic : Kind → Bool
is_basic basic_kind = true
is_basic _ = false

unfoldable pub is_slice : Kind → Bool
is_slice slice_kind = true
is_slice _ = false

-- `rv.Kind() == reflect.Struct || rv.Kind() == reflect.Map`
unfoldable pub is_row : Kind → Bool
is_row struct_kind = true
is_row map_kind = true
is_row _ = false

unfoldable pub is_scalar_value : Value → Bool
unfolding is_time is_basic kind is_byte_slice is_valuer
is_scalar_value v = is_time v || is_byte_slice v || is_valuer v || is_basic (kind v)

-- `elem.Kind() == reflect.Struct || elem.Kind() == reflect.Map` of a slice's element type.
unfoldable pub holds_rows : Value → Bool
unfolding slice_items
holds_rows v = elim (slice_items v) [ none ↦ false | some (t, items) ↦ is_struct t || is_map t ]

unfoldable pub is_direct_expand_slice : Value → Bool
unfolding is_slice kind is_byte_slice holds_rows
is_direct_expand_slice v = is_slice (kind v) && not (is_byte_slice v) && not (holds_rows v)

unfoldable pub is_expandable_slice : Value → Bool
unfolding strip_pointers is_slice kind is_byte_slice is_valuer
is_expandable_slice nil_value = false
is_expandable_slice v = not (is_valuer v) && elim (strip_pointers v) [
  | none ↦ false
  | some w ↦ is_slice (kind w) && not (is_byte_slice w)
]

unfoldable pub positional_args : Value → List Value
unfolding to_list
positional_args nil_value = []
positional_args (slice_value interface_type vs) = to_list vs
positional_args (nil_slice interface_type) = []
positional_args v = v ∷ []

unfoldable pub find_entry : Bytes → Entries → Option Value
find_entry k no_entries = none
find_entry k (entry j v es) = let rest = find_entry k es in if equal j k then some v else rest

-- rv.MapIndex on a map with these keys: the name is a string, which no other key type takes.
unfoldable pub map_index : KeyKind → Entries → Bytes → Outcome (Value × Bool × Bool)
map_index string_key es name = elim (find_entry name es) [
  | none ↦ fail placeholder_not_found
  | some v ↦ ok (v, false, false)
]
map_index defined_string_key es name = panic
map_index other_key es name = fail unsupported_type

-- The field that `f` describes, with its json and omitempty flags.
unfoldable pub field_named : Value → FieldInfo → Outcome (Value × Bool × Bool)
field_named v f = field_by_index v f.index >>= λ fv. elim fv [
  | none ↦ fail placeholder_not_found
  | some w ↦ ok (w, f.json, f.omit_empty)
]

unfoldable pub lookup_field : Value → Option TypeInfo → Bytes → Outcome (Value × Bool × Bool)
unfolding field_named
lookup_field v none name = fail unsupported_type
lookup_field v (some ti) name = elim (lookup_bind ti name) [
  | none ↦ fail placeholder_not_found
  | some i ↦ element_at i ti.fields >>= λ f. field_named v f
]

unfoldable pub lookup_named_value : Value → Option TypeInfo → Bytes → Outcome (Value × Bool × Bool)
unfolding map_index lookup_field
lookup_named_value (nil_map k t) ti name = map_index (key_kind k) no_entries name
lookup_named_value (map_value k t es) ti name = map_index (key_kind k) es name
lookup_named_value (named_value m (nil_map k t)) ti name = map_index (key_kind k) no_entries name
lookup_named_value (named_value m (map_value k t es)) ti name = map_index (key_kind k) es name
lookup_named_value v ti name = lookup_field v ti name

module _ {Location : Type 0} (offset_at : Location → ℤ → ℤ) (marshal : Value → Outcome Bytes) where
  -- convertTimes. A new struct takes the fields that can be set, the exported ones; the others
  -- stay zero. Only time.Time itself is converted: the fields of a type defined by it are not
  -- exported.
  unfoldable mutual
    pub convert_times : Location → Value → Value
    convert_times loc (time_value nano offset) = time_value nano (offset_at loc nano)
    convert_times loc (pointer v) = pointer (convert_times loc v)
    convert_times loc (slice_value t vs) = slice_value t (convert_values loc vs)
    convert_times loc (map_value k t es) = map_value k t (convert_entries loc es)
    convert_times loc (struct_value fs vs) = struct_value fs (convert_fields loc fs vs)
    convert_times loc (named_value m (time_value nano offset)) =
        named_value m (zero_value time_type)
    convert_times loc (named_value m v) = named_value m (convert_times loc v)
    convert_times loc v = v

    pub convert_values : Location → Values → Values
    convert_values loc no_values = no_values
    convert_values loc (value_cons v vs) = value_cons (convert_times loc v) (convert_values loc vs)

    pub convert_entries : Location → Entries → Entries
    convert_entries loc no_entries = no_entries
    convert_entries loc (entry k v es) = entry k (convert_times loc v) (convert_entries loc es)

    pub convert_fields : Location → Fields → Values → Values
    convert_fields loc (field h t fs) (value_cons v vs) =
        value_cons (if h.exported then convert_times loc v else zero_value t)
          (convert_fields loc fs vs)
    convert_fields loc fs vs = no_values

  unfoldable pub with_location : Value → Option Location → Value
  unfolding convert_times
  with_location v none = v
  with_location v (some loc) = convert_times loc v

  unfoldable pub marshal_json : Value → Option Location → Outcome Value
  unfolding with_location
  marshal_json v loc = marshal (with_location v loc) >>= λ b. ok (bytes_value b)

  -- Behind the pointers, by the kind.
  unfoldable pub normalize_kind : Value → Bool → Option Location → Outcome Value
  unfolding is_basic kind is_time is_byte_slice
  normalize_kind v json loc =
      if is_basic (kind v) || is_byte_slice v || is_time v
      then ok v
      else if json && (is_slice (kind v) || is_row (kind v))
      then marshal_json v loc
      else fail unsupported_type

  unfoldable pub normalize_bind_value : Value → Bool → Option Location → Outcome Value
  unfolding normalize_kind strip_pointers
  normalize_bind_value nil_value json loc = ok nil_value
  normalize_bind_value v json loc =
      if is_valuer v
      then ok v
      else elim (strip_pointers v) [ none ↦ ok nil_value | some w ↦ normalize_kind w json loc ]

  unfoldable pub bind_value : Value → Option TypeInfo → Bytes → Option Location → Outcome Value
  bind_value v ti name loc = lookup_named_value v ti name >>= λ found.
      if found.2 && is_zero_any found.0
      then ok nil_value
      else normalize_bind_value found.0 found.1 loc

  unfoldable pub normalize_items : List Value → Option Location → Outcome (List Value)
  normalize_items [] loc = ok []
  normalize_items (v ∷ vs) loc = normalize_bind_value v false loc >>= λ item.
      normalize_items vs loc >>= λ items. ok (item ∷ items)

  -- Called on slices and pointers to them only: on others rv.Len or rv.Index may panic.
  unfoldable pub expand_slice : Value → Option Location → Outcome (List Value)
  unfolding normalize_items
  expand_slice v loc = elim (strip_pointers v) [
    | none ↦ fail slice_expansion
    | some w ↦ elim (slice_items w) [
      | none ↦ panic
      | some (t, []) ↦ fail slice_expansion
      | some (t, item ∷ items) ↦ normalize_items (item ∷ items) loc
    ]
  ]
