-- ===== src/Scan/Target.antt =====
-- scan.go: assignFieldValue, unmarshalJSONField and setMapRow; meta.go: fieldValue on an
-- addressable struct. A field at an offset is the one on its path.
use rainbowsquirrel.Base.{
  ℕ, zero, suc, List, [], ◌∷◌, Option, none, some, Bytes, ℤ, equal, if◌then◌else◌,
}
use rainbowsquirrel.Core.Errors.{unsupported_type}
use rainbowsquirrel.Core.Outcome.{Outcome, ok, fail, panic, ◌>>=◌}
use rainbowsquirrel.Core.Settings.{Settings}
use rainbowsquirrel.Meta.Types.{GoType, interface_type}
use rainbowsquirrel.Meta.Values.{
  Value, Values, Entries, pointer, struct_value, named_value, no_values, value_cons, no_entries,
  entry, zero_value,
}
use rainbowsquirrel.Meta.Collect.{FieldInfo}
use rainbowsquirrel.Meta.Lookup.{field_by_index}
use rainbowsquirrel.Convert.Cells.{
  DriverCell, null_cell, bytes_cell, string_cell, Floats, Parsers, cell_value,
}
use rainbowsquirrel.Convert.Assign.{convert_assign}

-- What a scan works with: the settings, what convertAssign asks of other code, json.Unmarshal into
-- a target of a type that holds a value, and the driver's conversion into a field of a type.
pub record Scanning (Location : Type 0) : Type 0 where
  pub floats : Floats
  pub parsers : Parsers
  pub parse_time : Bytes → Bytes → Option Location → Outcome (ℤ × ℤ)
  pub scan_method : GoType → DriverCell → Outcome Value
  pub converter : GoType → Option (DriverCell → Outcome (Option Value))
  pub unmarshal : GoType → Bytes → Value → Outcome Value
  pub cfg : Settings Location

-- `rv.Field(i)` set to a value.
unfoldable pub set_nth : Values → ℕ → Value → Outcome Values
set_nth no_values i w = panic
set_nth (value_cons v vs) zero w = ok (value_cons w vs)
set_nth (value_cons v vs) (suc i) w = set_nth vs i w >>= λ us. ok (value_cons v us)

unfoldable pub set_field : Value → ℕ → Value → Outcome Value
unfolding set_nth
set_field (struct_value fs vs) i w = set_nth vs i w >>= λ us. ok (struct_value fs us)
set_field (named_value m v) i w = set_field v i w >>= λ u. ok (named_value m u)
set_field v i w = panic

-- The field behind a pointer is set in what the pointer points to.
unfoldable pub set_through : Value → ℕ → Value → Outcome Value
unfolding set_field
set_through (pointer v) i w = set_field v i w >>= λ u. ok (pointer u)
set_through v i w = set_field v i w

-- fieldByIndex, and then Set on what it gives: the path's fields are replaced from the last one on.
unfoldable pub set_by_index : Value → List ℕ → Value → Outcome Value
unfolding set_through field_by_index
set_by_index v [] w = ok w
set_by_index v (i ∷ index) w =
    let deeper = λ (inner : Value). set_by_index inner index w in
    field_by_index v (i ∷ []) >>= λ found. elim found [
      | none ↦ panic
      | some inner ↦ deeper inner >>= λ u. set_through v i u
    ]

-- fieldValue, where it is addressed: Addr on the invalid value panics.
unfoldable pub field_value : Value → FieldInfo → Outcome Value
field_value v f = field_by_index v f.index >>= λ found. elim found [ none ↦ panic | some w ↦ ok w ]

-- `m[key] = v`
unfoldable pub set_map_index : Bytes → Value → Entries → Entries
set_map_index key v no_entries = entry key v no_entries
set_map_index key v (entry k w es) =
    if equal k key then entry k v es else entry k w (set_map_index key v es)

unfoldable pub value_at_key : Bytes → Entries → Option Value
value_at_key key no_entries = none
value_at_key key (entry k w es) = if equal k key then some w else value_at_key key es

module _ {Location : Type 0} (env : Scanning Location) where
  unfoldable pub convert_cell : GoType → DriverCell → Outcome Value
  convert_cell t c =
      convert_assign env.floats env.parsers env.parse_time env.scan_method env.converter env.cfg t c

  -- The errors of json.Unmarshal keep their cause.
  unfoldable pub unmarshal_json_field : GoType → DriverCell → Value → Outcome Value
  unfolding convert_cell
  unmarshal_json_field t null_cell current = convert_cell t null_cell
  unmarshal_json_field t (bytes_cell b) current = env.unmarshal t b current
  unmarshal_json_field t (string_cell s) current = env.unmarshal t s current
  unmarshal_json_field t c current = fail unsupported_type

  -- What a field that holds `current` is set to.
  unfoldable pub assign_field_value : FieldInfo → DriverCell → Value → Outcome Value
  unfolding unmarshal_json_field
  assign_field_value f c current =
      if f.json then unmarshal_json_field f.typ c current else convert_cell f.typ c

  -- fieldValue and assignFieldValue on the field of a struct.
  unfoldable pub assign_in : FieldInfo → DriverCell → Value → Outcome Value
  unfolding assign_field_value field_value set_by_index
  assign_in f c v = field_value v f >>= λ current.
      assign_field_value f c current >>= λ w. set_by_index v f.index w

  -- The value for a cell in a map with elements of type `t`.
  unfoldable pub map_element : GoType → DriverCell → Outcome Value
  unfolding convert_cell
  map_element t null_cell = ok (zero_value t)
  map_element interface_type c = ok (cell_value c)
  map_element t c = elim (convert_cell t c) [
    | ok v ↦ ok v
    | fail e ↦ ok (zero_value t)
    | panic ↦ panic
  ]

  -- setMapRow on a map with keys of type string itself.
  unfoldable pub set_map_row : GoType → List Bytes → List DriverCell → Entries → Outcome Entries
  unfolding map_element set_map_index
  set_map_row t [] raw es = ok es
  set_map_row t (col ∷ cols) [] es = panic
  set_map_row t (col ∷ cols) (c ∷ raw) es = map_element t c >>= λ v.
      set_map_row t cols raw (set_map_index (env.cfg.map_key_func col) v es)
