-- ===== src/Tests/Structs.antt =====
-- scan.go on a struct with an embedded pointer and on a map.
use rainbowsquirrel.Base.{
  ℕ, some, ◌≡◌, ◌⊎◌, ◌↔◌, refl, true, false, List, [], ◌∷◌, none, Bytes, codes, pos, equal, All,
}
use rainbowsquirrel.Bind.Parser.{is_empty}
use rainbowsquirrel.Core.Outcome.{ok, panic}
use rainbowsquirrel.Meta.Types.{time_type, interface_type, is_pointer, is_struct, is_byte}
use rainbowsquirrel.Meta.Values.{Value, Entries, int_value, no_entries, entry, zero_value}
use rainbowsquirrel.Meta.Tags.{
  parse_tag, split_commas, trim_space, trim_left, trim_right, trim_options, is_space, contains,
  to_lower, lower_char,
}
use rainbowsquirrel.Meta.Collect.{
  FieldInfo, build_type_info, collect_struct, add_field, put_field, field_names, is_embedded,
  is_plain_struct, can_fast_scan, with_offset, resolve_offset, field_at,
}
use rainbowsquirrel.Meta.Lookup.{element_at, lookup_scan, find_index, or_else}
use rainbowsquirrel.Meta.Typing.{HasType}
use rainbowsquirrel.Convert.Cells.{int_cell, time_cell, string_cell, cell_value}
use rainbowsquirrel.Scan.Target.{
  Scanning, field_value, assign_in, set_map_row, set_map_index, value_at_key, map_element,
}
use rainbowsquirrel.Scan.Row.{column_field, effective_strict, assign_row}
use rainbowsquirrel.Scan.Values.{struct_value_of, kind_value, row_value}
use rainbowsquirrel.Scan.Columns.{HasField, scan_struct_row-strict}
use rainbowsquirrel.Scan.ValueRows.{ValueRows, value_rows}
use rainbowsquirrel.Scan.Row.{scan_struct_row}
use rainbowsquirrel.Scan.Keys.{Shows, last_cell, set_map_row-last_cell}
use rainbowsquirrel.Scan.Behind.{behind_pointer, build_type_info-behind_pointer}
use rainbowsquirrel.Tests.Meta.{int_type, user_type, user, user_typed, user_info, user_build_ok}
use rainbowsquirrel.Tests.Scanning.{env}

abbrev created : FieldInfo
created = record {
  index = 2 ∷ 0 ∷ [];
  name = codes "created";
  field_name = codes "Created";
  typ = int_type;
  json = false;
  omit_empty = false;
  fast = true;
  addr = none;
}

created_there : element_at 2 user_info.fields ≡ ok created
unfolding build_type_info collect_struct add_field put_field field_names is_embedded is_plain_struct
    can_fast_scan with_offset resolve_offset field_at is_pointer is_struct is_byte parse_tag
    split_commas trim_space trim_left trim_right trim_options is_space contains to_lower is_empty
    equal element_at lower_char
created_there = refl

build_type_info-behind_pointer_example :
    ((behind_pointer user_type (2 ∷ 0 ∷ []) ≡ true)
      × (assign_in env created (int_cell 64 (pos 3)) (zero_value user_type) ≡ panic))
    ⊎ ((behind_pointer user_type (2 ∷ 0 ∷ []) ≡ false)
        × (w : Value) × (field_value user created ≡ ok w)
        × HasType int_type w)
build_type_info-behind_pointer_example =
    build_type_info-behind_pointer env user_type (codes "db") to_lower user_info 2 created
      (int_cell 64 (pos 3)) user user_build_ok created_there user_typed

abbrev lower_env : Scanning ℕ
lower_env = record env { cfg = record env.cfg { tag_name = codes "db"; name_mapper = to_lower } }

abbrev columns : List Bytes
columns = codes "name" ∷ codes "age" ∷ []

abbrev one_row : ValueRows
one_row = record {
  cols = columns;
  rows = (string_cell (codes "Bob") ∷ int_cell 64 (pos 30) ∷ []) ∷ [];
  idx = 1;
}

scan_struct_row-strict_example :
    ((scan_struct_row lower_env value_rows (some true) user_type user columns one_row
        ≡ (ok user, one_row))
      ↔ (All (HasField user_info) columns
          × (scan_struct_row lower_env value_rows (some false) user_type user columns one_row
              ≡ (ok user, one_row))))
    × (All (HasField user_info) columns
        → scan_struct_row lower_env value_rows (some true) user_type user columns one_row
          ≡ scan_struct_row lower_env value_rows (some false) user_type user columns one_row)
scan_struct_row-strict_example =
    scan_struct_row-strict lower_env user_info value_rows user_type columns user user one_row
      one_row user_build_ok

-- Two columns with one key.
abbrev twice : Entries
twice = entry (codes "a") (int_value 64 (pos 2)) no_entries

set_twice :
    set_map_row env interface_type
      (codes "a" ∷ codes "a" ∷ [])
      (int_cell 64 (pos 1) ∷ int_cell 64 (pos 2) ∷ [])
      no_entries
    ≡ ok twice
unfolding set_map_row set_map_index map_element cell_value equal
set_twice = refl

set_map_row-last_cell_example :
    Shows env interface_type
      (last_cell
        (λ s. s)
        (codes "a")
        (codes "a" ∷ codes "a" ∷ [])
        (int_cell 64 (pos 1) ∷ int_cell 64 (pos 2) ∷ []))
      (value_at_key (codes "a") no_entries)
      (value_at_key (codes "a") twice)
set_map_row-last_cell_example =
    set_map_row-last_cell env interface_type (codes "a") (codes "a" ∷ codes "a" ∷ [])
      (int_cell 64 (pos 1) ∷ int_cell 64 (pos 2) ∷ []) no_entries twice set_twice

-- A time.Time is a struct without exported fields: its one column is skipped, and it stays zero.
time_skipped :
    row_value env none time_type
      (zero_value time_type)
      (codes "at" ∷ [])
      (time_cell (pos 9) (pos 0) ∷ [])
    ≡ ok (zero_value time_type)
unfolding row_value kind_value struct_value_of is_struct build_type_info collect_struct assign_row
    effective_strict column_field lookup_scan find_index or_else
time_skipped = refl
