-- ===== src/Tests/Binding.antt =====
-- bindNamed, bindNamedMany and bindForExec on concrete arguments.
use rainbowsquirrel.Base.{
  ℕ, ◌+◌, ◌≡◌, ◌≢◌, refl, Bool, true, false, [], ◌∷◌, none, Bytes, codes, pos, ℤ, equal,
}
use rainbowsquirrel.Bind.Parser.{
  is_ident_char, is_quote, next_is, quoted_span, line_span, block_span, ident_span, named_at,
  parse_step, parse_loop, parse_placeholders, is_empty, is_named, named_places,
}
use rainbowsquirrel.Bind.Rebind.{
  dollar, decimal, decimal_loop, marker, rebind, rebind_loop, replace_loop,
  replace_named_in_fragment,
}
use rainbowsquirrel.Bind.Arguments.{
  kind, strip_pointers, deref_value, is_time, is_basic, is_slice, is_row, is_scalar_value,
  holds_rows, is_direct_expand_slice, is_expandable_slice, find_entry, map_index,
  lookup_named_value, normalize_kind, normalize_bind_value, normalize_items, expand_slice,
  bind_value,
}
use rainbowsquirrel.Bind.Named.{
  bind_items, put_marks, struct_type_of, question_marks, Bound, row_info, named_args, bind_loop,
  bind_derefed, bind_places, bind_named,
}
use rainbowsquirrel.Bind.Groups.{bind_named-IsGrouped}
use rainbowsquirrel.Bind.Stands.{Chosen, IsGrouped}
use rainbowsquirrel.Bind.Reading.{positional}
use rainbowsquirrel.Bind.Counted.{bind_named-positional}
use rainbowsquirrel.Meta.Values.{pointer}
use rainbowsquirrel.Meta.Typing.{HasType}
use rainbowsquirrel.Bind.Lookups.{PlainKeys}
use rainbowsquirrel.Bind.Safe.{bind_named_no_panic}
use rainbowsquirrel.Tests.Meta.{user, user_type, user_typed}
use rainbowsquirrel.Base.{subst, ap, ◌∙◌, some}
use rainbowsquirrel.Meta.Types.{GoType}
use rainbowsquirrel.Core.Outcome.{panic}
use rainbowsquirrel.Bind.Many.{
  only_separators, group_loop, group_named_places, in_group, byte_is, scan_left, group_start,
  span_right, group_end, last_end, repeat_joined, first_info, resolve_rows, row_args, group_args,
  outside, bind_group, bind_groups, bind_named_many, bind_slice, bind_argument, bind_for_exec,
}
use rainbowsquirrel.Bind.Rows.{Given}
use rainbowsquirrel.Bind.Repeats.{Repeats, bind_named_many-Repeats}
use rainbowsquirrel.Core.Errors.{foreign}
use rainbowsquirrel.Core.Outcome.{Outcome, ok, fail}
use rainbowsquirrel.Core.Settings.{Settings}
use rainbowsquirrel.Meta.Types.{
  scalar_type, interface_type, int_kind, string_kind, key_kind, is_struct, is_map,
}
use rainbowsquirrel.Meta.Values.{
  Value, int_value, string_value, slice_value, map_value, no_values, value_cons, no_entries, entry,
  to_list, is_valuer, slice_items, is_byte_slice,
}
use rainbowsquirrel.Meta.Tags.{is_space}

abbrev pub offset_at : ℕ → ℤ → ℤ
offset_at location nano = pos location

abbrev pub marshal : Value → Outcome Bytes
marshal v = fail (foreign 0)

abbrev pub config : Bool → Settings ℕ
config expands = record {
  tag_name = codes "db";
  name_mapper = λ s. s;
  placeholder = dollar;
  strict_mode = false;
  slice_expansion = expands;
  null_to_zero = true;
  time_location = none;
  time_layout = [];
  map_key_func = λ s. s;
}

abbrev two_ids : Value
two_ids =
    slice_value (scalar_type (int_kind 64))
      (value_cons (int_value 64 (pos 1)) (value_cons (int_value 64 (pos 2)) no_values))

abbrev wide_row : Value
wide_row =
    map_value (scalar_type string_kind) interface_type
      (entry (codes "n") (string_value (codes "x")) (entry (codes "ids") two_ids no_entries))

abbrev pub row : ℕ → Value
row n = map_value (scalar_type string_kind) interface_type (
    entry (codes "a") (int_value 64 (pos n))
      (entry (codes "b") (int_value 64 (pos (10 + n))) no_entries))

abbrev wide_query : Bytes
wide_query = codes "n = :n AND id IN (:ids) AND ':c' = c"

abbrev pub bound_of : Outcome Bound → Bound
bound_of (ok b) = b
bound_of _ = record { text = []; args = []; bind_args = [] }

abbrev wide_run : Outcome Bound
wide_run = bind_named offset_at marshal (config true) wide_query wide_row

wide_run_ok :
    wide_run
    ≡ ok (record {
      text = codes "n = ? AND id IN (?,?) AND ':c' = c";
      args = string_value (codes "x") ∷ int_value 64 (pos 1) ∷ int_value 64 (pos 2) ∷ [];
      bind_args = string_value (codes "x") ∷ two_ids ∷ [];
    })
unfolding is_ident_char is_quote next_is quoted_span line_span block_span ident_span named_at
    parse_step parse_loop parse_placeholders is_empty is_named named_places kind strip_pointers
    deref_value is_time is_basic is_slice is_row is_scalar_value holds_rows is_direct_expand_slice
    is_expandable_slice find_entry map_index lookup_named_value normalize_kind normalize_bind_value
    normalize_items expand_slice struct_type_of question_marks row_info named_args bind_loop
    bind_derefed bind_places bind_named key_kind is_struct is_map to_list is_valuer slice_items
    is_byte_slice equal
wide_run_ok = refl

wide_some : named_places (parse_placeholders wide_query) ≢ []
unfolding is_ident_char is_quote next_is quoted_span line_span block_span ident_span named_at
    parse_step parse_loop parse_placeholders is_empty is_named named_places kind strip_pointers
    deref_value is_time is_basic is_slice is_row is_scalar_value holds_rows is_direct_expand_slice
    is_expandable_slice find_entry map_index lookup_named_value normalize_kind normalize_bind_value
    normalize_items expand_slice struct_type_of question_marks row_info named_args bind_loop
    bind_derefed bind_places bind_named key_kind is_struct is_map to_list is_valuer slice_items
    is_byte_slice equal
wide_some e = cc

bind_named-IsGrouped_example :
    IsGrouped
      (Chosen offset_at marshal (config true) wide_row)
      true
      wide_query
      0
      (named_places (parse_placeholders wide_query))
      (bound_of (
        ok (record {
          text = codes "n = ? AND id IN (?,?) AND ':c' = c";
          args = string_value (codes "x") ∷ int_value 64 (pos 1) ∷ int_value 64 (pos 2) ∷ [];
          bind_args = string_value (codes "x") ∷ two_ids ∷ [];
        })))
bind_named-IsGrouped_example =
    bind_named-IsGrouped offset_at marshal (config true) wide_query wide_row _ wide_some wide_run_ok

abbrev many_query : Bytes
many_query = codes "INSERT INTO t (a, b) VALUES (:a, :b)"

many_run_ok :
    bind_named_many offset_at marshal (config false) many_query (row 1 ∷ row 2 ∷ [])
    ≡ ok (
      codes "INSERT INTO t (a, b) VALUES (?, ?),(?, ?)",
      int_value 64 (pos 1)
          ∷ int_value 64 (pos 11)
          ∷ int_value 64 (pos 2)
          ∷ int_value 64 (pos 12)
          ∷ [],
    )
unfolding is_ident_char is_quote next_is quoted_span line_span block_span ident_span named_at
    parse_step parse_loop parse_placeholders is_empty is_named named_places kind strip_pointers
    deref_value is_time is_basic is_slice is_row is_scalar_value holds_rows is_direct_expand_slice
    is_expandable_slice find_entry map_index lookup_named_value normalize_kind normalize_bind_value
    normalize_items expand_slice struct_type_of question_marks row_info named_args bind_loop
    bind_derefed bind_places bind_named key_kind is_struct is_map to_list is_valuer slice_items
    is_byte_slice equal replace_loop replace_named_in_fragment only_separators group_loop
    group_named_places in_group byte_is scan_left group_start span_right group_end last_end
    repeat_joined first_info resolve_rows row_args group_args outside bind_group bind_groups
    bind_named_many bind_value is_space
many_run_ok = refl

bind_named_many-Repeats_example :
    Repeats
      (Given offset_at marshal
        (config false)
        (row 1 ∷ row 2 ∷ [])
        (named_places (parse_placeholders many_query)))
      many_query
      (named_places (parse_placeholders many_query))
      2
      (
        codes "INSERT INTO t (a, b) VALUES (?, ?),(?, ?)",
        int_value 64 (pos 1)
            ∷ int_value 64 (pos 11)
            ∷ int_value 64 (pos 2)
            ∷ int_value 64 (pos 12)
            ∷ [],
      )
bind_named_many-Repeats_example =
    bind_named_many-Repeats offset_at marshal (config false) many_query (row 1 ∷ row 2 ∷ []) _
      many_run_ok

exec_run :
    bind_for_exec offset_at marshal (config true) (codes "id IN (:ids)") two_ids
    ≡ ok (
      codes "id IN ($1,$2)",
      record {
        text = codes "id IN (?,?)";
        args = int_value 64 (pos 1) ∷ int_value 64 (pos 2) ∷ [];
        bind_args = two_ids ∷ [];
      },
    )
unfolding is_ident_char is_quote next_is quoted_span line_span block_span ident_span named_at
    parse_step parse_loop parse_placeholders is_empty is_named named_places kind strip_pointers
    deref_value is_time is_basic is_slice is_row is_scalar_value holds_rows is_direct_expand_slice
    is_expandable_slice find_entry map_index lookup_named_value normalize_kind normalize_bind_value
    normalize_items expand_slice struct_type_of question_marks row_info named_args bind_loop
    bind_derefed bind_places bind_named key_kind is_struct is_map to_list is_valuer slice_items
    is_byte_slice equal bind_items put_marks bind_slice bind_argument bind_for_exec rebind
    rebind_loop marker decimal decimal_loop
exec_run = refl

-- A parenthesis inside quotes before the group: the copies then begin within the quotes, and the
-- name is neither replaced nor left out of the arguments.
quoted_parenthesis :
    bind_named_many offset_at marshal (config false) (codes "VALUES ('(', :a)") (row 1 ∷ [])
    ≡ ok (codes "VALUES ('(', :a)", int_value 64 (pos 1) ∷ [])
unfolding is_ident_char is_quote next_is quoted_span line_span block_span ident_span named_at
    parse_step parse_loop parse_placeholders is_empty is_named named_places kind strip_pointers
    deref_value is_time is_basic is_slice is_row is_scalar_value holds_rows is_direct_expand_slice
    is_expandable_slice find_entry map_index lookup_named_value normalize_kind normalize_bind_value
    normalize_items expand_slice struct_type_of question_marks row_info named_args bind_loop
    bind_derefed bind_places bind_named key_kind is_struct is_map to_list is_valuer slice_items
    is_byte_slice equal replace_loop replace_named_in_fragment only_separators group_loop
    group_named_places in_group byte_is scan_left group_start span_right group_end last_end
    repeat_joined first_info resolve_rows row_args group_args outside bind_group bind_groups
    bind_named_many bind_value is_space
quoted_parenthesis = refl

bind_named-positional_example :
    (named_places (parse_placeholders (codes "n = ? AND id IN (?,?) AND ':c' = c")) ≡ [])
    × (positional (parse_placeholders (codes "n = ? AND id IN (?,?) AND ':c' = c"))
        ≡ positional (parse_placeholders wide_query) + 3)
bind_named-positional_example =
    bind_named-positional offset_at marshal (config true) wide_query wide_row _ wide_some
      wide_run_ok

user_stripped :
    (v : Value) (t : GoType)
    → strip_pointers (pointer user) ≡ some v
    → struct_type_of v ≡ some t
    → HasType t v
unfolding strip_pointers struct_type_of
user_stripped v t e f =
    let same : user ≡ v = cc in
    let of_user : struct_type_of user ≡ some t = ap struct_type_of same ∙ f in
    let is_type : user_type ≡ t = cc in
    subst (λ u. HasType u v) is_type (subst (λ w. HasType user_type w) same user_typed)

user_keys : (v : Value) → strip_pointers (pointer user) ≡ some v → PlainKeys v
unfolding strip_pointers
user_keys v e = let same : user ≡ v = cc in subst PlainKeys same tt

bind_named_no_panic_example :
    bind_named offset_at marshal (config true) wide_query (pointer user) ≢ panic
bind_named_no_panic_example =
    bind_named_no_panic offset_at marshal (config true) (λ v e. cc) wide_query (pointer user)
      user_stripped user_keys
