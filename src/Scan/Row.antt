-- ===== src/Scan/Row.antt =====
-- scan.go: one row into a target of a type: scanStructRow, scanMapRow, scanScalarRow and
-- scanOneValue. What a target holds after an error is left out.
use rainbowsquirrel.Base.{
  Bool, true, false, not, ◌&&◌, List, [], ◌∷◌, Option, none, some, Bytes, length, ◌==◌,
  if◌then◌else◌,
}
use rainbowsquirrel.Core.Errors.{column_not_found, unsupported_type}
use rainbowsquirrel.Core.Outcome.{Outcome, ok, fail, panic, ◌>>=◌}
use rainbowsquirrel.Core.Settings.{Settings}
use rainbowsquirrel.Meta.Types.{
  GoType, pointer_type, map_type, named, is_struct, is_map, key_kind, string_key,
  defined_string_key, other_key,
}
use rainbowsquirrel.Meta.Values.{
  Value, pointer, nil_map, map_value, named_value, zero_value, no_entries,
}
use rainbowsquirrel.Meta.Collect.{FieldInfo, TypeInfo, build_type_info}
use rainbowsquirrel.Meta.Lookup.{lookup_scan, element_at}
use rainbowsquirrel.Convert.Cells.{DriverCell, null_cell}
use rainbowsquirrel.Scan.Source.{
  Dest, any_dest, field_dest, Written, wrote_value, RowSource, ◌then◌, written_cell, scan_raw_row,
  record_raw,
}
use rainbowsquirrel.Scan.Target.{
  Scanning, set_by_index, field_value, convert_cell, assign_in, set_map_row,
}

-- effectiveStrict: the call's choice, if it makes one, or the configuration's.
unfoldable pub effective_strict : {Location : Type 0} → Settings Location → Option Bool → Bool
effective_strict cfg call = elim call [ none ↦ cfg.strict_mode | some strict ↦ strict ]

-- The field for a column: none if the column is skipped.
unfoldable pub column_field : TypeInfo → Bool → Bytes → Outcome (Option FieldInfo)
column_field ti strict col = elim (lookup_scan ti col) [
  | none ↦ if strict then fail column_not_found else ok none
  | some i ↦ element_at i ti.fields >>= λ f. ok (some f)
]

-- Where a column goes: nowhere, into its field, or into an `any` that is converted.
pub data Target : Type 0 where
  skip_target : Target
  fast_target slow_target : FieldInfo → Target

unfoldable pub dest_of : Target → Dest
dest_of skip_target = any_dest
dest_of (fast_target f) = field_dest f.typ
dest_of (slow_target f) = any_dest

unfoldable pub dests_of : List Target → List Dest
unfolding dest_of
dests_of [] = []
dests_of (p ∷ plan) = dest_of p ∷ dests_of plan

-- The loop before Scan. A fast field is addressed here.
unfoldable pub plan_row : TypeInfo → Bool → Value → List Bytes → Outcome (List Target)
unfolding column_field
plan_row ti strict v [] = ok []
plan_row ti strict v (col ∷ cols) =
    let rest = plan_row ti strict v cols in
    column_field ti strict col >>= λ found.
    (elim found [
      | none ↦ ok skip_target
      | some f ↦
          if f.fast && not f.json
          then (field_value v f >>= λ current. ok (fast_target f))
          else ok (slow_target f)
    ])
    >>= λ p. rest >>= λ plan. ok (p ∷ plan)

-- What Scan wrote into the fast fields.
unfoldable pub write_fast : List Target → List Written → Value → Outcome Value
unfolding set_by_index
write_fast [] ws v = ok v
write_fast (p ∷ plan) [] v = ok v
write_fast (fast_target f ∷ plan) (wrote_value w ∷ ws) v =
    set_by_index v f.index w >>= λ u. write_fast plan ws u
write_fast (p ∷ plan) (w ∷ ws) v = write_fast plan ws v

-- `rv.Type().Key().Kind() == reflect.String`
unfoldable pub has_string_keys : GoType → Bool
unfolding key_kind
has_string_keys (map_type k t) = elim (key_kind k) [ other_key ↦ false | _ ↦ true ]
has_string_keys (named m t) = has_string_keys t
has_string_keys t = false

-- `elem.IsNil()`, then `reflect.MakeMap`
unfoldable pub made_map : Value → Value
made_map (nil_map k t) = map_value k t no_entries
made_map (named_value m v) = named_value m (made_map v)
made_map v = v

module _ {Location : Type 0} (env : Scanning Location) where
  -- The loop behind Scan over the slow columns.
  unfoldable pub assign_slow : List Target → List Written → Value → Outcome Value
  unfolding assign_in written_cell
  assign_slow [] ws v = ok v
  assign_slow (slow_target f ∷ plan) [] v =
      assign_in env f null_cell v >>= λ u. assign_slow plan [] u
  assign_slow (slow_target f ∷ plan) (w ∷ ws) v =
      assign_in env f (written_cell w) v >>= λ u. assign_slow plan ws u
  assign_slow (p ∷ plan) [] v = assign_slow plan [] v
  assign_slow (p ∷ plan) (w ∷ ws) v = assign_slow plan ws v

  -- The loop of the recording mode over the columns and their cells.
  unfoldable pub assign_row : TypeInfo → Bool → List Bytes → List DriverCell → Value → Outcome Value
  unfolding column_field assign_in
  assign_row ti strict [] raw v = ok v
  assign_row ti strict (col ∷ cols) [] v = column_field ti strict col >>= λ found. elim found [
    | none ↦ assign_row ti strict cols [] v
    | some f ↦ panic
  ]
  assign_row ti strict (col ∷ cols) (c ∷ raw) v = column_field ti strict col >>= λ found.
      elim found [
        | none ↦ assign_row ti strict cols raw v
        | some f ↦ assign_in env f c v >>= λ u. assign_row ti strict cols raw u
      ]

  -- setMapRow: a key of a type that is only defined by string cannot be set.
  unfoldable pub fill_map : GoType → Value → List Bytes → List DriverCell → Outcome Value
  unfolding set_map_row key_kind
  fill_map t v [] raw = ok v
  fill_map (named m t) (named_value m' v) (col ∷ cols) raw =
      fill_map t v (col ∷ cols) raw >>= λ u. ok (named_value m' u)
  fill_map (map_type k t) (map_value k' t' es) (col ∷ cols) raw = elim (key_kind k) [
    | string_key ↦ set_map_row env t (col ∷ cols) raw es >>= λ es'. ok (map_value k' t' es')
    | defined_string_key ↦ panic
    | other_key ↦ panic
  ]
  fill_map t v cols raw = panic

  module _ {S : Type 0} (src : RowSource S) where
    unfoldable pub scan_recorded :
        TypeInfo → Bool → List Bytes → Value → (List DriverCell → S → S) → S → Outcome Value × S
    unfolding assign_row scan_raw_row
    scan_recorded ti strict cols v hook s = scan_raw_row src (length cols) s then λ raw s'.
        (assign_row ti strict cols raw v, hook raw s')

    unfoldable pub scan_planned : TypeInfo → Bool → List Bytes → Value → S → Outcome Value × S
    unfolding plan_row dests_of write_fast assign_slow
    scan_planned ti strict cols v s = (plan_row ti strict v cols, s) then λ plan s1.
        src.scan (dests_of plan) s1 then λ ws s2. (write_fast plan ws v >>= assign_slow plan ws, s2)

    -- `v` is the target of the struct type `t`.
    unfoldable pub scan_struct_row :
        Option Bool → GoType → Value → List Bytes → S → Outcome Value × S
    unfolding effective_strict scan_recorded scan_planned
    scan_struct_row call t v cols s =
        (build_type_info t env.cfg.tag_name env.cfg.name_mapper, s) then λ ti s'.
        let strict = effective_strict env.cfg call in
        elim src.recorder [
          | some hook ↦ scan_recorded ti strict cols v hook s'
          | none ↦ scan_planned ti strict cols v s'
        ]

    unfoldable pub scan_map_row : GoType → Value → List Bytes → S → Outcome Value × S
    unfolding fill_map has_string_keys scan_raw_row record_raw
    scan_map_row t v cols s =
        if has_string_keys t
        then (scan_raw_row src (length cols) s then λ raw s'.
            (fill_map t v cols raw, record_raw src raw s'))
        else (fail unsupported_type, s)

    unfoldable pub scan_scalar_row : GoType → List Bytes → S → Outcome Value × S
    unfolding convert_cell scan_raw_row record_raw
    scan_scalar_row t cols s =
        if length cols == 1
        then (scan_raw_row src 1 s then λ raw s'.
            (element_at 0 raw >>= convert_cell env t, record_raw src raw s'))
        else (fail unsupported_type, s)

    -- scanOneValue on what is no pointer, by its kind.
    unfoldable pub scan_kind : Option Bool → GoType → Value → List Bytes → S → Outcome Value × S
    unfolding scan_struct_row scan_map_row scan_scalar_row made_map
    scan_kind call t v cols s =
        if is_struct t
        then scan_struct_row call t v cols s
        else if is_map t
        then scan_map_row t (made_map v) cols s
        else scan_scalar_row t cols s

    -- A pointer is set to a new element, which is filled.
    unfoldable pub scan_one_value :
        Option Bool → GoType → Value → List Bytes → S → Outcome Value × S
    unfolding scan_kind
    scan_one_value call (pointer_type t) v cols s =
        scan_kind call t (zero_value t) cols s then λ u s'. (ok (pointer u), s')
    scan_one_value call (named m (pointer_type t)) v cols s =
        scan_kind call t (zero_value t) cols s then λ u s'. (ok (named_value m (pointer u)), s')
    scan_one_value call t v cols s = scan_kind call t v cols s
