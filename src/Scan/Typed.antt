-- ===== src/Scan/Typed.antt =====
-- scan.go: the types of what is scanned into a field.
pub mod Rows
use rainbowsquirrel.Base.{
  ℕ, ◌≡◌, ◌≢◌, ◌&&◌, not, inl, inr, refl, arith, Bool, true, false, Bool-cases, List, [], ◌∷◌,
  Option, none, some, Option-cases, Bytes, ℤ, All, equal, length, ◌==◌, if◌then◌else◌,
}
use rainbowsquirrel.Core.Errors.{column_not_found, unsupported_type}
use rainbowsquirrel.Core.Outcome.{Outcome, ok, fail, panic, ◌>>=◌, bind-eq-ok}
use rainbowsquirrel.Meta.Types.{
  GoType, scalar_type, time_type, interface_type, pointer_type, slice_type, map_type, struct_type,
  named, other_type, is_struct, is_map, key_kind, string_key, defined_string_key, other_key,
}
use rainbowsquirrel.Meta.Values.{
  Value, Values, Entries, no_entries, entry, map_value, named_value, pointer, zero_value,
}
use rainbowsquirrel.Meta.Collect.{FieldInfo, TypeInfo, build_type_info}
use rainbowsquirrel.Meta.Lookup.{lookup_scan, element_at}
use rainbowsquirrel.Meta.Typing.{
  HasType, InSigned, InUnsigned, AreBytes, EntriesTyped, entries_typed_nil, entries_typed_cons,
  map_typed, nil_map_typed, named_typed, interface_typed, bool_typed, pointer_typed,
}
use rainbowsquirrel.Meta.Paths.{IsFieldOf, build_type_info-IsFieldOf}
use rainbowsquirrel.Meta.Names.{element_at-All}
use rainbowsquirrel.Convert.Cells.{DriverCell, null_cell, int_cell, bytes_cell, string_cell}
use rainbowsquirrel.Convert.Targets.{IsCell, zero_value-HasType}
use rainbowsquirrel.Convert.Sets.{Sets, sets, sets_fail, sets_panic, then-Sets, if-Sets}
use rainbowsquirrel.Convert.Typed.{convert_assign-Sets}
use rainbowsquirrel.Scan.Target.{
  Scanning, field_value, convert_cell, unmarshal_json_field, assign_field_value, assign_in,
  map_element, set_map_row, set_map_index,
}
use rainbowsquirrel.Scan.Row.{
  column_field, effective_strict, assign_row, has_string_keys, made_map, fill_map,
}
use rainbowsquirrel.Scan.Values.{struct_value_of, kind_value, row_value}
use rainbowsquirrel.Scan.Places.{Sets-then, set_by_index-Sets}

found-eq-ok :
    (r : Outcome FieldInfo) (f : FieldInfo) → (r >>= λ g. ok (some g)) ≡ ok (some f) → r ≡ ok f
found-eq-ok (ok g) f e = ground arith
found-eq-ok (fail x) f e = absurd (ground arith)
found-eq-ok panic f e = absurd (ground arith)

missing-ne-some :
    (strict : Bool) (f : FieldInfo)
    → (if strict then fail column_not_found else ok none) ≢ ok (some f)
missing-ne-some true f = λ e. absurd (ground arith)
missing-ne-some false f = λ e. absurd (ground arith)

-- The field for a column is one of the metadata's, at the index that lookupScan gives.
pub column_field-at :
    (ti : TypeInfo) (strict : Bool) (col : Bytes) (f : FieldInfo)
    → column_field ti strict col ≡ ok (some f)
    → (i : ℕ) × (lookup_scan ti col ≡ some i) × (element_at i ti.fields ≡ ok f)
unfolding column_field
column_field-at ti strict col f e = elim (Option-cases (lookup_scan ti col)) [
  | inl missing ↦ absurd (missing-ne-some strict f (rw (missing, column_field) at e))
  | inr (i, found) ↦
      (i, found, found-eq-ok (element_at i ti.fields) f (rw (found, column_field) at e))
]

pub column_field-All {ℓ} :
    (P : FieldInfo → Type ℓ) (ti : TypeInfo) (strict : Bool) (col : Bytes) (f : FieldInfo)
    → All P ti.fields
    → column_field ti strict col ≡ ok (some f)
    → P f
column_field-All P ti strict col f good e =
    let (i, found, there) = column_field-at ti strict col f e in
    element_at-All P i ti.fields f good there

pub from-Sets :
    {First : Type 0} (t : GoType) (r : Outcome First) (next : First → Outcome Value)
    → ((x : First) → r ≡ ok x → Sets t (next x))
    → Sets t (r >>= next)
from-Sets t (ok x) next h = h x refl
from-Sets t (fail e) next h = sets_fail
from-Sets t panic next h = sets_panic

column-Sets :
    (t : GoType) (r : Outcome (Option FieldInfo)) (next : Option FieldInfo → Outcome Value)
    → Sets t (next none)
    → ((f : FieldInfo) → r ≡ ok (some f) → Sets t (next (some f)))
    → Sets t (r >>= next)
column-Sets t (ok none) next h k = h
column-Sets t (ok (some f)) next h k = k f refl
column-Sets t (fail e) next h k = sets_fail
column-Sets t panic next h k = sets_panic

module _ {Location : Type 0} (env : Scanning Location)
    (parse_int-InSigned : (s : Bytes) (bits : ℕ) (z : ℤ)
      → env.parsers.parse_int s bits ≡ ok z
      → InSigned bits z)
    (parse_uint-InUnsigned : (s : Bytes) (bits n : ℕ)
      → env.parsers.parse_uint s bits ≡ ok n
      → InUnsigned bits n)
    (scan-HasType : (t : GoType) (c : DriverCell) (v : Value)
      → IsCell c
      → env.scan_method t c ≡ ok v
      → HasType t v)
    (converter-HasType : (t : GoType) (f : DriverCell → Outcome (Option Value)) (c : DriverCell)
        (v : Value)
      → IsCell c
      → env.converter t ≡ some f
      → f c ≡ ok (some v)
      → HasType t v)
    (unmarshal-HasType : (t : GoType) (b : Bytes) (old v : Value)
      → AreBytes b
      → env.unmarshal t b old ≡ ok v
      → HasType t v) where
  pub convert_cell-Sets : (t : GoType) (c : DriverCell) → IsCell c → Sets t (convert_cell env t c)
  unfolding convert_cell
  convert_cell-Sets t c h =
      convert_assign-Sets env.floats env.parsers env.parse_time env.scan_method env.converter
        env.cfg parse_int-InSigned parse_uint-InUnsigned scan-HasType converter-HasType t c h

  ended-Sets : (t : GoType) (r : Outcome Value) → ((v : Value) → r ≡ ok v → HasType t v) → Sets t r
  ended-Sets t (ok v) h = sets (h v refl)
  ended-Sets t (fail e) h = sets_fail
  ended-Sets t panic h = sets_panic

  unmarshal-Sets :
      (t : GoType) (c : DriverCell) (current : Value)
      → IsCell c
      → Sets t (unmarshal_json_field env t c current)
  unfolding unmarshal_json_field
  unmarshal-Sets t null_cell current h = convert_cell-Sets t null_cell h
  unmarshal-Sets t (bytes_cell b) current h =
      ended-Sets t _ (λ v e. unmarshal-HasType t b current v h e)
  unmarshal-Sets t (string_cell s) current h =
      ended-Sets t _ (λ v e. unmarshal-HasType t s current v h e)
  unmarshal-Sets t (int_cell bits z) current h = sets_fail
  unmarshal-Sets t c current h = sets_fail

  assign_field_value-Sets :
      (f : FieldInfo) (c : DriverCell) (current : Value)
      → IsCell c
      → Sets f.typ (assign_field_value env f c current)
  unfolding assign_field_value
  assign_field_value-Sets f c current h =
      if-Sets f.typ f.json _ _ (unmarshal-Sets f.typ c current h) (convert_cell-Sets f.typ c h)

  pub assign_in-Sets :
      (f : FieldInfo) (c : DriverCell) {t : GoType} {v : Value}
      → IsCell c
      → HasType t v
      → IsFieldOf t f
      → Sets t (assign_in env f c v)
  unfolding assign_in
  assign_in-Sets f c {t} {v} cell typed leads = then-Sets t (field_value v f) _ (λ current.
      Sets-then f.typ t (assign_field_value env f c current) _
        (assign_field_value-Sets f c current cell)
        (λ w good. set_by_index-Sets f.index f.typ w typed leads good))

  assign_row-Sets :
      (ti : TypeInfo) (strict : Bool) (cols : List Bytes) (raw : List DriverCell) {t : GoType}
      {v : Value}
      → All IsCell raw
      → All (IsFieldOf t) ti.fields
      → HasType t v
      → Sets t (assign_row env ti strict cols raw v)
  unfolding assign_row
  assign_row-Sets ti strict [] raw cells good typed = sets typed
  assign_row-Sets ti strict (col ∷ cols) [] {t} {v} cells good typed =
      column-Sets t (column_field ti strict col) _ (assign_row-Sets ti strict cols [] tt good typed)
        (λ f e. sets_panic)
  assign_row-Sets ti strict (col ∷ cols) (c ∷ raw) {t} {v} cells good typed =
      column-Sets t (column_field ti strict col) _
        (assign_row-Sets ti strict cols raw cells.1 good typed)
        (λ f e.
          Sets-then t t (assign_in env f c v) _
            (assign_in-Sets f c cells.0 typed
              (column_field-All (IsFieldOf t) ti strict col f good e))
            (λ u u_typed. assign_row-Sets ti strict cols raw cells.1 good u_typed))

  pub struct-Sets :
      (call : Option Bool) (t : GoType) (v : Value) (cols : List Bytes) (raw : List DriverCell)
      → All IsCell raw
      → HasType t v
      → Sets t (struct_value_of env call t v cols raw)
  unfolding struct_value_of
  struct-Sets call t v cols raw cells typed =
      from-Sets t (build_type_info t env.cfg.tag_name env.cfg.name_mapper) _ (λ ti e.
        assign_row-Sets ti (effective_strict env.cfg call) cols raw cells
          (build_type_info-IsFieldOf t env.cfg.tag_name env.cfg.name_mapper ti e) typed)

  rescued-Sets :
      (t : GoType) (r : Outcome Value)
      → Sets t r
      → Sets t (elim r [ ok v ↦ ok v | fail e ↦ ok (zero_value t) | panic ↦ panic ])
  rescued-Sets t (ok v) h = h
  rescued-Sets t (fail e) h = sets (zero_value-HasType t)
  rescued-Sets t panic h = sets_panic

  pub map_element-Sets : (t : GoType) (c : DriverCell) → IsCell c → Sets t (map_element env t c)
  unfolding map_element
  map_element-Sets t null_cell h = sets (zero_value-HasType t)
  map_element-Sets interface_type (int_cell bits z) h = sets (interface_typed _)
  map_element-Sets interface_type c h = sets (interface_typed _)
  map_element-Sets (scalar_type k) c h = rescued-Sets _ _ (convert_cell-Sets (scalar_type k) c h)
  map_element-Sets t c h = rescued-Sets t _ (convert_cell-Sets t c h)
