-- ===== src/Meta/Lookup.antt =====
-- meta.go: lookupBind and lookupScan, and fieldByIndex on values.
use rainbowsquirrel.Base.{
  ℕ, zero, suc, List, [], ◌∷◌, Option, none, some, Bytes, equal, if◌then◌else◌,
}
use rainbowsquirrel.Core.Outcome.{Outcome, ok, panic, ◌>>=◌}
use rainbowsquirrel.Meta.Values.{
  Value, Values, nil_pointer, pointer, struct_value, named_value, no_values, value_cons,
}
use rainbowsquirrel.Meta.Tags.{to_lower}
use rainbowsquirrel.Meta.Collect.{TypeInfo}

unfoldable pub find_index : Bytes → List (Bytes × ℕ) → Option ℕ
find_index k [] = none
find_index k ((j, i) ∷ m) = if equal j k then some i else find_index k m

-- The first of two answers.
unfoldable pub or_else : Option ℕ → Option ℕ → Option ℕ
or_else none o = o
or_else (some i) o = some i

unfoldable pub lookup_bind : TypeInfo → Bytes → Option ℕ
lookup_bind ti name =
    or_else (find_index name ti.by_column)
      (or_else (find_index name ti.by_mapped) (find_index name ti.by_field_name))

unfoldable pub lookup_scan : TypeInfo → Bytes → Option ℕ
lookup_scan ti col =
    or_else (find_index col ti.by_column)
      (or_else (find_index col ti.by_mapped) (find_index (to_lower col) ti.by_name))

-- `ti.fields[i]`; past the end is a panic.
unfoldable pub element_at {ℓ} : {A : Type ℓ} → ℕ → List A → Outcome A
element_at i [] = panic
element_at zero (x ∷ xs) = ok x
element_at (suc i) (x ∷ xs) = element_at i xs

unfoldable pub nth_value : Values → ℕ → Outcome Value
nth_value no_values i = panic
nth_value (value_cons v vs) zero = ok v
nth_value (value_cons v vs) (suc i) = nth_value vs i

-- `rv.Field(i)`, which panics on what is no struct.
unfoldable pub value_field : Value → ℕ → Outcome Value
unfolding nth_value
value_field (struct_value fs vs) i = nth_value vs i
value_field (named_value m v) i = value_field v i
value_field _ i = panic

-- What a pointer points to; none for a nil pointer.
unfoldable pub enter : Value → Option Value
enter (nil_pointer t) = none
enter (pointer v) = some v
enter v = some v

-- fieldByIndex; none is the invalid reflect.Value.
unfoldable pub field_by_index : Value → List ℕ → Outcome (Option Value)
unfolding enter
field_by_index v [] = ok (some v)
field_by_index v (i ∷ []) = elim (enter v) [
  | none ↦ ok none
  | some w ↦ value_field w i >>= λ f. ok (some f)
]
field_by_index v (i ∷ j ∷ index) =
    let deeper = λ (w : Value). field_by_index w (j ∷ index) in
    elim (enter v) [
      | none ↦ ok none
      | some w ↦ value_field w i >>= λ f. elim (enter f) [ none ↦ ok none | some g ↦ deeper g ]
    ]
