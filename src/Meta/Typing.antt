-- ===== src/Meta/Typing.antt =====
-- The typing of values, and the types that the paths of fields lead to.
use rainbowsquirrel.Base.{
  ℕ, zero, suc, ◌≡◌, ◌⊎◌, inl, inr, refl, subst, sym, arith, Bool, List, [], ◌∷◌, Option, none,
  some, Option-cases, Bytes, ℤ, pos, negsuc, ◌<◌, ◌^◌, ◌-◌, All,
}
use rainbowsquirrel.Core.Outcome.{Outcome, ok}
use rainbowsquirrel.Meta.Types.{
  GoType, Fields, StructField, Methods, scalar_type, time_type, interface_type, pointer_type,
  slice_type, map_type, struct_type, named, other_type, no_fields, field, bool_kind, string_kind,
  int_kind, uint_kind, float_kind, byte_type,
}
use rainbowsquirrel.Meta.Values.{
  Value, Values, Entries, bool_value, int_value, uint_value, float_value, string_value, time_value,
  bytes_value, nil_pointer, pointer, nil_slice, slice_value, nil_map, map_value, struct_value,
  named_value, other_value, no_values, value_cons, no_entries, entry,
}
use rainbowsquirrel.Meta.Collect.{nth_field, field_at}
use rainbowsquirrel.Meta.Lookup.{nth_value, value_field, enter, field_by_index}

-- The range of a signed type of that width, and of an unsigned one.
abbrev pub InSigned : ℕ → ℤ → Type 0
InSigned bits (pos n) = n < 2 ^ (bits - 1)
InSigned bits (negsuc n) = n < 2 ^ (bits - 1)

abbrev pub InUnsigned : ℕ → ℕ → Type 0
InUnsigned bits n = n < 2 ^ bits

abbrev pub AreBytes : Bytes → Type 0
AreBytes = All (InUnsigned 8)

-- A value of a type, within the range of the type. An interface holds any value.
mutual
  pub data HasType : GoType → Value → Type 0 where
    bool_typed : (b : Bool) → HasType (scalar_type bool_kind) (bool_value b)
    string_typed : (s : Bytes) → HasType (scalar_type string_kind) (string_value s)
    int_typed :
        (bits : ℕ) (z : ℤ)
        → InSigned bits z
        → HasType (scalar_type (int_kind bits)) (int_value bits z)
    uint_typed :
        (bits n : ℕ)
        → InUnsigned bits n
        → HasType (scalar_type (uint_kind bits)) (uint_value bits n)
    float_typed : (bits n : ℕ) → HasType (scalar_type (float_kind bits)) (float_value bits n)
    time_typed : (nano offset : ℤ) → HasType time_type (time_value nano offset)
    interface_typed : (v : Value) → HasType interface_type v
    nil_pointer_typed : (t : GoType) → HasType (pointer_type t) (nil_pointer t)
    pointer_typed : {t : GoType} {v : Value} → HasType t v → HasType (pointer_type t) (pointer v)
    nil_slice_typed : (t : GoType) → HasType (slice_type t) (nil_slice t)
    bytes_typed : (b : Bytes) → AreBytes b → HasType (slice_type byte_type) (bytes_value b)
    slice_typed :
        {t : GoType} {vs : Values} → AllTyped t vs → HasType (slice_type t) (slice_value t vs)
    nil_map_typed : (k t : GoType) → HasType (map_type k t) (nil_map k t)
    map_typed :
        {k t : GoType} {es : Entries}
        → EntriesTyped t es
        → HasType (map_type k t) (map_value k t es)
    struct_typed :
        {fs : Fields} {vs : Values}
        → FieldsTyped fs vs
        → HasType (struct_type fs) (struct_value fs vs)
    named_typed :
        {m : Methods} {t : GoType} {v : Value} → HasType t v → HasType (named m t) (named_value m v)
    other_typed : (is_zero : Bool) → HasType other_type (other_value is_zero)

  pub data AllTyped : GoType → Values → Type 0 where
    all_typed_nil : {t : GoType} → AllTyped t no_values
    all_typed_cons :
        {t : GoType} {v : Value} {vs : Values}
        → HasType t v
        → AllTyped t vs
        → AllTyped t (value_cons v vs)

  pub data EntriesTyped : GoType → Entries → Type 0 where
    entries_typed_nil : {t : GoType} → EntriesTyped t no_entries
    entries_typed_cons :
        {t : GoType} {key : Bytes} {v : Value} {es : Entries}
        → HasType t v
        → EntriesTyped t es
        → EntriesTyped t (entry key v es)

  pub data FieldsTyped : Fields → Values → Type 0 where
    fields_typed_nil : FieldsTyped no_fields no_values
    fields_typed_cons :
        {h : StructField} {t : GoType} {fs : Fields} {v : Value} {vs : Values}
        → HasType t v
        → FieldsTyped fs vs
        → FieldsTyped (field h t fs) (value_cons v vs)

unfoldable pub pointed_type : GoType → GoType
pointed_type (pointer_type t) = t
pointed_type t = t

-- The type of the field that a path leads to, through pointers.
unfoldable pub path_type : GoType → List ℕ → Option GoType
unfolding field_at pointed_type
path_type t [] = some t
path_type t (i ∷ index) = elim (field_at (pointed_type t) i) [
  | none ↦ none
  | some (h, ft) ↦ path_type ft index
]

nth_value-HasType :
    {fs : Fields} {vs : Values} (i : ℕ) (h : StructField) (ft : GoType)
    → FieldsTyped fs vs
    → nth_field fs i ≡ some (h, ft)
    → (f : Value) × (nth_value vs i ≡ ok f) × HasType ft f
unfolding nth_value nth_field
nth_value-HasType i h ft fields_typed_nil e = cc
nth_value-HasType zero h ft (fields_typed_cons {t = t} {v = v} typed rest) e =
    let same : t ≡ ft = cc in (v, refl, subst (λ u. HasType u v) same typed)
nth_value-HasType (suc i) h ft (fields_typed_cons typed rest) e = nth_value-HasType i h ft rest e

pub value_field-HasType :
    {t : GoType} {w : Value} (i : ℕ) (h : StructField) (ft : GoType)
    → HasType t w
    → field_at t i ≡ some (h, ft)
    → (f : Value) × (value_field w i ≡ ok f) × HasType ft f
unfolding value_field field_at
value_field-HasType i h ft (struct_typed fields) e = nth_value-HasType i h ft fields e
value_field-HasType i h ft (named_typed typed) e = value_field-HasType i h ft typed e
value_field-HasType i h ft (bool_typed b) e = cc
value_field-HasType i h ft _ e = cc

enter-HasType :
    {t : GoType} {v : Value}
    → HasType t v
    → (enter v ≡ none) ⊎ ((w : Value) × (enter v ≡ some w) × HasType (pointed_type t) w)
unfolding enter pointed_type
enter-HasType (nil_pointer_typed t) = inl refl
enter-HasType (pointer_typed typed) = inr (_, refl, typed)
enter-HasType (interface_typed (nil_pointer t)) = inl refl
enter-HasType (interface_typed (pointer v)) = inr (v, refl, interface_typed v)
enter-HasType (interface_typed v) = inr (v, refl, interface_typed v)
enter-HasType (bool_typed b) = inr (_, refl, bool_typed b)
enter-HasType typed = inr (_, refl, typed)

pub path_type_step :
    (t : GoType) (i : ℕ) (index : List ℕ) (ft : GoType)
    → path_type t (i ∷ index) ≡ some ft
    → (h : StructField) × (mid : GoType) × (field_at (pointed_type t) i ≡ some (h, mid))
      × (path_type mid index ≡ some ft)
unfolding path_type
path_type_step t i index ft e = elim (Option-cases (field_at (pointed_type t) i)) [
  | inl absent ↦ absurd (ground arith)
  | inr ((h, mid), found) ↦ (h, mid, found, ground arith)
]

path_type-pointed_type :
    (t : GoType) (j : ℕ) (index : List ℕ) (ft : GoType)
    → path_type t (j ∷ index) ≡ some ft
    → path_type (pointed_type t) (j ∷ index) ≡ some ft
unfolding path_type pointed_type field_at
path_type-pointed_type (pointer_type (pointer_type t)) j index ft e = cc
path_type-pointed_type (pointer_type t) j index ft e = e
path_type-pointed_type t j index ft e = e

-- What fieldByIndex gives on a path of a value's type: no panic, and a value of the field's type
-- or the invalid value.
abbrev pub Reaches : GoType → Outcome (Option Value) → Type 0
Reaches ft r = (r ≡ ok none) ⊎ ((w : Value) × (r ≡ ok (some w)) × HasType ft w)

pub field_by_index-Reaches :
    (index : List ℕ) {t : GoType} {v : Value} (ft : GoType)
    → HasType t v
    → path_type t index ≡ some ft
    → Reaches ft (field_by_index v index)
unfolding field_by_index path_type
field_by_index-Reaches [] {t} {v} ft typed e =
    let same : t ≡ ft = cc in inr (v, refl, subst (λ u. HasType u v) same typed)
field_by_index-Reaches (i ∷ []) {t} {v} ft typed e =
    let (h, mid, found, rest) = path_type_step t i [] ft e in
    let same : mid ≡ ft = ground arith in
    elim (enter-HasType typed) [
      | inl shut ↦ inl (ground arith)
      | inr (w, inside, w_typed) ↦
          let (f, there, f_typed) = value_field-HasType i h mid w_typed found in
          inr (f, ground arith, subst (λ u. HasType u f) same f_typed)
    ]
field_by_index-Reaches (i ∷ j ∷ index) {t} {v} ft typed e =
    let (h, mid, found, rest) = path_type_step t i (j ∷ index) ft e in
    elim (enter-HasType typed) [
      | inl shut ↦ inl (ground arith)
      | inr (w, inside, w_typed) ↦
          let (f, there, f_typed) = value_field-HasType i h mid w_typed found in
          elim (enter-HasType f_typed) [
            | inl shut ↦ inl (ground arith)
            | inr (g, within, g_typed) ↦
                let deeper =
                  field_by_index-Reaches (j ∷ index) ft g_typed
                    (path_type-pointed_type mid j index ft rest) in
                let same : field_by_index v (i ∷ j ∷ index) ≡ field_by_index g (j ∷ index) =
                  ground (arith, inside, there, within) in
                subst (λ r. Reaches ft r) (sym same) deeper
          ]
    ]
