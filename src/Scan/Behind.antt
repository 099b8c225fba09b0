-- ===== src/Scan/Behind.antt =====
-- scan.go: assignFieldValue, and meta.go: fieldByIndex, on the fields of a new struct that lie
-- behind a pointer and on the others.
use rainbowsquirrel.Base.{
  ℕ, zero, suc, ◌≡◌, ◌⊎◌, refl, subst, ◌∙◌, inl, inr, arith, Bool, true, false, ◌||◌, Bool-cases,
  List, [], ◌∷◌, none, some, Option-cases, Bytes,
}
use rainbowsquirrel.Core.Outcome.{ok, panic}
use rainbowsquirrel.Meta.Types.{
  GoType, Fields, StructField, scalar_type, time_type, pointer_type, struct_type, named, no_fields,
  field,
}
use rainbowsquirrel.Meta.Values.{Value, zero_value, zero_fields}
use rainbowsquirrel.Meta.Collect.{FieldInfo, TypeInfo, nth_field, field_at, build_type_info}
use rainbowsquirrel.Meta.Lookup.{element_at, nth_value, value_field, enter, field_by_index}
use rainbowsquirrel.Meta.Typing.{
  HasType, bool_typed, interface_typed, pointer_typed, nil_pointer_typed, path_type, path_type_step,
  pointed_type, value_field-HasType,
}
use rainbowsquirrel.Meta.Paths.{IsFieldOf, build_type_info-IsFieldOf}
use rainbowsquirrel.Meta.Names.{element_at-All}
use rainbowsquirrel.Convert.Cells.{DriverCell}
use rainbowsquirrel.Convert.Targets.{zero_value-HasType}
use rainbowsquirrel.Scan.Target.{Scanning, field_value, assign_in}

-- `*T`, not a type defined by it.
pub is_plain_pointer : GoType → Bool
is_plain_pointer (pointer_type t) = true
is_plain_pointer t = false

-- The path goes through a pointer to a field behind it.
pub behind_pointer : GoType → List ℕ → Bool
behind_pointer t [] = false
behind_pointer t (i ∷ index) =
    let deeper : Bool = elim (field_at t i) [
      | none ↦ false
      | some (h, ft) ↦ behind_pointer ft index
    ] in
    is_plain_pointer t || deeper

enter-direct :
    {t : GoType} {v : Value} (i : ℕ) (h : StructField) (ft : GoType)
    → HasType t v
    → is_plain_pointer t ≡ false
    → field_at t i ≡ some (h, ft)
    → enter v ≡ some v
unfolding enter is_plain_pointer field_at
enter-direct i h ft (nil_pointer_typed t) plain found = absurd (ground arith)
enter-direct i h ft (pointer_typed typed) plain found = absurd (ground arith)
enter-direct i h ft (interface_typed v) plain found = absurd (ground arith)
enter-direct i h ft (bool_typed b) plain found = refl
enter-direct i h ft typed plain found = refl

-- One step of a path that is not at a pointer.
not_pointer :
    (t : GoType) (i : ℕ) (index : List ℕ)
    → behind_pointer t (i ∷ index) ≡ false
    → is_plain_pointer t ≡ false
unfolding behind_pointer
not_pointer t i index e = ground arith

pointed_same : (t : GoType) → is_plain_pointer t ≡ false → pointed_type t ≡ t
unfolding is_plain_pointer pointed_type
pointed_same (pointer_type t) e = absurd (ground arith)
pointed_same time_type e = refl
pointed_same t e = refl

deeper_false :
    (t : GoType) (i : ℕ) (index : List ℕ) (h : StructField) (ft : GoType)
    → field_at t i ≡ some (h, ft)
    → behind_pointer t (i ∷ index) ≡ false
    → behind_pointer ft index ≡ false
unfolding behind_pointer
deeper_false t i index h ft found e = ground arith

-- A field that is not behind a pointer is there in every value.
pub field_by_index-direct :
    (index : List ℕ) {t : GoType} {v : Value} (ft : GoType)
    → HasType t v
    → path_type t index ≡ some ft
    → behind_pointer t index ≡ false
    → (w : Value) × (field_by_index v index ≡ ok (some w)) × HasType ft w
unfolding field_by_index path_type
field_by_index-direct [] {t} {v} ft typed e direct =
    let same : t ≡ ft = cc in (v, refl, subst (λ u. HasType u v) same typed)
field_by_index-direct (i ∷ []) {t} {v} ft typed e direct =
    let (h, mid, found, rest) = path_type_step t i [] ft e in
    let plain = not_pointer t i [] direct in
    let found' : field_at t i ≡ some (h, mid) = rw (pointed_same t plain) at found in
    let (f, there, f_typed) = value_field-HasType i h mid typed found' in
    let inside = enter-direct i h mid typed plain found' in
    let same : mid ≡ ft = ground arith in (f, ground arith, subst (λ u. HasType u f) same f_typed)
field_by_index-direct (i ∷ j ∷ index) {t} {v} ft typed e direct =
    let (h, mid, found, rest) = path_type_step t i (j ∷ index) ft e in
    let plain = not_pointer t i (j ∷ index) direct in
    let found' : field_at t i ≡ some (h, mid) = rw (pointed_same t plain) at found in
    let (f, there, f_typed) = value_field-HasType i h mid typed found' in
    let inside = enter-direct i h mid typed plain found' in
    let direct' = deeper_false t i (j ∷ index) h mid found' direct in
    let (w, deeper, w_typed) = field_by_index-direct (j ∷ index) ft f_typed rest direct' in
    let (h', mid', next, _) = path_type_step mid j index ft rest in
    let plain' = not_pointer mid j index direct' in
    let next' : field_at mid j ≡ some (h', mid') = rw (pointed_same mid plain') at next in
    let within = enter-direct j h' mid' f_typed plain' next' in
    (w, ground (arith, inside, there, within), w_typed)

nth_value-zero :
    (fs : Fields) (i : ℕ) (h : StructField) (ft : GoType)
    → nth_field fs i ≡ some (h, ft)
    → nth_value (zero_fields fs) i ≡ ok (zero_value ft)
unfolding nth_field nth_value zero_fields
nth_value-zero no_fields i h ft e = absurd (ground arith)
nth_value-zero (field h' t fs) zero h ft e = ground arith
nth_value-zero (field h' t fs) (suc i) h ft e = nth_value-zero fs i h ft e

value_field-zero :
    (t : GoType) (i : ℕ) (h : StructField) (ft : GoType)
    → field_at t i ≡ some (h, ft)
    → value_field (zero_value t) i ≡ ok (zero_value ft)
unfolding field_at value_field zero_value
value_field-zero (struct_type fs) i h ft e = nth_value-zero fs i h ft e
value_field-zero (named m t) i h ft e = value_field-zero t i h ft e
value_field-zero (scalar_type k) i h ft e = absurd (ground arith)
value_field-zero t i h ft e = absurd (ground arith)

not_empty : (t : GoType) → ¬ (behind_pointer t [] ≡ true)
unfolding behind_pointer
not_empty t e = cc

behind-cases :
    (t : GoType) (i : ℕ) (index : List ℕ)
    → behind_pointer t (i ∷ index) ≡ true
    → (is_plain_pointer t ≡ true)
      ⊎ ((is_plain_pointer t ≡ false)
          × (h : StructField) × (ft : GoType) × (field_at t i ≡ some (h, ft))
          × (behind_pointer ft index ≡ true))
unfolding behind_pointer
behind-cases t i index e = elim (Bool-cases (is_plain_pointer t)) [
  | inl here ↦ inl here
  | inr plain ↦ elim (Option-cases (field_at t i)) [
    | inl missing ↦ absurd (ground arith)
    | inr ((h, ft), found) ↦ inr (plain, h, ft, found, ground arith)
  ]
]

at_nil :
    (t : GoType) (i : ℕ) (index : List ℕ)
    → is_plain_pointer t ≡ true
    → field_by_index (zero_value t) (i ∷ index) ≡ ok none
unfolding field_by_index zero_value is_plain_pointer enter
at_nil (pointer_type t) i [] e = refl
at_nil (pointer_type t) i (j ∷ index) e = refl
at_nil time_type i index e = absurd (ground arith)
at_nil t i index e = absurd (ground arith)

path_rest :
    (t : GoType) (i : ℕ) (index : List ℕ) (ft : GoType) (h : StructField) (mid : GoType)
    → is_plain_pointer t ≡ false
    → field_at t i ≡ some (h, mid)
    → path_type t (i ∷ index) ≡ some ft
    → path_type mid index ≡ some ft
path_rest t i index ft h mid plain found e =
    let (h', mid', found', rest) = path_type_step t i index ft e in
    let found'' : field_at t i ≡ some (h', mid') = rw (pointed_same t plain) at found' in
    let same : mid' ≡ mid = ground arith in subst (λ u. path_type u index ≡ some ft) same rest

-- The way goes on from a field of a new value that is no pointer, or ends at a nil one.
step_in :
    (t mid : GoType) (i j : ℕ) (index : List ℕ)
    → enter (zero_value t) ≡ some (zero_value t)
    → value_field (zero_value t) i ≡ ok (zero_value mid)
    → enter (zero_value mid) ≡ some (zero_value mid)
    → field_by_index (zero_value t) (i ∷ j ∷ index) ≡ field_by_index (zero_value mid) (j ∷ index)
unfolding field_by_index
step_in t mid i j index inside there within = ground arith

stop_in :
    (t mid : GoType) (i j : ℕ) (index : List ℕ)
    → enter (zero_value t) ≡ some (zero_value t)
    → value_field (zero_value t) i ≡ ok (zero_value mid)
    → enter (zero_value mid) ≡ none
    → field_by_index (zero_value t) (i ∷ j ∷ index) ≡ ok none
unfolding field_by_index
stop_in t mid i j index inside there within = ground arith

enter_nil : (t : GoType) → is_plain_pointer t ≡ true → enter (zero_value t) ≡ none
unfolding zero_value is_plain_pointer enter
enter_nil (pointer_type t) e = refl
enter_nil time_type e = absurd (ground arith)
enter_nil t e = absurd (ground arith)

-- In a new value a field behind a pointer is not there.
pub field_by_index-behind :
    (index : List ℕ) (t ft : GoType)
    → path_type t index ≡ some ft
    → behind_pointer t index ≡ true
    → field_by_index (zero_value t) index ≡ ok none
field_by_index-behind [] t ft e behind = absurd (not_empty t behind)
field_by_index-behind (i ∷ []) t ft e behind = elim (behind-cases t i [] behind) [
  | inl here ↦ at_nil t i [] here
  | inr (plain, h, mid, found, rest) ↦ absurd (not_empty mid rest)
]
field_by_index-behind (i ∷ j ∷ index) t ft e behind = elim (behind-cases t i (j ∷ index) behind) [
  | inl here ↦ at_nil t i (j ∷ index) here
  | inr (plain, h, mid, found, rest) ↦
      let inside = enter-direct i h mid (zero_value-HasType t) plain found in
      let there = value_field-zero t i h mid found in
      let onward = path_rest t i (j ∷ index) ft h mid plain found e in
      elim (Bool-cases (is_plain_pointer mid)) [
        | inl nil ↦ stop_in t mid i j index inside there (enter_nil mid nil)
        | inr other ↦
            let (h', mid', next, _) = path_type_step mid j index ft onward in
            let next' : field_at mid j ≡ some (h', mid') = rw (pointed_same mid other) at next in
            let within = enter-direct j h' mid' (zero_value-HasType mid) other next' in
            step_in t mid i j index inside there within
            ∙ field_by_index-behind (j ∷ index) mid ft onward rest
      ]
]

module _ {Location : Type 0} (env : Scanning Location) where
  -- What becomes of a cell for a field of a new struct of type `t`.
  assign_in-behind :
      (t : GoType) (f : FieldInfo) (c : DriverCell)
      → IsFieldOf t f
      → behind_pointer t f.index ≡ true
      → assign_in env f c (zero_value t) ≡ panic
  unfolding assign_in field_value
  assign_in-behind t f c leads behind =
      let gone = field_by_index-behind f.index t f.typ leads behind in ground arith

  -- In a new struct, a field of the metadata behind an embedded pointer cannot be scanned into:
  -- assigning any cell panics. A field that is behind none is there, with a value of its type, in
  -- every struct of the type.
  pub build_type_info-behind_pointer :
      (t : GoType) (tag_name : Bytes) (mapper : Bytes → Bytes) (ti : TypeInfo) (i : ℕ)
      (f : FieldInfo) (c : DriverCell) (v : Value)
      → build_type_info t tag_name mapper ≡ ok ti
      → element_at i ti.fields ≡ ok f
      → HasType t v
      → ((behind_pointer t f.index ≡ true) × (assign_in env f c (zero_value t) ≡ panic))
        ⊎ ((behind_pointer t f.index ≡ false)
            × (w : Value) × (field_value v f ≡ ok w)
            × HasType f.typ w)
  unfolding field_value
  build_type_info-behind_pointer t tag_name mapper ti i f c v built there typed =
      let leads =
        element_at-All (IsFieldOf t) i ti.fields f
          (build_type_info-IsFieldOf t tag_name mapper ti built) there in
      elim (Bool-cases (behind_pointer t f.index)) [
        | inl behind ↦ inl (behind, assign_in-behind t f c leads behind)
        | inr direct ↦
            let (w, found, w_typed) = field_by_index-direct f.index f.typ typed leads direct in
            inr (direct, w, ground arith, w_typed)
      ]
