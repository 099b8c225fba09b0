-- ===== src/Bind/Lookups.antt =====
-- bind.go: the values that lookupNamedValue finds, and panics.
use rainbowsquirrel.Base.{
  ℕ, ◌≡◌, ◌≢◌, refl, subst, arith, Bool, true, false, not, ◌&&◌, inl, inr, Option, none, some,
  Option-cases, Bytes,
}
use rainbowsquirrel.Core.Errors.{unsupported_type, placeholder_not_found}
use rainbowsquirrel.Core.Outcome.{ok, fail, panic, ◌>>=◌}
use rainbowsquirrel.Meta.Types.{
  GoType, KeyKind, string_key, defined_string_key, other_key, key_kind, is_struct, struct_type,
  time_type, named,
}
use rainbowsquirrel.Meta.Values.{
  Value, Entries, no_entries, nil_value, bool_value, time_value, bytes_value, nil_slice,
  slice_value, nil_map, map_value, struct_value, named_value, is_valuer, slice_items, is_byte_slice,
}
use rainbowsquirrel.Meta.Collect.{FieldInfo, TypeInfo}
use rainbowsquirrel.Meta.Lookup.{lookup_bind, element_at, field_by_index}
use rainbowsquirrel.Meta.Typing.{Reaches}
use rainbowsquirrel.Meta.Names.{Gives}
use rainbowsquirrel.Bind.Arguments.{
  kind, is_slice, is_expandable_slice, strip_pointers, deref_value, find_entry, map_index,
  field_named, lookup_field, lookup_named_value,
}
use rainbowsquirrel.Bind.Named.{struct_type_of}

-- The keys of a map are not of a type defined by string.
abbrev pub PlainKeys : Value → Type 0
PlainKeys (nil_map k t) = key_kind k ≢ defined_string_key
PlainKeys (map_value k t es) = key_kind k ≢ defined_string_key
PlainKeys (named_value m (nil_map k t)) = key_kind k ≢ defined_string_key
PlainKeys (named_value m (map_value k t es)) = key_kind k ≢ defined_string_key
PlainKeys v = Unit

map_index_no_panic :
    (k : KeyKind) (es : Entries) (name : Bytes)
    → k ≢ defined_string_key
    → map_index k es name ≢ panic
unfolding map_index
map_index_no_panic string_key es name h = elim (Option-cases (find_entry name es)) [
  | inl missing ↦ rw (map_index, missing) (λ e. cc)
  | inr (v, found) ↦ rw (map_index, found) (λ e. cc)
]
map_index_no_panic defined_string_key es name h = absurd (h refl)
map_index_no_panic other_key es name h = λ e. cc

field_named_no_panic :
    (v : Value) (f : FieldInfo) → Reaches f.typ (field_by_index v f.index) → field_named v f ≢ panic
unfolding field_named
field_named_no_panic v f (inl shut) = rw shut (λ e. cc)
field_named_no_panic v f (inr (w, there, typed)) = rw there (λ e. cc)

-- The metadata is the value's own, or there is none.
abbrev pub Describes : Value → Option TypeInfo → Type 0
Describes v none = Unit
Describes v (some ti) =
    (name : Bytes) → Gives (λ f. Reaches f.typ (field_by_index v f.index)) ti (lookup_bind ti name)

lookup_field_no_panic :
    (v : Value) (ti : Option TypeInfo) (name : Bytes)
    → Describes v ti
    → lookup_field v ti name ≢ panic
unfolding lookup_field
lookup_field_no_panic v none name h = λ e. cc
lookup_field_no_panic v (some ti) name h = found (lookup_bind ti name) (h name)
  where
    found :
        (o : Option ℕ)
        → Gives (λ f. Reaches f.typ (field_by_index v f.index)) ti o
        → elim o [
          | none ↦ fail placeholder_not_found
          | some i ↦ element_at i ti.fields >>= λ f. field_named v f
        ]
          ≢ panic
    found none g = λ e. cc
    found (some i) (f, there, reaches) = rw there (field_named_no_panic v f reaches)

pub lookup_named_value_no_panic :
    (v : Value) (ti : Option TypeInfo) (name : Bytes)
    → PlainKeys v
    → Describes v ti
    → lookup_named_value v ti name ≢ panic
unfolding lookup_named_value
lookup_named_value_no_panic (nil_map k t) ti name keys h =
    map_index_no_panic (key_kind k) no_entries name keys
lookup_named_value_no_panic (map_value k t es) ti name keys h =
    map_index_no_panic (key_kind k) es name keys
lookup_named_value_no_panic (named_value m (nil_map k t)) ti name keys h =
    map_index_no_panic (key_kind k) no_entries name keys
lookup_named_value_no_panic (named_value m (map_value k t es)) ti name keys h =
    map_index_no_panic (key_kind k) es name keys
lookup_named_value_no_panic (named_value m (bool_value b)) ti name keys h =
    lookup_field_no_panic (named_value m (bool_value b)) ti name h
lookup_named_value_no_panic (bool_value b) ti name keys h =
    lookup_field_no_panic (bool_value b) ti name h
lookup_named_value_no_panic v ti name keys h = lookup_field_no_panic v ti name h

pub slice_items_some : (v : Value) → is_slice (kind v) ≡ true → slice_items v ≢ none
unfolding is_slice kind slice_items
slice_items_some (bytes_value b) s e = cc
slice_items_some (nil_slice t) s e = cc
slice_items_some (slice_value t vs) s e = cc
slice_items_some (named_value m v) s e = slice_items_some v s e
slice_items_some (bool_value b) s e = cc
slice_items_some v s e = cc

stripped_slice :
    (v : Value) (b : Bool)
    → (b && elim (strip_pointers v) [
      | none ↦ false
      | some w ↦ is_slice (kind w) && not (is_byte_slice w)
    ])
      ≡ true
    → (w : Value) × (strip_pointers v ≡ some w) × (is_slice (kind w) ≡ true)
stripped_slice v b e = elim (Option-cases (strip_pointers v)) [
  | inl shut ↦ absurd (ground arith)
  | inr (w, behind) ↦ (w, behind, ground arith)
]

pub expandable_behind :
    (v : Value)
    → is_expandable_slice v ≡ true
    → (w : Value) × (strip_pointers v ≡ some w) × (is_slice (kind w) ≡ true)
unfolding is_expandable_slice
expandable_behind nil_value e = cc
expandable_behind (bool_value b) e = stripped_slice (bool_value b) true e
expandable_behind v e = stripped_slice v (not (is_valuer v)) e

pub struct_type_of-is_struct :
    (v : Value) (t : GoType) → struct_type_of v ≡ some t → is_struct t ≡ true
unfolding struct_type_of is_struct
struct_type_of-is_struct (struct_value fs vs) t e =
    let same : struct_type fs ≡ t = cc in subst (λ u. is_struct u ≡ true) same refl
struct_type_of-is_struct (time_value nano offset) t e =
    let same : time_type ≡ t = cc in subst (λ u. is_struct u ≡ true) same refl
struct_type_of-is_struct (named_value m v) t e = elim (Option-cases (struct_type_of v)) [
  | inl other ↦ absurd (ground arith)
  | inr (u, inside) ↦
      let same : named m u ≡ t = ground arith in
      subst (λ w. is_struct w ≡ true) same (struct_type_of-is_struct v u inside)
]
struct_type_of-is_struct (bool_value b) t e = cc
struct_type_of-is_struct v t e = cc

deref_stripped :
    (o : Option Value) → elim o [ none ↦ fail unsupported_type | some w ↦ ok w ] ≢ panic
deref_stripped none e = cc
deref_stripped (some w) e = cc

pub deref_value_no_panic : (v : Value) → deref_value v ≢ panic
unfolding deref_value
deref_value_no_panic nil_value = λ e. cc
deref_value_no_panic (bool_value b) = deref_stripped (strip_pointers (bool_value b))
deref_value_no_panic v = deref_stripped (strip_pointers v)

deref_found :
    (o : Option Value) (v : Value)
    → elim o [ none ↦ fail unsupported_type | some w ↦ ok w ] ≡ ok v
    → o ≡ some v
deref_found none v e = cc
deref_found (some w) v e = cc

pub deref_value-strip_pointers :
    (arg v : Value) → deref_value arg ≡ ok v → strip_pointers arg ≡ some v
unfolding deref_value
deref_value-strip_pointers nil_value v e = cc
deref_value-strip_pointers (bool_value b) v e = deref_found (strip_pointers (bool_value b)) v e
deref_value-strip_pointers arg v e = deref_found (strip_pointers arg) v e
