-- ===== src/Meta/Collect.antt =====
-- meta.go: fieldInfo, typeInfo, collectFields, addField and the offsets of buildTypeInfo.
use rainbowsquirrel.Base.{
  ℕ, zero, suc, ◌+◌, Bool, true, false, not, ◌&&◌, ◌||◌, List, [], ◌∷◌, ◌++◌, map, Option, none,
  some, length, Bytes, codes, equal, if◌then◌else◌,
}
use rainbowsquirrel.Bind.Parser.{is_empty}
use rainbowsquirrel.Core.Errors.{tag_invalid}
use rainbowsquirrel.Core.Outcome.{Outcome, ok, fail, panic, ◌>>=◌}
use rainbowsquirrel.Meta.Types.{
  GoType, Fields, StructField, scalar_type, time_type, pointer_type, slice_type, struct_type, named,
  no_fields, field, is_struct, is_byte, is_pointer,
}
use rainbowsquirrel.Meta.Tags.{parse_tag, contains, to_lower}

-- `addr` is none if the offset is not valid.
pub record FieldInfo : Type 0 where
  pub index : List ℕ
  pub name : Bytes
  pub field_name : Bytes
  pub typ : GoType
  pub json : Bool
  pub omit_empty : Bool
  pub fast : Bool
  pub addr : Option ℕ

-- The maps hold indices of `fields`; a later entry for a key stands before the earlier ones.
pub record TypeInfo : Type 0 where
  pub fields : List FieldInfo
  pub by_column : List (Bytes × ℕ)
  pub by_mapped : List (Bytes × ℕ)
  pub by_field_name : List (Bytes × ℕ)
  pub by_name : List (Bytes × ℕ)

abbrev pub empty_info : TypeInfo
empty_info = record {
  fields = [];
  by_column = [];
  by_mapped = [];
  by_field_name = [];
  by_name = [];
}

-- `reflect.PtrTo(t).Implements(scannerType)`
unfoldable pub scans : GoType → Bool
scans (named m t) = m.scanner
scans _ = false

unfoldable pub can_fast_scan : GoType → Bool
can_fast_scan (pointer_type t) = can_fast_scan t
can_fast_scan time_type = false
can_fast_scan (scalar_type k) = true
can_fast_scan (slice_type t) = is_byte t
can_fast_scan (named m t) = m.scanner || (not (is_struct t) && can_fast_scan t)
can_fast_scan _ = false

-- The name and the options of a field: from its tag, or from the mapper.
unfoldable pub field_names : (Bytes → Bytes) → Bytes → Bytes → Outcome (Bytes × List Bytes)
field_names mapper tag name = if is_empty tag then ok (mapper name, []) else parse_tag tag

-- addField behind the name: the field with its entries in the maps.
unfoldable pub put_field :
    StructField → GoType → List ℕ → Bool → Bytes × List Bytes → TypeInfo → TypeInfo
put_field h t index tagged (name, opts) ti =
    let i = length ti.fields in
    let f : FieldInfo = record {
      index = index;
      name = name;
      field_name = h.name;
      typ = t;
      json = contains (codes "json") opts;
      omit_empty = contains (codes "omitempty") opts;
      fast = can_fast_scan t;
      addr = none;
    } in
    record {
      fields = ti.fields ++ (f ∷ []);
      by_column = if tagged then (name, i) ∷ ti.by_column else ti.by_column;
      by_mapped = if tagged then ti.by_mapped else (name, i) ∷ ti.by_mapped;
      by_field_name = (h.name, i) ∷ ti.by_field_name;
      by_name = (to_lower h.name, i) ∷ ti.by_name;
    }

module _ (tag_name : Bytes) (mapper : Bytes → Bytes) where
  unfoldable pub add_field : StructField → GoType → List ℕ → TypeInfo → Outcome TypeInfo
  unfolding field_names
  add_field h t index ti =
      let tag = h.tag tag_name in
      if equal tag (codes "-")
      then ok ti
      else (field_names mapper tag h.name >>= λ named_as.
          if is_empty named_as.0
          then fail tag_invalid
          else ok (put_field h t index (not (is_empty tag)) named_as ti))

  -- A struct that is no time and has neither Scan nor Value is collected into.
  unfoldable pub is_plain_struct : GoType → Bool
  is_plain_struct (struct_type fs) = true
  is_plain_struct (named m t) = is_struct t && not m.scanner && not m.pointer_valuer
  is_plain_struct _ = false

  unfoldable pub is_embedded : StructField → GoType → Bool
  is_embedded h (pointer_type t) = h.anonymous && is_empty (h.tag tag_name) && is_plain_struct t
  is_embedded h t = h.anonymous && is_empty (h.tag tag_name) && is_plain_struct t

  -- `collect_struct` is collectFields on a type, or on what a pointer type points to;
  -- `collect_fields` is its loop from field `i` on. The fields of a time are not exported.
  unfoldable mutual
    unfolding is_embedded

    pub collect_struct : GoType → List ℕ → TypeInfo → Outcome TypeInfo
    collect_struct (struct_type fs) prefix ti = collect_fields fs prefix 0 ti
    collect_struct (named m t) prefix ti = collect_pointed t prefix ti
    collect_struct (pointer_type t) prefix ti = collect_pointed t prefix ti
    collect_struct time_type prefix ti = ok ti
    collect_struct _ prefix ti = panic

    pub collect_pointed : GoType → List ℕ → TypeInfo → Outcome TypeInfo
    collect_pointed (struct_type fs) prefix ti = collect_fields fs prefix 0 ti
    collect_pointed (named m t) prefix ti = collect_pointed t prefix ti
    collect_pointed time_type prefix ti = ok ti
    collect_pointed _ prefix ti = panic

    pub collect_fields : Fields → List ℕ → ℕ → TypeInfo → Outcome TypeInfo
    collect_fields no_fields prefix i ti = ok ti
    collect_fields (field h t fs) prefix i ti =
        let index = prefix ++ (i ∷ []) in
        let into = collect_struct t index ti in
        let here =
          if not h.exported
          then ok ti
          else if is_embedded h t
          then into
          else add_field h t index ti in
        here >>= λ ti'. collect_fields fs prefix (i + 1) ti'

-- `t.Field(i)`, with its type.
unfoldable pub nth_field : Fields → ℕ → Option (StructField × GoType)
nth_field no_fields i = none
nth_field (field h t fs) zero = some (h, t)
nth_field (field h t fs) (suc i) = nth_field fs i

unfoldable pub field_at : GoType → ℕ → Option (StructField × GoType)
unfolding nth_field
field_at (struct_type fs) i = nth_field fs i
field_at (named m t) i = field_at t i
field_at _ i = none

-- resolveFieldOffset: the offsets on the way added up; none if a pointer is on it.
unfoldable pub resolve_offset : GoType → List ℕ → ℕ → Option ℕ
resolve_offset t [] off = some off
resolve_offset t (i ∷ index) off = elim (field_at t i) [
  | none ↦ none
  | some (h, ft) ↦ if is_pointer ft then none else resolve_offset ft index (off + h.offset)
]

unfoldable pub with_offset : GoType → FieldInfo → FieldInfo
with_offset t f = record f { addr = resolve_offset t f.index 0 }

unfoldable pub build_type_info : GoType → Bytes → (Bytes → Bytes) → Outcome TypeInfo
build_type_info t tag_name mapper = collect_struct tag_name mapper t [] empty_info >>= λ ti.
    ok (record ti { fields = map (with_offset t) ti.fields })
