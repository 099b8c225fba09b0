-- ===== src/Meta/Safe.antt =====
-- meta.go: buildTypeInfo and panics.
use rainbowsquirrel.Base.{
  ℕ, ◌+◌, ◌≡◌, ◌≢◌, refl, arith, Bool, true, false, not, List, [], ◌∷◌, ◌++◌, Bytes, codes, equal,
  if◌then◌else◌,
}
use rainbowsquirrel.Bind.Parser.{is_empty}
use rainbowsquirrel.Core.Outcome.{Outcome, ok, fail, panic, ◌>>=◌}
use rainbowsquirrel.Meta.Types.{
  GoType, Fields, StructField, scalar_type, time_type, interface_type, pointer_type, slice_type,
  map_type, struct_type, named, other_type, no_fields, field, is_struct,
}
use rainbowsquirrel.Meta.Tags.{parse_tag, split_commas, trim_space}
use rainbowsquirrel.Meta.Collect.{
  TypeInfo, empty_info, field_names, add_field, is_plain_struct, is_embedded, collect_struct,
  collect_pointed, collect_fields, build_type_info,
}

pub then_no_panic {ℓ κ} :
    {First : Type ℓ} {Last : Type κ} (r : Outcome First) (f : First → Outcome Last)
    → r ≢ panic
    → ((x : First) → r ≡ ok x → f x ≢ panic)
    → (r >>= f) ≢ panic
then_no_panic (ok x) f h k = k x refl
then_no_panic (fail e) f h k = λ e'. cc
then_no_panic panic f h k = absurd (h refl)

pub if_no_panic {ℓ} :
    {A : Type ℓ} (b : Bool) (r s : Outcome A)
    → (b ≡ true → r ≢ panic)
    → (b ≡ false → s ≢ panic)
    → (if b then r else s) ≢ panic
if_no_panic true r s h k = h refl
if_no_panic false r s h k = k refl

module _ (tag_name : Bytes) (mapper : Bytes → Bytes) where
  field_names_no_panic : (tag name : Bytes) → field_names mapper tag name ≢ panic
  unfolding field_names parse_tag
  field_names_no_panic tag name =
      if_no_panic (is_empty tag) _ _ (λ _ e. cc)
        (λ _. if_no_panic (is_empty (trim_space (split_commas tag).0)) _ _ (λ _ e. cc) (λ _ e. cc))

  add_field_no_panic :
      (h : StructField) (t : GoType) (index : List ℕ) (ti : TypeInfo)
      → add_field tag_name mapper h t index ti ≢ panic
  unfolding add_field
  add_field_no_panic h t index ti =
      if_no_panic (equal (h.tag tag_name) (codes "-")) _ _ (λ _ e. cc)
        (λ _.
          then_no_panic (field_names mapper (h.tag tag_name) h.name) _
            (field_names_no_panic (h.tag tag_name) h.name)
            (λ named_as _. if_no_panic (is_empty named_as.0) _ _ (λ _ e. cc) (λ _ e. cc)))

  plain_is_struct : (t : GoType) → is_plain_struct tag_name mapper t ≡ true → is_struct t ≡ true
  unfolding is_plain_struct is_struct
  plain_is_struct (struct_type fs) e = refl
  plain_is_struct (named m t) e = ground arith
  plain_is_struct time_type e = cc
  plain_is_struct _ e = cc

  -- A struct type, or a pointer to one.
  abbrev IsCollected : GoType → Type 0
  IsCollected (pointer_type t) = is_struct t ≡ true
  IsCollected t = is_struct t ≡ true

  embedded-IsCollected :
      (h : StructField) (t : GoType) → is_embedded tag_name mapper h t ≡ true → IsCollected t
  unfolding is_embedded
  embedded-IsCollected h (pointer_type t) e = plain_is_struct t (ground arith)
  embedded-IsCollected h (struct_type fs) e = plain_is_struct (struct_type fs) (ground arith)
  embedded-IsCollected h (named m t) e = plain_is_struct (named m t) (ground arith)
  embedded-IsCollected h (scalar_type k) e = plain_is_struct (scalar_type k) (ground arith)
  embedded-IsCollected h time_type e = plain_is_struct time_type (ground arith)
  embedded-IsCollected h interface_type e = plain_is_struct interface_type (ground arith)
  embedded-IsCollected h (slice_type t) e = plain_is_struct (slice_type t) (ground arith)
  embedded-IsCollected h (map_type k t) e = plain_is_struct (map_type k t) (ground arith)
  embedded-IsCollected h other_type e = plain_is_struct other_type (ground arith)

  mutual
    unfolding collect_struct is_struct

    collect_struct_no_panic :
        (t : GoType) (prefix : List ℕ) (ti : TypeInfo)
        → IsCollected t
        → collect_struct tag_name mapper t prefix ti ≢ panic
    collect_struct_no_panic (struct_type fs) prefix ti s = collect_fields_no_panic fs prefix 0 ti
    collect_struct_no_panic (named m t) prefix ti s = collect_pointed_no_panic t prefix ti s
    collect_struct_no_panic (pointer_type t) prefix ti s = collect_pointed_no_panic t prefix ti s
    collect_struct_no_panic time_type prefix ti s = λ e. cc
    collect_struct_no_panic (scalar_type k) prefix ti s = absurd (ground arith)
    collect_struct_no_panic _ prefix ti s = absurd (ground arith)

    collect_pointed_no_panic :
        (t : GoType) (prefix : List ℕ) (ti : TypeInfo)
        → is_struct t ≡ true
        → collect_pointed tag_name mapper t prefix ti ≢ panic
    collect_pointed_no_panic (struct_type fs) prefix ti s = collect_fields_no_panic fs prefix 0 ti
    collect_pointed_no_panic (named m t) prefix ti s = collect_pointed_no_panic t prefix ti s
    collect_pointed_no_panic time_type prefix ti s = λ e. cc
    collect_pointed_no_panic (scalar_type k) prefix ti s = absurd (ground arith)
    collect_pointed_no_panic _ prefix ti s = absurd (ground arith)

    collect_fields_no_panic :
        (fs : Fields) (prefix : List ℕ) (i : ℕ) (ti : TypeInfo)
        → collect_fields tag_name mapper fs prefix i ti ≢ panic
    collect_fields_no_panic no_fields prefix i ti = λ e. cc
    collect_fields_no_panic (field h t fs) prefix i ti =
        let index = prefix ++ (i ∷ []) in
        then_no_panic
          (if not h.exported
            then ok ti
            else if is_embedded tag_name mapper h t
            then collect_struct tag_name mapper t index ti
            else add_field tag_name mapper h t index ti)
          _
          (if_no_panic (not h.exported) _ _ (λ _ e. cc)
            (λ _.
              if_no_panic (is_embedded tag_name mapper h t) _ _
                (λ within. collect_struct_no_panic t index ti (embedded-IsCollected h t within))
                (λ _. add_field_no_panic h t index ti)))
          (λ ti' _. collect_fields_no_panic fs prefix (i + 1) ti')

  struct-IsCollected : (t : GoType) → is_struct t ≡ true → IsCollected t
  unfolding is_struct
  struct-IsCollected (pointer_type t) s = absurd (ground arith)
  struct-IsCollected (named m t) s = s
  struct-IsCollected t s = s

  pub build_type_info_no_panic :
      (t : GoType) → is_struct t ≡ true → build_type_info t tag_name mapper ≢ panic
  unfolding build_type_info
  build_type_info_no_panic t s =
      then_no_panic (collect_struct tag_name mapper t [] empty_info) _
        (collect_struct_no_panic t [] empty_info (struct-IsCollected t s)) (λ ti _ e. cc)
