-- ===== src/Meta/Paths.antt =====
-- meta.go: the fields that buildTypeInfo collects, and where their paths lead.
use rainbowsquirrel.Base.{
  ℕ, if◌then◌else◌, suc, ◌+◌, ◌≡◌, refl, subst, sym, ◌∙◌, arith, Bool, not, List, [], ◌∷◌, ◌++◌,
  map, Option, some, Bytes, All, Bool-cases, codes, equal, append_assoc, inl, inr,
}
use rainbowsquirrel.Bind.Parser.{is_empty}
use rainbowsquirrel.Core.Errors.{tag_invalid}
use rainbowsquirrel.Core.Outcome.{ok, fail, ◌>>=◌, bind-eq-ok}
use rainbowsquirrel.Meta.Types.{
  GoType, Fields, StructField, scalar_type, time_type, pointer_type, struct_type, named, no_fields,
  field,
}
use rainbowsquirrel.Meta.Collect.{
  FieldInfo, TypeInfo, empty_info, field_names, put_field, add_field, is_embedded, collect_struct,
  collect_pointed, collect_fields, nth_field, field_at, with_offset, build_type_info,
}
use rainbowsquirrel.Meta.Typing.{pointed_type, path_type}

-- A path from `root` that goes by `prefix` and then to the field `i + j` goes on from the type of
-- the field that `find` gives for `j`.
abbrev Leads : GoType → List ℕ → ℕ → (ℕ → Option (StructField × GoType)) → Type 0
Leads root prefix i find =
    (j : ℕ) (h : StructField) (t : GoType) (index : List ℕ)
    → find j ≡ some (h, t)
    → path_type root (prefix ++ ((i + j) ∷ index)) ≡ path_type t index

-- What a field's path leads to has the field's type.
abbrev pub IsFieldOf : GoType → FieldInfo → Type 0
IsFieldOf root f = path_type root f.index ≡ some f.typ

All-append {ℓ κ} :
    {A : Type ℓ} (P : A → Type κ) (xs ys : List A) → All P xs → All P ys → All P (xs ++ ys)
All-append P [] ys p q = q
All-append P (x ∷ xs) ys p q = (p.0, All-append P xs ys p.1 q)

module _ {ℓ} (tag_name : Bytes) (mapper : Bytes → Bytes) (root : GoType) (Good : TypeInfo → Type ℓ)
    (put_keeps : (h : StructField) (t : GoType) (index : List ℕ) (tagged : Bool)
        (named_as : Bytes × List Bytes) (ti : TypeInfo)
      → path_type root index ≡ some t
      → Good ti
      → Good (put_field h t index tagged named_as ti)) where
  add_field-keeps :
      (h : StructField) (t : GoType) (index : List ℕ) (ti ti' : TypeInfo)
      → path_type root index ≡ some t
      → Good ti
      → add_field tag_name mapper h t index ti ≡ ok ti'
      → Good ti'
  unfolding add_field
  add_field-keeps h t index ti ti' leads good e =
      elim (Bool-cases (equal (h.tag tag_name) (codes "-"))) [
        | inl skipped ↦ let same : ti ≡ ti' = ground arith in subst Good same good
        | inr kept ↦
            let tagged = not (is_empty (h.tag tag_name)) in
            let same : add_field tag_name mapper h t index ti ≡ (
                field_names mapper (h.tag tag_name) h.name >>= λ named_as.
                if is_empty named_as.0
                then fail tag_invalid
                else ok (put_field h t index tagged named_as ti)) =
              rw kept refl in
            let (named_as, found, put) =
              bind-eq-ok (field_names mapper (h.tag tag_name) h.name) _ (sym same ∙ e) in
            elim (Bool-cases (is_empty named_as.0)) [
              | inl blank ↦ absurd (ground arith)
              | inr some_name ↦
                  let done : put_field h t index tagged named_as ti ≡ ti' = ground arith in
                  subst Good done (put_keeps h t index tagged named_as ti leads good)
            ]
      ]

  module _ (h : StructField) (t : GoType) (fs : Fields) (prefix : List ℕ) (i : ℕ)
      (leads : Leads root prefix i (λ j. nth_field (field h t fs) j)) where
    leads_here : (index : List ℕ) → path_type root (prefix ++ (i ∷ index)) ≡ path_type t index
    unfolding nth_field
    leads_here index =
        let same : i + 0 ≡ i = omega arith in
        subst (λ n. path_type root (prefix ++ (n ∷ index)) ≡ path_type t index) same
          (leads 0 h t index refl)

    leads_on : Leads root prefix (i + 1) (λ j. nth_field fs j)
    unfolding nth_field
    leads_on j h' t' index found =
        let same : i + suc j ≡ i + 1 + j = omega arith in
        subst (λ n. path_type root (prefix ++ (n ∷ index)) ≡ path_type t' index) same
          (leads (suc j) h' t' index found)

    leads_into : Leads root (prefix ++ (i ∷ [])) 0 (field_at (pointed_type t))
    unfolding path_type
    leads_into j h' t' index found =
        let same : 0 + j ≡ j = omega arith in
        rw (same, append_assoc prefix (i ∷ []) (j ∷ index), leads_here (j ∷ index))
          (rw (path_type, found) refl)

  mutual
    unfolding collect_struct field_at pointed_type nth_field path_type

    collect_struct-keeps :
        (t : GoType) (prefix : List ℕ) (ti ti' : TypeInfo)
        → Leads root prefix 0 (field_at (pointed_type t))
        → Good ti
        → collect_struct tag_name mapper t prefix ti ≡ ok ti'
        → Good ti'
    collect_struct-keeps (struct_type fs) prefix ti ti' leads good e =
        collect_fields-keeps fs prefix 0 ti ti' leads good e
    collect_struct-keeps (named m t) prefix ti ti' leads good e =
        collect_pointed-keeps t prefix ti ti' leads good e
    collect_struct-keeps (pointer_type t) prefix ti ti' leads good e =
        collect_pointed-keeps t prefix ti ti' leads good e
    collect_struct-keeps time_type prefix ti ti' leads good e =
        let same : ti ≡ ti' = cc in subst Good same good
    collect_struct-keeps (scalar_type k) prefix ti ti' leads good e = cc
    collect_struct-keeps _ prefix ti ti' leads good e = cc

    collect_pointed-keeps :
        (t : GoType) (prefix : List ℕ) (ti ti' : TypeInfo)
        → Leads root prefix 0 (field_at t)
        → Good ti
        → collect_pointed tag_name mapper t prefix ti ≡ ok ti'
        → Good ti'
    collect_pointed-keeps (struct_type fs) prefix ti ti' leads good e =
        collect_fields-keeps fs prefix 0 ti ti' leads good e
    collect_pointed-keeps (named m t) prefix ti ti' leads good e =
        collect_pointed-keeps t prefix ti ti' leads good e
    collect_pointed-keeps time_type prefix ti ti' leads good e =
        let same : ti ≡ ti' = cc in subst Good same good
    collect_pointed-keeps (scalar_type k) prefix ti ti' leads good e = cc
    collect_pointed-keeps _ prefix ti ti' leads good e = cc

    collect_fields-keeps :
        (fs : Fields) (prefix : List ℕ) (i : ℕ) (ti ti' : TypeInfo)
        → Leads root prefix i (λ j. nth_field fs j)
        → Good ti
        → collect_fields tag_name mapper fs prefix i ti ≡ ok ti'
        → Good ti'
    collect_fields-keeps no_fields prefix i ti ti' leads good e =
        let same : ti ≡ ti' = cc in subst Good same good
    collect_fields-keeps (field h t fs) prefix i ti ti' leads good e =
        let index = prefix ++ (i ∷ []) in
        let (ti'', here, later) =
          bind-eq-ok
            (if not h.exported
              then ok ti
              else if is_embedded tag_name mapper h t
              then collect_struct tag_name mapper t index ti
              else add_field tag_name mapper h t index ti)
            _ e in
        let first : Good ti'' = elim (Bool-cases (not h.exported)) [
          | inl hidden ↦ let same : ti ≡ ti'' = ground arith in subst Good same good
          | inr shown ↦ elim (Bool-cases (is_embedded tag_name mapper h t)) [
            | inl within ↦
                let into : collect_struct tag_name mapper t index ti ≡ ok ti'' = ground arith in
                collect_struct-keeps t index ti ti'' (leads_into h t fs prefix i leads) good into
            | inr plain ↦
                let put : add_field tag_name mapper h t index ti ≡ ok ti'' = ground arith in
                add_field-keeps h t index ti ti'' (leads_here h t fs prefix i leads []) good put
          ]
        ] in
        collect_fields-keeps fs prefix (i + 1) ti'' ti' (leads_on h t fs prefix i leads) first later

  -- What holds of no field and is kept by each field put in holds of all that is collected.
  pub collect_struct-root :
      (ti : TypeInfo)
      → Good empty_info
      → collect_struct tag_name mapper root [] empty_info ≡ ok ti
      → Good ti
  unfolding path_type
  collect_struct-root ti good e =
      collect_struct-keeps root [] empty_info ti
        (λ j h t' index here.
          let zero_first : 0 + j ≡ j = omega arith in rw (zero_first, path_type, here) refl)
        good e

with_offset-IsFieldOf :
    (root t : GoType) (fs : List FieldInfo)
    → All (IsFieldOf root) fs
    → All (IsFieldOf root) (map (with_offset t) fs)
unfolding with_offset
with_offset-IsFieldOf root t [] h = tt
with_offset-IsFieldOf root t (f ∷ fs) h = (h.0, with_offset-IsFieldOf root t fs h.1)

put_field-IsFieldOf :
    (root : GoType) (h : StructField) (t : GoType) (index : List ℕ) (tagged : Bool)
    (named_as : Bytes × List Bytes) (ti : TypeInfo)
    → path_type root index ≡ some t
    → All (IsFieldOf root) ti.fields
    → All (IsFieldOf root) (put_field h t index tagged named_as ti).fields
unfolding put_field
put_field-IsFieldOf root h t index tagged named_as ti leads good =
    All-append (IsFieldOf root) ti.fields _ good (leads, tt)

pub build_type_info-IsFieldOf :
    (t : GoType) (tag_name : Bytes) (mapper : Bytes → Bytes) (ti : TypeInfo)
    → build_type_info t tag_name mapper ≡ ok ti
    → All (IsFieldOf t) ti.fields
unfolding build_type_info
build_type_info-IsFieldOf t tag_name mapper ti e =
    let (found, collected, done) =
      bind-eq-ok (collect_struct tag_name mapper t [] empty_info) _ e in
    let same : record found { fields = map (with_offset t) found.fields } ≡ ti = ground arith in
    let all_found =
      collect_struct-root tag_name mapper t (λ u. All (IsFieldOf t) u.fields)
        (put_field-IsFieldOf t) found tt collected in
    subst (λ u. All (IsFieldOf t) u.fields) same (with_offset-IsFieldOf t t found.fields all_found)
