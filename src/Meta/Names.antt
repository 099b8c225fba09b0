-- ===== src/Meta/Names.antt =====
-- meta.go: what lookupBind and lookupScan find, and what the field found is in a value.
use rainbowsquirrel.Base.{
  ℕ, zero, suc, ◌≡◌, ◌⊎◌, inl, inr, refl, subst, ap, ◌∙◌, arith, Bool, true, false, Bool-cases,
  List, [], ◌∷◌, ◌++◌, map, length, Option, none, some, Bytes, All, All-map, equal, equal_iff,
}
use rainbowsquirrel.Core.Outcome.{ok, bind-eq-ok}
use rainbowsquirrel.Meta.Types.{GoType, StructField}
use rainbowsquirrel.Meta.Values.{Value}
use rainbowsquirrel.Meta.Tags.{to_lower}
use rainbowsquirrel.Meta.Collect.{
  FieldInfo, TypeInfo, empty_info, put_field, collect_struct, with_offset, build_type_info,
}
use rainbowsquirrel.Meta.Lookup.{
  find_index, or_else, lookup_bind, lookup_scan, element_at, field_by_index,
}
use rainbowsquirrel.Meta.Typing.{HasType, Reaches, field_by_index-Reaches}
use rainbowsquirrel.Meta.Paths.{IsFieldOf, collect_struct-root, build_type_info-IsFieldOf}

-- The field at `i` is there, and satisfies `P`.
abbrev pub At {ℓ} : (FieldInfo → Type ℓ) → List FieldInfo → ℕ → Type ℓ
At P fs i = (f : FieldInfo) × (element_at i fs ≡ ok f) × P f

-- A key of a map with the index it leads to.
abbrev PointsBy : (FieldInfo → Bytes) → List FieldInfo → Bytes × ℕ → Type 0
PointsBy key fs (k, i) = At (λ f. key f ≡ k) fs i

abbrev IsIndexed : TypeInfo → Type 0
IsIndexed ti =
    All (PointsBy (λ f. f.name) ti.fields) ti.by_column
    × All (PointsBy (λ f. f.name) ti.fields) ti.by_mapped
    × All (PointsBy (λ f. f.field_name) ti.fields) ti.by_field_name
    × All (PointsBy (λ f. to_lower f.field_name) ti.fields) ti.by_name

element_at-append {ℓ} :
    {A : Type ℓ} (i : ℕ) (xs ys : List A) (x : A)
    → element_at i xs ≡ ok x
    → element_at i (xs ++ ys) ≡ ok x
unfolding element_at
element_at-append i [] ys x e = cc
element_at-append zero (y ∷ xs) ys x e = e
element_at-append (suc i) (y ∷ xs) ys x e = element_at-append i xs ys x e

element_at-length {ℓ} :
    {A : Type ℓ} (xs : List A) (x : A) → element_at (length xs) (xs ++ (x ∷ [])) ≡ ok x
unfolding element_at
element_at-length [] x = refl
element_at-length (y ∷ xs) x = element_at-length xs x

element_at-map {ℓ κ} :
    {A : Type ℓ} {B : Type κ} (g : A → B) (i : ℕ) (xs : List A) (x : A)
    → element_at i xs ≡ ok x
    → element_at i (map g xs) ≡ ok (g x)
unfolding element_at
element_at-map g i [] x e = cc
element_at-map g zero (y ∷ xs) x e = let same : y ≡ x = cc in ap (λ z. ok (g z)) same
element_at-map g (suc i) (y ∷ xs) x e = element_at-map g i xs x e

pub element_at-All {ℓ} :
    (P : FieldInfo → Type ℓ) (i : ℕ) (xs : List FieldInfo) (x : FieldInfo)
    → All P xs
    → element_at i xs ≡ ok x
    → P x
unfolding element_at
element_at-All P i [] x h e = cc
element_at-All P zero (y ∷ xs) x h e = let same : y ≡ x = cc in subst P same h.0
element_at-All P (suc i) (y ∷ xs) x h e = element_at-All P i xs x h.1 e

module _ (key : FieldInfo → Bytes) (fs : List FieldInfo) where
  PointsBy-append :
      (f : FieldInfo) (m : List (Bytes × ℕ))
      → All (PointsBy key fs) m
      → All (PointsBy key (fs ++ (f ∷ []))) m
  PointsBy-append f m h =
      All-map _ _ m
        (λ entry there. (there.0, element_at-append entry.1 fs (f ∷ []) there.0 there.1, there.2)) h

  -- The entry for a new last field.
  last-PointsBy :
      (f : FieldInfo) (m : List (Bytes × ℕ))
      → All (PointsBy key fs) m
      → All (PointsBy key (fs ++ (f ∷ []))) ((key f, length fs) ∷ m)
  last-PointsBy f m h = ((f, element_at-length fs f, refl), PointsBy-append f m h)

  PointsBy-map :
      (g : FieldInfo → FieldInfo) (m : List (Bytes × ℕ))
      → ((f : FieldInfo) → key (g f) ≡ key f)
      → All (PointsBy key fs) m
      → All (PointsBy key (map g fs)) m
  PointsBy-map g m same h =
      All-map _ _ m
        (λ entry there.
          (g there.0, element_at-map g entry.1 fs there.0 there.1, same there.0 ∙ there.2))
        h

  find_index-At :
      (k : Bytes) (m : List (Bytes × ℕ)) (i : ℕ)
      → All (PointsBy key fs) m
      → find_index k m ≡ some i
      → At (λ f. key f ≡ k) fs i
  unfolding find_index
  find_index-At k [] i h e = cc
  find_index-At k ((j, n) ∷ m) i h e = elim (Bool-cases (equal j k)) [
    | inl here ↦
        let found : n ≡ i = ground arith in
        let same : j ≡ k = (equal_iff j k).0 here in
        let (f, there, named_so) = h.0 in
        (f, subst (λ p. element_at p fs ≡ ok f) found there, named_so ∙ same)
    | inr other ↦ find_index-At k m i h.1 (ground arith)
  ]

put_field-IsIndexed :
    (h : StructField) (t : GoType) (index : List ℕ) (tagged : Bool) (named_as : Bytes × List Bytes)
    (ti : TypeInfo)
    → IsIndexed ti
    → IsIndexed (put_field h t index tagged named_as ti)
unfolding put_field
put_field-IsIndexed h t index true named_as ti (columns, mapped, fields, names) = (
  last-PointsBy (λ f. f.name) ti.fields _ _ columns,
  PointsBy-append (λ f. f.name) ti.fields _ _ mapped,
  last-PointsBy (λ f. f.field_name) ti.fields _ _ fields,
  last-PointsBy (λ f. to_lower f.field_name) ti.fields _ _ names,
)
put_field-IsIndexed h t index false named_as ti (columns, mapped, fields, names) = (
  PointsBy-append (λ f. f.name) ti.fields _ _ columns,
  last-PointsBy (λ f. f.name) ti.fields _ _ mapped,
  last-PointsBy (λ f. f.field_name) ti.fields _ _ fields,
  last-PointsBy (λ f. to_lower f.field_name) ti.fields _ _ names,
)

build_type_info-IsIndexed :
    (t : GoType) (tag_name : Bytes) (mapper : Bytes → Bytes) (ti : TypeInfo)
    → build_type_info t tag_name mapper ≡ ok ti
    → IsIndexed ti
unfolding build_type_info with_offset
build_type_info-IsIndexed t tag_name mapper ti e =
    let (found, collected, done) =
      bind-eq-ok (collect_struct tag_name mapper t [] empty_info) _ e in
    let same : record found { fields = map (with_offset t) found.fields } ≡ ti = ground arith in
    let (columns, mapped, fields, names) =
      collect_struct-root tag_name mapper t IsIndexed
        (λ h ft index tagged named_as u leads good.
          put_field-IsIndexed h ft index tagged named_as u good)
        found (tt, tt, tt, tt) collected in
    subst IsIndexed same (
      PointsBy-map (λ f. f.name) found.fields (with_offset t) _ (λ f. refl) columns,
      PointsBy-map (λ f. f.name) found.fields (with_offset t) _ (λ f. refl) mapped,
      PointsBy-map (λ f. f.field_name) found.fields (with_offset t) _ (λ f. refl) fields,
      PointsBy-map (λ f. to_lower f.field_name) found.fields (with_offset t) _ (λ f. refl) names,
    )

At-map {ℓ κ} :
    {P : FieldInfo → Type ℓ} {Q : FieldInfo → Type κ} (fs : List FieldInfo) (i : ℕ)
    → ((f : FieldInfo) → P f → Q f)
    → At P fs i
    → At Q fs i
At-map fs i g (f, there, p) = (f, there, g f p)

or_else-cases : (o p : Option ℕ) (i : ℕ) → or_else o p ≡ some i → (o ≡ some i) ⊎ (p ≡ some i)
unfolding or_else
or_else-cases none p i e = inr e
or_else-cases (some j) p i e = inl e

lookup_bind_lem :
    (ti : TypeInfo) (name : Bytes) (i : ℕ)
    → IsIndexed ti
    → lookup_bind ti name ≡ some i
    → At (λ f. (f.name ≡ name) ⊎ (f.field_name ≡ name)) ti.fields i
unfolding lookup_bind
lookup_bind_lem ti name i (columns, mapped, fields, names) e = elim (or_else-cases _ _ i e) [
  | inl column ↦
      At-map ti.fields i (λ f h. inl h)
        (find_index-At (λ f. f.name) ti.fields name _ i columns column)
  | inr later ↦ elim (or_else-cases _ _ i later) [
    | inl as_mapped ↦
        At-map ti.fields i (λ f h. inl h)
          (find_index-At (λ f. f.name) ti.fields name _ i mapped as_mapped)
    | inr as_field ↦
        At-map ti.fields i (λ f h. inr h)
          (find_index-At (λ f. f.field_name) ti.fields name _ i fields as_field)
  ]
]

lookup_scan_lem :
    (ti : TypeInfo) (col : Bytes) (i : ℕ)
    → IsIndexed ti
    → lookup_scan ti col ≡ some i
    → At (λ f. (f.name ≡ col) ⊎ (to_lower f.field_name ≡ to_lower col)) ti.fields i
unfolding lookup_scan
lookup_scan_lem ti col i (columns, mapped, fields, names) e = elim (or_else-cases _ _ i e) [
  | inl column ↦
      At-map ti.fields i (λ f h. inl h)
        (find_index-At (λ f. f.name) ti.fields col _ i columns column)
  | inr later ↦ elim (or_else-cases _ _ i later) [
    | inl as_mapped ↦
        At-map ti.fields i (λ f h. inl h)
          (find_index-At (λ f. f.name) ti.fields col _ i mapped as_mapped)
    | inr as_name ↦
        At-map ti.fields i (λ f h. inr h)
          (find_index-At (λ f. to_lower f.field_name) ti.fields (to_lower col) _ i names as_name)
  ]
]

-- What a lookup gives, if it gives anything, is the index of a field that satisfies `P`.
abbrev pub Gives {ℓ} : (FieldInfo → Type ℓ) → TypeInfo → Option ℕ → Type ℓ
Gives P ti none = Unit
Gives P ti (some i) = At P ti.fields i

At-Gives {ℓ} :
    (P : FieldInfo → Type ℓ) (ti : TypeInfo) (o : Option ℕ)
    → ((i : ℕ) → o ≡ some i → At P ti.fields i)
    → Gives P ti o
At-Gives P ti none h = tt
At-Gives P ti (some i) h = h i refl

-- In the metadata of a type, what lookupBind finds for a placeholder's name is a field with that
-- column, mapped or Go name, and what lookupScan finds for a column is a field with that column or
-- mapped name, or with that Go name but for the case of letters; both give indices of `fields`.
pub build_type_info-lookup :
    (t : GoType) (tag_name : Bytes) (mapper : Bytes → Bytes) (ti : TypeInfo) (name : Bytes)
    → build_type_info t tag_name mapper ≡ ok ti
    → Gives (λ f. (f.name ≡ name) ⊎ (f.field_name ≡ name)) ti (lookup_bind ti name)
      × Gives
          (λ f. (f.name ≡ name) ⊎ (to_lower f.field_name ≡ to_lower name))
          ti
          (lookup_scan ti name)
build_type_info-lookup t tag_name mapper ti name e =
    let indexed = build_type_info-IsIndexed t tag_name mapper ti e in
    (
      At-Gives _ ti _ (λ i found. lookup_bind_lem ti name i indexed found),
      At-Gives _ ti _ (λ i found. lookup_scan_lem ti name i indexed found),
    )

-- A field that lookupBind or lookupScan finds in the metadata of a value's type is of the value:
-- fieldByIndex on its path does not panic, and gives a value of the field's type or, behind a nil
-- pointer, the invalid value.
pub build_type_info-Reaches :
    (t : GoType) (v : Value) (tag_name : Bytes) (mapper : Bytes → Bytes) (ti : TypeInfo)
    (name : Bytes)
    → HasType t v
    → build_type_info t tag_name mapper ≡ ok ti
    → Gives (λ f. Reaches f.typ (field_by_index v f.index)) ti (lookup_bind ti name)
      × Gives (λ f. Reaches f.typ (field_by_index v f.index)) ti (lookup_scan ti name)
build_type_info-Reaches t v tag_name mapper ti name typed e =
    let indexed = build_type_info-IsIndexed t tag_name mapper ti e in
    let typed_fields = build_type_info-IsFieldOf t tag_name mapper ti e in
    let there : (f : FieldInfo) (i : ℕ)
        → element_at i ti.fields ≡ ok f
        → Reaches f.typ (field_by_index v f.index) =
      λ f i at_i.
        field_by_index-Reaches f.index f.typ typed
          (element_at-All (IsFieldOf t) i ti.fields f typed_fields at_i) in
    (
      At-Gives _ ti _ (λ i found.
          let (f, at_i, _) = lookup_bind_lem ti name i indexed found in (f, at_i, there f i at_i)),
      At-Gives _ ti _ (λ i found.
          let (f, at_i, _) = lookup_scan_lem ti name i indexed found in (f, at_i, there f i at_i)),
    )
