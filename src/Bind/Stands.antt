-- ===== src/Bind/Stands.antt =====
-- bind.go: what stands for a name in bindNamed's arguments.
use rainbowsquirrel.Base.{
  ℕ, suc, ◌≤◌, ◌≡◌, ◌⊎◌, refl, subst, sym, ap, arith, Bool, true, false, ◌&&◌, Bool-cases, inl, inr,
  List, [], ◌∷◌, ◌++◌, Option, Option-cases, Bytes, ℤ, length, drop, slice, All,
}
use rainbowsquirrel.Core.Outcome.{Outcome, ok, ◌>>=◌, bind-eq-ok}
use rainbowsquirrel.Core.Settings.{Settings}
use rainbowsquirrel.Meta.Values.{Value, nil_value, is_zero_any, slice_items}
use rainbowsquirrel.Meta.Collect.{TypeInfo}
use rainbowsquirrel.Bind.Parser.{Placeholder}
use rainbowsquirrel.Bind.Arguments.{
  kind, strip_pointers, deref_value, is_row, is_scalar_value, is_direct_expand_slice,
  is_expandable_slice, lookup_named_value, normalize_bind_value, normalize_items, expand_slice,
}
use rainbowsquirrel.Bind.Named.{question_marks, Bound, row_info, named_args}

abbrev pub concat : List (List Value) → List Value
concat [] = []
concat (g ∷ groups) = g ++ concat groups

-- The query from `last` on with the placeholders replaced, each by a question mark for every
-- argument of its group.
unfoldable pub put_groups : Bytes → ℕ → List Placeholder → List (List Value) → Bytes
unfolding question_marks
put_groups query last (p ∷ places) (g ∷ groups) =
    slice query last p.pos ++ (question_marks (length g) ++ put_groups query p.end places groups)
put_groups query last places groups = drop last query

-- One argument, or with slice expansion at least one.
abbrev pub IsSized : Bool → List Value → Type 0
IsSized expands g = (length g ≡ 1) ⊎ ((expands ≡ true) × (1 ≤ length g))

-- `bound` has a group of arguments for each placeholder, as `Stand` says, with one argument before
-- expansion for each: the groups are all the arguments, in order, and the text has as many question
-- marks in each placeholder's place as its group has arguments.
abbrev pub IsGrouped :
    (List Placeholder → List (List Value) → List Value → Type 0)
    → Bool
    → Bytes
    → ℕ
    → List Placeholder
    → Bound
    → Type 0
IsGrouped Stand expands query last places bound =
    (groups : List (List Value)) × (length groups ≡ length places)
    × All (IsSized expands) groups
    × (bound.args ≡ concat groups)
    × (bound.text ≡ put_groups query last places groups)
    × (length bound.bind_args ≡ length places)
    × Stand places groups bound.bind_args

module _ {Location : Type 0} (offset_at : Location → ℤ → ℤ) (marshal : Value → Outcome Bytes)
    (cfg : Settings Location) where
  length-normalize_items :
      (vs : List Value) (loc : Option Location) (items : List Value)
      → normalize_items offset_at marshal vs loc ≡ ok items
      → length items ≡ length vs
  unfolding normalize_items
  length-normalize_items [] loc items e = let same : [] ≡ items = cc in rw (sym same) refl
  length-normalize_items (v ∷ vs) loc items e =
      let (item, first, later) =
        bind-eq-ok (normalize_bind_value offset_at marshal v false loc) _ e in
      let (rest, others, done) = bind-eq-ok (normalize_items offset_at marshal vs loc) _ later in
      let same : item ∷ rest ≡ items = cc in
      rw (sym same) (ap suc (length-normalize_items vs loc rest others))

  pub length-expand_slice :
      (v : Value) (loc : Option Location) (items : List Value)
      → expand_slice offset_at marshal v loc ≡ ok items
      → 1 ≤ length items
  unfolding expand_slice
  length-expand_slice v loc items e = elim (Option-cases (strip_pointers v)) [
    | inl shut ↦ absurd (ground arith)
    | inr (w, behind) ↦ elim (Option-cases (slice_items w)) [
      | inl other ↦ absurd (ground arith)
      | inr ((t, []), found) ↦ absurd (ground arith)
      | inr ((t, x ∷ xs), found) ↦
          let done : normalize_items offset_at marshal (x ∷ xs) loc ≡ ok items = ground arith in
          omega (arith, length-normalize_items (x ∷ xs) loc items done)
    ]
  ]

  -- The arguments that stand for a name, and the one before expansion, by what the row has under
  -- that name: nil for an omitted zero, the elements of an expanded slice, or the value itself.
  pub data Stands (v : Value) (ti : Option TypeInfo) (name : Bytes)
      : List Value → Value → Type 0 where
    omitted :
        (found : Value × Bool × Bool)
        → lookup_named_value v ti name ≡ ok found
        → (found.2 ≡ true) × (is_zero_any found.0 ≡ true)
        → Stands v ti name (nil_value ∷ []) nil_value
    expanded :
        (found : Value × Bool × Bool)
        → (items : List Value) → lookup_named_value v ti name ≡ ok found
        → (found.2 && is_zero_any found.0) ≡ false
        → (cfg.slice_expansion ≡ true) × (is_expandable_slice found.0 ≡ true)
        → expand_slice offset_at marshal found.0 cfg.time_location ≡ ok items
        → Stands v ti name items found.0
    single :
        (found : Value × Bool × Bool)
        → (nv : Value) → lookup_named_value v ti name ≡ ok found
        → (found.2 && is_zero_any found.0) ≡ false
        → (cfg.slice_expansion && is_expandable_slice found.0) ≡ false
        → normalize_bind_value offset_at marshal found.0 found.1 cfg.time_location ≡ ok nv
        → Stands v ti name (nv ∷ []) nv

  pub data AllStand (v : Value) (ti : Option TypeInfo)
      : List Placeholder → List (List Value) → List Value → Type 0 where
    no_names : AllStand v ti [] [] []
    name_stands :
        {p : Placeholder}
        → {places : List Placeholder} → {g : List Value} → {groups : List (List Value)}
        → {a : Value} → {whole : List Value} → Stands v ti p.name g a
        → AllStand v ti places groups whole
        → AllStand v ti (p ∷ places) (g ∷ groups) (a ∷ whole)

  -- The groups for the placeholders by the kind of the argument behind its pointers: a scalar and a
  -- slice stand for the one placeholder that there is, and a row is asked for each name.
  pub data Chosen (arg : Value) : List Placeholder → List (List Value) → List Value → Type 0 where
    by_scalar :
        {v : Value}
        → {p : Placeholder} → {nv : Value} → deref_value arg ≡ ok v
        → is_scalar_value v ≡ true
        → normalize_bind_value offset_at marshal v false cfg.time_location ≡ ok nv
        → Chosen arg (p ∷ []) ((nv ∷ []) ∷ []) (nv ∷ [])
    by_slice :
        {v : Value}
        → {p : Placeholder} → {items : List Value} → deref_value arg ≡ ok v
        → (is_direct_expand_slice v ≡ true) × (cfg.slice_expansion ≡ true)
        → expand_slice offset_at marshal v cfg.time_location ≡ ok items
        → Chosen arg (p ∷ []) (items ∷ []) (v ∷ [])
    by_row :
        {v : Value}
        → {ti : Option TypeInfo} → {places : List Placeholder} → {groups : List (List Value)}
        → {whole : List Value} → deref_value arg ≡ ok v
        → is_row (kind v) ≡ true
        → row_info offset_at marshal cfg v ≡ ok ti
        → AllStand v ti places groups whole
        → Chosen arg places groups whole

  pub Stands-IsSized :
      {v : Value} {ti : Option TypeInfo} {name : Bytes} {g : List Value} {a : Value}
      → Stands v ti name g a
      → IsSized cfg.slice_expansion g
  Stands-IsSized (omitted found looked zero) = inl refl
  Stands-IsSized (expanded found items looked full (on, slices) e) =
      inr (on, length-expand_slice found.0 cfg.time_location items e)
  Stands-IsSized (single found nv looked full kept e) = inl refl

  pub named_args-Stands :
      (v : Value) (ti : Option TypeInfo) (name : Bytes) (one : List Value × Value)
      → named_args offset_at marshal cfg v ti name ≡ ok one
      → Stands v ti name one.0 one.1
  unfolding named_args
  named_args-Stands v ti name one e =
      let (found, looked, later) = bind-eq-ok (lookup_named_value v ti name) _ e in
      elim (Bool-cases (found.2 && is_zero_any found.0)) [
        | inl empty ↦
            let same : (nil_value ∷ [], nil_value) ≡ one = ground arith in
            subst (λ o. Stands v ti name o.0 o.1) same
              (omitted found looked (ground arith, ground arith))
        | inr full ↦ elim (Bool-cases (cfg.slice_expansion && is_expandable_slice found.0)) [
          | inl expands ↦
              let next : (expand_slice offset_at marshal found.0 cfg.time_location >>= λ items.
              ok (items, found.0))
                  ≡ ok one =
                ground arith in
              let (items, expanded_to, done) =
                bind-eq-ok (expand_slice offset_at marshal found.0 cfg.time_location) _ next in
              let same : (items, found.0) ≡ one = cc in
              subst (λ o. Stands v ti name o.0 o.1) same
                (expanded found items looked full (ground arith, ground arith) expanded_to)
          | inr kept ↦
              let next : (normalize_bind_value offset_at marshal found.0 found.1 cfg.time_location
                    >>= λ nv. ok (nv ∷ [], nv))
                  ≡ ok one =
                ground arith in
              let (nv, normal, done) =
                bind-eq-ok
                  (normalize_bind_value offset_at marshal found.0 found.1 cfg.time_location) _
                  next in
              let same : (nv ∷ [], nv) ≡ one = cc in
              subst (λ o. Stands v ti name o.0 o.1) same (single found nv looked full kept normal)
        ]
      ]
