-- ===== src/Bind/Safe.antt =====
-- bind.go: bindNamed and panics.
use rainbowsquirrel.Base.{
  ℕ, ◌≡◌, ◌≢◌, refl, sym, ap, ◌∙◌, arith, Bool, true, false, not, ◌&&◌, ◌||◌, inl, inr, List, [],
  ◌∷◌, Option, none, some, Option-cases, Bytes, ℤ,
}
use rainbowsquirrel.Core.Outcome.{Outcome, ok, panic, ◌>>=◌, bind-eq-ok}
use rainbowsquirrel.Core.Settings.{Settings}
use rainbowsquirrel.Meta.Types.{GoType}
use rainbowsquirrel.Meta.Values.{
  Value, nil_value, bool_value, bytes_value, nil_pointer, pointer, nil_slice, slice_value,
  named_value, is_zero_any, is_valuer, slice_items, is_byte_slice,
}
use rainbowsquirrel.Meta.Collect.{TypeInfo, build_type_info}
use rainbowsquirrel.Meta.Typing.{HasType}
use rainbowsquirrel.Meta.Names.{build_type_info-Reaches}
use rainbowsquirrel.Meta.Safe.{then_no_panic, if_no_panic, build_type_info_no_panic}
use rainbowsquirrel.Bind.Parser.{Placeholder, parse_placeholders, named_places}
use rainbowsquirrel.Bind.Arguments.{
  kind, is_basic, is_slice, is_row, is_time, is_scalar_value, is_direct_expand_slice,
  is_expandable_slice, strip_pointers, deref_value, lookup_named_value, with_location, marshal_json,
  normalize_kind, normalize_bind_value, normalize_items, expand_slice,
}
use rainbowsquirrel.Bind.Named.{
  struct_type_of, get_type_info, row_info, named_args, bind_loop, bind_scalar, bind_items,
  bind_derefed, bind_places, bind_named,
}
use rainbowsquirrel.Bind.Lookups.{
  PlainKeys, Describes, lookup_named_value_no_panic, slice_items_some, expandable_behind,
  struct_type_of-is_struct, deref_value_no_panic, deref_value-strip_pointers,
}

module _ {Location : Type 0} (offset_at : Location → ℤ → ℤ) (marshal : Value → Outcome Bytes)
    (cfg : Settings Location) (marshal_no_panic : (v : Value) → marshal v ≢ panic) where
  normalize_kind_no_panic :
      (v : Value) (json : Bool) (loc : Option Location)
      → normalize_kind offset_at marshal v json loc ≢ panic
  unfolding normalize_kind marshal_json
  normalize_kind_no_panic v json loc =
      if_no_panic (is_basic (kind v) || is_byte_slice v || is_time v) _ _ (λ _ e. cc)
        (λ _.
          if_no_panic (json && (is_slice (kind v) || is_row (kind v))) _ _
            (λ _.
              then_no_panic (marshal (with_location offset_at marshal v loc)) _ (marshal_no_panic _)
                (λ b _ e. cc))
            (λ _ e. cc))

  -- What follows the pointers.
  normalize_behind_no_panic :
      (v : Value) (json : Bool) (loc : Option Location)
      → elim (strip_pointers v) [
        | none ↦ ok nil_value
        | some w ↦ normalize_kind offset_at marshal w json loc
      ]
        ≢ panic
  normalize_behind_no_panic v json loc = elim (Option-cases (strip_pointers v)) [
    | inl shut ↦ rw shut (λ e. cc)
    | inr (w, behind) ↦ rw behind (normalize_kind_no_panic w json loc)
  ]

  normalize_no_panic :
      (v : Value) (json : Bool) (loc : Option Location)
      → normalize_bind_value offset_at marshal v json loc ≢ panic
  unfolding normalize_bind_value
  normalize_no_panic nil_value json loc = λ e. cc
  normalize_no_panic (bool_value b) json loc =
      if_no_panic (is_valuer (bool_value b)) _ _ (λ _ e. cc)
        (λ _. normalize_behind_no_panic (bool_value b) json loc)
  normalize_no_panic v json loc =
      if_no_panic (is_valuer v) _ _ (λ _ e. cc) (λ _. normalize_behind_no_panic v json loc)

  normalize_items_no_panic :
      (vs : List Value) (loc : Option Location) → normalize_items offset_at marshal vs loc ≢ panic
  unfolding normalize_items
  normalize_items_no_panic [] loc = λ e. cc
  normalize_items_no_panic (v ∷ vs) loc =
      then_no_panic (normalize_bind_value offset_at marshal v false loc) _
        (normalize_no_panic v false loc)
        (λ item _.
          then_no_panic (normalize_items offset_at marshal vs loc) _
            (normalize_items_no_panic vs loc) (λ items _ e. cc))

  expand_slice_no_panic :
      (v w : Value) (loc : Option Location)
      → strip_pointers v ≡ some w
      → is_slice (kind w) ≡ true
      → expand_slice offset_at marshal v loc ≢ panic
  unfolding expand_slice
  expand_slice_no_panic v w loc behind s = elim (Option-cases (slice_items w)) [
    | inl none_found ↦ absurd (slice_items_some w s none_found)
    | inr ((t, []), found) ↦ rw (expand_slice, behind, found) (λ e. cc)
    | inr ((t, x ∷ xs), found) ↦
        rw (expand_slice, behind, found) (normalize_items_no_panic (x ∷ xs) loc)
  ]

  expandable_no_panic :
      (v : Value) (loc : Option Location)
      → is_expandable_slice v ≡ true
      → expand_slice offset_at marshal v loc ≢ panic
  expandable_no_panic v loc e =
      let (w, behind, s) = expandable_behind v e in expand_slice_no_panic v w loc behind s

  named_args_no_panic :
      (v : Value) (ti : Option TypeInfo) (name : Bytes)
      → PlainKeys v
      → Describes v ti
      → named_args offset_at marshal cfg v ti name ≢ panic
  unfolding named_args
  named_args_no_panic v ti name keys h =
      then_no_panic (lookup_named_value v ti name) _ (lookup_named_value_no_panic v ti name keys h)
        (λ found _.
          if_no_panic (found.2 && is_zero_any found.0) _ _ (λ _ e. cc)
            (λ _.
              if_no_panic (cfg.slice_expansion && is_expandable_slice found.0) _ _
                (λ expands.
                  then_no_panic (expand_slice offset_at marshal found.0 cfg.time_location) _
                    (expandable_no_panic found.0 cfg.time_location (ground arith))
                    (λ items _ e. cc))
                (λ _.
                  then_no_panic
                    (normalize_bind_value offset_at marshal found.0 found.1 cfg.time_location) _
                    (normalize_no_panic found.0 found.1 cfg.time_location) (λ nv _ e. cc))))

  bind_loop_no_panic :
      (query : Bytes) (v : Value) (ti : Option TypeInfo) (last : ℕ) (places : List Placeholder)
      → PlainKeys v
      → Describes v ti
      → bind_loop offset_at marshal cfg query v ti last places ≢ panic
  unfolding bind_loop
  bind_loop_no_panic query v ti last [] keys h = λ e. cc
  bind_loop_no_panic query v ti last (p ∷ places) keys h =
      then_no_panic (named_args offset_at marshal cfg v ti p.name) _
        (named_args_no_panic v ti p.name keys h)
        (λ one _.
          then_no_panic (bind_loop offset_at marshal cfg query v ti p.end places) _
            (bind_loop_no_panic query v ti p.end places keys h) (λ bound _ e. cc))

  bind_scalar_no_panic :
      (query : Bytes) (v : Value) (places : List Placeholder)
      → bind_scalar offset_at marshal cfg query v places ≢ panic
  unfolding bind_scalar
  bind_scalar_no_panic query v [] = λ e. cc
  bind_scalar_no_panic query v (p ∷ q ∷ places) = λ e. cc
  bind_scalar_no_panic query v (p ∷ []) =
      then_no_panic (normalize_bind_value offset_at marshal v false cfg.time_location) _
        (normalize_no_panic v false cfg.time_location) (λ nv _ e. cc)

  bind_items_no_panic :
      (query : Bytes) (v w : Value) (places : List Placeholder)
      → strip_pointers v ≡ some w
      → is_slice (kind w) ≡ true
      → bind_items offset_at marshal cfg query v places ≢ panic
  unfolding bind_items
  bind_items_no_panic query v w [] behind s = λ e. cc
  bind_items_no_panic query v w (p ∷ q ∷ places) behind s = λ e. cc
  bind_items_no_panic query v w (p ∷ []) behind s =
      then_no_panic (expand_slice offset_at marshal v cfg.time_location) _
        (expand_slice_no_panic v w cfg.time_location behind s) (λ items _ e. cc)

  row_info_no_panic : (v : Value) → row_info offset_at marshal cfg v ≢ panic
  unfolding row_info get_type_info
  row_info_no_panic v = elim (Option-cases (struct_type_of v)) [
    | inl other ↦ rw (row_info, other) (λ e. cc)
    | inr (t, found) ↦
        rw (row_info, found)
          (then_no_panic (build_type_info t cfg.tag_name cfg.name_mapper) _
            (build_type_info_no_panic cfg.tag_name cfg.name_mapper t
              (struct_type_of-is_struct v t found))
            (λ ti _ e. cc))
  ]

  row_info-Describes :
      (v : Value) (ti : Option TypeInfo)
      → ((t : GoType) → struct_type_of v ≡ some t → HasType t v)
      → row_info offset_at marshal cfg v ≡ ok ti
      → Describes v ti
  unfolding row_info get_type_info
  row_info-Describes v none typed e = tt
  row_info-Describes v (some ti) typed e = elim (Option-cases (struct_type_of v)) [
    | inl other ↦ absurd (ground arith)
    | inr (t, found) ↦
        let opened : row_info offset_at marshal cfg v
            ≡ (build_type_info t cfg.tag_name cfg.name_mapper >>= λ u. ok (some u)) =
          rw (row_info, found) refl in
        let (u, built, done) =
          bind-eq-ok (build_type_info t cfg.tag_name cfg.name_mapper) _ (sym opened ∙ e) in
        let same : u ≡ ti = cc in
        let own : build_type_info t cfg.tag_name cfg.name_mapper ≡ ok ti = built ∙ ap ok same in
        λ name.
          (build_type_info-Reaches t v cfg.tag_name cfg.name_mapper ti name (typed t found) own).0
  ]

  -- A slice is not behind a pointer.
  slice_stripped : (v : Value) → is_slice (kind v) ≡ true → strip_pointers v ≡ some v
  unfolding is_slice kind strip_pointers
  slice_stripped (bytes_value b) s = refl
  slice_stripped (nil_slice t) s = refl
  slice_stripped (slice_value t vs) s = refl
  slice_stripped (named_value m (nil_pointer t)) s = cc
  slice_stripped (named_value m (pointer v)) s = cc
  slice_stripped (named_value m (bool_value b)) s = refl
  slice_stripped (named_value m v) s = refl
  slice_stripped (bool_value b) s = refl
  slice_stripped (nil_pointer t) s = cc
  slice_stripped (pointer t) s = cc
  slice_stripped v s = refl

  bind_derefed_no_panic :
      (query : Bytes) (v : Value) (places : List Placeholder)
      → ((t : GoType) → struct_type_of v ≡ some t → HasType t v)
      → PlainKeys v
      → bind_derefed offset_at marshal cfg query v places ≢ panic
  unfolding bind_derefed is_direct_expand_slice
  bind_derefed_no_panic query v places typed keys =
      if_no_panic (is_scalar_value v) _ _ (λ _. bind_scalar_no_panic query v places)
        (λ _.
          if_no_panic (is_direct_expand_slice v && cfg.slice_expansion) _ _
            (λ direct.
              let s : is_slice (kind v) ≡ true = ground arith in
              bind_items_no_panic query v v places (slice_stripped v s) s)
            (λ _.
              if_no_panic (not (is_row (kind v))) _ _ (λ _ e. cc)
                (λ _.
                  then_no_panic (row_info offset_at marshal cfg v) _ (row_info_no_panic v)
                    (λ ti found.
                      bind_loop_no_panic query v ti 0 places keys
                        (row_info-Describes v ti typed found)))))

  bind_places_no_panic :
      (query : Bytes) (arg : Value) (places : List Placeholder)
      → ((v : Value) (t : GoType)
          → strip_pointers arg ≡ some v
          → struct_type_of v ≡ some t
          → HasType t v)
      → ((v : Value) → strip_pointers arg ≡ some v → PlainKeys v)
      → bind_places offset_at marshal cfg query arg places ≢ panic
  unfolding bind_places
  bind_places_no_panic query arg [] typed keys = λ e. cc
  bind_places_no_panic query arg (p ∷ places) typed keys =
      then_no_panic (deref_value arg) _ (deref_value_no_panic arg) (λ v found.
        let behind = deref_value-strip_pointers arg v found in
        bind_derefed_no_panic query v (p ∷ places) (λ t. typed v t behind) (keys v behind))

  -- If json.Marshal does not panic, and what lies behind the pointers of the argument is of its type
  -- where it is a struct, and no map whose key type is defined by string, then bindNamed does not
  -- panic: it returns a result or an error.
  pub bind_named_no_panic :
      (query : Bytes) (arg : Value)
      → ((v : Value) (t : GoType)
          → strip_pointers arg ≡ some v
          → struct_type_of v ≡ some t
          → HasType t v)
      → ((v : Value) → strip_pointers arg ≡ some v → PlainKeys v)
      → bind_named offset_at marshal cfg query arg ≢ panic
  unfolding bind_named
  bind_named_no_panic query arg typed keys =
      bind_places_no_panic query arg (named_places (parse_placeholders query)) typed keys
