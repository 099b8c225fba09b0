-- ===== src/Bind/Groups.antt =====
-- bind.go: the text of bindNamed, and the arguments that stand behind its question marks.
use rainbowsquirrel.Base.{
  ℕ, suc, ◌≡◌, ◌≢◌, refl, subst, sym, ap, arith, true, false, ◌&&◌, Bool-cases, inl, inr, List, [],
  ◌∷◌, ◌++◌, append-nil, Option, Bytes, ℤ, length, drop, slice,
}
use rainbowsquirrel.Core.Outcome.{Outcome, ok, ◌>>=◌, bind-eq-ok}
use rainbowsquirrel.Core.Settings.{Settings}
use rainbowsquirrel.Meta.Values.{Value}
use rainbowsquirrel.Meta.Collect.{TypeInfo}
use rainbowsquirrel.Bind.Parser.{Placeholder, parse_placeholders, named_places}
use rainbowsquirrel.Bind.Arguments.{
  kind, deref_value, is_row, is_scalar_value, is_direct_expand_slice, normalize_bind_value,
  expand_slice,
}
use rainbowsquirrel.Bind.Named.{
  question_marks, Bound, row_info, named_args, bind_loop, put_marks, bind_scalar, bind_items,
  bind_derefed, bind_places, bind_named,
}
use rainbowsquirrel.Bind.Stands.{
  put_groups, IsGrouped, AllStand, no_names, name_stands, Chosen, by_scalar, by_slice, by_row,
  length-expand_slice, Stands-IsSized, named_args-Stands,
}

module _ {Location : Type 0} (offset_at : Location → ℤ → ℤ) (marshal : Value → Outcome Bytes)
    (cfg : Settings Location) where
  bind_loop-IsGrouped :
      (query : Bytes) (v : Value) (ti : Option TypeInfo) (last : ℕ) (places : List Placeholder)
      (bound : Bound)
      → bind_loop offset_at marshal cfg query v ti last places ≡ ok bound
      → IsGrouped (AllStand offset_at marshal cfg v ti) cfg.slice_expansion query last places bound
  unfolding bind_loop put_groups
  bind_loop-IsGrouped query v ti last [] bound e =
      let same : record { text = drop last query; args = []; bind_args = [] } ≡ bound = cc in
      subst
        (λ b. IsGrouped (AllStand offset_at marshal cfg v ti) cfg.slice_expansion query last [] b)
        same ([], refl, tt, refl, refl, refl, no_names)
  bind_loop-IsGrouped query v ti last (p ∷ places) bound e =
      let (one, first, later) = bind-eq-ok (named_args offset_at marshal cfg v ti p.name) _ e in
      let (more, others, done) =
        bind-eq-ok (bind_loop offset_at marshal cfg query v ti p.end places) _ later in
      let stands = named_args-Stands offset_at marshal cfg v ti p.name one first in
      let (groups, many, full, args, text, bind_args, others_stand) =
        bind_loop-IsGrouped query v ti p.end places more others in
      let same : record {
        text = slice query last p.pos ++ (question_marks (length one.0) ++ more.text);
        args = one.0 ++ more.args;
        bind_args = one.1 ∷ more.bind_args;
      }
          ≡ bound =
        cc in
      subst
        (λ b.
          IsGrouped (AllStand offset_at marshal cfg v ti) cfg.slice_expansion query last
            (p ∷ places) b)
        same
        (
          one.0 ∷ groups,
          ap suc many,
          (Stands-IsSized offset_at marshal cfg stands, full),
          ap (λ r. one.0 ++ r) args,
          ap (λ r. slice query last p.pos ++ (question_marks (length one.0) ++ r)) text,
          ap suc bind_args,
          name_stands stands others_stand,
        )

  bind_scalar-IsGrouped :
      (query : Bytes) (arg v : Value) (places : List Placeholder) (bound : Bound)
      → deref_value arg ≡ ok v
      → is_scalar_value v ≡ true
      → bind_scalar offset_at marshal cfg query v places ≡ ok bound
      → IsGrouped (Chosen offset_at marshal cfg arg) cfg.slice_expansion query 0 places bound
  unfolding bind_scalar put_marks put_groups
  bind_scalar-IsGrouped query arg v [] bound behind scalar e = cc
  bind_scalar-IsGrouped query arg v (p ∷ q ∷ places) bound behind scalar e = cc
  bind_scalar-IsGrouped query arg v (p ∷ []) bound behind scalar e =
      let (nv, normal, done) =
        bind-eq-ok (normalize_bind_value offset_at marshal v false cfg.time_location) _ e in
      let same : record {
        text = slice query 0 p.pos ++ (question_marks 1 ++ drop p.end query);
        args = nv ∷ [];
        bind_args = nv ∷ [];
      }
          ≡ bound =
        cc in
      subst
        (λ b. IsGrouped (Chosen offset_at marshal cfg arg) cfg.slice_expansion query 0 (p ∷ []) b)
        same
        ((nv ∷ []) ∷ [], refl, (inl refl, tt), refl, refl, refl, by_scalar behind scalar normal)

  bind_items-IsGrouped :
      (query : Bytes) (arg v : Value) (places : List Placeholder) (bound : Bound)
      → deref_value arg ≡ ok v
      → is_direct_expand_slice v ≡ true
      → cfg.slice_expansion ≡ true
      → bind_items offset_at marshal cfg query v places ≡ ok bound
      → IsGrouped (Chosen offset_at marshal cfg arg) cfg.slice_expansion query 0 places bound
  unfolding bind_items put_marks put_groups
  bind_items-IsGrouped query arg v [] bound behind direct on e = cc
  bind_items-IsGrouped query arg v (p ∷ q ∷ places) bound behind direct on e = cc
  bind_items-IsGrouped query arg v (p ∷ []) bound behind direct on e =
      let (items, spread, done) =
        bind-eq-ok (expand_slice offset_at marshal v cfg.time_location) _ e in
      let same : record {
        text = slice query 0 p.pos ++ (question_marks (length items) ++ drop p.end query);
        args = items;
        bind_args = v ∷ [];
      }
          ≡ bound =
        cc in
      subst
        (λ b. IsGrouped (Chosen offset_at marshal cfg arg) cfg.slice_expansion query 0 (p ∷ []) b)
        same
        (
          items ∷ [],
          refl,
          (inr (on, length-expand_slice offset_at marshal cfg v _ items spread), tt),
          sym (append-nil items),
          refl,
          refl,
          by_slice behind (direct, on) spread,
        )

  bind_derefed-IsGrouped :
      (query : Bytes) (arg v : Value) (places : List Placeholder) (bound : Bound)
      → deref_value arg ≡ ok v
      → bind_derefed offset_at marshal cfg query v places ≡ ok bound
      → IsGrouped (Chosen offset_at marshal cfg arg) cfg.slice_expansion query 0 places bound
  unfolding bind_derefed
  bind_derefed-IsGrouped query arg v places bound behind e = elim (Bool-cases (is_scalar_value v)) [
    | inl scalar ↦ bind_scalar-IsGrouped query arg v places bound behind scalar (ground arith)
    | inr wide ↦ elim (Bool-cases (is_direct_expand_slice v && cfg.slice_expansion)) [
      | inl direct ↦
          bind_items-IsGrouped query arg v places bound behind (ground arith) (ground arith)
            (ground arith)
      | inr kept ↦ elim (Bool-cases (is_row (kind v))) [
        | inl row ↦
            let next : (row_info offset_at marshal cfg v >>= λ ti.
            bind_loop offset_at marshal cfg query v ti 0 places)
                ≡ ok bound =
              ground arith in
            let (ti, found, done) = bind-eq-ok (row_info offset_at marshal cfg v) _ next in
            let (groups, many, full, args, text, bind_args, stand) =
              bind_loop-IsGrouped query v ti 0 places bound done in
            (groups, many, full, args, text, bind_args, by_row behind row found stand)
        | inr other ↦ absurd (ground arith)
      ]
    ]
  ]

  bind_places-IsGrouped :
      (query : Bytes) (arg : Value) (places : List Placeholder) (bound : Bound)
      → places ≢ []
      → bind_places offset_at marshal cfg query arg places ≡ ok bound
      → IsGrouped (Chosen offset_at marshal cfg arg) cfg.slice_expansion query 0 places bound
  unfolding bind_places
  bind_places-IsGrouped query arg [] bound some_name e = absurd (some_name refl)
  bind_places-IsGrouped query arg (p ∷ places) bound some_name e =
      let (v, behind, next) = bind-eq-ok (deref_value arg) _ e in
      bind_derefed-IsGrouped query arg v (p ∷ places) bound behind next

  -- When bindNamed binds a query that has named placeholders, there is a group of arguments for
  -- each of them, in the order of the names: a scalar or an expanded slice that is bound directly
  -- is the group of the one placeholder; otherwise a group is what lookupNamedValue finds in the
  -- argument under that placeholder's own name, that is nil for a zero with omitempty, the elements
  -- of a slice with slice expansion, or the value normalized. The final arguments are the groups
  -- one after the other, the text is the query with each name replaced by as many question marks
  -- as its group has arguments, and the arguments before expansion are one for each name.
  pub bind_named-IsGrouped :
      (query : Bytes) (arg : Value) (bound : Bound)
      → named_places (parse_placeholders query) ≢ []
      → bind_named offset_at marshal cfg query arg ≡ ok bound
      → IsGrouped
          (Chosen offset_at marshal cfg arg)
          cfg.slice_expansion
          query
          0
          (named_places (parse_placeholders query))
          bound
  unfolding bind_named
  bind_named-IsGrouped query arg bound some_name e =
      bind_places-IsGrouped query arg (named_places (parse_placeholders query)) bound some_name e
