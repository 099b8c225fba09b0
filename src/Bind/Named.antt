-- ===== src/Bind/Named.antt =====
-- bind.go: bindNamed, with getTypeInfo as it uses it. The answer of
-- getTypeInfo is what buildTypeInfo gives; its cache is left out.
use rainbowsquirrel.Base.{
  ℕ, zero, suc, false, not, ◌&&◌, List, [], ◌∷◌, ◌++◌, Option, none, some, Bytes, ℤ, length, drop,
  slice, if◌then◌else◌,
}
use rainbowsquirrel.Core.Errors.{unsupported_type}
use rainbowsquirrel.Core.Outcome.{Outcome, ok, fail, ◌>>=◌}
use rainbowsquirrel.Core.Settings.{Settings}
use rainbowsquirrel.Meta.Types.{GoType, struct_type, time_type, named}
use rainbowsquirrel.Meta.Values.{
  Value, nil_value, struct_value, time_value, named_value, is_zero_any,
}
use rainbowsquirrel.Meta.Collect.{TypeInfo, build_type_info}
use rainbowsquirrel.Bind.Parser.{Placeholder, parse_placeholders, named_places}
use rainbowsquirrel.Bind.Arguments.{
  kind, deref_value, is_row, is_scalar_value, is_direct_expand_slice, is_expandable_slice,
  positional_args, lookup_named_value, normalize_bind_value, expand_slice,
}

-- The type of a value of a struct kind.
unfoldable pub struct_type_of : Value → Option GoType
struct_type_of (struct_value fs vs) = some (struct_type fs)
struct_type_of (time_value nano offset) = some time_type
struct_type_of (named_value m v) =
    let t = struct_type_of v in elim t [ none ↦ none | some u ↦ some (named m u) ]
struct_type_of _ = none

-- `?,?,...` for that many arguments.
unfoldable pub question_marks : ℕ → Bytes
question_marks zero = []
question_marks (suc zero) = b'?' ∷ []
question_marks (suc (suc n)) = b'?' ∷ b',' ∷ question_marks (suc n)

-- What bindNamed returns: bindSQL, the final arguments and those before expansion.
pub record Bound : Type 0 where
  pub text : Bytes
  pub args : List Value
  pub bind_args : List Value

module _ {Location : Type 0} (offset_at : Location → ℤ → ℤ) (marshal : Value → Outcome Bytes)
    (cfg : Settings Location) where
  unfoldable pub get_type_info : GoType → Outcome TypeInfo
  get_type_info t = build_type_info t cfg.tag_name cfg.name_mapper

  -- `var ti *typeInfo`, filled in for a struct.
  unfoldable pub row_info : Value → Outcome (Option TypeInfo)
  unfolding struct_type_of get_type_info
  row_info v = elim (struct_type_of v) [
    | none ↦ ok none
    | some t ↦ get_type_info t >>= λ ti. ok (some ti)
  ]

  -- One turn of the loop: the arguments that the name stands for, and the one before expansion.
  unfoldable pub named_args : Value → Option TypeInfo → Bytes → Outcome (List Value × Value)
  named_args v ti name = lookup_named_value v ti name >>= λ found.
      if found.2 && is_zero_any found.0
      then ok (nil_value ∷ [], nil_value)
      else if cfg.slice_expansion && is_expandable_slice found.0
      then (expand_slice offset_at marshal found.0 cfg.time_location >>= λ items.
          ok (items, found.0))
      else (normalize_bind_value offset_at marshal found.0 found.1 cfg.time_location >>= λ nv.
          ok (nv ∷ [], nv))

  -- The loop over the named placeholders: `last` is where the text starts that is still to be
  -- copied.
  unfoldable pub bind_loop : Bytes → Value → Option TypeInfo → ℕ → List Placeholder → Outcome Bound
  unfolding named_args question_marks
  bind_loop query v ti last [] = ok (record { text = drop last query; args = []; bind_args = [] })
  bind_loop query v ti last (p ∷ places) =
      let rest = bind_loop query v ti p.end places in
      named_args v ti p.name >>= λ one. rest >>= λ bound. ok (record {
        text = slice query last p.pos ++ (question_marks (length one.0) ++ bound.text);
        args = one.0 ++ bound.args;
        bind_args = one.1 ∷ bound.bind_args;
      })

  -- `query[:p.pos] + marks + query[p.end:]`
  unfoldable pub put_marks : Bytes → Placeholder → ℕ → Bytes
  unfolding question_marks
  put_marks query p n = slice query 0 p.pos ++ (question_marks n ++ drop p.end query)

  unfoldable pub bind_scalar : Bytes → Value → List Placeholder → Outcome Bound
  unfolding put_marks
  bind_scalar query v (p ∷ []) =
      normalize_bind_value offset_at marshal v false cfg.time_location >>= λ nv.
      ok (record { text = put_marks query p 1; args = nv ∷ []; bind_args = nv ∷ [] })
  bind_scalar query v places = fail unsupported_type

  unfoldable pub bind_items : Bytes → Value → List Placeholder → Outcome Bound
  unfolding put_marks
  bind_items query v (p ∷ []) = expand_slice offset_at marshal v cfg.time_location >>= λ items.
      ok (record { text = put_marks query p (length items); args = items; bind_args = v ∷ [] })
  bind_items query v places = fail unsupported_type

  -- bindNamed behind derefValue.
  unfoldable pub bind_derefed : Bytes → Value → List Placeholder → Outcome Bound
  unfolding bind_loop bind_scalar bind_items row_info
  bind_derefed query v places =
      if is_scalar_value v
      then bind_scalar query v places
      else if is_direct_expand_slice v && cfg.slice_expansion
      then bind_items query v places
      else if not (is_row (kind v))
      then fail unsupported_type
      else row_info v >>= λ ti. bind_loop query v ti 0 places

  unfoldable pub bind_places : Bytes → Value → List Placeholder → Outcome Bound
  unfolding bind_derefed
  bind_places query arg [] =
      ok (record { text = query; args = positional_args arg; bind_args = positional_args arg })
  bind_places query arg (p ∷ places) = deref_value arg >>= λ v. bind_derefed query v (p ∷ places)

  unfoldable pub bind_named : Bytes → Value → Outcome Bound
  unfolding bind_places
  bind_named query arg = bind_places query arg (named_places (parse_placeholders query))
