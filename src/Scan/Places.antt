-- ===== src/Scan/Places.antt =====
-- scan.go and meta.go: a field of a struct is set, and the types.
use rainbowsquirrel.Base.{ℕ, zero, suc, ◌≡◌, inl, inr, refl, subst, arith, List, [], ◌∷◌, some}
use rainbowsquirrel.Core.Outcome.{Outcome, ok, fail, panic, ◌>>=◌, bind-eq-ok}
use rainbowsquirrel.Meta.Types.{GoType, Fields, StructField, struct_type, named}
use rainbowsquirrel.Meta.Values.{Value, Values, struct_value, value_cons}
use rainbowsquirrel.Meta.Collect.{nth_field, field_at}
use rainbowsquirrel.Meta.Typing.{
  HasType, FieldsTyped, struct_typed, named_typed, pointer_typed, nil_pointer_typed, bool_typed,
  interface_typed, fields_typed_nil, fields_typed_cons, pointed_type, path_type, path_type_step,
  field_by_index-Reaches,
}
use rainbowsquirrel.Convert.Sets.{Sets, sets, sets_fail, sets_panic}
use rainbowsquirrel.Scan.Target.{set_nth, set_field, set_through, set_by_index}

set_nth-FieldsTyped :
    {fs : Fields} {vs : Values} (i : ℕ) (h : StructField) (ft : GoType) (w : Value) (us : Values)
    → FieldsTyped fs vs
    → nth_field fs i ≡ some (h, ft)
    → HasType ft w
    → set_nth vs i w ≡ ok us
    → FieldsTyped fs us
unfolding set_nth nth_field
set_nth-FieldsTyped i h ft w us fields_typed_nil found typed e = absurd (ground arith)
set_nth-FieldsTyped zero h ft w us
      (fields_typed_cons {h = h'} {t = t} {fs = fs} {vs = vs} first rest) found typed e =
    let field_same : ft ≡ t = ground arith in
    let same : value_cons w vs ≡ us = ground arith in
    subst (FieldsTyped _) same (fields_typed_cons (subst (λ u. HasType u w) field_same typed) rest)
set_nth-FieldsTyped (suc i) h ft w us (fields_typed_cons {v = v} {vs = vs} first rest) found typed
      e =
    let (ws, set_so, last) = bind-eq-ok (set_nth vs i w) _ e in
    let same : value_cons v ws ≡ us = ground arith in
    subst (FieldsTyped _) same
      (fields_typed_cons first (set_nth-FieldsTyped i h ft w ws rest found typed set_so))

struct-Sets :
    (fs : Fields) (r : Outcome Values)
    → ((us : Values) → r ≡ ok us → FieldsTyped fs us)
    → Sets (struct_type fs) (r >>= λ us. ok (struct_value fs us))
struct-Sets fs (ok us) h = sets (struct_typed (h us refl))
struct-Sets fs (fail e) h = sets_fail
struct-Sets fs panic h = sets_panic

-- What follows a step that sets a value of a type.
pub Sets-then :
    (s t : GoType) (r : Outcome Value) (f : Value → Outcome Value)
    → Sets s r
    → ((u : Value) → HasType s u → Sets t (f u))
    → Sets t (r >>= f)
Sets-then s t (ok u) f (sets typed) h = h u typed
Sets-then s t (fail e) f k h = sets_fail
Sets-then s t panic f k h = sets_panic

pub Sets-eq-ok : (t : GoType) (r : Outcome Value) (v : Value) → Sets t r → r ≡ ok v → HasType t v
Sets-eq-ok t (ok w) v (sets typed) e = let same : w ≡ v = cc in subst (λ u. HasType t u) same typed
Sets-eq-ok t (fail x) v h e = cc
Sets-eq-ok t panic v h e = cc

set_field-Sets :
    {t : GoType} {v : Value} (i : ℕ) (h : StructField) (ft : GoType) (w : Value)
    → HasType t v
    → field_at t i ≡ some (h, ft)
    → HasType ft w
    → Sets t (set_field v i w)
unfolding set_field field_at
set_field-Sets i h ft w (struct_typed {fs = fs} fields) found typed =
    struct-Sets fs _ (λ us e. set_nth-FieldsTyped i h ft w us fields found typed e)
set_field-Sets i h ft w (named_typed {m = m} {t = t} inner) found typed =
    Sets-then t (named m t) _ _ (set_field-Sets i h ft w inner found typed)
      (λ u good. sets (named_typed good))
set_field-Sets i h ft w (bool_typed b) found typed = absurd (ground arith)
set_field-Sets i h ft w _ found typed = absurd (ground arith)

set_through-Sets :
    {t : GoType} {v : Value} (i : ℕ) (h : StructField) (ft : GoType) (w : Value)
    → HasType t v
    → field_at (pointed_type t) i ≡ some (h, ft)
    → HasType ft w
    → Sets t (set_through v i w)
unfolding set_through pointed_type set_field field_at
set_through-Sets i h ft w (pointer_typed {t = t} inner) found typed =
    Sets-then t _ _ _ (set_field-Sets i h ft w inner found typed)
      (λ u good. sets (pointer_typed good))
set_through-Sets i h ft w (nil_pointer_typed t) found typed = sets_panic
set_through-Sets i h ft w (bool_typed b) found typed = absurd (ground arith)
set_through-Sets i h ft w (interface_typed v) found typed = absurd (ground arith)
set_through-Sets i h ft w (struct_typed fields) found typed =
    set_field-Sets i h ft w (struct_typed fields) found typed
set_through-Sets i h ft w (named_typed inner) found typed =
    set_field-Sets i h ft w (named_typed inner) found typed
set_through-Sets i h ft w _ found typed = absurd (ground arith)

-- A value of a type stays one when a field on a path of the type is set to a value of its type.
pub set_by_index-Sets :
    (index : List ℕ) {t : GoType} {v : Value} (ft : GoType) (w : Value)
    → HasType t v
    → path_type t index ≡ some ft
    → HasType ft w
    → Sets t (set_by_index v index w)
unfolding set_by_index path_type
set_by_index-Sets [] {t} {v} ft w typed e good =
    let same : ft ≡ t = cc in sets (subst (λ u. HasType u w) same good)
set_by_index-Sets (i ∷ index) {t} {v} ft w typed e good =
    let (h, mid, found, rest) = path_type_step t i index ft e in
    let one : path_type t (i ∷ []) ≡ some mid = ground arith in
    elim (field_by_index-Reaches (i ∷ []) mid typed one) [
      | inl shut ↦ rw shut sets_panic
      | inr (inner, there, inner_typed) ↦ rw there (
          Sets-then mid t (set_by_index inner index w) _
            (set_by_index-Sets index ft w inner_typed rest good)
            (λ u u_typed. set_through-Sets i h mid u typed found u_typed))
    ]
