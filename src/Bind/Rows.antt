-- ===== src/Bind/Rows.antt =====
-- bind.go: the rows of bindNamedMany and their values.
use rainbowsquirrel.Base.{
  suc, ◌≡◌, refl, subst, sym, ap, ◌∙◌, arith, true, Bool-cases, inl, inr, List, [], ◌∷◌, ◌++◌,
  Option, none, Bytes, ℤ, length,
}
use rainbowsquirrel.Core.Outcome.{Outcome, ok, ◌>>=◌, bind-eq-ok}
use rainbowsquirrel.Core.Settings.{Settings}
use rainbowsquirrel.Meta.Values.{Value}
use rainbowsquirrel.Meta.Collect.{TypeInfo}
use rainbowsquirrel.Bind.Parser.{Placeholder}
use rainbowsquirrel.Bind.Arguments.{kind, is_row, deref_value, bind_value}
use rainbowsquirrel.Bind.Stands.{concat}
use rainbowsquirrel.Bind.Many.{first_info, resolve_rows, row_args, group_args}

module _ {Location : Type 0} (offset_at : Location → ℤ → ℤ) (marshal : Value → Outcome Bytes)
    (cfg : Settings Location) where
  -- The rows behind the arguments' pointers, with the metadata of the first that is a struct.
  pub data Resolved : Option TypeInfo → List Value → List Value → Option TypeInfo → Type 0 where
    resolved : {ti : Option TypeInfo} → Resolved ti [] [] ti
    resolving :
        {ti ti' ti'' : Option TypeInfo}
        → {a v : Value} → {args rows : List Value} → deref_value a ≡ ok v
        → is_row (kind v) ≡ true
        → first_info offset_at marshal cfg ti v ≡ ok ti'
        → Resolved ti' args rows ti''
        → Resolved ti (a ∷ args) (v ∷ rows) ti''

  -- The values of a row, one for each name, each bound under its own name.
  pub data RowStands (v : Value) (ti : Option TypeInfo)
      : List Placeholder → List Value → Type 0 where
    no_values : RowStands v ti [] []
    value_stands :
        {p : Placeholder}
        → {places : List Placeholder} → {value : Value} → {values : List Value}
        → bind_value offset_at marshal v ti p.name cfg.time_location ≡ ok value
        → RowStands v ti places values
        → RowStands v ti (p ∷ places) (value ∷ values)

  pub data RowsStand (ti : Option TypeInfo) (places : List Placeholder)
      : List Value → List (List Value) → Type 0 where
    no_rows : RowsStand ti places [] []
    row_stands :
        {v : Value}
        → {rows g : List Value} → {groups : List (List Value)} → RowStands v ti places g
        → RowsStand ti places rows groups
        → RowsStand ti places (v ∷ rows) (g ∷ groups)

  -- The groups for the arguments.
  abbrev pub Given : List Value → List Placeholder → List (List Value) → Type 0
  Given args places groups =
      (rows : List Value) × (ti : Option TypeInfo) × Resolved none args rows ti
      × RowsStand ti places rows groups

  row_args-RowStands :
      (v : Value) (ti : Option TypeInfo) (group : List Placeholder) (args : List Value)
      → row_args offset_at marshal cfg v ti group ≡ ok args
      → RowStands v ti group args
  unfolding row_args
  row_args-RowStands v ti [] args e =
      let same : [] ≡ args = cc in subst (RowStands v ti []) same no_values
  row_args-RowStands v ti (p ∷ group) args e =
      let (value, first, later) =
        bind-eq-ok (bind_value offset_at marshal v ti p.name cfg.time_location) _ e in
      let (rest, others, done) = bind-eq-ok (row_args offset_at marshal cfg v ti group) _ later in
      let same : value ∷ rest ≡ args = cc in
      subst (RowStands v ti (p ∷ group)) same
        (value_stands first (row_args-RowStands v ti group rest others))

  pub group_args-concat :
      (rows : List Value) (ti : Option TypeInfo) (group : List Placeholder) (args : List Value)
      → group_args offset_at marshal cfg rows ti group ≡ ok args
      → (groups : List (List Value)) × (length groups ≡ length rows)
        × RowsStand ti group rows groups
        × (args ≡ concat groups)
  unfolding group_args
  group_args-concat [] ti group args e = let same : [] ≡ args = cc in ([], refl, no_rows, sym same)
  group_args-concat (v ∷ rows) ti group args e =
      let (one, first, later) = bind-eq-ok (row_args offset_at marshal cfg v ti group) _ e in
      let (rest, others, done) =
        bind-eq-ok (group_args offset_at marshal cfg rows ti group) _ later in
      let (groups, count, stand, all) = group_args-concat rows ti group rest others in
      let same : one ++ rest ≡ args = cc in
      (
        one ∷ groups,
        ap suc count,
        row_stands (row_args-RowStands v ti group one first) stand,
        sym same ∙ ap (λ r. one ++ r) all,
      )

  pub resolve_rows-Resolved :
      (ti : Option TypeInfo) (args : List Value) (found : List Value × Option TypeInfo)
      → resolve_rows offset_at marshal cfg ti args ≡ ok found
      → Resolved ti args found.0 found.1
  unfolding resolve_rows
  resolve_rows-Resolved ti [] found e =
      let same : ([], ti) ≡ found = cc in subst (λ f. Resolved ti [] f.0 f.1) same resolved
  resolve_rows-Resolved ti (a ∷ args) found e =
      let (v, behind, next) = bind-eq-ok (deref_value a) _ e in
      elim (Bool-cases (is_row (kind v))) [
        | inl row ↦
            let going : (first_info offset_at marshal cfg ti v >>= λ ti'.
            resolve_rows offset_at marshal cfg ti' args >>= λ rest. ok (v ∷ rest.0, rest.1))
                ≡ ok found =
              ground arith in
            let (ti', info, later) = bind-eq-ok (first_info offset_at marshal cfg ti v) _ going in
            let (rest, others, done) =
              bind-eq-ok (resolve_rows offset_at marshal cfg ti' args) _ later in
            let same : (v ∷ rest.0, rest.1) ≡ found = cc in
            subst (λ f. Resolved ti (a ∷ args) f.0 f.1) same
              (resolving behind row info (resolve_rows-Resolved ti' args rest others))
        | inr other ↦ absurd (ground arith)
      ]

  pub length-Resolved :
      {ti ti' : Option TypeInfo} {args rows : List Value}
      → Resolved ti args rows ti'
      → length rows ≡ length args
  length-Resolved resolved = refl
  length-Resolved (resolving behind row info rest) = ap suc (length-Resolved rest)
