-- ===== src/Bind/Repeats.antt =====
-- bind.go: the text and the arguments of bindNamedMany.
use rainbowsquirrel.Base.{
  ℕ, ◌-◌, ◌≡◌, refl, subst, sym, ap, ◌∙◌, arith, Bool, true, ◌||◌, List, [], ◌∷◌, ◌++◌, append-nil,
  Option, none, Bytes, ℤ, length, take, drop, slice, All, All-map, ltb,
}
use rainbowsquirrel.Core.Outcome.{Outcome, ok, panic, bind-eq-ok}
use rainbowsquirrel.Core.Settings.{Settings}
use rainbowsquirrel.Meta.Values.{Value}
use rainbowsquirrel.Meta.Collect.{TypeInfo}
use rainbowsquirrel.Bind.Parser.{Placeholder, parse_placeholders, named_places}
use rainbowsquirrel.Bind.Placed.{Placed, parse_placeholders-Placed}
use rainbowsquirrel.Bind.Rebind.{replace_named_in_fragment}
use rainbowsquirrel.Bind.Stands.{concat}
use rainbowsquirrel.Bind.Many.{
  in_group, group_start, group_end, last_end, repeat_joined, resolve_rows, group_args, outside,
  bind_group, bind_groups, bind_named_many,
}
use rainbowsquirrel.Bind.Parens.{Opens, Closes, group_start-Opens, group_end-Closes}
use rainbowsquirrel.Bind.Single.{
  IsWithin, group_named_places_one, in_group-All, group_start-le, group_end-le, Placed-named_places,
  Placed-IsWithin,
}
use rainbowsquirrel.Bind.Rows.{
  RowsStand, Given, group_args-concat, resolve_rows-Resolved, length-Resolved,
}

-- Where the part of the query begins and ends that is repeated.
abbrev pub Encloses : Bytes → List Placeholder → ℕ → ℕ → Type 0
Encloses query [] start end = ⊥
Encloses query (p ∷ group) start end = Opens query p.pos start × Closes query (last_end p group) end

-- The part between the parentheses around all placeholders stands in the text as often as there are
-- arguments, separated by commas and rewritten by replaceNamedInFragment; `Rows` says what the
-- groups of values are.
abbrev pub Repeats :
    (List (List Value) → Type 0) → Bytes → List Placeholder → ℕ → Bytes × List Value → Type 0
Repeats Rows query places n bound =
    (start end : ℕ) × All (IsWithin start end) places
    × Encloses query places start end
    × (bound.0
        ≡ take start query
          ++ (repeat_joined n (replace_named_in_fragment (slice query start end))
              ++ drop end query))
    × (groups : List (List Value)) × (length groups ≡ n)
    × Rows groups
    × (bound.1 ≡ concat groups)

module _ {Location : Type 0} (offset_at : Location → ℤ → ℤ) (marshal : Value → Outcome Bytes)
    (cfg : Settings Location) where
  outside_none :
      (query : Bytes) (v : Value) (ti : Option TypeInfo) (skip : ℕ → Placeholder → Bool) (last : ℕ)
      (places : List Placeholder)
      → All (λ p. skip last p ≡ true) places
      → outside offset_at marshal cfg query v ti skip last places
        ≡ ok (record { text = []; args = []; last = last })
  unfolding outside
  outside_none query v ti skip last [] h = refl
  outside_none query v ti skip last (p ∷ places) h =
      rw (h.0, outside) (outside_none query v ti skip last places h.1)

  Repeats-map :
      (Rows Others : List (List Value) → Type 0) (query : Bytes) (places : List Placeholder) (n : ℕ)
      (bound : Bytes × List Value)
      → ((groups : List (List Value)) → Rows groups → Others groups)
      → Repeats Rows query places n bound
      → Repeats Others query places n bound
  Repeats-map Rows Others query places n bound f
        (start, end, within, around, text, groups, count, stand, all) =
      (start, end, within, around, text, groups, count, f groups stand, all)

  bind_group-Repeats :
      (query : Bytes) (p : Placeholder) (group : List Placeholder) (v : Value) (rows : List Value)
      (ti : Option TypeInfo) (bound : Bytes × List Value)
      → Placed query 0 (p ∷ group)
      → bind_group offset_at marshal cfg query (p ∷ group) p group v rows ti ≡ ok bound
      → Repeats
          (RowsStand offset_at marshal cfg ti (p ∷ group) (v ∷ rows))
          query
          (p ∷ group)
          (length (v ∷ rows))
          bound
  unfolding bind_group
  bind_group-Repeats query p group v rows ti bound placed e =
      let whole = p ∷ group in
      let start = group_start query p.pos in
      let end = group_end query (last_end p group) in
      let copies =
        repeat_joined (length (v ∷ rows)) (replace_named_in_fragment (slice query start end)) in
      let all_in = in_group-All [] whole in
      let before = outside_none query v ti (λ last q. in_group whole q.pos) 0 whole all_in in
      let behind =
        outside_none query v ti (λ last q. ltb q.pos last || in_group whole q.pos) end whole
          (All-map (λ (q : Placeholder). in_group whole q.pos ≡ true)
            (λ (q : Placeholder). (ltb q.pos end || in_group whole q.pos) ≡ true) whole
            (λ q h. ground (arith, h)) all_in) in
      let (first, found_first, e1) =
        bind-eq-ok
          (outside offset_at marshal cfg query v ti (λ last q. in_group whole q.pos) 0 whole) _ e in
      let (args, found, e2) =
        bind-eq-ok (group_args offset_at marshal cfg (v ∷ rows) ti whole) _ e1 in
      let (final, found_final, e3) =
        bind-eq-ok
          (outside offset_at marshal cfg query v ti
            (λ last q. ltb q.pos last || in_group whole q.pos) end whole)
          _ e2 in
      let (groups, count, stand, all) =
        group_args-concat offset_at marshal cfg (v ∷ rows) ti whole args found in
      let at_first : record { text = []; args = []; last = 0 } ≡ first = cc in
      let at_final : record { text = []; args = []; last = end } ≡ final = cc in
      let same : (
        first.text
            ++ (slice query first.last start ++ (copies ++ (final.text ++ drop final.last query))),
        first.args ++ (args ++ final.args),
      )
          ≡ bound =
        cc in
      let from_zero : start - 0 ≡ start = omega arith in
      let text : first.text
            ++ (slice query first.last start ++ (copies ++ (final.text ++ drop final.last query)))
          ≡ take start query ++ (copies ++ drop end query) =
        rw (sym at_first, sym at_final, from_zero) refl in
      let values : first.args ++ (args ++ final.args) ≡ args =
        rw (sym at_first, sym at_final) (append-nil args) in
      (
        start,
        end,
        All-map _ _ whole
            (λ q inside. (omega (arith, inside.0, group_start-le query p.pos), inside.1))
            (Placed-IsWithin query p group p.pos end
              (omega arith, placed.1, placed.2, placed.3, placed.4, placed.5)
              (group_end-le query (last_end p group))),
        (group_start-Opens query p.pos, group_end-Closes query (last_end p group)),
        sym (ap (λ b. b.0) same) ∙ text,
        groups,
        count,
        stand,
        sym (ap (λ b. b.1) same) ∙ values ∙ all,
      )

  rows-Repeats :
      (query : Bytes) (places : List Placeholder) (p : Placeholder) (group : List Placeholder)
      (rows : List Value) (ti : Option TypeInfo) (bound : Bytes × List Value)
      → Placed query 0 places
      → p ∷ group ≡ places
      → elim rows [
        | [] ↦ panic
        | v ∷ others ↦ bind_group offset_at marshal cfg query places p group v others ti
      ]
        ≡ ok bound
      → Repeats (RowsStand offset_at marshal cfg ti places rows) query places (length rows) bound
  rows-Repeats query places p group [] ti bound placed whole e = cc
  rows-Repeats query places p group (v ∷ others) ti bound placed whole e =
      subst
        (λ l.
          Repeats (RowsStand offset_at marshal cfg ti l (v ∷ others)) query l (length (v ∷ others))
            bound)
        whole
        (bind_group-Repeats query p group v others ti bound
          (subst (Placed query 0) (sym whole) placed)
          (subst (λ l. bind_group offset_at marshal cfg query l p group v others ti ≡ ok bound)
            (sym whole) e))

  bind_groups-Repeats :
      (query : Bytes) (places : List Placeholder) (groups : List (List Placeholder))
      (args : List Value) (bound : Bytes × List Value)
      → Placed query 0 places
      → ((group : List Placeholder) → groups ≡ group ∷ [] → group ≡ places)
      → bind_groups offset_at marshal cfg query places groups args ≡ ok bound
      → Repeats (Given offset_at marshal cfg args places) query places (length args) bound
  unfolding bind_groups
  bind_groups-Repeats query places [] args bound placed only e = cc
  bind_groups-Repeats query places ([] ∷ []) args bound placed only e = cc
  bind_groups-Repeats query places ([] ∷ h ∷ groups) args bound placed only e = cc
  bind_groups-Repeats query places ((p ∷ group) ∷ h ∷ groups) args bound placed only e = cc
  bind_groups-Repeats query places ((p ∷ group) ∷ []) args bound placed only e =
      let whole : p ∷ group ≡ places = only (p ∷ group) refl in
      let ((rows, ti), found, later) =
        bind-eq-ok (resolve_rows offset_at marshal cfg none args) _ e in
      let rows_of = resolve_rows-Resolved offset_at marshal cfg none args (rows, ti) found in
      subst (λ n. Repeats (Given offset_at marshal cfg args places) query places n bound)
        (length-Resolved offset_at marshal cfg rows_of)
        (Repeats-map (RowsStand offset_at marshal cfg ti places rows)
          (Given offset_at marshal cfg args places) query places (length rows) bound
          (λ groups stand. (rows, ti, rows_of, stand))
          (rows-Repeats query places p group rows ti bound placed whole later))

  -- When bindNamedMany succeeds, the part of the query from the last opening parenthesis in front
  -- of the first placeholder, or the start, to the first closing one behind the last placeholder,
  -- or the end, stands in the text once for each argument, separated by commas and rewritten by
  -- replaceNamedInFragment, and the rest of the query stands around it unchanged. All placeholders
  -- lie in that part. The arguments are rows behind their pointers, and the values are, for each
  -- row in order, one for each name: the value that the row has under that name.
  pub bind_named_many-Repeats :
      (query : Bytes) (args : List Value) (bound : Bytes × List Value)
      → bind_named_many offset_at marshal cfg query args ≡ ok bound
      → Repeats
          (Given offset_at marshal cfg args (named_places (parse_placeholders query)))
          query
          (named_places (parse_placeholders query))
          (length args)
          bound
  unfolding bind_named_many
  bind_named_many-Repeats query [] bound e = cc
  bind_named_many-Repeats query (a ∷ args) bound e =
      let places = named_places (parse_placeholders query) in
      bind_groups-Repeats query places _ (a ∷ args) bound
        (Placed-named_places query 0 _ (parse_placeholders-Placed query))
        (group_named_places_one query places) e
