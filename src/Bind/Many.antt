-- ===== src/Bind/Many.antt =====
-- bind.go: bindNamedMany and bindForExec. The text is ASCII, where unicode.IsSpace holds of the six
-- white-space bytes.
use rainbowsquirrel.Base.{
  ℕ, zero, suc, ◌+◌, ◌-◌, Bool, true, false, not, ◌&&◌, ◌||◌, List, [], ◌∷◌, ◌++◌, Option, none,
  some, Bytes, ℤ, length, drop, slice, ◌==◌, ltb, if◌then◌else◌,
}
use rainbowsquirrel.Core.Errors.{unsupported_type}
use rainbowsquirrel.Core.Outcome.{Outcome, ok, fail, panic, ◌>>=◌}
use rainbowsquirrel.Core.Settings.{Settings}
use rainbowsquirrel.Meta.Values.{Value, slice_items, is_byte_slice}
use rainbowsquirrel.Meta.Tags.{is_space}
use rainbowsquirrel.Meta.Collect.{TypeInfo}
use rainbowsquirrel.Bind.Parser.{Placeholder, parse_placeholders, named_places}
use rainbowsquirrel.Bind.Rebind.{rebind, replace_named_in_fragment}
use rainbowsquirrel.Bind.Arguments.{
  kind, is_row, is_slice, deref_value, positional_args, holds_rows, bind_value,
}
use rainbowsquirrel.Bind.Named.{Bound, row_info, bind_named}

unfoldable pub only_separators : Bytes → Bool
only_separators [] = true
only_separators (c ∷ s) = let rest = only_separators s in (is_space c || c == b',') && rest

-- groupNamedPlaces from its loop on: `cur` is the group that is open, and `end` where its last
-- placeholder ends.
unfoldable pub group_loop :
    Bytes → List Placeholder → ℕ → List Placeholder → List (List Placeholder)
unfolding only_separators
group_loop query cur end [] = cur ∷ []
group_loop query cur end (p ∷ places) =
    let joined = group_loop query (cur ++ (p ∷ [])) p.end places in
    let apart = cur ∷ group_loop query (p ∷ []) p.end places in
    if only_separators (slice query end p.pos) then joined else apart

-- It is called on at least one placeholder.
unfoldable pub group_named_places : List Placeholder → Bytes → List (List Placeholder)
unfolding group_loop
group_named_places [] query = []
group_named_places (p ∷ places) query = group_loop query (p ∷ []) p.end places

-- `inGroup[pos]`
unfoldable pub in_group : List Placeholder → ℕ → Bool
in_group [] pos = false
in_group (p ∷ group) pos = p.pos == pos || in_group group pos

-- The byte at `i` is `c`.
unfoldable pub byte_is : ℕ → Bytes → ℕ → Bool
byte_is c [] i = false
byte_is c (d ∷ s) zero = d == c
byte_is c (d ∷ s) (suc i) = byte_is c s i

-- From the group's first placeholder down to behind the nearest `(`, or to the start.
unfoldable pub scan_left : Bytes → ℕ → ℕ
unfolding byte_is
scan_left query zero = zero
scan_left query (suc i) =
    let further = scan_left query i in if byte_is b'(' query i then suc i else further

unfoldable pub group_start : Bytes → ℕ → ℕ
unfolding scan_left byte_is
group_start query pos =
    let i = scan_left query pos in if ltb 0 i && byte_is b'(' query (i - 1) then i - 1 else i

-- The bytes up to the next `)` in `query[groupEnd:]`, with it.
unfoldable pub span_right : Bytes → ℕ
span_right [] = 0
span_right (c ∷ s) = let further = suc (span_right s) in if c == b')' then 1 else further

unfoldable pub group_end : Bytes → ℕ → ℕ
unfolding span_right
group_end query end = end + span_right (drop end query)

-- The end of the last placeholder of a group that is not empty.
unfoldable pub last_end : Placeholder → List Placeholder → ℕ
last_end p [] = p.end
last_end p (q ∷ group) = last_end q group

-- `strings.Join` of as many copies.
unfoldable pub repeat_joined : ℕ → Bytes → Bytes
repeat_joined zero s = []
repeat_joined (suc zero) s = s
repeat_joined (suc (suc n)) s = s ++ (b',' ∷ repeat_joined (suc n) s)

-- Text with arguments, and how far the query is copied.
pub record Piece : Type 0 where
  pub text : Bytes
  pub args : List Value
  pub last : ℕ

module _ {Location : Type 0} (offset_at : Location → ℤ → ℤ) (marshal : Value → Outcome Bytes)
    (cfg : Settings Location) where
  -- The metadata of the first struct, once it is there.
  unfoldable pub first_info : Option TypeInfo → Value → Outcome (Option TypeInfo)
  first_info (some ti) v = ok (some ti)
  first_info none v = row_info offset_at marshal cfg v

  unfoldable pub resolve_rows :
      Option TypeInfo → List Value → Outcome (List Value × Option TypeInfo)
  unfolding first_info
  resolve_rows ti [] = ok ([], ti)
  resolve_rows ti (a ∷ args) = deref_value a >>= λ v.
      if not (is_row (kind v))
      then fail unsupported_type
      else (first_info ti v >>= λ ti'. resolve_rows ti' args >>= λ rest. ok (v ∷ rest.0, rest.1))

  -- The values of a row for the names of the group.
  unfoldable pub row_args : Value → Option TypeInfo → List Placeholder → Outcome (List Value)
  row_args v ti [] = ok []
  row_args v ti (p ∷ group) =
      bind_value offset_at marshal v ti p.name cfg.time_location >>= λ value.
      row_args v ti group >>= λ rest. ok (value ∷ rest)

  unfoldable pub group_args : List Value → Option TypeInfo → List Placeholder → Outcome (List Value)
  unfolding row_args
  group_args [] ti group = ok []
  group_args (v ∷ rows) ti group =
      row_args v ti group >>= λ one. group_args rows ti group >>= λ rest. ok (one ++ rest)

  -- The two loops over the placeholders outside the group: those that `skip` are passed over.
  unfoldable pub outside :
      Bytes
      → Value
      → Option TypeInfo
      → (ℕ → Placeholder → Bool)
      → ℕ
      → List Placeholder
      → Outcome Piece
  outside query v ti skip last [] = ok (record { text = []; args = []; last = last })
  outside query v ti skip last (p ∷ places) =
      let passed = outside query v ti skip last places in
      let rest = outside query v ti skip p.end places in
      if skip last p
      then passed
      else (bind_value offset_at marshal v ti p.name cfg.time_location >>= λ value.
          rest >>= λ piece. ok (record {
            text = slice query last p.pos ++ (b'?' ∷ piece.text);
            args = value ∷ piece.args;
            last = piece.last;
          }))

  -- bindNamedMany behind the rows: the text and the arguments around the group and in it.
  unfoldable pub bind_group :
      Bytes
      → List Placeholder
      → Placeholder
      → List Placeholder
      → Value
      → List Value
      → Option TypeInfo
      → Outcome (Bytes × List Value)
  unfolding outside group_args group_start group_end in_group last_end repeat_joined
  bind_group query places p group v rows ti =
      let whole = p ∷ group in
      let start = group_start query p.pos in
      let end = group_end query (last_end p group) in
      let copies =
        repeat_joined (length (v ∷ rows)) (replace_named_in_fragment (slice query start end)) in
      outside query v ti (λ last q. in_group whole q.pos) 0 places >>= λ before.
      group_args (v ∷ rows) ti whole >>= λ args.
      outside query v ti (λ last q. ltb q.pos last || in_group whole q.pos) end places >>= λ behind.
      ok (
        before.text
            ++ (slice query before.last start
                ++ (copies ++ (behind.text ++ drop behind.last query))),
        before.args ++ (args ++ behind.args),
      )

  unfoldable pub bind_groups :
      Bytes → List Placeholder → List (List Placeholder) → List Value → Outcome (Bytes × List Value)
  unfolding resolve_rows bind_group
  bind_groups query places ((p ∷ group) ∷ []) args = resolve_rows none args >>= λ found.
      elim found.0 [ [] ↦ panic | v ∷ rows ↦ bind_group query places p group v rows found.1 ]
  bind_groups query places groups args = fail unsupported_type

  unfoldable pub bind_named_many : Bytes → List Value → Outcome (Bytes × List Value)
  unfolding bind_groups group_named_places
  bind_named_many query [] = fail unsupported_type
  bind_named_many query (a ∷ args) =
      let places = named_places (parse_placeholders query) in
      bind_groups query places (group_named_places places query) (a ∷ args)

  -- The case of a slice in bindForExec.
  unfoldable pub bind_slice : Bytes → Value → Value → Outcome Bound
  unfolding bind_named_many
  bind_slice query arg v =
      if is_byte_slice v
      then bind_named offset_at marshal cfg query arg
      else if holds_rows v
      then elim (slice_items v) [
        | none ↦ panic
        | some (t, items) ↦ bind_named_many query items >>= λ bound.
            ok (record { text = bound.0; args = bound.1; bind_args = bound.1 })
      ]
      else if cfg.slice_expansion
      then bind_named offset_at marshal cfg query arg
      else fail unsupported_type

  unfoldable pub bind_argument : Bytes → Value → List Placeholder → Outcome Bound
  unfolding bind_slice
  bind_argument query arg [] =
      ok (record { text = query; args = positional_args arg; bind_args = positional_args arg })
  bind_argument query arg (p ∷ places) = deref_value arg >>= λ v.
      if is_slice (kind v)
      then bind_slice query arg v
      else bind_named offset_at marshal cfg query arg

  -- boundSQL, and bindSQL with the arguments.
  unfoldable pub bind_for_exec : Bytes → Value → Outcome (Bytes × Bound)
  unfolding bind_argument
  bind_for_exec query arg =
      bind_argument query arg (named_places (parse_placeholders query)) >>= λ bound.
      ok (rebind bound.text cfg.placeholder, bound)
