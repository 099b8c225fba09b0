-- ===== src/Scan/Rounds.antt =====
-- scan.go: how many rounds the loop over the rows makes.
use rainbowsquirrel.Base.{
  ℕ, zero, suc, ◌≤◌, ◌<◌, ◌≡◌, refl, sym, ◌∙◌, inl, inr, subst, arith, Bool, true, false, Option,
  some, Option-cases, List, Bytes, length, ◌==◌, if◌then◌else◌,
}
use rainbowsquirrel.Core.Outcome.{Outcome, ok, fail, panic}
use rainbowsquirrel.Meta.Types.{GoType, pointer_type, time_type, named, is_struct, is_map}
use rainbowsquirrel.Meta.Values.{Value, zero_value, no_values, value_cons}
use rainbowsquirrel.Meta.Collect.{TypeInfo, build_type_info}
use rainbowsquirrel.Convert.Cells.{DriverCell}
use rainbowsquirrel.Scan.Source.{Dest, RowSource, ◌then◌, any_dests, scan_raw_row, record_raw}
use rainbowsquirrel.Scan.Target.{Scanning}
use rainbowsquirrel.Scan.Row.{
  effective_strict, plan_row, dests_of, scan_recorded, scan_planned, scan_struct_row, scan_map_row,
  scan_scalar_row, has_string_keys, scan_kind, scan_one_value,
}
use rainbowsquirrel.Scan.All.{
  ScanDest, bad_dest, target, slice_element, scan_loop, scan_slice, scan_rows, end_rows, new_slice,
}
use rainbowsquirrel.Scan.Loop.{scan_rows-slice, scan_rows-one}

module _ {Location : Type 0} (env : Scanning Location) {S : Type 0} (src : RowSource S)
    (call : Option Bool) (left : S → ℕ) (columns_le : (s : S) → left (src.columns s).1 ≤ left s)
    (next_lt : (s s1 : S) → src.next s ≡ (true, s1) → left s1 < left s)
    (scan_le : (dests : List Dest) (s : S) → left (src.scan dests s).1 ≤ left s)
    (hook_le : (hook : List DriverCell → S → S) (raw : List DriverCell) (s : S)
      → src.recorder ≡ some hook
      → left (hook raw s) ≤ left s) where
  then_le :
      {First Last : Type 0} (step : Outcome First × S) (next : First → S → Outcome Last × S) (s : S)
      → left step.1 ≤ left s
      → ((x : First) (mid : S) → left mid ≤ left s → left (next x mid).1 ≤ left s)
      → left (step then next).1 ≤ left s
  then_le (ok x, mid) next s h k = k x mid h
  then_le (fail e, mid) next s h k = h
  then_le (panic, mid) next s h k = h

  if_le :
      {Last : Type 0} (test : Bool) (r r' : Outcome Last × S) (s : S)
      → left r.1 ≤ left s
      → left r'.1 ≤ left s
      → left (if test then r else r').1 ≤ left s
  if_le true r r' s h k = h
  if_le false r r' s h k = k

  scan_raw_row_le : (n : ℕ) (s : S) → left (scan_raw_row src n s).1 ≤ left s
  unfolding scan_raw_row
  scan_raw_row_le n s =
      then_le (src.scan (any_dests n) s) _ s (scan_le (any_dests n) s) (λ ws mid h. h)

  record_raw_le : (raw : List DriverCell) (s : S) → left (record_raw src raw s) ≤ left s
  unfolding record_raw
  record_raw_le raw s = elim (Option-cases src.recorder) [
    | inl bare ↦ rw (bare, record_raw) (omega arith)
    | inr (hook, found) ↦ rw (found, record_raw) (hook_le hook raw s found)
  ]

  scan_recorded_le :
      (ti : TypeInfo) (strict : Bool) (cols : List Bytes) (v : Value)
      (hook : List DriverCell → S → S) (s : S)
      → src.recorder ≡ some hook
      → left (scan_recorded env src ti strict cols v hook s).1 ≤ left s
  unfolding scan_recorded
  scan_recorded_le ti strict cols v hook s found =
      then_le (scan_raw_row src (length cols) s) _ s (scan_raw_row_le (length cols) s)
        (λ raw mid h. let k = hook_le hook raw mid found in omega arith)

  scan_planned_le :
      (ti : TypeInfo) (strict : Bool) (cols : List Bytes) (v : Value) (s : S)
      → left (scan_planned env src ti strict cols v s).1 ≤ left s
  unfolding scan_planned
  scan_planned_le ti strict cols v s =
      then_le (plan_row ti strict v cols, s) _ s (omega arith)
        (λ plan mid h.
          let k = scan_le (dests_of plan) mid in
          then_le (src.scan (dests_of plan) mid) _ s (omega arith) (λ ws last h'. h'))

  scan_struct_row_le :
      (t : GoType) (v : Value) (cols : List Bytes) (s : S)
      → left (scan_struct_row env src call t v cols s).1 ≤ left s
  unfolding scan_struct_row
  scan_struct_row_le t v cols s =
      then_le (build_type_info t env.cfg.tag_name env.cfg.name_mapper, s) _ s (omega arith)
        (λ ti mid h.
          let strict = effective_strict env.cfg call in
          elim (Option-cases src.recorder) [
            | inl bare ↦ rw bare (let k = scan_planned_le ti strict cols v mid in omega arith)
            | inr (hook, found) ↦
                rw found (let k = scan_recorded_le ti strict cols v hook mid found in omega arith)
          ])

  scan_kind_le :
      (t : GoType) (v : Value) (cols : List Bytes) (s : S)
      → left (scan_kind env src call t v cols s).1 ≤ left s
  unfolding scan_kind scan_map_row scan_scalar_row
  scan_kind_le t v cols s = if_le (is_struct t) _ _ s (scan_struct_row_le t v cols s) (
      if_le (is_map t) _ _ s
        (if_le (has_string_keys t) _ _ s
          (then_le (scan_raw_row src (length cols) s) _ s (scan_raw_row_le (length cols) s)
            (λ raw mid h. let k = record_raw_le raw mid in omega arith))
          (omega arith))
        (if_le (length cols == 1) _ _ s
          (then_le (scan_raw_row src 1 s) _ s (scan_raw_row_le 1 s)
            (λ raw mid h. let k = record_raw_le raw mid in omega arith))
          (omega arith)))

  scan_one_value_le :
      (t : GoType) (v : Value) (cols : List Bytes) (s : S)
      → left (scan_one_value env src call t v cols s).1 ≤ left s
  unfolding scan_one_value
  scan_one_value_le (pointer_type t) v cols s =
      then_le (scan_kind env src call t (zero_value t) cols s) _ s
        (scan_kind_le t (zero_value t) cols s) (λ u mid h. h)
  scan_one_value_le (named m (pointer_type t)) v cols s =
      then_le (scan_kind env src call t (zero_value t) cols s) _ s
        (scan_kind_le t (zero_value t) cols s) (λ u mid h. h)
  scan_one_value_le (named m time_type) v cols s = scan_kind_le (named m time_type) v cols s
  scan_one_value_le t v cols s = scan_kind_le t v cols s

  -- A scan that has not run out of fuel.
  abbrev Ends : {A : Type 0} → Option A → Type 0
  Ends {A} o = (r : A) × (o ≡ some r)

  rest-Ends :
      (fuel : ℕ) (t : GoType) (cols : List Bytes) (s s1 s2 : S) (u : Value)
      → src.next s ≡ (true, s1)
      → scan_one_value env src call t (zero_value t) cols s1 ≡ (ok u, s2)
      → Ends (scan_loop env src call fuel t cols s2)
      → Ends (scan_loop env src call (suc fuel) t cols s)
  unfolding scan_loop
  rest-Ends fuel t cols s s1 s2 u more one (r, e) =
      (r then λ vs s4. (ok (value_cons u vs), s4), ground arith)

  row-Ends :
      (fuel : ℕ) (t : GoType) (cols : List Bytes) (s s1 : S) (one : Outcome Value × S)
      → src.next s ≡ (true, s1)
      → scan_one_value env src call t (zero_value t) cols s1 ≡ one
      → ((s2 : S) → s2 ≡ one.1 → Ends (scan_loop env src call fuel t cols s2))
      → Ends (scan_loop env src call (suc fuel) t cols s)
  unfolding scan_loop
  row-Ends fuel t cols s s1 (fail x, s2) more e h = ((fail x, s2), ground arith)
  row-Ends fuel t cols s s1 (panic, s2) more e h = ((panic, s2), ground arith)
  row-Ends fuel t cols s s1 (ok u, s2) more e h = rest-Ends fuel t cols s s1 s2 u more e (h s2 refl)

  next-Ends :
      (fuel : ℕ) (t : GoType) (cols : List Bytes) (s : S) (n : Bool × S)
      → src.next s ≡ n
      → ((s1 s2 : S)
          → src.next s ≡ (true, s1)
          → s2 ≡ (scan_one_value env src call t (zero_value t) cols s1).1
          → Ends (scan_loop env src call fuel t cols s2))
      → Ends (scan_loop env src call (suc fuel) t cols s)
  unfolding scan_loop
  next-Ends fuel t cols s (false, s1) e h = ((ok no_values, s1), ground arith)
  next-Ends fuel t cols s (true, s1) e h =
      row-Ends fuel t cols s s1 _ e refl (λ s2 same. h s1 s2 e same)

  scan_loop-Ends :
      (fuel : ℕ) (t : GoType) (cols : List Bytes) (s : S)
      → left s < fuel
      → Ends (scan_loop env src call fuel t cols s)
  scan_loop-Ends zero t cols s h = absurd (omega arith)
  scan_loop-Ends (suc fuel) t cols s h = next-Ends fuel t cols s _ refl (λ s1 s2 more same.
      let one = scan_one_value_le t (zero_value t) cols s1 in
      let fewer = next_lt s s1 more in
      let here : left s2 ≤ left s1 = subst (λ (x : S). left x ≤ left s1) (sym same) one in
      scan_loop-Ends fuel t cols s2 (omega arith))

  looped-Ends :
      (fuel : ℕ) (st t : GoType) (s s1 : S) (cols : List Bytes)
      → src.columns s ≡ (ok cols, s1)
      → Ends (scan_loop env src call fuel t cols s1)
      → Ends (scan_slice env src call fuel st t s)
  unfolding scan_slice
  looped-Ends fuel st t s s1 cols columns (r, e) =
      (r then λ vs s3. end_rows env src call (new_slice st vs) s3, ground arith)

  slice-Ends :
      (fuel : ℕ) (st t : GoType) (s : S) (c : Outcome (List Bytes) × S)
      → src.columns s ≡ c
      → left s < fuel
      → Ends (scan_slice env src call fuel st t s)
  unfolding scan_slice
  slice-Ends fuel st t s (fail x, s1) e h = ((fail x, s1), ground arith)
  slice-Ends fuel st t s (panic, s1) e h = ((panic, s1), ground arith)
  slice-Ends fuel st t s (ok cols, s1) e h =
      let kept = columns_le s in
      let here : left s1 ≤ left s =
        subst (λ (p : Outcome (List Bytes) × S). left p.1 ≤ left s) e kept in
      looped-Ends fuel st t s s1 cols e (scan_loop-Ends fuel t cols s1 (omega arith))

  -- If each row that Next gives leaves fewer rows, and no other call more, then a scan returns
  -- within one round more than there are rows, whatever it is given to scan into.
  pub scan_rows_total :
      (fuel : ℕ) (dest : ScanDest) (s : S)
      → left s < fuel
      → (r : Outcome Value × S) × (scan_rows env src call fuel dest s ≡ some r)
  unfolding scan_rows
  scan_rows_total fuel bad_dest s h = (_, refl)
  scan_rows_total fuel (target t v) s h = elim (Option-cases (slice_element t)) [
    | inl single ↦ (_, scan_rows-one env src call fuel t v s single)
    | inr (et, slice) ↦
        let (r, e) = slice-Ends fuel t et s _ refl h in
        (r, scan_rows-slice env src call fuel t et v s slice ∙ e)
  ]
