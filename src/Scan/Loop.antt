-- ===== src/Scan/Loop.antt =====
-- scan.go: scanSlice's loop over the rows and scanOne, one step at a time.
use rainbowsquirrel.Base.{
  ℕ, suc, ◌≡◌, ◌⊎◌, inl, inr, refl, sym, Option-cases, arith, Bool, true, false, Option, none, some,
  List, Bytes,
}
use rainbowsquirrel.Core.Outcome.{Outcome, ok, fail, panic}
use rainbowsquirrel.Meta.Types.{GoType}
use rainbowsquirrel.Meta.Values.{Value, Values, zero_value, no_values, value_cons}
use rainbowsquirrel.Scan.Source.{RowSource, ◌then◌}
use rainbowsquirrel.Scan.Target.{Scanning}
use rainbowsquirrel.Scan.Row.{scan_one_value}
use rainbowsquirrel.Scan.All.{
  end_rows, scan_first, scan_one, scan_loop, scan_slice, new_slice, scan_rows, slice_element,
  target,
}
use rainbowsquirrel.Scan.Values.{then-eq-ok}

module _ {Location : Type 0} (env : Scanning Location) {S : Type 0} (src : RowSource S)
    (call : Option Bool) where
  pub scan_loop-end :
      (fuel : ℕ) (t : GoType) (cols : List Bytes) (s s1 : S)
      → src.next s ≡ (false, s1)
      → scan_loop env src call (suc fuel) t cols s ≡ some (ok no_values, s1)
  unfolding scan_loop
  scan_loop-end fuel t cols s s1 e = ground arith

  pub scan_loop-row :
      (fuel : ℕ) (t : GoType) (cols : List Bytes) (s s1 s2 s3 : S) (u : Value) (us : Values)
      → src.next s ≡ (true, s1)
      → scan_one_value env src call t (zero_value t) cols s1 ≡ (ok u, s2)
      → scan_loop env src call fuel t cols s2 ≡ some (ok us, s3)
      → scan_loop env src call (suc fuel) t cols s ≡ some (ok (value_cons u us), s3)
  unfolding scan_loop
  scan_loop-row fuel t cols s s1 s2 s3 u us e one rest = ground arith

  -- How a loop that went well began.
  abbrev pub Began : ℕ → GoType → List Bytes → S → Values → S → Type 0
  Began fuel t cols s vs end =
      ((src.next s ≡ (false, end)) × (vs ≡ no_values))
      ⊎ ((s1 : S) × (s2 : S) × (u : Value) × (us : Values) × (src.next s ≡ (true, s1))
          × (scan_one_value env src call t (zero_value t) cols s1 ≡ (ok u, s2))
          × (scan_loop env src call fuel t cols s2 ≡ some (ok us, end))
          × (vs ≡ value_cons u us))

  rest-Began :
      (fuel : ℕ) (t : GoType) (cols : List Bytes) (s s1 s2 : S) (u : Value) (vs : Values) (end : S)
      (rest : Option (Outcome Values × S))
      → scan_loop env src call fuel t cols s2 ≡ rest
      → src.next s ≡ (true, s1)
      → scan_one_value env src call t (zero_value t) cols s1 ≡ (ok u, s2)
      → scan_loop env src call (suc fuel) t cols s ≡ some (ok vs, end)
      → Began fuel t cols s vs end
  unfolding scan_loop
  rest-Began fuel t cols s s1 s2 u vs end none loop e one h = absurd (ground arith)
  rest-Began fuel t cols s s1 s2 u vs end (some (fail x, s3)) loop e one h = absurd (ground arith)
  rest-Began fuel t cols s s1 s2 u vs end (some (panic, s3)) loop e one h = absurd (ground arith)
  rest-Began fuel t cols s s1 s2 u vs end (some (ok us, s3)) loop e one h =
      inr (s1, s2, u, us, e, one, ground arith, ground arith)

  row-Began :
      (fuel : ℕ) (t : GoType) (cols : List Bytes) (s s1 : S) (vs : Values) (end : S)
      (r : Outcome Value × S)
      → scan_one_value env src call t (zero_value t) cols s1 ≡ r
      → src.next s ≡ (true, s1)
      → scan_loop env src call (suc fuel) t cols s ≡ some (ok vs, end)
      → Began fuel t cols s vs end
  unfolding scan_loop
  row-Began fuel t cols s s1 vs end (ok u, s2) one e h =
      rest-Began fuel t cols s s1 s2 u vs end _ refl e one h
  row-Began fuel t cols s s1 vs end (fail x, s2) one e h = absurd (ground arith)
  row-Began fuel t cols s s1 vs end (panic, s2) one e h = absurd (ground arith)

  next-Began :
      (fuel : ℕ) (t : GoType) (cols : List Bytes) (s : S) (vs : Values) (end : S) (n : Bool × S)
      → src.next s ≡ n
      → scan_loop env src call (suc fuel) t cols s ≡ some (ok vs, end)
      → Began fuel t cols s vs end
  unfolding scan_loop
  next-Began fuel t cols s vs end (false, s1) e h = inl (ground arith, ground arith)
  next-Began fuel t cols s vs end (true, s1) e h = row-Began fuel t cols s s1 vs end _ refl e h

  pub scan_loop-Began :
      (fuel : ℕ) (t : GoType) (cols : List Bytes) (s : S) (vs : Values) (end : S)
      → scan_loop env src call (suc fuel) t cols s ≡ some (ok vs, end)
      → Began fuel t cols s vs end
  scan_loop-Began fuel t cols s vs end h = next-Began fuel t cols s vs end _ refl h

  -- A slice that was scanned: the columns, the loop over the rows, and no error behind them.
  abbrev pub SliceRead : ℕ → GoType → GoType → S → Value → S → Type 0
  SliceRead fuel st t s v end =
      (cols : List Bytes) × (s1 : S) × (vs : Values) × (src.columns s ≡ (ok cols, s1))
      × (scan_loop env src call fuel t cols s1 ≡ some (ok vs, end))
      × (src.err end ≡ none)
      × (v ≡ new_slice st vs)

  looped-SliceRead :
      (fuel : ℕ) (st t : GoType) (s : S) (v : Value) (end s1 : S) (cols : List Bytes)
      (r : Option (Outcome Values × S))
      → src.columns s ≡ (ok cols, s1)
      → scan_loop env src call fuel t cols s1 ≡ r
      → scan_slice env src call fuel st t s ≡ some (ok v, end)
      → SliceRead fuel st t s v end
  unfolding scan_slice end_rows
  looped-SliceRead fuel st t s v end s1 cols none e loop h = absurd (ground arith)
  looped-SliceRead fuel st t s v end s1 cols (some (fail x, s2)) e loop h = absurd (ground arith)
  looped-SliceRead fuel st t s v end s1 cols (some (panic, s2)) e loop h = absurd (ground arith)
  looped-SliceRead fuel st t s v end s1 cols (some (ok vs, s2)) e loop h =
      elim (Option-cases (src.err s2)) [
        | inl clean ↦
            let same : s2 ≡ end = ground arith in
            let shown : new_slice st vs ≡ v = ground arith in
            (cols, s1, vs, e, ground arith, rw (← same) clean, sym shown)
        | inr (x, failed) ↦ absurd (ground arith)
      ]

  columns-SliceRead :
      (fuel : ℕ) (st t : GoType) (s : S) (v : Value) (end : S) (c : Outcome (List Bytes) × S)
      → src.columns s ≡ c
      → scan_slice env src call fuel st t s ≡ some (ok v, end)
      → SliceRead fuel st t s v end
  unfolding scan_slice
  columns-SliceRead fuel st t s v end (fail x, s1) e h = absurd (ground arith)
  columns-SliceRead fuel st t s v end (panic, s1) e h = absurd (ground arith)
  columns-SliceRead fuel st t s v end (ok cols, s1) e h =
      looped-SliceRead fuel st t s v end s1 cols _ e refl h

  pub scan_slice-SliceRead :
      (fuel : ℕ) (st t : GoType) (s : S) (v : Value) (end : S)
      → scan_slice env src call fuel st t s ≡ some (ok v, end)
      → SliceRead fuel st t s v end
  scan_slice-SliceRead fuel st t s v end h = columns-SliceRead fuel st t s v end _ refl h

  pub SliceRead_lem :
      (fuel : ℕ) (st t : GoType) (s : S) (v : Value) (end : S)
      → SliceRead fuel st t s v end
      → scan_slice env src call fuel st t s ≡ some (ok v, end)
  unfolding scan_slice end_rows
  SliceRead_lem fuel st t s v end (cols, s1, vs, e, loop, clean, shown) = ground arith

  -- One row that was scanned.
  abbrev pub OneRead : GoType → Value → S → Value → S → Type 0
  OneRead t v s u end =
      (cols : List Bytes) × (s1 : S) × (s2 : S) × (src.columns s ≡ (ok cols, s1))
      × (src.next s1 ≡ (true, s2))
      × (scan_one_value env src call t v cols s2 ≡ (ok u, end))
      × (src.err end ≡ none)

  valued-OneRead :
      (t : GoType) (v : Value) (s : S) (u : Value) (end s1 s2 : S) (cols : List Bytes)
      → src.columns s ≡ (ok cols, s1)
      → src.next s1 ≡ (true, s2)
      → (scan_one_value env src call t v cols s2 then end_rows env src call) ≡ (ok u, end)
      → OneRead t v s u end
  unfolding end_rows
  valued-OneRead t v s u end s1 s2 cols e more h =
      let (w, s3, one, last) = then-eq-ok (scan_one_value env src call t v cols s2) _ h in
      elim (Option-cases (src.err s3)) [
        | inl clean ↦
            let same : s3 ≡ end = ground arith in
            (cols, s1, s2, e, more, ground arith, rw (← same) clean)
        | inr (x, failed) ↦ absurd (ground arith)
      ]

  first-OneRead :
      (t : GoType) (v : Value) (s : S) (u : Value) (end s1 : S) (cols : List Bytes) (n : Bool × S)
      → src.columns s ≡ (ok cols, s1)
      → src.next s1 ≡ n
      → scan_first env src call t v cols n ≡ (ok u, end)
      → OneRead t v s u end
  unfolding scan_first
  first-OneRead t v s u end s1 cols (false, s2) e more h = absurd (ground arith)
  first-OneRead t v s u end s1 cols (true, s2) e more h =
      valued-OneRead t v s u end s1 s2 cols e more h

  pub scan_one-OneRead :
      (t : GoType) (v : Value) (s : S) (u : Value) (end : S)
      → scan_one env src call t v s ≡ (ok u, end)
      → OneRead t v s u end
  unfolding scan_one
  scan_one-OneRead t v s u end h =
      let (cols, s1, e, first) = then-eq-ok (src.columns s) _ h in
      first-OneRead t v s u end s1 cols _ e refl first

  pub OneRead_lem :
      (t : GoType) (v : Value) (s : S) (u : Value) (end : S)
      → OneRead t v s u end
      → scan_one env src call t v s ≡ (ok u, end)
  unfolding scan_one scan_first end_rows
  OneRead_lem t v s u end (cols, s1, s2, e, more, one, clean) = ground arith

  pub scan_rows-slice :
      (fuel : ℕ) (t et : GoType) (v : Value) (s : S)
      → slice_element t ≡ some et
      → scan_rows env src call fuel (target t v) s ≡ scan_slice env src call fuel t et s
  unfolding scan_rows
  scan_rows-slice fuel t et v s e = ground arith

  pub scan_rows-one :
      (fuel : ℕ) (t : GoType) (v : Value) (s : S)
      → slice_element t ≡ none
      → scan_rows env src call fuel (target t v) s ≡ some (scan_one env src call t v s)
  unfolding scan_rows
  scan_rows-one fuel t v s e = ground arith
