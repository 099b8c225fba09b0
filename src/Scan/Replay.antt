-- ===== src/Scan/Replay.antt =====
-- scan.go: scanning the rows of valueRows.
use rainbowsquirrel.Base.{
  ℕ, zero, suc, ◌<◌, ◌≡◌, refl, sym, subst, arith, Bool, true, false, List, [], ◌∷◌, ◌++◌, Option,
  some, Bytes, length, length-append, append_assoc, All,
}
use rainbowsquirrel.Core.Outcome.{ok, bind-eq-ok}
use rainbowsquirrel.Meta.Types.{GoType}
use rainbowsquirrel.Meta.Values.{Value, Values, zero_value, no_values, value_cons}
use rainbowsquirrel.Meta.Lookup.{element_at}
use rainbowsquirrel.Convert.Cells.{DriverCell}
use rainbowsquirrel.Scan.Source.{
  Written, wrote_cell, any_dests, written_cell, written_cells, scan_raw_row,
}
use rainbowsquirrel.Scan.ValueRows.{
  ValueRows, new_value_rows, next_value_row, scan_cell, scan_cells, scan_value_row, ignore_row,
  value_rows,
}
use rainbowsquirrel.Scan.Target.{Scanning}
use rainbowsquirrel.Scan.Row.{scan_one_value}
use rainbowsquirrel.Scan.All.{scan_one, scan_loop, scan_slice, new_slice}
use rainbowsquirrel.Scan.Loop.{scan_loop-end, scan_loop-row, SliceRead_lem, OneRead_lem}
use rainbowsquirrel.Scan.Values.{row_value, row_values, scan_one_value-row_value}

-- The rows from the given number on, behind those that are read.
abbrev pub at_row : List Bytes → List (List DriverCell) → List (List DriverCell) → ValueRows
at_row cols before rows = record { cols = cols; rows = before ++ rows; idx = length before }

read_back :
    (n : ℕ) (raw : List DriverCell)
    → length raw ≡ n
    → (ws : List Written) × (scan_cells (any_dests n) raw ≡ ok ws) × (written_cells n ws ≡ raw)
unfolding scan_cells scan_cell any_dests written_cells written_cell
read_back zero [] e = ([], refl, refl)
read_back zero (c ∷ raw) e = absurd (omega arith)
read_back (suc n) [] e = absurd (omega arith)
read_back (suc n) (c ∷ raw) e =
    let (ws, wrote, same) = read_back n raw (omega arith) in
    (wrote_cell c ∷ ws, rw wrote refl, rw same refl)

element_at-append_self {ℓ} :
    {A : Type ℓ} (before : List A) (x : A) (rest : List A)
    → element_at (length before) (before ++ (x ∷ rest)) ≡ ok x
unfolding element_at
element_at-append_self [] x rest = refl
element_at-append_self (y ∷ before) x rest = element_at-append_self before x rest

-- The state after Next.
abbrev pub row_reading : List Bytes → List (List DriverCell) → List (List DriverCell) → ValueRows
row_reading cols before rows = record {
  cols = cols;
  rows = before ++ rows;
  idx = suc (length before);
}

scan_raw_row-row_reading :
    (cols : List Bytes) (before rows : List (List DriverCell)) (raw : List DriverCell) (n : ℕ)
    → length raw ≡ n
    → scan_raw_row value_rows n (row_reading cols before (raw ∷ rows))
      ≡ (ok raw, row_reading cols before (raw ∷ rows))
unfolding scan_raw_row value_rows scan_value_row
scan_raw_row-row_reading cols before rows raw n e =
    let (ws, wrote, same) = read_back n raw e in
    rw (element_at-append_self before raw rows, wrote, same) refl

next-at_row :
    (cols : List Bytes) (before rows : List (List DriverCell)) (raw : List DriverCell)
    → next_value_row (at_row cols before (raw ∷ rows))
      ≡ (true, row_reading cols before (raw ∷ rows))
unfolding next_value_row
next-at_row cols before rows raw = ground (arith, length-append before (raw ∷ rows))

next-at_end :
    (cols : List Bytes) (before : List (List DriverCell))
    → next_value_row (at_row cols before []) ≡ (false, at_row cols before [])
unfolding next_value_row
next-at_end cols before = ground (arith, length-append {0} before [])

row_reading-at_row :
    (cols : List Bytes) (before rows : List (List DriverCell)) (raw : List DriverCell)
    → row_reading cols before (raw ∷ rows) ≡ at_row cols (before ++ (raw ∷ [])) rows
row_reading-at_row cols before rows raw =
    let whole : (before ++ (raw ∷ [])) ++ rows ≡ before ++ (raw ∷ rows) =
      append_assoc before (raw ∷ []) rows in
    let size : length (before ++ (raw ∷ [])) ≡ suc (length before) =
      omega (arith, length-append before (raw ∷ [])) in
    rw (whole, size) refl

-- Rows of the columns' width.
abbrev pub AreWide : List Bytes → List (List DriverCell) → Type 0
AreWide cols = All (λ (raw : List DriverCell). length raw ≡ length cols)

module _ {Location : Type 0} (env : Scanning Location) (call : Option Bool) where
  scan-row_reading :
      (t : GoType) (v : Value) (cols : List Bytes) (before rows : List (List DriverCell))
      (raw : List DriverCell) (u : Value)
      → length raw ≡ length cols
      → row_value env call t v cols raw ≡ ok u
      → scan_one_value env value_rows call t v cols (row_reading cols before (raw ∷ rows))
        ≡ (ok u, row_reading cols before (raw ∷ rows))
  unfolding value_rows ignore_row
  scan-row_reading t v cols before rows raw u width value =
      let s = row_reading cols before (raw ∷ rows) in
      scan_one_value-row_value env call value_rows ignore_row refl t v cols s s raw u
        (scan_raw_row-row_reading cols before rows raw (length cols) width) value

  -- The loop over the rows that are left ends with the values that they give.
  abbrev Loops : ℕ → GoType → List Bytes → ValueRows → Values → Type 0
  Loops fuel t cols s vs =
      (end : ValueRows) × (scan_loop env value_rows call fuel t cols s ≡ some (ok vs, end))

  scan_loop-row_values :
      (fuel : ℕ) (t : GoType) (cols : List Bytes) (before rows : List (List DriverCell))
      (vs : Values)
      → AreWide cols rows
      → row_values env call t cols rows ≡ ok vs
      → length rows < fuel
      → Loops fuel t cols (at_row cols before rows) vs
  unfolding row_values value_rows
  scan_loop-row_values zero t cols before rows vs wide value h = absurd (omega arith)
  scan_loop-row_values (suc fuel) t cols before [] vs wide value h =
      let same : no_values ≡ vs = ground arith in
      subst (λ (us : Values). Loops (suc fuel) t cols (at_row cols before []) us) same
        (
          _,
          scan_loop-end env value_rows call fuel t cols (at_row cols before [])
              (at_row cols before []) (next-at_end cols before),
        )
  scan_loop-row_values (suc fuel) t cols before (raw ∷ rows) vs wide value h =
      let (u, one, more) = bind-eq-ok (row_value env call t (zero_value t) cols raw) _ value in
      let (us, rest, last) = bind-eq-ok (row_values env call t cols rows) _ more in
      let same : value_cons u us ≡ vs = ground arith in
      let (end, loop) =
        subst (λ (s : ValueRows). Loops fuel t cols s us)
          (sym (row_reading-at_row cols before rows raw))
          (scan_loop-row_values fuel t cols (before ++ (raw ∷ [])) rows us wide.1 rest
            (omega arith)) in
      let here = row_reading cols before (raw ∷ rows) in
      subst (λ (ws : Values). Loops (suc fuel) t cols (at_row cols before (raw ∷ rows)) ws) same
        (
          end,
          scan_loop-row env value_rows call fuel t cols (at_row cols before (raw ∷ rows)) here here
              end u us (next-at_row cols before rows raw)
              (scan-row_reading t (zero_value t) cols before rows raw u wide.0 one) loop,
        )

  -- Rows that give values are scanned into a slice of those.
  pub scan_slice-row_values :
      (st t : GoType) (cols : List Bytes) (rows : List (List DriverCell)) (vs : Values)
      → AreWide cols rows
      → row_values env call t cols rows ≡ ok vs
      → (end : ValueRows) × (scan_slice env value_rows call
            (suc (length rows))
            st
            t
            (new_value_rows cols rows)
          ≡ some (ok (new_slice st vs), end))
  unfolding new_value_rows value_rows
  scan_slice-row_values st t cols rows vs wide value =
      let (end, loop) =
        scan_loop-row_values (suc (length rows)) t cols [] rows vs wide value (omega arith) in
      (
        end,
        SliceRead_lem env value_rows call (suc (length rows)) st t (new_value_rows cols rows)
            (new_slice st vs) end (cols, new_value_rows cols rows, vs, refl, loop, refl, refl),
      )

  -- The first of some rows is scanned into a single target.
  pub scan_one-row_value :
      (t : GoType) (v : Value) (cols : List Bytes) (raw : List DriverCell)
      (rows : List (List DriverCell)) (u : Value)
      → length raw ≡ length cols
      → row_value env call t v cols raw ≡ ok u
      → (end : ValueRows) × (scan_one env value_rows call t v (new_value_rows cols (raw ∷ rows))
          ≡ (ok u, end))
  unfolding new_value_rows value_rows
  scan_one-row_value t v cols raw rows u wide value =
      let here = row_reading cols [] (raw ∷ rows) in
      (
        here,
        OneRead_lem env value_rows call t v (new_value_rows cols (raw ∷ rows)) u here (
          cols,
          new_value_rows cols (raw ∷ rows),
          here,
          refl,
          next-at_row cols [] rows raw,
          scan-row_reading t v cols [] rows raw u wide value,
          refl,
        ),
      )
