-- ===== src/Scan/ValueRows.antt =====
-- scan.go: valueRows, the source that replays rows of values.
use rainbowsquirrel.Base.{
  ℕ, ◌+◌, zero, suc, Bool, true, false, List, [], ◌∷◌, some, none, Bytes, length, ltb,
  if◌then◌else◌,
}
use rainbowsquirrel.Core.Errors.{foreign}
use rainbowsquirrel.Core.Outcome.{Outcome, ok, fail, panic, ◌>>=◌}
use rainbowsquirrel.Meta.Values.{zero_value}
use rainbowsquirrel.Meta.Lookup.{element_at}
use rainbowsquirrel.Convert.Cells.{DriverCell, null_cell, is_assignable, assign}
use rainbowsquirrel.Scan.Source.{
  Dest, any_dest, field_dest, Written, wrote_cell, wrote_value, RowSource,
}

pub record ValueRows : Type 0 where
  pub cols : List Bytes
  pub rows : List (List DriverCell)
  pub idx : ℕ

unfoldable pub new_value_rows : List Bytes → List (List DriverCell) → ValueRows
new_value_rows cols rows = record { cols = cols; rows = rows; idx = 0 }

unfoldable pub next_value_row : ValueRows → Bool × ValueRows
next_value_row v =
    if ltb v.idx (length v.rows) then (true, record v { idx = v.idx + 1 }) else (false, v)

-- One turn of Scan's loop. The error is one of package fmt.
unfoldable pub scan_cell : Dest → DriverCell → Outcome Written
scan_cell any_dest c = ok (wrote_cell c)
scan_cell (field_dest t) null_cell = ok (wrote_value (zero_value t))
scan_cell (field_dest t) c =
    if is_assignable c t then ok (wrote_value (assign c t)) else fail (foreign 0)

unfoldable pub scan_cells : List Dest → List DriverCell → Outcome (List Written)
unfolding scan_cell
scan_cells [] row = ok []
scan_cells (d ∷ dests) [] = ok []
scan_cells (d ∷ dests) (c ∷ row) =
    let rest = scan_cells dests row in scan_cell d c >>= λ w. rest >>= λ ws. ok (w ∷ ws)

-- Before the first Next the index is -1, past the end of any slice.
unfoldable pub scan_value_row : List Dest → ValueRows → Outcome (List Written) × ValueRows
unfolding scan_cells
scan_value_row dests v =
    let at_row : Outcome (List DriverCell) = elim v.idx [
      | zero ↦ panic
      | suc i ↦ element_at i v.rows
    ] in
    (at_row >>= scan_cells dests, v)

unfoldable pub ignore_row : List DriverCell → ValueRows → ValueRows
ignore_row values v = v

unfoldable pub value_rows : RowSource ValueRows
unfolding next_value_row scan_value_row ignore_row
value_rows = record {
  columns = λ v. (ok v.cols, v);
  next = next_value_row;
  scan = scan_value_row;
  err = λ v. none;
  recorder = some ignore_row;
}
