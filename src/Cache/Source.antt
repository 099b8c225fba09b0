-- ===== src/Cache/Source.antt =====
-- cache/source.go: cachedRowSource, recordingRowSource and the recorder.
mod Recorded
pub mod Replay
use rainbowsquirrel.Base.{
  ◌+◌, zero, suc, Bool, true, false, List, [], ◌∷◌, map, Option, none, some, codes, length, ltb,
  ◌==◌, Bytes, if◌then◌else◌,
}
use rainbowsquirrel.Base.{ℕ}
use rainbowsquirrel.Core.Outcome.{Outcome, ok, fail, panic, ◌>>=◌}
use rainbowsquirrel.Meta.Types.{GoType, interface_type}
use rainbowsquirrel.Meta.Lookup.{element_at}
use rainbowsquirrel.Convert.Cells.{
  DriverCell, null_cell, int_cell, uint64_cell, uint_cell, small_uint_cell, float_cell, bool_cell,
  bytes_cell, string_cell, time_cell,
}
use rainbowsquirrel.Cache.Codec.Types.{
  Cell, nil, int64, float64, bool, string, bytes, time, other, RowData,
}
use rainbowsquirrel.Cache.Plugin.{Recorder, record_row}
use rainbowsquirrel.Scan.Source.{
  Dest, any_dest, field_dest, Written, kept, wrote_cell, wrote_value, RowSource,
}
use rainbowsquirrel.Scan.Target.{Scanning, convert_cell}

-- A driver's cell as the codec sees it: what is none of driver.Value's types has only its type's
-- name.
unfoldable pub cell_of : DriverCell → Cell
cell_of null_cell = nil
cell_of (int_cell bits z) = if bits == 64 then int64 z else other (codes "int")
cell_of (uint64_cell n) = other (codes "uint64")
cell_of (uint_cell n) = other (codes "uint")
cell_of (small_uint_cell bits n) = other (codes "uint")
cell_of (float_cell bits n) = if bits == 64 then float64 n else other (codes "float32")
cell_of (bool_cell b) = bool b
cell_of (bytes_cell b) = bytes b
cell_of (string_cell s) = string s
cell_of (time_cell nano offset) = time nano offset

-- A cell that Decode gives, as an `any`; it gives no `other`.
unfoldable pub driver_cell : Cell → DriverCell
driver_cell nil = null_cell
driver_cell (int64 z) = int_cell 64 z
driver_cell (float64 n) = float_cell 64 n
driver_cell (bool b) = bool_cell b
driver_cell (string s) = string_cell s
driver_cell (bytes b) = bytes_cell b
driver_cell (time nano offset) = time_cell nano offset
driver_cell (other t) = null_cell

-- RowValues, which the core reads a hit by.
unfoldable pub cached_row_values : RowData → List Bytes × List (List DriverCell)
unfolding driver_cell
cached_row_values rd = (rd.columns, map (map driver_cell) rd.rows)

pub record CachedRows : Type 0 where
  pub data_rows : RowData
  pub idx : ℕ

unfoldable pub next_cached : CachedRows → Bool × CachedRows
next_cached c =
    if ltb c.idx (length c.data_rows.rows) then (true, record c { idx = c.idx + 1 }) else (false, c)

-- ConvertAssign with the default settings; an `any` takes what is in the row, NULL by the same rule.
unfoldable pub scan_cached :
    {Location : Type 0} → Scanning Location → List Dest → List DriverCell → Outcome (List Written)
unfolding convert_cell
scan_cached env [] row = ok []
scan_cached env (d ∷ dests) [] = ok []
scan_cached env (any_dest ∷ dests) (c ∷ row) =
    let rest = scan_cached env dests row in
    convert_cell env interface_type c >>= λ v. rest >>= λ ws. ok (wrote_cell c ∷ ws)
scan_cached env (field_dest t ∷ dests) (c ∷ row) =
    let rest = scan_cached env dests row in
    convert_cell env t c >>= λ v. rest >>= λ ws. ok (wrote_value v ∷ ws)

-- cachedRowSource with its methods; it has no RecordRow.
unfoldable pub cached_rows : {Location : Type 0} → Scanning Location → RowSource CachedRows
unfolding next_cached scan_cached driver_cell
cached_rows env = record {
  columns = λ c. (ok c.data_rows.columns, c);
  next = next_cached;
  scan = λ dests c.
      let at_row : Outcome (List Cell) = elim c.idx [
        | zero ↦ panic
        | suc i ↦ element_at i c.data_rows.rows
      ] in
      (at_row >>= λ row. scan_cached env dests (map driver_cell row), c);
  err = λ c. none;
  recorder = none;
}

module _ {S : Type 0} (inner : RowSource S) where
  unfoldable pub recording_columns : S × Recorder → Outcome (List Bytes) × (S × Recorder)
  recording_columns (s, rec) =
      let (cols, s') = inner.columns s in
      (
        cols,
        (s', elim cols [ ok names ↦ record rec { cols = names } | fail e ↦ rec | panic ↦ rec ]),
      )

  unfoldable pub recording_hook : List DriverCell → S × Recorder → S × Recorder
  unfolding cell_of record_row
  recording_hook raw (s, rec) = (s, record rec { rows = record_row (map cell_of raw) rec.rows })

  unfoldable pub recording_rows : RowSource (S × Recorder)
  unfolding recording_columns recording_hook
  recording_rows = record {
    columns = recording_columns;
    next = λ s. let (more, s') = inner.next s.0 in (more, (s', s.1));
    scan = λ dests s. let (r, s') = inner.scan dests s.0 in (r, (s', s.1));
    err = λ s. inner.err s.0;
    recorder = some recording_hook;
  }
