-- ===== src/Tests/Scanning.antt =====
-- scan.go and cache/source.go on one row with one column.
use rainbowsquirrel.Base.{
  ℕ, zero, suc, not, ◌==◌, All, ◌-◌, ◌≤◌, ◌<◌, ◌^◌, ◌≡◌, refl, subst, arith, true, List, [], ◌∷◌,
  none, some, codes, pos, length,
}
use rainbowsquirrel.Core.Errors.{foreign}
use rainbowsquirrel.Core.Outcome.{Outcome, ok, fail}
use rainbowsquirrel.Meta.Types.{GoType, scalar_type, slice_type, bool_kind, is_struct, is_map}
use rainbowsquirrel.Meta.Values.{
  Value, bool_value, nil_slice, slice_value, no_values, value_cons, zero_value,
}
use rainbowsquirrel.Meta.Collect.{scans}
use rainbowsquirrel.Meta.Lookup.{element_at}
use rainbowsquirrel.Meta.Typing.{HasType, nil_slice_typed}
use rainbowsquirrel.Convert.Cells.{DriverCell, bool_cell, is_assignable, assign, cell_value}
use rainbowsquirrel.Convert.Assign.{convert_assign, convert_first}
use rainbowsquirrel.Cache.Codec.Types
use rainbowsquirrel.Cache.Codec.Types.{RowData, bool}
use rainbowsquirrel.Cache.Codec.Read.{decode}
use rainbowsquirrel.Cache.Plugin.{Recorder, record_row}
use rainbowsquirrel.Cache.Source.{
  cell_of, cached_row_values, recording_columns, recording_hook, recording_rows,
}
use rainbowsquirrel.Cache.Source.Replay.{scan_rows-replay}
use rainbowsquirrel.Scan.Source.{
  Dest, RowSource, wrote_cell, any_dests, written_cell, written_cells, scan_raw_row, record_raw,
}
use rainbowsquirrel.Scan.ValueRows.{
  ValueRows, new_value_rows, next_value_row, scan_cell, scan_cells, scan_value_row, ignore_row,
  value_rows,
}
use rainbowsquirrel.Convert.Targets.{IsCell}
use rainbowsquirrel.Scan.Target.{Scanning, convert_cell}
use rainbowsquirrel.Scan.Row.{scan_scalar_row, scan_kind, scan_one_value}
use rainbowsquirrel.Scan.All.{
  target, slice_element, new_slice, end_rows, scan_loop, scan_slice, scan_rows,
}
use rainbowsquirrel.Scan.Typed.Rows.{scan_rows-HasType}
use rainbowsquirrel.Scan.Rounds.{scan_rows_total}
use rainbowsquirrel.Tests.Convert
use rainbowsquirrel.Tests.Plugin.{written, storable, encode-recorded}

abbrev pub env : Scanning ℕ
env = record {
  floats = Convert.floats;
  parsers = Convert.parsers;
  parse_time = Convert.parse_time;
  scan_method = Convert.scan;
  converter = Convert.converter;
  unmarshal = λ t b old. fail (foreign 4);
  cfg = Convert.config;
}

abbrev flag_type : GoType
flag_type = scalar_type bool_kind

abbrev flags : Value
flags = slice_value flag_type (value_cons (bool_value true) no_values)

abbrev flag_rows : ValueRows
flag_rows = record { cols = codes "ok" ∷ []; rows = (bool_cell true ∷ []) ∷ []; idx = 0 }

abbrev rows_read : ValueRows
rows_read = record flag_rows { idx = 1 }

abbrev empty_recorder : Recorder
empty_recorder = record { key = []; ttl = pos 5; cols = []; rows = [] }

abbrev full_recorder : Recorder
full_recorder = record empty_recorder { cols = codes "ok" ∷ []; rows = (bool true ∷ []) ∷ [] }

recorded_run :
    scan_rows env
      (recording_rows value_rows)
      none
      3
      (target (slice_type flag_type) (nil_slice flag_type))
      (flag_rows, empty_recorder)
    ≡ some (ok flags, (rows_read, full_recorder))
unfolding scan_rows slice_element scan_slice scan_loop scan_one_value scan_kind is_struct is_map
    scan_scalar_row scan_raw_row any_dests written_cells written_cell record_raw recording_rows
    recording_columns recording_hook record_row cell_of value_rows next_value_row scan_value_row
    scan_cells scan_cell element_at convert_cell convert_assign convert_first scans is_assignable
    assign cell_value end_rows new_slice zero_value
recorded_run = refl

scan_rows-replay_example :
    (rd : RowData) × (decode (2 ^ 47) written ≡ Types.ok rd)
    × ((last : ValueRows) × (scan_rows env value_rows none
            (suc (length rd.rows))
            (target (slice_type flag_type) (nil_slice flag_type))
            (new_value_rows (cached_row_values rd).0 (cached_row_values rd).1)
          ≡ some (ok flags, last)))
scan_rows-replay_example =
    scan_rows-replay env value_rows none (2 ^ 47) 3 (slice_type flag_type) (nil_slice flag_type)
      flag_rows empty_recorder flags (rows_read, full_recorder) written refl recorded_run
      encode-recorded storable ((tt, tt), tt) (omega arith)

replayed_run :
    scan_rows env value_rows none 3 (target (slice_type flag_type) (nil_slice flag_type)) flag_rows
    ≡ some (ok flags, rows_read)
unfolding scan_rows slice_element scan_slice scan_loop scan_one_value scan_kind is_struct is_map
    scan_scalar_row scan_raw_row any_dests written_cells written_cell record_raw value_rows
    next_value_row scan_value_row scan_cells scan_cell element_at convert_cell convert_assign
    convert_first scans is_assignable assign cell_value end_rows new_slice zero_value ignore_row
replayed_run = refl

-- A source of as many rows as its state says, each of them one cell.
abbrev flag_source : RowSource ℕ
flag_source = record {
  columns = λ n. (ok (codes "ok" ∷ []), n);
  next = λ n. (not (n == 0), n - 1);
  scan = λ dests n. (ok (wrote_cell (bool_cell true) ∷ []), n);
  err = λ n. none;
  recorder = some (λ raw n. n);
}

missing-IsCell : (n : ℕ) → All IsCell (written_cells n [])
unfolding written_cells
missing-IsCell zero = tt
missing-IsCell (suc n) = (tt, missing-IsCell n)

flags-IsCell : (n : ℕ) → All IsCell (written_cells n (wrote_cell (bool_cell true) ∷ []))
unfolding written_cells written_cell
flags-IsCell zero = tt
flags-IsCell (suc n) = (tt, missing-IsCell n)

source-IsCell :
    (n s : ℕ) (raw : List DriverCell) (s' : ℕ)
    → scan_raw_row flag_source n s ≡ (ok raw, s')
    → All IsCell raw
unfolding scan_raw_row
source-IsCell n s raw s' e =
    let same : written_cells n (wrote_cell (bool_cell true) ∷ []) ≡ raw = ground arith in
    subst (All IsCell) same (flags-IsCell n)

one_flag :
    scan_rows env flag_source none 3 (target (slice_type flag_type) (nil_slice flag_type)) 1
    ≡ some (ok flags, 0)
unfolding scan_rows slice_element scan_slice scan_loop scan_one_value scan_kind is_struct is_map
    scan_scalar_row scan_raw_row any_dests written_cells written_cell record_raw element_at
    convert_cell convert_assign convert_first scans is_assignable assign cell_value end_rows
    new_slice zero_value
one_flag = refl

scan_rows-HasType_example : HasType (slice_type flag_type) flags
scan_rows-HasType_example =
    scan_rows-HasType env (λ s bits z e. cc) (λ s bits n e. cc) (λ t c v h e. cc)
      (λ t f c v h e found. cc) (λ t b old v h e. cc) none flag_source (λ raw n. n) refl
      source-IsCell 3 (slice_type flag_type) (nil_slice flag_type) 1 flags 0
      (nil_slice_typed flag_type) one_flag

-- The rows that Next has still to give.
abbrev rows_left : ValueRows → ℕ
rows_left v = length v.rows - v.idx

next_value_row-lt : (v w : ValueRows) → value_rows.next v ≡ (true, w) → rows_left w < rows_left v
unfolding value_rows next_value_row
next_value_row-lt v w e = ground arith

ignore_row-le :
    (hook : List DriverCell → ValueRows → ValueRows) (raw : List DriverCell) (v : ValueRows)
    → value_rows.recorder ≡ some hook
    → rows_left (hook raw v) ≤ rows_left v
unfolding value_rows ignore_row
ignore_row-le hook raw v e =
    let same : ignore_row ≡ hook = cc in
    subst (λ (h : List DriverCell → ValueRows → ValueRows). rows_left (h raw v) ≤ rows_left v) same
      (omega arith)

columns_kept : (v : ValueRows) → rows_left (value_rows.columns v).1 ≤ rows_left v
unfolding value_rows
columns_kept v = omega arith

scan_kept :
    (dests : List Dest) (v : ValueRows) → rows_left (value_rows.scan dests v).1 ≤ rows_left v
unfolding value_rows scan_value_row
scan_kept dests v = omega arith

scan_rows_total_example :
    (r : Outcome Value × ValueRows) × (scan_rows env value_rows none 2
        (target (slice_type flag_type) (nil_slice flag_type))
        flag_rows
      ≡ some r)
scan_rows_total_example =
    scan_rows_total env value_rows none rows_left columns_kept next_value_row-lt scan_kept
      ignore_row-le 2 (target (slice_type flag_type) (nil_slice flag_type)) flag_rows (omega arith)
