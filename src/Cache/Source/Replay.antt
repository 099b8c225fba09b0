-- ===== src/Cache/Source/Replay.antt =====
-- cache/source.go and cache/codec.go with scan.go: a scan that is recorded, and the replay of what
-- was recorded and stored.
use rainbowsquirrel.Base.{
  ℕ, suc, ◌<◌, ◌^◌, ◌≡◌, refl, sym, ap, subst, ◌∙◌, inl, inr, arith, Bool-cases, Bool, List, [],
  ◌∷◌, ◌++◌, map, Option, none, some, Option-cases, Bytes, length, length-map, All, ◌==◌, ==_iff,
}
use rainbowsquirrel.Core.Outcome.{Outcome, ok, fail, panic}
use rainbowsquirrel.Meta.Types.{GoType}
use rainbowsquirrel.Meta.Values.{Value}
use rainbowsquirrel.Convert.Cells.{
  DriverCell, null_cell, int_cell, uint64_cell, uint_cell, small_uint_cell, float_cell, bool_cell,
  bytes_cell, string_cell, time_cell,
}
use rainbowsquirrel.Cache.Codec.Types
use rainbowsquirrel.Cache.Codec.Types.{Cell, RowData}
use rainbowsquirrel.Cache.Codec.Write.{encode}
use rainbowsquirrel.Cache.Codec.Read.{decode}
use rainbowsquirrel.Cache.Codec.RoundTrip.{Storable}
use rainbowsquirrel.Cache.Codec.Limits.{
  Supported, IsRectangular, WholeMinutes, encode-eq-ok_iff, decode-encode_same,
}
use rainbowsquirrel.Cache.Plugin.{Recorder}
use rainbowsquirrel.Cache.Source.{
  cell_of, driver_cell, cached_row_values, recording_columns, recording_rows,
}
use rainbowsquirrel.Cache.Source.Recorded.{
  with_rows, scan_one_value-RowRecorded, scan_loop-RowsRecorded,
}
use rainbowsquirrel.Scan.Source.{RowSource}
use rainbowsquirrel.Scan.ValueRows.{ValueRows, new_value_rows, value_rows}
use rainbowsquirrel.Scan.Target.{Scanning}
use rainbowsquirrel.Scan.All.{target, slice_element, scan_one, scan_slice, scan_rows}
use rainbowsquirrel.Scan.Loop.{
  scan_slice-SliceRead, scan_one-OneRead, scan_rows-slice, scan_rows-one,
}
use rainbowsquirrel.Scan.Replay.{scan_slice-row_values, scan_one-row_value}

-- A cell of a type that the codec has a case for comes back as it was.
driver_cell-cell_of : (c : DriverCell) → Supported (cell_of c) → driver_cell (cell_of c) ≡ c
unfolding cell_of driver_cell
driver_cell-cell_of (int_cell bits z) s = elim (Bool-cases (bits == 64)) [
  | inl wide ↦ let same : bits ≡ 64 = (==_iff bits 64).0 wide in rw same refl
  | inr other ↦ absurd (rw other at s)
]
driver_cell-cell_of (float_cell bits n) s = elim (Bool-cases (bits == 64)) [
  | inl wide ↦ let same : bits ≡ 64 = (==_iff bits 64).0 wide in rw same refl
  | inr other ↦ absurd (rw other at s)
]
driver_cell-cell_of null_cell s = refl
driver_cell-cell_of (uint64_cell n) s = absurd s
driver_cell-cell_of (uint_cell n) s = absurd s
driver_cell-cell_of (small_uint_cell bits n) s = absurd s
driver_cell-cell_of (bool_cell b) s = refl
driver_cell-cell_of (bytes_cell b) s = refl
driver_cell-cell_of (string_cell b) s = refl
driver_cell-cell_of (time_cell nano offset) s = refl

row-same :
    (raw : List DriverCell)
    → All Supported (map cell_of raw)
    → map driver_cell (map cell_of raw) ≡ raw
row-same [] s = refl
row-same (c ∷ raw) s = cc (driver_cell-cell_of c s.0, row-same raw s.1)

rows-same :
    (n : ℕ) (rows : List (List DriverCell))
    → IsRectangular n (map (map cell_of) rows)
    → map (map driver_cell) (map (map cell_of) rows) ≡ rows
rows-same n [] s = refl
rows-same n (raw ∷ rows) s = cc (row-same raw s.0.1, rows-same n rows s.1)

-- What was recorded, to be stored.
abbrev pub recorded_data : Recorder → RowData
recorded_data rec = record { columns = rec.cols; rows = rec.rows }

module _ {S : Type 0} (inner : RowSource S) where
  columns-eq-ok :
      (s : S) (rec : Recorder) (cols : List Bytes) (s1 : S × Recorder)
      (c : Outcome (List Bytes) × S)
      → inner.columns s ≡ c
      → recording_columns inner (s, rec) ≡ (ok cols, s1)
      → s1.1 ≡ record rec { cols = cols }
  unfolding recording_columns
  columns-eq-ok s rec cols s1 (ok names, s') e h =
      let named_so : names ≡ cols = ground arith in
      let kept : record rec { cols = names } ≡ s1.1 = ground arith in
      sym kept ∙ ap (λ (cs : List Bytes). record rec { cols = cs }) named_so
  columns-eq-ok s rec cols s1 (fail x, s') e h = absurd (ground arith)
  columns-eq-ok s rec cols s1 (panic, s') e h = absurd (ground arith)

-- The fields of a recorder that began empty.
abbrev Holds : Recorder → List Bytes → List (List DriverCell) → Type 0
Holds rec cols rows = (rec.cols ≡ cols) × (rec.rows ≡ map (map cell_of) rows)

Holds_lem :
    (rec start end : Recorder) (cols : List Bytes) (rows : List (List DriverCell))
    → rec.rows ≡ []
    → start ≡ record rec { cols = cols }
    → end ≡ with_rows start rows
    → Holds end cols rows
Holds_lem rec start end cols rows empty begun kept =
    let names : end.cols ≡ start.cols = ap (λ (r : Recorder). r.cols) kept in
    let cells : end.rows ≡ start.rows ++ map (map cell_of) rows =
      ap (λ (r : Recorder). r.rows) kept in
    let none_before : start.rows ≡ [] = ap (λ (r : Recorder). r.rows) begun ∙ empty in
    (
      names ∙ ap (λ (r : Recorder). r.cols) begun,
      cells ∙ ap (λ (rs : List (List Cell)). rs ++ map (map cell_of) rows) none_before,
    )

module _ {Location S : Type 0} (env : Scanning Location) (inner : RowSource S)
    (call : Option Bool) where
  -- Some rows whose cells were recorded give the same value again.
  abbrev Replays : GoType → Value → Recorder → Value → Type 0
  Replays t v rec u =
      (cols : List Bytes) × (rows : List (List DriverCell)) × Holds rec cols rows
      × ((end : ValueRows) × (scan_rows env value_rows call (suc (length rows)) (target t v)
              (new_value_rows cols rows)
            ≡ some (ok u, end)))

  slice-Replays :
      (fuel : ℕ) (t et : GoType) (v : Value) (s : S) (rec : Recorder) (u : Value)
      (end : S × Recorder)
      → slice_element t ≡ some et
      → rec.rows ≡ []
      → scan_slice env (recording_rows inner) call fuel t et (s, rec) ≡ some (ok u, end)
      → Replays t v end.1 u
  unfolding scan_rows recording_rows
  slice-Replays fuel t et v s rec u end slice empty h =
      let (cols, s1, vs, columns, loop, clean, shown) =
        scan_slice-SliceRead env (recording_rows inner) call fuel t et (s, rec) u end h in
      let (rows, wide, kept, value) =
        scan_loop-RowsRecorded inner env call fuel et cols s1 vs end loop in
      let (last, again) = scan_slice-row_values env call t et cols rows vs wide value in
      let begun = columns-eq-ok inner s rec cols s1 _ refl columns in
      (
        cols,
        rows,
        Holds_lem rec s1.1 end.1 cols rows empty begun kept,
        (
          last,
          scan_rows-slice env value_rows call (suc (length rows)) t et v _ slice
              ∙ again
              ∙ ap (λ (x : Value). some (ok x, last)) (sym shown),
        ),
      )

  one-Replays :
      (t : GoType) (v : Value) (s : S) (rec : Recorder) (u : Value) (end : S × Recorder)
      → slice_element t ≡ none
      → rec.rows ≡ []
      → scan_one env (recording_rows inner) call t v (s, rec) ≡ (ok u, end)
      → Replays t v end.1 u
  unfolding scan_rows recording_rows
  one-Replays t v s rec u end single empty h =
      let (cols, s1, s2, columns, more, one, clean) =
        scan_one-OneRead env (recording_rows inner) call t v (s, rec) u end h in
      let (raw, wide, kept, value) =
        scan_one_value-RowRecorded inner env call t v cols s2 u end one in
      let (last, again) = scan_one-row_value env call t v cols raw [] u wide value in
      let begun = columns-eq-ok inner s rec cols s1 _ refl columns in
      let same : s1.1 ≡ s2.1 = ap (λ (p : Bool × (S × Recorder)). p.1.1) more in
      (
        cols,
        raw ∷ [],
        Holds_lem rec s2.1 end.1 cols (raw ∷ []) empty (sym same ∙ begun) kept,
        (last, scan_rows-one env value_rows call 2 t v _ single ∙ ap some again),
      )

  rows-Replays :
      (fuel : ℕ) (t : GoType) (v : Value) (s : S) (rec : Recorder) (u : Value) (end : S × Recorder)
      → rec.rows ≡ []
      → scan_rows env (recording_rows inner) call fuel (target t v) (s, rec) ≡ some (ok u, end)
      → Replays t v end.1 u
  unfolding scan_rows
  rows-Replays fuel t v s rec u end empty h = elim (Option-cases (slice_element t)) [
    | inl single ↦ one-Replays t v s rec u end single empty (ground arith)
    | inr (et, slice) ↦ slice-Replays fuel t et v s rec u end slice empty (ground arith)
  ]

  -- If a scan through the recording source succeeded with an empty recorder at its start, and
  -- what it recorded was encoded, has zones of whole minutes and fits the runtime, then Decode
  -- gives rows whose replay by the core scans the same value into the same target.
  pub scan_rows-replay :
      (limit fuel : ℕ) (t : GoType) (v : Value) (s : S) (rec : Recorder) (u : Value)
      (end : S × Recorder) (w : Bytes)
      → rec.rows ≡ []
      → scan_rows env (recording_rows inner) call fuel (target t v) (s, rec) ≡ some (ok u, end)
      → encode (recorded_data end.1) ≡ Types.ok w
      → Storable limit (recorded_data end.1)
      → All (All WholeMinutes) end.1.rows
      → length w < 2 ^ 63
      → (rd : RowData) × (decode limit w ≡ Types.ok rd)
        × ((last : ValueRows) × (scan_rows env value_rows call
                (suc (length rd.rows))
                (target t v)
                (new_value_rows (cached_row_values rd).0 (cached_row_values rd).1)
              ≡ some (ok u, last)))
  unfolding cached_row_values
  scan_rows-replay limit fuel t v s rec u end w empty h encoded storable minutes small =
      let (cols, rows, (names, cells), (last, again)) = rows-Replays fuel t v s rec u end empty h in
      let supported = (encode-eq-ok_iff (recorded_data end.1)).0 (w, encoded) in
      let size : length end.1.rows ≡ length rows =
        ap length cells ∙ length-map (map cell_of) rows in
      let back : map (map driver_cell) end.1.rows ≡ rows =
        ap (map (map driver_cell)) cells
        ∙ rows-same (length end.1.cols) rows
            (subst (IsRectangular (length end.1.cols)) cells supported) in
      (
        recorded_data end.1,
        decode-encode_same limit (recorded_data end.1) w storable minutes encoded small,
        (last, rw (size, back, names) again),
      )
