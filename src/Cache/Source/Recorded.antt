-- ===== src/Cache/Source/Recorded.antt =====
-- cache/source.go: the rows that the recorder has after a scan.
use rainbowsquirrel.Base.{
  ℕ, zero, suc, ◌≡◌, refl, sym, ap, subst, ◌∙◌, inl, inr, arith, Bool, List, [], ◌∷◌, ◌++◌, map,
  append_assoc, append-nil, Option, some, Bytes, length,
}
use rainbowsquirrel.Core.Outcome.{ok}
use rainbowsquirrel.Meta.Types.{GoType}
use rainbowsquirrel.Meta.Values.{Value, Values, zero_value, no_values, value_cons}
use rainbowsquirrel.Convert.Cells.{DriverCell}
use rainbowsquirrel.Cache.Codec.Types.{Cell}
use rainbowsquirrel.Cache.Plugin.{Recorder, record_row}
use rainbowsquirrel.Cache.Source.{cell_of, recording_hook, recording_rows}
use rainbowsquirrel.Scan.Source.{Written, RowSource, any_dests, written_cells, scan_raw_row}
use rainbowsquirrel.Scan.Target.{Scanning}
use rainbowsquirrel.Scan.Row.{scan_one_value}
use rainbowsquirrel.Scan.All.{scan_loop}
use rainbowsquirrel.Scan.Values.{row_value, row_values, scan_one_value-Took, then-eq-ok}
use rainbowsquirrel.Scan.Loop.{scan_loop-Began}
use rainbowsquirrel.Scan.Replay.{AreWide}

length-written_cells : (n : ℕ) (ws : List Written) → length (written_cells n ws) ≡ n
unfolding written_cells
length-written_cells zero ws = refl
length-written_cells (suc n) [] = ap suc (length-written_cells n [])
length-written_cells (suc n) (w ∷ ws) = ap suc (length-written_cells n ws)

scan_raw_row-width :
    {S : Type 0} (src : RowSource S) (n : ℕ) (s : S) (raw : List DriverCell) (mid : S)
    → scan_raw_row src n s ≡ (ok raw, mid)
    → length raw ≡ n
unfolding scan_raw_row
scan_raw_row-width src n s raw mid h =
    let (ws, s1, step, e) = then-eq-ok (src.scan (any_dests n) s) _ h in
    let same : written_cells n ws ≡ raw = ground arith in
    ap length (sym same) ∙ length-written_cells n ws

-- The recorder with the cells of some more rows.
abbrev pub with_rows : Recorder → List (List DriverCell) → Recorder
with_rows rec rows = record rec { rows = rec.rows ++ map (map cell_of) rows }

module _ {S : Type 0} (inner : RowSource S) where
  raw_row-kept :
      (n : ℕ) (s : S × Recorder) (raw : List DriverCell) (mid : S × Recorder)
      → scan_raw_row (recording_rows inner) n s ≡ (ok raw, mid)
      → mid.1 ≡ s.1
  unfolding scan_raw_row recording_rows
  raw_row-kept n s raw mid h =
      let (ws, s1, step, e) = then-eq-ok ((recording_rows inner).scan (any_dests n) s) _ h in
      let left : s1 ≡ mid = ground arith in
      let kept : s1.1 ≡ s.1 = ground arith in ap (λ (p : S × Recorder). p.1) (sym left) ∙ kept

  module _ {Location : Type 0} (env : Scanning Location) (call : Option Bool) where
    -- What was recorded along with one target.
    abbrev pub RowRecorded : GoType → Value → List Bytes → Recorder → Value → Recorder → Type 0
    RowRecorded t v cols rec u rec' =
        (raw : List DriverCell) × (length raw ≡ length cols)
        × (rec' ≡ with_rows rec (raw ∷ []))
        × (row_value env call t v cols raw ≡ ok u)

    pub scan_one_value-RowRecorded :
        (t : GoType) (v : Value) (cols : List Bytes) (s : S × Recorder) (u : Value)
        (s' : S × Recorder)
        → scan_one_value env (recording_rows inner) call t v cols s ≡ (ok u, s')
        → RowRecorded t v cols s.1 u s'.1
    unfolding recording_rows recording_hook record_row
    scan_one_value-RowRecorded t v cols s u s' h =
        let (raw, mid, read, kept, value) =
          scan_one_value-Took env call (recording_rows inner) (recording_hook inner) refl t v cols s
            u s' h in
        let same = raw_row-kept (length cols) s raw mid read in
        (
          raw,
          scan_raw_row-width (recording_rows inner) (length cols) s raw mid read,
          ap (λ (p : S × Recorder). p.1) kept
              ∙ ap (λ (rec : Recorder). with_rows rec (raw ∷ [])) same,
          value,
        )

    abbrev pub RowsRecorded : GoType → List Bytes → Recorder → Values → Recorder → Type 0
    RowsRecorded t cols rec vs rec' =
        (rows : List (List DriverCell)) × AreWide cols rows
        × (rec' ≡ with_rows rec rows)
        × (row_values env call t cols rows ≡ ok vs)

    none-RowsRecorded :
        (t : GoType) (cols : List Bytes) (rec : Recorder) → RowsRecorded t cols rec no_values rec
    unfolding row_values
    none-RowsRecorded t cols rec = (
      [],
      tt,
      ap (λ (rows : List (List Cell)). record rec { rows = rows }) (sym (append-nil rec.rows)),
      refl,
    )

    more-RowsRecorded :
        (t : GoType) (cols : List Bytes) (rec mid : Recorder) (u : Value) (us : Values)
        (rec' : Recorder)
        → RowRecorded t (zero_value t) cols rec u mid
        → RowsRecorded t cols mid us rec'
        → RowsRecorded t cols rec (value_cons u us) rec'
    unfolding row_values
    more-RowsRecorded t cols rec mid u us rec' (raw, wide, kept, one) (rows, wides, left, rest) = (
      raw ∷ rows,
      (wide, wides),
      left
          ∙ ap (λ (r : Recorder). with_rows r rows) kept
          ∙ ap (λ (rs : List (List Cell)). record rec { rows = rs })
              (append_assoc rec.rows (map cell_of raw ∷ []) (map (map cell_of) rows)),
      rw (one, rest) refl,
    )

    pub scan_loop-RowsRecorded :
        (fuel : ℕ) (t : GoType) (cols : List Bytes) (s : S × Recorder) (vs : Values)
        (end : S × Recorder)
        → scan_loop env (recording_rows inner) call fuel t cols s ≡ some (ok vs, end)
        → RowsRecorded t cols s.1 vs end.1
    unfolding recording_rows scan_loop
    scan_loop-RowsRecorded zero t cols s vs end h = absurd (ground arith)
    scan_loop-RowsRecorded (suc fuel) t cols s vs end h =
        elim (scan_loop-Began env (recording_rows inner) call fuel t cols s vs end h) [
          | inl (over, empty) ↦
              let kept : s.1 ≡ end.1 = ground arith in
              subst (λ (p : Values × Recorder). RowsRecorded t cols s.1 p.0 p.1) (ground arith)
                (none-RowsRecorded t cols s.1)
          | inr (s1, s2, u, us, more, one, rest, same) ↦
              let kept : s.1 ≡ s1.1 = ground arith in
              let first = scan_one_value-RowRecorded t (zero_value t) cols s1 u s2 one in
              let others = scan_loop-RowsRecorded fuel t cols s2 us end rest in
              subst (λ (ws : Values). RowsRecorded t cols s.1 ws end.1) (sym same)
                (more-RowsRecorded t cols s.1 s2.1 u us end.1
                  (subst (λ (r : Recorder). RowRecorded t (zero_value t) cols r u s2.1) (sym kept)
                    first)
                  others)
        ]
