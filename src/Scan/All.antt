-- ===== src/Scan/All.antt =====
-- scan.go: scanOne, scanSlice, scanRows and Scan. The loop over the rows runs on fuel; `none` means
-- that it ran out.
use rainbowsquirrel.Base.{
  ℕ, zero, suc, Bool, true, false, List, Option, none, some, Bytes, if◌then◌else◌,
}
use rainbowsquirrel.Core.Errors.{unsupported_type, no_rows}
use rainbowsquirrel.Core.Outcome.{Outcome, ok, fail, panic}
use rainbowsquirrel.Core.Settings.{Settings}
use rainbowsquirrel.Meta.Types.{GoType, slice_type, named}
use rainbowsquirrel.Meta.Values.{
  Value, Values, slice_value, named_value, zero_value, no_values, value_cons,
}
use rainbowsquirrel.Scan.Source.{RowSource, ◌then◌}
use rainbowsquirrel.Scan.Target.{Scanning}
use rainbowsquirrel.Scan.Row.{scan_one_value}

-- The element type of a slice type, and a slice of it; a []byte is one of bytes.
unfoldable pub slice_element : GoType → Option GoType
slice_element (slice_type t) = some t
slice_element (named m t) = slice_element t
slice_element t = none

unfoldable pub new_slice : GoType → Values → Value
new_slice (named m t) vs = named_value m (new_slice t vs)
new_slice (slice_type t) vs = slice_value t vs
new_slice t vs = slice_value t vs

-- What Scan is given: no pointer or a nil one, or a pointer to a value of a type.
pub data ScanDest : Type 0 where
  bad_dest : ScanDest
  target : GoType → Value → ScanDest

module _ {Location : Type 0} (env : Scanning Location) {S : Type 0} (src : RowSource S)
    (call : Option Bool) where
  -- `rs.Err()` behind the rows.
  unfoldable pub end_rows {ℓ} : {A : Type ℓ} → A → S → Outcome A × S
  end_rows a s = elim (src.err s) [ none ↦ (ok a, s) | some e ↦ (fail e, s) ]

  unfoldable pub scan_first : GoType → Value → List Bytes → Bool × S → Outcome Value × S
  unfolding end_rows scan_one_value
  scan_first t v cols (false, s) = elim (src.err s) [
    | none ↦ (fail no_rows, s)
    | some e ↦ (fail e, s)
  ]
  scan_first t v cols (true, s) = scan_one_value env src call t v cols s then end_rows

  unfoldable pub scan_one : GoType → Value → S → Outcome Value × S
  unfolding scan_first
  scan_one t v s = src.columns s then λ cols s'. scan_first t v cols (src.next s')

  -- The elements of type `t` from the current row on.
  unfoldable pub scan_loop : ℕ → GoType → List Bytes → S → Option (Outcome Values × S)
  unfolding scan_one_value
  scan_loop zero t cols s = none
  scan_loop (suc fuel) t cols s =
      let (more, s1) = src.next s in
      elim more [
        | false ↦ some (ok no_values, s1)
        | true ↦
            let (r, s2) = scan_one_value env src call t (zero_value t) cols s1 in
            elim r [
              | fail e ↦ some (fail e, s2)
              | panic ↦ some (panic, s2)
              | ok v ↦ elim (scan_loop fuel t cols s2) [
                | none ↦ none
                | some (rest, s3) ↦ some ((rest, s3) then λ vs s4. (ok (value_cons v vs), s4))
              ]
            ]
      ]

  -- `st` is the slice's type, `t` its elements'.
  unfoldable pub scan_slice : ℕ → GoType → GoType → S → Option (Outcome Value × S)
  unfolding scan_loop end_rows new_slice
  scan_slice fuel st t s =
      let (columns, s1) = src.columns s in
      elim columns [
        | fail e ↦ some (fail e, s1)
        | panic ↦ some (panic, s1)
        | ok cols ↦ elim (scan_loop fuel t cols s1) [
          | none ↦ none
          | some (r, s2) ↦ some ((r, s2) then λ vs s3. end_rows (new_slice st vs) s3)
        ]
      ]

  unfoldable pub scan_rows : ℕ → ScanDest → S → Option (Outcome Value × S)
  unfolding scan_one scan_slice slice_element
  scan_rows fuel bad_dest s = some (fail unsupported_type, s)
  scan_rows fuel (target t v) s = elim (slice_element t) [
    | some et ↦ scan_slice fuel t et s
    | none ↦ some (scan_one t v s)
  ]

-- Scan has the default settings and no call options.
unfoldable pub scan :
    {Location : Type 0}
    → Scanning Location
    → Settings Location
    → {S : Type 0} → RowSource S
    → ℕ
    → ScanDest
    → S
    → Option (Outcome Value × S)
unfolding scan_rows
scan env defaults src fuel dest s = scan_rows (record env { cfg = defaults }) src none fuel dest s
