-- ===== src/Scan/Source.antt =====
-- plugin.go: RowSource and RowRecorder; scan.go: scanRawRow.
use rainbowsquirrel.Base.{
  ℕ, zero, suc, Bool, List, [], ◌∷◌, Option, none, some, Bytes, if◌then◌else◌,
}
use rainbowsquirrel.Core.Errors.{GoError}
use rainbowsquirrel.Core.Outcome.{Outcome, ok, fail, panic}
use rainbowsquirrel.Meta.Types.{GoType}
use rainbowsquirrel.Meta.Values.{Value}
use rainbowsquirrel.Convert.Cells.{DriverCell, null_cell}

-- What Scan is given for a column: a pointer to an `any`, or to a field of a type.
pub data Dest : Type 0 where
  any_dest : Dest
  field_dest : GoType → Dest

-- What Scan does with it: nothing, or it writes the driver's cell or the field's new value.
pub data Written : Type 0 where
  kept : Written
  wrote_cell : DriverCell → Written
  wrote_value : Value → Written

-- A source with the state `S`; `recorder` is RecordRow, if the source has it.
pub record RowSource (S : Type 0) : Type 0 where
  pub columns : S → Outcome (List Bytes) × S
  pub next : S → Bool × S
  pub scan : List Dest → S → Outcome (List Written) × S
  pub err : S → Option GoError
  pub recorder : Option (List DriverCell → S → S)

module _ {S : Type 0} where
  infixl 5 ◌then◌
  -- A step that went well is followed by the next one, in the state that it left.
  abbrev pub ◌then◌ {ℓ κ} :
      {First : Type ℓ} {Last : Type κ}
      → Outcome First × S
      → (First → S → Outcome Last × S)
      → Outcome Last × S
  (ok found, s) then next = next found s
  (fail e, s) then next = (fail e, s)
  (panic, s) then next = (panic, s)

unfoldable pub any_dests : ℕ → List Dest
any_dests zero = []
any_dests (suc n) = any_dest ∷ any_dests n

-- `*(p.(*any))`: nil unless Scan wrote a cell there.
unfoldable pub written_cell : Written → DriverCell
written_cell (wrote_cell c) = c
written_cell w = null_cell

-- The cells behind that many pointers.
unfoldable pub written_cells : ℕ → List Written → List DriverCell
written_cells zero ws = []
written_cells (suc n) [] = null_cell ∷ written_cells n []
written_cells (suc n) (w ∷ ws) = written_cell w ∷ written_cells n ws

unfoldable pub scan_raw_row : {S : Type 0} → RowSource S → ℕ → S → Outcome (List DriverCell) × S
scan_raw_row src n s = src.scan (any_dests n) s then λ ws s'. (ok (written_cells n ws), s')

-- `if rec, ok := rs.(RowRecorder); ok { rec.RecordRow(raw) }`
unfoldable pub record_raw : {S : Type 0} → RowSource S → List DriverCell → S → S
record_raw src raw s = elim src.recorder [ none ↦ s | some hook ↦ hook raw s ]
