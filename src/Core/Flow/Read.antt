-- ===== src/Core/Flow/Read.antt =====
-- core.go: getOp and selectOp, which read the rows of a query or those that a plugin put in.
use rainbowsquirrel.Base.{List, [], Option, none, some}
use rainbowsquirrel.Core.Errors.{Op, op_get, op_select, GoError}
use rainbowsquirrel.Core.Config.{Config, begin}
use rainbowsquirrel.Core.Flow.{
  Types, ExecInfo, Plugin, Bound, Calls, Request, run_after, fail, prepare,
}

module _ (t : Types) (calls : Calls t) where
  -- The rows to scan: those of info.Rows, or the query's, wrapped if a plugin asks for it.
  unfoldable pub fetch_rows :
      Bound t → t.Ctx → ExecInfo t → t.S → t.RowSource × Option GoError × t.S
  fetch_rows b ctx info s = elim info.rows [
    | some rows ↦ (rows, none, s)
    | none ↦
        let (raw, err, s') = calls.query_context ctx b.bound_sql b.args s in
        let rows : t.RowSource = elim (calls.row_wrapper_from ctx) [
          | some w ↦ w raw
          | none ↦ raw
        ] in
        (rows, err, s')
  ]

  -- Rows that show their values are scanned by the core's own source.
  unfoldable pub replay_rows : t.RowSource → t.RowSource
  replay_rows rows = elim (calls.row_values rows) [
    | some (cols, vals) ↦ calls.new_value_rows cols vals
    | none ↦ rows
  ]

  -- The target after the scan with the scan's error; `scan_rows` stands for scanRows with the
  -- target's type, the configuration and the call options, `start` for the target's zero value,
  -- and `failed` for what an error return hands out of a target that was scanned into.
  module _ {T : Type 0} (scan_rows : t.RowSource → t.S → T × Option GoError × t.S) (start : T)
      (failed : T → T) where
    -- From the rows on: scan, close, After, and the first error of the two.
    unfoldable pub scan_and_close :
        List (Plugin t)
        → Request t
        → Bound t
        → t.Ctx
        → ExecInfo t
        → t.RowSource
        → t.S
        → T × Option GoError × t.S
    scan_and_close plugins r b ctx info rows s =
        let (target, scan_err, s') = scan_rows rows s in
        let (close_err, s'') = calls.close rows s' in
        elim scan_err [
          | some e ↦
              let (err, s3) = fail t calls plugins r.query ctx info b.args e s'' in
              (failed target, err, s3)
          | none ↦ elim close_err [
            | some e ↦
                let (err, s3) = fail t calls plugins r.query ctx info b.args e s'' in
                (failed target, err, s3)
            | none ↦ (target, none, run_after t calls plugins ctx info s'')
          ]
        ]

    -- What follows the Before hooks.
    unfoldable pub read_bound :
        List (Plugin t) → Request t → Bound t → t.Ctx → ExecInfo t → t.S → T × Option GoError × t.S
    read_bound plugins r b ctx info s =
        let (rows, query_err, s') = fetch_rows b ctx info s in
        let seen = replay_rows rows in
        elim query_err [
          | some e ↦
              let (err, s'') = fail t calls plugins r.query ctx info b.args e s' in
              (start, err, s'')
          | none ↦ scan_and_close plugins r b ctx (record info { rows = some seen }) seen s'
        ]

    unfoldable pub read_with : List (Plugin t) → Op → Request t → t.S → T × Option GoError × t.S
    read_with plugins op r s =
        prepare t calls plugins op r s (λ (err, s'). (start, err, s')) (read_bound plugins r)

  -- `var zero T` is what every return gives back.
  unfoldable pub get_op :
      {T : Type 0}
      → (t.RowSource → t.S → T × Option GoError × t.S)
      → T
      → Config (Plugin t)
      → Request t
      → t.S
      → (T × Option GoError × t.S) × Config (Plugin t)
  unfolding read_with
  get_op scan_rows zero cfg r s =
      let (plugins, cfg') = begin cfg in
      (read_with scan_rows zero (λ target. target) plugins op_get r s, cfg')

  -- An error return gives back nil.
  unfoldable pub select_op :
      {T : Type 0}
      → (t.RowSource → t.S → List T × Option GoError × t.S)
      → Config (Plugin t)
      → Request t
      → t.S
      → (List T × Option GoError × t.S) × Config (Plugin t)
  unfolding read_with
  select_op scan_rows cfg r s =
      let (plugins, cfg') = begin cfg in
      (read_with scan_rows [] (λ target. []) plugins op_select r s, cfg')
