-- ===== src/Core/Flow.antt =====
-- core.go: the flow of an operation through the plugin chain, the binder, the driver and the
-- scanner; plugin.go: Plugin, ExecInfo and Rows. `S` is the state of everything that the flow
-- only calls: the plugins, the driver, the cursors. The clock (Start, Duration) is left out.
pub mod Rows
pub mod Read
pub mod Prepare
pub mod Bypass
pub mod Trace
pub mod Runs
pub mod Reads
use rainbowsquirrel.Base.{
  ℕ, Bool, true, false, List, [], ◌∷◌, Option, none, some, Bytes, if◌then◌else◌,
}
use rainbowsquirrel.Core.Errors.{
  Op, op_exec, op_query, op_get, op_select, GoError, plugin_error, panic_error, wrap_op_err,
}
use rainbowsquirrel.Core.Config.{Config, begin}

-- What the packages around the flow bring: values, contexts, cursors, call options, results.
pub record Types : Type 1 where
  pub S : Type 0
  pub Any : Type 0
  pub Ctx : Type 0
  pub RowSource : Type 0
  pub CallOption : Type 0
  pub SqlResult : Type 0

-- What an After hook does: it returns, with an error or nil, or it panics with a value.
pub data AfterResult : Type 0 where
  returned : Option GoError → AfterResult
  panicked : GoError → AfterResult

module _ (t : Types) where
  pub record ExecInfo : Type 0 where
    pub op : Op
    pub query : Bytes
    pub arg : t.Any
    pub bound_sql : Bytes
    pub bind_sql : Bytes
    pub bind_args : List t.Any
    pub bound_args : List t.Any
    pub options : List t.CallOption
    pub in_tx : Bool
    pub rows : Option t.RowSource
    pub result : Option t.SqlResult
    pub err : Option GoError

  -- The hooks change what the pointer to ExecInfo shows.
  pub record Plugin : Type 0 where
    pub name : Bytes
    pub before : t.Ctx → ExecInfo → t.S → Option GoError × t.Ctx × ExecInfo × t.S
    pub after : t.Ctx → ExecInfo → t.S → AfterResult × ExecInfo × t.S

  -- What bindForExec returns besides its error.
  pub record Bound : Type 0 where
    pub bound_sql : Bytes
    pub bind_sql : Bytes
    pub bind_args : List t.Any
    pub args : List t.Any

  -- The parts that the flow calls: the binder, the driver, cursors, and config's error handler.
  pub record Calls : Type 0 where
    pub type_name : t.Any → Option Bytes
    pub bind_for_exec : Bytes → t.Any → Bound × Option GoError
    pub exec_context : t.Ctx → Bytes → List t.Any → t.S → Option t.SqlResult × Option GoError × t.S
    -- Rows, or nil with an error.
    pub query_context : t.Ctx → Bytes → List t.Any → t.S → t.RowSource × Option GoError × t.S
    pub close : t.RowSource → t.S → Option GoError × t.S
    pub row_wrapper_from : t.Ctx → Option (t.RowSource → t.RowSource)
    pub row_values : t.RowSource → Option (List Bytes × List (List t.Any))
    pub new_value_rows : List Bytes → List (List t.Any) → t.RowSource
    pub plugin_err_handler : Option (Bytes → GoError → t.S → t.S)

  -- What the caller hands to an operation.
  pub record Request : Type 0 where
    pub ctx : t.Ctx
    pub in_tx : Bool
    pub query : Bytes
    pub arg : t.Any
    pub options : List t.CallOption

  unfoldable pub new_exec_info : Op → Request → ExecInfo
  new_exec_info op r = record {
    op = op;
    query = r.query;
    arg = r.arg;
    bound_sql = [];
    bind_sql = [];
    bind_args = [];
    bound_args = [];
    options = r.options;
    in_tx = r.in_tx;
    rows = none;
    result = none;
    err = none;
  }

  unfoldable pub bound_info : Bound → ExecInfo → ExecInfo
  bound_info b info = record info {
    bound_sql = b.bound_sql;
    bind_sql = b.bind_sql;
    bind_args = b.bind_args;
    bound_args = b.args;
  }

  unfoldable pub run_before :
      List Plugin → t.Ctx → ExecInfo → t.S → Option GoError × t.Ctx × ExecInfo × t.S
  run_before [] ctx info s = (none, ctx, info, s)
  run_before (p ∷ plugins) ctx info s =
      let (err, ctx', info', s') = p.before ctx info s in
      let rest = run_before plugins ctx' info' s' in
      elim err [ some e ↦ (some (plugin_error info'.op p.name e), ctx', info', s') | none ↦ rest ]

  module _ (calls : Calls) where
    unfoldable pub report : Bytes → GoError → t.S → t.S
    report name e s = elim calls.plugin_err_handler [ none ↦ s | some handler ↦ handler name e s ]

    -- One After hook, with the recover and the report to the handler.
    unfoldable pub after_one : Plugin → t.Ctx → ExecInfo → t.S → ExecInfo × t.S
    after_one p ctx info s =
        let (r, info', s') = p.after ctx info s in
        elim r [
          | returned err ↦ elim err [ none ↦ (info', s') | some e ↦ (info', report p.name e s') ]
          | panicked v ↦ (info', report p.name (panic_error v) s')
        ]

    -- The chain from its end: the hooks behind a plugin run before its own.
    unfoldable pub after_loop : List Plugin → t.Ctx → ExecInfo → t.S → ExecInfo × t.S
    after_loop [] ctx info s = (info, s)
    after_loop (p ∷ plugins) ctx info s =
        let (info', s') = after_loop plugins ctx info s in after_one p ctx info' s'

    unfoldable pub run_after : List Plugin → t.Ctx → ExecInfo → t.S → t.S
    run_after plugins ctx info s = (after_loop plugins ctx info s).1

    -- The lines of every error return: info.Err, the After hooks, and the wrapped error with the
    -- operation that the hooks have left in ExecInfo.
    unfoldable pub fail :
        List Plugin → Bytes → t.Ctx → ExecInfo → List t.Any → GoError → t.S → Option GoError × t.S
    fail plugins query ctx info args e s =
        let (info', s') = after_loop plugins ctx (record info { err = some e }) s in
        (wrap_op_err calls.type_name info'.op query args (some e), s')

    -- The start that the four operations share: bind, then the Before hooks. An error return
    -- carries what `fail` gives; otherwise the operation goes on.
    unfoldable pub prepare :
        {R : Type 0}
        → List Plugin
        → Op
        → Request
        → t.S
        → (Option GoError × t.S → R)
        → (Bound → t.Ctx → ExecInfo → t.S → R)
        → R
    unfolding fail
    prepare plugins op r s failed go =
        let info = new_exec_info op r in
        let (b, bind_err) = calls.bind_for_exec r.query r.arg in
        elim bind_err [
          | some e ↦ failed (fail plugins r.query r.ctx info b.args e s)
          | none ↦
              let (before_err, ctx, info', s') = run_before plugins r.ctx (bound_info b info) s in
              elim before_err [
                | some e ↦ failed (fail plugins r.query ctx info' b.args e s')
                | none ↦ go b ctx info' s'
              ]
        ]

    unfoldable pub exec_with :
        List Plugin → Request → t.S → Option t.SqlResult × Option GoError × t.S
    exec_with plugins r s =
        prepare plugins op_exec r s (λ (err, s'). (none, err, s'))
          (λ b ctx info s'.
            let (res, err, s'') = calls.exec_context ctx b.bound_sql b.args s' in
            let (info', s3) =
              after_loop plugins ctx (record info { result = res; err = err }) s'' in
            (res, wrap_op_err calls.type_name info'.op r.query b.args err, s3))

    unfoldable pub exec_op :
        Config Plugin → Request → t.S → (Option t.SqlResult × Option GoError × t.S) × Config Plugin
    exec_op cfg r s = let (plugins, cfg') = begin cfg in (exec_with plugins r s, cfg')
