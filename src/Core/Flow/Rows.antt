-- ===== src/Core/Flow/Rows.antt =====
-- core.go: queryOp; plugin.go: Rows and its Close, which runs the After hooks that queryOp put off.
use rainbowsquirrel.Base.{Bool, true, false, List, Option, none, some, if◌then◌else◌}
use rainbowsquirrel.Core.Errors.{op_query, GoError}
use rainbowsquirrel.Core.Config.{Config, begin}
use rainbowsquirrel.Core.Flow.{Types, ExecInfo, Plugin, Calls, Request, run_after, fail, prepare}

module _ (t : Types) where
  -- `fired` is the sync.Once; the other fields are the cursor and what the closure `after` holds.
  pub record Rows : Type 0 where
    pub source : t.RowSource
    pub fired : Bool
    pub plugins : List (Plugin t)
    pub ctx : t.Ctx
    pub info : ExecInfo t

  module _ (calls : Calls t) where
    unfoldable pub query_with :
        List (Plugin t) → Request t → t.S → Option Rows × Option GoError × t.S
    query_with plugins r s =
        prepare t calls plugins op_query r s (λ (err, s'). (none, err, s'))
          (λ b ctx info s'.
            let (raw, query_err, s'') = calls.query_context ctx b.bound_sql b.args s' in
            elim query_err [
              | some e ↦
                  let (err, s3) = fail t calls plugins r.query ctx info b.args e s'' in
                  (none, err, s3)
              | none ↦ (
                some (record {
                  source = raw;
                  fired = false;
                  plugins = plugins;
                  ctx = ctx;
                  info = info;
                }),
                none,
                s'',
              )
            ])

    unfoldable pub query_op :
        Config (Plugin t)
        → Request t
        → t.S
        → (Option Rows × Option GoError × t.S) × Config (Plugin t)
    query_op cfg r s = let (plugins, cfg') = begin cfg in (query_with plugins r s, cfg')

    unfoldable pub close_rows : Rows → t.S → Option GoError × Rows × t.S
    close_rows rows s =
        let (err, s') = calls.close rows.source s in
        let fire = run_after t calls rows.plugins rows.ctx rows.info s' in
        if rows.fired then (err, rows, s') else (err, record rows { fired = true }, fire)
