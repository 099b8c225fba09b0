-- ===== src/Core/Flow/Reads.antt =====
-- core.go: the calls that Get and Select make, on every branch.
use rainbowsquirrel.Base.{
  ◌≡◌, subst, sym, ap, ◌∙◌, arith, List, ◌∷◌, ◌++◌, Option, none, some, All, Option-cases, inl, inr,
}
use rainbowsquirrel.Core.Errors.{Op, GoError, wrap_op_err}
use rainbowsquirrel.Core.Flow.{
  Types, ExecInfo, Plugin, Bound, Calls, Request, bound_info, new_exec_info, fail,
}
use rainbowsquirrel.Core.Flow.Prepare.{
  bound, bind_error, before, prepare-bind_error, prepare-before_error, prepare-go,
}
use rainbowsquirrel.Core.Flow.Read.{fetch_rows, replay_rows, scan_and_close, read_bound, read_with}
use rainbowsquirrel.Core.Flow.Trace.{
  Event, driver_call, scan_call, close_call, Marks, Marked, Passed, Stopped, afters, befores,
  run_after-log, run_before-log,
}
use rainbowsquirrel.Core.Flow.Runs.{fail-log}

-- How Get and Select can go, given what the binder returns and what the first Before hook is
-- called with, by the rows that the hooks left in ExecInfo, the error, and the marks after those of
-- `l`.
pub data ReadRun {t : Types} (plugins : List (Plugin t)) (bind_err : Option GoError) (ctx : t.Ctx)
    (info : ExecInfo t) (s : t.S) (l : List Event)
    : Option t.RowSource → Option GoError → List Event → Type 0 where
  not_bound :
      {rows : Option t.RowSource} {e e' : GoError}
      → bind_err ≡ some e'
      → ReadRun plugins bind_err ctx info s l rows (some e) (afters plugins l)
  refused :
      {rows : Option t.RowSource}
      → {e : GoError} → (began others : List (Plugin t)) → plugins ≡ began ++ others
      → Stopped began ctx info s
      → ReadRun plugins bind_err ctx info s l rows (some e) (afters plugins (befores began l))
  query_failed :
      {e : GoError}
      → Passed plugins ctx info s
      → ReadRun plugins bind_err ctx info s l none
          (some e)
          (afters plugins (driver_call ∷ befores plugins l))
  -- The plugin's rows are scanned and closed, and the database is not asked.
  replayed :
      {rows : t.RowSource}
      → {err : Option GoError} → Passed plugins ctx info s
      → ReadRun plugins bind_err ctx info s l
          (some rows)
          err
          (afters plugins (close_call ∷ scan_call ∷ befores plugins l))
  queried :
      {err : Option GoError}
      → Passed plugins ctx info s
      → ReadRun plugins bind_err ctx info s l none err
          (afters plugins (close_call ∷ scan_call ∷ driver_call ∷ befores plugins l))

module _ (t : Types) (calls : Calls t) (m : Marks t calls) (plugins : List (Plugin t))
    (marks : All (Marked t calls m) plugins) (r : Request t) (s : t.S) {T : Type 0}
    (scan_rows : t.RowSource → t.S → T × Option GoError × t.S)
    (scan-log : (rows : t.RowSource) (s' : t.S)
      → m.log (scan_rows rows s').2 ≡ scan_call ∷ m.log s')
    (start : T) (failed : T → T) where
  scan_and_close-log :
      (b : Bound t) (ctx : t.Ctx) (info : ExecInfo t) (rows : t.RowSource) (s' : t.S)
      → m.log (scan_and_close t calls scan_rows start failed plugins r b ctx info rows s').2
        ≡ afters plugins (close_call ∷ scan_call ∷ m.log s')
  unfolding scan_and_close
  scan_and_close-log b ctx info rows s' =
      let (target, scan_err, s1) = scan_rows rows s' in
      let (close_err, s2) = calls.close rows s1 in
      let seen : m.log s2 ≡ close_call ∷ scan_call ∷ m.log s' =
        m.log-close rows s1 ∙ ap (◌∷◌ close_call) (scan-log rows s') in
      let done = run_after-log t calls m plugins ctx info s2 marks ∙ ap (afters plugins) seen in
      let failing = λ (e : GoError).
        fail-log t calls m plugins marks r s ctx info b.args e s2 ∙ ap (afters plugins) seen in
      elim (Option-cases scan_err) [
        | inr (e, h) ↦ ground (arith, failing e)
        | inl h ↦ elim (Option-cases close_err) [
          | inr (e, h') ↦ ground (arith, failing e)
          | inl h' ↦ ground (arith, done)
        ]
      ]

  fetch_rows-replayed :
      (b : Bound t) (ctx : t.Ctx) (info : ExecInfo t) (s' : t.S) (rows : t.RowSource)
      → info.rows ≡ some rows
      → fetch_rows t calls b ctx info s' ≡ (rows, none, s')
  unfolding fetch_rows
  fetch_rows-replayed b ctx info s' rows h = ground arith

  fetch_rows-queried :
      (b : Bound t) (ctx : t.Ctx) (info : ExecInfo t) (s' : t.S)
      → info.rows ≡ none
      → m.log (fetch_rows t calls b ctx info s').2 ≡ driver_call ∷ m.log s'
  unfolding fetch_rows
  fetch_rows-queried b ctx info s' h = ground (arith, m.log-query ctx b.bound_sql b.args s')

  read_bound-run :
      (bind_err : Option GoError) (first : ExecInfo t) (b : Bound t) (ctx : t.Ctx)
      (info : ExecInfo t) (s' : t.S)
      → Passed plugins r.ctx first s
      → m.log s' ≡ befores plugins (m.log s)
      → (let out = read_bound t calls scan_rows start failed plugins r b ctx info s' in
          ReadRun plugins bind_err r.ctx first s (m.log s) info.rows out.1 (m.log out.2))
  unfolding read_bound fail wrap_op_err fetch_rows
  read_bound-run bind_err first b ctx info s' passed ran =
      let (rows, query_err, s'') = fetch_rows t calls b ctx info s' in
      elim (Option-cases info.rows) [
        | inr (given, inside) ↦
            let seen = replay_rows t calls given in
            let info' = record info { rows = some seen } in
            let log = scan_and_close-log b ctx info' seen s' in
            rw (fetch_rows-replayed b ctx info s' given inside, inside, read_bound)
              (subst (ReadRun plugins bind_err r.ctx first s (m.log s) (some given) _)
                (sym (log ∙ ap (λ l. afters plugins (close_call ∷ scan_call ∷ l)) ran))
                (replayed passed))
        | inl absent ↦
            let asked = fetch_rows-queried b ctx info s' absent in
            elim (Option-cases query_err) [
              | inr (e, h) ↦
                  let log = fail-log t calls m plugins marks r s ctx info b.args e s'' in
                  let out = read_bound t calls scan_rows start failed plugins r b ctx info s' in
                  subst
                    (λ o. ReadRun plugins bind_err r.ctx first s (m.log s) o out.1 (m.log out.2))
                    (sym absent)
                    (rw (h, read_bound)
                      (subst (ReadRun plugins bind_err r.ctx first s (m.log s) none _)
                        (sym (log ∙ ap (afters plugins) (asked ∙ ap (◌∷◌ driver_call) ran)))
                        (query_failed passed)))
              | inl h ↦
                  let seen = replay_rows t calls rows in
                  let info' = record info { rows = some seen } in
                  let log = scan_and_close-log b ctx info' seen s'' in
                  let out = read_bound t calls scan_rows start failed plugins r b ctx info s' in
                  subst
                    (λ o. ReadRun plugins bind_err r.ctx first s (m.log s) o out.1 (m.log out.2))
                    (sym absent)
                    (rw (h, read_bound)
                      (subst (ReadRun plugins bind_err r.ctx first s (m.log s) none _)
                        (sym (
                          log
                          ∙ ap (λ l. afters plugins (close_call ∷ scan_call ∷ l))
                              (asked ∙ ap (◌∷◌ driver_call) ran)))
                        (queried passed)))
            ]
      ]

  -- Get and Select ask the database once if no plugin has put rows in, and not at all if one has;
  -- rows are scanned once and closed, also when the scan fails; the database is not asked before
  -- all Before hooks have run without an error; and on every branch all After hooks run once, at
  -- the end, the last plugin's first.
  pub read_run :
      (op : Op)
      → ReadRun plugins
          (bind_error t calls plugins op r s)
          r.ctx
          (bound_info t (bound t calls plugins op r s) (new_exec_info t op r))
          s
          (m.log s)
          (before t calls plugins op r s).2.rows
          (read_with t calls scan_rows start failed plugins op r s).1
          (m.log (read_with t calls scan_rows start failed plugins op r s).2)
  unfolding read_with fail wrap_op_err
  read_run op =
      let (err, ctx, info, s') = before t calls plugins op r s in
      let b = bound t calls plugins op r s in
      let start_info = bound_info t b (new_exec_info t op r) in
      let (began, others, split, log, all, stop) =
        run_before-log t calls m plugins r.ctx start_info s marks in
      elim (Option-cases (bind_error t calls plugins op r s)) [
        | inr (e, h) ↦
            rw
              (
                prepare-bind_error t calls plugins op r s _ _ e h,
                fail-log t calls m plugins marks r s r.ctx (new_exec_info t op r) b.args e s,
              )
              (not_bound h)
        | inl h ↦ elim (Option-cases err) [
          | inr (e, h') ↦
              rw
                (
                  prepare-before_error t calls plugins op r s _ _ e h h',
                  fail-log t calls m plugins marks r s ctx info b.args e s',
                  log,
                )
                (refused began others split (stop e h'))
          | inl h' ↦
              let ran : m.log s' ≡ befores plugins (m.log s) =
                log ∙ ap (λ c. befores c (m.log s)) (all h').0 in
              rw (prepare-go t calls plugins op r s _ _ h h')
                (read_bound-run _ start_info b ctx info s' (all h').1 ran)
        ]
      ]
