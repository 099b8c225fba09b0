-- ===== src/Core/Flow/Runs.antt =====
-- core.go: the calls that a whole operation makes, on every branch; plugin.go: Rows.Close.
use rainbowsquirrel.Base.{
  ℕ, zero, suc, ◌≡◌, refl, sym, ap, ◌∙◌, arith, true, false, List, ◌∷◌, ◌++◌, Option, none, some,
  All, Option-cases, inl, inr, subst,
}
use rainbowsquirrel.Core.Errors.{op_exec, GoError, wrap_op_err}
use rainbowsquirrel.Core.Flow.{
  Types, ExecInfo, Plugin, Calls, Request, bound_info, new_exec_info, run_after, fail, exec_with,
}
use rainbowsquirrel.Core.Flow.Prepare.{
  bound, bind_error, before, prepare-bind_error, prepare-before_error, prepare-go,
}
use rainbowsquirrel.Core.Flow.Rows.{Rows, close_rows}
use rainbowsquirrel.Core.Flow.Trace.{
  Event, driver_call, close_call, Marks, Marked, Passed, Stopped, afters, befores, run_after-log,
  run_before-log,
}

-- How Exec can go, given what the binder returns and what the first Before hook is called with,
-- by its error and by the marks that it leaves after those of `l`.
pub data ExecRun {t : Types} (plugins : List (Plugin t)) (bind_err : Option GoError) (ctx : t.Ctx)
    (info : ExecInfo t) (s : t.S) (l : List Event) : Option GoError → List Event → Type 0 where
  -- The binder refuses the arguments: no Before hook and no statement.
  not_bound :
      {e e' : GoError}
      → bind_err ≡ some e'
      → ExecRun plugins bind_err ctx info s l (some e) (afters plugins l)
  -- A Before hook fails: those behind it do not run, and no statement is sent.
  refused :
      {e : GoError}
      → (began others : List (Plugin t)) → plugins ≡ began ++ others
      → Stopped began ctx info s
      → ExecRun plugins bind_err ctx info s l (some e) (afters plugins (befores began l))
  executed :
      {err : Option GoError}
      → bind_err ≡ none
      → Passed plugins ctx info s
      → ExecRun plugins bind_err ctx info s l err (afters plugins (driver_call ∷ befores plugins l))

-- Calls of Close one after the other.
unfoldable pub close_times :
    (t : Types) (calls : Calls t) (n : ℕ) (rows : Rows t) (s : t.S) → Rows t × t.S
close_times t calls zero rows s = (rows, s)
close_times t calls (suc n) rows s =
    let (_, rows', s') = close_rows t calls rows s in close_times t calls n rows' s'

unfoldable pub close_marks : ℕ → List Event → List Event
close_marks zero l = l
close_marks (suc n) l = close_marks n (close_call ∷ l)

module _ (t : Types) (calls : Calls t) (m : Marks t calls) (plugins : List (Plugin t))
    (marks : All (Marked t calls m) plugins) (r : Request t) (s : t.S) where
  pub fail-log :
      (ctx : t.Ctx) (info : ExecInfo t) (args : List t.Any) (e : GoError) (s' : t.S)
      → m.log (fail t calls plugins r.query ctx info args e s').1 ≡ afters plugins (m.log s')
  unfolding fail run_after
  fail-log ctx info args e s' =
      run_after-log t calls m plugins ctx (record info { err = some e }) s' marks

  -- Exec sends its statement once, after all Before hooks, or not at all, and then returns an
  -- error; and on every branch all After hooks run once, at the end, the last plugin's first.
  pub exec_run :
      ExecRun plugins
        (bind_error t calls plugins op_exec r s)
        r.ctx
        (bound_info t (bound t calls plugins op_exec r s) (new_exec_info t op_exec r))
        s
        (m.log s)
        (exec_with t calls plugins r s).1
        (m.log (exec_with t calls plugins r s).2)
  unfolding exec_with fail wrap_op_err run_after
  exec_run =
      let (err, ctx, info, s') = before t calls plugins op_exec r s in
      let b = bound t calls plugins op_exec r s in
      let start = bound_info t b (new_exec_info t op_exec r) in
      let (began, others, split, log, all, stop) =
        run_before-log t calls m plugins r.ctx start s marks in
      elim (Option-cases (bind_error t calls plugins op_exec r s)) [
        | inr (e, h) ↦
            rw
              (
                prepare-bind_error t calls plugins op_exec r s _ _ e h,
                fail-log r.ctx (new_exec_info t op_exec r) b.args e s,
              )
              (not_bound h)
        | inl h ↦ elim (Option-cases err) [
          | inr (e, h') ↦
              rw
                (
                  prepare-before_error t calls plugins op_exec r s _ _ e h h',
                  fail-log ctx info b.args e s',
                  log,
                )
                (refused began others split (stop e h'))
          | inl h' ↦
              let (res, err', s'') = calls.exec_context ctx b.bound_sql b.args s' in
              let after =
                run_after-log t calls m plugins ctx (record info { result = res; err = err' }) s''
                  marks in
              rw
                (
                  prepare-go t calls plugins op_exec r s _ _ h h',
                  after,
                  m.log-exec ctx b.bound_sql b.args s',
                  log,
                  (all h').0,
                )
                (executed h (all h').1)
        ]
      ]

  close_rows-fired :
      (rows : Rows t) (s' : t.S)
      → rows.fired ≡ true
      → close_rows t calls rows s'
        ≡ ((calls.close rows.source s').0, rows, (calls.close rows.source s').1)
  unfolding close_rows
  close_rows-fired rows s' h = ground arith

  close_rows-unfired :
      (rows : Rows t) (s' : t.S)
      → rows.fired ≡ false
      → close_rows t calls rows s' ≡ (
        (calls.close rows.source s').0,
        record rows { fired = true },
        run_after t calls rows.plugins rows.ctx rows.info (calls.close rows.source s').1,
      )
  unfolding close_rows
  close_rows-unfired rows s' h = ground arith

  closed-log :
      (rows : Rows t) (s' : t.S)
      → rows.fired ≡ true
      → (n : ℕ) → m.log (close_times t calls n rows s').1 ≡ close_marks n (m.log s')
  unfolding close_times close_marks
  closed-log rows s' h zero = refl
  closed-log rows s' h (suc n) =
      let s1 = (calls.close rows.source s').1 in
      ap (λ o. m.log (close_times t calls n o.1 o.2).1) (close_rows-fired rows s' h)
      ∙ closed-log rows s1 h n
      ∙ ap (close_marks n) (m.log-close rows.source s')

  -- However often the caller closes the rows of Query, the After hooks run once, at the first.
  pub close_rows-once :
      (rows : Rows t) (s' : t.S)
      → rows.fired ≡ false
      → rows.plugins ≡ plugins
      → (n : ℕ)
      → m.log (close_times t calls (suc n) rows s').1
        ≡ close_marks n (afters plugins (close_call ∷ m.log s'))
  unfolding close_times close_marks
  close_rows-once rows s' h h' n =
      let (err, s1) = calls.close rows.source s' in
      let s2 = run_after t calls rows.plugins rows.ctx rows.info s1 in
      let shut = record rows { fired = true } in
      let same : m.log s2 ≡ afters plugins (close_call ∷ m.log s') =
        subst
          (λ chain.
            m.log (run_after t calls chain rows.ctx rows.info s1)
            ≡ afters plugins (close_call ∷ m.log s'))
          (sym h')
          (run_after-log t calls m plugins rows.ctx rows.info s1 marks
            ∙ ap (afters plugins) (m.log-close rows.source s')) in
      ap (λ o. m.log (close_times t calls n o.1 o.2).1) (close_rows-unfired rows s' h)
      ∙ closed-log shut s2 refl n
      ∙ ap (close_marks n) same
