-- ===== src/Core/Flow/Bypass.antt =====
-- core.go: runAfter is a bypass. What the After hooks do has no part in what an operation returns,
-- but for the operation in ExecInfo, by which the error is wrapped after them.
use rainbowsquirrel.Base.{
  ◌≡◌, sym, ◌∙◌, refl, ap, arith, List, [], ◌∷◌, Option, none, some, map, All, Bytes, Option-cases,
  inl, inr,
}
use rainbowsquirrel.Core.Errors.{Op, op_exec, GoError, wrap_op_err}
use rainbowsquirrel.Core.Flow.{
  Types, ExecInfo, Plugin, Bound, Calls, Request, returned, run_before, bound_info, new_exec_info,
  fail, prepare, exec_with, after_one, after_loop,
}
use rainbowsquirrel.Core.Flow.Prepare.{prepare-bind_error, prepare-before_error, prepare-go}

module _ (t : Types) where
  -- The plugin without its After hook.
  unfoldable pub silent : Plugin t → Plugin t
  silent p = record p { after = λ ctx info s. (returned none, info, s) }

  run_before-silent :
      (plugins : List (Plugin t)) (ctx : t.Ctx) (info : ExecInfo t) (s : t.S)
      → run_before t (map silent plugins) ctx info s ≡ run_before t plugins ctx info s
  unfolding run_before silent
  run_before-silent [] ctx info s = refl
  run_before-silent (p ∷ plugins) ctx info s =
      let (err, ctx', info', s') = p.before ctx info s in
      ground (arith, run_before-silent plugins ctx' info' s')

  -- The After hook leaves the operation that ExecInfo names.
  abbrev pub KeepsOp : Plugin t → Type 0
  KeepsOp p = (ctx : t.Ctx) (info : ExecInfo t) (s : t.S) → (p.after ctx info s).1.op ≡ info.op

  silent-KeepsOp : (plugins : List (Plugin t)) → All KeepsOp (map silent plugins)
  unfolding silent
  silent-KeepsOp [] = tt
  silent-KeepsOp (p ∷ plugins) = ((λ ctx info s. refl), silent-KeepsOp plugins)

  after_one-op :
      (calls : Calls t) (p : Plugin t) (ctx : t.Ctx) (info : ExecInfo t) (s : t.S)
      → KeepsOp p
      → (after_one t calls p ctx info s).0.op ≡ info.op
  unfolding after_one
  after_one-op calls p ctx info s keeps = ground (arith, keeps ctx info s)

  pub after_loop-op :
      (calls : Calls t) (plugins : List (Plugin t)) (ctx : t.Ctx) (info : ExecInfo t) (s : t.S)
      → All KeepsOp plugins
      → (after_loop t calls plugins ctx info s).0.op ≡ info.op
  unfolding after_loop
  after_loop-op calls [] ctx info s keeps = refl
  after_loop-op calls (p ∷ plugins) ctx info s (keep, keeps) =
      let (info', s') = after_loop t calls plugins ctx info s in
      after_one-op calls p ctx info' s' keep ∙ after_loop-op calls plugins ctx info s keeps

  -- The error that `fail` returns.
  fail-wrapped :
      (calls : Calls t) (plugins : List (Plugin t)) (query : Bytes) (ctx : t.Ctx)
      (info : ExecInfo t) (args : List t.Any) (e : GoError) (s : t.S)
      → All KeepsOp plugins
      → (fail t calls plugins query ctx info args e s).0
        ≡ wrap_op_err calls.type_name info.op query args (some e)
  unfolding fail
  fail-wrapped calls plugins query ctx info args e s keeps =
      ap (λ op. wrap_op_err calls.type_name op query args (some e))
        (after_loop-op calls plugins ctx (record info { err = some e }) s keeps)

  -- Two ways to fail that differ in the plugins and in the state.
  fail_same :
      (calls : Calls t) (plugins : List (Plugin t)) (query : Bytes) (ctx ctx' : t.Ctx)
      (info info' : ExecInfo t) (args : List t.Any) (e : GoError) (s s' : t.S)
      → All KeepsOp plugins
      → info'.op ≡ info.op
      → (fail t calls plugins query ctx info args e s).0
        ≡ (fail t calls (map silent plugins) query ctx' info' args e s').0
  fail_same calls plugins query ctx ctx' info info' args e s s' keeps same =
      fail-wrapped calls plugins query ctx info args e s keeps
      ∙ ap (λ op. wrap_op_err calls.type_name op query args (some e)) (sym same)
      ∙ sym (
          fail-wrapped calls (map silent plugins) query ctx' info' args e s'
            (silent-KeepsOp plugins))

  -- What is seen of `prepare` through `view` does not depend on the After hooks, if neither way
  -- on depends on them.
  prepare-silent :
      {R X : Type 0} (view : R → X) (calls : Calls t) (plugins : List (Plugin t)) (op : Op)
      (r : Request t) (s : t.S) (failed : Option GoError × t.S → R)
      (go quiet : Bound t → t.Ctx → ExecInfo t → t.S → R)
      → All KeepsOp plugins
      → ((x y : Option GoError × t.S) → x.0 ≡ y.0 → view (failed x) ≡ view (failed y))
      → ((b : Bound t) (ctx : t.Ctx) (info : ExecInfo t) (s' : t.S)
          → view (go b ctx info s') ≡ view (quiet b ctx info s'))
      → view (prepare t calls plugins op r s failed go)
        ≡ view (prepare t calls (map silent plugins) op r s failed quiet)
  prepare-silent view calls plugins op r s failed go quiet keeps same_failed same_go =
      let b = (calls.bind_for_exec r.query r.arg).0 in
      let info = bound_info t b (new_exec_info t op r) in
      let (err, ctx, info', s') = run_before t plugins r.ctx info s in
      let same = run_before-silent plugins r.ctx info s in
      elim (Option-cases (calls.bind_for_exec r.query r.arg).1) [
        | inr (e, h) ↦
            rw
              (
                prepare-bind_error t calls plugins op r s failed go e h,
                prepare-bind_error t calls (map silent plugins) op r s failed quiet e h,
              )
              (same_failed _ _ (
                fail_same calls plugins r.query r.ctx r.ctx (new_exec_info t op r)
                  (new_exec_info t op r) b.args e s s keeps refl))
        | inl h ↦ elim (Option-cases err) [
          | inr (e, h') ↦
              let loud = prepare-before_error t calls plugins op r s failed go e h h' in
              let mute =
                prepare-before_error t calls (map silent plugins) op r s failed quiet e h
                  (ap (λ o. o.0) same ∙ h') in
              ap view loud
              ∙ same_failed _ _ (
                  fail_same calls plugins r.query ctx _ info' _ b.args e s' _ keeps
                    (ap (λ o. o.2.op) same))
              ∙ sym (ap view mute)
          | inl h' ↦
              let loud = prepare-go t calls plugins op r s failed go h h' in
              let mute =
                prepare-go t calls (map silent plugins) op r s failed quiet h
                  (ap (λ o. o.0) same ∙ h') in
              ap view loud
              ∙ same_go b ctx info' s'
              ∙ ap (λ o. view (quiet b o.1 o.2 o.3)) (sym same)
              ∙ sym (ap view mute)
        ]
      ]

  module _ (calls : Calls t) (plugins : List (Plugin t)) (keeps : All KeepsOp plugins)
      (r : Request t) (s : t.S) where
    -- Exec returns the result and the error that it would return if no plugin had an After hook,
    -- if those hooks leave the operation in ExecInfo: they may fail, panic, or change the rest.
    pub exec_bypass :
        ((exec_with t calls plugins r s).0 ≡ (exec_with t calls (map silent plugins) r s).0)
        × ((exec_with t calls plugins r s).1 ≡ (exec_with t calls (map silent plugins) r s).1)
    unfolding exec_with
    exec_bypass = (
      prepare-silent (λ (x : Option t.SqlResult × Option GoError × t.S). x.0) calls plugins op_exec
          r s _ _ _ keeps (λ x y same. refl) (λ b ctx info s'. refl),
      prepare-silent (λ (x : Option t.SqlResult × Option GoError × t.S). x.1) calls plugins op_exec
          r s _ _ _ keeps (λ x y same. same)
          (λ b ctx info s'.
            let (res, err, s'') = calls.exec_context ctx b.bound_sql b.args s' in
            let done = record info { result = res; err = err } in
            ap (λ op. wrap_op_err calls.type_name op r.query b.args err)
              (after_loop-op calls plugins ctx done s'' keeps
                ∙ sym (
                    after_loop-op calls (map silent plugins) ctx done s''
                      (silent-KeepsOp plugins)))),
    )
