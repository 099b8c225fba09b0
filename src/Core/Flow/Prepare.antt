-- ===== src/Core/Flow/Prepare.antt =====
-- core.go: the three ways through the start of an operation.
use rainbowsquirrel.Base.{◌≡◌, arith, List, Option, none, some}
use rainbowsquirrel.Core.Errors.{Op, GoError}
use rainbowsquirrel.Core.Flow.{
  Types, ExecInfo, Plugin, Bound, Calls, Request, run_before, bound_info, new_exec_info, fail,
  prepare,
}

module _ (t : Types) (calls : Calls t) (plugins : List (Plugin t)) (op : Op) (r : Request t)
    (s : t.S) where
  -- What bindForExec gives, and the outcome of the Before hooks after it.
  abbrev pub bound : Bound t
  bound = (calls.bind_for_exec r.query r.arg).0

  abbrev pub bind_error : Option GoError
  bind_error = (calls.bind_for_exec r.query r.arg).1

  abbrev pub before : Option GoError × t.Ctx × ExecInfo t × t.S
  before = run_before t plugins r.ctx (bound_info t bound (new_exec_info t op r)) s

  module _ {R : Type 0} (failed : Option GoError × t.S → R)
      (go : Bound t → t.Ctx → ExecInfo t → t.S → R) where
    pub prepare-bind_error :
        (e : GoError)
        → bind_error ≡ some e
        → prepare t calls plugins op r s failed go
          ≡ failed (fail t calls plugins r.query r.ctx (new_exec_info t op r) bound.args e s)
    unfolding prepare
    prepare-bind_error e h = ground arith

    pub prepare-before_error :
        (e : GoError)
        → bind_error ≡ none
        → before.0 ≡ some e
        → prepare t calls plugins op r s failed go
          ≡ failed (fail t calls plugins r.query before.1 before.2 bound.args e before.3)
    unfolding prepare
    prepare-before_error e h h' = ground arith

    pub prepare-go :
        bind_error ≡ none
        → before.0 ≡ none
        → prepare t calls plugins op r s failed go ≡ go bound before.1 before.2 before.3
    unfolding prepare
    prepare-go h h' = ground arith
