-- ===== src/Tests/Flow.antt =====
-- core.go's operations with two plugins, the second of which may put rows in and whose After
-- panics.
use rainbowsquirrel.Base.{ℕ, ◌≡◌, refl, false, List, [], ◌∷◌, Option, none, some, All, Bytes, codes}
use rainbowsquirrel.Core.Errors.{op_exec, op_select, GoError, foreign}
use rainbowsquirrel.Core.Flow.{
  Types, ExecInfo, Plugin, Bound, bound_info, new_exec_info, Calls, Request, returned, panicked,
  exec_with, report,
}
use rainbowsquirrel.Core.Flow.Prepare.{before}
use rainbowsquirrel.Core.Flow.Rows.{Rows}
use rainbowsquirrel.Core.Flow.Read.{read_with}
use rainbowsquirrel.Core.Flow.Trace.{
  Event, before_of, after_of, driver_call, scan_call, close_call, Marks, Marked, afters,
}
use rainbowsquirrel.Core.Flow.Runs.{ExecRun, exec_run, close_times, close_marks, close_rows-once}
use rainbowsquirrel.Core.Flow.Reads.{ReadRun, read_run}
use rainbowsquirrel.Core.Flow.Bypass.{KeepsOp}

-- The state is the record of the calls; a cursor is the list of its rows.
abbrev t : Types
t = record { S = List Event; Any = ℕ; Ctx = ℕ; RowSource = List ℕ; CallOption = ℕ; SqlResult = ℕ }

abbrev calls : Calls t
calls = record {
  type_name = λ a. some (codes "int64");
  bind_for_exec = λ query arg.
      (record { bound_sql = query; bind_sql = query; bind_args = arg ∷ []; args = arg ∷ [] }, none);
  exec_context = λ ctx sql args s. (some 1, none, driver_call ∷ s);
  query_context = λ ctx sql args s. (args, none, driver_call ∷ s);
  close = λ rows s. (none, close_call ∷ s);
  row_wrapper_from = λ ctx. none;
  row_values = λ rows. none;
  new_value_rows = λ cols vals. [];
  plugin_err_handler = some (λ name e s. s);
}

abbrev watcher : Plugin t
watcher = record {
  name = codes "watch";
  before = λ ctx info s. (none, ctx, info, before_of (codes "watch") ∷ s);
  after = λ ctx info s. (returned (some (foreign 7)), info, after_of (codes "watch") ∷ s);
}

abbrev injector : Plugin t
injector = record {
  name = codes "inject";
  before = λ ctx info s.
      (none, ctx, record info { rows = some (5 ∷ []) }, before_of (codes "inject") ∷ s);
  after = λ ctx info s. (panicked (foreign 8), info, after_of (codes "inject") ∷ s);
}

abbrev chain : List (Plugin t)
chain = watcher ∷ injector ∷ []

report_unmarked : (name : Bytes) (e : GoError) (s : List Event) → report t calls name e s ≡ s
unfolding report
report_unmarked name e s = refl

abbrev marks : Marks t calls
marks = record {
  log = λ s. s;
  log-exec = λ ctx sql args s. refl;
  log-query = λ ctx sql args s. refl;
  log-close = λ rows s. refl;
  log-report = report_unmarked;
}

abbrev chain_marked : All (Marked t calls marks) chain
chain_marked =
    ((λ ctx info s. refl, λ ctx info s. refl), ((λ ctx info s. refl, λ ctx info s. refl), tt))

abbrev request : Request t
request = record { ctx = 0; in_tx = false; query = codes "q"; arg = 3; options = [] }

abbrev scan_rows : List ℕ → List Event → List ℕ × Option GoError × List Event
scan_rows rows s = (rows, none, scan_call ∷ s)

abbrev bound_call : Bound t
bound_call = record {
  bound_sql = codes "q";
  bind_sql = codes "q";
  bind_args = 3 ∷ [];
  args = 3 ∷ [];
}

abbrev bound_request : ExecInfo t
bound_request = bound_info t bound_call (new_exec_info t op_exec request)

abbrev chain_keeps : All (KeepsOp t) chain
chain_keeps = ((λ ctx info s. refl), ((λ ctx info s. refl), tt))

exec_run_example :
    ExecRun chain none 0 bound_request [] []
      (exec_with t calls chain request []).1
      (exec_with t calls chain request []).2
unfolding exec_with
exec_run_example = exec_run t calls marks chain chain_marked request []

read_run_example :
    ReadRun chain none 0
      (bound_info t bound_call (new_exec_info t op_select request))
      []
      []
      (before t calls chain op_select request []).2.rows
      (read_with t calls scan_rows [] (λ l. []) chain op_select request []).1
      (read_with t calls scan_rows [] (λ l. []) chain op_select request []).2
read_run_example =
    read_run t calls marks chain chain_marked request [] scan_rows (λ rows s. refl) [] (λ l. [])
      op_select

abbrev info : ExecInfo t
info = (before t calls chain op_select request []).2

abbrev rows : Rows t
rows = record { source = 1 ∷ []; fired = false; plugins = chain; ctx = 0; info = info }

close_rows-once_example :
    (close_times t calls 2 rows []).1 ≡ close_marks 1 (afters chain (close_call ∷ []))
close_rows-once_example =
    close_rows-once t calls marks chain chain_marked request [] rows [] refl refl 1
