-- ===== src/Tests/Transactions.antt =====
-- core.go's Tx, config.go's plugin chain and errors.go on concrete calls.
use rainbowsquirrel.Base.{
  pos, to_u64, of_u64, arith, ℕ, ◌≤◌, ◌≡◌, ◌≢◌, refl, true, false, List, [], ◌∷◌, Option, none,
  some, All, codes,
}
use rainbowsquirrel.Bind.Parser.{is_empty}
use rainbowsquirrel.Bind.Rebind.{decimal, decimal_loop}
use rainbowsquirrel.Core.Errors.{GoError, tx_done, foreign}
use rainbowsquirrel.Core.Config.{
  Config, use_call, begin_call, add_plugins, run_one_chain, add_plugins_late,
}
use rainbowsquirrel.Core.Config
use rainbowsquirrel.Core.Tx.{
  Statement, Process, Tx, signed_decimal, next_seq, savepoint_name, ensure_open, begin, commit,
  rollback,
}
use rainbowsquirrel.Core.Tx.Closing.{
  commit_call, rollback_call, call, finished, endings, is_none, run_closed, run_finishes_once,
  nested_keeps_outer, finish-closed,
}
use rainbowsquirrel.Core.Tx.Closing
use rainbowsquirrel.Core.Tx.Names.{begin_fresh, done}

-- A database that refuses to commit.
abbrev answer : List Statement → Statement → Option GoError
answer sent Statement.commit_tx = some (foreign 1)
answer sent _ = none

abbrev idle : Process
idle = record { savepoint_seq = pos 0; sent = [] }

abbrev outer : Tx
outer = record { savepoint = []; closed = false }

abbrev nested : Tx
nested = record { savepoint = codes "rainbowsquirrel_sp_1"; closed = false }

abbrev shut : Tx
shut = record { savepoint = []; closed = true }

run_closed_example :
    All
      (λ err. err ≡ some tx_done)
      (Closing.run answer (commit_call ∷ Closing.begin_call ∷ []) shut idle).0
    × ((Closing.run answer (commit_call ∷ Closing.begin_call ∷ []) shut idle).1 ≡ shut)
    × ((Closing.run answer (commit_call ∷ Closing.begin_call ∷ []) shut idle).2 ≡ idle)
run_closed_example = run_closed answer (commit_call ∷ Closing.begin_call ∷ []) shut idle refl

run_finishes_once_example :
    finished answer
      (rollback_call ∷ commit_call ∷ rollback_call ∷ [])
      (Closing.run answer (rollback_call ∷ commit_call ∷ rollback_call ∷ []) nested idle).0
    ≤ 1
run_finishes_once_example =
    run_finishes_once answer (rollback_call ∷ commit_call ∷ rollback_call ∷ []) nested idle

nested_keeps_outer_example :
    (endings answer (begin answer nested idle).2.sent ≡ 0)
    × (endings answer (commit answer nested idle).2.sent ≡ 0)
    × (endings answer (rollback answer nested idle).2.sent ≡ 0)
unfolding endings is_empty
nested_keeps_outer_example = nested_keeps_outer answer nested idle refl

begin_fresh_example : codes "rainbowsquirrel_sp_1" ≢ codes "rainbowsquirrel_sp_2"
unfolding begin ensure_open savepoint_name signed_decimal decimal decimal_loop next_seq to_u64
    of_u64
begin_fresh_example =
    begin_fresh answer outer nested nested
      (record { savepoint = codes "rainbowsquirrel_sp_2"; closed = false }) 0 0 idle
      (begin answer outer idle).2 refl (omega arith) refl (done (begin answer outer idle).2) refl

abbrev config : Config ℕ
config = record { plugins = 1 ∷ []; executed = false }

run_one_chain_example :
    (more : List ℕ) × All
      (λ seen. seen ≡ 1 ∷ more)
      (Config.run (use_call (2 ∷ []) ∷ begin_call ∷ use_call (3 ∷ []) ∷ begin_call ∷ []) config).0
run_one_chain_example =
    run_one_chain (use_call (2 ∷ []) ∷ begin_call ∷ use_call (3 ∷ []) ∷ begin_call ∷ []) config
