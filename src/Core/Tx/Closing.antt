-- ===== src/Core/Tx/Closing.antt =====
-- core.go: a finished Tx, and what finishes it.
use rainbowsquirrel.Base.{
  ℕ, suc, ◌≤◌, ◌&&◌, ◌||◌, ◌≡◌, refl, ap, arith, Bool, true, false, List, [], ◌∷◌, Option, none,
  some, All, Bool-cases, inl, inr, if◌then◌else◌,
}
use rainbowsquirrel.Bind.Parser.{is_empty}
use rainbowsquirrel.Core.Errors.{GoError, tx_done}
use rainbowsquirrel.Core.Tx.{
  Statement, execute, Process, Tx, ensure_open, send, begin, commit, release_rolled_back, rollback,
}

-- The methods of Tx on one handle. The four executing methods differ only in what follows their
-- guard, which is `work`.
pub data TxCall : Type 0 where
  begin_call commit_call rollback_call : TxCall
  operation_call : (Process → Option GoError × Process) → TxCall

-- The error is nil.
unfoldable pub is_none : Option GoError → Bool
is_none none = true
is_none (some e) = false

module _ (answer : List Statement → Statement → Option GoError) where
  unfoldable pub operation :
      (Process → Option GoError × Process) → Tx → Process → Option GoError × Process
  operation work tx w = elim (ensure_open tx) [ some e ↦ (some e, w) | none ↦ work w ]

  -- The call's error, the handle and the process after it.
  unfoldable pub call : TxCall → Tx → Process → Option GoError × Tx × Process
  call begin_call tx w = let (_, err, w') = begin answer tx w in (err, tx, w')
  call commit_call tx w = commit answer tx w
  call rollback_call tx w = rollback answer tx w
  call (operation_call work) tx w = let (err, w') = operation work tx w in (err, tx, w')

  unfoldable pub run : List TxCall → Tx → Process → List (Option GoError) × Tx × Process
  run [] tx w = ([], tx, w)
  run (c ∷ calls) tx w =
      let (err, tx', w') = call c tx w in
      let (errs, tx'', w'') = run calls tx' w' in (err ∷ errs, tx'', w'')

  call_closed :
      (c : TxCall) (tx : Tx) (w : Process) → tx.closed ≡ true → call c tx w ≡ (some tx_done, tx, w)
  unfolding call begin commit rollback operation ensure_open
  call_closed begin_call tx w h = ground arith
  call_closed commit_call tx w h = ground arith
  call_closed rollback_call tx w h = ground arith
  call_closed (operation_call work) tx w h = ground arith

  -- Once a handle is closed, any sequence of calls on it gets ErrTxDone from each of them, sends
  -- nothing to the database and leaves the handle closed.
  pub run_closed :
      (calls : List TxCall) (tx : Tx) (w : Process)
      → tx.closed ≡ true
      → All (λ err. err ≡ some tx_done) (run calls tx w).0
        × ((run calls tx w).1 ≡ tx)
        × ((run calls tx w).2 ≡ w)
  unfolding run
  run_closed [] tx w h = (tt, refl, refl)
  run_closed (c ∷ calls) tx w h =
      let (errs, same, quiet) = run_closed calls tx w h in
      rw (call_closed c tx w h) ((refl, errs), same, quiet)

  -- Whether the call is Commit or Rollback.
  unfoldable pub finishes : TxCall → Bool
  finishes commit_call = true
  finishes rollback_call = true
  finishes _ = false

  -- How many of the Commit and Rollback calls return nil.
  unfoldable pub finished : List TxCall → List (Option GoError) → ℕ
  finished (c ∷ calls) (err ∷ errs) =
      let rest = finished calls errs in if finishes c && is_none err then suc rest else rest
  finished _ _ = 0

  finished_closed :
      (calls : List TxCall) (errs : List (Option GoError))
      → All (λ err. err ≡ some tx_done) errs
      → finished calls errs ≡ 0
  unfolding finished is_none
  finished_closed [] errs h = refl
  finished_closed (c ∷ calls) [] h = refl
  finished_closed (c ∷ calls) (err ∷ errs) (h, hs) = ground (arith, finished_closed calls errs hs)

  call_closes :
      (c : TxCall) (tx : Tx) (w : Process)
      → tx.closed ≡ false
      → finishes c && is_none (call c tx w).0 ≡ true
      → (call c tx w).1.closed ≡ true
  unfolding call commit rollback release_rolled_back send ensure_open finishes is_none
  call_closes begin_call tx w h e = absurd (ground arith)
  call_closes commit_call tx w h e = ground arith
  call_closes rollback_call tx w h e = ground arith
  call_closes (operation_call work) tx w h e = absurd (ground arith)

  -- However often Commit and Rollback are called on a handle, in any order and between any other
  -- calls, at most one of them returns nil.
  pub run_finishes_once :
      (calls : List TxCall) (tx : Tx) (w : Process) → finished calls (run calls tx w).0 ≤ 1
  unfolding finished run is_none finishes
  run_finishes_once [] tx w = omega arith
  run_finishes_once (c ∷ calls) tx w =
      let (err, tx', w') = call c tx w in
      let later = run_finishes_once calls tx' w' in
      elim (Bool-cases (finishes c && is_none err)) [
        | inr goes ↦ rw goes later
        | inl ends ↦ elim (Bool-cases tx.closed) [
          | inl shut ↦ absurd (ground (arith, ends, ap (λ r. r.0) (call_closed c tx w shut)))
          | inr still ↦
              let (errs, _, _) = run_closed calls tx' w' (call_closes c tx w still ends) in
              rw (ends, finished_closed calls (run calls tx' w').0 errs) (omega arith)
        ]
      ]

  -- How many statements end the outer transaction.
  unfoldable pub endings : List Statement → ℕ
  endings [] = 0
  endings (execute s ∷ sent) = endings sent
  endings (_ ∷ sent) = suc (endings sent)

  -- Begin, Commit and Rollback of a nested handle send neither the commit nor the rollback of the
  -- outer transaction.
  pub nested_keeps_outer :
      (tx : Tx) (w : Process)
      → is_empty tx.savepoint ≡ false
      → (endings (begin answer tx w).2.sent ≡ endings w.sent)
        × (endings (commit answer tx w).2.sent ≡ endings w.sent)
        × (endings (rollback answer tx w).2.sent ≡ endings w.sent)
  unfolding begin commit rollback release_rolled_back send ensure_open endings
  nested_keeps_outer tx w nested = (ground arith, ground arith, ground arith)

  -- Commit and Rollback of an open handle leave it closed exactly when it is the transaction
  -- itself or they return nil: a savepoint that could not be released stays open.
  pub finish-closed :
      (tx : Tx) (w : Process)
      → tx.closed ≡ false
      → ((commit answer tx w).1.closed ≡ is_empty tx.savepoint || is_none (commit answer tx w).0)
        × ((rollback answer tx w).1.closed
            ≡ is_empty tx.savepoint || is_none (rollback answer tx w).0)
  unfolding commit rollback release_rolled_back send ensure_open is_none
  finish-closed tx w h = (ground arith, ground arith)
