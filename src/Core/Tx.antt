-- ===== src/Core/Tx.antt =====
-- core.go: Tx, a transaction or a savepoint of one, and the statements that it sends. What the
-- database answers is a parameter: it may depend on all that was sent before.
pub mod Names
pub mod Closing
use rainbowsquirrel.Base.{
  ◌+◌, ◌%◌, ◌^◌, ℤ, pos, negsuc, to_u64, of_u64, Bool, true, false, List, [], ◌∷◌, ◌++◌, Option,
  none, some, Bytes, codes, if◌then◌else◌,
}
use rainbowsquirrel.Bind.Rebind.{decimal}
use rainbowsquirrel.Bind.Parser.{is_empty}
use rainbowsquirrel.Core.Errors.{GoError, tx_done, context_error}

-- What goes to the driver: a text, or the commit and rollback of *sql.Tx.
pub data Statement : Type 0 where
  execute : Bytes → Statement
  commit_tx rollback_tx : Statement

-- The process: the counter savepointSeq, an int64, and what was sent on the connection, the latest first.
pub record Process : Type 0 where
  pub savepoint_seq : ℤ
  pub sent : List Statement

-- The empty savepoint is the transaction itself.
pub record Tx : Type 0 where
  pub savepoint : Bytes
  pub closed : Bool

-- `%d`
unfoldable pub signed_decimal : ℤ → Bytes
signed_decimal (pos n) = decimal n
signed_decimal (negsuc n) = b'-' ∷ decimal (n + 1)

-- fmt.Sprintf("rainbowsquirrel_sp_%d", n)
unfoldable pub savepoint_name : ℤ → Bytes
unfolding signed_decimal
savepoint_name n = codes "rainbowsquirrel_sp_" ++ signed_decimal n

-- `savepointSeq.Add(1)`, which wraps around.
unfoldable pub next_seq : ℤ → ℤ
next_seq z = of_u64 ((to_u64 z + 1) % 2 ^ 64)

unfoldable pub ensure_open : Tx → Option GoError
ensure_open tx = if tx.closed then some tx_done else none

module _ (answer : List Statement → Statement → Option GoError) where
  -- Sends a statement, for the driver's error or none.
  unfoldable pub send : Statement → Process → Option GoError × Process
  send st w = (answer w.sent st, record w { sent = st ∷ w.sent })

  unfoldable pub begin : Tx → Process → Option Tx × Option GoError × Process
  unfolding send next_seq
  begin tx w = elim (ensure_open tx) [
    | some e ↦ (none, some e, w)
    | none ↦
        let n = next_seq w.savepoint_seq in
        let name = savepoint_name n in
        let (err, w') =
          send (execute (codes "SAVEPOINT " ++ name)) (record w { savepoint_seq = n }) in
        elim err [
          | some e ↦ (none, some (context_error (codes "begin savepoint") e), w')
          | none ↦ (some (record { savepoint = name; closed = false }), none, w')
        ]
  ]

  unfoldable pub commit : Tx → Process → Option GoError × Tx × Process
  unfolding send
  commit tx w = elim (ensure_open tx) [
    | some e ↦ (some e, tx, w)
    | none ↦
        if is_empty tx.savepoint
        then (let (err, w') = send commit_tx w in (err, record tx { closed = true }, w'))
        else (let (err, w') = send (execute (codes "RELEASE SAVEPOINT " ++ tx.savepoint)) w in
            elim err [
              | some e ↦
                  (some (context_error (codes "release savepoint " ++ tx.savepoint) e), tx, w')
              | none ↦ (none, record tx { closed = true }, w')
            ])
  ]

  -- The second half of a nested Rollback, after the database has rolled back.
  unfoldable pub release_rolled_back : Tx → Process → Option GoError × Tx × Process
  unfolding send
  release_rolled_back tx w =
      let (err, w') = send (execute (codes "RELEASE SAVEPOINT " ++ tx.savepoint)) w in
      elim err [
        | some e ↦ (some (context_error (codes "release savepoint " ++ tx.savepoint) e), tx, w')
        | none ↦ (none, record tx { closed = true }, w')
      ]

  unfoldable pub rollback : Tx → Process → Option GoError × Tx × Process
  unfolding send release_rolled_back
  rollback tx w = elim (ensure_open tx) [
    | some e ↦ (some e, tx, w)
    | none ↦
        if is_empty tx.savepoint
        then (let (err, w') = send rollback_tx w in (err, record tx { closed = true }, w'))
        else (let (err, w') = send (execute (codes "ROLLBACK TO SAVEPOINT " ++ tx.savepoint)) w in
            elim err [
              | some e ↦
                  (some (context_error (codes "rollback to savepoint " ++ tx.savepoint) e), tx, w')
              | none ↦ release_rolled_back tx w'
            ])
  ]
