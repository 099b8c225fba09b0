-- ===== src/Cache/Redis.antt =====
-- cache/redis/redis.go: the Store over a client of Redis. The client is a parameter with a state, the
-- database; a call gives its result and the state after it. SCAN's loop runs on fuel.
pub mod Rounds
pub mod Iteration
use rainbowsquirrel.Base.{
  ℕ, zero, suc, Bool, true, false, List, [], ◌∷◌, ◌++◌, Option, none, some, Bytes, ℤ, ◌==◌,
  if◌then◌else◌,
}
use rainbowsquirrel.Bind.Parser.{is_empty}
use rainbowsquirrel.Core.Errors.{GoError}
use rainbowsquirrel.Core.Outcome.{Outcome, ok, fail, panic}

-- The commands that the Store sends. GET gives none for Redis nil; SCAN takes a cursor and a pattern,
-- and gives keys and the next cursor.
pub record Client (Db : Type 0) : Type 0 where
  pub get_value : Bytes → Db → Outcome (Option Bytes) × Db
  pub set_value : Bytes → Bytes → ℤ → Db → Option GoError × Db
  pub del_keys : List Bytes → Db → Option GoError × Db
  pub scan_keys : ℕ → Bytes → Db → Outcome (List Bytes × ℕ) × Db
  pub flush_db : Db → Option GoError × Db

module _ {Db : Type 0} (client : Client Db) where
  unfoldable pub del_page : List Bytes → Db → Option GoError × Db
  del_page [] db = (none, db)
  del_page (k ∷ keys) db = client.del_keys (k ∷ keys) db

  -- The loop of scanDel from a cursor on; `none` means that the fuel ran out.
  unfoldable pub scan_del : ℕ → ℕ → Bytes → Db → Option (Outcome (Unit {0}) × Db)
  unfolding del_page
  scan_del zero cursor pattern db = none
  scan_del (suc fuel) cursor pattern db =
      let (page, db1) = client.scan_keys cursor pattern db in
      elim page [
        | fail e ↦ some (fail e, db1)
        | panic ↦ some (panic, db1)
        | ok found ↦
            let (err, db2) = del_page found.0 db1 in
            let more = scan_del fuel found.1 pattern db2 in
            elim err [
              | some e ↦ some (fail e, db2)
              | none ↦ if found.1 == 0 then some (ok tt, db2) else more
            ]
      ]

  module _ (prefix : Bytes) where
    unfoldable pub redis_key : Bytes → Bytes
    redis_key k = prefix ++ k

    unfoldable pub redis_get : Bytes → Db → Outcome (Option Bytes) × Db
    unfolding redis_key
    redis_get k db = client.get_value (redis_key k) db

    unfoldable pub redis_set : Bytes → Bytes → ℤ → Db → Option GoError × Db
    unfolding redis_key
    redis_set k value ttl db = client.set_value (redis_key k) value ttl db

    unfoldable pub redis_delete : Bytes → Db → Option GoError × Db
    unfolding redis_key
    redis_delete k db = client.del_keys (redis_key k ∷ []) db

    unfoldable pub redis_delete_prefix : ℕ → Bytes → Db → Option (Outcome (Unit {0}) × Db)
    unfolding scan_del
    redis_delete_prefix fuel p db = scan_del fuel 0 (prefix ++ (p ++ (b'*' ∷ []))) db

    unfoldable pub redis_flush : ℕ → Db → Option (Outcome (Unit {0}) × Db)
    unfolding scan_del
    redis_flush fuel db =
        if is_empty prefix
        then (let (err, db') = client.flush_db db in
            some (elim err [ none ↦ (ok tt, db') | some e ↦ (fail e, db') ]))
        else scan_del fuel 0 (prefix ++ (b'*' ∷ [])) db
