-- ===== src/Cache/Redis/Rounds.antt =====
-- cache/redis/redis.go: how many pages scanDel asks for.
use rainbowsquirrel.Base.{
  ℕ, zero, suc, ◌<◌, ◌≤◌, ◌≡◌, ◌≢◌, refl, inl, inr, arith, Bool-cases, List, [], ◌∷◌, Option, none,
  some, Bytes, ◌==◌,
}
use rainbowsquirrel.Core.Errors.{GoError}
use rainbowsquirrel.Core.Outcome.{Outcome, ok, fail, panic}
use rainbowsquirrel.Cache.Redis.{Client, del_page, scan_del}

module _ {Db : Type 0} (client : Client Db) (pages : ℕ → Bytes → Db → ℕ)
    (scan_fewer : (n m : ℕ) (p : Bytes) (db db1 : Db) (keys : List Bytes)
      → client.scan_keys n p db ≡ (ok (keys, m), db1)
      → m ≢ 0
      → pages m p db1 < pages n p db)
    (del_fewer : (keys : List Bytes) (n : ℕ) (p : Bytes) (db db1 : Db)
      → client.del_keys keys db ≡ (none, db1)
      → pages n p db1 ≤ pages n p db) where
  -- A loop that has not run out of fuel.
  abbrev pub Ends : ℕ → ℕ → Bytes → Db → Type 0
  Ends fuel n p db = (r : Outcome (Unit {0}) × Db) × (scan_del client fuel n p db ≡ some r)

  page_fewer :
      (keys : List Bytes) (n : ℕ) (p : Bytes) (db db1 : Db)
      → del_page client keys db ≡ (none, db1)
      → pages n p db1 ≤ pages n p db
  unfolding del_page
  page_fewer [] n p db db1 e = let same : db ≡ db1 = ground arith in rw (← same) (omega arith)
  page_fewer (j ∷ keys) n p db db1 e = del_fewer (j ∷ keys) n p db db1 e

  deleted-Ends :
      (fuel n m : ℕ) (p : Bytes) (db db1 : Db) (keys : List Bytes) (d : Option GoError × Db)
      → client.scan_keys n p db ≡ (ok (keys, m), db1)
      → del_page client keys db1 ≡ d
      → ((db2 : Db) → m ≢ 0 → del_page client keys db1 ≡ (none, db2) → Ends fuel m p db2)
      → Ends (suc fuel) n p db
  unfolding scan_del
  deleted-Ends fuel n m p db db1 keys (some e, db2) page del next = ((fail e, db2), ground arith)
  deleted-Ends fuel n m p db db1 keys (none, db2) page del next = elim (Bool-cases (m == 0)) [
    | inl last ↦ ((ok tt, db2), ground arith)
    | inr more ↦
        let far : m ≢ 0 = ground arith in let (r, e) = next db2 far del in (r, ground arith)
  ]

  page-Ends :
      (fuel n : ℕ) (p : Bytes) (db : Db) (s : Outcome (List Bytes × ℕ) × Db)
      → client.scan_keys n p db ≡ s
      → ((m : ℕ) (keys : List Bytes) (db1 db2 : Db)
          → client.scan_keys n p db ≡ (ok (keys, m), db1)
          → m ≢ 0
          → del_page client keys db1 ≡ (none, db2)
          → Ends fuel m p db2)
      → Ends (suc fuel) n p db
  unfolding scan_del
  page-Ends fuel n p db (fail e, db1) page next = ((fail e, db1), ground arith)
  page-Ends fuel n p db (panic, db1) page next = ((panic, db1), ground arith)
  page-Ends fuel n p db (ok (keys, m), db1) page next =
      deleted-Ends fuel n m p db db1 keys _ page refl
        (λ db2 far del. next m keys db1 db2 page far del)

  pub scan_del-Ends : (fuel n : ℕ) (p : Bytes) (db : Db) → pages n p db < fuel → Ends fuel n p db
  scan_del-Ends zero n p db h = absurd (omega arith)
  scan_del-Ends (suc fuel) n p db h = page-Ends fuel n p db _ refl (λ m keys db1 db2 page far del.
      let fewer = scan_fewer n m p db db1 keys page far in
      let kept = page_fewer keys m p db1 db2 del in scan_del-Ends fuel m p db2 (omega arith))
