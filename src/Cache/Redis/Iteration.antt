-- ===== src/Cache/Redis/Iteration.antt =====
-- cache/redis/redis.go: scanDel over a whole iteration.
use rainbowsquirrel.Base.{
  ℕ, zero, suc, ◌<◌, ◌≤◌, ◌≡◌, ◌≢◌, ◌⊎◌, refl, sym, ap, subst, ◌∙◌, inl, inr, arith, Bool, true,
  false, not, ◌&&◌, ◌||◌, Bool-cases, List, [], ◌∷◌, ◌++◌, Option, none, some, Bytes, equal, ◌==◌,
}
use rainbowsquirrel.Core.Errors.{GoError}
use rainbowsquirrel.Core.Outcome.{Outcome, ok, fail, panic}
use rainbowsquirrel.Cache.Redis.{Client, del_page, scan_del, redis_delete_prefix}
use rainbowsquirrel.Cache.Redis.Rounds.{scan_del-Ends}

keeps : (b : Bool) → b ≡ (b && not false)
keeps true = refl
keeps false = refl

and_true : (a b : Bool) → (a && not b) ≡ true → (a ≡ true) × (b ≡ false)
and_true a b e = (ground arith, ground arith)

-- A test that implies another adds nothing to its negation.
covered_rest : (a b c : Bool) → (b ≡ true → c ≡ true) → ((a && not b) && not c) ≡ (a && not c)
covered_rest a false c h = ap (λ (x : Bool). x && not c) (sym (keeps a))
covered_rest a true c h = let e = h refl in ground arith

same_rest :
    (a b c : Bool)
    → (b ≡ true → c ≡ true)
    → (a ≡ true → c ≡ true → b ≡ true)
    → (a && not b) ≡ (a && not c)
same_rest false b c h k = refl
same_rest true true c h k = let e = h refl in ground arith
same_rest true false true h k = let e = k refl refl in absurd (ground arith)
same_rest true false false h k = refl

unfoldable pub is_among : Bytes → List Bytes → Bool
is_among k [] = false
is_among k (j ∷ keys) = equal j k || is_among k keys

module _ {Db : Type 0} (has : Bytes → Db → Bool) (matches : Bytes → Bytes → Bool) where
  -- The keys that the pattern covers are gone, and all others are as they were.
  abbrev pub Erased : Bytes → Db → Db → Type 0
  Erased p db end = (k : Bytes) → has k end ≡ (has k db && not (matches p k))

  -- What a call that ends without an error has done.
  abbrev pub Done : Bytes → Db → Outcome (Unit {0}) × Db → Type 0
  Done p db (ok u, end) = Erased p db end
  Done p db (fail e, end) = Unit
  Done p db (panic, end) = Unit

-- `has` is whether a key is in the database, `matches` whether a pattern covers it, and `owed` what
-- an iteration has still to give from a cursor on.
module _ {Db : Type 0} (client : Client Db) (has : Bytes → Db → Bool)
    (matches : Bytes → Bytes → Bool) (owed : ℕ → Bytes → Db → List Bytes)
    (scan_keeps : (n : ℕ) (p k : Bytes) (db : Db) → has k (client.scan_keys n p db).1 ≡ has k db)
    (scan_matches : (n m : ℕ) (p k : Bytes) (db db1 : Db) (keys : List Bytes)
      → client.scan_keys n p db ≡ (ok (keys, m), db1)
      → is_among k keys ≡ true
      → matches p k ≡ true)
    (scan_pays : (n m : ℕ) (p k : Bytes) (db db1 : Db) (keys : List Bytes)
      → client.scan_keys n p db ≡ (ok (keys, m), db1)
      → is_among k (owed n p db) ≡ true
      → (is_among k keys ≡ true) ⊎ ((m ≢ 0) × (is_among k (owed m p db1) ≡ true)))
    (scan_owes : (p k : Bytes) (db : Db)
      → has k db ≡ true
      → matches p k ≡ true
      → is_among k (owed 0 p db) ≡ true)
    (del_removes : (keys : List Bytes) (k : Bytes) (db db1 : Db)
      → client.del_keys keys db ≡ (none, db1)
      → has k db1 ≡ (has k db && not (is_among k keys)))
    (del_owes : (keys : List Bytes) (n : ℕ) (p k : Bytes) (db db1 : Db)
      → client.del_keys keys db ≡ (none, db1)
      → has k db1 ≡ true
      → is_among k (owed n p db) ≡ true
      → is_among k (owed n p db1) ≡ true) where
  page_removes :
      (keys : List Bytes) (k : Bytes) (db db1 : Db)
      → del_page client keys db ≡ (none, db1)
      → has k db1 ≡ (has k db && not (is_among k keys))
  unfolding del_page is_among
  page_removes [] k db db1 e = let same : db ≡ db1 = ground arith in rw (← same) (keeps (has k db))
  page_removes (j ∷ keys) k db db1 e = del_removes (j ∷ keys) k db db1 e

  page_owes :
      (keys : List Bytes) (n : ℕ) (p k : Bytes) (db db1 : Db)
      → del_page client keys db ≡ (none, db1)
      → has k db1 ≡ true
      → is_among k (owed n p db) ≡ true
      → is_among k (owed n p db1) ≡ true
  unfolding del_page
  page_owes [] n p k db db1 e h o = let same : db ≡ db1 = ground arith in rw (← same) o
  page_owes (j ∷ keys) n p k db db1 e h o = del_owes (j ∷ keys) n p k db db1 e h o

  -- From a cursor on, every key that is left to delete is still owed.
  abbrev Owes : ℕ → Bytes → Db → Type 0
  Owes n p db = (k : Bytes) → has k db ≡ true → matches p k ≡ true → is_among k (owed n p db) ≡ true

  -- One page: what the deletion of its keys does to a key.
  page_has :
      (n m : ℕ) (p k : Bytes) (db db1 db2 : Db) (keys : List Bytes)
      → client.scan_keys n p db ≡ (ok (keys, m), db1)
      → del_page client keys db1 ≡ (none, db2)
      → has k db2 ≡ (has k db && not (is_among k keys))
  page_has n m p k db db1 db2 keys page deleted =
      let kept : has k db1 ≡ has k db =
        ap (λ (x : Outcome (List Bytes × ℕ) × Db). has k x.1) (sym page) ∙ scan_keeps n p k db in
      page_removes keys k db1 db2 deleted ∙ ap (λ (b : Bool). b && not (is_among k keys)) kept

  page-Owes :
      (n m : ℕ) (p : Bytes) (db db1 db2 : Db) (keys : List Bytes)
      → client.scan_keys n p db ≡ (ok (keys, m), db1)
      → del_page client keys db1 ≡ (none, db2)
      → Owes n p db
      → Owes m p db2
  page-Owes n m p db db1 db2 keys page deleted owes k here covered =
      let removed = page_has n m p k db db1 db2 keys page deleted in
      let (before, missed) = and_true (has k db) (is_among k keys) (sym removed ∙ here) in
      elim (scan_pays n m p k db db1 keys page (owes k before covered)) [
        | inl paid ↦ absurd (ground arith)
        | inr (more, still) ↦ page_owes keys m p k db1 db2 deleted here still
      ]

  last-Erased :
      (n : ℕ) (p : Bytes) (db db1 db2 : Db) (keys : List Bytes)
      → client.scan_keys n p db ≡ (ok (keys, 0), db1)
      → del_page client keys db1 ≡ (none, db2)
      → Owes n p db
      → Erased has matches p db db2
  last-Erased n p db db1 db2 keys page deleted owes k =
      page_has n 0 p k db db1 db2 keys page deleted
      ∙ same_rest (has k db) (is_among k keys) (matches p k) (scan_matches n 0 p k db db1 keys page)
          (λ before covered. elim (scan_pays n 0 p k db db1 keys page (owes k before covered)) [
            | inl paid ↦ paid
            | inr (more, still) ↦ absurd (more refl)
          ])

  next-Erased :
      (n m : ℕ) (p : Bytes) (db db1 db2 end : Db) (keys : List Bytes)
      → client.scan_keys n p db ≡ (ok (keys, m), db1)
      → del_page client keys db1 ≡ (none, db2)
      → Erased has matches p db2 end
      → Erased has matches p db end
  next-Erased n m p db db1 db2 end keys page deleted erased k =
      erased k
      ∙ ap (λ (b : Bool). b && not (matches p k)) (page_has n m p k db db1 db2 keys page deleted)
      ∙ covered_rest (has k db) (is_among k keys) (matches p k)
          (scan_matches n m p k db db1 keys page)

  -- How a loop that went well began.
  abbrev Began : ℕ → ℕ → Bytes → Db → Db → Type 0
  Began fuel n p db end =
      (keys : List Bytes) × (m : ℕ) × (db1 : Db) × (db2 : Db) × (client.scan_keys n p db
        ≡ (ok (keys, m), db1))
      × (del_page client keys db1 ≡ (none, db2))
      × (((m ≡ 0) × (db2 ≡ end)) ⊎ (scan_del client fuel m p db2 ≡ some (ok tt, end)))

  deleted-Began :
      (fuel n m : ℕ) (p : Bytes) (db db1 end : Db) (keys : List Bytes) (d : Option GoError × Db)
      → client.scan_keys n p db ≡ (ok (keys, m), db1)
      → del_page client keys db1 ≡ d
      → scan_del client (suc fuel) n p db ≡ some (ok tt, end)
      → Began fuel n p db end
  unfolding scan_del
  deleted-Began fuel n m p db db1 end keys (some e, db2) page del h = absurd (ground arith)
  deleted-Began fuel n m p db db1 end keys (none, db2) page del h = elim (Bool-cases (m == 0)) [
    | inl last ↦ (keys, m, db1, db2, page, del, inl (ground arith, ground arith))
    | inr more ↦ (keys, m, db1, db2, page, del, inr (ground arith))
  ]

  page-Began :
      (fuel n : ℕ) (p : Bytes) (db end : Db) (s : Outcome (List Bytes × ℕ) × Db)
      → client.scan_keys n p db ≡ s
      → scan_del client (suc fuel) n p db ≡ some (ok tt, end)
      → Began fuel n p db end
  unfolding scan_del
  page-Began fuel n p db end (fail e, db1) page h = absurd (ground arith)
  page-Began fuel n p db end (panic, db1) page h = absurd (ground arith)
  page-Began fuel n p db end (ok (keys, m), db1) page h =
      deleted-Began fuel n m p db db1 end keys _ page refl h

  scan_del-Erased :
      (fuel n : ℕ) (p : Bytes) (db end : Db)
      → Owes n p db
      → scan_del client fuel n p db ≡ some (ok tt, end)
      → Erased has matches p db end
  unfolding scan_del
  scan_del-Erased zero n p db end owes h = absurd (ground arith)
  scan_del-Erased (suc fuel) n p db end owes h =
      let (keys, m, db1, db2, page, del, rest) = page-Began fuel n p db end _ refl h in
      elim rest [
        | inl (last, same) ↦
            subst (λ (x : Db). Erased has matches p db x) same
              (last-Erased n p db db1 db2 keys (page ∙ ap (λ (c : ℕ). (ok (keys, c), db1)) last) del
                owes)
        | inr more ↦
            next-Erased n m p db db1 db2 end keys page del (
              scan_del-Erased fuel m p db2 end (page-Owes n m p db db1 db2 keys page del owes) more)
      ]

  module _ (pages : ℕ → Bytes → Db → ℕ)
      (scan_fewer : (n m : ℕ) (p : Bytes) (db db1 : Db) (keys : List Bytes)
        → client.scan_keys n p db ≡ (ok (keys, m), db1)
        → m ≢ 0
        → pages m p db1 < pages n p db)
      (del_fewer : (keys : List Bytes) (n : ℕ) (p : Bytes) (db db1 : Db)
        → client.del_keys keys db ≡ (none, db1)
        → pages n p db1 ≤ pages n p db) where
    run-Done :
        (fuel n : ℕ) (p : Bytes) (db : Db) (r : Outcome (Unit {0}) × Db)
        → Owes n p db
        → scan_del client fuel n p db ≡ some r
        → Done has matches p db r
    run-Done fuel n p db (ok tt, end) owes e = scan_del-Erased fuel n p db end owes e
    run-Done fuel n p db (fail x, end) owes e = tt
    run-Done fuel n p db (panic, end) owes e = tt

    -- If an iteration of SCAN has an end, gives only keys that match, gives every key that matches
    -- and is there from its start to its end, and changes no key, and DEL removes the keys that it
    -- is given and no other, then DeletePrefix returns within one round more than the iteration
    -- has pages, and if it returns no error, then the keys that match the store's prefix with
    -- the given one and a star are gone, and all other keys are as they were.
    pub delete_prefix-Done :
        (fuel : ℕ) (prefix p : Bytes) (db : Db)
        → pages 0 (prefix ++ (p ++ (b'*' ∷ []))) db < fuel
        → (r : Outcome (Unit {0}) × Db) × (redis_delete_prefix client prefix fuel p db ≡ some r)
          × Done has matches (prefix ++ (p ++ (b'*' ∷ []))) db r
    unfolding redis_delete_prefix
    delete_prefix-Done fuel prefix p db h =
        let pattern = prefix ++ (p ++ (b'*' ∷ [])) in
        let (r, e) = scan_del-Ends client pages scan_fewer del_fewer fuel 0 pattern db h in
        (
          r,
          e,
          run-Done fuel 0 pattern db r (λ k here covered. scan_owes pattern k db here covered) e,
        )
