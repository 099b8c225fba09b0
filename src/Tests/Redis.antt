-- ===== src/Tests/Redis.antt =====
-- cache/redis/redis.go on a database of keys without values, which SCAN goes through in two pages.
use rainbowsquirrel.Base.{
  ℕ, ◌≡◌, ◌≢◌, ◌⊎◌, inl, inr, refl, sym, ap, ◌∙◌, arith, Bool, true, false, not, ◌&&◌, ◌||◌,
  Bool-cases, List, [], ◌∷◌, none, some, Bytes, codes, equal, equal_iff, if◌then◌else◌, ◌==◌,
  length,
}
use rainbowsquirrel.Core.Outcome.{Outcome, ok}
use rainbowsquirrel.Cache.Redis.{Client, redis_delete_prefix}
use rainbowsquirrel.Cache.Redis.Iteration.{is_among, Done, delete_prefix-Done}

-- A pattern that may end in a star.
unfoldable covers : Bytes → Bytes → Bool
covers [] [] = true
covers [] (d ∷ k) = false
covers (c ∷ []) [] = c == b'*'
covers (c ∷ e ∷ p) [] = false
covers (c ∷ p) (d ∷ k) = (c == b'*') || ((c == d) && covers p k)

unfoldable keep_keys : (Bytes → Bool) → List Bytes → List Bytes
keep_keys test [] = []
keep_keys test (j ∷ keys) = let rest = keep_keys test keys in if test j then j ∷ rest else rest

-- The keys that the first page looks at.
abbrev is_short : Bytes → Bool
is_short k = length k == 4

-- What the page at a cursor gives, and what is still to come from there on.
abbrev on_page : ℕ → Bytes → Bytes → Bool
on_page n p k = covers p k && (if n == 0 then is_short k else not (is_short k))

abbrev to_come : ℕ → Bytes → Bytes → Bool
to_come n p k = covers p k && ((n == 0) || not (is_short k))

abbrev next_page : ℕ → ℕ
next_page n = if n == 0 then 1 else 0

abbrev client : Client (List Bytes)
client = record {
  get_value = λ k db. (ok (if is_among k db then some [] else none), db);
  set_value = λ k v ttl db. (none, k ∷ db);
  del_keys = λ keys db. (none, keep_keys (λ k. not (is_among k keys)) db);
  scan_keys = λ n p db. (ok (keep_keys (on_page n p) db, next_page n), db);
  flush_db = λ db. (none, []);
}

abbrev owed : ℕ → Bytes → List Bytes → List Bytes
owed n p db = keep_keys (to_come n p) db

among-keep :
    (test : Bytes → Bool) (k : Bytes) (db : List Bytes)
    → is_among k (keep_keys test db) ≡ (is_among k db && test k)
unfolding is_among keep_keys
among-keep test k [] = refl
among-keep test k (j ∷ db) = elim (Bool-cases (equal j k)) [
  | inl same ↦
      let one : test j ≡ test k = ap test ((equal_iff j k).0 same) in
      let rest = among-keep test k db in
      elim (Bool-cases (test j)) [ inl kept ↦ ground arith | inr gone ↦ ground arith ]
  | inr other ↦
      let rest = among-keep test k db in
      elim (Bool-cases (test j)) [ inl kept ↦ ground arith | inr gone ↦ ground arith ]
]

page_keys :
    (n m : ℕ) (p : Bytes) (db db1 : List Bytes) (keys : List Bytes)
    → client.scan_keys n p db ≡ (ok (keys, m), db1)
    → (keep_keys (on_page n p) db ≡ keys) × (next_page n ≡ m) × (db ≡ db1)
page_keys n m p db db1 keys page = (ground arith, ground arith, ground arith)

scan_matches :
    (n m : ℕ) (p k : Bytes) (db db1 : List Bytes) (keys : List Bytes)
    → client.scan_keys n p db ≡ (ok (keys, m), db1)
    → is_among k keys ≡ true
    → covers p k ≡ true
scan_matches n m p k db db1 keys page h =
    let (same, next, kept) = page_keys n m p db db1 keys page in
    let among = among-keep (on_page n p) k db in
    let h' : is_among k (keep_keys (on_page n p) db) ≡ true = ap (is_among k) same ∙ h in
    ground arith

scan_pays :
    (n m : ℕ) (p k : Bytes) (db db1 : List Bytes) (keys : List Bytes)
    → client.scan_keys n p db ≡ (ok (keys, m), db1)
    → is_among k (owed n p db) ≡ true
    → (is_among k keys ≡ true) ⊎ ((m ≢ 0) × (is_among k (owed m p db1) ≡ true))
scan_pays n m p k db db1 keys page h =
    let (same, next, kept) = page_keys n m p db db1 keys page in
    let on = sym (ap (is_among k) same) ∙ among-keep (on_page n p) k db in
    let left = sym (among-keep (to_come n p) k db) ∙ h in
    let later = ap (λ x. is_among k (owed m p x)) (sym kept) ∙ among-keep (to_come m p) k db in
    elim (Bool-cases (on_page n p k)) [
      | inl now ↦ inl (ground arith)
      | inr not_now ↦ inr (ground arith, ground arith)
    ]

scan_owes :
    (p k : Bytes) (db : List Bytes)
    → is_among k db ≡ true
    → covers p k ≡ true
    → is_among k (owed 0 p db) ≡ true
scan_owes p k db h covered = let among = among-keep (to_come 0 p) k db in ground arith

del_removes :
    (keys : List Bytes) (k : Bytes) (db db1 : List Bytes)
    → client.del_keys keys db ≡ (none, db1)
    → is_among k db1 ≡ (is_among k db && not (is_among k keys))
del_removes keys k db db1 e =
    let same : keep_keys (λ j. not (is_among j keys)) db ≡ db1 = ap (λ x. x.1) e in
    sym (ap (is_among k) same) ∙ among-keep (λ j. not (is_among j keys)) k db

del_owes :
    (keys : List Bytes) (n : ℕ) (p k : Bytes) (db db1 : List Bytes)
    → client.del_keys keys db ≡ (none, db1)
    → is_among k db1 ≡ true
    → is_among k (owed n p db) ≡ true
    → is_among k (owed n p db1) ≡ true
del_owes keys n p k db db1 e h o =
    let before = among-keep (to_come n p) k db in
    let after = among-keep (to_come n p) k db1 in ground arith

-- Two of the four keys are in the namespace, and each is on a page of its own.
abbrev stored : List Bytes
stored = codes "p:n1" ∷ codes "p:m1" ∷ codes "p:n22" ∷ codes "n" ∷ []

two_pages :
    redis_delete_prefix client (codes "p:") 2 (codes "n") stored
    ≡ some (ok tt, codes "p:m1" ∷ codes "n" ∷ [])
unfolding redis_delete_prefix covers keep_keys is_among equal
two_pages = refl

delete_prefix-Done_example :
    (r : Outcome (Unit {0}) × List Bytes) × (redis_delete_prefix client
        (codes "p:")
        2
        (codes "n")
        stored
      ≡ some r)
    × Done is_among covers (codes "p:n*") stored r
delete_prefix-Done_example =
    delete_prefix-Done client is_among covers owed (λ n p k db. refl) scan_matches scan_pays
      scan_owes del_removes del_owes (λ n p db. next_page n)
      (λ n m p db db1 keys page far.
        let same = (page_keys n m p db db1 keys page).1 in ground arith)
      (λ keys n p db db1 e. omega arith) 2 (codes "p:") (codes "n") stored (omega arith)
