-- ===== src/Cache/Store.antt =====
-- cache/store.go: MemoryStore. The map holds pointers into the list container/list keeps; here an
-- element has an identity, the map holds identities, and a pointer is followed by searching the
-- list for it. The mutex makes each method one step, and time.Now() is its argument `now`.
pub mod Spec
pub mod Elements
pub mod Sync
pub mod Methods
pub mod Refine
pub mod Prefix
pub mod Calls
pub mod Bounds
pub mod Laws
use rainbowsquirrel.Base.{
  ℕ, zero, suc, ◌+◌, Bool, true, false, ◌&&◌, List, [], ◌∷◌, Option, none, some, length, Bytes,
  equal, has_prefix, ltb, leb, ◌==◌, if◌then◌else◌, ℤ, pos, negsuc,
}

-- memEntry in its list element; `none` is the zero time, which means no expiration.
pub record Element : Type 0 where
  pub id : ℕ
  pub key : Bytes
  pub val : Bytes
  pub expires : Option ℕ

-- `lru` is the list from front to back; `next_id` is the identity of the next element.
pub record MemoryStore : Type 0 where
  pub cap : ℤ
  pub ttl : ℤ
  pub items : List (Bytes × ℕ)
  pub lru : List Element
  pub next_id : ℕ

unfoldable pub new_memory_store : ℤ → ℤ → MemoryStore
new_memory_store capacity default_ttl = record {
  cap = capacity;
  ttl = default_ttl;
  items = [];
  lru = [];
  next_id = 0;
}

-- `s.items[key]`, `delete(s.items, key)`
unfoldable pub find_item : Bytes → List (Bytes × ℕ) → Option ℕ
find_item k [] = none
find_item k ((j, i) ∷ m) = if equal j k then some i else find_item k m

unfoldable pub delete_item : Bytes → List (Bytes × ℕ) → List (Bytes × ℕ)
delete_item k [] = []
delete_item k ((j, i) ∷ m) = let rest = delete_item k m in if equal j k then rest else (j, i) ∷ rest

-- The element that a pointer names, list.Remove and list.MoveToFront.
unfoldable pub element : ℕ → List Element → Option Element
element i [] = none
element i (e ∷ l) = if e.id == i then some e else element i l

unfoldable pub list_remove : ℕ → List Element → List Element
list_remove i [] = []
list_remove i (e ∷ l) = let rest = list_remove i l in if e.id == i then rest else e ∷ rest

unfoldable pub back : List Element → Option Element
back [] = none
back (e ∷ []) = some e
back (e ∷ f ∷ l) = back (f ∷ l)

-- `!e.expires.IsZero() && time.Now().After(e.expires)`
unfoldable pub is_expired : ℕ → Option ℕ → Bool
is_expired now none = false
is_expired now (some t) = ltb t now

unfoldable pub remove : Element → MemoryStore → MemoryStore
remove e s = record s { lru = list_remove e.id s.lru; items = delete_item e.key s.items }

unfoldable pub evict : MemoryStore → MemoryStore
evict s = elim (back s.lru) [ none ↦ s | some e ↦ remove e s ]

-- Get on the element that the map gave. A pointer always leads to an element.
unfoldable pub get_element : ℕ → Option Element → MemoryStore → Option Bytes × MemoryStore
get_element now none s = (none, s)
get_element now (some e) s =
    if is_expired now e.expires
    then (none, remove e s)
    else (some e.val, record s { lru = e ∷ list_remove e.id s.lru })

unfoldable pub get : ℕ → Bytes → MemoryStore → Option Bytes × MemoryStore
get now key s = elim (find_item key s.items) [
  | none ↦ (none, s)
  | some i ↦ get_element now (element i s.lru) s
]

-- `time.Now().Add(ttl)` for the call's ttl, or the store's, whichever is positive first.
unfoldable pub expiry : ℕ → ℤ → ℤ → Option ℕ
expiry now (pos (suc n)) default_ttl = some (now + suc n)
expiry now _ (pos (suc n)) = some (now + suc n)
expiry now _ _ = none

-- `s.cap > 0 && s.lru.Len() >= s.cap`
unfoldable pub is_full : ℤ → ℕ → Bool
is_full (pos n) len = ltb 0 n && leb n len
is_full (negsuc n) len = false

-- Set where the map has no element, and where it has one.
unfoldable pub set_new : Bytes → Bytes → Option ℕ → MemoryStore → MemoryStore
set_new key value expires s =
    let s' = if is_full s.cap (length s.lru) then evict s else s in
    record s' {
      items = (key, s'.next_id) ∷ s'.items;
      lru = (record { id = s'.next_id; key = key; val = value; expires = expires }) ∷ s'.lru;
      next_id = s'.next_id + 1;
    }

unfoldable pub set_old : Option Element → Bytes → Option ℕ → MemoryStore → MemoryStore
set_old none value expires s = s
set_old (some e) value expires s = record s {
  lru = (record e { val = value; expires = expires }) ∷ list_remove e.id s.lru;
}

unfoldable pub set : ℕ → Bytes → Bytes → ℤ → MemoryStore → MemoryStore
set now key value ttl s =
    let expires = expiry now ttl s.ttl in
    elim (find_item key s.items) [
      | none ↦ set_new key value expires s
      | some i ↦ set_old (element i s.lru) value expires s
    ]

unfoldable pub remove_found : Option Element → MemoryStore → MemoryStore
remove_found none s = s
remove_found (some e) s = remove e s

unfoldable pub delete : Bytes → MemoryStore → MemoryStore
delete key s = elim (find_item key s.items) [ none ↦ s | some i ↦ remove_found (element i s.lru) s ]

-- The loop of DeletePrefix over the map's entries, in any order that they are listed.
unfoldable pub delete_prefix_loop : Bytes → List (Bytes × ℕ) → MemoryStore → MemoryStore
delete_prefix_loop prefix [] s = s
delete_prefix_loop prefix ((key, i) ∷ todo) s =
    delete_prefix_loop prefix todo
      (if has_prefix key prefix then remove_found (element i s.lru) s else s)

unfoldable pub delete_prefix : Bytes → MemoryStore → MemoryStore
delete_prefix prefix s = delete_prefix_loop prefix s.items s

unfoldable pub flush : MemoryStore → MemoryStore
flush s = record s { items = []; lru = [] }
