-- ===== src/Cache/Store/Methods.antt =====
-- Every method of MemoryStore keeps the invariant.
use rainbowsquirrel.Base.{
  ℕ, ◌+◌, ◌<◌, ◌≡◌, ◌≢◌, refl, sym, ◌∙◌, arith, false, List, [], ◌∷◌, Option, none, some, length,
  Bytes, equal, equal_iff, has_prefix, if◌then◌else◌, All, All-map, Bool-cases, Option-cases, inl,
  inr, ℤ,
}
use rainbowsquirrel.Cache.Store.{
  Element, MemoryStore, find_item, element, list_remove, back, remove, evict, is_expired, is_full,
  get_element, get, set_new, set_old, set, expiry, remove_found, delete, delete_prefix_loop,
  delete_prefix, flush,
}
use rainbowsquirrel.Cache.Store.Elements.{
  id_of, found, Other-list_remove, id_of-list_remove_ne, Distinct-list_remove,
  Elsewhere-list_remove, All-list_remove, back_found, Other-of_none, element_All, Distinct-id_of,
}
use rainbowsquirrel.Cache.Store.Sync.{IsSync, find_item-delete_item, remove-IsSync}

-- The element that the map leads to, with what is known of it.
pub record Holds (s : MemoryStore) (key : Bytes) (i : ℕ) (e : Element) : Type 0 where
  pub at : element i s.lru ≡ some e
  pub id_is : e.id ≡ i
  pub key_is : e.key ≡ key
  pub listed : id_of e.key s.lru ≡ some e.id

pub found_in :
    (s : MemoryStore) (key : Bytes) (i : ℕ)
    → IsSync s
    → find_item key s.items ≡ some i
    → (e : Element) × Holds s key i e
found_in s key i v h =
    let seen : id_of key s.lru ≡ some i = sym (v.agree key) ∙ h in
    let (e, at, id_is, same, _, _) = found key s.lru i v.distinct seen in
    let key_is : e.key ≡ key = (equal_iff e.key key).0 same in
    (e, record { at = at; id_is = id_is; key_is = key_is; listed = rw (key_is, id_is) seen })

-- An element that is listed goes to the front, with any value and expiry.
pub to_front-IsSync :
    (s : MemoryStore) (e : Element) (value : Bytes) (expires : Option ℕ)
    → IsSync s
    → id_of e.key s.lru ≡ some e.id
    → e.id < s.next_id
    → IsSync
        (record s { lru = (record e { val = value; expires = expires }) ∷ list_remove e.id s.lru })
unfolding id_of
to_front-IsSync s e value expires v h below = record {
  distinct = (
    Other-list_remove e.key s.lru e.id v.distinct h,
    Elsewhere-list_remove e.id s.lru,
    Distinct-list_remove e.id s.lru v.distinct,
  );
  distinct_items = v.distinct_items;
  fresh = (below, All-list_remove (λ f. f.id < s.next_id) e.id s.lru v.fresh);
  agree = λ k. v.agree k ∙ after k;
}
  where
    after :
        (k : Bytes)
        → id_of k s.lru ≡ (if equal e.key k then some e.id else id_of k (list_remove e.id s.lru))
    after k = elim (Bool-cases (equal e.key k)) [
      | inl same ↦ rw (same, sym ((equal_iff e.key k).0 same)) h
      | inr other ↦ rw other (sym (id_of-list_remove_ne e.key s.lru e.id k v.distinct h other))
    ]

pub evict-IsSync : (s : MemoryStore) → IsSync s → IsSync (evict s)
unfolding evict
evict-IsSync s v = elim (Option-cases (back s.lru)) [
  | inl empty ↦ rw (empty, evict) v
  | inr (e, last) ↦ rw (last, evict) (remove-IsSync s e v (back_found s.lru e v.distinct last).0)
]

-- A new element in front of a store whose map has no element for its key.
abbrev pub push : Bytes → Bytes → Option ℕ → MemoryStore → MemoryStore
push key value expires s = record s {
  items = (key, s.next_id) ∷ s.items;
  lru = (record { id = s.next_id; key = key; val = value; expires = expires }) ∷ s.lru;
  next_id = s.next_id + 1;
}

find_item-Other :
    (k : Bytes) (m : List (Bytes × ℕ)) → find_item k m ≡ none → All (λ j. equal j.0 k ≡ false) m
unfolding find_item
find_item-Other k [] h = tt
find_item-Other k ((j, i) ∷ m) h = (ground arith, find_item-Other k m (ground arith))

push-IsSync :
    (key value : Bytes) (expires : Option ℕ) (s : MemoryStore)
    → IsSync s
    → find_item key s.items ≡ none
    → IsSync (push key value expires s)
unfolding find_item id_of
push-IsSync key value expires s v h = record {
  distinct = (
    Other-of_none key s.lru (sym (v.agree key) ∙ h),
    All-map (λ e. e.id < s.next_id) (λ e. e.id ≢ s.next_id) s.lru (λ e p. omega arith) v.fresh,
    v.distinct,
  );
  distinct_items = (find_item-Other key s.items h, v.distinct_items);
  fresh = (
    omega arith,
    All-map (λ e. e.id < s.next_id) (λ e. e.id < s.next_id + 1) s.lru (λ e p. omega arith) v.fresh,
  );
  agree = λ k. rw (v.agree k);
}

pub find_item-evict :
    (key : Bytes) (s : MemoryStore)
    → find_item key s.items ≡ none
    → find_item key (evict s).items ≡ none
unfolding evict remove
find_item-evict key s h = elim (Option-cases (back s.lru)) [
  | inl empty ↦ rw (empty, evict) h
  | inr (e, last) ↦ rw (last, evict) (ground (arith, find_item-delete_item e.key key s.items))
]

pub set_new-IsSync :
    (key value : Bytes) (expires : Option ℕ) (s : MemoryStore)
    → IsSync s
    → find_item key s.items ≡ none
    → IsSync (set_new key value expires s)
unfolding set_new
set_new-IsSync key value expires s v h = elim (Bool-cases (is_full s.cap (length s.lru))) [
  | inl full ↦
      rw full (push-IsSync key value expires (evict s) (evict-IsSync s v) (find_item-evict key s h))
  | inr room ↦ rw room (push-IsSync key value expires s v h)
]

-- Set keeps the map and the list in step.
pub set-IsSync :
    (now : ℕ) (key value : Bytes) (ttl : ℤ) (s : MemoryStore)
    → IsSync s
    → IsSync (set now key value ttl s)
unfolding set set_old
set-IsSync now key value ttl s v = elim (Option-cases (find_item key s.items)) [
  | inl missing ↦ rw (missing, set) (set_new-IsSync key value (expiry now ttl s.ttl) s v missing)
  | inr (i, hit) ↦
      let (e, holds) = found_in s key i v hit in
      rw (hit, set, holds.at, set_old)
        (to_front-IsSync s e value (expiry now ttl s.ttl) v holds.listed
          (element_All (λ f. f.id < s.next_id) i s.lru e v.fresh holds.at))
]

-- So does Get, which moves what it finds to the front or takes it out.
pub get-IsSync : (now : ℕ) (key : Bytes) (s : MemoryStore) → IsSync s → IsSync (get now key s).1
unfolding get get_element
get-IsSync now key s v = elim (Option-cases (find_item key s.items)) [
  | inl missing ↦ rw (missing, get) v
  | inr (i, hit) ↦
      let (e, holds) = found_in s key i v hit in
      elim (Bool-cases (is_expired now e.expires)) [
        | inl late ↦ rw (hit, get, holds.at, get_element, late) (remove-IsSync s e v holds.listed)
        | inr fresh ↦
            rw (hit, get, holds.at, get_element, fresh)
              (to_front-IsSync s e e.val e.expires v holds.listed
                (element_All (λ f. f.id < s.next_id) i s.lru e v.fresh holds.at))
      ]
]

pub delete-IsSync : (key : Bytes) (s : MemoryStore) → IsSync s → IsSync (delete key s)
unfolding delete remove_found
delete-IsSync key s v = elim (Option-cases (find_item key s.items)) [
  | inl missing ↦ rw (missing, delete) v
  | inr (i, hit) ↦
      let (e, holds) = found_in s key i v hit in
      rw (hit, delete, holds.at, remove_found) (remove-IsSync s e v holds.listed)
]

pub remove_found-IsSync :
    (i : ℕ) (s : MemoryStore) → IsSync s → IsSync (remove_found (element i s.lru) s)
unfolding remove_found
remove_found-IsSync i s v = elim (Option-cases (element i s.lru)) [
  | inl gone ↦ rw (gone, remove_found) v
  | inr (e, at) ↦
      rw (at, remove_found)
        (remove-IsSync s e v (
          element_All (λ f. id_of f.key s.lru ≡ some f.id) i s.lru e
            (Distinct-id_of s.lru v.distinct) at))
]

delete_prefix_loop-IsSync :
    (prefix : Bytes) (todo : List (Bytes × ℕ)) (s : MemoryStore)
    → IsSync s
    → IsSync (delete_prefix_loop prefix todo s)
unfolding delete_prefix_loop
delete_prefix_loop-IsSync prefix [] s v = v
delete_prefix_loop-IsSync prefix ((key, i) ∷ todo) s v = elim (Bool-cases (has_prefix key prefix)) [
  | inl inside ↦ rw inside (
      delete_prefix_loop-IsSync prefix todo (remove_found (element i s.lru) s)
        (remove_found-IsSync i s v))
  | inr outside ↦ rw outside (delete_prefix_loop-IsSync prefix todo s v)
]

pub delete_prefix-IsSync :
    (prefix : Bytes) (s : MemoryStore) → IsSync s → IsSync (delete_prefix prefix s)
unfolding delete_prefix
delete_prefix-IsSync prefix s v = delete_prefix_loop-IsSync prefix s.items s v

pub flush-IsSync : (s : MemoryStore) → IsSync (flush s)
unfolding flush find_item id_of
flush-IsSync s = record { distinct = tt; distinct_items = tt; fresh = tt; agree = λ k. refl }
