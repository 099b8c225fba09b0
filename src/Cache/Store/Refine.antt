-- ===== src/Cache/Store/Refine.antt =====
-- MemoryStore implements the bounded list of entries: each method, and any sequence of calls.
use rainbowsquirrel.Base.{
  ℕ, suc, ◌≡◌, refl, sym, ap, ◌∙◌, arith, List, [], ◌∷◌, none, some, map, length, Bytes, equal_iff,
  Bool-cases, Option-cases, inl, inr, ℤ,
}
use rainbowsquirrel.Cache.Store.{
  Element, MemoryStore, find_item, element, list_remove, back, remove, evict, is_expired, is_full,
  get_element, get, set_new, set_old, set, expiry, remove_found, delete,
}
use rainbowsquirrel.Cache.Store.Elements.{found, find_absent, back_found}
use rainbowsquirrel.Cache.Store.Sync.{IsSync}
use rainbowsquirrel.Cache.Store.Spec.{
  Entry, entry_of, entries, find, erase, drop_last, look_up, store,
}

-- A key that the map has is found in the list, and taken out of it by its identity.
found_entry :
    (s : MemoryStore) (key : Bytes) (i : ℕ)
    → IsSync s
    → find_item key s.items ≡ some i
    → (e : Element) × (element i s.lru ≡ some e)
      × (e.id ≡ i)
      × (e.key ≡ key)
      × (find key (entries s) ≡ some (entry_of e))
      × (map entry_of (list_remove i s.lru) ≡ erase key (entries s))
found_entry s key i v h =
    let (e, at, id_is, same, seen, gone) = found key s.lru i v.distinct (sym (v.agree key) ∙ h) in
    (e, at, id_is, (equal_iff e.key key).0 same, seen, gone)

missing_entry :
    (s : MemoryStore) (key : Bytes)
    → IsSync s
    → find_item key s.items ≡ none
    → find key (entries s) ≡ none
missing_entry s key v h = find_absent key s.lru (sym (v.agree key) ∙ h)

-- Get answers as the list does, and leaves the entries that the list leaves.
pub get-look_up :
    (now : ℕ) (key : Bytes) (s : MemoryStore)
    → IsSync s
    → ((get now key s).0 ≡ (look_up now key (entries s)).0)
      × (entries (get now key s).1 ≡ (look_up now key (entries s)).1)
unfolding get get_element look_up remove
get-look_up now key s v = elim (Option-cases (find_item key s.items)) [
  | inl missing ↦ rw (missing, get, missing_entry s key v missing, look_up) (refl, refl)
  | inr (i, hit) ↦
      let (e, at, id_is, key_is, seen, gone) = found_entry s key i v hit in
      elim (Bool-cases (is_expired now e.expires)) [
        | inl late ↦ rw (hit, get, at, get_element, late, seen, look_up, late, id_is) (refl, gone)
        | inr fresh ↦
            rw (hit, get, at, get_element, fresh, seen, look_up, fresh, id_is)
              (refl, ap (◌∷◌ (entry_of e)) gone)
      ]
]

pub length-entries : (l : List Element) → length (map entry_of l) ≡ length l
length-entries [] = refl
length-entries (e ∷ l) = ap suc (length-entries l)

back-none : (l : List Element) → back l ≡ none → map entry_of l ≡ drop_last (map entry_of l)
unfolding back drop_last
back-none [] h = refl
back-none (e ∷ []) h = absurd (ground arith)
back-none (e ∷ f ∷ l) h = ap (◌∷◌ (entry_of e)) (back-none (f ∷ l) h)

drop_last-entries : (s : MemoryStore) → IsSync s → entries (evict s) ≡ drop_last (entries s)
unfolding evict remove
drop_last-entries s v = elim (Option-cases (back s.lru)) [
  | inl empty ↦ rw (empty, evict) (back-none s.lru empty)
  | inr (e, last) ↦ rw (last, evict) (back_found s.lru e v.distinct last).1
]

-- Set stores as the list does: it replaces, or evicts the last entry of a full store.
pub set-store :
    (now : ℕ) (key value : Bytes) (ttl : ℤ) (s : MemoryStore)
    → IsSync s
    → entries (set now key value ttl s) ≡ store s.cap key value (expiry now ttl s.ttl) (entries s)
unfolding set set_new set_old store
set-store now key value ttl s v =
    let new : Entry = record { key = key; val = value; expires = expiry now ttl s.ttl } in
    elim (Option-cases (find_item key s.items)) [
      | inl missing ↦ elim (Bool-cases (is_full s.cap (length s.lru))) [
        | inl full ↦
            rw (missing, set, missing_entry s key v missing, store, length-entries s.lru, full)
              (ap (◌∷◌ new) (drop_last-entries s v))
        | inr room ↦
            rw (missing, set, missing_entry s key v missing, store, length-entries s.lru, room) refl
      ]
      | inr (i, hit) ↦
          let (e, at, id_is, key_is, seen, gone) = found_entry s key i v hit in
          rw (hit, set, at, set_old, seen, store, id_is, key_is) (ap (◌∷◌ new) gone)
    ]

erase_missing : (k : Bytes) (l : List Entry) → find k l ≡ none → erase k l ≡ l
unfolding find erase
erase_missing k [] h = refl
erase_missing k (e ∷ l) h = ground (arith, erase_missing k l)

-- Delete takes out the entry with the key, if there is one.
pub delete-erase :
    (key : Bytes) (s : MemoryStore) → IsSync s → entries (delete key s) ≡ erase key (entries s)
unfolding delete remove_found remove
delete-erase key s v = elim (Option-cases (find_item key s.items)) [
  | inl missing ↦
      rw (missing, delete) (sym (erase_missing key (entries s) (missing_entry s key v missing)))
  | inr (i, hit) ↦
      let (e, at, id_is, key_is, seen, gone) = found_entry s key i v hit in
      rw (hit, delete, at, remove_found, id_is) gone
]
