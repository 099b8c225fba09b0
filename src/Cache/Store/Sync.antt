-- ===== src/Cache/Store/Sync.antt =====
-- MemoryStore's invariant: the map and the list hold the same elements.
use rainbowsquirrel.Base.{
  ℕ, ◌<◌, ◌≡◌, refl, sym, subst, ◌∙◌, arith, false, List, [], ◌∷◌, none, some, Bytes, equal,
  equal_iff, if◌then◌else◌, All, Bool-cases, inl, inr, ℤ,
}
use rainbowsquirrel.Cache.Store.{
  Element, MemoryStore, find_item, delete_item, list_remove, remove, new_memory_store,
}
use rainbowsquirrel.Cache.Store.Elements.{
  Distinct, id_of, id_of-list_remove_self, id_of-list_remove_ne, Distinct-list_remove,
  All-list_remove,
}

-- No two entries of the map share a key.
abbrev pub DistinctItems : List (Bytes × ℕ) → Type 0
DistinctItems [] = Unit
DistinctItems (it ∷ m) = All (λ j. equal j.0 it.0 ≡ false) m × DistinctItems m

pub record IsSync (s : MemoryStore) : Type 0 where
  pub distinct : Distinct s.lru
  pub distinct_items : DistinctItems s.items
  pub fresh : All (λ e. e.id < s.next_id) s.lru
  pub agree : (k : Bytes) → find_item k s.items ≡ id_of k s.lru

pub new_memory_store-IsSync :
    (capacity default_ttl : ℤ) → IsSync (new_memory_store capacity default_ttl)
unfolding new_memory_store find_item id_of
new_memory_store-IsSync capacity default_ttl = record {
  distinct = tt;
  distinct_items = tt;
  fresh = tt;
  agree = λ k. refl;
}

pub find_item-delete_item :
    (k j : Bytes) (m : List (Bytes × ℕ))
    → find_item j (delete_item k m) ≡ (if equal k j then none else find_item j m)
unfolding find_item delete_item
find_item-delete_item k j [] = ground arith
find_item-delete_item k j ((n, i) ∷ m) =
    ground (arith, find_item-delete_item k j m, equal_iff n k, equal_iff k j, equal_iff n j)

pub All-delete_item {κ} :
    (P : Bytes × ℕ → Type κ) (k : Bytes) (m : List (Bytes × ℕ)) → All P m → All P (delete_item k m)
unfolding delete_item
All-delete_item P k [] h = tt
All-delete_item P k ((j, i) ∷ m) h = elim (Bool-cases (equal j k)) [
  | inl same ↦ rw same (All-delete_item P k m h.1)
  | inr other ↦ rw other (h.0, All-delete_item P k m h.1)
]

DistinctItems-delete_item :
    (k : Bytes) (m : List (Bytes × ℕ)) → DistinctItems m → DistinctItems (delete_item k m)
unfolding delete_item
DistinctItems-delete_item k [] d = tt
DistinctItems-delete_item k ((j, i) ∷ m) d = elim (Bool-cases (equal j k)) [
  | inl same ↦ rw same (DistinctItems-delete_item k m d.1)
  | inr other ↦
      rw other
        (All-delete_item (λ n. equal n.0 j ≡ false) k m d.0, DistinctItems-delete_item k m d.1)
]

-- To take out an element that is found under its key keeps the invariant.
pub remove-IsSync :
    (s : MemoryStore) (e : Element) → IsSync s → id_of e.key s.lru ≡ some e.id → IsSync (remove e s)
unfolding remove
remove-IsSync s e v h = record {
  distinct = Distinct-list_remove e.id s.lru v.distinct;
  distinct_items = DistinctItems-delete_item e.key s.items v.distinct_items;
  fresh = All-list_remove (λ f. f.id < s.next_id) e.id s.lru v.fresh;
  agree = λ k. find_item-delete_item e.key k s.items ∙ after k;
}
  where
    after :
        (k : Bytes)
        → (if equal e.key k then none else find_item k s.items) ≡ id_of k (list_remove e.id s.lru)
    after k = elim (Bool-cases (equal e.key k)) [
      | inl same ↦
          let same_key : e.key ≡ k = (equal_iff e.key k).0 same in
          rw same (
            sym (
              id_of-list_remove_self k s.lru e.id v.distinct
                (subst (λ n. id_of n s.lru ≡ some e.id) same_key h)))
      | inr other ↦
          rw other (v.agree k ∙ sym (id_of-list_remove_ne e.key s.lru e.id k v.distinct h other))
    ]
