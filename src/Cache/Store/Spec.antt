-- ===== src/Cache/Store/Spec.antt =====
-- What a bounded cache with expiry promises, on one list of entries, the latest used first.
use rainbowsquirrel.Base.{
  ℕ, List, [], ◌∷◌, Option, none, some, length, Bytes, equal, has_prefix, if◌then◌else◌, map,
}
use rainbowsquirrel.Cache.Store.{Element, MemoryStore, is_expired, is_full}
use rainbowsquirrel.Base.{ℤ}

pub record Entry : Type 0 where
  pub key : Bytes
  pub val : Bytes
  pub expires : Option ℕ

-- An element without its identity, and a store without its map.
abbrev pub entry_of : Element → Entry
entry_of e = record { key = e.key; val = e.val; expires = e.expires }

abbrev pub entries : MemoryStore → List Entry
entries s = map entry_of s.lru

unfoldable pub find : Bytes → List Entry → Option Entry
find k [] = none
find k (e ∷ l) = if equal e.key k then some e else find k l

unfoldable pub erase : Bytes → List Entry → List Entry
erase k [] = []
erase k (e ∷ l) = let rest = erase k l in if equal e.key k then rest else e ∷ rest

unfoldable pub erase_prefix : Bytes → List Entry → List Entry
erase_prefix p [] = []
erase_prefix p (e ∷ l) =
    let rest = erase_prefix p l in if has_prefix e.key p then rest else e ∷ rest

unfoldable pub drop_last : List Entry → List Entry
drop_last [] = []
drop_last (e ∷ []) = []
drop_last (e ∷ f ∷ l) = e ∷ drop_last (f ∷ l)

-- An entry that is found and not expired is returned and becomes the latest used; one that is
-- expired goes.
unfoldable pub look_up : ℕ → Bytes → List Entry → Option Bytes × List Entry
look_up now k l = elim (find k l) [
  | none ↦ (none, l)
  | some e ↦ if is_expired now e.expires then (none, erase k l) else (some e.val, e ∷ erase k l)
]

-- The entry replaces one with its key, or goes to the front of the rest; a full cache loses its
-- last entry first.
unfoldable pub store : ℤ → Bytes → Bytes → Option ℕ → List Entry → List Entry
store cap k v expires l = (record { key = k; val = v; expires = expires }) ∷ (elim (find k l) [
  | none ↦ if is_full cap (length l) then drop_last l else l
  | some e ↦ erase k l
])
