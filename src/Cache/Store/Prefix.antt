-- ===== src/Cache/Store/Prefix.antt =====
-- MemoryStore.DeletePrefix: its loop over the map takes out the entries with the prefix.
use rainbowsquirrel.Base.{
  ℕ, ◌≡◌, ◌≢◌, refl, sym, ap, subst, ◌∙◌, arith, true, false, List, [], ◌∷◌, none, some, map, Bytes,
  equal, equal_iff, equal_refl, equal_sym, has_prefix, if◌then◌else◌, All, All-both, All-map,
  Bool-cases, Option-cases, inl, inr,
}
use rainbowsquirrel.Cache.Store.{
  Element, MemoryStore, find_item, element, list_remove, remove, remove_found, delete_prefix_loop,
  delete_prefix,
}
use rainbowsquirrel.Cache.Store.Elements.{
  Distinct, id_of, found, Distinct-id_of, element_All, element-id, element-list_remove,
  All-list_remove, Other-list_remove,
}
use rainbowsquirrel.Cache.Store.Sync.{IsSync, DistinctItems, remove-IsSync}
use rainbowsquirrel.Cache.Store.Spec.{Entry, entry_of, entries, erase, erase_prefix}

erase_prefix-erase :
    (p k : Bytes) (l : List Entry)
    → has_prefix k p ≡ true
    → erase_prefix p (erase k l) ≡ erase_prefix p l
unfolding erase_prefix erase
erase_prefix-erase p k [] h = refl
erase_prefix-erase p k (e ∷ l) h = elim (Bool-cases (equal e.key k)) [
  | inl same ↦
      let inside : has_prefix e.key p ≡ true = rw ((equal_iff e.key k).0 same) h in
      rw (same, inside) (erase_prefix-erase p k l h)
  | inr other ↦
      rw other (ap (λ r. if has_prefix e.key p then r else e ∷ r) (erase_prefix-erase p k l h))
]

erase_prefix_none :
    (p : Bytes) (l : List Element)
    → All (λ e. has_prefix e.key p ≡ false) l
    → erase_prefix p (map entry_of l) ≡ map entry_of l
unfolding erase_prefix
erase_prefix_none p [] h = refl
erase_prefix_none p (e ∷ l) h = rw h.0 (ap (◌∷◌ (entry_of e)) (erase_prefix_none p l h.1))

-- The part of the map that the loop has still to visit has every element with the prefix, and
-- leads to no element with another key.
abbrev Covers : Bytes → List (Bytes × ℕ) → List Element → Type 0
Covers p todo = All (λ e. has_prefix e.key p ≡ true → find_item e.key todo ≡ some e.id)

abbrev Leads : List (Bytes × ℕ) → List Element → Type 0
Leads todo l = All (λ it. (f : Element) → element it.1 l ≡ some f → f.key ≡ it.0) todo

Covers-rest :
    (p k : Bytes) (i : ℕ) (todo : List (Bytes × ℕ)) (l : List Element)
    → Covers p ((k, i) ∷ todo) l
    → All (λ e. has_prefix e.key p ≡ true → equal k e.key ≡ false) l
    → Covers p todo l
unfolding find_item
Covers-rest p k i todo [] c h = tt
Covers-rest p k i todo (e ∷ l) c h =
    (λ inside. ground (arith, c.0 inside, h.0 inside), Covers-rest p k i todo l c.1 h.1)

-- An element under the visited key would be the one that the entry leads to.
gone_key :
    (p k : Bytes) (i : ℕ) (todo : List (Bytes × ℕ)) (l : List Element)
    → Covers p ((k, i) ∷ todo) l
    → All (λ e. e.id ≢ i) l
    → All (λ e. has_prefix e.key p ≡ true → equal k e.key ≡ false) l
unfolding find_item
gone_key p k i todo [] c h = tt
gone_key p k i todo (e ∷ l) c h =
    (λ inside. ground (arith, c.0 inside, h.0), gone_key p k i todo l c.1 h.1)

element-none : (i : ℕ) (l : List Element) → element i l ≡ none → All (λ e. e.id ≢ i) l
unfolding element
element-none i [] h = tt
element-none i (e ∷ l) h = (ground arith, element-none i l (ground arith))

loop_outside :
    (p k : Bytes) (i : ℕ) (todo : List (Bytes × ℕ)) (s : MemoryStore)
    → has_prefix k p ≡ false
    → delete_prefix_loop p ((k, i) ∷ todo) s ≡ delete_prefix_loop p todo s
unfolding delete_prefix_loop
loop_outside p k i todo s h = rw h

loop_gone :
    (p k : Bytes) (i : ℕ) (todo : List (Bytes × ℕ)) (s : MemoryStore)
    → has_prefix k p ≡ true
    → element i s.lru ≡ none
    → delete_prefix_loop p ((k, i) ∷ todo) s ≡ delete_prefix_loop p todo s
unfolding delete_prefix_loop remove_found
loop_gone p k i todo s h g = rw (h, g, remove_found)

loop_remove :
    (p k : Bytes) (i : ℕ) (todo : List (Bytes × ℕ)) (s : MemoryStore) (f : Element)
    → has_prefix k p ≡ true
    → element i s.lru ≡ some f
    → delete_prefix_loop p ((k, i) ∷ todo) s ≡ delete_prefix_loop p todo (remove f s)
unfolding delete_prefix_loop remove_found
loop_remove p k i todo s f h g = rw (h, g, remove_found)

Covers-nil :
    (p : Bytes) (l : List Element) → Covers p [] l → All (λ e. has_prefix e.key p ≡ false) l
unfolding find_item
Covers-nil p [] c = tt
Covers-nil p (e ∷ l) c = (ground (arith, c.0), Covers-nil p l c.1)

outside_key :
    (p k : Bytes) (l : List Element)
    → has_prefix k p ≡ false
    → All (λ e. has_prefix e.key p ≡ true → equal k e.key ≡ false) l
outside_key p k [] h = tt
outside_key p k (e ∷ l) h = (λ inside. ground (arith, equal_iff k e.key), outside_key p k l h)

Leads-remove :
    (i : ℕ) (todo : List (Bytes × ℕ)) (l : List Element)
    → Leads todo l
    → Leads todo (list_remove i l)
Leads-remove i [] l d = tt
Leads-remove i (it ∷ todo) l d =
    (λ f at. d.0 f (element-list_remove i it.1 l f at), Leads-remove i todo l d.1)

other_key :
    (p k : Bytes) (l : List Element)
    → All (λ e. equal e.key k ≡ false) l
    → All (λ e. has_prefix e.key p ≡ true → equal k e.key ≡ false) l
other_key p k l h =
    All-map (λ e. equal e.key k ≡ false) (λ e. has_prefix e.key p ≡ true → equal k e.key ≡ false) l
      (λ e other _. equal_sym k e.key ∙ other) h

delete_prefix_loop-erase_prefix :
    (p : Bytes) (todo : List (Bytes × ℕ)) (s : MemoryStore)
    → IsSync s
    → Covers p todo s.lru
    → Leads todo s.lru
    → entries (delete_prefix_loop p todo s) ≡ erase_prefix p (entries s)
delete_prefix_loop-erase_prefix p [] s v c d =
    unfold delete_prefix_loop in sym (erase_prefix_none p s.lru (Covers-nil p s.lru c))
delete_prefix_loop-erase_prefix p ((k, i) ∷ todo) s v c d = elim (Bool-cases (has_prefix k p)) [
  | inl inside ↦ elim (Option-cases (element i s.lru)) [
    | inl gone ↦
        let rest =
          Covers-rest p k i todo s.lru c
            (gone_key p k i todo s.lru c (element-none i s.lru gone)) in
        rw (loop_gone p k i todo s inside gone)
          (delete_prefix_loop-erase_prefix p todo s v rest d.1)
    | inr (f, at) ↦
        let key_is : f.key ≡ k = d.0 f at in
        let id_is : f.id ≡ i = element-id i s.lru f at in
        let listed : id_of f.key s.lru ≡ some f.id =
          element_All (λ g. id_of g.key s.lru ≡ some g.id) i s.lru f
            (Distinct-id_of s.lru v.distinct) at in
        let (_, _, _, _, _, gone) = found f.key s.lru f.id v.distinct listed in
        let rest =
          Covers-rest p k i todo (list_remove f.id s.lru)
            (All-list_remove
              (λ e. has_prefix e.key p ≡ true → find_item e.key ((k, i) ∷ todo) ≡ some e.id) f.id
              s.lru c)
            (other_key p k (list_remove f.id s.lru) (
              subst (λ n. All (λ e. equal e.key n ≡ false) (list_remove f.id s.lru)) key_is
                (Other-list_remove f.key s.lru f.id v.distinct listed))) in
        rw (loop_remove p k i todo s f inside at) (
          delete_prefix_loop-erase_prefix p todo (remove f s) (remove-IsSync s f v listed)
            (unfold remove in rest) (unfold remove in Leads-remove f.id todo s.lru d.1)
          ∙ unfold remove in
            ap (erase_prefix p) gone ∙ erase_prefix-erase p f.key (entries s) (rw key_is inside))
  ]
  | inr outside ↦ rw (loop_outside p k i todo s outside) (
      delete_prefix_loop-erase_prefix p todo s v
        (Covers-rest p k i todo s.lru c (outside_key p k s.lru outside)) d.1)
]

-- An entry of the map is the one that its key finds, and leads to the element with that key.
Leads-items :
    (m : List (Bytes × ℕ)) (l : List Element)
    → Distinct l
    → All (λ it. id_of it.0 l ≡ some it.1) m
    → Leads m l
Leads-items [] l d h = tt
Leads-items (it ∷ m) l d h = (
  λ f at.
      let (g, at', _, same, _, _) = found it.0 l it.1 d h.0 in
      let one : g ≡ f = ground arith in
      (equal_iff f.key it.0).0 (subst (λ x. equal x.key it.0 ≡ true) one same),
  Leads-items m l d h.1,
)

items_found : (m : List (Bytes × ℕ)) → DistinctItems m → All (λ it. find_item it.0 m ≡ some it.1) m
unfolding find_item
items_found [] d = tt
items_found (it ∷ m) d = (
  rw (equal_refl it.0) refl,
  All-map (λ j. (equal j.0 it.0 ≡ false) × (find_item j.0 m ≡ some j.1))
      (λ j. find_item j.0 (it ∷ m) ≡ some j.1) m (λ j h. ground (arith, equal_sym j.0 it.0))
      (All-both (λ j. equal j.0 it.0 ≡ false) (λ j. find_item j.0 m ≡ some j.1) m d.0
        (items_found m d.1)),
)

-- DeletePrefix takes out the entries whose keys start with the prefix, and no other.
pub delete_prefix-erase_prefix :
    (p : Bytes) (s : MemoryStore)
    → IsSync s
    → entries (delete_prefix p s) ≡ erase_prefix p (entries s)
unfolding delete_prefix
delete_prefix-erase_prefix p s v =
    delete_prefix_loop-erase_prefix p s.items s v
      (All-map (λ e. id_of e.key s.lru ≡ some e.id)
        (λ e. has_prefix e.key p ≡ true → find_item e.key s.items ≡ some e.id) s.lru
        (λ e h _. v.agree e.key ∙ h) (Distinct-id_of s.lru v.distinct))
      (Leads-items s.items s.lru v.distinct (
        All-map (λ it. find_item it.0 s.items ≡ some it.1) (λ it. id_of it.0 s.lru ≡ some it.1)
          s.items (λ it h. sym (v.agree it.0) ∙ h) (items_found s.items v.distinct_items)))
