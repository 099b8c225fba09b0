-- ===== src/Cache/Store/Elements.antt =====
-- Lemmas on the list of elements: identities against keys, and the list without identities.
use rainbowsquirrel.Base.{
  ℕ, ◌≡◌, ◌≢◌, refl, ap, subst, arith, true, false, List, [], ◌∷◌, Option, none, some, map, Bytes,
  equal, equal_iff, equal_refl, equal_sym, ◌==◌, if◌then◌else◌, All, All-both, All-map, Bool-cases,
  inl, inr,
}
use rainbowsquirrel.Cache.Store.{Element, element, list_remove, back}
use rainbowsquirrel.Cache.Store.Spec.{entry_of, find, erase, drop_last}

abbrev pub Other : Bytes → List Element → Type 0
Other k = All (λ f. equal f.key k ≡ false)

abbrev pub Elsewhere : ℕ → List Element → Type 0
Elsewhere i = All (λ f. f.id ≢ i)

-- No two elements share a key, or an identity.
abbrev pub Distinct : List Element → Type 0
Distinct [] = Unit
Distinct (e ∷ l) = Other e.key l × Elsewhere e.id l × Distinct l

-- The identity of the element with a key.
unfoldable pub id_of : Bytes → List Element → Option ℕ
id_of k [] = none
id_of k (e ∷ l) = if equal e.key k then some e.id else id_of k l

pub list_remove_absent : (i : ℕ) (l : List Element) → Elsewhere i l → list_remove i l ≡ l
unfolding list_remove
list_remove_absent i [] h = refl
list_remove_absent i (e ∷ l) h = ground (arith, list_remove_absent i l h.1)

pub erase_absent :
    (k : Bytes) (l : List Element) → Other k l → erase k (map entry_of l) ≡ map entry_of l
unfolding erase
erase_absent k [] h = refl
erase_absent k (e ∷ l) h = ground (arith, erase_absent k l h.1)

pub id_of_absent : (k : Bytes) (l : List Element) → Other k l → id_of k l ≡ none
unfolding id_of
id_of_absent k [] h = refl
id_of_absent k (e ∷ l) h = ground (arith, id_of_absent k l h.1)

pub find_absent : (k : Bytes) (l : List Element) → id_of k l ≡ none → find k (map entry_of l) ≡ none
unfolding id_of find
find_absent k [] h = refl
find_absent k (e ∷ l) h = ground (arith, find_absent k l)

pub Other-of_none : (k : Bytes) (l : List Element) → id_of k l ≡ none → Other k l
unfolding id_of
Other-of_none k [] h = tt
Other-of_none k (e ∷ l) h = (ground arith, Other-of_none k l (ground arith))

id_of-Elsewhere :
    (k : Bytes) (l : List Element) (i j : ℕ) → id_of k l ≡ some i → Elsewhere j l → i ≢ j
unfolding id_of
id_of-Elsewhere k [] i j h a = absurd (ground arith)
id_of-Elsewhere k (e ∷ l) i j h a = elim (Bool-cases (equal e.key k)) [
  | inl same ↦ ground arith
  | inr other ↦ id_of-Elsewhere k l i j (ground arith) a.1
]

-- Under a key that is found there is one element, and it is the one that the identity leads to.
pub found :
    (k : Bytes) (l : List Element) (i : ℕ)
    → Distinct l
    → id_of k l ≡ some i
    → (f : Element) × (element i l ≡ some f)
      × (f.id ≡ i)
      × (equal f.key k ≡ true)
      × (find k (map entry_of l) ≡ some (entry_of f))
      × (map entry_of (list_remove i l) ≡ erase k (map entry_of l))
unfolding id_of element find list_remove erase
found k [] i d h = absurd (ground arith)
found k (e ∷ l) i d h = elim (Bool-cases (equal e.key k)) [
  | inl same ↦
      let same_id : e.id ≡ i = ground arith in
      let same_key : e.key ≡ k = (equal_iff e.key k).0 same in
      (
        e,
        ground arith,
        same_id,
        same,
        ground arith,
        ground (
          arith,
          list_remove_absent i l (subst (λ j. Elsewhere j l) same_id d.1),
          erase_absent k l (subst (λ j. Other j l) same_key d.0),
        ),
      )
  | inr other ↦
      let (f, at, same_id, same, seen, gone) = found k l i d.2 (ground arith) in
      let apart : i ≢ e.id = id_of-Elsewhere k l i e.id (ground arith) d.1 in
      (f, ground arith, same_id, same, ground arith, ground arith)
]

-- After an element is taken out its key is gone, and the others are found as before.
pub id_of-list_remove_self :
    (k : Bytes) (l : List Element) (i : ℕ)
    → Distinct l
    → id_of k l ≡ some i
    → id_of k (list_remove i l) ≡ none
unfolding id_of list_remove
id_of-list_remove_self k [] i d h = absurd (ground arith)
id_of-list_remove_self k (e ∷ l) i d h = elim (Bool-cases (equal e.key k)) [
  | inl same ↦
      let same_id : e.id ≡ i = ground arith in
      let same_key : e.key ≡ k = (equal_iff e.key k).0 same in
      ground (
        arith,
        list_remove_absent i l (subst (λ n. Elsewhere n l) same_id d.1),
        id_of_absent k l (subst (λ n. Other n l) same_key d.0),
      )
  | inr other ↦
      let apart : i ≢ e.id = id_of-Elsewhere k l i e.id (ground arith) d.1 in
      ground (arith, id_of-list_remove_self k l i d.2)
]

pub id_of-list_remove_ne :
    (k : Bytes) (l : List Element) (i : ℕ) (j : Bytes)
    → Distinct l
    → id_of k l ≡ some i
    → equal k j ≡ false
    → id_of j (list_remove i l) ≡ id_of j l
unfolding id_of list_remove
id_of-list_remove_ne k [] i j d h ne = absurd (ground arith)
id_of-list_remove_ne k (e ∷ l) i j d h ne = elim (Bool-cases (equal e.key k)) [
  | inl same ↦
      let same_id : e.id ≡ i = ground arith in
      let same_key : e.key ≡ k = (equal_iff e.key k).0 same in
      ground (
        arith,
        list_remove_absent i l (subst (λ n. Elsewhere n l) same_id d.1),
        ap (λ n. equal n j) same_key,
      )
  | inr other ↦
      let apart : i ≢ e.id = id_of-Elsewhere k l i e.id (ground arith) d.1 in
      ground (arith, id_of-list_remove_ne k l i j d.2)
]

pub All-list_remove {κ} :
    (P : Element → Type κ) (i : ℕ) (l : List Element) → All P l → All P (list_remove i l)
unfolding list_remove
All-list_remove P i [] h = tt
All-list_remove P i (e ∷ l) h = elim (Bool-cases (e.id == i)) [
  | inl same ↦ rw same (All-list_remove P i l h.1)
  | inr other ↦ rw other (h.0, All-list_remove P i l h.1)
]

pub Distinct-list_remove : (i : ℕ) (l : List Element) → Distinct l → Distinct (list_remove i l)
unfolding list_remove
Distinct-list_remove i [] d = tt
Distinct-list_remove i (e ∷ l) d = elim (Bool-cases (e.id == i)) [
  | inl same ↦ rw same (Distinct-list_remove i l d.2)
  | inr other ↦ rw other (
    All-list_remove (λ f. equal f.key e.key ≡ false) i l d.0,
    All-list_remove (λ f. f.id ≢ e.id) i l d.1,
    Distinct-list_remove i l d.2,
  )
]

pub Elsewhere-list_remove : (i : ℕ) (l : List Element) → Elsewhere i (list_remove i l)
unfolding list_remove
Elsewhere-list_remove i [] = tt
Elsewhere-list_remove i (e ∷ l) = elim (Bool-cases (e.id == i)) [
  | inl same ↦ rw same (Elsewhere-list_remove i l)
  | inr other ↦ rw other (ground arith, Elsewhere-list_remove i l)
]

pub Other-list_remove :
    (k : Bytes) (l : List Element) (i : ℕ)
    → Distinct l
    → id_of k l ≡ some i
    → Other k (list_remove i l)
Other-list_remove k l i d h = Other-of_none k (list_remove i l) (id_of-list_remove_self k l i d h)

-- Of every element, its key leads to its identity and its identity to it.
pub Distinct-id_of : (l : List Element) → Distinct l → All (λ e. id_of e.key l ≡ some e.id) l
unfolding id_of
Distinct-id_of [] d = tt
Distinct-id_of (e ∷ l) d = (
  rw (equal_refl e.key) refl,
  All-map (λ f. (equal f.key e.key ≡ false) × (id_of f.key l ≡ some f.id))
      (λ f. id_of f.key (e ∷ l) ≡ some f.id) l (λ f h. ground (arith, equal_sym f.key e.key))
      (All-both (λ f. equal f.key e.key ≡ false) (λ f. id_of f.key l ≡ some f.id) l d.0
        (Distinct-id_of l d.2)),
)

back_All {κ} :
    (P : Element → Type κ) (l : List Element) (e : Element) → All P l → back l ≡ some e → P e
unfolding back
back_All P [] e a h = absurd (ground arith)
back_All P (f ∷ []) e a h = let same : f ≡ e = ground arith in subst P same a.0
back_All P (f ∷ g ∷ l) e a h = back_All P (g ∷ l) e a.1 h

-- The last element is found under its key, and to take it out is to drop the last.
pub back_found :
    (l : List Element) (e : Element)
    → Distinct l
    → back l ≡ some e
    → (id_of e.key l ≡ some e.id) × (map entry_of (list_remove e.id l) ≡ drop_last (map entry_of l))
unfolding back id_of list_remove drop_last
back_found [] e d h = absurd (ground arith)
back_found (e1 ∷ []) e d h = ground (arith, equal_refl e1.key, equal_refl e.key)
back_found (e1 ∷ e2 ∷ l) e d h = ground (
  arith,
  back_found (e2 ∷ l) e d.2 h,
  back_All (λ f. equal f.key e1.key ≡ false) (e2 ∷ l) e d.0 h,
  back_All (λ f. f.id ≢ e1.id) (e2 ∷ l) e d.1 h,
  equal_sym e.key e1.key,
)

pub element_All {κ} :
    (P : Element → Type κ) (i : ℕ) (l : List Element) (e : Element)
    → All P l
    → element i l ≡ some e
    → P e
unfolding element
element_All P i [] e a h = absurd (ground arith)
element_All P i (f ∷ l) e a h = elim (Bool-cases (f.id == i)) [
  | inl same ↦ let same_elem : f ≡ e = ground arith in subst P same_elem a.0
  | inr other ↦ element_All P i l e a.1 (ground arith)
]

pub element-id : (i : ℕ) (l : List Element) (e : Element) → element i l ≡ some e → e.id ≡ i
unfolding element
element-id i [] e h = absurd (ground arith)
element-id i (f ∷ l) e h = elim (Bool-cases (f.id == i)) [
  | inl same ↦ ground arith
  | inr other ↦ element-id i l e (ground arith)
]

pub element-list_remove :
    (i j : ℕ) (l : List Element) (e : Element)
    → element j (list_remove i l) ≡ some e
    → element j l ≡ some e
unfolding element list_remove
element-list_remove i j [] e h = absurd (ground arith)
element-list_remove i j (f ∷ l) e h = elim (Bool-cases (f.id == i)) [
  | inl same ↦
      let later : element j (list_remove i l) ≡ some e = ground arith in
      ground (
        arith,
        element-list_remove i j l e later,
        element-id j (list_remove i l) e later,
        element_All (λ g. g.id ≢ i) j (list_remove i l) e (Elsewhere-list_remove i l) later,
      )
  | inr other ↦ ground (arith, element-list_remove i j l e)
]
