-- ===== src/Scan/Keys.antt =====
-- scan.go: setMapRow, the keys and what they lead to.
use rainbowsquirrel.Base.{
  ◌≡◌, refl, subst, ap, arith, Bool, true, false, List, [], ◌∷◌, Option, none, some, Bytes, equal,
  equal_iff, if◌then◌else◌,
}
use rainbowsquirrel.Core.Outcome.{ok, bind-eq-ok}
use rainbowsquirrel.Meta.Types.{GoType}
use rainbowsquirrel.Meta.Values.{Value, Entries, no_entries, entry}
use rainbowsquirrel.Convert.Cells.{DriverCell}
use rainbowsquirrel.Scan.Target.{Scanning, set_map_index, value_at_key, map_element, set_map_row}

value_at_key-set_map_index :
    (key k : Bytes) (v : Value) (es : Entries)
    → value_at_key k (set_map_index key v es) ≡ (if equal key k then some v else value_at_key k es)
unfolding value_at_key set_map_index
value_at_key-set_map_index key k v no_entries = refl
value_at_key-set_map_index key k v (entry j w es) =
    ground (
      arith,
      equal_iff j key,
      equal_iff j k,
      equal_iff key k,
      value_at_key-set_map_index key k v es,
    )

-- The cell of the last column with a key.
pub last_cell : (Bytes → Bytes) → Bytes → List Bytes → List DriverCell → Option DriverCell
last_cell key_of k [] raw = none
last_cell key_of k (col ∷ cols) [] = none
last_cell key_of k (col ∷ cols) (c ∷ raw) = elim (last_cell key_of k cols raw) [
  | some later ↦ some later
  | none ↦ if equal (key_of col) k then some c else none
]

module _ {Location : Type 0} (env : Scanning Location) where
  -- What a key leads to, by the last cell for it, if there is one.
  abbrev pub Shows : GoType → Option DriverCell → Option Value → Option Value → Type 0
  Shows t none old new = new ≡ old
  Shows t (some c) old new = (v : Value) × (map_element env t c ≡ ok v) × (new ≡ some v)

  shown_later :
      (t : GoType) (later : Option DriverCell) (test : Bool) (c : DriverCell) (v : Value)
      (old new : Option Value)
      → map_element env t c ≡ ok v
      → Shows t later (if test then some v else old) new
      → Shows t (elim later [ some x ↦ some x | none ↦ if test then some c else none ]) old new
  shown_later t (some x) test c v old new e h = h
  shown_later t none true c v old new e h = (v, e, h)
  shown_later t none false c v old new e h = h

  -- After setMapRow each key leads to what the last column that mapKeyFunc gives the key has
  -- become, and every other key to what it led to before.
  pub set_map_row-last_cell :
      (t : GoType) (k : Bytes) (cols : List Bytes) (raw : List DriverCell) (es es' : Entries)
      → set_map_row env t cols raw es ≡ ok es'
      → Shows t (last_cell env.cfg.map_key_func k cols raw) (value_at_key k es) (value_at_key k es')
  unfolding set_map_row last_cell
  set_map_row-last_cell t k [] raw es es' e =
      let same : es' ≡ es = ground arith in ap (value_at_key k) same
  set_map_row-last_cell t k (col ∷ cols) [] es es' e = absurd (ground arith)
  set_map_row-last_cell t k (col ∷ cols) (c ∷ raw) es es' e =
      let key = env.cfg.map_key_func col in
      let (v, element, rest) = bind-eq-ok (map_element env t c) _ e in
      shown_later t (last_cell env.cfg.map_key_func k cols raw) (equal key k) c v
        (value_at_key k es) (value_at_key k es') element
        (subst
          (λ (o : Option Value).
            Shows t (last_cell env.cfg.map_key_func k cols raw) o (value_at_key k es'))
          (value_at_key-set_map_index key k v es)
          (set_map_row-last_cell t k cols raw (set_map_index key v es) es' rest))
