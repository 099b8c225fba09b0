-- ===== src/Scan/Values.antt =====
-- scan.go: what a target becomes by a row of cells, apart from the source of the row, and the rows
-- that a source with a recorder reads.
use rainbowsquirrel.Base.{
  ◌≡◌, refl, arith, Bool, true, false, Bool-cases, inl, inr, List, [], ◌∷◌, Option, some, Bytes,
  length, ◌==◌, ==_iff, if◌then◌else◌,
}
use rainbowsquirrel.Core.Errors.{GoError, unsupported_type}
use rainbowsquirrel.Core.Outcome.{Outcome, ok, fail, panic, ◌>>=◌, bind-eq-ok}
use rainbowsquirrel.Meta.Types.{GoType, pointer_type, named, is_struct, is_map}
use rainbowsquirrel.Meta.Values.{
  Value, Values, pointer, named_value, zero_value, no_values, value_cons,
}
use rainbowsquirrel.Meta.Collect.{build_type_info}
use rainbowsquirrel.Meta.Lookup.{element_at}
use rainbowsquirrel.Convert.Cells.{DriverCell}
use rainbowsquirrel.Scan.Source.{RowSource, ◌then◌, scan_raw_row, record_raw}
use rainbowsquirrel.Scan.Target.{Scanning, convert_cell}
use rainbowsquirrel.Scan.Row.{
  effective_strict, assign_row, fill_map, has_string_keys, made_map, scan_recorded, scan_struct_row,
  scan_map_row, scan_scalar_row, scan_kind, scan_one_value,
}

module _ {S : Type 0} where
  pub then-eq-ok :
      {First Last : Type 0} (step : Outcome First × S) (next : First → S → Outcome Last × S)
      {last : Last} {end : S}
      → (step then next) ≡ (ok last, end)
      → (first : First) × (mid : S) × (step ≡ (ok first, mid)) × (next first mid ≡ (ok last, end))
  then-eq-ok (ok first, mid) next e = (first, mid, refl, e)
  then-eq-ok (fail x, mid) next e = absurd (ground arith)
  then-eq-ok (panic, mid) next e = absurd (ground arith)

  pub guard-eq-ok :
      {Last : Type 0} (test : Bool) (step : Outcome Last × S) (x : GoError) (s : S) {last : Last}
      {end : S}
      → (if test then step else (fail x, s)) ≡ (ok last, end)
      → (test ≡ true) × (step ≡ (ok last, end))
  guard-eq-ok true step x s e = (refl, e)
  guard-eq-ok false step x s e = absurd (ground arith)

module _ {Location : Type 0} (env : Scanning Location) (call : Option Bool) where
  unfoldable pub struct_value_of : GoType → Value → List Bytes → List DriverCell → Outcome Value
  struct_value_of t v cols raw = build_type_info t env.cfg.tag_name env.cfg.name_mapper >>= λ ti.
      assign_row env ti (effective_strict env.cfg call) cols raw v

  unfoldable pub kind_value : GoType → Value → List Bytes → List DriverCell → Outcome Value
  unfolding struct_value_of
  kind_value t v cols raw =
      if is_struct t
      then struct_value_of t v cols raw
      else if is_map t
      then (if has_string_keys t
          then fill_map env t (made_map v) cols raw
          else fail unsupported_type)
      else if length cols == 1
      then element_at 0 raw >>= convert_cell env t
      else fail unsupported_type

  unfoldable pub row_value : GoType → Value → List Bytes → List DriverCell → Outcome Value
  unfolding kind_value
  row_value (pointer_type t) v cols raw =
      kind_value t (zero_value t) cols raw >>= λ u. ok (pointer u)
  row_value (named m (pointer_type t)) v cols raw =
      kind_value t (zero_value t) cols raw >>= λ u. ok (named_value m (pointer u))
  row_value t v cols raw = kind_value t v cols raw

  -- A slice's elements, one for each row in order.
  unfoldable pub row_values : GoType → List Bytes → List (List DriverCell) → Outcome Values
  row_values t cols [] = ok no_values
  row_values t cols (raw ∷ rows) = row_value t (zero_value t) cols raw >>= λ v.
      row_values t cols rows >>= λ vs. ok (value_cons v vs)

  module _ {S : Type 0} (src : RowSource S) (hook : List DriverCell → S → S)
      (records : src.recorder ≡ some hook) where
    -- One row was read and recorded, and it gives the value `u`.
    abbrev pub Took : (List DriverCell → Outcome Value) → List Bytes → S → Value → S → Type 0
    Took value cols s u s' =
        (raw : List DriverCell) × (mid : S) × (scan_raw_row src (length cols) s ≡ (ok raw, mid))
        × (s' ≡ hook raw mid)
        × (value raw ≡ ok u)

    scan_struct_row-Took :
        (t : GoType) (v : Value) (cols : List Bytes) (s : S) (u : Value) (s' : S)
        → scan_struct_row env src call t v cols s ≡ (ok u, s')
        → Took (struct_value_of t v cols) cols s u s'
    unfolding scan_struct_row struct_value_of scan_recorded
    scan_struct_row-Took t v cols s u s' e =
        let (ti, s1, built, e1) =
          then-eq-ok (build_type_info t env.cfg.tag_name env.cfg.name_mapper, s) _ e in
        let e2 : scan_recorded env src ti (effective_strict env.cfg call) cols v hook s1
            ≡ (ok u, s') =
          ground arith in
        let (raw, mid, read, e3) = then-eq-ok (scan_raw_row src (length cols) s1) _ e2 in
        (raw, mid, ground arith, ground arith, ground arith)

    scan_map_row-Took :
        (t : GoType) (v : Value) (cols : List Bytes) (s : S) (u : Value) (s' : S)
        → scan_map_row env src t v cols s ≡ (ok u, s')
        → Took
            (λ raw. if has_string_keys t then fill_map env t v cols raw else fail unsupported_type)
            cols
            s
            u
            s'
    unfolding scan_map_row record_raw
    scan_map_row-Took t v cols s u s' e =
        let (keyed, e1) = guard-eq-ok (has_string_keys t) _ unsupported_type s e in
        let (raw, mid, read, e2) = then-eq-ok (scan_raw_row src (length cols) s) _ e1 in
        (raw, mid, read, ground arith, ground arith)

    scan_scalar_row-Took :
        (t : GoType) (cols : List Bytes) (s : S) (u : Value) (s' : S)
        → scan_scalar_row env src t cols s ≡ (ok u, s')
        → Took
            (λ raw.
              if length cols == 1
              then element_at 0 raw >>= convert_cell env t
              else fail unsupported_type)
            cols
            s
            u
            s'
    unfolding scan_scalar_row record_raw
    scan_scalar_row-Took t cols s u s' e =
        let (single, e1) = guard-eq-ok (length cols == 1) _ unsupported_type s e in
        let one : length cols ≡ 1 = (==_iff (length cols) 1).0 single in
        let (raw, mid, read, e2) = then-eq-ok (scan_raw_row src 1 s) _ e1 in
        (raw, mid, rw one read, ground arith, ground arith)

    scan_kind-Took :
        (t : GoType) (v : Value) (cols : List Bytes) (s : S) (u : Value) (s' : S)
        → scan_kind env src call t v cols s ≡ (ok u, s')
        → Took (kind_value t v cols) cols s u s'
    unfolding scan_kind kind_value
    scan_kind-Took t v cols s u s' e = elim (Bool-cases (is_struct t)) [
      | inl struct ↦ rw struct (scan_struct_row-Took t v cols s u s' (ground arith))
      | inr other ↦ elim (Bool-cases (is_map t)) [
        | inl keyed ↦
            rw (other, keyed) (scan_map_row-Took t (made_map v) cols s u s' (ground arith))
        | inr scalar ↦ rw (other, scalar) (scan_scalar_row-Took t cols s u s' (ground arith))
      ]
    ]

    wrapped-Took :
        (wrap : Value → Value) (t : GoType) (cols : List Bytes) (s : S) (u : Value) (s' : S)
        → (scan_kind env src call t (zero_value t) cols s then λ w mid. (ok (wrap w), mid))
          ≡ (ok u, s')
        → Took (λ raw. kind_value t (zero_value t) cols raw >>= λ w. ok (wrap w)) cols s u s'
    wrapped-Took wrap t cols s u s' e =
        let (w, mid, step, e1) = then-eq-ok (scan_kind env src call t (zero_value t) cols s) _ e in
        let (raw, s1, read, kept, value) = scan_kind-Took t (zero_value t) cols s w mid step in
        (raw, s1, read, ground arith, ground arith)

    -- What is scanned into a target is what the row of cells that was read gives.
    pub scan_one_value-Took :
        (t : GoType) (v : Value) (cols : List Bytes) (s : S) (u : Value) (s' : S)
        → scan_one_value env src call t v cols s ≡ (ok u, s')
        → Took (row_value t v cols) cols s u s'
    unfolding scan_one_value row_value
    scan_one_value-Took (pointer_type t) v cols s u s' e = wrapped-Took pointer t cols s u s' e
    scan_one_value-Took (named m (pointer_type t)) v cols s u s' e =
        wrapped-Took (λ w. named_value m (pointer w)) t cols s u s' e
    scan_one_value-Took t v cols s u s' e = scan_kind-Took t v cols s u s' e

    -- The other way: the row that is read gives the target's value.
    struct-gives :
        (t : GoType) (v : Value) (cols : List Bytes) (s mid : S) (raw : List DriverCell) (u : Value)
        → scan_raw_row src (length cols) s ≡ (ok raw, mid)
        → struct_value_of t v cols raw ≡ ok u
        → scan_struct_row env src call t v cols s ≡ (ok u, hook raw mid)
    unfolding scan_struct_row struct_value_of scan_recorded
    struct-gives t v cols s mid raw u read value =
        let (ti, built, e) =
          bind-eq-ok (build_type_info t env.cfg.tag_name env.cfg.name_mapper) _ value in
        ground arith

    kind-gives :
        (t : GoType) (v : Value) (cols : List Bytes) (s mid : S) (raw : List DriverCell) (u : Value)
        → scan_raw_row src (length cols) s ≡ (ok raw, mid)
        → kind_value t v cols raw ≡ ok u
        → scan_kind env src call t v cols s ≡ (ok u, hook raw mid)
    unfolding scan_kind kind_value scan_map_row scan_scalar_row record_raw
    kind-gives t v cols s mid raw u read value = elim (Bool-cases (is_struct t)) [
      | inl struct ↦ rw struct (struct-gives t v cols s mid raw u read (ground arith))
      | inr other ↦ elim (Bool-cases (is_map t)) [
        | inl keyed ↦ elim (Bool-cases (has_string_keys t)) [
          | inl strings ↦ rw (other, keyed, strings, read, records) (ground arith)
          | inr wrong ↦ absurd (ground arith)
        ]
        | inr scalar ↦ elim (Bool-cases (length cols == 1)) [
          | inr many ↦ absurd (ground arith)
          | inl single ↦
              let one : length cols ≡ 1 = (==_iff (length cols) 1).0 single in
              let read' : scan_raw_row src 1 s ≡ (ok raw, mid) = rw one at read in
              rw (other, scalar, single, read', records) (ground arith)
        ]
      ]
    ]

    pub scan_one_value-row_value :
        (t : GoType) (v : Value) (cols : List Bytes) (s mid : S) (raw : List DriverCell) (u : Value)
        → scan_raw_row src (length cols) s ≡ (ok raw, mid)
        → row_value t v cols raw ≡ ok u
        → scan_one_value env src call t v cols s ≡ (ok u, hook raw mid)
    unfolding scan_one_value row_value
    scan_one_value-row_value (pointer_type t) v cols s mid raw u read value =
        let (w, inner, e) = bind-eq-ok (kind_value t (zero_value t) cols raw) _ value in
        ground (arith, kind-gives t (zero_value t) cols s mid raw w read inner)
    scan_one_value-row_value (named m (pointer_type t)) v cols s mid raw u read value =
        let (w, inner, e) = bind-eq-ok (kind_value t (zero_value t) cols raw) _ value in
        ground (arith, kind-gives t (zero_value t) cols s mid raw w read inner)
    scan_one_value-row_value t v cols s mid raw u read value =
        kind-gives t v cols s mid raw u read value
