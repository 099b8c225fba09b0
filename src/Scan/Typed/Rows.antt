-- ===== src/Scan/Typed/Rows.antt =====
-- scan.go: the types of what is scanned into a target.
use rainbowsquirrel.Base.{
  ℕ, All, ℤ, ◌≡◌, subst, sym, ◌∙◌, zero, suc, inl, inr, refl, arith, Bool, Bool-cases, List, [],
  ◌∷◌, Option, some, Option-cases, Bytes, equal, length, ◌==◌,
}
use rainbowsquirrel.Core.Outcome.{Outcome, ok, fail, panic, ◌>>=◌, bind-eq-ok}
use rainbowsquirrel.Meta.Types.{
  GoType, time_type, pointer_type, slice_type, map_type, named, is_struct, is_map, KeyKind,
  key_kind, string_key, defined_string_key, other_key,
}
use rainbowsquirrel.Meta.Values.{Value, Values, Entries, map_value, zero_value}
use rainbowsquirrel.Meta.Lookup.{element_at}
use rainbowsquirrel.Meta.Typing.{
  HasType, InSigned, InUnsigned, AreBytes, EntriesTyped, entries_typed_nil, entries_typed_cons,
  AllTyped, all_typed_nil, all_typed_cons, slice_typed, map_typed, nil_map_typed, named_typed,
  interface_typed, bool_typed, pointer_typed,
}
use rainbowsquirrel.Convert.Cells.{DriverCell}
use rainbowsquirrel.Convert.Targets.{IsCell, zero_value-HasType}
use rainbowsquirrel.Convert.Sets.{Sets, sets, sets_fail, sets_panic, if-Sets}
use rainbowsquirrel.Scan.Target.{Scanning, map_element, set_map_row, set_map_index}
use rainbowsquirrel.Scan.Row.{has_string_keys, made_map, fill_map}
use rainbowsquirrel.Scan.Values.{kind_value, row_value}
use rainbowsquirrel.Scan.Source.{RowSource, scan_raw_row}
use rainbowsquirrel.Scan.All.{target, slice_element, new_slice, scan_loop, scan_rows}
use rainbowsquirrel.Scan.Loop.{
  scan_loop-Began, scan_slice-SliceRead, scan_one-OneRead, scan_rows-slice, scan_rows-one,
}
use rainbowsquirrel.Scan.Values.{scan_one_value-Took}
use rainbowsquirrel.Scan.Row.{scan_one_value}
use rainbowsquirrel.Scan.Places.{Sets-then, Sets-eq-ok}
use rainbowsquirrel.Scan.Typed.{struct-Sets, map_element-Sets, convert_cell-Sets}

set_map_index-EntriesTyped :
    (key : Bytes) {t : GoType} {v : Value} {es : Entries}
    → HasType t v
    → EntriesTyped t es
    → EntriesTyped t (set_map_index key v es)
unfolding set_map_index
set_map_index-EntriesTyped key typed entries_typed_nil = entries_typed_cons typed entries_typed_nil
set_map_index-EntriesTyped key {v = v} typed (entries_typed_cons {key = k} {es = es} first rest) =
    elim (Bool-cases (equal k key)) [
      | inl same ↦ rw same (entries_typed_cons typed rest)
      | inr other ↦ rw other (entries_typed_cons first (set_map_index-EntriesTyped key typed rest))
    ]

made_map-HasType : {t : GoType} {v : Value} → HasType t v → HasType t (made_map v)
unfolding made_map
made_map-HasType (nil_map_typed k t) = map_typed entries_typed_nil
made_map-HasType (named_typed typed) = named_typed (made_map-HasType typed)
made_map-HasType (bool_typed b) = bool_typed b
made_map-HasType (interface_typed v) = interface_typed _
made_map-HasType typed = typed

some-eq : {A : Type 0} {a b : A} → some a ≡ some b → a ≡ b
some-eq e = cc

key-Sets :
    (kk : KeyKind) (t : GoType) (r : Outcome Value)
    → Sets t r
    → Sets t (elim kk [ string_key ↦ r | defined_string_key ↦ panic | other_key ↦ panic ])
key-Sets string_key t r h = h
key-Sets defined_string_key t r h = sets_panic
key-Sets other_key t r h = sets_panic

entries-Sets :
    (k t : GoType) (r : Outcome Entries)
    → ((es : Entries) → r ≡ ok es → EntriesTyped t es)
    → Sets (map_type k t) (r >>= λ es. ok (map_value k t es))
entries-Sets k t (ok es) h = sets (map_typed (h es refl))
entries-Sets k t (fail e) h = sets_fail
entries-Sets k t panic h = sets_panic

element-Sets :
    (t : GoType) (raw : List DriverCell) (f : DriverCell → Outcome Value)
    → All IsCell raw
    → ((c : DriverCell) → IsCell c → Sets t (f c))
    → Sets t (element_at 0 raw >>= f)
unfolding element_at
element-Sets t [] f cells h = sets_panic
element-Sets t (c ∷ raw) f cells h = h c cells.0

module _ {Location : Type 0} (env : Scanning Location)
    (parse_int-InSigned : (s : Bytes) (bits : ℕ) (z : ℤ)
      → env.parsers.parse_int s bits ≡ ok z
      → InSigned bits z)
    (parse_uint-InUnsigned : (s : Bytes) (bits n : ℕ)
      → env.parsers.parse_uint s bits ≡ ok n
      → InUnsigned bits n)
    (scan-HasType : (t : GoType) (c : DriverCell) (v : Value)
      → IsCell c
      → env.scan_method t c ≡ ok v
      → HasType t v)
    (converter-HasType : (t : GoType) (f : DriverCell → Outcome (Option Value)) (c : DriverCell)
        (v : Value)
      → IsCell c
      → env.converter t ≡ some f
      → f c ≡ ok (some v)
      → HasType t v)
    (unmarshal-HasType : (t : GoType) (b : Bytes) (old v : Value)
      → AreBytes b
      → env.unmarshal t b old ≡ ok v
      → HasType t v) where
  set_map_row-EntriesTyped :
      (t : GoType) (cols : List Bytes) (raw : List DriverCell) {es : Entries} (es' : Entries)
      → All IsCell raw
      → EntriesTyped t es
      → set_map_row env t cols raw es ≡ ok es'
      → EntriesTyped t es'
  unfolding set_map_row
  set_map_row-EntriesTyped t [] raw {es} es' cells typed e =
      let same : es ≡ es' = ground arith in subst (EntriesTyped t) same typed
  set_map_row-EntriesTyped t (col ∷ cols) [] es' cells typed e = absurd (ground arith)
  set_map_row-EntriesTyped t (col ∷ cols) (c ∷ raw) {es} es' cells typed e =
      let (v, element, rest) = bind-eq-ok (map_element env t c) _ e in
      let v_typed =
        Sets-eq-ok t _ v
          (map_element-Sets env parse_int-InSigned parse_uint-InUnsigned scan-HasType
            converter-HasType unmarshal-HasType t c cells.0)
          element in
      set_map_row-EntriesTyped t cols raw es' cells.1
        (set_map_index-EntriesTyped (env.cfg.map_key_func col) v_typed typed) rest

  fill_map-Sets :
      {t : GoType} {v : Value} (cols : List Bytes) (raw : List DriverCell)
      → All IsCell raw
      → HasType t v
      → Sets t (fill_map env t v cols raw)
  unfolding fill_map
  fill_map-Sets [] raw cells typed = sets typed
  fill_map-Sets (col ∷ cols) raw cells (named_typed {m = m} {t = t} inner) =
      Sets-then t (named m t) _ _ (fill_map-Sets (col ∷ cols) raw cells inner)
        (λ u typed. sets (named_typed typed))
  fill_map-Sets (col ∷ cols) raw cells (map_typed {k = k} {t = t} {es = es} entries) =
      key-Sets (key_kind k) (map_type k t) _ (
        entries-Sets k t _
          (λ es' e. set_map_row-EntriesTyped t (col ∷ cols) raw es' cells entries e))
  fill_map-Sets (col ∷ cols) raw cells (bool_typed b) = sets_panic
  fill_map-Sets (col ∷ cols) raw cells _ = sets_panic

  module _ (call : Option Bool) where
    kind_value-Sets :
        (t : GoType) (v : Value) (cols : List Bytes) (raw : List DriverCell)
        → All IsCell raw
        → HasType t v
        → Sets t (kind_value env call t v cols raw)
    unfolding kind_value
    kind_value-Sets t v cols raw cells typed =
        if-Sets t (is_struct t) _ _
          (struct-Sets env parse_int-InSigned parse_uint-InUnsigned scan-HasType converter-HasType
            unmarshal-HasType call t v cols raw cells typed)
          (if-Sets t (is_map t) _ _
            (if-Sets t (has_string_keys t) _ _
              (fill_map-Sets cols raw cells (made_map-HasType typed)) sets_fail)
            (if-Sets t (length cols == 1) _ _
              (element-Sets t raw _ cells (
                convert_cell-Sets env parse_int-InSigned parse_uint-InUnsigned scan-HasType
                  converter-HasType unmarshal-HasType t))
              sets_fail))

    row_value-Sets :
        (t : GoType) (v : Value) (cols : List Bytes) (raw : List DriverCell)
        → All IsCell raw
        → HasType t v
        → Sets t (row_value env call t v cols raw)
    unfolding row_value
    row_value-Sets (pointer_type t) v cols raw cells typed =
        Sets-then t (pointer_type t) _ _
          (kind_value-Sets t (zero_value t) cols raw cells (zero_value-HasType t))
          (λ u good. sets (pointer_typed good))
    row_value-Sets (named m (pointer_type t)) v cols raw cells typed =
        Sets-then t (named m (pointer_type t)) _ _
          (kind_value-Sets t (zero_value t) cols raw cells (zero_value-HasType t))
          (λ u good. sets (named_typed (pointer_typed good)))
    row_value-Sets (named m time_type) v cols raw cells typed =
        kind_value-Sets (named m time_type) v cols raw cells typed
    row_value-Sets t v cols raw cells typed = kind_value-Sets t v cols raw cells typed

    module _ {S : Type 0} (src : RowSource S) (hook : List DriverCell → S → S)
        (records : src.recorder ≡ some hook)
        (gives-IsCell : (n : ℕ) (s : S) (raw : List DriverCell) (s' : S)
          → scan_raw_row src n s ≡ (ok raw, s')
          → All IsCell raw) where
      one-HasType :
          (t : GoType) (v : Value) (cols : List Bytes) (s : S) (u : Value) (s' : S)
          → HasType t v
          → scan_one_value env src call t v cols s ≡ (ok u, s')
          → HasType t u
      one-HasType t v cols s u s' typed e =
          let (raw, mid, read, kept, value) =
            scan_one_value-Took env call src hook records t v cols s u s' e in
          Sets-eq-ok t _ u (row_value-Sets t v cols raw (gives-IsCell _ _ _ _ read) typed) value

      loop-AllTyped :
          (fuel : ℕ) (t : GoType) (cols : List Bytes) (s : S) (vs : Values) (end : S)
          → scan_loop env src call fuel t cols s ≡ some (ok vs, end)
          → AllTyped t vs
      unfolding scan_loop
      loop-AllTyped zero t cols s vs end e = absurd (ground arith)
      loop-AllTyped (suc fuel) t cols s vs end e =
          elim (scan_loop-Began env src call fuel t cols s vs end e) [
            | inl (over, empty) ↦ subst (AllTyped t) (sym empty) all_typed_nil
            | inr (s1, s2, u, us, more, one, rest, same) ↦ subst (AllTyped t) (sym same) (
                all_typed_cons
                  (one-HasType t (zero_value t) cols s1 u s2 (zero_value-HasType t) one)
                  (loop-AllTyped fuel t cols s2 us end rest))
          ]

      new_slice-HasType :
          (st t : GoType) (vs : Values)
          → slice_element st ≡ some t
          → AllTyped t vs
          → HasType st (new_slice st vs)
      unfolding slice_element new_slice
      new_slice-HasType (slice_type et) t vs e typed =
          let same : t ≡ et = ground arith in slice_typed (subst (λ x. AllTyped x vs) same typed)
      new_slice-HasType (named m st) t vs e typed = named_typed (new_slice-HasType st t vs e typed)
      new_slice-HasType time_type t vs e typed = absurd (ground arith)
      new_slice-HasType _ t vs e typed = absurd (ground arith)

      -- If the Scan methods, the registered converters and json.Unmarshal give values of the types
      -- that they are for, ParseInt and ParseUint numbers of the width that they are asked for, and
      -- the source cells of Go, then what a source with a recorder is scanned into is a value of
      -- the target's type: a slice with elements of its element type, a struct, a map with string
      -- keys or a scalar, through pointers and defined types, each integer in the range of its own
      -- type.
      pub scan_rows-HasType :
          (fuel : ℕ) (t : GoType) (v : Value) (s : S) (u : Value) (end : S)
          → HasType t v
          → scan_rows env src call fuel (target t v) s ≡ some (ok u, end)
          → HasType t u
      scan_rows-HasType fuel t v s u end typed e = elim (Option-cases (slice_element t)) [
        | inl single ↦
            let (cols, s1, s2, columns, more, one, clean) =
              scan_one-OneRead env src call t v s u end
                (some-eq (sym (scan_rows-one env src call fuel t v s single) ∙ e)) in
            one-HasType t v cols s2 u end typed one
        | inr (et, slice) ↦
            let (cols, s1, vs, columns, loop, clean, shown) =
              scan_slice-SliceRead env src call fuel t et s u end
                (sym (scan_rows-slice env src call fuel t et v s slice) ∙ e) in
            subst (HasType t) (sym shown)
              (new_slice-HasType t et vs slice (loop-AllTyped fuel et cols s1 vs end loop))
      ]
