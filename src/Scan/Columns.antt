-- ===== src/Scan/Columns.antt =====
-- scan.go: the columns of a row into a struct, with a field and without, in both ways to scan it.
use rainbowsquirrel.Base.{
  ◌≡◌, ◌↔◌, refl, sym, ap, ◌∙◌, inl, inr, arith, Bool, true, false, not, ◌&&◌, List, [], ◌∷◌,
  Option, none, some, Option-cases, Bytes, ℕ, All, length, if◌then◌else◌,
}
use rainbowsquirrel.Core.Errors.{column_not_found}
use rainbowsquirrel.Core.Outcome.{Outcome, ok, fail, panic, ◌>>=◌, bind-eq-ok}
use rainbowsquirrel.Meta.Types.{GoType}
use rainbowsquirrel.Meta.Values.{Value}
use rainbowsquirrel.Meta.Collect.{FieldInfo, TypeInfo, build_type_info}
use rainbowsquirrel.Meta.Lookup.{lookup_scan}
use rainbowsquirrel.Convert.Cells.{DriverCell}
use rainbowsquirrel.Scan.Source.{RowSource, ◌then◌, scan_raw_row}
use rainbowsquirrel.Scan.Target.{Scanning, assign_in, field_value}
use rainbowsquirrel.Scan.Values.{then-eq-ok}
use rainbowsquirrel.Scan.Row.{
  column_field, assign_row, plan_row, Target, skip_target, fast_target, slow_target, scan_recorded,
  scan_planned, scan_struct_row, effective_strict,
}

abbrev pub HasField : TypeInfo → Bytes → Type 0
HasField ti col = (i : ℕ) × (lookup_scan ti col ≡ some i)

column_field-HasField :
    (ti : TypeInfo) (strict : Bool) (col : Bytes)
    → HasField ti col
    → column_field ti strict col ≡ column_field ti false col
unfolding column_field
column_field-HasField ti strict col (i, found) = rw (found, column_field) refl

strict-HasField :
    (ti : TypeInfo) (col : Bytes) (o : Option FieldInfo)
    → column_field ti true col ≡ ok o
    → HasField ti col
unfolding column_field
strict-HasField ti col o e = elim (Option-cases (lookup_scan ti col)) [
  | inl missing ↦ absurd (ground arith)
  | inr found ↦ found
]

missing-strict :
    (ti : TypeInfo) (col : Bytes)
    → lookup_scan ti col ≡ none
    → column_field ti true col ≡ fail column_not_found
unfolding column_field
missing-strict ti col missing = rw (missing, column_field) refl

bind-same :
    {A B : Type 0} (r : Outcome A) {f g : A → Outcome B}
    → ((x : A) → f x ≡ g x)
    → (r >>= f) ≡ (r >>= g)
bind-same (ok x) h = h x
bind-same (fail e) h = refl
bind-same panic h = refl

module _ {Location : Type 0} (env : Scanning Location) (ti : TypeInfo) where
  -- What the field of a column makes of a row and of a plan.
  abbrev go_on :
      Bool → DriverCell → List Bytes → List DriverCell → Value → Option FieldInfo → Outcome Value
  go_on strict c cols raw v found = elim found [
    | none ↦ assign_row env ti strict cols raw v
    | some f ↦ assign_in env f c v >>= λ u. assign_row env ti strict cols raw u
  ]

  abbrev go_short : Bool → List Bytes → Value → Option FieldInfo → Outcome Value
  go_short strict cols v found = elim found [
    | none ↦ assign_row env ti strict cols [] v
    | some f ↦ panic
  ]

  abbrev target : Value → Option FieldInfo → Outcome Target
  target v found = elim found [
    | none ↦ ok skip_target
    | some f ↦
        if f.fast && not f.json
        then (field_value v f >>= λ current. ok (fast_target f))
        else ok (slow_target f)
  ]

  abbrev plan_on : Bool → List Bytes → Value → Option FieldInfo → Outcome (List Target)
  plan_on strict cols v found =
      target v found >>= λ p. plan_row ti strict v cols >>= λ plan. ok (p ∷ plan)

  short-same :
      (cols : List Bytes) (v : Value)
      → assign_row env ti true cols [] v ≡ assign_row env ti false cols [] v
      → (found : Option FieldInfo) → go_short true cols v found ≡ go_short false cols v found
  short-same cols v ih none = ih
  short-same cols v ih (some f) = refl

  on-same :
      (c : DriverCell) (cols : List Bytes) (raw : List DriverCell) (v : Value)
      → ((u : Value) → assign_row env ti true cols raw u ≡ assign_row env ti false cols raw u)
      → (found : Option FieldInfo) → go_on true c cols raw v found ≡ go_on false c cols raw v found
  on-same c cols raw v ih none = ih v
  on-same c cols raw v ih (some f) = bind-same (assign_in env f c v) ih

  short-HasField :
      (found : Option FieldInfo) (cols : List Bytes) (v u : Value)
      → (assign_row env ti true cols [] v ≡ ok u → All (HasField ti) cols)
      → go_short true cols v found ≡ ok u
      → All (HasField ti) cols
  short-HasField none cols v u ih e = ih e
  short-HasField (some f) cols v u ih e = absurd (ground arith)

  on-HasField :
      (found : Option FieldInfo) (c : DriverCell) (cols : List Bytes) (raw : List DriverCell)
      (v u : Value)
      → ((w : Value) → assign_row env ti true cols raw w ≡ ok u → All (HasField ti) cols)
      → go_on true c cols raw v found ≡ ok u
      → All (HasField ti) cols
  on-HasField none c cols raw v u ih e = ih v e
  on-HasField (some f) c cols raw v u ih e =
      let (w, set, rest) = bind-eq-ok (assign_in env f c v) _ e in ih w rest

  -- If every column has a field, strict mode changes nothing.
  row-same :
      (cols : List Bytes) (raw : List DriverCell) (v : Value)
      → All (HasField ti) cols
      → assign_row env ti true cols raw v ≡ assign_row env ti false cols raw v
  unfolding assign_row
  row-same [] raw v h = refl
  row-same (col ∷ cols) [] v (here, h) =
      ap (λ r. r >>= go_short true cols v) (column_field-HasField ti true col here)
      ∙ bind-same (column_field ti false col) {f = go_short true cols v} {g = go_short false cols v}
          (short-same cols v (row-same cols [] v h))
  row-same (col ∷ cols) (c ∷ raw) v (here, h) =
      ap (λ r. r >>= go_on true c cols raw v) (column_field-HasField ti true col here)
      ∙ bind-same (column_field ti false col) {f = go_on true c cols raw v}
          {g = go_on false c cols raw v} (on-same c cols raw v (λ u. row-same cols raw u h))

  -- Strict mode asks for a field for every column.
  row-HasField :
      (cols : List Bytes) (raw : List DriverCell) (v u : Value)
      → assign_row env ti true cols raw v ≡ ok u
      → All (HasField ti) cols
  unfolding assign_row
  row-HasField [] raw v u e = tt
  row-HasField (col ∷ cols) [] v u e =
      let (found, there, rest) = bind-eq-ok (column_field ti true col) (go_short true cols v) e in
      (
        strict-HasField ti col found there,
        short-HasField found cols v u (row-HasField cols [] v u) rest,
      )
  row-HasField (col ∷ cols) (c ∷ raw) v u e =
      let (found, there, rest) =
        bind-eq-ok (column_field ti true col) (go_on true c cols raw v) e in
      (
        strict-HasField ti col found there,
        on-HasField found c cols raw v u (λ w. row-HasField cols raw w u) rest,
      )

  plan-same :
      (cols : List Bytes) (v : Value)
      → All (HasField ti) cols
      → plan_row ti true v cols ≡ plan_row ti false v cols
  unfolding plan_row
  plan-same [] v h = refl
  plan-same (col ∷ cols) v (here, h) =
      ap (λ r. r >>= plan_on true cols v) (column_field-HasField ti true col here)
      ∙ ap
          (λ rest. column_field ti false col >>= λ found.
            target v found >>= λ p. rest >>= λ plan. ok (p ∷ plan))
          (plan-same cols v h)

  plan-HasField :
      (cols : List Bytes) (v : Value) (plan : List Target)
      → plan_row ti true v cols ≡ ok plan
      → All (HasField ti) cols
  unfolding plan_row
  plan-HasField [] v plan e = tt
  plan-HasField (col ∷ cols) v plan e =
      let (found, there, later) = bind-eq-ok (column_field ti true col) (plan_on true cols v) e in
      let (p, aimed, rest) = bind-eq-ok (target v found) _ later in
      let (more, planned, done) = bind-eq-ok (plan_row ti true v cols) _ rest in
      (strict-HasField ti col found there, plan-HasField cols v more planned)

  module _ {S : Type 0} (src : RowSource S) where
    recorded-same :
        (cols : List Bytes) (v : Value) (hook : List DriverCell → S → S) (s : S)
        → All (HasField ti) cols
        → scan_recorded env src ti true cols v hook s ≡ scan_recorded env src ti false cols v hook s
    unfolding scan_recorded
    recorded-same cols v hook s h =
        λ i. scan_raw_row src (length cols) s then λ raw s'. (row-same cols raw v h i, hook raw s')

    recorded-HasField :
        (cols : List Bytes) (v u : Value) (hook : List DriverCell → S → S) (s end : S)
        → scan_recorded env src ti true cols v hook s ≡ (ok u, end)
        → All (HasField ti) cols
    unfolding scan_recorded
    recorded-HasField cols v u hook s end e =
        let (raw, s', scanned, rest) = then-eq-ok (scan_raw_row src (length cols) s) _ e in
        row-HasField cols raw v u (ap (λ p. p.0) rest)

    planned-same :
        (cols : List Bytes) (v : Value) (s : S)
        → All (HasField ti) cols
        → scan_planned env src ti true cols v s ≡ scan_planned env src ti false cols v s
    unfolding scan_planned
    planned-same cols v s h = rw (plan-same cols v h) refl

    planned-HasField :
        (cols : List Bytes) (v u : Value) (s end : S)
        → scan_planned env src ti true cols v s ≡ (ok u, end)
        → All (HasField ti) cols
    unfolding scan_planned
    planned-HasField cols v u s end e =
        let (plan, s', planned, rest) = then-eq-ok (plan_row ti true v cols, s) _ e in
        plan-HasField cols v plan (ap (λ p. p.0) planned)

    -- A row into a struct in strict mode succeeds exactly when every column has a field and the
    -- row succeeds in the other mode, with the same value and the source in the same state; and if
    -- every column has a field, then the two modes give the same in every case. Both hold of a
    -- source that records, whose row is scanned raw, and of any other, whose fields are scanned
    -- into.
    pub scan_struct_row-strict :
        (t : GoType) (cols : List Bytes) (v u : Value) (s end : S)
        → build_type_info t env.cfg.tag_name env.cfg.name_mapper ≡ ok ti
        → ((scan_struct_row env src (some true) t v cols s ≡ (ok u, end)) ↔ (
            All (HasField ti) cols
            × (scan_struct_row env src (some false) t v cols s ≡ (ok u, end))))
          × (All (HasField ti) cols
              → scan_struct_row env src (some true) t v cols s
                ≡ scan_struct_row env src (some false) t v cols s)
    unfolding scan_struct_row effective_strict
    scan_struct_row-strict t cols v u s end built = elim (Option-cases src.recorder) [
      | inl plain ↦
          rw (built, plain)
            (
              (
                λ e.
                    let h = planned-HasField cols v u s end e in
                    (h, sym (planned-same cols v s h) ∙ e),
                λ p. planned-same cols v s p.0 ∙ p.1,
              ),
              planned-same cols v s,
            )
      | inr (hook, records) ↦
          rw (built, records)
            (
              (
                λ e.
                    let h = recorded-HasField cols v u hook s end e in
                    (h, sym (recorded-same cols v hook s h) ∙ e),
                λ p. recorded-same cols v hook s p.0 ∙ p.1,
              ),
              recorded-same cols v hook s,
            )
    ]
