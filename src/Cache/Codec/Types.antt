-- ===== src/Cache/Codec/Types.antt =====
-- cache/codec.go: the data that is stored, the errors, and Go's three ways for a call to end.
use rainbowsquirrel.Base.{ℕ, ◌≡◌, refl, Bool, true, false, if◌then◌else◌, List, Bytes, ℤ}

-- One raw cell, an `any` as the driver returns it. A float64 is its bit pattern; a time.Time is
-- its UnixNano with the zone's offset in seconds; `other` is a value of any other type.
pub data Cell : Type 0 where
  nil : Cell
  int64 : ℤ → Cell
  float64 : ℕ → Cell
  bool : Bool → Cell
  string : Bytes → Cell
  bytes : Bytes → Cell
  time : ℤ → ℤ → Cell
  other : Bytes → Cell

pub record RowData : Type 0 where
  pub columns : List Bytes
  pub rows : List (List Cell)

pub data CodecError : Type 0 where
  invalid_header unexpected_eof bad_uvarint bad_varint : CodecError
  unknown_tag : ℕ → CodecError
  trailing_bytes : ℕ → CodecError
  row_width : ℕ → ℕ → CodecError
  unsupported_cell : Bytes → CodecError

-- `fail` is an error value that is returned; `panic` unwinds the goroutine.
pub data Result {ℓ} (A : Type ℓ) : Type ℓ where
  ok : A → Result A
  fail : CodecError → Result A
  panic : Result A

infixl 5 ◌>>=◌
abbrev pub ◌>>=◌ {ℓ κ} :
    {First : Type ℓ} {Last : Type κ} → Result First → (First → Result Last) → Result Last
panic >>= next = panic
(fail reason) >>= next = fail reason
(ok found) >>= next = next found

-- A chain that ends in a value has had one from each of its steps.
pub bind-eq-ok {ℓ κ} :
    {First : Type ℓ} {Last : Type κ} (step : Result First) (next : First → Result Last) {end : Last}
    → (step >>= next) ≡ ok end
    → (found : First) × (step ≡ ok found) × (next found ≡ ok end)
bind-eq-ok panic next ended = cc
bind-eq-ok (fail reason) next ended = cc
bind-eq-ok (ok found) next ended = (found, refl, ended)

pub if-eq-ok {ℓ} :
    {A : Type ℓ} (test : Bool) (m : Result A) (e : CodecError) {a : A}
    → (if test then m else fail e) ≡ ok a
    → (test ≡ true) × (m ≡ ok a)
if-eq-ok true m e h = (refl, h)
if-eq-ok false m e h = cc
