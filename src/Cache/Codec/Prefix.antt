-- ===== src/Cache/Codec/Prefix.antt =====
-- cache/codec.go: a reader that succeeds does not look past what it reads, so Decode refuses
-- every cut of what Encode wrote.
use rainbowsquirrel.Base.{
  ℕ, zero, suc, ◌+◌, ◌*◌, ◌%◌, ◌^◌, ◌≤◌, ◌<◌, ◌≡◌, refl, arith, List, [], ◌∷◌, ◌++◌, length,
  length-append, Bytes, some, if◌then◌else◌, ◌==◌, Bool, true, false, not, mul_i64, take-append_le,
  drop-append_le, Option-cases, inl, inr,
}
use rainbowsquirrel.Cache.Codec.Types.{
  Cell, CodecError, unknown_tag, invalid_header, nil, int64, float64, bool, string, bytes, time,
  RowData, Result, ok, fail, panic, ◌>>=◌, if-eq-ok,
}
use rainbowsquirrel.Cache.Codec.Varint.{uvarint_loop, uvarint}
use rainbowsquirrel.Cache.Codec.Write.{encode}
use rainbowsquirrel.Cache.Codec.Read.{
  Reader, first_byte, uint_le, reader_at, read_byte, raw, read_uvarint, read_varint, read_block,
  read_payload, read_cell, read_columns, read_row, read_rows, make_slice, decode_body, is_header,
  finish, decode,
}
use rainbowsquirrel.Cache.Codec.RoundTrip.{Storable, replay, decode-encode}

-- The reader with more bytes behind the ones that it has.
abbrev extend : Bytes → Reader → Reader
extend more r = reader_at r.pos (r.rest ++ more)

-- With more bytes behind, the same is read, and they are left behind the rest; or the reader
-- panics again.
abbrev Carries {ℓ} : {A : Type ℓ} → Bytes → Result (A × Reader) → Result (A × Reader) → Type ℓ
Carries more (ok (a, r)) m = m ≡ ok (a, extend more r)
Carries more (fail e) m = Unit
Carries more panic m = m ≡ panic

abbrev Extends {ℓ} : {A : Type ℓ} → Bytes → (Reader → Result (A × Reader)) → Type ℓ
Extends more f = (r : Reader) → Carries more (f r) (f (extend more r))

uvarint_loop-append :
    (i s x : ℕ) (bs more : Bytes) (v n : ℕ)
    → uvarint_loop i s x bs ≡ some (v, n)
    → (uvarint_loop i s x (bs ++ more) ≡ some (v, n)) × (n ≤ i + length bs)
unfolding uvarint_loop
uvarint_loop-append i s x [] more v n h = cc
uvarint_loop-append i s x (b ∷ bs) more v n h =
    ground (arith, uvarint_loop-append (i + 1) (s + 7) (x + b % 128 * 2 ^ s % 2 ^ 64) bs more v n)

uvarint-append :
    (bs more : Bytes) (v n : ℕ)
    → uvarint bs ≡ some (v, n)
    → (uvarint (bs ++ more) ≡ some (v, n)) × (n ≤ length bs)
unfolding uvarint
uvarint-append bs more v n h = ground (arith, uvarint_loop-append 0 0 0 bs more v n)

module _ (more : Bytes) where
  Carries-bind {ℓ κ} :
      {A : Type ℓ} {B : Type κ} (m m' : Result (A × Reader)) (g : A → Reader → Result (B × Reader))
      → Carries more m m'
      → ((a : A) → Extends more (g a))
      → Carries more (m >>= λ p. g p.0 p.1) (m' >>= λ p. g p.0 p.1)
  Carries-bind (ok (a, r)) m' g h hg = rw h (hg a r)
  Carries-bind (fail e) m' g h hg = tt
  Carries-bind panic m' g h hg = rw h

  Extends-bind {ℓ κ} :
      {A : Type ℓ} {B : Type κ} (f : Reader → Result (A × Reader))
      (g : A → Reader → Result (B × Reader))
      → Extends more f
      → ((a : A) → Extends more (g a))
      → Extends more (λ r. f r >>= λ p. g p.0 p.1)
  Extends-bind f g hf hg r = Carries-bind (f r) (f (extend more r)) g (hf r) hg

  Extends-ok {ℓ} : {A : Type ℓ} (a : A) → Extends more (λ r. ok (a, r))
  Extends-ok a r = refl

  Extends-fail {ℓ} : (A : Type ℓ) (e : CodecError) → Extends {A = A} more (λ r. fail e)
  Extends-fail A e r = tt

  Extends-if {ℓ} :
      {A : Type ℓ} (test : Bool) (f g : Reader → Result (A × Reader))
      → Extends more f
      → Extends more g
      → Extends more (λ r. if test then f r else g r)
  Extends-if true f g hf hg = hf
  Extends-if false f g hf hg = hg

  first_byte-Carries :
      (p : ℕ) (s : Bytes) → Carries more (first_byte p s) (first_byte p (s ++ more))
  unfolding first_byte
  first_byte-Carries p [] = tt
  first_byte-Carries p (c ∷ s) = refl

  read_byte-Extends : Extends more read_byte
  unfolding read_byte
  read_byte-Extends r = first_byte-Carries r.pos r.rest

  raw-Extends : (n : ℕ) → Extends more (raw n)
  unfolding raw
  raw-Extends n r =
      ground (
        arith,
        length-append r.rest more,
        take-append_le n r.rest more,
        drop-append_le n r.rest more,
      )

  read_uvarint-Extends : Extends more read_uvarint
  unfolding read_uvarint
  read_uvarint-Extends r = elim (Option-cases (uvarint r.rest)) [
    | inl missing ↦ ground arith
    | inr ((v', n), found) ↦
        ground (arith, uvarint-append r.rest more v' n found, drop-append_le n r.rest more)
  ]

  read_varint-Extends : Extends more read_varint
  unfolding read_varint
  read_varint-Extends r = elim (Option-cases (uvarint r.rest)) [
    | inl missing ↦ ground arith
    | inr ((v', n), found) ↦
        ground (arith, uvarint-append r.rest more v' n found, drop-append_le n r.rest more)
  ]

  read_block-Extends : Extends more read_block
  unfolding read_block
  read_block-Extends = Extends-bind read_uvarint raw read_uvarint-Extends raw-Extends

  read_time-Extends :
      Extends more
        (λ r. read_varint r >>= λ p. read_varint p.1 >>= λ q. ok (time p.0 (mul_i64 q.0 60), q.1))
  read_time-Extends =
      Extends-bind read_varint (λ n r. read_varint r >>= λ q. ok (time n (mul_i64 q.0 60), q.1))
        read_varint-Extends
        (λ n.
          Extends-bind read_varint (λ m r. ok (time n (mul_i64 m 60), r)) read_varint-Extends
            (λ m. Extends-ok _))

  read_payload-Extends : (tag : ℕ) → Extends more (read_payload tag)
  unfolding read_payload
  read_payload-Extends tag = Extends-if (tag == 0) _ _ (Extends-ok nil) (
      Extends-if (tag == 1) _ _
        (Extends-bind read_varint (λ n r. ok (int64 n, r)) read_varint-Extends (λ n. Extends-ok _))
        (Extends-if (tag == 2) _ _
          (Extends-bind (raw 8) (λ b r. ok (float64 (uint_le b), r)) (raw-Extends 8)
            (λ b. Extends-ok _))
          (Extends-if (tag == 3) _ _
            (Extends-bind read_byte (λ b r. ok (bool (not (b == 0)), r)) read_byte-Extends
              (λ b. Extends-ok _))
            (Extends-if (tag == 4) _ _
              (Extends-bind read_block (λ b r. ok (string b, r)) read_block-Extends
                (λ b. Extends-ok _))
              (Extends-if (tag == 5) _ _
                (Extends-bind read_block (λ b r. ok (bytes b, r)) read_block-Extends
                  (λ b. Extends-ok _))
                (Extends-if (tag == 6) _ _ read_time-Extends
                  (Extends-fail Cell (unknown_tag tag))))))))

  read_cell-Extends : Extends more read_cell
  unfolding read_cell
  read_cell-Extends = Extends-bind read_byte read_payload read_byte-Extends read_payload-Extends

  read_columns-Extends : (n : ℕ) → Extends more (read_columns n)
  unfolding read_columns
  read_columns-Extends zero = Extends-ok []
  read_columns-Extends (suc n) =
      Extends-bind read_block (λ s r. read_columns n r >>= λ p. ok (s ∷ p.0, p.1))
        read_block-Extends
        (λ s.
          Extends-bind (read_columns n) (λ cs r. ok (s ∷ cs, r)) (read_columns-Extends n)
            (λ cs. Extends-ok _))

  read_row-Extends : (n : ℕ) → Extends more (read_row n)
  unfolding read_row
  read_row-Extends zero = Extends-ok []
  read_row-Extends (suc n) =
      Extends-bind read_cell (λ v r. read_row n r >>= λ p. ok (v ∷ p.0, p.1)) read_cell-Extends
        (λ v.
          Extends-bind (read_row n) (λ vs r. ok (v ∷ vs, r)) (read_row-Extends n)
            (λ vs. Extends-ok _))

  read_rows-Extends : (columns n : ℕ) → Extends more (read_rows columns n)
  unfolding read_rows
  read_rows-Extends columns zero = Extends-ok []
  read_rows-Extends columns (suc n) =
      Extends-bind (read_row columns) (λ row r. read_rows columns n r >>= λ p. ok (row ∷ p.0, p.1))
        (read_row-Extends columns)
        (λ row.
          Extends-bind (read_rows columns n) (λ rows r. ok (row ∷ rows, r))
            (read_rows-Extends columns n) (λ rows. Extends-ok _))

  Extends-after {ℓ κ} :
      {A : Type ℓ} {B : Type κ} (m : Result B) (f : Reader → Result (A × Reader))
      → Extends more f
      → Extends more (λ r. m >>= λ _. f r)
  Extends-after (ok b) f h = h
  Extends-after {A = A} (fail e) f h = Extends-fail A e
  Extends-after panic f h = λ r. refl

  decode_rows : ℕ → List Bytes → Reader → Result (RowData × Reader)
  decode_rows limit columns r = do
    (n_rows, r3) ← read_uvarint r
    _ ← make_slice limit 24 n_rows
    (rows, r4) ← read_rows (length columns) n_rows r3
    ok (record { columns = columns; rows = rows }, r4)

  decode_rows-Extends :
      (limit : ℕ) (columns : List Bytes) → Extends more (decode_rows limit columns)
  unfolding decode_rows
  decode_rows-Extends limit columns =
      Extends-bind read_uvarint
        (λ n r. make_slice limit 24 n >>= λ _. read_rows (length columns) n r >>= λ p.
          ok (record { columns = columns; rows = p.0 }, p.1))
        read_uvarint-Extends
        (λ n. Extends-after (make_slice limit 24 n) _ (
          Extends-bind (read_rows (length columns) n)
            (λ rows r. ok (record { columns = columns; rows = rows }, r))
            (read_rows-Extends (length columns) n) (λ rows. Extends-ok _)))

  decode_body-Extends : (limit : ℕ) → Extends more (decode_body limit)
  unfolding decode_body decode_rows
  decode_body-Extends limit =
      Extends-bind read_uvarint
        (λ n r. make_slice limit 16 n >>= λ _. read_columns n r >>= λ p. decode_rows limit p.0 p.1)
        read_uvarint-Extends
        (λ n. Extends-after (make_slice limit 16 n) _ (
          Extends-bind (read_columns n) (decode_rows limit) (read_columns-Extends n)
            (decode_rows-Extends limit)))

finish_cut :
    (back : Bytes) (m m' : Result (RowData × Reader)) (rd : RowData)
    → Carries back m m'
    → (m' >>= finish) ≡ ok rd
    → 0 < length back
    → (e : CodecError) × ((m >>= finish) ≡ fail e)
unfolding finish
finish_cut back (ok (rd1, r)) m' rd c h p = absurd (ground (arith, length-append r.rest back))
finish_cut back (fail e) m' rd c h p = (e, refl)
finish_cut back panic m' rd c h p = absurd (ground arith)

decode_cut :
    (limit : ℕ) (front back : Bytes) (rd : RowData)
    → decode limit (front ++ back) ≡ ok rd
    → 0 < length back
    → (e : CodecError) × (decode limit front ≡ fail e)
unfolding decode
decode_cut limit (m0 ∷ m1 ∷ v ∷ buf) back rd h p =
    let (header, e0) = if-eq-ok (is_header m0 m1 v) _ invalid_header h in
    let start = reader_at 0 buf in
    rw header (
      finish_cut back (decode_body limit start) (decode_body limit (extend back start)) rd
        (decode_body-Extends back limit start) e0 p)
decode_cut limit [] back rd h p = (invalid_header, refl)
decode_cut limit (m0 ∷ []) back rd h p = (invalid_header, refl)
decode_cut limit (m0 ∷ m1 ∷ []) back rd h p = (invalid_header, refl)

-- Cut anywhere, what Encode wrote is refused with an error: Decode neither panics nor returns
-- a part of the result set.
pub decode_truncated :
    (limit : ℕ) (rd : RowData) (front back : Bytes)
    → Storable limit rd
    → encode rd ≡ ok (front ++ back)
    → length (front ++ back) < 2 ^ 63
    → 0 < length back
    → (e : CodecError) × (decode limit front ≡ fail e)
decode_truncated limit rd front back s e h p =
    decode_cut limit front back (replay rd) (decode-encode limit rd _ s e h) p
