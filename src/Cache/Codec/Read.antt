-- ===== src/Cache/Codec/Read.antt =====
-- cache/codec.go: the reader, readCell and binaryCodec.Decode.
use rainbowsquirrel.Base.{
  ℕ, zero, suc, ◌+◌, ◌*◌, ◌^◌, Bool, not, ◌&&◌, List, [], ◌∷◌, length, take, drop, Bytes, ℤ,
  mul_i64, if◌then◌else◌, ◌==◌, ltb, leb, none, some,
}
use rainbowsquirrel.Cache.Codec.Types.{
  Cell, nil, int64, float64, bool, string, bytes, time, RowData, invalid_header, unexpected_eof,
  bad_uvarint, bad_varint, unknown_tag, trailing_bytes, Result, ok, fail, panic, ◌>>=◌,
}
use rainbowsquirrel.Cache.Codec.Varint.{uvarint, unzigzag}
use rainbowsquirrel.Cache.Codec.Write.{
  codec_magic0, codec_magic1, codec_ver, cell_null, cell_int64, cell_float, cell_bool, cell_str,
  cell_bytes, cell_time,
}

-- `rest` is `buf[pos:]`, so `len(buf)` is `pos + length rest`.
pub record Reader : Type 0 where
  pub pos : ℕ
  pub rest : Bytes

abbrev pub reader_at : ℕ → Bytes → Reader
reader_at p s = record { pos = p; rest = s }

abbrev pub advance : ℕ → Reader → Reader
advance n r = reader_at (r.pos + n) (drop n r.rest)

abbrev pub remaining : Reader → ℕ
remaining r = length r.rest

unfoldable pub first_byte : ℕ → Bytes → Result (ℕ × Reader)
first_byte p [] = fail unexpected_eof
first_byte p (b ∷ s) = ok (b, reader_at (p + 1) s)

unfoldable pub read_byte : Reader → Result (ℕ × Reader)
unfolding first_byte
read_byte r = first_byte r.pos r.rest

-- `r.raw(int(n))` for a uint64 `n`. From 2^63 on `int(n)` is negative. Where `r.pos+n` passes the
-- largest int the sum wraps to a negative number, which the test lets through and the slice
-- expression does not.
unfoldable pub raw : ℕ → Reader → Result (Bytes × Reader)
raw n r =
    if leb (2 ^ 63) n
    then fail unexpected_eof
    else if leb (2 ^ 63) (r.pos + n)
    then panic
    else if ltb (length r.rest) n
    then fail unexpected_eof
    else ok (take n r.rest, advance n r)

unfoldable pub read_uvarint : Reader → Result (ℕ × Reader)
read_uvarint r = elim (uvarint r.rest) [
  | none ↦ fail bad_uvarint
  | some (v, n) ↦ ok (v, advance n r)
]

unfoldable pub read_varint : Reader → Result (ℤ × Reader)
read_varint r = elim (uvarint r.rest) [
  | none ↦ fail bad_varint
  | some (v, n) ↦ ok (unzigzag v, advance n r)
]

-- A length and then the bytes.
unfoldable pub read_block : Reader → Result (Bytes × Reader)
read_block r = do (l, r') ← read_uvarint r; raw l r'

-- `binary.LittleEndian.Uint64`
unfoldable pub uint_le : Bytes → ℕ
uint_le [] = 0
uint_le (b ∷ s) = b + 256 * uint_le s

-- The branch of `readCell` for a tag.
unfoldable pub read_payload : ℕ → Reader → Result (Cell × Reader)
read_payload tag r =
    if tag == cell_null
    then ok (nil, r)
    else if tag == cell_int64
    then (do (n, r') ← read_varint r; ok (int64 n, r'))
    else if tag == cell_float
    then (do (b, r') ← raw 8 r; ok (float64 (uint_le b), r'))
    else if tag == cell_bool
    then (do (b, r') ← read_byte r; ok (bool (not (b == 0)), r'))
    else if tag == cell_str
    then (do (b, r') ← read_block r; ok (string b, r'))
    else if tag == cell_bytes
    then (do (b, r') ← read_block r; ok (bytes b, r'))
    else if tag == cell_time
    then (do
      (nano, r') ← read_varint r
      (off_min, r'') ← read_varint r'
      ok (time nano (mul_i64 off_min 60), r''))
    else fail (unknown_tag tag)

unfoldable pub read_cell : Reader → Result (Cell × Reader)
read_cell r = do (tag, r') ← read_byte r; read_payload tag r'

unfoldable pub read_columns : ℕ → Reader → Result (List Bytes × Reader)
read_columns zero r = ok ([], r)
read_columns (suc n) r = do
  (s, r') ← read_block r
  (columns, r'') ← read_columns n r'
  ok (s ∷ columns, r'')

unfoldable pub read_row : ℕ → Reader → Result (List Cell × Reader)
read_row zero r = ok ([], r)
read_row (suc n) r = do (v, r') ← read_cell r; (row, r'') ← read_row n r'; ok (v ∷ row, r'')

unfoldable pub read_rows : ℕ → ℕ → Reader → Result (List (List Cell) × Reader)
read_rows columns zero r = ok ([], r)
read_rows columns (suc n) r = do
  (row, r') ← read_row columns r
  (rows, r'') ← read_rows columns n r'
  ok (row ∷ rows, r'')

-- `make` with a capacity of `n` elements of `size` bytes, where the runtime gives out at most
-- `limit` bytes: more than that is a panic.
unfoldable pub make_slice : ℕ → ℕ → ℕ → Result (Unit {0})
make_slice limit size n = if ltb limit (n * size) then panic else ok tt

-- Behind the header. A string takes 16 bytes and a slice 24.
unfoldable pub decode_body : ℕ → Reader → Result (RowData × Reader)
decode_body limit r = do
  (n_cols, r1) ← read_uvarint r
  _ ← make_slice limit 16 n_cols
  (columns, r2) ← read_columns n_cols r1
  (n_rows, r3) ← read_uvarint r2
  _ ← make_slice limit 24 n_rows
  (rows, r4) ← read_rows (length columns) n_rows r3
  ok (record { columns = columns; rows = rows }, r4)

abbrev pub is_header : ℕ → ℕ → ℕ → Bool
is_header m0 m1 v = m0 == codec_magic0 && m1 == codec_magic1 && v == codec_ver

-- Decode's last test, on what was read and the reader behind it.
unfoldable pub finish : RowData × Reader → Result RowData
finish (rd, r) = if remaining r == 0 then ok rd else fail (trailing_bytes (remaining r))

unfoldable pub decode : ℕ → Bytes → Result RowData
unfolding finish
decode limit (m0 ∷ m1 ∷ v ∷ buf) =
    if is_header m0 m1 v
    then decode_body limit (reader_at 0 buf) >>= finish
    else fail invalid_header
decode limit _ = fail invalid_header
