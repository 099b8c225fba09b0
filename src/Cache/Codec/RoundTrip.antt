-- ===== src/Cache/Codec/RoundTrip.antt =====
-- cache/codec.go: what Decode makes of the bytes that Encode wrote.
pub mod Cells
pub mod Lists
use rainbowsquirrel.Base.{
  ℕ, ◌+◌, ◌*◌, ◌^◌, ◌≤◌, ◌<◌, ◌≡◌, refl, ap, ◌∙◌, sym, arith, List, [], ◌∷◌, ◌++◌, map, append-nil,
  length, length-append, append_assoc, Bytes, All, if◌then◌else◌, ◌==◌,
}
use rainbowsquirrel.Cache.Codec.Types.{RowData, Result, ok, fail, ◌>>=◌, bind-eq-ok, trailing_bytes}
use rainbowsquirrel.Cache.Codec.Write.{
  write_uvarint, write_rows, write_columns, encode, codec_magic0, codec_magic1, codec_ver,
}
use rainbowsquirrel.Cache.Codec.Read.{reader_at, make_slice, decode_body, decode}
use rainbowsquirrel.Cache.Codec.RoundTrip.Cells.{InRange, replayed, read_uvarint_at}
use rainbowsquirrel.Cache.Codec.RoundTrip.Lists.{read_columns_at, read_rows_at}

-- The result set that a replay shows.
unfoldable pub replay : RowData → RowData
replay rd = record { columns = rd.columns; rows = map (map replayed) rd.rows }

-- The numbers in the cells are of their Go types, and the two lists are no larger than what the
-- runtime allocates at once.
pub record Storable (limit : ℕ) (rd : RowData) : Type 0 where
  pub cells : All (All InRange) rd.rows
  pub room : limit < 2 ^ 63
  pub columns_fit : length rd.columns * 16 ≤ limit
  pub rows_fit : length rd.rows * 24 ≤ limit

-- What Encode writes behind the header.
abbrev pub body : RowData → Bytes → Bytes
body rd rows =
    write_uvarint (length rd.columns)
    ++ (write_columns rd.columns ++ (write_uvarint (length rd.rows) ++ rows))

pub encode-body :
    (rd : RowData) {w : Bytes}
    → encode rd ≡ ok w
    → (rows : Bytes) × (write_rows (length rd.columns) rd.rows ≡ ok rows)
      × (w ≡ codec_magic0 ∷ codec_magic1 ∷ codec_ver ∷ body rd rows)
unfolding encode
encode-body rd h =
    let (rows, hr, e) = bind-eq-ok (write_rows (length rd.columns) rd.rows) _ h in
    (rows, hr, ground arith)

decode_body-body :
    (limit : ℕ) (rd : RowData) (rows more : Bytes)
    → Storable limit rd
    → write_rows (length rd.columns) rd.rows ≡ ok rows
    → length (body rd rows) < 2 ^ 63
    → decode_body limit (reader_at 0 (body rd rows ++ more))
      ≡ ok (replay rd, reader_at (length (body rd rows)) more)
unfolding decode_body make_slice replay
decode_body-body limit rd rows more s hr h =
    let cols = write_uvarint (length rd.columns) in
    let names = write_columns rd.columns in
    let count = write_uvarint (length rd.rows) in
    ground (
      arith,
      append_assoc cols (names ++ (count ++ rows)) more,
      append_assoc names (count ++ rows) more,
      append_assoc count rows more,
      length-append cols (names ++ (count ++ rows)),
      length-append names (count ++ rows),
      length-append count rows,
      read_uvarint_at (length rd.columns) 0 (names ++ ((count ++ rows) ++ more)),
      read_columns_at rd.columns (length cols) ((count ++ rows) ++ more),
      read_uvarint_at (length rd.rows) (length cols + length names) (rows ++ more),
      read_rows_at (length rd.columns) rd.rows rows (length cols + length names + length count) more
          hr s.cells,
    )

decode-encode_more :
    (limit : ℕ) (rd : RowData) (w more : Bytes)
    → Storable limit rd
    → encode rd ≡ ok w
    → length w < 2 ^ 63
    → decode limit (w ++ more)
      ≡ (if length more == 0 then ok (replay rd) else fail (trailing_bytes (length more)))
unfolding decode
decode-encode_more limit rd w more s e h =
    let (rows, hr, whole) = encode-body rd e in
    ground (arith, decode_body-body limit rd rows more s hr)

-- For a result set whose values are of their Go types and that the runtime has room for, Decode
-- of what Encode wrote is that result set, every time's zone cut to whole minutes.
pub decode-encode :
    (limit : ℕ) (rd : RowData) (w : Bytes)
    → Storable limit rd
    → encode rd ≡ ok w
    → length w < 2 ^ 63
    → decode limit w ≡ ok (replay rd)
decode-encode limit rd w s e h = rw append-nil at (decode-encode_more limit rd w [] s e h)

-- The same with bytes behind it is refused, with their number.
pub decode-encode_trailing :
    (limit : ℕ) (rd : RowData) (w more : Bytes)
    → Storable limit rd
    → encode rd ≡ ok w
    → length w < 2 ^ 63
    → 0 < length more
    → decode limit (w ++ more) ≡ fail (trailing_bytes (length more))
decode-encode_trailing limit rd w more s e h p =
    decode-encode_more limit rd w more s e h ∙ ground arith
