-- ===== src/Cache/Codec/Write.antt =====
-- cache/codec.go: binaryCodec.Encode with writeCell, writeUvarint and writeVarint. A write appends
-- to the buffer, so each function returns the bytes that it writes.
use rainbowsquirrel.Base.{
  ℕ, zero, suc, ◌/◌, ◌%◌, List, [], ◌∷◌, ◌++◌, length, Bytes, ℤ, div_i64, if◌then◌else◌, ◌==◌,
}
use rainbowsquirrel.Cache.Codec.Types.{
  Cell, nil, int64, float64, bool, string, bytes, time, other, RowData, row_width, unsupported_cell,
  Result, ok, fail, ◌>>=◌,
}
use rainbowsquirrel.Cache.Codec.Varint.{put_uvarint, zigzag}

abbrev pub codec_magic0 : ℕ
codec_magic0 = 0x52

abbrev pub codec_magic1 : ℕ
codec_magic1 = 0x53

abbrev pub codec_ver : ℕ
codec_ver = 1

abbrev pub cell_null : ℕ
cell_null = 0x00

abbrev pub cell_int64 : ℕ
cell_int64 = 0x01

abbrev pub cell_float : ℕ
cell_float = 0x02

abbrev pub cell_bool : ℕ
cell_bool = 0x03

abbrev pub cell_str : ℕ
cell_str = 0x04

abbrev pub cell_bytes : ℕ
cell_bytes = 0x05

abbrev pub cell_time : ℕ
cell_time = 0x06

unfoldable pub write_uvarint : ℕ → Bytes
write_uvarint v = put_uvarint v

unfoldable pub write_varint : ℤ → Bytes
write_varint v = put_uvarint (zigzag v)

-- `binary.LittleEndian.PutUint64`, for the given number of bytes.
unfoldable pub put_uint_le : ℕ → ℕ → Bytes
put_uint_le zero v = []
put_uint_le (suc n) v = (v % 256) ∷ put_uint_le n (v / 256)

-- A length and then the bytes.
unfoldable pub write_block : Bytes → Bytes
write_block s = write_uvarint (length s) ++ s

unfoldable pub write_cell : Cell → Result Bytes
write_cell nil = ok (cell_null ∷ [])
write_cell (int64 v) = ok (cell_int64 ∷ write_varint v)
write_cell (float64 v) = ok (cell_float ∷ put_uint_le 8 v)
write_cell (bool v) = ok (cell_bool ∷ (if v then 1 else 0) ∷ [])
write_cell (string v) = ok (cell_str ∷ write_block v)
write_cell (bytes v) = ok (cell_bytes ∷ write_block v)
write_cell (time nano offset) =
    ok (cell_time ∷ (write_varint nano ++ write_varint (div_i64 offset 60)))
write_cell (other t) = fail (unsupported_cell t)

unfoldable pub write_cells : List Cell → Result Bytes
write_cells [] = ok []
write_cells (v ∷ row) = do w ← write_cell v; ws ← write_cells row; ok (w ++ ws)

-- `columns` is `len(rd.Columns)`.
unfoldable pub write_rows : ℕ → List (List Cell) → Result Bytes
write_rows columns [] = ok []
write_rows columns (row ∷ rows) =
    if length row == columns
    then (do w ← write_cells row; ws ← write_rows columns rows; ok (w ++ ws))
    else fail (row_width (length row) columns)

unfoldable pub write_columns : List Bytes → Bytes
write_columns [] = []
write_columns (c ∷ columns) = write_block c ++ write_columns columns

unfoldable pub encode : RowData → Result Bytes
encode rd = do
  rows ← write_rows (length rd.columns) rd.rows
  ok (
      codec_magic0
      ∷ codec_magic1
      ∷ codec_ver
      ∷ (write_uvarint (length rd.columns)
          ++ (write_columns rd.columns ++ (write_uvarint (length rd.rows) ++ rows))))
