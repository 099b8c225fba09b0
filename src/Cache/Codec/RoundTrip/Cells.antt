-- ===== src/Cache/Codec/RoundTrip/Cells.antt =====
-- Each reader on what its writer wrote, with any bytes behind it.
use rainbowsquirrel.Base.{
  ℕ, zero, suc, ◌+◌, ◌/◌, ◌^◌, ◌<◌, ◌≡◌, arith, ◌++◌, length, length-append, take-length,
  drop-length, append_assoc, Bytes, ℤ, pos, negsuc, IsI64, IsU64, mul_i64, div_i64,
}
use native.Mathlib.Nat.{div-add-mod}
use rainbowsquirrel.Cache.Codec.Types.{
  Cell, nil, int64, float64, bool, string, bytes, time, other, ok,
}
use rainbowsquirrel.Cache.Codec.Varint.{put_uvarint, uvarint-put_uvarint, zigzag, unzigzag-zigzag}
use rainbowsquirrel.Cache.Codec.Write.{
  write_uvarint, write_varint, write_block, write_cell, put_uint_le,
}
use rainbowsquirrel.Cache.Codec.Read.{
  reader_at, read_byte, raw, read_uvarint, read_varint, read_block, uint_le, read_payload,
  read_cell,
}

pub read_uvarint_at :
    (v p : ℕ) (rest : Bytes)
    → IsU64 v
    → read_uvarint (reader_at p (write_uvarint v ++ rest))
      ≡ ok (v, reader_at (p + length (write_uvarint v)) rest)
unfolding read_uvarint write_uvarint
read_uvarint_at v p rest h =
    ground (arith, uvarint-put_uvarint v rest h, drop-length (put_uvarint v) rest)

pub read_varint_at :
    (z : ℤ) (p : ℕ) (rest : Bytes)
    → IsI64 z
    → read_varint (reader_at p (write_varint z ++ rest))
      ≡ ok (z, reader_at (p + length (write_varint z)) rest)
unfolding read_varint write_varint
read_varint_at z p rest h = ground (
  arith,
  unzigzag-zigzag z h,
  uvarint-put_uvarint (zigzag z) rest,
  drop-length (put_uvarint (zigzag z)) rest,
)

pub raw_at :
    (s : Bytes) (p : ℕ) (rest : Bytes)
    → p + length s < 2 ^ 63
    → raw (length s) (reader_at p (s ++ rest)) ≡ ok (s, reader_at (p + length s) rest)
unfolding raw
raw_at s p rest h = ground (arith, take-length s rest, drop-length s rest, length-append s rest)

pub read_block_at :
    (s : Bytes) (p : ℕ) (rest : Bytes)
    → p + length (write_block s) < 2 ^ 63
    → read_block (reader_at p (write_block s ++ rest))
      ≡ ok (s, reader_at (p + length (write_block s)) rest)
unfolding read_block write_block
read_block_at s p rest h = ground (
  arith,
  append_assoc (write_uvarint (length s)) s rest,
  length-append (write_uvarint (length s)) s,
  read_uvarint_at (length s) p (s ++ rest),
  raw_at s (p + length (write_uvarint (length s))) rest,
)

pub uint_le-put_uint_le :
    (n v : ℕ) → v < 256 ^ n → (uint_le (put_uint_le n v) ≡ v) × (length (put_uint_le n v) ≡ n)
unfolding uint_le put_uint_le
uint_le-put_uint_le zero v h = omega arith
uint_le-put_uint_le (suc n) v h =
    ground (arith, div-add-mod v 256, uint_le-put_uint_le n (v / 256) (omega arith))

-- The range of the numbers in a cell: an int64, a float64's bits, and a time's two numbers.
abbrev pub InRange : Cell → Type 0
InRange (int64 v) = IsI64 v
InRange (float64 v) = IsU64 v
InRange (time nano offset) = IsI64 nano × IsI64 offset
InRange _ = Unit

-- A time comes back in a zone whose offset is cut to whole minutes.
unfoldable pub replayed : Cell → Cell
replayed (time nano offset) = time nano (mul_i64 (div_i64 offset 60) 60)
replayed (nil) = nil
replayed c = c

div_i64-IsI64 : (z : ℤ) → IsI64 z → IsI64 (div_i64 z 60)
unfolding div_i64
div_i64-IsI64 (pos n) h = ground arith
div_i64-IsI64 (negsuc n) h = ground arith

pub read_cell_at :
    (c : Cell) (w : Bytes) (p : ℕ) (rest : Bytes)
    → write_cell c ≡ ok w
    → InRange c
    → p + length w < 2 ^ 63
    → read_cell (reader_at p (w ++ rest)) ≡ ok (replayed c, reader_at (p + length w) rest)
unfolding write_cell read_cell read_payload read_byte replayed
read_cell_at nil w p rest e r h = ground arith
read_cell_at (int64 v) w p rest e r h = ground (arith, read_varint_at v (p + 1) rest r)
read_cell_at (float64 v) w p rest e r h =
    ground (arith, uint_le-put_uint_le 8 v, raw_at (put_uint_le 8 v) (p + 1) rest)
read_cell_at (bool v) w p rest e r h = ground arith
read_cell_at (string v) w p rest e r h = ground (arith, read_block_at v (p + 1) rest)
read_cell_at (bytes v) w p rest e r h = ground (arith, read_block_at v (p + 1) rest)
read_cell_at (time nano offset) w p rest e r h = ground (
  arith,
  div_i64-IsI64 offset r.1,
  append_assoc (write_varint nano) (write_varint (div_i64 offset 60)) rest,
  length-append (write_varint nano) (write_varint (div_i64 offset 60)),
  read_varint_at nano (p + 1) (write_varint (div_i64 offset 60) ++ rest),
  read_varint_at (div_i64 offset 60) (p + 1 + length (write_varint nano)) rest,
)
read_cell_at (other t) w p rest e r h = cc
