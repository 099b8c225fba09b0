-- ===== src/Tests/Codec.antt =====
-- cache/codec.go on a concrete result set.
use rainbowsquirrel.Base.{
  ℕ, div_i64, ◌^◌, ◌≡◌, refl, arith, true, [], ◌∷◌, ◌++◌, some, length, Bytes, codes, pos, negsuc,
  IsU64,
}
use rainbowsquirrel.Cache.Codec.Types.{
  RowData, nil, int64, bool, string, time, ok, fail, CodecError,
}
use rainbowsquirrel.Cache.Codec.Varint.{
  put_uvarint, put_uvarint_loop, uvarint, zigzag, unzigzag, unzigzag-zigzag, uvarint-put_uvarint,
}
use rainbowsquirrel.Cache.Codec.Write.{
  encode, write_uvarint, write_rows, write_cells, write_cell, write_columns, write_block,
  write_varint,
}
use rainbowsquirrel.Cache.Codec.Read.{decode}
use rainbowsquirrel.Cache.Codec.RoundTrip.{Storable, replay, decode-encode}
use rainbowsquirrel.Cache.Codec.Prefix.{decode_truncated}

abbrev result_set : RowData
result_set = record {
  columns = codes "id" ∷ codes "at" ∷ [];
  rows =
      (int64 (negsuc 4) ∷ time (pos 1000) (pos 3661) ∷ []) ∷ (nil ∷ string (codes "x") ∷ []) ∷ [];
}

abbrev whole_set : RowData
whole_set = record {
  columns = codes "id" ∷ [];
  rows = (int64 (pos 300) ∷ []) ∷ (bool true ∷ []) ∷ [];
}

abbrev whole_bytes : Bytes
whole_bytes = 82 ∷ 83 ∷ 1 ∷ 1 ∷ 2 ∷ 105 ∷ 100 ∷ 2 ∷ 1 ∷ 216 ∷ 4 ∷ 3 ∷ 1 ∷ []

abbrev set_bytes : Bytes
set_bytes =
    82 ∷ 83 ∷ 1 ∷ 2 ∷ 2 ∷ 105 ∷ 100 ∷ 2 ∷ 97 ∷ 116 ∷ 2 ∷ 1 ∷ 9 ∷ 6 ∷ 208 ∷ 15 ∷ 122 ∷ 0 ∷ 4 ∷ 1
    ∷ 120 ∷ []

encode_whole : encode whole_set ≡ ok whole_bytes
unfolding encode write_rows write_cells write_cell write_uvarint put_uvarint put_uvarint_loop
    write_columns write_block write_varint zigzag
encode_whole = refl

encode_set : encode result_set ≡ ok set_bytes
unfolding encode write_rows write_cells write_cell write_uvarint put_uvarint put_uvarint_loop
    write_columns write_block write_varint zigzag div_i64
encode_set = refl

abbrev limit : ℕ
limit = 2 ^ 47

abbrev whole_storable : Storable limit whole_set
whole_storable = record {
  cells = ((omega arith, tt), ((tt, tt), tt));
  room = omega arith;
  columns_fit = omega arith;
  rows_fit = omega arith;
}

abbrev set_storable : Storable limit result_set
set_storable = record {
  cells = ((omega arith, ((omega arith, omega arith), tt)), ((tt, (tt, tt)), tt));
  room = omega arith;
  columns_fit = omega arith;
  rows_fit = omega arith;
}

unzigzag-zigzag_example : (unzigzag (zigzag (negsuc 4)) ≡ negsuc 4) × IsU64 (zigzag (negsuc 4))
unzigzag-zigzag_example = unzigzag-zigzag (negsuc 4) (omega arith)

uvarint-put_uvarint_example :
    uvarint (put_uvarint 300 ++ codes "x") ≡ some (300, length (put_uvarint 300))
uvarint-put_uvarint_example = uvarint-put_uvarint 300 (codes "x") (omega arith)

decode-encode_example : decode limit set_bytes ≡ ok (replay result_set)
decode-encode_example =
    decode-encode limit result_set set_bytes set_storable encode_set (omega arith)

decode_truncated_example : (e : CodecError) × (decode limit (codes "RS") ≡ fail e)
decode_truncated_example =
    decode_truncated limit whole_set (codes "RS")
      (1 ∷ 1 ∷ 2 ∷ 105 ∷ 100 ∷ 2 ∷ 1 ∷ 216 ∷ 4 ∷ 3 ∷ 1 ∷ []) whole_storable encode_whole
      (omega arith) (omega arith)
