-- ===== src/Cache/Codec/RoundTrip/Lists.antt =====
-- The readers of rows and columns on what the writers wrote.
use rainbowsquirrel.Base.{
  ℕ, ◌+◌, ◌^◌, ◌<◌, ◌≡◌, arith, List, [], ◌∷◌, ◌++◌, map, length, length-append, append_assoc,
  Bytes, ◌==◌, ==_iff, All,
}
use rainbowsquirrel.Cache.Codec.Types.{Cell, ok, bind-eq-ok, if-eq-ok}
use rainbowsquirrel.Cache.Codec.Write.{
  write_block, write_cell, write_cells, write_rows, write_columns,
}
use rainbowsquirrel.Cache.Codec.Read.{reader_at, read_row, read_columns, read_rows}
use rainbowsquirrel.Cache.Codec.RoundTrip.Cells.{InRange, replayed, read_cell_at, read_block_at}

pub read_columns_at :
    (cs : List Bytes) (p : ℕ) (rest : Bytes)
    → p + length (write_columns cs) < 2 ^ 63
    → read_columns (length cs) (reader_at p (write_columns cs ++ rest))
      ≡ ok (cs, reader_at (p + length (write_columns cs)) rest)
unfolding read_columns write_columns
read_columns_at [] p rest h = ground arith
read_columns_at (c ∷ cs) p rest h = ground (
  arith,
  append_assoc (write_block c) (write_columns cs) rest,
  length-append (write_block c) (write_columns cs),
  read_block_at c p (write_columns cs ++ rest),
  read_columns_at cs (p + length (write_block c)) rest,
)

write_cells-cons :
    (v : Cell) (row : List Cell) {w : Bytes}
    → write_cells (v ∷ row) ≡ ok w
    → (a : Bytes) × (b : Bytes) × (write_cell v ≡ ok a) × (write_cells row ≡ ok b) × (w ≡ a ++ b)
unfolding write_cells
write_cells-cons v row h =
    let (a, ha, e1) = bind-eq-ok (write_cell v) _ h in
    let (b, hb, e2) = bind-eq-ok (write_cells row) _ e1 in (a, b, ha, hb, ground arith)

pub read_row_at :
    (row : List Cell) (w : Bytes) (p : ℕ) (rest : Bytes)
    → write_cells row ≡ ok w
    → All InRange row
    → p + length w < 2 ^ 63
    → read_row (length row) (reader_at p (w ++ rest))
      ≡ ok (map replayed row, reader_at (p + length w) rest)
unfolding read_row
read_row_at [] w p rest e r h = unfold write_cells in ground arith
read_row_at (v ∷ row) w p rest e r h =
    let (a, b, ha, hb, whole) = write_cells-cons v row e in
    ground (
      arith,
      append_assoc a b rest,
      length-append a b,
      read_cell_at v a p (b ++ rest) ha r.0,
      read_row_at row b (p + length a) rest hb r.1,
    )

write_rows-cons :
    (n : ℕ) (row : List Cell) (rows : List (List Cell)) {w : Bytes}
    → write_rows n (row ∷ rows) ≡ ok w
    → (a : Bytes) × (b : Bytes) × (length row ≡ n)
      × (write_cells row ≡ ok a)
      × (write_rows n rows ≡ ok b)
      × (w ≡ a ++ b)
unfolding write_rows
write_rows-cons n row rows h =
    let (test, e0) = if-eq-ok (length row == n) _ _ h in
    let same : length row ≡ n = (==_iff _ _).0 test in
    let (a, ha, e1) = bind-eq-ok (write_cells row) _ e0 in
    let (b, hb, e2) = bind-eq-ok (write_rows n rows) _ e1 in (a, b, same, ha, hb, ground arith)

pub read_rows_at :
    (n : ℕ) (rows : List (List Cell)) (w : Bytes) (p : ℕ) (rest : Bytes)
    → write_rows n rows ≡ ok w
    → All (All InRange) rows
    → p + length w < 2 ^ 63
    → read_rows n (length rows) (reader_at p (w ++ rest))
      ≡ ok (map (map replayed) rows, reader_at (p + length w) rest)
unfolding read_rows
read_rows_at n [] w p rest e r h = unfold write_rows in ground arith
read_rows_at n (row ∷ rows) w p rest e r h =
    let (a, b, same, ha, hb, whole) = write_rows-cons n row rows e in
    ground (
      arith,
      append_assoc a b rest,
      length-append a b,
      read_row_at row a p (b ++ rest) ha r.0,
      read_rows_at n rows b (p + length a) rest hb r.1,
    )
