-- ===== src/Cache/Codec/Limits.antt =====
-- cache/codec.go: which result sets Encode takes, which come back unchanged, and the stored bytes
-- at which Decode panics.
use rainbowsquirrel.Base.{
  ℕ, zero, suc, ◌+◌, ◌*◌, ◌%◌, ◌^◌, ◌≤◌, ◌<◌, ◌≡◌, ◌↔◌, refl, ◌∙◌, arith, List, [], ◌∷◌, ◌++◌, map,
  length, Bytes, All, All-both, ◌==◌, ==_iff, pos, negsuc, IsU64, mul_i64, div_i64, to_u64, of_u64,
}
use rainbowsquirrel.Cache.Codec.Types.{
  Cell, nil, int64, float64, bool, string, bytes, time, other, RowData, ok, panic, bind-eq-ok,
  if-eq-ok,
}
use rainbowsquirrel.Cache.Codec.Write.{
  write_uvarint, write_cell, write_cells, write_rows, encode, codec_magic0, codec_magic1, codec_ver,
}
use rainbowsquirrel.Cache.Codec.Read.{
  raw, read_block, read_columns, make_slice, decode_body, decode,
}
use rainbowsquirrel.Cache.Codec.RoundTrip.Cells.{InRange, replayed, read_uvarint_at}
use rainbowsquirrel.Cache.Codec.RoundTrip.{body, Storable, replay, decode-encode}

-- The types that writeCell has a case for.
abbrev pub Supported : Cell → Type 0
Supported (other t) = ⊥
Supported _ = Unit

abbrev pub IsRectangular : ℕ → List (List Cell) → Type 0
IsRectangular n = All (λ row. (length row ≡ n) × All Supported row)

write_cell_total : (c : Cell) → Supported c → (w : Bytes) × (write_cell c ≡ ok w)
unfolding write_cell
write_cell_total nil s = (_, refl)
write_cell_total (int64 v) s = (_, refl)
write_cell_total (float64 v) s = (_, refl)
write_cell_total (bool v) s = (_, refl)
write_cell_total (string v) s = (_, refl)
write_cell_total (bytes v) s = (_, refl)
write_cell_total (time n o) s = (_, refl)
write_cell_total (other t) s = absurd s

write_cell-Supported : (c : Cell) (w : Bytes) → write_cell c ≡ ok w → Supported c
unfolding write_cell
write_cell-Supported (other t) w h = cc
write_cell-Supported nil w h = tt
write_cell-Supported _ w h = tt

write_cells_total : (row : List Cell) → All Supported row → (w : Bytes) × (write_cells row ≡ ok w)
unfolding write_cells
write_cells_total [] s = ([], refl)
write_cells_total (c ∷ row) s =
    let (a, ha) = write_cell_total c s.0 in
    let (b, hb) = write_cells_total row s.1 in (a ++ b, ground arith)

write_cells-Supported : (row : List Cell) (w : Bytes) → write_cells row ≡ ok w → All Supported row
unfolding write_cells
write_cells-Supported [] w h = tt
write_cells-Supported (c ∷ row) w h =
    let (a, ha, e1) = bind-eq-ok (write_cell c) _ h in
    let (b, hb, e2) = bind-eq-ok (write_cells row) _ e1 in
    (write_cell-Supported c a ha, write_cells-Supported row b hb)

write_rows_total :
    (n : ℕ) (rows : List (List Cell))
    → IsRectangular n rows
    → (w : Bytes) × (write_rows n rows ≡ ok w)
unfolding write_rows
write_rows_total n [] s = ([], refl)
write_rows_total n (row ∷ rows) s =
    let (a, ha) = write_cells_total row s.0.1 in
    let (b, hb) = write_rows_total n rows s.1 in let width = s.0.0 in (a ++ b, ground arith)

write_rows-IsRectangular :
    (n : ℕ) (rows : List (List Cell)) (w : Bytes) → write_rows n rows ≡ ok w → IsRectangular n rows
unfolding write_rows
write_rows-IsRectangular n [] w h = tt
write_rows-IsRectangular n (row ∷ rows) w h =
    let (test, e0) = if-eq-ok (length row == n) _ _ h in
    let (a, ha, e1) = bind-eq-ok (write_cells row) _ e0 in
    let (b, hb, e2) = bind-eq-ok (write_rows n rows) _ e1 in
    (((==_iff _ _).0 test, write_cells-Supported row a ha), write_rows-IsRectangular n rows b hb)

-- Encode succeeds exactly when every row has a cell for each column and every cell is of a
-- supported type.
pub encode-eq-ok_iff :
    (rd : RowData) → ((w : Bytes) × (encode rd ≡ ok w)) ↔ IsRectangular (length rd.columns) rd.rows
unfolding encode
encode-eq-ok_iff rd = (
  λ h.
      let (w, e) = h in
      let (rows, hr, e1) = bind-eq-ok (write_rows (length rd.columns) rd.rows) _ e in
      write_rows-IsRectangular (length rd.columns) rd.rows rows hr,
  λ s.
      let (rows, hr) = write_rows_total (length rd.columns) rd.rows s in
      (codec_magic0 ∷ codec_magic1 ∷ codec_ver ∷ body rd rows, rw hr),
)

-- A zone offset, in seconds, of whole minutes.
abbrev pub WholeMinutes : Cell → Type 0
WholeMinutes (time nano (pos n)) = n % 60 ≡ 0
WholeMinutes (time nano (negsuc n)) = suc n % 60 ≡ 0
WholeMinutes _ = Unit

replayed_same : (c : Cell) → InRange c → WholeMinutes c → replayed c ≡ c
unfolding replayed mul_i64 div_i64 to_u64 of_u64
replayed_same (time nano (pos n)) r m = ground arith
replayed_same (time nano (negsuc n)) r m = ground arith
replayed_same nil r m = refl
replayed_same _ r m = refl

map_same {ℓ κ} :
    {A : Type ℓ} (P : A → Type κ) (f : A → A) (xs : List A)
    → ((x : A) → P x → f x ≡ x)
    → All P xs
    → map f xs ≡ xs
map_same P f [] same h = refl
map_same P f (x ∷ xs) same h = cc (same x h.0, map_same P f xs same h.1)

-- A result set whose zone offsets are whole minutes comes back from the store unchanged.
pub decode-encode_same :
    (limit : ℕ) (rd : RowData) (w : Bytes)
    → Storable limit rd
    → All (All WholeMinutes) rd.rows
    → encode rd ≡ ok w
    → length w < 2 ^ 63
    → decode limit w ≡ ok rd
unfolding replay
decode-encode_same limit rd w s m e h =
    let row_same : (row : List Cell)
        → All InRange row × All WholeMinutes row
        → map replayed row ≡ row =
      λ row both.
        map_same (λ c. InRange c × WholeMinutes c) replayed row (λ c p. replayed_same c p.0 p.1)
          (All-both InRange WholeMinutes row both.0 both.1) in
    let rows_same : map (map replayed) rd.rows ≡ rd.rows =
      map_same (λ row. All InRange row × All WholeMinutes row) (map replayed) rd.rows row_same
        (All-both (All InRange) (All WholeMinutes) rd.rows s.cells m) in
    decode-encode limit rd w s e h ∙ ground arith

-- Behind a good header, a count of columns that needs more than the runtime allocates is a panic,
-- whatever follows.
pub decode_panic_count :
    (limit n : ℕ) (rest : Bytes)
    → IsU64 n
    → limit < n * 16
    → decode limit (codec_magic0 ∷ codec_magic1 ∷ codec_ver ∷ (write_uvarint n ++ rest)) ≡ panic
unfolding decode decode_body make_slice
decode_panic_count limit n rest h big = ground (arith, read_uvarint_at n 0 rest h)

-- So is a column name whose length is an int that the position cannot be added to.
pub decode_panic_length :
    (limit l n : ℕ) (rest : Bytes)
    → IsU64 n
    → 0 < n
    → n * 16 ≤ limit
    → l < 2 ^ 63
    → 2 ^ 63 ≤ length (write_uvarint n) + length (write_uvarint l) + l
    → decode limit
        (codec_magic0 ∷ codec_magic1 ∷ codec_ver ∷ (write_uvarint n ++ (write_uvarint l ++ rest)))
      ≡ panic
unfolding decode decode_body make_slice read_columns read_block raw
decode_panic_length limit l zero rest h p fits small big = absurd (omega arith)
decode_panic_length limit l (suc n) rest h p fits small big = ground (
  arith,
  read_uvarint_at (suc n) 0 (write_uvarint l ++ rest) h,
  read_uvarint_at l (length (write_uvarint (suc n))) rest,
)
