-- ===== src/Cache/Codec/Varint.antt =====
-- encoding/binary as cache/codec.go uses it: PutUvarint, Uvarint, PutVarint and Varint.
use rainbowsquirrel.Base.{
  ℕ, zero, suc, ◌+◌, ◌-◌, ◌*◌, ◌/◌, ◌%◌, ◌^◌, ◌<◌, ◌≡◌, refl, ap, arith, ltb, leb, ◌==◌,
  if◌then◌else◌, ◌&&◌, Option, none, some, [], ◌∷◌, ◌++◌, length, Bytes, ℤ, pos, negsuc, IsI64,
  IsU64,
}
use native.Mathlib.Decide.{ℕ_discrete}
use native.Mathlib.Nat.{div-add-mod}
use native.Mathlib.Numerals.{towards_suc}

-- `binary.PutUvarint`; the first argument is the room left in the array of MaxVarintLen64 bytes.
unfoldable pub put_uvarint_loop : ℕ → ℕ → Bytes
put_uvarint_loop zero x = []
put_uvarint_loop (suc room) x =
    let rest = put_uvarint_loop room (x / 128) in
    if leb 128 x then (x % 128 + 128) ∷ rest else x ∷ []

unfoldable pub put_uvarint : ℕ → Bytes
put_uvarint = put_uvarint_loop 10

-- The loop of `binary.Uvarint` at index `i` and shift `s`: the value with the bytes read, or
-- `none` where the count that it returns is not positive. The bits that `|` joins are disjoint.
unfoldable pub uvarint_loop : ℕ → ℕ → ℕ → Bytes → Option (ℕ × ℕ)
uvarint_loop i s x [] = none
uvarint_loop i s x (b ∷ bs) =
    let more = uvarint_loop (i + 1) (s + 7) (x + b % 128 * 2 ^ s % 2 ^ 64) bs in
    if i == 10
    then none
    else if ltb b 128
    then if i == 9 && ltb 1 b then none else some (x + b * 2 ^ s % 2 ^ 64, i + 1)
    else more

unfoldable pub uvarint : Bytes → Option (ℕ × ℕ)
uvarint = uvarint_loop 0 0 0

-- `binary.PutVarint`'s `ux := uint64(x) << 1`, complemented for a negative x; and back.
unfoldable pub zigzag : ℤ → ℕ
zigzag (pos n) = n * 2 % 2 ^ 64
zigzag (negsuc n) = 2 ^ 64 - 1 - (2 ^ 64 - 1 - n % 2 ^ 64) * 2 % 2 ^ 64

unfoldable pub unzigzag : ℕ → ℤ
unzigzag u = if u % 2 == 0 then pos (u / 2) else negsuc (u / 2)

pub unzigzag-zigzag : (z : ℤ) → IsI64 z → (unzigzag (zigzag z) ≡ z) × IsU64 (zigzag z)
unfolding unzigzag zigzag
unzigzag-zigzag (pos n) h = ground arith
unzigzag-zigzag (negsuc n) h = ground arith

-- Seven bits up is a factor of 128, so the low group and what is above it make the number.
low_and_high : (n at : ℕ) → n % 128 * 2 ^ at + n / 128 * 2 ^ (at + 7) ≡ n * 2 ^ at
low_and_high n at =
    let up : 2 ^ (at + 7) ≡ 128 * 2 ^ at = simp towards_suc (omega arith) in
    let whole = ap (λ (k : ℕ). k * 2 ^ at) (div-add-mod n 128) in
    omega (arith, whole, ap (λ (k : ℕ). n / 128 * k) up)

-- At the last index the shift is 63, and what is left is a single bit.
uvarint_loop_last :
    (x w : ℕ) (rest : Bytes)
    → IsU64 (x + w * 2 ^ 63)
    → uvarint_loop 9 63 x (w ∷ rest) ≡ some (x + w * 2 ^ 63, 10)
unfolding uvarint_loop
uvarint_loop_last x w rest fits = ground arith

uvarint_loop_one :
    (i s x w : ℕ) (rest : Bytes)
    → i < 10
    → s ≡ 7 * i
    → w < 128
    → IsU64 (x + w * 2 ^ s)
    → uvarint_loop i s x (w ∷ rest) ≡ some (x + w * 2 ^ s, i + 1)
unfolding uvarint_loop
uvarint_loop_one i s x w rest hi hs hw fits = elim (ℕ_discrete i 9) [
  | yes nine ↦
      let s63 : s ≡ 63 = omega arith in rw (nine, s63) (uvarint_loop_last x w rest (rw s63 at fits))
  | no other ↦ ground arith
]

-- A byte with its top bit set adds the group `g` and goes on.
uvarint_loop_more :
    (i s x g : ℕ) (rest : Bytes)
    → i < 9
    → g < 128
    → IsU64 (x + g * 2 ^ s)
    → uvarint_loop i s x ((g + 128) ∷ rest) ≡ uvarint_loop (i + 1) (s + 7) (x + g * 2 ^ s) rest
unfolding uvarint_loop
uvarint_loop_more i s x g rest hi hg fits = ground arith

-- What is still to be written is below 128 ^ room, and the room and the index make 10.
uvarint_loop-put_uvarint_loop :
    (room i s x w : ℕ) (rest : Bytes)
    → suc room + i ≡ 10
    → s ≡ 7 * i
    → w < 128 ^ suc room
    → IsU64 (x + w * 2 ^ s)
    → uvarint_loop i s x (put_uvarint_loop (suc room) w ++ rest)
      ≡ some (x + w * 2 ^ s, i + length (put_uvarint_loop (suc room) w))
unfolding put_uvarint_loop
uvarint_loop-put_uvarint_loop zero i s x w rest e hs hw fits =
    ground (arith, uvarint_loop_one i s x w rest)
uvarint_loop-put_uvarint_loop (suc room) i s x w rest e hs hw fits = ground (
  arith,
  low_and_high w s,
  uvarint_loop_one i s x w rest,
  uvarint_loop_more i s x (w % 128) (put_uvarint_loop (suc room) (w / 128) ++ rest),
  uvarint_loop-put_uvarint_loop room (i + 1) (s + 7) (x + w % 128 * 2 ^ s) (w / 128) rest,
)

-- `Uvarint` reads back the uint64 that `PutUvarint` wrote, and says how many bytes that took.
pub uvarint-put_uvarint :
    (v : ℕ) (rest : Bytes)
    → IsU64 v
    → uvarint (put_uvarint v ++ rest) ≡ some (v, length (put_uvarint v))
unfolding uvarint put_uvarint
uvarint-put_uvarint v rest h =
    ground (arith, uvarint_loop-put_uvarint_loop 9 0 0 0 v rest refl refl (omega arith))
