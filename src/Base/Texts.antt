-- ===== src/Base/Texts.antt =====
-- Go's strings and byte slices as lists of numbers, with equality and prefixes.
use Prim.Native.Nat.{ℕ}
use Prim.Native.Char.{code}
use Prim.Native.String.{String}
use mathlib.Core.Path.{◌≡◌, refl}
use mathlib.Core.Logic.{◌↔◌}
use mathlib.Core.Bool.{Bool, true, false, ◌&&◌}
use mathlib.Core.List.{List, [], ◌∷◌, ◌++◌}
use native.Mathlib.Omega.{arith}
use rainbowsquirrel.Base.Tests.{◌==◌}

abbrev pub Bytes : Type 0
Bytes = List ℕ

-- A string literal's bytes (the program's literals are ASCII).
abbrev pub codes : String → Bytes
codes String.[] = []
codes (String.◌∷◌ c s) = code c ∷ codes s

-- `a == b` on strings.
unfoldable pub equal : Bytes → Bytes → Bool
equal [] [] = true
equal (x ∷ xs) (y ∷ ys) = x == y && equal xs ys
equal _ _ = false

pub equal_iff : (a b : Bytes) → (equal a b ≡ true) ↔ (a ≡ b)
unfolding equal
equal_iff [] [] = ground arith
equal_iff [] (y ∷ ys) = ground arith
equal_iff (x ∷ xs) [] = ground arith
equal_iff (x ∷ xs) (y ∷ ys) = ground (arith, equal_iff xs ys)

pub equal_refl : (a : Bytes) → equal a a ≡ true
equal_refl a = (equal_iff a a).1 refl

-- `strings.HasPrefix(s, prefix)`
unfoldable pub has_prefix : Bytes → Bytes → Bool
has_prefix s [] = true
has_prefix [] (p ∷ ps) = false
has_prefix (c ∷ s) (p ∷ ps) = c == p && has_prefix s ps

pub has_prefix_iff : (s p : Bytes) → (has_prefix s p ≡ true) ↔ ((rest : Bytes) × (s ≡ p ++ rest))
unfolding has_prefix
has_prefix_iff s [] = (λ _. (s, refl), λ _. refl)
has_prefix_iff [] (p ∷ ps) = (λ h. cc, λ h. let (r, e) = h in cc)
has_prefix_iff (c ∷ s) (p ∷ ps) =
    let ih = has_prefix_iff s ps in
    (
      λ h. let (r, e) = ih.0 (ground arith) in let same : c ≡ p = ground arith in (r, rw (same, e)),
      λ h.
          let (r, e) = h in
          let tails : (rest : Bytes) × (s ≡ ps ++ rest) = (r, ground arith) in
          ground (arith, ih.1 tails),
    )

pub equal_sym : (a b : Bytes) → equal a b ≡ equal b a
unfolding equal
equal_sym [] [] = refl
equal_sym [] (y ∷ ys) = refl
equal_sym (x ∷ xs) [] = refl
equal_sym (x ∷ xs) (y ∷ ys) = ground (arith, equal_sym xs ys)
