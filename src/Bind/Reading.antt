-- ===== src/Bind/Reading.antt =====
-- bind.go: the placeholders that the parser finds in a text that is put together.
use rainbowsquirrel.Base.{
  ℕ, zero, suc, ◌+◌, ◌≤◌, ◌≡◌, refl, ap, subst, arith, List, [], ◌∷◌, ◌++◌, drop, length,
  length-drop, Bytes, if◌then◌else◌,
}
use rainbowsquirrel.Bind.Parser.{
  is_quote, Placeholder, parse_step, parse_loop, is_named, named_places,
}
use rainbowsquirrel.Bind.Named.{question_marks}
use rainbowsquirrel.Bind.Marks.{Skips}

-- The number of positional placeholders.
unfoldable pub positional : List Placeholder → ℕ
positional [] = 0
positional (p ∷ places) = let rest = positional places in if is_named p then rest else suc rest

-- Wherever it stands, the parser finds `n` positional placeholders in the text, and no named ones.
abbrev pub Reads : Bytes → ℕ → Type 0
Reads t n =
    (fuel i : ℕ)
    → length t ≤ fuel
    → (named_places (parse_loop fuel i t) ≡ []) × (positional (parse_loop fuel i t) ≡ n)

pub nil-Reads : Reads [] 0
unfolding parse_loop named_places positional
nil-Reads zero i h = (refl, refl)
nil-Reads (suc fuel) i h = (refl, refl)

pub parse_loop_step :
    (fuel i c : ℕ) (s : Bytes)
    → parse_loop (suc fuel) i (c ∷ s)
      ≡ (parse_step i c s).0
        ++ parse_loop fuel (i + (parse_step i c s).1) (drop (parse_step i c s).1 (c ∷ s))
unfolding parse_loop
parse_loop_step fuel i c s = refl

pub skip-Reads : (c k n : ℕ) (t : Bytes) → Skips c t (suc k) → Reads (drop k t) n → Reads (c ∷ t) n
skip-Reads c k n t skips rest zero i h = absurd (omega arith)
skip-Reads c k n t skips rest (suc fuel) i h =
    rw (parse_loop_step, skips i) (rest fuel (i + suc k) (omega (arith, length-drop k t)))

pub mark-Reads : (n : ℕ) (t : Bytes) → Reads t n → Reads (b'?' ∷ t) (suc n)
unfolding parse_step is_quote named_places positional is_named
mark-Reads n t rest zero i h = absurd (omega arith)
mark-Reads n t rest (suc fuel) i h =
    let (no_names, count) = rest fuel (i + 1) (omega arith) in
    rw parse_loop_step (no_names, ap suc count)

comma-Reads : (n : ℕ) (t : Bytes) → Reads t n → Reads (b',' ∷ t) n
unfolding parse_step is_quote
comma-Reads n t rest = skip-Reads b',' 0 n t (λ i. refl) rest

pub question_marks-Reads : (m n : ℕ) (t : Bytes) → Reads t n → Reads (question_marks m ++ t) (m + n)
unfolding question_marks
question_marks-Reads zero n t rest =
    let same : n ≡ zero + n = omega arith in subst (λ k. Reads t k) same rest
question_marks-Reads (suc zero) n t rest =
    let same : suc n ≡ suc zero + n = omega arith in
    subst (λ k. Reads (b'?' ∷ t) k) same (mark-Reads n t rest)
question_marks-Reads (suc (suc m)) n t rest =
    let same : suc (suc m + n) ≡ suc (suc m) + n = omega arith in
    let more = comma-Reads _ _ (question_marks-Reads (suc m) n t rest) in
    subst (λ k. Reads (b'?' ∷ b',' ∷ (question_marks (suc m) ++ t)) k) same
      (mark-Reads (suc m + n) _ more)
