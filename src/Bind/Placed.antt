-- ===== src/Bind/Placed.antt =====
-- bind.go: where the placeholders stand that parsePlaceholders returns.
use rainbowsquirrel.Base.{
  ℕ, zero, suc, ◌+◌, ◌-◌, ◌≤◌, ◌<◌, ◌≡◌, ◌⊎◌, refl, sym, ap, subst, ◌∙◌, arith, true, ◌||◌, List,
  [], ◌∷◌, ◌++◌, length, take, drop, slice, drop-add, length-drop, Bytes, ◌==◌, ==_iff,
  if◌then◌else◌, Bool-cases, inl, inr, All,
}
use rainbowsquirrel.Bind.Parser.{
  is_ident_char, is_quote, next_is, ident_span, Placeholder, named_at, parse_step, parse_loop,
  parse_placeholders, is_named,
}

-- The text of a placeholder in the query.
unfoldable pub shown : Placeholder → Bytes
shown p = if is_named p then b':' ∷ p.name else b'?' ∷ []

-- From `lo` on the placeholders follow one another with no overlap, inside the query, and each
-- stands over its text, whose name is of identifier characters.
abbrev pub Placed : Bytes → ℕ → List Placeholder → Type 0
Placed query lo [] = Unit
Placed query lo (p ∷ places) =
    (lo ≤ p.pos)
    × (p.pos < p.end)
    × (p.end ≤ length query)
    × (slice query p.pos p.end ≡ shown p)
    × All (λ c. is_ident_char c ≡ true) p.name
    × Placed query p.end places

pub Placed-weaken :
    (query : Bytes) (lo lo' : ℕ) (places : List Placeholder)
    → lo ≤ lo'
    → Placed query lo' places
    → Placed query lo places
Placed-weaken query lo lo' [] h p = tt
Placed-weaken query lo lo' (q ∷ places) h p = (omega arith, p.1, p.2, p.3, p.4, p.5)

ident_span-le : (s : Bytes) → ident_span s ≤ length s
unfolding ident_span
ident_span-le [] = omega arith
ident_span-le (c ∷ s) = ground (arith, ident_span-le s)

ident_span-All : (s : Bytes) → All (λ c. is_ident_char c ≡ true) (take (ident_span s) s)
unfolding ident_span
ident_span-All [] = tt
ident_span-All (c ∷ s) = elim (Bool-cases (is_ident_char c)) [
  | inl ident ↦ rw (ident, take) (ident, ident_span-All s)
  | inr other ↦ rw (other, take) tt
]

-- What a round finds: nothing, the `?` at `i`, or the `:` at `i` with the name behind it.
abbrev pub Found : ℕ → ℕ → Bytes → List Placeholder × ℕ → Type 0
Found i c s r =
    (r.0 ≡ [])
    ⊎ ((c ≡ b'?') × (r.0 ≡ (record { name = []; pos = i; end = i + 1 }) ∷ []) × (r.1 ≡ 1))
    ⊎ ((c ≡ b':')
        × (m : ℕ) × (ident_span s ≡ suc m)
        × (r.0 ≡ (record { name = take (suc m) s; pos = i; end = i + 1 + suc m }) ∷ [])
        × (r.1 ≡ suc (suc m)))

colon-Found :
    (i : ℕ) (s : Bytes) (n : ℕ) → ident_span s ≡ n → Found i b':' s (named_at i s n, suc n)
unfolding named_at
colon-Found i s zero e = inl refl
colon-Found i s (suc m) e = inr (inr (refl, m, e, refl, refl))

pub step-Found : (i c : ℕ) (s : Bytes) → Found i c s (parse_step i c s)
unfolding parse_step
step-Found i c s = elim (Bool-cases (is_quote c || c == b'-' || c == b'/')) [
  | inl opens ↦ let nothing : (parse_step i c s).0 ≡ [] = ground arith in inl nothing
  | inr plain ↦ elim (Bool-cases (c == b':')) [
    | inl colon ↦
        let c_is : c ≡ b':' = (==_iff c b':').0 colon in
        elim (Bool-cases (next_is b':' s)) [
          | inl two ↦ let nothing : (parse_step i c s).0 ≡ [] = ground arith in inl nothing
          | inr one ↦
              let here : parse_step i c s ≡ (named_at i s (ident_span s), suc (ident_span s)) =
                ground arith in
              rw (here, c_is) (colon-Found i s (ident_span s) refl)
        ]
    | inr not_colon ↦ elim (Bool-cases (c == b'?')) [
      | inl mark ↦
          let c_is : c ≡ b'?' = (==_iff c b'?').0 mark in
          let here : parse_step i c s ≡ ((record { name = []; pos = i; end = i + 1 }) ∷ [], 1) =
            ground arith in
          rw (here, c_is) (inr (inl (refl, refl, refl)))
      | inr other ↦ let nothing : (parse_step i c s).0 ≡ [] = ground arith in inl nothing
    ]
  ]
]

parse_loop_step :
    (fuel i c : ℕ) (s : Bytes)
    → parse_loop (suc fuel) i (c ∷ s)
      ≡ (parse_step i c s).0
        ++ parse_loop fuel (i + (parse_step i c s).1) (drop (parse_step i c s).1 (c ∷ s))
unfolding parse_loop
parse_loop_step fuel i c s = refl

shown_question : (i : ℕ) → shown (record { name = []; pos = i; end = i + 1 }) ≡ b'?' ∷ []
unfolding shown is_named
shown_question i = refl

shown_named :
    (i m : ℕ) (s : Bytes)
    → ident_span s ≡ suc m
    → shown (record { name = take (suc m) s; pos = i; end = i + 1 + suc m }) ≡ b':' ∷ take (suc m) s
unfolding shown is_named ident_span
shown_named i m [] e = absurd (omega arith)
shown_named i m (d ∷ s) e = refl

parse_loop-Placed :
    (query : Bytes) (fuel lo i : ℕ) (s : Bytes)
    → drop i query ≡ s
    → lo ≤ i
    → Placed query lo (parse_loop fuel i s)
parse_loop-Placed query fuel lo i [] e h = unfold parse_loop in tt
parse_loop-Placed query zero lo i (c ∷ s) e h = unfold parse_loop in tt
parse_loop-Placed query (suc fuel) lo i (c ∷ s) e h =
    let k = (parse_step i c s).1 in
    let rest =
      parse_loop-Placed query fuel (i + k) (i + k) (drop k (c ∷ s))
        (drop-add i k query ∙ ap (λ r. drop k r) e) (omega arith) in
    let room : length query - i ≡ suc (length s) =
      omega (arith, ap length e, length-drop i query) in
    rw parse_loop_step (elim (step-Found i c s) [
      | inl nothing ↦ rw nothing (Placed-weaken query lo (i + k) _ (omega arith) rest)
      | inr (inl (c_is, out, count)) ↦
          let one : i + 1 - i ≡ 1 = omega arith in
          rw out (
            h,
            omega arith,
            omega arith,
            rw (one, e, c_is) (sym (shown_question i)),
            tt,
            Placed-weaken query (i + 1) (i + k) _ (omega arith) rest,
          )
      | inr (inr (c_is, m, span, out, count)) ↦
          let width : i + 1 + suc m - i ≡ suc (suc m) = omega arith in
          rw out (
            h,
            omega arith,
            omega (arith, ident_span-le s),
            rw (width, e, c_is) (sym (shown_named i m s span)),
            subst (λ n. All (λ b. is_ident_char b ≡ true) (take n s)) span (ident_span-All s),
            Placed-weaken query (i + 1 + suc m) (i + k) _ (omega arith) rest,
          )
    ])

-- The placeholders of a query stand in order and apart, within the query, and each over its own
-- text: a `?`, or a `:` and a name of identifier characters.
pub parse_placeholders-Placed : (query : Bytes) → Placed query 0 (parse_placeholders query)
unfolding parse_placeholders
parse_placeholders-Placed query =
    parse_loop-Placed query (length query) 0 0 query refl (omega arith)
