-- ===== src/Bind/Spans.antt =====
-- bind.go: the spans that a round of parsePlaceholders passes, before a text in which names are
-- replaced.
use rainbowsquirrel.Base.{
  ℕ, zero, suc, ◌≡◌, ◌≢◌, ◌⊎◌, inl, inr, refl, sym, ap, subst, ◌∙◌, arith, true, false, ◌&&◌,
  Bool-cases, [], ◌∷◌, ◌++◌, take, drop, Bytes, ◌==◌,
}
use rainbowsquirrel.Bind.Parser.{is_quote, quoted_span, line_span, block_span}

-- `t` may stand in the place of `s`: it ends where `s` does, and starts with the same byte or with
-- the question mark of a name.
abbrev pub Follows : Bytes → Bytes → Type 0
Follows [] t = t ≡ []
Follows (d ∷ s) [] = ⊥
Follows (d ∷ s) (e ∷ t) = (e ≡ d) ⊎ ((d ≡ b':') × (e ≡ b'?'))

pub drop-Follows : (k : ℕ) (s t : Bytes) → Follows (drop k s) t → drop k (take k s ++ t) ≡ t
drop-Follows zero s t h = refl
drop-Follows (suc k) [] t h = rw h refl
drop-Follows (suc k) (c ∷ s) t h = drop-Follows k s t h

-- The byte behind the closing quote is no quote of that kind.
quoted_close :
    (q c d : ℕ) (s t : Bytes)
    → is_quote q ≡ true
    → (c == q) ≡ true
    → (d == q) ≡ false
    → Follows (d ∷ s) t
    → quoted_span q (c ∷ t) ≡ 1
unfolding quoted_span is_quote
quoted_close q c d s [] quote close once h = refl
quoted_close q c d s (e ∷ t) quote close once (inl same) = ground arith
quoted_close q c d s (e ∷ t) quote close once (inr (colon, mark)) = ground arith

quoted_inside :
    (q c : ℕ) (s : Bytes)
    → (c == q) ≡ false
    → s ≢ []
    → quoted_span q (c ∷ s) ≡ suc (quoted_span q s)
unfolding quoted_span
quoted_inside q c [] inside h = absurd (h refl)
quoted_inside q c (d ∷ s) inside h = ground arith

line_close : (c : ℕ) (s t : Bytes) → (c == b'\n') ≡ true → Follows (c ∷ s) t → line_span t ≡ 0
unfolding line_span
line_close c s [] end h = refl
line_close c s (e ∷ t) end (inl same) = ground arith
line_close c s (e ∷ t) end (inr (colon, mark)) = ground arith

quoted_span_some : (q d : ℕ) (s t : Bytes) → take (quoted_span q (d ∷ s)) (d ∷ s) ++ t ≢ []
unfolding quoted_span
quoted_span_some q d [] t e = cc
quoted_span_some q d (f ∷ s) t e = ground arith

pub quoted_span-Follows :
    (q : ℕ) (s t : Bytes)
    → is_quote q ≡ true
    → Follows (drop (quoted_span q s) s) t
    → quoted_span q (take (quoted_span q s) s ++ t) ≡ quoted_span q s
unfolding quoted_span
quoted_span-Follows q [] t quote h = rw h refl
quoted_span-Follows q (c ∷ []) t quote h = rw h refl
quoted_span-Follows q (c ∷ d ∷ s) t quote h = elim (Bool-cases (c == q)) [
  | inl close ↦ elim (Bool-cases (d == q)) [
    | inl twice ↦
        let n : quoted_span q (c ∷ d ∷ s) ≡ suc (suc (quoted_span q s)) = ground arith in
        let rest =
          quoted_span-Follows q s t quote (subst (λ k. Follows (drop k (c ∷ d ∷ s)) t) n h) in
        subst (λ k. quoted_span q (take k (c ∷ d ∷ s) ++ t) ≡ k) (sym n) (ground (arith, rest))
    | inr once ↦
        let n : quoted_span q (c ∷ d ∷ s) ≡ 1 = ground arith in
        subst (λ k. quoted_span q (take k (c ∷ d ∷ s) ++ t) ≡ k) (sym n)
          (quoted_close q c d s t quote close once
            (subst (λ k. Follows (drop k (c ∷ d ∷ s)) t) n h))
  ]
  | inr inside ↦
      let n : quoted_span q (c ∷ d ∷ s) ≡ suc (quoted_span q (d ∷ s)) = ground arith in
      let rest =
        quoted_span-Follows q (d ∷ s) t quote (subst (λ k. Follows (drop k (c ∷ d ∷ s)) t) n h) in
      subst (λ k. quoted_span q (take k (c ∷ d ∷ s) ++ t) ≡ k) (sym n)
        (quoted_inside q c (take (quoted_span q (d ∷ s)) (d ∷ s) ++ t) inside
            (quoted_span_some q d s t)
          ∙ ap suc rest)
]

pub line_span-Follows :
    (s t : Bytes)
    → Follows (drop (line_span s) s) t
    → line_span (take (line_span s) s ++ t) ≡ line_span s
unfolding line_span
line_span-Follows [] t h = rw h refl
line_span-Follows (c ∷ s) t h = elim (Bool-cases (c == b'\n')) [
  | inl end ↦
      let n : line_span (c ∷ s) ≡ 0 = ground arith in
      subst (λ k. line_span (take k (c ∷ s) ++ t) ≡ k) (sym n)
        (line_close c s t end (subst (λ k. Follows (drop k (c ∷ s)) t) n h))
  | inr inside ↦
      let n : line_span (c ∷ s) ≡ suc (line_span s) = ground arith in
      let rest = line_span-Follows s t (subst (λ k. Follows (drop k (c ∷ s)) t) n h) in
      subst (λ k. line_span (take k (c ∷ s) ++ t) ≡ k) (sym n) (ground (arith, rest))
]

pub block_span-Follows :
    (s t : Bytes)
    → Follows (drop (suc (suc (block_span s))) s) t
    → block_span (take (suc (suc (block_span s))) s ++ t) ≡ block_span s
unfolding block_span
block_span-Follows [] t h = rw h refl
block_span-Follows (c ∷ []) t h = rw h refl
block_span-Follows (c ∷ d ∷ s) t h = elim (Bool-cases (c == b'*' && d == b'/')) [
  | inl close ↦ rw close refl
  | inr inside ↦
      let n : block_span (c ∷ d ∷ s) ≡ suc (block_span (d ∷ s)) = ground arith in
      let rest =
        block_span-Follows (d ∷ s) t
          (subst (λ k. Follows (drop (suc (suc k)) (c ∷ d ∷ s)) t) n h) in
      subst (λ k. block_span (take (suc (suc k)) (c ∷ d ∷ s) ++ t) ≡ k) (sym n)
        (ground (arith, inside, rest))
]
