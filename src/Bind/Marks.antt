-- ===== src/Bind/Marks.antt =====
-- bind.go: a round of parsePlaceholders that finds nothing, before a text in which names are
-- replaced.
use rainbowsquirrel.Base.{
  ℕ, zero, suc, ◌+◌, ◌≡◌, ◌≢◌, inl, inr, refl, sym, ap, subst, ◌∙◌, arith, true, false, Bool-cases,
  List, [], ◌∷◌, ◌++◌, take, drop, Bytes, ◌==◌, ==_iff,
}
use rainbowsquirrel.Bind.Parser.{
  is_ident_char, is_quote, next_is, quoted_span, line_span, block_span, ident_span, Placeholder,
  named_at, parse_step,
}
use rainbowsquirrel.Bind.Spans.{Follows, quoted_span-Follows, line_span-Follows, block_span-Follows}

-- The round at `c` finds nothing and passes `n` bytes, at whatever position.
abbrev pub Skips : ℕ → Bytes → ℕ → Type 0
Skips c s n = (i : ℕ) → parse_step i c s ≡ ([], n)

not_next :
    (b : ℕ) (s t : Bytes) → b ≢ b'?' → next_is b s ≡ false → Follows s t → next_is b t ≡ false
unfolding next_is
not_next b [] t other e h = rw h refl
not_next b (d ∷ s) [] other e h = refl
not_next b (d ∷ s) (f ∷ t) other e (inl same) = rw same e
not_next b (d ∷ s) (f ∷ t) other e (inr (colon, mark)) = elim (Bool-cases (f == b)) [
  | inl equal ↦ absurd (other (sym ((==_iff f b).0 equal) ∙ mark))
  | inr apart ↦ apart
]

not_ident :
    (s t : Bytes) → ident_span s ≡ 0 → next_is b':' s ≡ false → Follows s t → ident_span t ≡ 0
unfolding ident_span next_is
not_ident [] t e colon h = rw h refl
not_ident (d ∷ s) [] e colon h = refl
not_ident (d ∷ s) (f ∷ t) e colon (inl same) = ground arith
not_ident (d ∷ s) (f ∷ t) e colon (inr (is_colon, mark)) = absurd (ground arith)

quote-Skips :
    (c : ℕ) (s t : Bytes)
    → is_quote c ≡ true
    → Follows (drop (quoted_span c s) s) t
    → Skips c (take (quoted_span c s) s ++ t) (suc (quoted_span c s))
unfolding parse_step
quote-Skips c s t quote h i = rw (quote, quoted_span-Follows c s t quote h) refl

-- What a round passes when names behind it are replaced.
abbrev Same : ℕ → Bytes → Type 0
Same c s =
    (k i : ℕ) (t : Bytes)
    → parse_step i c s ≡ ([], suc k)
    → Follows (drop k s) t
    → Skips c (take k s ++ t) (suc k)

-- It is enough to know the count of the round.
count-Same :
    (c : ℕ) (s : Bytes) (n : ℕ)
    → ((i : ℕ) → (parse_step i c s).1 ≡ suc n)
    → ((t : Bytes) → Follows (drop n s) t → Skips c (take n s ++ t) (suc n))
    → Same c s
count-Same c s n count h k i t e =
    let same : n ≡ k = omega (arith, count i, ap (λ (r : List Placeholder × ℕ). r.1) e) in
    subst (λ m. Follows (drop m s) t → Skips c (take m s ++ t) (suc m)) same (h t)

dash-Same : (s : Bytes) → Same b'-' s
unfolding parse_step is_quote next_is
dash-Same [] = count-Same b'-' [] 0 (λ i. refl) (λ t h i. rw h refl)
dash-Same (d ∷ s) = elim (Bool-cases (d == b'-')) [
  | inl two ↦
      count-Same b'-' (d ∷ s) (suc (line_span s)) (λ i. rw two refl)
        (λ t h i. rw (two, line_span-Follows s t h) refl)
  | inr one ↦
      count-Same b'-' (d ∷ s) 0 (λ i. rw one refl)
        (λ t h i. rw (not_next b'-' (d ∷ s) t (omega arith) one h, parse_step) refl)
]

slash-Same : (s : Bytes) → Same b'/' s
unfolding parse_step is_quote next_is
slash-Same [] = count-Same b'/' [] 0 (λ i. refl) (λ t h i. rw h refl)
slash-Same (d ∷ s) = elim (Bool-cases (d == b'*')) [
  | inl two ↦
      count-Same b'/' (d ∷ s) (suc (suc (suc (block_span s)))) (λ i. rw two (omega arith))
        (λ t h i.
          let more : block_span s + 2 ≡ suc (suc (block_span s)) = omega arith in
          rw (two, block_span-Follows s t h, more) refl)
  | inr one ↦
      count-Same b'/' (d ∷ s) 0 (λ i. rw one refl)
        (λ t h i. rw (not_next b'*' (d ∷ s) t (omega arith) one h, parse_step) refl)
]

colon-Same : (s : Bytes) → ident_span s ≡ 0 → Same b':' s
unfolding parse_step is_quote next_is named_at
colon-Same [] none_named =
    count-Same b':' [] 0 (λ i. ap suc none_named) (λ t h i. rw h (unfold ident_span in refl))
colon-Same (d ∷ s) none_named = elim (Bool-cases (d == b':')) [
  | inl two ↦ count-Same b':' (d ∷ s) 1 (λ i. rw two refl) (λ t h i. rw two refl)
  | inr one ↦
      count-Same b':' (d ∷ s) 0 (λ i. rw (one, none_named) refl)
        (λ t h i.
          rw
            (
              not_next b':' (d ∷ s) t (omega arith) one h,
              not_ident (d ∷ s) t none_named one h,
              parse_step,
            )
            refl)
]

named_at_none : (i : ℕ) (s : Bytes) (n : ℕ) → named_at i s n ≡ [] → n ≡ 0
unfolding named_at
named_at_none i s zero e = refl
named_at_none i s (suc n) e = cc

unnamed : (i : ℕ) (s : Bytes) → (parse_step i b':' s).0 ≡ [] → ident_span s ≡ 0
unfolding parse_step is_quote next_is
unnamed i [] e = named_at_none i [] (ident_span []) e
unnamed i (d ∷ s) e = elim (Bool-cases (d == b':')) [
  | inl two ↦
      let is_colon : d ≡ b':' = (==_iff d b':').0 two in
      rw is_colon (unfold ident_span is_ident_char in refl)
  | inr one ↦ named_at_none i (d ∷ s) (ident_span (d ∷ s)) (ground arith)
]

-- A round that finds nothing.
pub step-Same : (c : ℕ) (s : Bytes) (j : ℕ) → (parse_step j c s).0 ≡ [] → Same c s
unfolding parse_step named_at
step-Same c s j empty = elim (Bool-cases (is_quote c)) [
  | inl quote ↦
      count-Same c s (quoted_span c s) (λ i. rw quote refl) (λ t h. quote-Skips c s t quote h)
  | inr plain ↦ elim (Bool-cases (c == b'-')) [
    | inl e ↦
        let is_c : b'-' ≡ c = sym ((==_iff c b'-').0 e) in subst (λ x. Same x s) is_c (dash-Same s)
    | inr not_dash ↦ elim (Bool-cases (c == b'/')) [
      | inl e ↦
          let is_c : b'/' ≡ c = sym ((==_iff c b'/').0 e) in
          subst (λ x. Same x s) is_c (slash-Same s)
      | inr not_slash ↦ elim (Bool-cases (c == b':')) [
        | inl e ↦
            let is_c : c ≡ b':' = (==_iff c b':').0 e in
            subst (λ x. Same x s) (sym is_c)
              (colon-Same s (unnamed j s (subst (λ x. (parse_step j x s).0 ≡ []) is_c empty)))
        | inr not_colon ↦ elim (Bool-cases (c == b'?')) [
          | inl mark ↦ absurd (ground arith)
          | inr plain_byte ↦ count-Same c s 0 (λ i. ground arith) (λ t h i. ground arith)
        ]
      ]
    ]
  ]
]
