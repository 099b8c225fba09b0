-- ===== src/Bind/Passes.antt =====
-- Each round of parsePlaceholders passes what the machine reads until it is back in code.
use rainbowsquirrel.Base.{
  ℕ, suc, ◌+◌, ◌≡◌, ◌≢◌, refl, ap, arith, true, false, ◌&&◌, [], ◌∷◌, ◌++◌, take, drop, Bytes, ◌==◌,
  ==_iff, Bool-cases, inl, inr,
}
use rainbowsquirrel.Bind.Parser.{
  is_ident_char, is_quote, next_is, quoted_span, line_span, block_span, ident_span, parse_step,
}
use rainbowsquirrel.Bind.Rebind.{PlaceholderStyle}
use rainbowsquirrel.Bind.Lexer.{
  Mode, code, quoted, line, block, name, pair, next_is_ident, code_mode, next_mode, rewrite,
}

module _ (style : PlaceholderStyle) (n : ℕ) where
  -- From mode `m` the next `k` bytes are copied, and the machine is in code behind them.
  abbrev Passes : Mode → ℕ → Bytes → Type 0
  Passes m k s = rewrite style n m s ≡ take k s ++ rewrite style n code (drop k s)

  quoted-Passes : (q : ℕ) (s : Bytes) → Passes (quoted q) (quoted_span q s) s
  unfolding quoted_span rewrite next_mode next_is
  quoted-Passes q [] = refl
  quoted-Passes q (c ∷ []) = refl
  quoted-Passes q (c ∷ d ∷ s) = ground (arith, quoted-Passes q s, quoted-Passes q (d ∷ s))

  line-Passes : (s : Bytes) → Passes line (line_span s) s
  unfolding line_span rewrite next_mode code_mode is_quote next_is
  line-Passes [] = refl
  line-Passes (c ∷ s) = ground (arith, line-Passes s)

  block-Passes : (s : Bytes) → Passes block (block_span s + 2) s
  unfolding block_span rewrite next_mode next_is
  block-Passes [] = refl
  block-Passes (c ∷ []) = refl
  block-Passes (c ∷ d ∷ s) =
      let e : suc (block_span (d ∷ s)) + 2 ≡ suc (block_span (d ∷ s) + 2) = omega arith in
      elim (Bool-cases (c == b'*' && d == b'/')) [
        | inl close ↦ rw close refl
        | inr inside ↦ rw (inside, e) (ap (◌∷◌ c) (block-Passes (d ∷ s)))
      ]

  name-Passes : (s : Bytes) → ident_span s ≢ 0 → Passes name (ident_span s) s
  unfolding ident_span rewrite next_mode next_is_ident
  name-Passes [] h = refl
  name-Passes (c ∷ []) h = ground arith
  name-Passes (c ∷ d ∷ s) h = ground (arith, name-Passes (d ∷ s))

  code_then :
      (c : ℕ) (s : Bytes) (m : Mode) (k : ℕ)
      → (c == b'?') ≡ false
      → code_mode c s ≡ m
      → Passes m k s
      → Passes code (suc k) (c ∷ s)
  unfolding rewrite next_mode
  code_then c s m k h e p = rw (h, e) (ap (◌∷◌ c) p)

  code_pair :
      (c d : ℕ) (s : Bytes) (m : Mode) (k : ℕ)
      → (c == b'?') ≡ false
      → code_mode c (d ∷ s) ≡ pair m
      → Passes m k s
      → Passes code (suc (suc k)) (c ∷ d ∷ s)
  unfolding rewrite next_mode
  code_pair c d s m k h e p = rw (h, e) (ap (λ r. c ∷ d ∷ r) p)

  code_one :
      (c : ℕ) (s : Bytes) → (c == b'?') ≡ false → code_mode c s ≡ code → Passes code 1 (c ∷ s)
  code_one c s h e = code_then c s code 0 h e refl

  -- A byte that is followed by `d2` opens a pair, and stands alone otherwise.
  dash-Passes : (i : ℕ) (s : Bytes) → Passes code (parse_step i b'-' s).1 (b'-' ∷ s)
  unfolding parse_step code_mode is_quote next_is
  dash-Passes i [] = code_one b'-' [] refl refl
  dash-Passes i (d ∷ s) = elim (Bool-cases (d == b'-')) [
    | inl two ↦
        rw (two, parse_step)
          (code_pair b'-' d s line (line_span s) refl (rw two refl) (line-Passes s))
    | inr one ↦ rw (one, parse_step) (code_one b'-' (d ∷ s) refl (rw one refl))
  ]

  slash-Passes : (i : ℕ) (s : Bytes) → Passes code (parse_step i b'/' s).1 (b'/' ∷ s)
  unfolding parse_step code_mode is_quote next_is
  slash-Passes i [] = code_one b'/' [] refl refl
  slash-Passes i (d ∷ s) = elim (Bool-cases (d == b'*')) [
    | inl two ↦
        rw (two, parse_step)
          (code_pair b'/' d s block (block_span s + 2) refl (rw two refl) (block-Passes s))
    | inr one ↦ rw (one, parse_step) (code_one b'/' (d ∷ s) refl (rw one refl))
  ]

  ident_span_none : (d : ℕ) (s : Bytes) → is_ident_char d ≡ false → ident_span (d ∷ s) ≡ 0
  unfolding ident_span
  ident_span_none d s h = rw h

  ident_span_some : (d : ℕ) (s : Bytes) → is_ident_char d ≡ true → ident_span (d ∷ s) ≢ 0
  unfolding ident_span
  ident_span_some d s h = rw h (omega arith)

  colon-Passes : (i : ℕ) (s : Bytes) → Passes code (parse_step i b':' s).1 (b':' ∷ s)
  unfolding parse_step code_mode is_quote next_is next_is_ident
  colon-Passes i [] = unfold ident_span in code_one b':' [] refl refl
  colon-Passes i (d ∷ s) = elim (Bool-cases (d == b':')) [
    | inl two ↦ rw (two, parse_step) (code_pair b':' d s code 0 refl (rw two refl) refl)
    | inr one ↦ elim (Bool-cases (is_ident_char d)) [
      | inl ident ↦
          rw (one, parse_step)
            (code_then b':' (d ∷ s) name (ident_span (d ∷ s)) refl (rw (one, ident) refl)
              (name-Passes (d ∷ s) (ident_span_some d s ident)))
      | inr alone ↦
          rw (one, parse_step, ident_span_none d s alone)
            (code_one b':' (d ∷ s) refl (rw (one, alone) refl))
    ]
  ]

  -- A round that finds no positional placeholder copies what it passes.
  pub step-Passes :
      (i c : ℕ) (s : Bytes) → (c == b'?') ≡ false → Passes code (parse_step i c s).1 (c ∷ s)
  unfolding parse_step code_mode
  step-Passes i c s h = elim (Bool-cases (is_quote c)) [
    | inl quote ↦
        rw (quote, parse_step)
          (code_then c s (quoted c) (quoted_span c s) h (rw quote refl) (quoted-Passes c s))
    | inr plain ↦ elim (Bool-cases (c == b'-')) [
      | inl e ↦ rw ((==_iff c b'-').0 e) (dash-Passes i s)
      | inr not_dash ↦ elim (Bool-cases (c == b'/')) [
        | inl e ↦ rw ((==_iff c b'/').0 e) (slash-Passes i s)
        | inr not_slash ↦ elim (Bool-cases (c == b':')) [
          | inl e ↦ rw ((==_iff c b':').0 e) (colon-Passes i s)
          | inr not_colon ↦
              let count : (parse_step i c s).1 ≡ 1 = ground arith in
              rw count (code_one c s h (ground arith))
        ]
      ]
    ]
  ]
