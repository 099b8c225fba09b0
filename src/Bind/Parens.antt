-- ===== src/Bind/Parens.antt =====
-- bind.go: the parentheses that bindNamedMany looks for around a group of placeholders.
use rainbowsquirrel.Base.{
  ℕ, zero, suc, ◌+◌, ◌-◌, ◌<◌, ◌≡◌, ◌⊎◌, refl, subst, sym, ap, ◌∙◌, arith, true, false, Bool-cases,
  inl, inr, [], ◌∷◌, Bytes, length, drop, ltb, ◌==◌,
}
use rainbowsquirrel.Bind.Many.{byte_is, scan_left, group_start, span_right, group_end}

-- `start` is where the last opening parenthesis before `pos` stands, or 0 if there is none.
abbrev pub Opens : Bytes → ℕ → ℕ → Type 0
Opens query pos start =
    ((start < pos)
      × (byte_is b'(' query start ≡ true)
      × ((j : ℕ) → start < j → j < pos → byte_is b'(' query j ≡ false))
    ⊎ ((start ≡ 0) × ((j : ℕ) → j < pos → byte_is b'(' query j ≡ false))

-- `end` is behind the first closing parenthesis from `pos` on, or the end if there is none.
abbrev pub Closes : Bytes → ℕ → ℕ → Type 0
Closes query pos end =
    ((i : ℕ) × (end ≡ pos + (i + 1))
      × (byte_is b')' query (pos + i) ≡ true)
      × ((j : ℕ) → j < i → byte_is b')' query (pos + j) ≡ false))
    ⊎ ((end ≡ pos + length (drop pos query)) × ((j : ℕ) → byte_is b')' query (pos + j) ≡ false))

-- What scan_left gives: behind the nearest parenthesis, or the start.
abbrev Scanned : Bytes → ℕ → ℕ → Type 0
Scanned query pos i =
    ((k : ℕ) × (i ≡ suc k)
      × (k < pos)
      × (byte_is b'(' query k ≡ true)
      × ((j : ℕ) → k < j → j < pos → byte_is b'(' query j ≡ false))
    ⊎ ((i ≡ 0) × ((j : ℕ) → j < pos → byte_is b'(' query j ≡ false))

not_there :
    (query : Bytes) (i j : ℕ)
    → byte_is b'(' query i ≡ false
    → (j < i → byte_is b'(' query j ≡ false)
    → j < suc i
    → byte_is b'(' query j ≡ false
not_there query i j here below h = elim (Bool-cases (ltb j i)) [
  | inl less ↦ below (ground arith)
  | inr more ↦ let same : j ≡ i = ground arith in ap (byte_is b'(' query) same ∙ here
]

scan_left-Scanned : (query : Bytes) (pos : ℕ) → Scanned query pos (scan_left query pos)
unfolding scan_left
scan_left-Scanned query zero = inr (refl, λ j h. absurd (omega arith))
scan_left-Scanned query (suc i) = elim (Bool-cases (byte_is b'(' query i)) [
  | inl here ↦ rw here (inl (i, refl, omega arith, here, λ j low high. absurd (omega arith)))
  | inr other ↦ rw other (elim (scan_left-Scanned query i) [
    | inl (k, e, less, at, none) ↦
        inl (k, e, omega arith, at, λ j low high. not_there query i j other (none j low) high)
    | inr (e, none) ↦ inr (e, λ j h. not_there query i j other (none j) h)
  ])
]

group_start_at :
    (query : Bytes) (pos k : ℕ)
    → scan_left query pos ≡ suc k
    → byte_is b'(' query k ≡ true
    → group_start query pos ≡ k
unfolding group_start
group_start_at query pos k e at =
    let back : suc k - 1 ≡ k = omega arith in
    let within : ltb 0 (suc k) ≡ true = ground arith in rw (e, back, at, within) refl

group_start_none : (query : Bytes) (pos : ℕ) → scan_left query pos ≡ 0 → group_start query pos ≡ 0
unfolding group_start
group_start_none query pos e = rw e refl

pub group_start-Opens : (query : Bytes) (pos : ℕ) → Opens query pos (group_start query pos)
group_start-Opens query pos = elim (scan_left-Scanned query pos) [
  | inl (k, e, less, at, none) ↦
      subst (Opens query pos) (sym (group_start_at query pos k e at)) (inl (less, at, none))
  | inr (e, none) ↦ inr (group_start_none query pos e, none)
]

later :
    (c : ℕ) (s : Bytes) (n : ℕ)
    → (c == b')') ≡ false
    → ((k : ℕ) → suc k < n → byte_is b')' s k ≡ false)
    → (j : ℕ) → j < n
    → byte_is b')' (c ∷ s) j ≡ false
unfolding byte_is
later c s n other none zero h = other
later c s n other none (suc k) h = none k h

always :
    (c : ℕ) (s : Bytes)
    → (c == b')') ≡ false
    → ((k : ℕ) → byte_is b')' s k ≡ false)
    → (j : ℕ) → byte_is b')' (c ∷ s) j ≡ false
unfolding byte_is
always c s other none zero = other
always c s other none (suc k) = none k

span_right-Closes :
    (s : Bytes)
    → ((i : ℕ) × (span_right s ≡ i + 1)
        × (byte_is b')' s i ≡ true)
        × ((j : ℕ) → j < i → byte_is b')' s j ≡ false))
      ⊎ ((span_right s ≡ length s) × ((j : ℕ) → byte_is b')' s j ≡ false))
unfolding span_right byte_is
span_right-Closes [] = inr (refl, λ j. refl)
span_right-Closes (c ∷ s) = elim (Bool-cases (c == b')')) [
  | inl here ↦ inl (0, rw here refl, here, λ j h. absurd (omega arith))
  | inr other ↦ elim (span_right-Closes s) [
    | inl (i, e, at, none) ↦ inl (
      suc i,
      rw other (omega (arith, e)),
      at,
      λ j. later c s (suc i) other (λ k h. none k (omega arith)) j,
    )
    | inr (e, none) ↦ inr (rw other (ap suc e), λ j. always c s other none j)
  ]
]

byte_is-drop : (c n : ℕ) (s : Bytes) (j : ℕ) → byte_is c (drop n s) j ≡ byte_is c s (n + j)
unfolding byte_is
byte_is-drop c zero s j = ap (byte_is c s) (omega arith)
byte_is-drop c (suc n) [] j = refl
byte_is-drop c (suc n) (d ∷ s) j =
    let counted : suc n + j ≡ suc (n + j) = omega arith in rw counted (byte_is-drop c n s j)

pub group_end-Closes : (query : Bytes) (end : ℕ) → Closes query end (group_end query end)
unfolding group_end
group_end-Closes query end = elim (span_right-Closes (drop end query)) [
  | inl (i, e, at, none) ↦ inl (
    i,
    ap (λ n. end + n) e,
    sym (byte_is-drop b')' end query i) ∙ at,
    λ j h. sym (byte_is-drop b')' end query j) ∙ none j h,
  )
  | inr (e, none) ↦ inr (ap (λ n. end + n) e, λ j. sym (byte_is-drop b')' end query j) ∙ none j)
]
