-- ===== src/Bind/Rewrite.antt =====
-- bind.go: Rebind is the machine's rewriting.
use rainbowsquirrel.Base.{
  ℕ, zero, suc, ◌+◌, ◌-◌, ◌≤◌, ◌≡◌, ◌≢◌, refl, sym, ap, ◌∙◌, arith, false, List, [], ◌∷◌, ◌++◌,
  append_assoc, length, take, drop, slice, drop-add, slice-add, slice_all, length-drop, Bytes, ◌==◌,
  ==_iff, Bool-cases, inl, inr,
}
use rainbowsquirrel.Bind.Parser.{
  is_ident_char, is_quote, ident_span, Placeholder, named_at, parse_step, parse_loop,
  parse_placeholders, is_named,
}
use rainbowsquirrel.Bind.Rebind.{
  PlaceholderStyle, question, dollar, at, marker, rebind_loop, rebind,
}
use rainbowsquirrel.Bind.Lexer.{code, code_mode, next_mode, rewrite}
use rainbowsquirrel.Bind.Passes.{step-Passes}

named_skipped :
    (style : PlaceholderStyle) (query : Bytes) (last n i : ℕ) (s : Bytes) (rest : List Placeholder)
    → rebind_loop style query last n (named_at i s (ident_span s) ++ rest)
      ≡ rebind_loop style query last n rest
unfolding named_at ident_span rebind_loop is_named
named_skipped style query last n i [] rest = refl
named_skipped style query last n i (d ∷ s) rest = elim (Bool-cases (is_ident_char d)) [
  | inl ident ↦ rw (ident, named_at) refl
  | inr alone ↦ rw (alone, named_at) refl
]

-- A round that starts at another byte than `?` finds named placeholders only.
step_named :
    (style : PlaceholderStyle) (query : Bytes) (last n i c : ℕ) (s : Bytes)
    (rest : List Placeholder)
    → (c == b'?') ≡ false
    → rebind_loop style query last n ((parse_step i c s).0 ++ rest)
      ≡ rebind_loop style query last n rest
unfolding parse_step
step_named style query last n i c s rest h =
    ground (arith, named_skipped style query last n i s rest)

step_positional :
    (i : ℕ) (s : Bytes)
    → parse_step i b'?' s ≡ ((record { name = []; pos = i; end = i + 1 }) ∷ [], 1)
unfolding parse_step is_quote
step_positional i s = refl

step_count : (i c : ℕ) (s : Bytes) → 1 ≤ (parse_step i c s).1
unfolding parse_step
step_count i c s = ground arith

rewrite_question :
    (style : PlaceholderStyle) (n : ℕ) (s : Bytes)
    → rewrite style n code (b'?' ∷ s) ≡ marker style (n + 1) ++ rewrite style (n + 1) code s
unfolding rewrite next_mode code_mode is_quote
rewrite_question style n s = refl

slice_self : (query : Bytes) (i : ℕ) → slice query i i ≡ []
slice_self query i = let e : i - i ≡ 0 = omega arith in rw e refl

rebind_loop_put :
    (style : PlaceholderStyle) (query : Bytes) (last n i : ℕ) (rest : List Placeholder)
    → rebind_loop style query last n ((record { name = []; pos = i; end = i + 1 }) ∷ rest)
      ≡ slice query last i ++ (marker style (n + 1) ++ rebind_loop style query (i + 1) (n + 1) rest)
unfolding rebind_loop is_named
rebind_loop_put style query last n i rest = refl

parse_loop_step :
    (fuel i c : ℕ) (s : Bytes)
    → parse_loop (suc fuel) i (c ∷ s)
      ≡ (parse_step i c s).0
        ++ parse_loop fuel (i + (parse_step i c s).1) (drop (parse_step i c s).1 (c ∷ s))
unfolding parse_loop
parse_loop_step fuel i c s = refl

-- From the byte at `i` on: the text copied so far, and the machine on the rest.
rebind_loop-rewrite :
    (style : PlaceholderStyle) (query : Bytes) (fuel last n i : ℕ) (s : Bytes)
    → drop i query ≡ s
    → last ≤ i
    → length s ≤ fuel
    → rebind_loop style query last n (parse_loop fuel i s)
      ≡ slice query last i ++ rewrite style n code s
rebind_loop-rewrite style query fuel last n i [] e le h =
    unfold parse_loop rebind_loop rewrite in
    (sym (slice_all query last i le) ∙ ap (λ r. slice query last i ++ r) e)
rebind_loop-rewrite style query zero last n i (c ∷ s) e le h = absurd (omega arith)
rebind_loop-rewrite style query (suc fuel) last n i (c ∷ s) e le h = elim (Bool-cases (c == b'?')) [
  | inl here ↦
      let c_is : c ≡ b'?' = (==_iff c b'?').0 here in
      let behind : drop (i + 1) query ≡ s = drop-add i 1 query ∙ ap (λ r. drop 1 r) e in
      rw (c_is, parse_loop_step, step_positional, rebind_loop_put, rewrite_question)
        (ap (λ r. slice query last i ++ (marker style (n + 1) ++ r))
          (rebind_loop-rewrite style query fuel (i + 1) (n + 1) (i + 1) s behind (omega arith)
              (omega arith)
            ∙ rw slice_self refl))
  | inr other ↦
      let k = (parse_step i c s).1 in
      let behind : drop (i + k) query ≡ drop k (c ∷ s) =
        drop-add i k query ∙ ap (λ r. drop k r) e in
      rw parse_loop_step (
        step_named style query last n i c s (parse_loop fuel (i + k) (drop k (c ∷ s))) other
        ∙ rebind_loop-rewrite style query fuel last n (i + k) (drop k (c ∷ s)) behind (omega arith)
            (omega (arith, step_count i c s, length-drop k (c ∷ s)))
        ∙ ap (λ r. r ++ rewrite style n code (drop k (c ∷ s)))
            (slice-add query last i k le ∙ ap (λ r. slice query last i ++ take k r) e)
        ∙ append_assoc (slice query last i) (take k (c ∷ s)) (rewrite style n code (drop k (c ∷ s)))
        ∙ ap (λ r. slice query last i ++ r) (sym (step-Passes style n i c s other)))
]

-- For the styles that number, Rebind replaces the `?`s that the machine reads in code, numbered
-- from 1, and copies every other byte.
pub rebind-rewrite :
    (query : Bytes) (style : PlaceholderStyle)
    → style ≢ question
    → rebind query style ≡ rewrite style 0 code query
unfolding rebind parse_placeholders
rebind-rewrite query question h = absurd (h refl)
rebind-rewrite query dollar h =
    rebind_loop-rewrite dollar query (length query) 0 0 0 query refl (omega arith) (omega arith)
rebind-rewrite query at h =
    rebind_loop-rewrite at query (length query) 0 0 0 query refl (omega arith) (omega arith)
