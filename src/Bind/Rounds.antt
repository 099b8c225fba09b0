-- ===== src/Bind/Rounds.antt =====
-- bind.go: the rounds of parsePlaceholders' loop.
use rainbowsquirrel.Base.{
  ℕ, zero, suc, ◌+◌, ◌≤◌, ◌≡◌, refl, arith, [], ◌∷◌, length, length-drop, drop, Bytes,
}
use rainbowsquirrel.Bind.Parser.{parse_step, parse_loop, parse_placeholders}

step_count : (i c : ℕ) (s : Bytes) → 1 ≤ (parse_step i c s).1
unfolding parse_step
step_count i c s = ground arith

parse_loop_enough :
    (fuel more i : ℕ) (s : Bytes)
    → length s ≤ fuel
    → length s ≤ more
    → parse_loop fuel i s ≡ parse_loop more i s
unfolding parse_loop
parse_loop_enough fuel more i [] h k = refl
parse_loop_enough zero more i (c ∷ s) h k = absurd (omega arith)
parse_loop_enough (suc fuel) zero i (c ∷ s) h k = absurd (omega arith)
parse_loop_enough (suc fuel) (suc more) i (c ∷ s) h k =
    let n = (parse_step i c s).1 in
    let shorter = length-drop n (c ∷ s) in
    let rest =
      parse_loop_enough fuel more (i + n) (drop n (c ∷ s))
        (omega (arith, step_count i c s, shorter)) (omega (arith, step_count i c s, shorter)) in
    rw rest refl

-- The text that is left after so many rounds of the loop.
unfoldable pub text_left : ℕ → ℕ → Bytes → Bytes
unfolding parse_step
text_left zero i s = s
text_left (suc n) i [] = []
text_left (suc n) i (c ∷ s) =
    let passed = (parse_step i c s).1 in text_left n (i + passed) (drop passed (c ∷ s))

text_left-end : (n i : ℕ) (s : Bytes) → length s ≤ n → text_left n i s ≡ []
unfolding text_left
text_left-end zero i [] h = refl
text_left-end (suc n) i [] h = refl
text_left-end zero i (c ∷ s) h = absurd (omega arith)
text_left-end (suc n) i (c ∷ s) h =
    let passed = (parse_step i c s).1 in
    let shorter = length-drop passed (c ∷ s) in
    text_left-end n (i + passed) (drop passed (c ∷ s)) (omega (arith, step_count i c s, shorter))

-- After as many rounds as the query has bytes no text is left to the loop of parsePlaceholders, and
-- any greater bound on the rounds gives the same placeholders.
pub parse_loop-parse_placeholders :
    (query : Bytes) (fuel : ℕ)
    → length query ≤ fuel
    → (text_left (length query) 0 query ≡ []) × (parse_loop fuel 0 query ≡ parse_placeholders query)
unfolding parse_placeholders
parse_loop-parse_placeholders query fuel h = (
  text_left-end (length query) 0 query (omega arith),
  parse_loop_enough fuel (length query) 0 query h (omega arith),
)
