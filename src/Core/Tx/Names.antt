-- ===== src/Core/Tx/Names.antt =====
-- core.go: the names of savepoints are unique in the process.
use rainbowsquirrel.Base.{
  ℕ, zero, suc, ◌^◌, pos, to_u64, of_u64, ◌+◌, ◌-◌, ◌*◌, ◌/◌, ◌%◌, ◌≤◌, ◌<◌, ◌≡◌, ◌≢◌, sym, ap, ◌∙◌,
  arith, List, [], ◌∷◌, ◌++◌, Option, none, some, Bytes, codes, ltb, Bool-cases, Option-cases, inl,
  inr,
}
use rainbowsquirrel.Bind.Rebind.{decimal_loop, decimal}
use rainbowsquirrel.Core.Errors.{GoError}
use rainbowsquirrel.Core.Tx.{
  Statement, Process, Tx, signed_decimal, next_seq, savepoint_name, ensure_open, send, begin,
  commit, release_rolled_back, rollback,
}

-- What digits are worth, after a number that stands before them.
unfoldable value : ℕ → Bytes → ℕ
value n [] = n
value n (c ∷ text) = value (n * 10 + (c - b'0')) text

value-decimal_loop :
    (fuel n : ℕ) (acc : Bytes) → n < fuel → value 0 (decimal_loop fuel n acc) ≡ value n acc
unfolding decimal_loop value
value-decimal_loop zero n acc h = absurd (omega arith)
value-decimal_loop (suc fuel) n acc h = elim (Bool-cases (ltb n 10)) [
  | inl small ↦ rw small (ap (λ m. value m acc) (omega arith))
  | inr big ↦
      let rest = value-decimal_loop fuel (n / 10) ((b'0' + n % 10) ∷ acc) (ground arith) in
      rw big (rest ∙ ap (λ m. value m acc) (omega arith))
]

decimal_injective : (m n : ℕ) → decimal m ≡ decimal n → m ≡ n
unfolding decimal value
decimal_injective m n h =
    sym (value-decimal_loop (suc m) m [] (omega arith))
    ∙ ap (value 0) h
    ∙ value-decimal_loop (suc n) n [] (omega arith)

drop_both : (pre xs ys : Bytes) → pre ++ xs ≡ pre ++ ys → xs ≡ ys
drop_both [] xs ys h = h
drop_both (p ∷ pre) xs ys h = drop_both pre xs ys (ground arith)

savepoint_name_injective : (m n : ℕ) → savepoint_name (pos m) ≡ savepoint_name (pos n) → m ≡ n
unfolding savepoint_name signed_decimal
savepoint_name_injective m n h =
    decimal_injective m n (drop_both (codes "rainbowsquirrel_sp_") (decimal m) (decimal n) h)

next_seq-pos : (c : ℕ) → c + 1 < 2 ^ 63 → next_seq (pos c) ≡ pos (c + 1)
unfolding next_seq to_u64 of_u64
next_seq-pos c h = ground arith

module _ (answer : List Statement → Statement → Option GoError) where
  -- What happens to the process, with the number of calls of Begin in it: any method of any handle,
  -- and whatever else is sent.
  pub data Step : ℕ → Process → Process → Type 0 where
    by_begin : (tx : Tx) (w : Process) → Step 1 w (begin answer tx w).2
    by_commit : (tx : Tx) (w : Process) → Step 0 w (commit answer tx w).2
    by_rollback : (tx : Tx) (w : Process) → Step 0 w (rollback answer tx w).2
    by_statement : (st : Statement) (w : Process) → Step 0 w (send answer st w).1

  pub data Steps : ℕ → Process → Process → Type 0 where
    done : (w : Process) → Steps 0 w w
    more : {k n : ℕ} {w w' w'' : Process} → Step k w w' → Steps n w' w'' → Steps (k + n) w w''

  begin-closed :
      (tx : Tx) (w : Process) (e : GoError)
      → ensure_open tx ≡ some e
      → (begin answer tx w).2.savepoint_seq ≡ w.savepoint_seq
  unfolding begin
  begin-closed tx w e h = ground arith

  begin-open :
      (tx : Tx) (w : Process)
      → ensure_open tx ≡ none
      → (begin answer tx w).2.savepoint_seq ≡ next_seq w.savepoint_seq
  unfolding begin send
  begin-open tx w h = ground arith

  commit-seq : (tx : Tx) (w : Process) → (commit answer tx w).2.savepoint_seq ≡ w.savepoint_seq
  unfolding commit send
  commit-seq tx w = ground arith

  rollback-seq : (tx : Tx) (w : Process) → (rollback answer tx w).2.savepoint_seq ≡ w.savepoint_seq
  unfolding rollback release_rolled_back send
  rollback-seq tx w = ground arith

  -- The counter has been counted on by `k` at most.
  abbrev Counts : ℕ → ℕ → Process → Type 0
  Counts c k w = (d : ℕ) × (w.savepoint_seq ≡ pos d) × (c ≤ d) × (d ≤ c + k)

  Step-Counts :
      {k : ℕ} {w w' : Process} (c : ℕ)
      → Step k w w'
      → w.savepoint_seq ≡ pos c
      → c + k < 2 ^ 63
      → Counts c k w'
  unfolding send
  Step-Counts c (by_begin tx w) start h = elim (Option-cases (ensure_open tx)) [
    | inr (e, shut) ↦ (c, begin-closed tx w e shut ∙ start, omega arith, omega arith)
    | inl still ↦ (
      c + 1,
      begin-open tx w still ∙ ap next_seq start ∙ next_seq-pos c h,
      omega arith,
      omega arith,
    )
  ]
  Step-Counts c (by_commit tx w) start h = (c, commit-seq tx w ∙ start, omega arith, omega arith)
  Step-Counts c (by_rollback tx w) start h =
      (c, rollback-seq tx w ∙ start, omega arith, omega arith)
  Step-Counts c (by_statement st w) start h = (c, start, omega arith, omega arith)

  Steps-Counts :
      {n : ℕ} {w w' : Process} (c : ℕ)
      → Steps n w w'
      → w.savepoint_seq ≡ pos c
      → c + n < 2 ^ 63
      → Counts c n w'
  Steps-Counts c (done w) start h = (c, start, omega arith, omega arith)
  Steps-Counts c (more s rest) start h =
      let (d, mid, low, high) = Step-Counts c s start (omega arith) in
      let (e, end, low', high') = Steps-Counts d rest mid (omega arith) in
      (e, end, omega arith, omega arith)

  begin-name :
      (tx t : Tx) (w : Process)
      → (begin answer tx w).0 ≡ some t
      → (t.savepoint ≡ savepoint_name (next_seq w.savepoint_seq))
        × ((begin answer tx w).2.savepoint_seq ≡ next_seq w.savepoint_seq)
  unfolding begin send
  begin-name tx t w h = elim (Option-cases (ensure_open tx)) [
    | inr (e, shut) ↦ absurd (ground arith)
    | inl still ↦ ground arith
  ]

  -- Two savepoints that Begin has opened have different names, whatever handles they were opened
  -- on and whatever happened between, as long as the counter that the first began with and the
  -- calls of Begin since then, both of these included, stay below 2^63 together.
  pub begin_fresh :
      (tx t tx' t' : Tx) (c n : ℕ) (w w' : Process)
      → w.savepoint_seq ≡ pos c
      → c + n + 2 < 2 ^ 63
      → (begin answer tx w).0 ≡ some t
      → Steps n (begin answer tx w).2 w'
      → (begin answer tx' w').0 ≡ some t'
      → t.savepoint ≢ t'.savepoint
  begin_fresh tx t tx' t' c n w w' start bound h s h' e =
      let (first, counted) = begin-name tx t w h in
      let (second, _) = begin-name tx' t' w' h' in
      let one = ap next_seq start ∙ next_seq-pos c (omega arith) in
      let (d, there, low, high) = Steps-Counts (c + 1) s (counted ∙ one) (omega arith) in
      let two = ap next_seq there ∙ next_seq-pos d (omega arith) in
      let same =
        savepoint_name_injective (c + 1) (d + 1)
          (ap savepoint_name (sym one) ∙ sym first ∙ e ∙ second ∙ ap savepoint_name two) in
      omega (arith, same)
