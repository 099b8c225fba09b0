-- ===== src/Bind/Counted.antt =====
-- bind.go: the text of bindNamed, read by the parser again.
use rainbowsquirrel.Base.{
  ℕ, zero, suc, ◌+◌, ◌-◌, ◌≤◌, ◌≡◌, ◌≢◌, inl, inr, refl, sym, ap, subst, ◌∙◌, arith, Bool, true,
  List, [], ◌∷◌, ◌++◌, append_assoc, take, drop, drop-add, slice, slice-add, slice_all, length,
  length-append, length-drop, Bytes, All, All-map, ℤ,
}
use rainbowsquirrel.Core.Outcome.{Outcome, ok}
use rainbowsquirrel.Core.Settings.{Settings}
use rainbowsquirrel.Meta.Values.{Value}
use rainbowsquirrel.Bind.Parser.{
  ident_span, Placeholder, parse_step, parse_loop, parse_placeholders, is_named, named_places,
}
use rainbowsquirrel.Bind.Placed.{step-Found}
use rainbowsquirrel.Bind.Named.{question_marks, Bound, bind_named}
use rainbowsquirrel.Bind.Groups.{bind_named-IsGrouped}
use rainbowsquirrel.Bind.Stands.{concat, put_groups, IsSized}
use rainbowsquirrel.Bind.Spans.{Follows, drop-Follows}
use rainbowsquirrel.Bind.Marks.{step-Same}
use rainbowsquirrel.Bind.Reading.{
  positional, Reads, nil-Reads, parse_loop_step, skip-Reads, mark-Reads, question_marks-Reads,
}

-- What stands in the text from a round of the parser on.
abbrev Counted : Bytes → ℕ → ℕ → Bytes → List Placeholder → List (List Value) → Type 0
Counted query last i s places groups =
    (t : Bytes) × (put_groups query last (named_places places) groups ≡ slice query last i ++ t)
    × Follows s t
    × Reads t (positional places + length (concat groups))

end-Counted :
    (query : Bytes) (last i : ℕ) → drop i query ≡ [] → last ≤ i → Counted query last i [] [] []
unfolding put_groups named_places positional
end-Counted query last i e le =
    ([], sym (slice_all query last i le) ∙ ap (λ r. slice query last i ++ r) e, refl, nil-Reads)

-- A round that finds nothing.
skip-Counted :
    (query : Bytes) (last i c k : ℕ) (s : Bytes) (places : List Placeholder)
    (groups : List (List Value))
    → drop i query ≡ c ∷ s
    → last ≤ i
    → parse_step i c s ≡ ([], suc k)
    → Counted query last (i + suc k) (drop k s) places groups
    → Counted query last i (c ∷ s) places groups
skip-Counted query last i c k s places groups e le step (t, text, follows, reads) =
    let skips = step-Same c s i (ap (λ (r : List Placeholder × ℕ). r.0) step) k i t step follows in
    (
      c ∷ (take k s ++ t),
      text
          ∙ ap (λ r. r ++ t)
              (slice-add query last i (suc k) le ∙ ap (λ r. slice query last i ++ take (suc k) r) e)
          ∙ append_assoc (slice query last i) (c ∷ take k s) t,
      inl refl,
      skip-Reads c k _ (take k s ++ t) skips (rw (drop-Follows k s t follows) reads),
    )

mark-Counted :
    (query : Bytes) (last i : ℕ) (s : Bytes) (places : List Placeholder)
    (groups : List (List Value))
    → drop i query ≡ b'?' ∷ s
    → last ≤ i
    → Counted query last (i + 1) s places groups
    → Counted query last i (b'?' ∷ s) (record { name = []; pos = i; end = i + 1 } ∷ places) groups
unfolding named_places positional is_named
mark-Counted query last i s places groups e le (t, text, follows, reads) = (
  b'?' ∷ t,
  text
      ∙ ap (λ r. r ++ t) (slice-add query last i 1 le ∙ ap (λ r. slice query last i ++ take 1 r) e)
      ∙ append_assoc (slice query last i) (b'?' ∷ []) t,
  inl refl,
  subst (λ n. Reads (b'?' ∷ t) n) (omega arith) (mark-Reads _ t reads),
)

question_marks-Follows : (m : ℕ) (s t : Bytes) → 1 ≤ m → Follows (b':' ∷ s) (question_marks m ++ t)
unfolding question_marks
question_marks-Follows zero s t h = absurd (omega arith)
question_marks-Follows (suc zero) s t h = inr (refl, refl)
question_marks-Follows (suc (suc m)) s t h = inr (refl, refl)

name-Counted :
    (query : Bytes) (last i : ℕ) (s rest : Bytes) (p : Placeholder) (places : List Placeholder)
    (g : List Value) (groups : List (List Value))
    → is_named p ≡ true
    → p.pos ≡ i
    → 1 ≤ length g
    → Counted query p.end p.end rest places groups
    → Counted query last i (b':' ∷ s) (p ∷ places) (g ∷ groups)
unfolding named_places positional put_groups
name-Counted query last i s rest p places g groups named at_i some_args (t, text, follows, reads) =
    let nothing : p.end - p.end ≡ 0 = omega arith in
    let rest_text : put_groups query p.end (named_places places) groups ≡ t =
      text ∙ rw nothing refl in
    let opened : put_groups query last (named_places (p ∷ places)) (g ∷ groups)
        ≡ slice query last p.pos
          ++ (question_marks (length g) ++ put_groups query p.end (named_places places) groups) =
      rw named refl in
    let same_count : positional places ≡ positional (p ∷ places) = rw named refl in
    let count : length g + (positional places + length (concat groups))
        ≡ positional places + length (g ++ concat groups) =
      omega (arith, length-append g (concat groups)) in
    (
      question_marks (length g) ++ t,
      opened ∙ rw (at_i, rest_text) refl,
      question_marks-Follows (length g) s t some_args,
      subst (λ n. Reads (question_marks (length g) ++ t) n)
          (count ∙ ap (λ n. n + length (g ++ concat groups)) same_count)
          (question_marks-Reads (length g) _ t reads),
    )

named_some :
    (i n : ℕ) (s : Bytes)
    → ident_span s ≡ suc n
    → is_named (record { name = take (suc n) s; pos = i; end = i + 1 + suc n }) ≡ true
unfolding ident_span is_named
named_some i n [] e = absurd (omega arith)
named_some i n (d ∷ s) e = refl

step_count : (i c : ℕ) (s : Bytes) → 1 ≤ (parse_step i c s).1
unfolding parse_step
step_count i c s = ground arith

-- The first group belongs to the name.
first-Counted :
    (query : Bytes) (last i : ℕ) (s rest : Bytes) (p : Placeholder) (places : List Placeholder)
    (groups : List (List Value))
    → is_named p ≡ true
    → p.pos ≡ i
    → length groups ≡ length (named_places (p ∷ places))
    → All (λ g. 1 ≤ length g) groups
    → ((others : List (List Value))
        → length others ≡ length (named_places places)
        → All (λ g. 1 ≤ length g) others
        → Counted query p.end p.end rest places others)
    → Counted query last i (b':' ∷ s) (p ∷ places) groups
unfolding named_places
first-Counted query last i s rest p places [] named at_i many full others = absurd (ground arith)
first-Counted query last i s rest p places (g ∷ groups) named at_i many full others =
    let fewer : suc (length groups) ≡ suc (length (named_places places)) = many ∙ rw named refl in
    name-Counted query last i s rest p places g groups named at_i full.0
      (others groups (omega (arith, fewer)) full.1)

predecessor : (n : ℕ) → 1 ≤ n → (k : ℕ) × (n ≡ suc k)
predecessor zero h = absurd (omega arith)
predecessor (suc k) h = (k, refl)

parse_loop-Counted :
    (query : Bytes) (fuel last i : ℕ) (s : Bytes) (groups : List (List Value))
    → drop i query ≡ s
    → last ≤ i
    → length s ≤ fuel
    → length groups ≡ length (named_places (parse_loop fuel i s))
    → All (λ g. 1 ≤ length g) groups
    → Counted query last i s (parse_loop fuel i s) groups
unfolding named_places is_named
parse_loop-Counted query fuel last i [] [] e le h many full =
    unfold parse_loop in end-Counted query last i e le
parse_loop-Counted query fuel last i [] (g ∷ groups) e le h many full =
    unfold parse_loop in absurd (omega (arith, many))
parse_loop-Counted query zero last i (c ∷ s) groups e le h many full = absurd (omega arith)
parse_loop-Counted query (suc fuel) last i (c ∷ s) groups e le h many full =
    elim (step-Found i c s) [
      | inl nothing ↦
          let (k, passed) = predecessor (parse_step i c s).1 (step_count i c s) in
          let step : parse_step i c s ≡ ([], suc k) = cc in
          let opened : parse_loop (suc fuel) i (c ∷ s) ≡ parse_loop fuel (i + suc k) (drop k s) =
            parse_loop_step fuel i c s ∙ rw step refl in
          let behind : drop (i + suc k) query ≡ drop k s =
            drop-add i (suc k) query ∙ ap (λ r. drop (suc k) r) e in
          subst (λ l. Counted query last i (c ∷ s) l groups) (sym opened)
            (skip-Counted query last i c k s _ groups e le step (
              parse_loop-Counted query fuel last (i + suc k) (drop k s) groups behind (omega arith)
                (omega (arith, length-drop k s)) (many ∙ ap (λ l. length (named_places l)) opened)
                full))
      | inr (inl (c_is, out, one)) ↦
          let mark : Placeholder = record { name = []; pos = i; end = i + 1 } in
          let step : parse_step i c s ≡ (mark ∷ [], 1) = cc in
          let opened : parse_loop (suc fuel) i (c ∷ s) ≡ mark ∷ parse_loop fuel (i + 1) s =
            parse_loop_step fuel i c s ∙ rw step refl in
          let behind : drop (i + 1) query ≡ s = drop-add i 1 query ∙ ap (λ r. drop 1 r) e in
          subst (λ l. Counted query last i (c ∷ s) l groups) (sym opened)
            (subst (λ x. Counted query last i (x ∷ s) (mark ∷ parse_loop fuel (i + 1) s) groups)
              (sym c_is)
              (mark-Counted query last i s _ groups (e ∙ ap (λ x. x ∷ s) c_is) le (
                parse_loop-Counted query fuel last (i + 1) s groups behind (omega arith)
                  (omega arith) (many ∙ ap (λ l. length (named_places l)) opened) full)))
      | inr (inr (c_is, m, span, out, count)) ↦
          let p : Placeholder = record { name = take (suc m) s; pos = i; end = i + 1 + suc m } in
          let step : parse_step i c s ≡ (p ∷ [], suc (suc m)) = cc in
          let at_end : i + suc (suc m) ≡ i + 1 + suc m = omega arith in
          let rest = parse_loop fuel (i + 1 + suc m) (drop (suc m) s) in
          let opened : parse_loop (suc fuel) i (c ∷ s) ≡ p ∷ rest =
            parse_loop_step fuel i c s ∙ rw (step, at_end) refl in
          let behind : drop (i + 1 + suc m) query ≡ drop (suc m) s =
            ap (λ n. drop n query) (sym at_end)
            ∙ drop-add i (suc (suc m)) query
            ∙ ap (λ r. drop (suc (suc m)) r) e in
          subst (λ l. Counted query last i (c ∷ s) l groups) (sym opened)
            (subst (λ x. Counted query last i (x ∷ s) (p ∷ rest) groups) (sym c_is)
              (first-Counted query last i s (drop (suc m) s) p rest groups (named_some i m s span)
                refl (many ∙ ap (λ l. length (named_places l)) opened) full
                (λ others fewer some_args.
                  parse_loop-Counted query fuel (i + 1 + suc m) (i + 1 + suc m) (drop (suc m) s)
                    others behind (omega arith) (omega (arith, length-drop (suc m) s)) fewer
                    some_args)))
    ]

some_args : (expands : Bool) (g : List Value) → IsSized expands g → 1 ≤ length g
some_args expands g (inl one) = omega arith
some_args expands g (inr (on, many)) = many

module _ {Location : Type 0} (offset_at : Location → ℤ → ℤ) (marshal : Value → Outcome Bytes)
    (cfg : Settings Location) where
  -- When bindNamed binds a query that has named placeholders, the parser finds no name in the text
  -- that it gives, and as many positional placeholders as the query had and arguments were bound:
  -- none of the question marks that were put in gets lost in a quoted text or a comment.
  pub bind_named-positional :
      (query : Bytes) (arg : Value) (bound : Bound)
      → named_places (parse_placeholders query) ≢ []
      → bind_named offset_at marshal cfg query arg ≡ ok bound
      → (named_places (parse_placeholders bound.text) ≡ [])
        × (positional (parse_placeholders bound.text)
            ≡ positional (parse_placeholders query) + length bound.args)
  unfolding parse_placeholders
  bind_named-positional query arg bound some_name e =
      let (groups, many, sized, args, text, _, _) =
        bind_named-IsGrouped offset_at marshal cfg query arg bound some_name e in
      let full =
        All-map (IsSized cfg.slice_expansion) (λ g. 1 ≤ length g) groups
          (λ g h. some_args cfg.slice_expansion g h) sized in
      let (t, put, _, reads) =
        parse_loop-Counted query (length query) 0 0 query groups refl (omega arith) (omega arith)
          many full in
      let nothing : 0 - 0 ≡ 0 = omega arith in
      let same : t ≡ bound.text = sym (text ∙ put ∙ rw nothing refl) in
      let found =
        subst
          (λ u. Reads u (positional (parse_loop (length query) 0 query) + length (concat groups)))
          same reads in
      let (no_names, count) = found (length bound.text) 0 (omega arith) in
      (
        no_names,
        count ∙ ap (λ n. positional (parse_loop (length query) 0 query) + n) (sym (ap length args)),
      )
