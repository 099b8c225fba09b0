-- ===== src/Log/Compact.antt =====
-- log/log.go: compactQuery.
use rainbowsquirrel.Base.{
  ℕ, ◌≡◌, refl, sym, ap, ◌∙◌, inl, inr, arith, Bool, true, false, ◌&&◌, Bool-cases, List, [], ◌∷◌,
  ◌++◌, append_assoc, append-nil, Bytes, All, if◌then◌else◌,
}
use rainbowsquirrel.Bind.Parser.{is_empty}
use rainbowsquirrel.Log.Records.{join_words, fields_loop, split_fields}
use rainbowsquirrel.Log.Slog.{compact_query}

module _ (is_space : ℕ → Bool) where
  -- The characters that are no white space.
  pub ink : Bytes → Bytes
  ink [] = []
  ink (c ∷ s) = if is_space c then ink s else c ∷ ink s

  -- One pass: whether a character was written, and whether white space was read since the last one.
  unfoldable pub squeeze : Bool → Bool → Bytes → Bytes
  squeeze started gap [] = []
  squeeze started gap (c ∷ s) =
      let skipped = squeeze started true s in
      let rest = c ∷ squeeze true false s in
      if is_space c then skipped else if started && gap then b' ' ∷ rest else rest

  abbrev pub IsInk : Bytes → Type 0
  IsInk = All (λ (c : ℕ). is_space c ≡ false)

  -- A word: it has a character, and no white space.
  abbrev pub IsWord : Bytes → Type 0
  IsWord w = (is_empty w ≡ false) × IsInk w

  IsInk-append : (v w : Bytes) → IsInk v → IsInk w → IsInk (v ++ w)
  IsInk-append [] w h k = k
  IsInk-append (c ∷ v) w h k = (h.0, IsInk-append v w h.1 k)

  is_empty-append : (v : Bytes) (c : ℕ) → is_empty (v ++ (c ∷ [])) ≡ false
  unfolding is_empty
  is_empty-append [] c = refl
  is_empty-append (d ∷ v) c = refl

  fields_loop-IsWord : (word s : Bytes) → IsInk word → All IsWord (fields_loop is_space word s)
  unfolding fields_loop
  fields_loop-IsWord word [] h = elim (Bool-cases (is_empty word)) [
    | inl none ↦ rw none tt
    | inr some ↦ rw some ((some, h), tt)
  ]
  fields_loop-IsWord word (c ∷ s) h = elim (Bool-cases (is_space c)) [
    | inl space ↦ elim (Bool-cases (is_empty word)) [
      | inl none ↦ rw (space, none) (fields_loop-IsWord [] s tt)
      | inr some ↦ rw (space, some) ((some, h), fields_loop-IsWord [] s tt)
    ]
    | inr letter ↦
        rw letter
          (fields_loop-IsWord (word ++ (c ∷ [])) s (IsInk-append word (c ∷ []) h (letter, tt)))
  ]

  -- Characters that are no white space make the word longer.
  fields_loop-append :
      (word w rest : Bytes)
      → IsInk w
      → fields_loop is_space word (w ++ rest) ≡ fields_loop is_space (word ++ w) rest
  unfolding fields_loop
  fields_loop-append word [] rest h =
      ap (λ (v : Bytes). fields_loop is_space v rest) (sym (append-nil word))
  fields_loop-append word (c ∷ w) rest h = rw h.0 (
      fields_loop-append (word ++ (c ∷ [])) w rest h.1
      ∙ ap (λ (v : Bytes). fields_loop is_space v rest) (append_assoc word (c ∷ []) w))

  module _ (blank : is_space b' ' ≡ true) where
    ended_word :
        (w rest : Bytes)
        → is_empty w ≡ false
        → fields_loop is_space w (b' ' ∷ rest) ≡ w ∷ fields_loop is_space [] rest
    unfolding fields_loop
    ended_word w rest h = rw (blank, h) refl

    last_word : (w : Bytes) → is_empty w ≡ false → fields_loop is_space w [] ≡ w ∷ []
    unfolding fields_loop
    last_word w h = rw h refl

    fields-join_words :
        (ws : List Bytes) → All IsWord ws → split_fields is_space (join_words ws) ≡ ws
    unfolding split_fields join_words is_empty
    fields-join_words [] h = refl
    fields-join_words (w ∷ []) h =
        ap (λ (v : Bytes). fields_loop is_space [] v) (sym (append-nil w))
        ∙ fields_loop-append [] w [] h.0.1
        ∙ last_word w h.0.0
    fields-join_words (w ∷ v ∷ ws) h =
        fields_loop-append [] w (b' ' ∷ join_words (v ∷ ws)) h.0.1
        ∙ ended_word w (join_words (v ∷ ws)) h.0.0
        ∙ ap (◌∷◌ w) (fields-join_words (v ∷ ws) h.1)

    ink-append : (v w : Bytes) → ink (v ++ w) ≡ ink v ++ ink w
    unfolding ink
    ink-append [] w = refl
    ink-append (c ∷ v) w = ground (arith, ink-append v w)

    ink-IsInk : (w : Bytes) → IsInk w → ink w ≡ w
    unfolding ink
    ink-IsInk [] h = refl
    ink-IsInk (c ∷ w) h = rw h.0 (ap (◌∷◌ c) (ink-IsInk w h.1))

    ink-join_words :
        (w : Bytes) (ws : List Bytes) → ink (join_words (w ∷ ws)) ≡ ink w ++ ink (join_words ws)
    unfolding join_words ink
    ink-join_words w [] = sym (append-nil (ink w))
    ink-join_words w (v ∷ ws) =
        ink-append w (b' ' ∷ join_words (v ∷ ws)) ∙ ap (λ (t : Bytes). ink w ++ t) (rw blank refl)

    nothing : (word t : Bytes) → is_empty word ≡ true → t ≡ word ++ t
    unfolding is_empty
    nothing [] t e = refl
    nothing (c ∷ word) t e = absurd (ground arith)

    ink-fields_loop :
        (word s : Bytes)
        → IsInk word
        → ink (join_words (fields_loop is_space word s)) ≡ word ++ ink s
    unfolding fields_loop ink is_empty join_words
    ink-fields_loop [] [] h = refl
    ink-fields_loop (d ∷ word) [] h = ink-IsInk (d ∷ word) h ∙ sym (append-nil (d ∷ word))
    ink-fields_loop word (c ∷ s) h = elim (Bool-cases (is_space c)) [
      | inr letter ↦ rw letter (
          ink-fields_loop (word ++ (c ∷ [])) s (IsInk-append word (c ∷ []) h (letter, tt))
          ∙ append_assoc word (c ∷ []) (ink s))
      | inl space ↦ elim (Bool-cases (is_empty word)) [
        | inl none ↦ rw (space, none) (ink-fields_loop [] s tt ∙ nothing word (ink s) none)
        | inr some ↦
            rw (space, some)
              (ink-join_words word (fields_loop is_space [] s)
                ∙ ap (λ (t : Bytes). t ++ ink (join_words (fields_loop is_space [] s)))
                    (ink-IsInk word h)
                ∙ ap (λ (t : Bytes). word ++ t) (ink-fields_loop [] s tt))
      ]
    ]

    -- Behind a word, the text of more words.
    abbrev behind : List Bytes → Bytes
    behind [] = []
    behind (w ∷ ws) = b' ' ∷ join_words (w ∷ ws)

    join_words-behind : (w : Bytes) (ws : List Bytes) → join_words (w ∷ ws) ≡ w ++ behind ws
    unfolding join_words
    join_words-behind w [] = sym (append-nil w)
    join_words-behind w (v ∷ ws) = refl

    -- A word that was begun makes the list of words begin.
    fields_loop-starts :
        (word s : Bytes)
        → is_empty word ≡ false
        → (w : Bytes) × (ws : List Bytes) × (fields_loop is_space word s ≡ w ∷ ws)
    unfolding fields_loop
    fields_loop-starts word [] h = (word, [], rw h refl)
    fields_loop-starts word (c ∷ s) h = elim (Bool-cases (is_space c)) [
      | inl space ↦ (word, fields_loop is_space [] s, rw (space, h) refl)
      | inr letter ↦
          let (w, ws, e) = fields_loop-starts (word ++ (c ∷ [])) s (is_empty-append word c) in
          (w, ws, rw letter e)
    ]

    started-behind :
        {words : List Bytes}
        → ((w : Bytes) × (ws : List Bytes) × (words ≡ w ∷ ws))
        → behind words ≡ b' ' ∷ join_words words
    started-behind (w, ws, e) = rw e refl

    behind-word :
        (c : ℕ) (s : Bytes)
        → behind (fields_loop is_space (c ∷ []) s)
          ≡ b' ' ∷ join_words (fields_loop is_space (c ∷ []) s)
    unfolding is_empty
    behind-word c s = started-behind (fields_loop-starts (c ∷ []) s refl)

    squeeze-fields_loop :
        (s : Bytes)
        → ((d : ℕ) (word : Bytes)
            → join_words (fields_loop is_space (d ∷ word) s) ≡ (d ∷ word) ++ squeeze true false s)
          × (behind (fields_loop is_space [] s) ≡ squeeze true true s)
          × (join_words (fields_loop is_space [] s) ≡ squeeze false false s)
          × (join_words (fields_loop is_space [] s) ≡ squeeze false true s)
    unfolding fields_loop join_words squeeze is_empty
    squeeze-fields_loop [] = ((λ d word. sym (append-nil (d ∷ word))), refl, refl, refl)
    squeeze-fields_loop (c ∷ s) =
        let (in_word, after_gap, before, before') = squeeze-fields_loop s in
        elim (Bool-cases (is_space c)) [
          | inl space ↦ (
            (λ d word. rw space (
                join_words-behind (d ∷ word) (fields_loop is_space [] s)
                ∙ ap (λ (t : Bytes). (d ∷ word) ++ t) after_gap)),
            rw space after_gap,
            rw space before',
            rw space before',
          )
          | inr letter ↦ (
            (λ d word. rw letter (
                in_word d (word ++ (c ∷ []))
                ∙ append_assoc (d ∷ word) (c ∷ []) (squeeze true false s))),
            rw letter (behind-word c s ∙ ap (◌∷◌ b' ') (in_word c [])),
            rw letter (in_word c []),
            rw letter (in_word c []),
          )
        ]

    -- If the space is white space, then compacting a query gives what one pass over it gives that
    -- leaves out white space at both ends and writes one space for each run of it between other
    -- characters; all other characters are kept, in order; and compacting it again changes nothing.
    pub compact_query_twice :
        (s : Bytes)
        → (ink (compact_query is_space s) ≡ ink s)
          × (compact_query is_space s ≡ squeeze false false s)
          × (compact_query is_space (compact_query is_space s) ≡ compact_query is_space s)
    unfolding compact_query split_fields
    compact_query_twice s = (
      ink-fields_loop [] s tt,
      (squeeze-fields_loop s).2,
      ap join_words (fields-join_words (split_fields is_space s) (fields_loop-IsWord [] s tt)),
    )
