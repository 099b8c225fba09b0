-- ===== src/Bind/Parser.antt =====
-- bind.go: parsePlaceholders. A string is the list of its bytes, and the model reads `query[i:]`:
-- the inner loops count the bytes that they pass.
use rainbowsquirrel.Base.{
  ℕ, zero, suc, ◌+◌, Bool, true, false, not, ◌&&◌, ◌||◌, List, [], ◌∷◌, ◌++◌, length, take, drop,
  Bytes, leb, ◌==◌, if◌then◌else◌,
}

-- The empty name is a positional `?`.
pub record Placeholder : Type 0 where
  pub name : Bytes
  pub pos : ℕ
  pub end : ℕ

unfoldable pub is_ident_char : ℕ → Bool
is_ident_char c =
    c == b'_'
    || (leb b'a' c && leb c b'z')
    || (leb b'A' c && leb c b'Z')
    || (leb b'0' c && leb c b'9')

unfoldable pub is_quote : ℕ → Bool
is_quote c = c == b'\'' || c == b'"' || c == b'`'

-- `i+1 < len(query) && query[i+1] == c`, on what follows the byte at `i`.
unfoldable pub next_is : ℕ → Bytes → Bool
next_is c [] = false
next_is c (d ∷ s) = d == c

-- Behind an opening quote: up to the closing one, where a doubled quote is passed over.
unfoldable pub quoted_span : ℕ → Bytes → ℕ
quoted_span q [] = 0
quoted_span q (c ∷ []) = 1
quoted_span q (c ∷ d ∷ s) =
    let escaped = suc (suc (quoted_span q s)) in
    let inside = suc (quoted_span q (d ∷ s)) in
    if c == q then if d == q then escaped else 1 else inside

-- Behind `--`: up to the end of the line.
unfoldable pub line_span : Bytes → ℕ
line_span [] = 0
line_span (c ∷ s) = let inside = suc (line_span s) in if c == b'\n' then 0 else inside

-- Behind `/*`: up to `*/`, or to the last byte.
unfoldable pub block_span : Bytes → ℕ
block_span [] = 0
block_span (c ∷ []) = 0
block_span (c ∷ d ∷ s) =
    let inside = suc (block_span (d ∷ s)) in if c == b'*' && d == b'/' then 0 else inside

unfoldable pub ident_span : Bytes → ℕ
ident_span [] = 0
ident_span (c ∷ s) = let inside = suc (ident_span s) in if is_ident_char c then inside else 0

-- The placeholder that starts with the `:` at `i`, behind which `n` name bytes stand.
unfoldable pub named_at : ℕ → Bytes → ℕ → List Placeholder
named_at i s zero = []
named_at i s (suc n) = (record { name = take (suc n) s; pos = i; end = i + 1 + suc n }) ∷ []

-- One round of the outer loop at the byte `c = query[i]`, before `s`: the placeholders found and
-- the bytes passed.
unfoldable pub parse_step : ℕ → ℕ → Bytes → List Placeholder × ℕ
parse_step i c s =
    if is_quote c
    then ([], suc (quoted_span c s))
    else if c == b'-'
    then ([], if next_is b'-' s then suc (suc (line_span (drop 1 s))) else 1)
    else if c == b'/'
    then ([], if next_is b'*' s then suc (suc (block_span (drop 1 s) + 2)) else 1)
    else if c == b':'
    then (if next_is b':' s then ([], 2) else (named_at i s (ident_span s), suc (ident_span s)))
    else if c == b'?'
    then ((record { name = []; pos = i; end = i + 1 }) ∷ [], 1)
    else ([], 1)

unfoldable pub parse_loop : ℕ → ℕ → Bytes → List Placeholder
parse_loop fuel i [] = []
parse_loop zero i (c ∷ s) = []
parse_loop (suc fuel) i (c ∷ s) =
    let (out, n) = parse_step i c s in out ++ parse_loop fuel (i + n) (drop n (c ∷ s))

-- Every round passes a byte, so the length of the query is fuel enough.
unfoldable pub parse_placeholders : Bytes → List Placeholder
parse_placeholders query = parse_loop (length query) 0 query

unfoldable pub is_empty : Bytes → Bool
is_empty [] = true
is_empty (c ∷ s) = false

-- `p.name != ""`
unfoldable pub is_named : Placeholder → Bool
unfolding is_empty
is_named p = not (is_empty p.name)

unfoldable pub named_places : List Placeholder → List Placeholder
named_places [] = []
named_places (p ∷ places) = let rest = named_places places in if is_named p then p ∷ rest else rest
