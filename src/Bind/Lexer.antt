-- ===== src/Bind/Lexer.antt =====
-- An independent reading of a query: a machine with one step for each byte, which looks one byte
-- ahead. parsePlaceholders and its clients are compared with it.
use rainbowsquirrel.Base.{
  ℕ, ◌+◌, Bool, true, false, ◌&&◌, [], ◌∷◌, ◌++◌, Bytes, ◌==◌, if◌then◌else◌,
}
use rainbowsquirrel.Bind.Parser.{is_ident_char, is_quote, next_is}
use rainbowsquirrel.Bind.Rebind.{PlaceholderStyle, marker}

-- Where a byte stands. `quoted` and `escape` hold the quote; `pair` is the second byte of `--`,
-- `::` or `/*`, with the mode behind it.
pub data Mode : Type 0 where
  code : Mode
  quoted : ℕ → Mode
  escape : ℕ → Mode
  line : Mode
  block : Mode
  block_end : Mode
  name : Mode
  pair : Mode → Mode

unfoldable pub next_is_ident : Bytes → Bool
next_is_ident [] = false
next_is_ident (d ∷ s) = is_ident_char d

-- The mode of the next byte, from the mode of the byte `c` and what follows it.
unfoldable pub code_mode : ℕ → Bytes → Mode
code_mode c s =
    if is_quote c
    then quoted c
    else if c == b'-' && next_is b'-' s
    then pair line
    else if c == b'/' && next_is b'*' s
    then pair block
    else if c == b':'
    then (if next_is b':' s then pair code else if next_is_ident s then name else code)
    else code

unfoldable pub next_mode : Mode → ℕ → Bytes → Mode
next_mode code c s = code_mode c s
next_mode (quoted q) c s = if c == q then (if next_is q s then escape q else code) else quoted q
next_mode (escape q) c s = quoted q
next_mode line c s = if c == b'\n' then code else line
next_mode block c s = if c == b'*' && next_is b'/' s then block_end else block
next_mode block_end c s = code
next_mode name c s = if next_is_ident s then name else code
next_mode (pair m) c s = m

abbrev pub is_code : Mode → Bool
is_code code = true
is_code _ = false

-- The query with the n-th `?` that stands in code replaced by its marker, `n` counted on.
unfoldable pub rewrite : PlaceholderStyle → ℕ → Mode → Bytes → Bytes
rewrite style n m [] = []
rewrite style n m (c ∷ s) =
    let here = is_code m && c == b'?' in
    let n' = if here then n + 1 else n in
    (if here then marker style (n + 1) else c ∷ []) ++ rewrite style n' (next_mode m c s) s
