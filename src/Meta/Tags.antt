-- ===== src/Meta/Tags.antt =====
-- meta.go: parseTag. Texts are ASCII, where strings.TrimSpace takes off the six white-space bytes
-- and strings.ToLower changes the capital letters.
use rainbowsquirrel.Base.{
  ℕ, ◌+◌, Bool, true, false, ◌&&◌, ◌||◌, List, [], ◌∷◌, map, Bytes, equal, leb, ◌==◌, if◌then◌else◌,
}
use rainbowsquirrel.Bind.Parser.{is_empty}
use rainbowsquirrel.Core.Errors.{tag_invalid}
use rainbowsquirrel.Core.Outcome.{Outcome, ok, fail}

unfoldable pub is_space : ℕ → Bool
is_space c = (leb 9 c && leb c 13) || c == 32

unfoldable pub trim_left : Bytes → Bytes
trim_left [] = []
trim_left (c ∷ s) = let rest = trim_left s in if is_space c then rest else c ∷ s

unfoldable pub trim_right : Bytes → Bytes
trim_right [] = []
trim_right (c ∷ s) = let rest = trim_right s in if is_space c && is_empty rest then [] else c ∷ rest

unfoldable pub trim_space : Bytes → Bytes
trim_space s = trim_right (trim_left s)

unfoldable pub lower_char : ℕ → ℕ
lower_char c = if leb b'A' c && leb c b'Z' then c + 32 else c

unfoldable pub to_lower : Bytes → Bytes
to_lower s = map lower_char s

-- `strings.Split(tag, ",")`: the first part and the others.
unfoldable pub split_commas : Bytes → Bytes × List Bytes
split_commas [] = ([], [])
split_commas (c ∷ s) =
    let (part, parts) = split_commas s in
    if c == b',' then ([], part ∷ parts) else (c ∷ part, parts)

unfoldable pub contains : Bytes → List Bytes → Bool
contains o [] = false
contains o (p ∷ parts) = let rest = contains o parts in if equal o p then true else rest

-- The options of a tag, without blanks around them; empty ones are left out.
unfoldable pub trim_options : List Bytes → List Bytes
trim_options [] = []
trim_options (o ∷ parts) =
    let rest = trim_options parts in if is_empty (trim_space o) then rest else trim_space o ∷ rest

unfoldable pub parse_tag : Bytes → Outcome (Bytes × List Bytes)
parse_tag tag =
    let (first, parts) = split_commas tag in
    if is_empty (trim_space first)
    then fail tag_invalid
    else ok (trim_space first, trim_options parts)
