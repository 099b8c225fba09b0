-- ===== src/Bind/Rebind.antt =====
-- bind.go: Rebind and replaceNamedInFragment, with config.go's placeholder styles.
use rainbowsquirrel.Base.{
  ℕ, zero, suc, ◌+◌, ◌/◌, ◌%◌, List, [], ◌∷◌, ◌++◌, drop, slice, Bytes, ltb, if◌then◌else◌,
}
use rainbowsquirrel.Bind.Parser.{Placeholder, parse_placeholders, is_named, named_places}

pub data PlaceholderStyle : Type 0 where
  question dollar at : PlaceholderStyle

-- `%d` of a number, on fuel: a number has at most as many digits as it has units, and one.
unfoldable pub decimal_loop : ℕ → ℕ → Bytes → Bytes
decimal_loop zero n acc = acc
decimal_loop (suc fuel) n acc =
    let more = decimal_loop fuel (n / 10) ((b'0' + n % 10) ∷ acc) in
    if ltb n 10 then (b'0' + n) ∷ acc else more

unfoldable pub decimal : ℕ → Bytes
decimal n = decimal_loop (suc n) n []

-- What stands for the n-th positional placeholder.
unfoldable pub marker : PlaceholderStyle → ℕ → Bytes
marker question n = []
marker dollar n = b'$' ∷ decimal n
marker at n = b'@' ∷ decimal n

-- The loop over the placeholders: `last` is where the text starts that is still to be copied.
unfoldable pub rebind_loop : PlaceholderStyle → Bytes → ℕ → ℕ → List Placeholder → Bytes
rebind_loop style query last n [] = drop last query
rebind_loop style query last n (p ∷ places) =
    let skipped = rebind_loop style query last n places in
    let written =
      slice query last p.pos
      ++ (marker style (n + 1) ++ rebind_loop style query p.end (n + 1) places) in
    if is_named p then skipped else written

unfoldable pub rebind : Bytes → PlaceholderStyle → Bytes
rebind query question = query
rebind query style = rebind_loop style query 0 0 (parse_placeholders query)

unfoldable pub replace_loop : Bytes → ℕ → List Placeholder → Bytes
replace_loop fragment last [] = drop last fragment
replace_loop fragment last (p ∷ places) =
    slice fragment last p.pos ++ (b'?' ∷ replace_loop fragment p.end places)

-- With no named placeholder the source returns the fragment, as the loop does.
unfoldable pub replace_named_in_fragment : Bytes → Bytes
replace_named_in_fragment fragment =
    replace_loop fragment 0 (named_places (parse_placeholders fragment))
