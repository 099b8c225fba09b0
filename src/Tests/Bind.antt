-- ===== src/Tests/Bind.antt =====
-- bind.go on concrete queries.
use rainbowsquirrel.Base.{[], length, ◌≡◌, refl, arith, Bytes, codes}
use rainbowsquirrel.Bind.Rounds.{text_left, parse_loop-parse_placeholders}
use rainbowsquirrel.Bind.Parser.{
  parse_placeholders, parse_loop, parse_step, is_quote, quoted_span, line_span, block_span, next_is,
  named_at, ident_span, is_ident_char, is_named, is_empty, named_places,
}
use rainbowsquirrel.Bind.Rebind.{
  dollar, rebind, rebind_loop, marker, decimal, decimal_loop, replace_named_in_fragment,
  replace_loop,
}
use rainbowsquirrel.Bind.Lexer.{rewrite, code}
use rainbowsquirrel.Bind.Rewrite.{rebind-rewrite}
use rainbowsquirrel.Bind.Placed.{Placed, parse_placeholders-Placed}

abbrev query : Bytes
query = codes "'?'=? AND :b=a::t OR c=?"

rebind_query : rebind query dollar ≡ codes "'?'=$1 AND :b=a::t OR c=$2"
unfolding rebind rebind_loop replace_named_in_fragment replace_loop named_places parse_placeholders
    parse_loop parse_step is_quote quoted_span line_span block_span next_is named_at ident_span
    is_ident_char is_named is_empty marker decimal decimal_loop
rebind_query = refl

replace_named_query : replace_named_in_fragment (codes "(:id, ?, :name)") ≡ codes "(?, ?, ?)"
unfolding replace_named_in_fragment replace_loop named_places parse_placeholders parse_loop
    parse_step is_quote quoted_span line_span block_span next_is named_at ident_span is_ident_char
    is_named is_empty
replace_named_query = refl

rebind-rewrite_example : rebind query dollar ≡ rewrite dollar 0 code query
rebind-rewrite_example = rebind-rewrite query dollar (λ e. cc)

parse_placeholders-Placed_example : Placed query 0 (parse_placeholders query)
parse_placeholders-Placed_example = parse_placeholders-Placed query

parse_loop-parse_placeholders_example :
    (text_left (length query) 0 query ≡ []) × (parse_loop 100 0 query ≡ parse_placeholders query)
parse_loop-parse_placeholders_example = parse_loop-parse_placeholders query 100 (omega arith)
