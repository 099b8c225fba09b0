-- ===== src/Tests/Settings.antt =====
-- config.go's options and snakeCase on concrete values.
use rainbowsquirrel.Base.{ℕ, ◌+◌, ◌≡◌, refl, Bool, ◌&&◌, codes, leb, if◌then◌else◌}
use rainbowsquirrel.Core.Settings.{starts_word, snake_loop, snake_case}

-- The ASCII part of package unicode.
abbrev is_upper : ℕ → Bool
is_upper r = leb b'A' r && leb r b'Z'

abbrev is_lower : ℕ → Bool
is_lower r = leb b'a' r && leb r b'z'

abbrev is_digit : ℕ → Bool
is_digit r = leb b'0' r && leb r b'9'

abbrev to_lower : ℕ → ℕ
to_lower r = if is_upper r then r + 32 else r

snake_user_id : snake_case is_upper is_lower is_digit to_lower (codes "UserID") ≡ codes "user_id"
unfolding snake_case snake_loop starts_word
snake_user_id = refl

snake_http_server :
    snake_case is_upper is_lower is_digit to_lower (codes "HTTPServer") ≡ codes "http_server"
unfolding snake_case snake_loop starts_word
snake_http_server = refl
