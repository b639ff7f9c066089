-- ===== src/Server/Headers.antt =====
-- The parsers of the request headers of ws_server.c, over lists of characters.
use n32r.Prelude.{
  ℕ, zero, suc, ◌+◌, ◌-◌, ◌*◌, ◌%◌, Bool, ◌&&◌, ◌||◌, Option, none, some, List, [], ◌∷◌, length,
  leb, ltb, ◌==◌, if◌then◌else◌,
}
use n32r.Prelude.Words.{u32_mod}
use n32r.Security.{nonce_len}

is_upper : ℕ → Bool
is_upper c = leb b'A' c && leb c b'Z'

-- `tolower` of the C locale.
to_lower : ℕ → ℕ
unfolding is_upper
to_lower c = if is_upper c then c + 32 else c

unfoldable pub is_digit : ℕ → Bool
is_digit c = leb b'0' c && leb c b'9'

-- 255 for a character that is no hexadecimal digit.
unfoldable pub hex_value : ℕ → ℕ
unfolding is_digit to_lower
hex_value c =
    if is_digit c
    then c - b'0'
    else (let l = to_lower c in if leb b'a' l && leb l b'f' then l - b'a' + 10 else 255)

-- Bytes from the pairs of characters, `n` of them.
unfoldable pub parse_hex : ℕ → List ℕ → Option (List ℕ)
parse_hex zero hex = some []
parse_hex (suc n) [] = none
parse_hex (suc n) (h ∷ []) = none
parse_hex (suc n) (h ∷ (l ∷ hex)) =
    let hi = hex_value h in
    let lo = hex_value l in
    if ltb 15 hi || ltb 15 lo
    then none
    else (elim (parse_hex n hex) [ none ↦ none | some bytes ↦ some ((hi * 16 + lo) ∷ bytes) ])

unfoldable pub parse_nonce_hex : List ℕ → Option (List ℕ)
unfolding parse_hex hex_value
parse_nonce_hex hex = parse_hex nonce_len hex

-- `acc` is the value of the digits read so far.
unfoldable pub parse_decimal_from : ℕ → List ℕ → Option ℕ
parse_decimal_from acc [] = some acc
parse_decimal_from acc (c ∷ value) =
    let rest = parse_decimal_from ((acc * 10 + (c - b'0')) % u32_mod) value in
    if is_digit c then rest else none

unfoldable pub parse_decimal_header : List ℕ → ℕ → Option ℕ
unfolding parse_decimal_from is_digit
parse_decimal_header value digits =
    if ltb digits 1 || ltb 8 digits
    then none
    else (if length value == digits then parse_decimal_from 0 value else none)
