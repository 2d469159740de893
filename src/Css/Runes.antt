-- ===== src/Css/Runes.antt =====
-- Runes as transformer/internal/css/token.go reads them. The position of a tokenizer is what is
-- left of its input, so `reconsume` goes back to the input that the rune was read from.
use amppackager.Prelude.{
  ℕ, zero, suc, ◌+◌, ◌-◌, ◌*◌, ◌/◌, ◌%◌, Bool, true, false, not, ◌&&◌, ◌||◌, [], ◌∷◌, ◌++◌, ltb,
  leb, ◌==◌, if◌then◌else◌,
}
use amppackager.Prelude.Text.{Bytes}
use amppackager.Utf8.{rune_error, decode_rune}

-- `preprocessReplacer`: line ends become newlines, and a NUL the replacement character. The flag
-- tells that a carriage return has just been read.
unfoldable pub preprocess_from : Bool → Bytes → Bytes
preprocess_from after_cr [] = []
preprocess_from after_cr (c ∷ cs) =
    let rest = preprocess_from (c == 13) cs in
    if c == 13 || c == 12
    then 10 ∷ rest
    else if c == 10 && after_cr
    then rest
    else if c == 0
    then 239 ∷ 191 ∷ 189 ∷ rest
    else c ∷ rest

unfoldable pub preprocess : Bytes → Bytes
unfolding preprocess_from
preprocess = preprocess_from false

-- The rune that is next, `RuneError` at the end, and what follows it.
unfoldable pub consume : Bytes → ℕ × Bytes
unfolding decode_rune
consume [] = (rune_error, [])
consume (c ∷ cs) = let (r, _, rest) = decode_rune c cs in (r, rest)

unfoldable pub drop : ℕ → Bytes → Bytes
drop zero bs = bs
drop (suc n) [] = []
drop (suc n) (c ∷ cs) = drop n cs

unfoldable pub take : ℕ → Bytes → Bytes
take zero bs = []
take (suc n) [] = []
take (suc n) (c ∷ cs) = c ∷ take n cs

abbrev pub peek : Bytes → ℕ
peek bs = (consume bs).0

abbrev pub peek_at : ℕ → Bytes → ℕ
peek_at n bs = peek (drop n bs)

-- `sb.WriteRune`
unfoldable pub encode_rune : ℕ → Bytes
encode_rune r =
    if ltb r 128
    then r ∷ []
    else if ltb r 2048
    then (192 + r / 64) ∷ (128 + r % 64) ∷ []
    else if (ltb 55295 r && ltb r 57344) || ltb 1114111 r
    then 239 ∷ 191 ∷ 189 ∷ []
    else if ltb r 65536
    then (224 + r / 4096) ∷ (128 + r / 64 % 64) ∷ (128 + r % 64) ∷ []
    else (240 + r / 262144) ∷ (128 + r / 4096 % 64) ∷ (128 + r / 64 % 64) ∷ (128 + r % 64) ∷ []

abbrev pub is_digit : ℕ → Bool
is_digit r = leb b'0' r && leb r b'9'

abbrev pub is_hex : ℕ → Bool
is_hex r =
    if is_digit r then true else if leb b'A' r && leb r b'F' then true else leb b'a' r && leb r b'f'

abbrev pub is_name_start : ℕ → Bool
is_name_start r =
    if r == b'_'
    then true
    else if leb 128 r
    then true
    else if leb b'A' r && leb r b'Z'
    then true
    else leb b'a' r && leb r b'z'

abbrev pub is_name : ℕ → Bool
is_name r = is_name_start r || is_digit r || r == b'-'

abbrev pub is_non_printable : ℕ → Bool
is_non_printable r =
    if leb r 8 then true else if r == 11 || r == 127 then true else leb 14 r && leb r 31

abbrev pub is_whitespace : ℕ → Bool
is_whitespace r = r == 10 || r == 9 || r == 32

abbrev pub backslash : ℕ
backslash = 92

abbrev pub is_valid_escape : ℕ → ℕ → Bool
is_valid_escape a b = if not (a == backslash) then false else if b == 10 then false else true

abbrev starts_identifier : ℕ → ℕ → Bool
starts_identifier a b =
    if a == rune_error then false else if is_name_start a then true else is_valid_escape a b

abbrev pub is_an_identifier : ℕ → ℕ → ℕ → Bool
is_an_identifier a b c = if a == b'-' then starts_identifier b c else starts_identifier a b

abbrev pub starts_number : ℕ → ℕ → Bool
starts_number a b = if a == b'.' then is_digit b else is_digit a

abbrev pub is_a_number : ℕ → ℕ → ℕ → Bool
is_a_number a b c = if a == b'+' || a == b'-' then starts_number b c else starts_number a b

unfoldable pub consume_whitespace : Bytes → Bytes × Bytes
consume_whitespace [] = ([], [])
consume_whitespace (c ∷ cs) =
    let rest = consume_whitespace cs in
    if is_whitespace c then (c ∷ rest.0, rest.1) else ([], c ∷ cs)

-- `consumeDigits`: the digits, and what follows them.
unfoldable pub consume_digits : Bytes → Bytes × Bytes
consume_digits [] = ([], [])
consume_digits (c ∷ cs) =
    let rest = consume_digits cs in if is_digit c then (c ∷ rest.0, rest.1) else ([], c ∷ cs)

abbrev pub max_hex_digits : ℕ
max_hex_digits = 6

-- The loop that reads hexadecimal digits, with the number of rounds left.
unfoldable pub consume_hex : ℕ → Bytes → Bytes → Bytes × Bytes
unfolding consume
consume_hex zero digits bs = (digits, bs)
consume_hex (suc left) digits bs =
    let (r, rest) = consume bs in
    let longer = consume_hex left (digits ++ r ∷ []) rest in
    if r == rune_error then (digits, rest) else if is_hex r then longer else (digits, bs)

abbrev pub digit_value : ℕ → ℕ
digit_value c = if leb b'a' c then c - 87 else if leb b'A' c then c - 55 else c - 48

-- `strconv.ParseInt` in base 16 on hexadecimal digits, at most 6 of them.
unfoldable pub hex_value : ℕ → Bytes → ℕ
hex_value acc [] = acc
hex_value acc (c ∷ cs) = hex_value (16 * acc + digit_value c) cs

abbrev pub replacement : ℕ → ℕ
replacement cp =
    if cp == 0 || ltb 1114111 cp || (ltb 55295 cp && ltb cp 57344) then rune_error else cp

unfoldable pub consume_an_escape : Bytes → ℕ × Bytes
unfolding consume consume_hex hex_value
consume_an_escape bs =
    let (r, rest) = consume bs in
    if r == rune_error
    then (r, rest)
    else if is_hex r
    then (let (digits, after) = consume_hex 5 (r ∷ []) rest in
        (
          replacement (hex_value 0 digits),
          if is_whitespace (peek after) then (consume after).1 else after,
        ))
    else (r, rest)
