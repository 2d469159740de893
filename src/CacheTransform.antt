-- ===== src/CacheTransform.antt =====
-- packager/amp_cache_transform/amp_cache_transform.go: the parser of the AMP-Cache-Transform
-- header. A `strings.Reader` is the list of the bytes that are left; `UnreadByte` gives back the
-- list before the byte was taken. The versions and the answer are in the child Answer.
pub mod Answer
pub mod Total
pub mod RoundTrip
pub mod Agreement
use amppackager.Prelude.{
  ℕ, zero, suc, Bool, true, false, not, ◌&&◌, ◌||◌, List, [], ◌∷◌, ◌++◌, Option, none, some, Result,
  ok, err, ◌>>=◌, leb, ◌==◌, if◌then◌else◌, length,
}
use amppackager.Prelude.Split.{is_blank}
use amppackager.Prelude.Text.{Bytes, lookup, insert}

pub data ParseError : Type 0 where
  end_of_input unexpected_byte duplicate_param invalid_char missing_member empty_list : ParseError
  -- No input leads to this one.
  out_of_fuel : ParseError

pub record ParameterisedIdentifier : Type 0 where
  pub id : Bytes
  pub params : List (Bytes × Bytes)

-- A parser's answer: its value and the bytes that are left.
abbrev pub Parsed : Type 0 → Type 0
Parsed A = Result ParseError (A × Bytes)

unfoldable pub discard_ows : Bytes → Bytes
discard_ows [] = []
discard_ows (c ∷ cs) = if is_blank c then discard_ows cs else c ∷ cs

-- `ReadByte`, and the refusal of any byte but the given one.
abbrev pub expect : ℕ → Bytes → Result ParseError Bytes
expect b [] = err end_of_input
expect b (c ∷ cs) = if c == b then ok cs else err unexpected_byte

abbrev pub is_lc_alpha : ℕ → Bool
is_lc_alpha c = leb b'a' c && leb c b'z'

abbrev pub is_digit : ℕ → Bool
is_digit c = leb b'0' c && leb c b'9'

unfoldable pub is_second_identifier_char : ℕ → Bool
is_second_identifier_char c =
    is_lc_alpha c || is_digit c || c == b'_' || c == b'-' || c == b'*' || c == b'/'

-- The loop of `parseIdentifier` over the output.
unfoldable pub parse_identifier_from : Bytes → Bytes → Bytes × Bytes
unfolding is_second_identifier_char
parse_identifier_from output [] = (output, [])
parse_identifier_from output (c ∷ cs) =
    let longer = parse_identifier_from (output ++ c ∷ []) cs in
    if not (is_second_identifier_char c) then (output, c ∷ cs) else longer

unfoldable pub parse_identifier : Bytes → Parsed Bytes
unfolding parse_identifier_from
parse_identifier [] = err end_of_input
parse_identifier (c ∷ cs) =
    if not (is_lc_alpha c) then err unexpected_byte else ok (parse_identifier_from (c ∷ []) cs)

abbrev pub invalid_string_char : ℕ → Bool
invalid_string_char c = leb c 31 || c == 127

-- The loop of `parseString`; the flag says that the byte before was the escape.
unfoldable pub parse_string_from : Bool → Bytes → Bytes → Parsed Bytes
parse_string_from escaped value [] = err end_of_input
parse_string_from true value (c ∷ cs) =
    let longer = parse_string_from false (value ++ c ∷ []) cs in
    if not (c == b'"') && not (c == b'\\') then err unexpected_byte else longer
parse_string_from false value (c ∷ cs) =
    let escape = parse_string_from true value cs in
    let longer = parse_string_from false (value ++ c ∷ []) cs in
    if c == b'\\'
    then escape
    else if c == b'"'
    then ok (value, cs)
    else if invalid_string_char c
    then err invalid_char
    else longer

unfoldable pub parse_string : Bytes → Parsed Bytes
unfolding parse_string_from
parse_string reader = do r ← expect b'"' reader; parse_string_from false [] r

-- One round of the loop of `parseParameterisedIdentifier`: it stops, or it has read a parameter.
pub data Round : Type 0 where
  stop : Bytes → Round
  param : (name value rest : Bytes) → Round

abbrev pub check_absent : Option Bytes → Result ParseError (Unit {0})
check_absent none = ok tt
check_absent (some _) = err duplicate_param

-- The round behind the parameter's separator.
unfoldable pub parse_param : List (Bytes × Bytes) → Bytes → Result ParseError Round
unfolding parse_identifier parse_string discard_ows
parse_param params reader = do
  (name, r) ← parse_identifier (discard_ows reader)
  _ ← check_absent (lookup name params)
  r' ← expect b'=' r
  (value, rest) ← parse_string r'
  ok (param name value rest)

abbrev pub round_at : List (Bytes × Bytes) → Bytes → Result ParseError Round
round_at params [] = ok (stop [])
round_at params (c ∷ cs) = if not (c == b';') then ok (stop (c ∷ cs)) else parse_param params cs

-- What follows a round: the end of the loop, or its rest.
abbrev pub continue_with :
    List (Bytes × Bytes)
    → (List (Bytes × Bytes) → Bytes → Parsed (List (Bytes × Bytes)))
    → Round
    → Parsed (List (Bytes × Bytes))
continue_with params loop (stop rest) = ok (params, rest)
continue_with params loop (param name value rest) = loop (insert name value params) rest

unfoldable pub parse_params : ℕ → List (Bytes × Bytes) → Bytes → Parsed (List (Bytes × Bytes))
unfolding parse_param discard_ows
parse_params zero params reader = err out_of_fuel
parse_params (suc fuel) params reader =
    round_at params (discard_ows reader) >>= continue_with params (parse_params fuel)

-- Every round reads a byte, so the length of the input is fuel enough.
unfoldable pub parse_parameterised_identifier : Bytes → Parsed ParameterisedIdentifier
unfolding parse_params parse_identifier
parse_parameterised_identifier reader = do
  (id, r) ← parse_identifier reader
  (params, rest) ← parse_params (suc (length r)) [] r
  ok (record { id = id; params = params }, rest)

-- Behind a member: the end of the list (`none`), or the start of the next member.
abbrev pub next_member : Bytes → Result ParseError Bytes
next_member [] = err missing_member
next_member (c ∷ cs) = ok (c ∷ cs)

unfoldable pub parse_separator : Bytes → Result ParseError (Option Bytes)
unfolding discard_ows
parse_separator [] = ok none
parse_separator (c ∷ cs) = do
  r ← expect b',' (discard_ows (c ∷ cs))
  r' ← next_member (discard_ows r)
  ok (some r')

-- What follows a member: the end of the list, or the rest of the loop.
abbrev pub finish_or :
    List ParameterisedIdentifier
    → (Bytes → Result ParseError (List ParameterisedIdentifier))
    → Option Bytes
    → Result ParseError (List ParameterisedIdentifier)
finish_or items loop none = ok items
finish_or items loop (some reader) = loop reader

unfoldable pub parse_list_from :
    ℕ → List ParameterisedIdentifier → Bytes → Result ParseError (List ParameterisedIdentifier)
unfolding parse_parameterised_identifier parse_separator
parse_list_from zero items reader = err out_of_fuel
parse_list_from (suc fuel) items reader = do
  (item, r) ← parse_parameterised_identifier reader
  next ← parse_separator r
  finish_or (items ++ item ∷ []) (parse_list_from fuel (items ++ item ∷ [])) next

unfoldable pub parse_parameterised_list : Bytes → Result ParseError (List ParameterisedIdentifier)
unfolding parse_list_from
parse_parameterised_list [] = err empty_list
parse_parameterised_list (c ∷ cs) = parse_list_from (suc (length (c ∷ cs))) [] (c ∷ cs)
