-- ===== src/Header.antt =====
-- packager/util/http.go: header values, hop-by-hop headers and quoted strings. A header is the
-- association list of its canonical keys, each with its values. `canonical_header_key` is what
-- net/http does where the code calls it.
pub mod Access
pub mod Remove
use amppackager.Prelude.{
  ℕ, ◌+◌, ◌-◌, Bool, true, false, not, ◌&&◌, ◌||◌, List, [], ◌∷◌, ◌++◌, map, Option, none, some,
  ltb, leb, ◌==◌, if◌then◌else◌,
}
use amppackager.Prelude.Split.{is_blank, trim, split, trim_pieces}
use amppackager.Prelude.Text.{Bytes, codes, bytes_eq, lookup}

-- `Comma.Split(s, -1)`, with Comma = `[ \t]*,[ \t]*`.
unfoldable pub comma_split : Bytes → List Bytes
unfolding split trim_pieces
comma_split s = trim_pieces (split b',' s)

unfoldable pub trim_header_value : Bytes → Bytes
unfolding trim
trim_header_value s = trim is_blank s

abbrev pub Header : Type 0
Header = List (Bytes × List Bytes)

-- `_, ok := set[k]` for a map whose values are all true.
unfoldable pub member : Bytes → List Bytes → Bool
member k [] = false
member k (j ∷ js) = bytes_eq j k || member k js

abbrev pub conditional_request_headers : List Bytes
conditional_request_headers =
    codes "If-Match"
    ∷ codes "If-None-Match"
    ∷ codes "If-Modified-Since"
    ∷ codes "If-Unmodified-Since"
    ∷ codes "If-Range"
    ∷ []

abbrev pub legacy_headers : List Bytes
legacy_headers =
    codes "Connection"
    ∷ codes "Keep-Alive"
    ∷ codes "Proxy-Authenticate"
    ∷ codes "Proxy-Connection"
    ∷ codes "Trailer"
    ∷ codes "Transfer-Encoding"
    ∷ codes "Upgrade"
    ∷ []

abbrev pub not_forwarded_request_header : List Bytes
not_forwarded_request_header = codes "Proxy-Authorization" ∷ codes "Te" ∷ codes "Via" ∷ []

abbrev is_upper : ℕ → Bool
is_upper c = leb b'A' c && leb c b'Z'

abbrev is_lower : ℕ → Bool
is_lower c = leb b'a' c && leb c b'z'

-- The bytes of an HTTP token.
unfoldable pub is_token_byte : ℕ → Bool
is_token_byte c =
    is_upper c
    || is_lower c
    || leb b'0' c && leb c b'9'
    || c == b'!'
    || leb b'#' c && leb c b'\''
    || c == b'*'
    || c == b'+'
    || c == b'-'
    || c == b'.'
    || leb b'^' c && leb c b'`'
    || c == b'|'
    || c == b'~'

unfoldable pub all_token_bytes : Bytes → Bool
unfolding is_token_byte
all_token_bytes [] = true
all_token_bytes (c ∷ cs) = is_token_byte c && all_token_bytes cs

-- Upper case for the first byte and each byte after a dash, lower case for the others.
unfoldable pub capitalize : Bool → Bytes → Bytes
capitalize start [] = []
capitalize start (c ∷ cs) =
    (if start && is_lower c then c - 32 else if not start && is_upper c then c + 32 else c)
    ∷ capitalize (c == b'-') cs

-- `http.CanonicalHeaderKey`: a name that is no token stays as it is.
unfoldable pub canonical_header_key : Bytes → Bytes
unfolding all_token_bytes capitalize
canonical_header_key s = if all_token_bytes s then capitalize true s else s

-- The header without the entry of a canonical key.
unfoldable pub remove_key : Bytes → Header → Header
remove_key k [] = []
remove_key k ((j, v) ∷ h) = if bytes_eq j k then remove_key k h else (j, v) ∷ remove_key k h

-- `h.Del(name)`
unfoldable pub del : Bytes → Header → Header
unfolding canonical_header_key remove_key
del name h = remove_key (canonical_header_key name) h

-- A loop of `h.Del` over names.
unfoldable pub del_all : List Bytes → Header → Header
unfolding del
del_all [] h = h
del_all (n ∷ ns) h = del_all ns (del n h)

-- The two loops over the values of the Connection header.
unfoldable pub del_connections : List Bytes → Header → Header
unfolding del_all comma_split
del_connections [] h = h
del_connections (c ∷ cs) h = del_connections cs (del_all (comma_split c) h)

-- The values read before the loop, none where the header is missing.
abbrev pub values_of : Option (List Bytes) → List Bytes
values_of none = []
values_of (some vs) = vs

unfoldable pub remove_hop_by_hop_headers : Header → Header
unfolding del_connections del_all canonical_header_key
remove_hop_by_hop_headers h =
    let connections = values_of (lookup (canonical_header_key (codes "Connection")) h) in
    del_all legacy_headers (del_connections connections h)

-- The text is empty where the header may be forwarded.
unfoldable pub have_invalid_forwarded_request_header : Bytes → Bytes
unfolding canonical_header_key member
have_invalid_forwarded_request_header h =
    if member (canonical_header_key h) legacy_headers
    then codes "have hop-by-hop header of " ++ h
    else if member (canonical_header_key h) conditional_request_headers
    then codes "have conditional request header of " ++ h
    else if member (canonical_header_key h) not_forwarded_request_header
    then codes "include request header of " ++ h
    else []

-- The loop of `QuotedString`, to the closing quote; `none` is the error.
unfoldable pub quote_from : Bytes → Bytes → Option Bytes
quote_from ret [] = some (ret ++ b'"' ∷ [])
quote_from ret (b ∷ bs) =
    let escaped = quote_from (ret ++ b'\\' ∷ b ∷ []) bs in
    let plain = quote_from (ret ++ b ∷ []) bs in
    if (ltb b 32 || ltb 126 b) && not (b == 9)
    then none
    else if b == b'"' || b == b'\\'
    then escaped
    else plain

unfoldable pub quoted_string : Bytes → Option Bytes
unfolding quote_from
quoted_string input = quote_from (b'"' ∷ []) input
