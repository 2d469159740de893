-- ===== src/Signer/Forward.antt =====
-- `fetchURL` of packager/signer/signer.go: the request that goes to the backend.
use amppackager.Prelude.{
  Bool, true, false, ◌||◌, List, [], ◌∷◌, ◌++◌, Option, none, some, ◌==◌, if◌then◌else◌,
}
use amppackager.Prelude.Text.{Bytes, codes, bytes_eq}
use amppackager.Config.{is_empty}
use amppackager.Mux.Prefix.{strip_prefix, trim_prefix}
use amppackager.Header.{
  Header, is_token_byte, canonical_header_key, conditional_request_headers, quoted_string,
}
use amppackager.Header.Access.{get_joined, get, set}

-- What the code reads of the incoming request.
pub record Incoming : Type 0 where
  pub proto : Bytes
  pub host : Bytes
  pub header : Header

-- The outgoing request: the value of `req.Host` that the code sets, and the header.
pub record Outgoing : Type 0 where
  pub host : Option Bytes
  pub header : Header

abbrev pub user_agent : Bytes
user_agent =
    codes
      "Mozilla/5.0 (Linux; Android 6.0.1; Nexus 5X Build/MMB29P) AppleWebKit/537.36 (KHTML, like Gecko) Chrome/41.0.2272.96 Mobile Safari/537.36 (compatible; amppackager/0.0.0; +https://github.com/ampproject/amppackager)"

abbrev all_protocol_bytes : Bytes → Bool
all_protocol_bytes [] = true
all_protocol_bytes (c ∷ cs) = if is_token_byte c || c == b'/' then all_protocol_bytes cs else false

-- `protocol.MatchString`
unfoldable pub is_protocol : Bytes → Bool
unfolding is_token_byte
is_protocol s = if is_empty s then false else all_protocol_bytes s

-- `if value := GetJoined(…); value != "" { req.Header.Set(header, value) }`
abbrev pub copy_header : Header → Bytes → Header → Header
copy_header from name to =
    let value = get_joined from name in if is_empty value then to else set name value to

-- The loop over `forwardedRequestHeaders`.
unfoldable pub forward : Incoming → List Bytes → Outgoing → Outgoing
unfolding canonical_header_key get_joined set
forward req [] out = out
forward req (name ∷ names) out =
    if bytes_eq (canonical_header_key name) (codes "Host")
    then forward req names (record { host = some req.host; header = out.header })
    else forward req names
        (record { host = out.host; header = copy_header req.header name out.header })

unfoldable pub set_via : Bytes → Header → Header
unfolding is_protocol get_joined set strip_prefix
set_via proto h =
    if is_protocol proto
    then (let via = trim_prefix proto (codes "HTTP/") ++ codes " amppkg" in
        let upstream = get_joined h (codes "Via") in
        set (codes "Via") (if is_empty upstream then via else upstream ++ (codes ", " ++ via)) h)
    else h

abbrev set_forwarded_to : Option Bytes → Incoming → Header → Header
set_forwarded_to none req h = h
set_forwarded_to (some quoted_host) req h =
    let old = get req.header (codes "X-Forwarded-Host") in
    set (codes "X-Forwarded-Host")
      (if is_empty old then req.host else old ++ (codes "," ++ req.host))
      (set (codes "Forwarded") (codes "host=" ++ quoted_host) h)

unfoldable pub set_forwarded : Incoming → Header → Header
unfolding quoted_string get set
set_forwarded req h = set_forwarded_to (quoted_string req.host) req h

-- The loop over `ConditionalRequestHeaders`.
unfoldable pub copy_headers : Header → List Bytes → Header → Header
unfolding get_joined set
copy_headers from [] to = to
copy_headers from (name ∷ names) to = copy_headers from names (copy_header from name to)

unfoldable pub outgoing_request : List Bytes → Incoming → Outgoing
unfolding forward set_via set_forwarded copy_headers set
outgoing_request forwarded req =
    let out =
      forward req forwarded
        (record { host = none; header = set (codes "User-Agent") user_agent [] }) in
    record {
      host = out.host;
      header =
          copy_headers req.header conditional_request_headers
            (set_forwarded req (set_via req.proto out.header));
    }
