-- ===== src/CertCache/Fetch.antt =====
-- packager/certcache/certcache.go: the request to the OCSP server and the validation of its answer.
-- Certificates with their fields, the OCSP library, the HTTP client, cachecontrol and the encoding
-- of the request's URL are parameters. Times and durations are nanoseconds.
pub mod Valid
use amppackager.Prelude.{
  ℕ, ◌+◌, ◌-◌, ◌*◌, Bool, true, false, not, ◌&&◌, ◌||◌, List, [], ◌∷◌, ◌++◌, Option, none, some,
  Result, ok, err, ltb, leb, ◌==◌, if◌then◌else◌, length,
}
use amppackager.Prelude.Text.{Bytes, codes, bytes_eq}
use amppackager.CertCache.{OcspResponse}

-- The fields of a certificate that are read; the names as `String` serializes them.
pub record Certificate : Type 0 where
  pub subject : Bytes
  pub issuer : Bytes
  pub not_before : ℕ
  pub not_after : ℕ
  pub ocsp_servers : List Bytes

-- A parsed OCSP response.
pub record OcspReply : Type 0 where
  pub status : ℕ
  pub produced_at : ℕ
  pub times : OcspResponse

pub record OcspRequest : Type 0 where
  pub method : Bytes
  pub url : Bytes
  pub content_type : Option Bytes
  pub body : Bytes

-- `ocsp.Good`
abbrev good : ℕ
good = 0

abbrev pub max_ocsp_response_bytes : ℕ
max_ocsp_response_bytes = 1024 * 1024

abbrev hour : ℕ
hour = 3600 * 1000000000

-- `time.Unix(1<<63-62135596801, 999999999)`, counted from 1970.
abbrev pub infinite_future : ℕ
infinite_future = 9223371974719179007 * 1000000000 + 999999999

abbrev find_issuer_in : Bytes → List Certificate → Option Certificate
find_issuer_in name [] = none
find_issuer_in name (c ∷ cs) = if bytes_eq c.subject name then some c else find_issuer_in name cs

-- `findIssuerUsingCerts`
unfoldable pub find_issuer_using_certs : List Certificate → Option Certificate
find_issuer_using_certs [] = none
find_issuer_using_certs (c ∷ cs) = find_issuer_in c.issuer (c ∷ cs)

-- `extractOCSPServer`, as `New` sets it.
unfoldable pub extract_ocsp_server : Certificate → Option Bytes
extract_ocsp_server c = elim c.ocsp_servers [ [] ↦ none | s ∷ rest ↦ some s ]

abbrev pub within : Certificate → ℕ → Bool
within c t = if ltb t c.not_before then false else not (ltb c.not_after t)

-- The tests of `fetchOCSP` on a parsed response, at a time.
unfoldable pub check_reply : Certificate → ℕ → OcspReply → Bool
check_reply c now r =
    if not (r.status == good)
    then false
    else if ltb now r.times.this_update
    then false
    else if ltb r.times.next_update now
    then false
    else if not (within c r.times.this_update)
    then false
    else if not (within c r.times.next_update)
    then false
    else if not (within c r.produced_at)
    then false
    else not (ltb (24 * 7 * hour) (r.times.next_update - r.times.this_update))

pub record OcspNetwork : Type 1 where
  pub World : Type 0
  pub now : World → ℕ
  -- `generateOCSPResponse`, where it is set.
  pub generate : Option (Certificate → Option Bytes)
  -- `ocsp.CreateRequest` for a certificate and its issuer.
  pub create_request : Certificate → Certificate → Option Bytes
  -- `url.PathEscape` on the encoding in base64.
  pub path_of : Bytes → Bytes
  -- `http.NewRequest` takes the method and the URL.
  pub is_request : Bytes → Bytes → Bool
  pub Reply : Type 0
  -- `client.Do`
  pub send : OcspRequest → World → Option Reply × World
  -- `cachecontrol.CachableResponse`: the expiry of a response without reasons against it.
  pub cachable_until : OcspRequest → Reply → Option ℕ
  -- `ioutil.ReadAll` on the body, up to a number of bytes.
  pub read_all : ℕ → Reply → Option Bytes
  -- `ocsp.ParseResponseForCert` for a certificate and its issuer.
  pub parse_response : Bytes → Certificate → Certificate → Option OcspReply

module _ (n : OcspNetwork) where
  open n use {World, Reply}

  -- `httpExpiry`, as `New` sets it.
  unfoldable pub http_expiry : OcspRequest → Reply → ℕ
  http_expiry req reply = elim (n.cachable_until req reply) [ none ↦ infinite_future | some t ↦ t ]

  -- The request: GET where the URL is short, POST where it is long, and to try again.
  unfoldable pub ocsp_request : Bytes → Bytes → Bool → OcspRequest
  ocsp_request server req is_retry =
      let get_url = server ++ (b'/' ∷ n.path_of req) in
      if leb (length get_url) 255 && not is_retry
      then record { method = codes "GET"; url = get_url; content_type = none; body = [] }
      else record {
        method = codes "POST";
        url = server;
        content_type = some (codes "application/ocsp-request");
        body = req;
      }

  abbrev pub parsed_or : Bytes → Certificate → ℕ → Bytes → Option OcspReply → Bytes
  parsed_or orig c now bytes none = orig
  parsed_or orig c now bytes (some r) = if check_reply c now r then bytes else orig

  abbrev pub read_or : Bytes → Certificate → Certificate → ℕ → Option Bytes → Bytes
  read_or orig c issuer now none = orig
  read_or orig c issuer now (some bytes) =
      parsed_or orig c now bytes (n.parse_response bytes c issuer)

  -- What is made of the answer to a request, with the expiry that it sets.
  abbrev pub answered :
      Bytes
      → Certificate
      → Certificate
      → OcspRequest
      → Option Reply × World
      → (Bytes × Option ℕ) × World
  answered orig c issuer req (none, w) = ((orig, none), w)
  answered orig c issuer req (some reply, w) = (
    (
      read_or orig c issuer (n.now w) (n.read_all max_ocsp_response_bytes reply),
      some (http_expiry req reply),
    ),
    w,
  )

  abbrev or_bytes : Bytes → Option Bytes → Bytes
  or_bytes orig none = orig
  or_bytes orig (some bytes) = bytes

  -- The development mode, without a server.
  abbrev pub generated : Bytes → Certificate → Option (Certificate → Option Bytes) → Bytes
  generated orig c none = orig
  generated orig c (some f) = or_bytes orig (f c)

  abbrev pub ask_server :
      Bytes
      → Bool
      → Certificate
      → Certificate
      → Bytes
      → Option Bytes
      → World
      → (Bytes × Option ℕ) × World
  ask_server orig is_retry c issuer req none w = ((generated orig c n.generate, none), w)
  ask_server orig is_retry c issuer req (some server) w =
      let request = ocsp_request server req is_retry in
      if n.is_request request.method request.url
      then answered orig c issuer request (n.send request w)
      else ((orig, none), w)

  abbrev pub ask :
      Bytes → Bool → Certificate → Certificate → Option Bytes → World → (Bytes × Option ℕ) × World
  ask orig is_retry c issuer none w = ((orig, none), w)
  ask orig is_retry c issuer (some req) w =
      ask_server orig is_retry c issuer req (extract_ocsp_server c) w

  abbrev pub with_issuer :
      Bytes → Bool → List Certificate → Option Certificate → World → (Bytes × Option ℕ) × World
  with_issuer orig is_retry (c ∷ cs) (some issuer) w =
      ask orig is_retry c issuer (n.create_request c issuer) w
  with_issuer orig is_retry _ _ w = ((orig, none), w)

  -- `fetchOCSP`: the response, and the time of the next fetch where it sets one.
  unfoldable pub fetch_ocsp : Bytes → List Certificate → Bool → World → (Bytes × Option ℕ) × World
  unfolding find_issuer_using_certs extract_ocsp_server ocsp_request http_expiry check_reply
  fetch_ocsp orig certs is_retry w =
      with_issuer orig is_retry certs (find_issuer_using_certs certs) w
