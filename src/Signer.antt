-- ===== src/Signer.antt =====
-- packager/signer/signer.go: from a request to a signed exchange, an unsigned copy of the backend's
-- response, or an error. The signedexchange library, the HTML transformer, the clock, the
-- certificate and the backend are parameters (`Backend`); logs and metrics are left out.
pub mod Csp
pub mod Link
pub mod Forward
pub mod Laws
pub mod CspLaws
pub mod Chains
pub mod Fallback
pub mod Signed
pub mod Taken
use amppackager.Prelude.{
  ℕ, suc, ◌+◌, ◌-◌, ◌*◌, Bool, true, false, not, ◌&&◌, ◌||◌, List, [], ◌∷◌, ◌++◌, Option, none,
  some, Result, ok, err, ◌>>=◌, ltb, leb, ◌==◌, if◌then◌else◌, length,
}
use amppackager.Prelude.Int.{ℤ, pos, negsuc, ltb_ℤ}
use amppackager.Prelude.Text.{Bytes, codes, insert}
use amppackager.Config.{UrlSet, is_empty}
use amppackager.Mux.{validity_map_path}
use amppackager.Versions.{select_version}
use amppackager.CacheTransform.Answer.{should_send_sxg, format_digits}
use amppackager.Accept.{can_satisfy}
use amppackager.Header.{Header, del, del_all, remove_hop_by_hop_headers}
use amppackager.Header.Access.{get_joined, get, set}
use amppackager.Validation.{UrlError, parse_urls}
use amppackager.Validation.Url.{UrlLib}
use amppackager.Validation.Fetch.{validate_fetch}
use amppackager.Signer.Csp.{mutate_fetched_content_security_policy}
use amppackager.Signer.Link.{Preload, format_link_header}
use amppackager.Signer.Forward.{Incoming, Outgoing, outgoing_request, copy_headers}

abbrev pub stateful_response_headers : List Bytes
stateful_response_headers =
    codes "Authentication-Control"
    ∷ codes "Authentication-Info"
    ∷ codes "Clear-Site-Data"
    ∷ codes "Optional-WWW-Authenticate"
    ∷ codes "Proxy-Authenticate"
    ∷ codes "Proxy-Authentication-Info"
    ∷ codes "Public-Key-Pins"
    ∷ codes "Sec-WebSocket-Accept"
    ∷ codes "Set-Cookie"
    ∷ codes "Set-Cookie2"
    ∷ codes "SetProfile"
    ∷ codes "Strict-Transport-Security"
    ∷ codes "WWW-Authenticate"
    ∷ []

abbrev pub status_not_modified_headers : List Bytes
status_not_modified_headers =
    codes "Cache-Control"
    ∷ codes "Content-Location"
    ∷ codes "Date"
    ∷ codes "ETag"
    ∷ codes "Expires"
    ∷ codes "Vary"
    ∷ []

abbrev pub max_signable_body_length : ℕ
max_signable_body_length = 4194304

abbrev pub mi_record_size : ℕ
mi_record_size = 16384

-- Nanoseconds.
abbrev pub second : ℕ
second = 1000000000

abbrev pub day : ℕ
day = 86400000000000

-- What the transformer answers besides the document; the age is an int32.
pub record Metadata : Type 0 where
  pub preloads : List Preload
  pub max_age_secs : ℤ

-- A response body as a reader: its bytes, and whether an error follows them in place of the end.
pub record Body : Type 0 where
  pub content : Bytes
  pub fails : Bool

pub record Response : Type 0 where
  pub status : ℕ
  pub header : Header
  pub body : Body

-- What the server writes. The copy of a body to the client may end in an error of the reader.
pub data Reply : Type 0 where
  http_error : ℕ → Reply
  not_modified : Header → Reply
  proxied : ℕ → Header → Bytes → Bool → Reply
  signed : Header → Bytes → Reply

-- `duration` of `serveSignedExchange`: seven days, or the age where that is shorter.
abbrev pub shorter_age : ℤ → ℤ
shorter_age (pos secs) = pos (if ltb (secs * second) (7 * day) then secs * second else 7 * day)
shorter_age (negsuc n) = negsuc (suc n * second - 1)

-- `t.Add(d)` on times in nanoseconds since the zero time.
abbrev pub add_duration : ℕ → ℤ → ℕ
add_duration t (pos d) = t + d
add_duration t (negsuc d) = t - suc d

unfoldable pub any_header : Header → List Bytes → Bool
unfolding get_joined
any_header h [] = false
any_header h (name ∷ names) =
    if not (is_empty (get_joined h name)) then true else any_header h names

-- One of the Variants headers is there.
unfoldable pub has_variants : Header → Bool
unfolding get
has_variants h =
    not (is_empty (get h (codes "Variants")))
    || not (is_empty (get h (codes "Variant-Key")))
    || not (is_empty (get h (codes "Variants-04")))
    || not (is_empty (get h (codes "Variant-Key-04")))

abbrev set_or_del : Bytes → Bytes → Header → Header
set_or_del name [] h = del name h
set_or_del name (c ∷ cs) h = set name (c ∷ cs) h

-- The changes of the response's header before it is signed.
unfoldable pub signed_header : Bytes → Bytes → Header → Header
unfolding del_all del set get mutate_fetched_content_security_policy format_digits
signed_header transformed link h =
    let clean = set_or_del (codes "Link") link (del_all stateful_response_headers h) in
    let sized =
      set (codes "X-Content-Type-Options") (codes "nosniff")
        (set (codes "Content-Length") (format_digits 20 (length transformed)) clean) in
    set (codes "Content-Security-Policy")
      (mutate_fetched_content_security_policy (get sized (codes "Content-Security-Policy"))) sized

abbrev or_else {ℓ κ} : {E : Type ℓ} {A : Type κ} → E → Option A → Result E A
or_else e none = err e
or_else e (some a) = ok a

abbrev drop_error {ℓ κ μ} : {E : Type ℓ} {F : Type κ} {A : Type μ} → E → Result F A → Result E A
drop_error e (err f) = err e
drop_error e (ok a) = ok a

abbrev pub check : {E : Type 0} → Bool → E → Result E (Unit {0})
check true e = err e
check false e = ok tt

-- The loop that copies a header into the response's.
abbrev pub copy_into : Header → Header → Header
copy_into [] outer = outer
copy_into ((k, v) ∷ h) outer = copy_into h (insert k v outer)

-- The header of a response before the handler answers.
abbrev pub vary_header : Header
vary_header = (codes "Vary", codes "Accept, AMP-Cache-Transform" ∷ []) ∷ []

abbrev pub take : ℕ → Bytes → Bytes
take n [] = []
take n (c ∷ cs) = if n == 0 then [] else c ∷ take (n - 1) cs

abbrev pub drop : ℕ → Bytes → Bytes
drop n [] = []
drop n (c ∷ cs) = if n == 0 then c ∷ cs else drop (n - 1) cs

-- What `http.Error` writes for the status 500.
abbrev pub error_body : Bytes
error_body = codes "Internal Server Error" ++ 10 ∷ []

-- What `proxyImpl` writes for the body that it copies: where the copy fails before its first byte,
-- the text of an error. Its header and its status come too late.
abbrev pub copied : Bytes → Bool → Bytes
copied [] fails = if fails then error_body else []
copied (c ∷ cs) fails = c ∷ cs

-- `proxyImpl`: the header copied into the response's, and the bytes that it writes.
abbrev pub proxy_impl : Header → ℕ → Bytes → Bytes → Bool → Reply
proxy_impl header status consumed unconsumed fails =
    proxied status (copy_into header vary_header) (consumed ++ copied unconsumed fails) fails

abbrev pub proxy_unconsumed : Response → Reply
proxy_unconsumed r = proxy_impl r.header r.status [] r.body.content r.body.fails

-- `proxyPartiallyConsumed` after `maxSignableBodyLength` bytes are read.
abbrev pub proxy_partially_consumed : Response → Reply
proxy_partially_consumed r =
    proxy_impl r.header r.status (take max_signable_body_length r.body.content)
      (drop max_signable_body_length r.body.content) r.body.fails

-- `proxyConsumed`, with the header as it is by then.
abbrev pub proxy_consumed : Header → Response → Reply
proxy_consumed header r = proxy_impl header r.status r.body.content [] false

pub record Backend (u : UrlLib) : Type 1 where
  -- `regexp.MatchString`, `mime.ParseMediaType` and cachecontrol's `CachableResponse`.
  pub match_string : Bytes → Bytes → Bool
  pub parse_media_type : Bytes → Option (Bytes × List (Bytes × Bytes))
  pub cachable_response : Header → ℕ → Header → Option (List Bytes)
  -- `http.NewRequest` takes the URL, and `client.Do` with no redirects.
  pub new_request : Bytes → Bool
  pub do_request : Bytes → Outgoing → Option Response
  -- `transformer.Process` on the document, its URL and the version.
  pub process : Bytes → Bytes → ℤ → Option (Bytes × Metadata)
  -- The signedexchange library. An exchange keeps the map of headers that it is made with, and
  -- the operations change that map: `header_of` is what the map holds. The flag is success.
  pub Exchange : Type 0
  pub new_exchange : Bytes → ℕ → Header → Bytes → Exchange
  pub header_of : Exchange → Header
  pub mi_encode_payload : ℕ → Exchange → Bool × Exchange
  -- The date, the expiry, the certificate's URL and the validity URL; the certificate and the key
  -- are fixed.
  pub add_signature_header : ℕ → ℕ → u.Url → u.Url → Exchange → Bool × Exchange
  pub write : Exchange → Option Bytes
  -- `path.Join(util.CertURLPrefix, url.PathEscape(util.CertName(cert)))` for the latest certificate.
  pub cert_path : Bytes
  pub healthy : Bool
  pub now : ℕ

pub record Signer (u : UrlLib) : Type 0 where
  pub url_sets : List UrlSet
  pub override_base_url : Option u.Url
  pub require_headers : Bool
  pub forwarded_request_headers : List Bytes

-- The incoming request with `mux.Params(req)["signURL"]` and the parsed form, `none` for the error
-- of `ParseForm`. The form's missing keys have no values.
pub record SignRequest : Type 0 where
  pub incoming : Incoming
  pub in_path_sign_url : Bytes
  pub form : Option (Bytes → List Bytes)

pub record SxgParams (u : UrlLib) : Type 0 where
  pub sign_url : u.Url
  pub amp_cache_transform : Bytes
  pub transform_version : ℤ

-- `req.FormValue`
abbrev pub form_value : List Bytes → Bytes
form_value [] = []
form_value (v ∷ vs) = v

-- The values of `fetch` and `sign`.
unfoldable pub query_urls : SignRequest → Result Reply (Bytes × Bytes)
query_urls req = or_else (http_error 400) req.form >>= λ form.
    if not (is_empty req.in_path_sign_url)
    then ok ([], req.in_path_sign_url)
    else if ltb 1 (length (form (codes "fetch")))
    then err (http_error 400)
    else if not (length (form (codes "sign")) == 1)
    then err (http_error 400)
    else ok (form_value (form (codes "fetch")), form_value (form (codes "sign")))

abbrev stepped : {E : Type 0} → (E → Header) → Response → Bool × E → Result Reply E
stepped header r (true, e) = ok e
stepped header r (false, e) = err (proxy_consumed (header e) r)

-- The answer of a chain that ends early in a reply.
abbrev pub reply_of : Result Reply Reply → Reply
reply_of (ok r) = r
reply_of (err r) = r

module _ (u : UrlLib) (b : Backend u) (s : Signer u) where
  open u use {Url}

  abbrev base_url : Option Url → Url → Url
  base_url none sign_url = sign_url
  base_url (some url) sign_url = url

  -- `genCertURL`
  unfoldable pub gen_cert_url : Url → Option Url
  gen_cert_url sign_url = elim (u.parse b.cert_path) [
    | none ↦ none
    | some href ↦ some (u.resolve_reference (base_url s.override_base_url sign_url) href)
  ]

  abbrev pub date : ℕ
  date = b.now - day

  abbrev pub expires : ℤ → ℕ
  expires max_age = add_duration date (shorter_age max_age)

  -- The header of the signed exchange's response.
  abbrev pub sxg_header : Bytes → Header
  sxg_header act =
      let outer =
        if is_empty act then vary_header else set (codes "AMP-Cache-Transform") act vary_header in
      set (codes "X-Content-Type-Options") (codes "nosniff") (
        set (codes "Cache-Control") (codes "no-transform, max-age=0")
          (set (codes "Content-Type") (codes "application/signed-exchange;v=b3") outer))

  unfoldable pub serve_signed_exchange : Response → SxgParams u → Result Reply Reply
  unfolding format_link_header signed_header gen_cert_url set
  serve_signed_exchange r p = do
    (transformed, metadata) ←
        or_else (proxy_consumed r.header r)
          (b.process r.body.content (u.text p.sign_url) p.transform_version)
    link ← drop_error (proxy_consumed r.header r) (format_link_header u metadata.preloads)
    encoded ← stepped b.header_of r (
        b.mi_encode_payload mi_record_size (
          b.new_exchange (u.text p.sign_url) r.status (signed_header transformed link r.header)
            transformed))
    cert_url ← or_else (proxy_consumed (b.header_of encoded) r) (gen_cert_url p.sign_url)
    validity ← or_else (proxy_consumed (b.header_of encoded) r) (u.parse validity_map_path)
    fresh ←
        check (not (ltb b.now (expires metadata.max_age_secs)))
          (proxy_consumed (b.header_of encoded) r)
    exchange ← stepped b.header_of r (
        b.add_signature_header date (expires metadata.max_age_secs) cert_url
          (u.resolve_reference p.sign_url validity) encoded)
    bytes ← or_else (proxy_consumed (b.header_of exchange) r) (b.write exchange)
    ok (signed (sxg_header p.amp_cache_transform) bytes)

  -- `consumeAndSign`: the read stops at the limit, before an error that lies behind it.
  unfoldable pub consume_and_sign : Response → SxgParams u → Result Reply Reply
  unfolding serve_signed_exchange
  consume_and_sign r p =
      if leb max_signable_body_length (length r.body.content)
      then err (proxy_partially_consumed r)
      else if r.body.fails
      then err (http_error 502)
      else serve_signed_exchange r p

  -- `fetchURL`
  unfoldable pub fetch_url : Url → Incoming → Result Reply (Outgoing × Response)
  unfolding outgoing_request remove_hop_by_hop_headers
  fetch_url url incoming =
      if not (b.new_request (u.text url))
      then err (http_error 500)
      else (let out = outgoing_request s.forwarded_request_headers incoming in
          or_else (http_error 502) (b.do_request (u.text url) out) >>= λ r. ok (
            out,
            record {
              status = r.status;
              header = remove_hop_by_hop_headers r.header;
              body = r.body;
            },
          ))

  abbrev answered : Reply → Bytes × ℤ → Result Reply (Bytes × ℤ)
  answered unsigned (act, version) = if is_empty act then err unsigned else ok (act, version)

  -- The choice of the transforms' version, and of the answer to AMP-Cache-Transform.
  unfoldable pub choose_version : Header → Reply → Result Reply (Bytes × ℤ)
  unfolding should_send_sxg select_version get_joined
  choose_version h unsigned =
      if s.require_headers
      then answered unsigned (should_send_sxg (get_joined h (codes "AMP-Cache-Transform")))
      else (drop_error unsigned (select_version []) >>= λ version. ok ([], version))

  -- The 200 case.
  unfoldable pub sign_fetched : Bool → Header → Response → SxgParams u → Result Reply Reply
  unfolding validate_fetch any_header has_variants consume_and_sign
  sign_fetched error_on_stateful request r p = do
    fit ←
        drop_error (proxy_unconsumed r)
          (validate_fetch b.cachable_response b.parse_media_type request r.status r.header)
    stateless ←
        check (error_on_stateful && any_header r.header stateful_response_headers)
          (proxy_unconsumed r)
    plain ← check (has_variants r.header) (proxy_unconsumed r)
    consume_and_sign r p

  abbrev parsing_reply : UrlError u b.match_string → Reply
  parsing_reply e = http_error 400

  abbrev parsed_urls :
      Result (UrlError u b.match_string) (Url × Url × Bool) → Result Reply (Url × Url × Bool)
  parsed_urls (ok urls) = ok urls
  parsed_urls (err e) = err (parsing_reply e)

  -- What follows the backend's answer.
  unfoldable pub answer_fetched :
      SignRequest → Url → Bool → Outgoing → Response → Result Reply Reply
  unfolding choose_version can_satisfy copy_headers sign_fetched get_joined
  answer_fetched req sign_url error_on_stateful out r = do
    healthy ← check (not b.healthy) (proxy_unconsumed r)
    (act, version) ← choose_version req.incoming.header (proxy_unconsumed r)
    accepted ←
        check
          (s.require_headers
            && not
                (can_satisfy b.parse_media_type (get_joined req.incoming.header (codes "Accept"))))
          (proxy_unconsumed r)
    if r.status == 200
        then sign_fetched error_on_stateful out.header r
            (record { sign_url = sign_url; amp_cache_transform = act; transform_version = version })
        else if r.status == 304
        then ok (not_modified (copy_headers r.header status_not_modified_headers vary_header))
        else err (proxy_unconsumed r)

  unfoldable pub serve_chain : SignRequest → Result Reply Reply
  unfolding query_urls parse_urls fetch_url answer_fetched
  serve_chain req = do
    (fetch, sign) ← query_urls req
    (fetched_url, sign_url, error_on_stateful) ←
        parsed_urls (parse_urls u b.match_string fetch sign s.url_sets)
    (out, r) ← fetch_url fetched_url req.incoming
    answer_fetched req sign_url error_on_stateful out r

  -- `ServeHTTP`
  abbrev pub serve_http : SignRequest → Reply
  serve_http req = reply_of (serve_chain req)
