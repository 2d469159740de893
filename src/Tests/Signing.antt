-- ===== src/Tests/Signing.antt =====
-- Tests of the signer.
use amppackager.Prelude.{
  Option, List, ◌≡◌, refl, true, false, [], ◌∷◌, ◌++◌, map, none, some, ok, err, arith, length,
}
use amppackager.Prelude.Int.{ℤ, pos}
use amppackager.Prelude.Split.{is_space, trim, split}
use amppackager.Prelude.Text.{Bytes, codes, lookup}
use amppackager.CacheTransform.Answer.{format_digits}
use amppackager.Header.{Header}
use amppackager.Signer.Csp.{
  mutate_fetched_content_security_policy, default_src, report_uri, script_src, style_src,
  object_src,
}
use amppackager.Signer.CspLaws.{kept, split-mutate_fetched_content_security_policy}
use amppackager.Signer.Forward.{Outgoing}
use amppackager.Signer.Link.{format_link_header}
use amppackager.Signer.Laws.{signed_value, signed_header_lem}
use amppackager.Signer.{
  Response, Reply, signed, proxied, Backend, Signer, SignRequest, SxgParams, signed_header,
  gen_cert_url, serve_signed_exchange, answer_fetched, sxg_header, copy_into, vary_header,
  proxy_unconsumed,
}
use amppackager.Signer.Fallback.{Whole, answer_fetched-Whole}
use amppackager.Signer.Signed.{
  IsSigned, serve_signed_exchange-IsSigned, serve_signed_exchange-stale,
}
use amppackager.Signer.Taken.{IsTaken, answer_fetched-IsTaken}
use amppackager.Header.Access.{get}
use amppackager.Validation.Fetch.{validate_fetch, IsSignable, validate_fetch-IsSignable}
use amppackager.Tests.Server.{plain_urls}

abbrev policy : Bytes
policy = codes "font-src a; img-src b ;Base-URI c"

split-mutate_fetched_content_security_policy_example :
    split b';' (mutate_fetched_content_security_policy policy)
    ≡ kept (map (trim is_space) (split b';' policy))
      ++ (default_src ∷ report_uri ∷ script_src ∷ style_src ∷ object_src ∷ [])
split-mutate_fetched_content_security_policy_example =
    split-mutate_fetched_content_security_policy policy

abbrev fetched_header : Header
fetched_header =
    (codes "Content-Type", codes "text/html" ∷ []) ∷ (codes "Set-Cookie", codes "id=1" ∷ []) ∷ []

signed_header_lem_example :
    lookup (codes "Set-Cookie") (signed_header (codes "<html>") [] fetched_header)
    ≡ signed_value (codes "<html>") [] (codes "Set-Cookie") fetched_header
signed_header_lem_example =
    signed_header_lem (codes "<html>") [] (codes "Set-Cookie") fetched_header

-- A backend that keeps the document and gives it an age, 20 days after the zero time.
abbrev backend : ℤ → Backend plain_urls
backend age = record {
  match_string = λ re s. true;
  parse_media_type = λ t. some (codes "text/html", []);
  cachable_response = λ request status header. some [];
  new_request = λ url. true;
  do_request = λ url out. none;
  process = λ document url version. some (document, record { preloads = []; max_age_secs = age });
  Exchange = Header × Bytes;
  new_exchange = λ uri status header payload. (header, payload);
  header_of = λ e. e.0;
  mi_encode_payload = λ size e. (true, e);
  add_signature_header = λ date end cert validity e. (true, e);
  write = λ e. some e.1;
  cert_path = codes "/amppkg/cert/x";
  healthy = true;
  now = 1728000000000000;
}

abbrev the_signer : Signer plain_urls
the_signer = record {
  url_sets = [];
  override_base_url = none;
  require_headers = false;
  forwarded_request_headers = [];
}

abbrev page : Response
page = record {
  status = 200;
  header = fetched_header;
  body = record { content = codes "<html>"; fails = false };
}

abbrev params : SxgParams plain_urls
params = record {
  sign_url = codes "https://a.com/x";
  amp_cache_transform = [];
  transform_version = pos 8;
}

abbrev page_reply : Reply
page_reply = signed (sxg_header plain_urls (backend (pos 90000)) the_signer []) (codes "<html>")

page_is_served :
    serve_signed_exchange plain_urls (backend (pos 90000)) the_signer page params ≡ ok page_reply
unfolding serve_signed_exchange
page_is_served = refl

serve_signed_exchange-IsSigned_example :
    IsSigned plain_urls (backend (pos 90000)) the_signer page params page_reply
serve_signed_exchange-IsSigned_example =
    serve_signed_exchange-IsSigned plain_urls (backend (pos 90000)) the_signer page params
      page_reply page_is_served

abbrev request : SignRequest
request = record {
  incoming = record { proto = codes "HTTP/1.1"; host = codes "b.com"; header = [] };
  in_path_sign_url = codes "https://a.com/x";
  form = some (λ key. []);
}

abbrev no_headers : Outgoing
no_headers = record { host = none; header = [] }

page_is_answered :
    answer_fetched plain_urls
      (backend (pos 90000))
      the_signer
      request
      (codes "https://a.com/x")
      false
      no_headers
      page
    ≡ ok page_reply
unfolding answer_fetched
page_is_answered = refl

answer_fetched-IsTaken_example :
    IsTaken plain_urls
      (backend (pos 90000))
      the_signer
      request
      (codes "https://a.com/x")
      false
      no_headers
      page
      page_reply
answer_fetched-IsTaken_example =
    answer_fetched-IsTaken plain_urls (backend (pos 90000)) the_signer request
      (codes "https://a.com/x") false no_headers page page_reply page_is_answered

stateful_is_proxied :
    answer_fetched plain_urls
      (backend (pos 90000))
      the_signer
      request
      (codes "https://a.com/x")
      true
      no_headers
      page
    ≡ err (proxy_unconsumed page)
unfolding answer_fetched
stateful_is_proxied = refl

answer_fetched-Whole_example : Whole page (proxy_unconsumed page)
answer_fetched-Whole_example =
    answer_fetched-Whole plain_urls (backend (pos 90000)) the_signer request
      (codes "https://a.com/x") true no_headers page (proxy_unconsumed page) stateful_is_proxied

abbrev stale_header : Header
stale_header = signed_header (codes "<html>") [] fetched_header

serve_signed_exchange-stale_example :
    (serve_signed_exchange plain_urls (backend (pos 3600)) the_signer page params
      ≡ err (proxied 200 (copy_into stale_header vary_header) (codes "<html>" ++ []) false))
    × (lookup (codes "Content-Length") stale_header
        ≡ some (format_digits 20 (length (codes "<html>")) ∷ []))
unfolding format_link_header gen_cert_url
serve_signed_exchange-stale_example =
    serve_signed_exchange-stale plain_urls (backend (pos 3600)) the_signer page params
      (codes "<html>") (record { preloads = []; max_age_secs = pos 3600 }) []
      (stale_header, codes "<html>") (codes "https://a.com/x") (codes "/amppkg/validity") refl refl
      refl refl refl refl (omega arith) (omega arith)

abbrev html_type : Bytes → Option (Bytes × List (Bytes × Bytes))
html_type t = some (codes "text/html", (codes "charset", codes "UTF-8") ∷ [])

fetched_is_valid :
    validate_fetch (λ request status header. some []) html_type [] 200 fetched_header ≡ ok tt
unfolding validate_fetch
fetched_is_valid = refl

validate_fetch-IsSignable_example :
    IsSignable (some []) (html_type (get fetched_header (codes "Content-Type"))) fetched_header
validate_fetch-IsSignable_example =
    validate_fetch-IsSignable (λ request status header. some []) html_type [] 200 fetched_header
      fetched_is_valid
