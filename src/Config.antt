-- ===== src/Config.antt =====
-- packager/util/config.go: the configuration and its validation, which also sets defaults. A
-- pointer or slice that may be nil is an `Option`. The TOML reader (go-toml), `regexp.Compile`
-- and the test that a directory exists are parameters.
pub mod Valid
use amppackager.Prelude.{
  ℕ, zero, suc, Bool, true, false, not, ◌&&◌, ◌||◌, List, [], ◌∷◌, ◌++◌, Option, none, some, Result,
  ok, err, ◌>>=◌, if◌then◌else◌, Option-cases,
}
use amppackager.Prelude.Int.{ℤ, pos}
use amppackager.Prelude.Text.{Bytes, codes, bytes_eq}
use amppackager.Header.{member, have_invalid_forwarded_request_header}

pub record UrlPattern : Type 0 where
  pub scheme : Option (List Bytes)
  pub domain_re : Bytes
  pub domain : Bytes
  pub path_re : Option Bytes
  pub path_exclude_re : List Bytes
  pub query_re : Option Bytes
  pub error_on_stateful_headers : Bool
  pub max_length : ℤ
  pub same_path : Option Bool

pub record UrlSet : Type 0 where
  pub fetch : Option UrlPattern
  pub sign : Option UrlPattern

pub record AcmeServerConfig : Type 0 where
  pub account_url : Bytes
  pub disco_url : Bytes
  pub email_address : Bytes
  pub eab_kid : Bytes
  pub eab_hmac : Bytes
  pub http_challenge_port : ℤ
  pub http_web_root_dir : Bytes
  pub tls_challenge_port : ℤ
  pub dns_provider : Bytes

pub record AcmeConfig : Type 0 where
  pub production : Option AcmeServerConfig
  pub development : Option AcmeServerConfig

pub record Config : Type 0 where
  pub local_only : Bool
  pub port : ℤ
  pub cert_file : Bytes
  pub key_file : Bytes
  pub csr_file : Bytes
  pub new_cert_file : Bytes
  pub ocsp_cache : Bytes
  pub forwarded_request_headers : List Bytes
  pub url_set : List UrlSet
  pub acme_config : Option AcmeConfig

-- What `os.Stat` tells of the directory of the OCSP cache; `unreadable` is another error than a
-- missing file.
pub data OcspDir : Type 0 where
  directory missing no_directory unreadable : OcspDir

pub data ConfigError : Type 0 where
  bad_toml no_cert_file no_key_file no_ocsp_cache no_ocsp_dir stat_crash no_url_set : ConfigError
  forwarded_header : Bytes → ConfigError
  bad_path_re bad_path_exclude_re bad_query_re : ConfigError
  no_section scheme_not_allowed no_domain domain_re_not_allowed same_path_not_allowed : ConfigError
  bad_scheme no_domain_or_re domain_and_re stateful_not_allowed : ConfigError

-- Refuses with the error where the test holds.
abbrev pub refuse_if : Bool → ConfigError → Result ConfigError (Unit {0})
refuse_if true e = err e
refuse_if false e = ok tt

infixr 6 ◌>>◌
abbrev pub ◌>>◌ {ℓ} :
    {A : Type ℓ} → Result ConfigError (Unit {0}) → Result ConfigError A → Result ConfigError A
m >> k = m >>= λ _. k

abbrev pub is_empty : Bytes → Bool
is_empty [] = true
is_empty (c ∷ cs) = false

abbrev pub is_zero : ℤ → Bool
is_zero (pos zero) = true
is_zero _ = false

abbrev pub is_set {ℓ} : {A : Type ℓ} → Option A → Bool
is_set none = false
is_set (some a) = true

abbrev pub or_default {ℓ} : {A : Type ℓ} → A → Option A → A
or_default d none = d
or_default d (some a) = a

abbrev pub allowed_fetch_schemes : List Bytes
allowed_fetch_schemes = codes "http" ∷ codes "https" ∷ []

-- The loop over the schemes.
unfoldable pub check_schemes : List Bytes → Result ConfigError (Unit {0})
unfolding member
check_schemes [] = ok tt
check_schemes (s ∷ ss) =
    if not (member s allowed_fetch_schemes) then err bad_scheme else check_schemes ss

-- The schemes with the default: the keys of the map, in one of the orders that Go may take.
abbrev pub schemes_or_default : Option (List Bytes) → Result ConfigError (List Bytes)
schemes_or_default none = ok allowed_fetch_schemes
schemes_or_default (some []) = ok allowed_fetch_schemes
schemes_or_default (some (s ∷ ss)) = check_schemes (s ∷ ss) >> ok (s ∷ ss)

unfoldable pub validate_forwarded_request_headers : List Bytes → Result ConfigError (Unit {0})
unfolding have_invalid_forwarded_request_header
validate_forwarded_request_headers [] = ok tt
validate_forwarded_request_headers (h ∷ hs) =
    let msg = have_invalid_forwarded_request_header h in
    if not (is_empty msg) then err (forwarded_header msg) else validate_forwarded_request_headers hs

abbrev pub loaded : Option Config → Result ConfigError Config
loaded none = err bad_toml
loaded (some c) = ok c

abbrev pub no_url_sets : List UrlSet → Bool
no_url_sets [] = true
no_url_sets (s ∷ ss) = false

module _ (valid_regexp : Bytes → Bool) where
  abbrev pub bad_regexp : Option Bytes → Bool
  bad_regexp none = false
  bad_regexp (some re) = not (valid_regexp re)

  unfoldable pub check_excludes : List Bytes → Result ConfigError (Unit {0})
  check_excludes [] = ok tt
  check_excludes (re ∷ res) =
      if not (valid_regexp re) then err bad_path_exclude_re else check_excludes res

  unfoldable pub validate_url_pattern : UrlPattern → Result ConfigError UrlPattern
  unfolding check_excludes
  validate_url_pattern p =
      refuse_if (bad_regexp p.path_re) bad_path_re
      >> check_excludes p.path_exclude_re
      >> refuse_if (bad_regexp p.query_re) bad_query_re
      >> ok (record p {
        path_re = some (or_default (codes ".*") p.path_re);
        query_re = some (or_default [] p.query_re);
        max_length = if is_zero p.max_length then pos 2000 else p.max_length;
      })

  unfoldable pub validate_sign_url_pattern : Option UrlPattern → Result ConfigError UrlPattern
  unfolding validate_url_pattern
  validate_sign_url_pattern none = err no_section
  validate_sign_url_pattern (some p) =
      refuse_if (is_set p.scheme) scheme_not_allowed
      >> refuse_if (is_empty p.domain) no_domain
      >> refuse_if (not (is_empty p.domain_re)) domain_re_not_allowed
      >> refuse_if (is_set p.same_path) same_path_not_allowed
      >> validate_url_pattern p

  -- `ValidateFetchURLPattern` on a pattern that is not nil.
  unfoldable pub validate_fetch_url_pattern : UrlPattern → Result ConfigError UrlPattern
  unfolding check_schemes validate_url_pattern
  validate_fetch_url_pattern p = schemes_or_default p.scheme >>= λ schemes.
      refuse_if (is_empty p.domain && is_empty p.domain_re) no_domain_or_re
      >> refuse_if (not (is_empty p.domain) && not (is_empty p.domain_re)) domain_and_re
      >> refuse_if p.error_on_stateful_headers stateful_not_allowed
      >> validate_url_pattern
          (record p { scheme = some schemes; same_path = some (or_default true p.same_path) })

  abbrev pub validate_fetch : Option UrlPattern → Result ConfigError (Option UrlPattern)
  validate_fetch none = ok none
  validate_fetch (some p) = validate_fetch_url_pattern p >>= λ p'. ok (some p')

  unfoldable pub validate_url_sets : List UrlSet → Result ConfigError (List UrlSet)
  unfolding validate_fetch_url_pattern validate_sign_url_pattern
  validate_url_sets [] = ok []
  validate_url_sets (s ∷ ss) = validate_fetch s.fetch >>= λ fetch.
      validate_sign_url_pattern s.sign >>= λ sign.
      validate_url_sets ss >>= λ rest. ok (record { fetch = fetch; sign = some sign } ∷ rest)

  -- Where `os.Stat` fails because of anything but a missing file, there is no mode to read: the code
  -- dereferences a nil interface.
  abbrev pub check_ocsp_dir : OcspDir → Result ConfigError (Unit {0})
  check_ocsp_dir directory = ok tt
  check_ocsp_dir missing = err no_ocsp_dir
  check_ocsp_dir no_directory = err no_ocsp_dir
  check_ocsp_dir unreadable = err stat_crash

  -- `ReadConfig` on a configuration that the TOML reader has returned.
  unfoldable pub check_config : (Bytes → OcspDir) → Config → Result ConfigError Config
  unfolding validate_forwarded_request_headers validate_url_sets
  check_config stat_ocsp_dir c =
      refuse_if (is_empty c.cert_file) no_cert_file
      >> refuse_if (is_empty c.key_file) no_key_file
      >> refuse_if (is_empty c.ocsp_cache) no_ocsp_cache
      >> validate_forwarded_request_headers c.forwarded_request_headers
      >> check_ocsp_dir (stat_ocsp_dir c.ocsp_cache)
      >> refuse_if (no_url_sets c.url_set) no_url_set
      >> (validate_url_sets c.url_set >>= λ sets.
          ok (record c { port = if is_zero c.port then pos 8080 else c.port; url_set = sets }))

  -- `ReadConfig`
  unfoldable pub read_config :
      (Bytes → Option Config) → (Bytes → OcspDir) → Bytes → Result ConfigError Config
  unfolding check_config
  read_config load_toml stat_ocsp_dir config_bytes =
      loaded (load_toml config_bytes) >>= check_config stat_ocsp_dir
