-- ===== src/Tests/Server.antt =====
-- Tests of the routes, the configuration and the choice of a URL set.
use amppackager.Prelude.{◌≡◌, ◌↔◌, refl, Bool, true, false, inl, [], ◌∷◌, none, some, ok, All}
use amppackager.Prelude.Int.{pos}
use amppackager.Prelude.Text.{Bytes, codes}
use amppackager.Mux.{Request, is_allowed_method, Outcome, run, signer, serve}
use amppackager.Mux.Routing.{Routes, serve_iff}
use amppackager.Config.{UrlPattern, UrlSet, Config, directory, read_config}
use amppackager.Config.Valid.{DefaultsValid, IsConfig, IsUrlSet, read_config-IsConfig}
use amppackager.Validation.Url.{UrlLib}
use amppackager.Validation.{urls_match, parse_urls}
use amppackager.Validation.Match.{SetFits, urls_match-SetFits}
use amppackager.Validation.Safe.{Answers, parse_urls-Answers}

abbrev sign_request : Request
sign_request = record {
  method = codes "GET";
  path = codes "/priv/doc/https://a.com/x";
  raw_query = codes "q=1";
}

get_allowed : is_allowed_method (codes "GET") ≡ true
get_allowed = refl

abbrev signs : Outcome
signs = run (some signer) ((codes "signURL", codes "https://a.com/x?q=1") ∷ [])

serve_iff_example : ((serve sign_request).0 ≡ signs) ↔ Routes sign_request signs
serve_iff_example = serve_iff sign_request signs get_allowed

-- A regexp library in which every expression is valid and matches only the text that it spells.
abbrev any_valid : Bytes → Bool
any_valid re = true

defaults : DefaultsValid any_valid
defaults = (refl, refl)

abbrev blank_pattern : UrlPattern
blank_pattern = record {
  scheme = none;
  domain_re = [];
  domain = codes "a.com";
  path_re = none;
  path_exclude_re = [];
  query_re = none;
  error_on_stateful_headers = true;
  max_length = pos 0;
  same_path = none;
}

abbrev given : Config
given = record {
  local_only = false;
  port = pos 0;
  cert_file = codes "cert.pem";
  key_file = codes "key.pem";
  csr_file = [];
  new_cert_file = [];
  ocsp_cache = codes "/tmp/ocsp";
  forwarded_request_headers = codes "User-Agent" ∷ [];
  url_set = record { fetch = none; sign = some blank_pattern } ∷ [];
  acme_config = none;
}

abbrev filled_pattern : UrlPattern
filled_pattern = record blank_pattern {
  path_re = some (codes ".*");
  query_re = some [];
  max_length = pos 2000;
}

abbrev filled_set : UrlSet
filled_set = record { fetch = none; sign = some filled_pattern }

abbrev filled : Config
filled = record given { port = pos 8080; url_set = filled_set ∷ [] }

read_given :
    read_config any_valid (λ toml. some given) (λ dir. directory) (codes "toml") ≡ ok filled
unfolding read_config
read_given = refl

read_config-IsConfig_example : IsConfig any_valid defaults filled
read_config-IsConfig_example =
    read_config-IsConfig any_valid defaults (λ toml. some given) (λ dir. directory) (codes "toml")
      read_given

filled_sets-IsUrlSet : All (IsUrlSet any_valid defaults) (filled_set ∷ [])
filled_sets-IsUrlSet = (
  (
    inl refl,
    (
      filled_pattern,
      refl,
      record {
        pattern = record {
          path_re = codes ".*";
          path_set = refl;
          path_valid = refl;
          query_re = [];
          query_set = refl;
          query_valid = refl;
          excludes = tt;
          limited = refl;
        };
        has_domain = refl;
        no_domain_re = refl;
        no_scheme = refl;
        no_same_path = refl;
      },
    ),
  ),
  tt,
)

-- URLs that are their text, all of the scheme https and the host a.com.
abbrev pub plain_urls : UrlLib
plain_urls = record {
  Url = Bytes;
  parse = λ s. some s;
  is_abs = λ s. true;
  resolve_reference = λ s t. s;
  path_escape = λ s. s;
  scheme = λ s. codes "https";
  opaque = λ s. [];
  has_user = λ s. false;
  host = λ s. codes "a.com";
  raw_query = λ s. [];
  set_raw_query = λ s q. s;
  escaped_path = λ s. codes "/x";
  text = λ s. s;
  request_uri = λ s. codes "/x";
}

abbrev all_match : Bytes → Bytes → Bool
all_match re s = true

abbrev doc_url : Bytes
doc_url = codes "https://a.com/x"

doc_url_matches : urls_match plain_urls all_match none doc_url filled_set ≡ ok tt
unfolding urls_match
doc_url_matches = refl

urls_match-SetFits_example : SetFits plain_urls all_match none doc_url filled_set
urls_match-SetFits_example =
    urls_match-SetFits plain_urls all_match none doc_url filled_set doc_url_matches

parse_urls-Answers_example :
    Answers plain_urls all_match any_valid defaults [] doc_url
      (filled_set ∷ [])
      (parse_urls plain_urls all_match [] doc_url (filled_set ∷ []))
parse_urls-Answers_example =
    parse_urls-Answers plain_urls all_match any_valid defaults [] doc_url (filled_set ∷ [])
      filled_sets-IsUrlSet
