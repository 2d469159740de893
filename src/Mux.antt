-- ===== src/Mux.antt =====
-- packager/mux/mux.go: the routing of requests to the handlers, and the check of their methods and
-- parameters, with the prefixes of packager/util/util.go. A request is given by its method,
-- its `URL.EscapedPath()` and its raw query. `path_unescape` is `url.PathUnescape`.
pub mod Unescape
pub mod Prefix
pub mod Search
pub mod Routing
use amppackager.Prelude.{
  ℕ, ◌+◌, ◌-◌, ◌*◌, Bool, true, false, not, ◌&&◌, ◌||◌, List, [], ◌∷◌, ◌++◌, Option, none, some,
  leb, ◌==◌, if◌then◌else◌, length,
}
use amppackager.Prelude.Text.{Bytes, codes, bytes_eq, insert}
use amppackager.Mux.Unescape.{path_unescape}
use amppackager.Mux.Prefix.{try_trim_prefix}

pub record Request : Type 0 where
  pub method : Bytes
  pub path : Bytes
  pub raw_query : Bytes

pub data Handler : Type 0 where
  signer cert_cache validity_map healthz metrics : Handler

abbrev pub Params : Type 0
Params = List (Bytes × Bytes)

-- What a validator leaves: the parameters, and the message with the code, 0 for no error.
pub record Validated : Type 0 where
  pub params : Params
  pub error_msg : Bytes
  pub error_code : ℕ

pub record RoutingRule : Type 0 where
  pub url_path_prefix : Bytes
  pub suffix_validator : Bytes → Request → Validated → Validated
  pub handler : Option Handler
  pub label : Bytes

abbrev pub cert_url_prefix : Bytes
cert_url_prefix = codes "/amppkg/cert"

abbrev pub signer_url_prefix : Bytes
signer_url_prefix = codes "/priv/doc"

abbrev pub validity_map_path : Bytes
validity_map_path = codes "/amppkg/validity"

abbrev pub healthz_path : Bytes
healthz_path = codes "/healthz"

abbrev pub metrics_path : Bytes
metrics_path = codes "/metrics"

unfoldable pub return_404 : Bytes → Request → Validated → Validated
return_404 suffix req v = record v { error_msg = codes "404 page not found"; error_code = 404 }

unfoldable pub expect_no_suffix : Bytes → Request → Validated → Validated
unfolding return_404
expect_no_suffix [] req v = v
expect_no_suffix (c ∷ cs) req v = return_404 (c ∷ cs) req v

unfoldable pub expect_signer_query : Bytes → Request → Validated → Validated
expect_signer_query suffix req v = record v {
  params =
      insert (codes "signURL")
        (if bytes_eq req.raw_query [] then suffix else suffix ++ (b'?' ∷ req.raw_query)) v.params;
}

unfoldable pub expect_cert_query : Bytes → Request → Validated → Validated
unfolding path_unescape
expect_cert_query suffix req v = elim (path_unescape suffix) [
  | none ↦ record v { error_msg = codes "400 bad request - bad URL encoding"; error_code = 400 }
  | some unescaped ↦ record v { params = insert (codes "certName") unescaped v.params }
]

-- `New`: the rules of the routing matrix, in its order, and the default rule.
abbrev pub signer_path_rule : RoutingRule
signer_path_rule = record {
  url_path_prefix = signer_url_prefix ++ codes "/";
  suffix_validator = expect_signer_query;
  handler = some signer;
  label = codes "signer";
}

abbrev pub signer_rule : RoutingRule
signer_rule = record {
  url_path_prefix = signer_url_prefix;
  suffix_validator = expect_no_suffix;
  handler = some signer;
  label = codes "signer";
}

abbrev pub cert_rule : RoutingRule
cert_rule = record {
  url_path_prefix = cert_url_prefix ++ codes "/";
  suffix_validator = expect_cert_query;
  handler = some cert_cache;
  label = codes "certCache";
}

abbrev pub validity_rule : RoutingRule
validity_rule = record {
  url_path_prefix = validity_map_path;
  suffix_validator = expect_no_suffix;
  handler = some validity_map;
  label = codes "validityMap";
}

abbrev pub healthz_rule : RoutingRule
healthz_rule = record {
  url_path_prefix = healthz_path;
  suffix_validator = expect_no_suffix;
  handler = some healthz;
  label = codes "healthz";
}

abbrev pub metrics_rule : RoutingRule
metrics_rule = record {
  url_path_prefix = metrics_path;
  suffix_validator = expect_no_suffix;
  handler = some metrics;
  label = codes "metrics";
}

abbrev pub routing_matrix : List RoutingRule
routing_matrix =
    signer_path_rule ∷ signer_rule ∷ cert_rule ∷ validity_rule ∷ healthz_rule ∷ metrics_rule ∷ []

abbrev pub default_rule : RoutingRule
default_rule = record {
  url_path_prefix = [];
  suffix_validator = return_404;
  handler = none;
  label = codes "handler_not_assigned";
}

-- The first rule whose prefix fits, with the suffix; the default rule where none does.
unfoldable pub find_rule : List RoutingRule → Bytes → RoutingRule × Bytes
find_rule [] path = (default_rule, [])
find_rule (r ∷ rs) path =
    let (suffix, is_match) = try_trim_prefix path r.url_path_prefix in
    let later = find_rule rs path in if is_match then (r, suffix) else later

abbrev pub is_allowed_method : Bytes → Bool
is_allowed_method m = bytes_eq m (codes "GET") || bytes_eq m (codes "HEAD")

-- What happens to the request: a plain error, or a handler with the parameters.
pub data Outcome : Type 0 where
  refuse : (msg : Bytes) → (code : ℕ) → Outcome
  -- The handler is nil where the rule has none.
  run : Option Handler → Params → Outcome

abbrev pub fresh : Validated
fresh = record { params = []; error_msg = []; error_code = 0 }

-- The validation of the method and the parameters.
unfoldable pub validate : RoutingRule → Bytes → Request → Validated
validate rule suffix req =
    if not (is_allowed_method req.method)
    then record fresh { error_msg = codes "405 method not allowed"; error_code = 405 }
    else rule.suffix_validator suffix req fresh

abbrev pub prepare : RoutingRule → Validated → Outcome
prepare rule v =
    if v.error_code == 0 then run rule.handler v.params else refuse v.error_msg v.error_code

-- `ServeHTTP`, with the label of the Prometheus measurers.
unfoldable pub serve : Request → Outcome × Bytes
unfolding find_rule return_404 expect_no_suffix expect_signer_query expect_cert_query validate
serve req =
    let (rule, suffix) = find_rule routing_matrix req.path in
    (prepare rule (validate rule suffix req), rule.label)
