-- ===== src/Mux/Search.antt =====
-- The search for a routing rule in packager/mux/mux.go, by the prefixes that fit a path.
use amppackager.Prelude.{
  ◌≡◌, ◌≢◌, refl, ap, ◌∙◌, inl, inr, true, List, [], ◌∷◌, ◌++◌, Option, none, some, if◌then◌else◌,
  Option-cases,
}
use amppackager.Prelude.Text.{Bytes, codes, bytes_eq}
use amppackager.Mux.Unescape.{path_unescape}
use amppackager.Mux.Prefix.{strip_prefix, try_trim_prefix-eq-true, try_trim_prefix-eq-false}
use amppackager.Mux.{
  Request, Handler, signer, cert_cache, validity_map, healthz, metrics, RoutingRule, routing_matrix,
  find_rule, signer_path_rule, signer_rule, cert_rule, validity_rule, healthz_rule, metrics_rule,
  default_rule, expect_no_suffix, expect_cert_query, expect_signer_query, return_404, fresh,
  is_allowed_method, Outcome, refuse, run, validate, prepare, serve,
}

-- The text to sign: the suffix of the path with the query that came with it.
abbrev pub with_query : Bytes → Bytes → Bytes
with_query suffix [] = suffix
with_query suffix (c ∷ cs) = suffix ++ (b'?' ∷ c ∷ cs)

-- The choice between a rule that may fit and what is found behind it.
abbrev pick : RoutingRule → Option Bytes → RoutingRule × Bytes → RoutingRule × Bytes
pick r none later = later
pick r (some suffix) later = (r, suffix)

find_rule-pick :
    (r : RoutingRule) (rs : List RoutingRule) (path : Bytes)
    → r.url_path_prefix ≢ []
    → find_rule (r ∷ rs) path ≡ pick r (strip_prefix r.url_path_prefix path) (find_rule rs path)
unfolding find_rule
find_rule-pick r rs path ne = elim (Option-cases (strip_prefix r.url_path_prefix path)) [
  | inl e ↦ rw (e, try_trim_prefix-eq-false path r.url_path_prefix ne e)
  | inr (s, e) ↦ rw (e, try_trim_prefix-eq-true path r.url_path_prefix e)
]

abbrev pub outcome_of : Request → RoutingRule × Bytes → Outcome
outcome_of req found = prepare found.0 (validate found.0 found.1 req)

pub serve-outcome_of :
    (req : Request) → (serve req).0 ≡ outcome_of req (find_rule routing_matrix req.path)
unfolding serve
serve-outcome_of req = refl

-- A path that stands before a suffix is refused.
abbrev pub no_suffix_outcome : Handler → Bytes → Outcome
no_suffix_outcome h [] = run (some h) []
no_suffix_outcome h (c ∷ cs) = refuse (codes "404 page not found") 404

abbrev pub cert_outcome : Option Bytes → Outcome
cert_outcome none = refuse (codes "400 bad request - bad URL encoding") 400
cert_outcome (some name) = run (some cert_cache) ((codes "certName", name) ∷ [])

-- The outcome by the prefixes that fit, in the order of the matrix.
abbrev pub by_prefix : (a b c d e f : Option Bytes) → Bytes → Outcome
by_prefix (some s) _ _ _ _ _ q = run (some signer) ((codes "signURL", with_query s q) ∷ [])
by_prefix none (some s) _ _ _ _ q = no_suffix_outcome signer s
by_prefix none none (some s) _ _ _ q = cert_outcome (path_unescape s)
by_prefix none none none (some s) _ _ q = no_suffix_outcome validity_map s
by_prefix none none none none (some s) _ q = no_suffix_outcome healthz s
by_prefix none none none none none (some s) q = no_suffix_outcome metrics s
by_prefix none none none none none none q = refuse (codes "404 page not found") 404

abbrev picked : (a b c d e f : Option Bytes) → RoutingRule × Bytes
picked a b c d e f = pick signer_path_rule a (
    pick signer_rule b (
      pick cert_rule c
        (pick validity_rule d (pick healthz_rule e (pick metrics_rule f (default_rule, []))))))

module _ (req : Request) (allowed : is_allowed_method req.method ≡ true) where
  query_text : (q s : Bytes) → (if bytes_eq q [] then s else s ++ (b'?' ∷ q)) ≡ with_query s q
  query_text [] s = refl
  query_text (c ∷ q) s = refl

  no_suffix-outcome :
      (h : Handler) (label prefix s : Bytes)
      → outcome_of req (
        record {
          url_path_prefix = prefix;
          suffix_validator = expect_no_suffix;
          handler = some h;
          label = label;
        },
        s,
      )
        ≡ no_suffix_outcome h s
  unfolding validate expect_no_suffix
  no_suffix-outcome h label prefix [] = rw allowed
  no_suffix-outcome h label prefix (c ∷ cs) = rw allowed

  cert-outcome : (s : Bytes) → outcome_of req (cert_rule, s) ≡ cert_outcome (path_unescape s)
  unfolding validate
  cert-outcome s = rw allowed (unfold expect_cert_query in go (path_unescape s))
    where
      go :
          (o : Option Bytes)
          → prepare cert_rule (elim o [
            | none ↦ record fresh {
              error_msg = codes "400 bad request - bad URL encoding";
              error_code = 400;
            }
            | some unescaped ↦ record fresh { params = (codes "certName", unescaped) ∷ [] }
          ])
            ≡ cert_outcome o
      go none = refl
      go (some n) = refl

  picked-by_prefix :
      (a b c d e f : Option Bytes)
      → outcome_of req (picked a b c d e f) ≡ by_prefix a b c d e f req.raw_query
  picked-by_prefix (some s) b c d e f =
      unfold validate in rw allowed (unfold expect_signer_query in rw (query_text req.raw_query s))
  picked-by_prefix none (some s) c d e f = no_suffix-outcome signer _ _ s
  picked-by_prefix none none (some s) d e f = cert-outcome s
  picked-by_prefix none none none (some s) e f = no_suffix-outcome validity_map _ _ s
  picked-by_prefix none none none none (some s) f = no_suffix-outcome healthz _ _ s
  picked-by_prefix none none none none none (some s) = no_suffix-outcome metrics _ _ s
  picked-by_prefix none none none none none none = unfold validate return_404 in rw allowed

find_rule-picked :
    (path : Bytes)
    → find_rule routing_matrix path
      ≡ picked
          (strip_prefix (codes "/priv/doc/") path)
          (strip_prefix (codes "/priv/doc") path)
          (strip_prefix (codes "/amppkg/cert/") path)
          (strip_prefix (codes "/amppkg/validity") path)
          (strip_prefix (codes "/healthz") path)
          (strip_prefix (codes "/metrics") path)
find_rule-picked path =
    find_rule-pick signer_path_rule _ path (λ e. cc)
    ∙ rw (find_rule-pick signer_rule _ path (λ e. cc)) (
        rw (find_rule-pick cert_rule _ path (λ e. cc)) (
          rw (find_rule-pick validity_rule _ path (λ e. cc)) (
            rw (find_rule-pick healthz_rule _ path (λ e. cc))
              (rw (find_rule-pick metrics_rule [] path (λ e. cc)) (unfold find_rule in refl)))))

pub serve-by_prefix :
    (req : Request)
    → is_allowed_method req.method ≡ true
    → (serve req).0
      ≡ by_prefix
          (strip_prefix (codes "/priv/doc/") req.path)
          (strip_prefix (codes "/priv/doc") req.path)
          (strip_prefix (codes "/amppkg/cert/") req.path)
          (strip_prefix (codes "/amppkg/validity") req.path)
          (strip_prefix (codes "/healthz") req.path)
          (strip_prefix (codes "/metrics") req.path)
          req.raw_query
serve-by_prefix req allowed =
    serve-outcome_of req
    ∙ ap (outcome_of req) (find_rule-picked req.path)
    ∙ picked-by_prefix req allowed _ _ _ _ _ _
