-- ===== src/Mux/Routing.antt =====
-- Which handler a request reaches, and with which parameters.
use mathlib.Core.List.{append-nil}
use mathlib.Core.Path.{subst}
use amppackager.Prelude.{
  ℕ, ◌≡◌, ◌≢◌, refl, sym, ap, ◌∙◌, ◌↔◌, true, false, [], ◌∷◌, ◌++◌, Option, none, some,
}
use amppackager.Prelude.Text.{Bytes, codes}
use amppackager.Mux.Unescape.{path_unescape}
use amppackager.Mux.Prefix.{strip_prefix, strip_prefix-append, strip_prefix-eq-some}
use amppackager.Mux.{
  Request, signer, cert_cache, validity_map, healthz, metrics, is_allowed_method, Outcome, refuse,
  run, validate, serve,
}
use amppackager.Mux.Search.{with_query, cert_outcome, by_prefix, serve-outcome_of, serve-by_prefix}

-- The path is none of those that the packager serves.
pub record IsUnknown (path : Bytes) : Type 0 where
  pub no_sign_path : (s : Bytes) → path ≢ codes "/priv/doc/" ++ s
  pub no_sign : path ≢ codes "/priv/doc"
  pub no_cert : (s : Bytes) → path ≢ codes "/amppkg/cert/" ++ s
  pub no_validity : path ≢ codes "/amppkg/validity"
  pub no_healthz : path ≢ codes "/healthz"
  pub no_metrics : path ≢ codes "/metrics"

-- The routes of the packager, for a request with an allowed method.
pub data Routes (req : Request) : Outcome → Type 0 where
  sign_path :
      (s : Bytes)
      → req.path ≡ codes "/priv/doc/" ++ s
      → Routes req (run (some signer) ((codes "signURL", with_query s req.raw_query) ∷ []))
  sign : req.path ≡ codes "/priv/doc" → Routes req (run (some signer) [])
  cert :
      (s name : Bytes)
      → req.path ≡ codes "/amppkg/cert/" ++ s
      → path_unescape s ≡ some name
      → Routes req (run (some cert_cache) ((codes "certName", name) ∷ []))
  bad_cert :
      (s : Bytes)
      → req.path ≡ codes "/amppkg/cert/" ++ s
      → path_unescape s ≡ none
      → Routes req (refuse (codes "400 bad request - bad URL encoding") 400)
  validity : req.path ≡ codes "/amppkg/validity" → Routes req (run (some validity_map) [])
  health : req.path ≡ codes "/healthz" → Routes req (run (some healthz) [])
  metric : req.path ≡ codes "/metrics" → Routes req (run (some metrics) [])
  unknown : IsUnknown req.path → Routes req (refuse (codes "404 page not found") 404)

no_prefix : (p path s : Bytes) → strip_prefix p path ≡ none → path ≢ p ++ s
no_prefix p path s h e = cc (h, ap (strip_prefix p) e, strip_prefix-append p s)

other : (p path q s : Bytes) → path ≡ q → strip_prefix p q ≡ none → path ≢ p ++ s
other p path q s e h = no_prefix p path s (ap (strip_prefix p) e ∙ h)

not_bare : (p path : Bytes) (c : ℕ) (cs : Bytes) → path ≡ p ++ (c ∷ cs) → path ≢ p
not_bare p path c cs e k = cc (
  ap (strip_prefix p) e,
  strip_prefix-append p (c ∷ cs),
  ap (strip_prefix p) (k ∙ sym (append-nil p)),
  strip_prefix-append p [],
)

-- A path with one of the prefixes before a suffix, where no rule above takes it.
module _ (path : Bytes) (c : ℕ) (cs : Bytes) where
  IsUnknown-sign :
      strip_prefix (codes "/priv/doc/") path ≡ none
      → path ≡ codes "/priv/doc" ++ (c ∷ cs)
      → IsUnknown path
  unfolding strip_prefix
  IsUnknown-sign a e = record {
    no_sign_path = λ s. no_prefix (codes "/priv/doc/") path s a;
    no_sign = not_bare (codes "/priv/doc") path c cs e;
    no_cert = λ s. other (codes "/amppkg/cert/") path _ s e refl;
    no_validity = other (codes "/amppkg/validity") path _ [] e refl;
    no_healthz = other (codes "/healthz") path _ [] e refl;
    no_metrics = other (codes "/metrics") path _ [] e refl;
  }

  IsUnknown-validity : path ≡ codes "/amppkg/validity" ++ (c ∷ cs) → IsUnknown path
  unfolding strip_prefix
  IsUnknown-validity e = record {
    no_sign_path = λ s. other (codes "/priv/doc/") path _ s e refl;
    no_sign = other (codes "/priv/doc") path _ [] e refl;
    no_cert = λ s. other (codes "/amppkg/cert/") path _ s e refl;
    no_validity = not_bare (codes "/amppkg/validity") path c cs e;
    no_healthz = other (codes "/healthz") path _ [] e refl;
    no_metrics = other (codes "/metrics") path _ [] e refl;
  }

  IsUnknown-healthz : path ≡ codes "/healthz" ++ (c ∷ cs) → IsUnknown path
  unfolding strip_prefix
  IsUnknown-healthz e = record {
    no_sign_path = λ s. other (codes "/priv/doc/") path _ s e refl;
    no_sign = other (codes "/priv/doc") path _ [] e refl;
    no_cert = λ s. other (codes "/amppkg/cert/") path _ s e refl;
    no_validity = other (codes "/amppkg/validity") path _ [] e refl;
    no_healthz = not_bare (codes "/healthz") path c cs e;
    no_metrics = other (codes "/metrics") path _ [] e refl;
  }

  IsUnknown-metrics : path ≡ codes "/metrics" ++ (c ∷ cs) → IsUnknown path
  unfolding strip_prefix
  IsUnknown-metrics e = record {
    no_sign_path = λ s. other (codes "/priv/doc/") path _ s e refl;
    no_sign = other (codes "/priv/doc") path _ [] e refl;
    no_cert = λ s. other (codes "/amppkg/cert/") path _ s e refl;
    no_validity = other (codes "/amppkg/validity") path _ [] e refl;
    no_healthz = other (codes "/healthz") path _ [] e refl;
    no_metrics = not_bare (codes "/metrics") path c cs e;
  }

module _ (req : Request) where
  cert-Routes :
      (s : Bytes) (o : Option Bytes)
      → req.path ≡ codes "/amppkg/cert/" ++ s
      → path_unescape s ≡ o
      → Routes req (cert_outcome o)
  cert-Routes s none e u = bad_cert s e u
  cert-Routes s (some name) e u = cert s name e u

  by_prefix-Routes :
      (a b c d e f : Option Bytes)
      → strip_prefix (codes "/priv/doc/") req.path ≡ a
      → strip_prefix (codes "/priv/doc") req.path ≡ b
      → strip_prefix (codes "/amppkg/cert/") req.path ≡ c
      → strip_prefix (codes "/amppkg/validity") req.path ≡ d
      → strip_prefix (codes "/healthz") req.path ≡ e
      → strip_prefix (codes "/metrics") req.path ≡ f
      → Routes req (by_prefix a b c d e f req.raw_query)
  by_prefix-Routes (some s) b c d e f ha hb hc hd he hf = sign_path s (strip_prefix-eq-some _ _ ha)
  by_prefix-Routes none (some []) c d e f ha hb hc hd he hf = sign (strip_prefix-eq-some _ _ hb)
  by_prefix-Routes none (some (x ∷ xs)) c d e f ha hb hc hd he hf =
      unknown (IsUnknown-sign req.path x xs ha (strip_prefix-eq-some _ _ hb))
  by_prefix-Routes none none (some s) d e f ha hb hc hd he hf =
      cert-Routes s (path_unescape s) (strip_prefix-eq-some _ _ hc) refl
  by_prefix-Routes none none none (some []) e f ha hb hc hd he hf =
      validity (strip_prefix-eq-some _ _ hd)
  by_prefix-Routes none none none (some (x ∷ xs)) e f ha hb hc hd he hf =
      unknown (IsUnknown-validity req.path x xs (strip_prefix-eq-some _ _ hd))
  by_prefix-Routes none none none none (some []) f ha hb hc hd he hf =
      health (strip_prefix-eq-some _ _ he)
  by_prefix-Routes none none none none (some (x ∷ xs)) f ha hb hc hd he hf =
      unknown (IsUnknown-healthz req.path x xs (strip_prefix-eq-some _ _ he))
  by_prefix-Routes none none none none none (some []) ha hb hc hd he hf =
      metric (strip_prefix-eq-some _ _ hf)
  by_prefix-Routes none none none none none (some (x ∷ xs)) ha hb hc hd he hf =
      unknown (IsUnknown-metrics req.path x xs (strip_prefix-eq-some _ _ hf))
  by_prefix-Routes none none none none none none ha hb hc hd he hf = unknown (record {
    no_sign_path = λ s. no_prefix _ req.path s ha;
    no_sign = no_prefix (codes "/priv/doc") req.path [] hb;
    no_cert = λ s. no_prefix _ req.path s hc;
    no_validity = no_prefix (codes "/amppkg/validity") req.path [] hd;
    no_healthz = no_prefix (codes "/healthz") req.path [] he;
    no_metrics = no_prefix (codes "/metrics") req.path [] hf;
  })

serve-Routes : (req : Request) → is_allowed_method req.method ≡ true → Routes req (serve req).0
serve-Routes req h =
    rw (serve-by_prefix req h) (by_prefix-Routes req _ _ _ _ _ _ refl refl refl refl refl refl)

unknown-outcome :
    (req : Request) (o : Outcome)
    → IsUnknown req.path
    → Routes req o
    → o ≡ refuse (codes "404 page not found") 404
unknown-outcome req o k (sign_path s e) = absurd (k.no_sign_path s e)
unknown-outcome req o k (sign e) = absurd (k.no_sign e)
unknown-outcome req o k (cert s name e u) = absurd (k.no_cert s e)
unknown-outcome req o k (bad_cert s e u) = absurd (k.no_cert s e)
unknown-outcome req o k (validity e) = absurd (k.no_validity e)
unknown-outcome req o k (health e) = absurd (k.no_healthz e)
unknown-outcome req o k (metric e) = absurd (k.no_metrics e)
unknown-outcome req o k (unknown u) = refl

Routes-serve :
    (req : Request) (o : Outcome)
    → is_allowed_method req.method ≡ true
    → Routes req o
    → (serve req).0 ≡ o
unfolding strip_prefix
Routes-serve req o h (sign_path s e) = serve-by_prefix req h ∙ rw e
Routes-serve req o h (sign e) = serve-by_prefix req h ∙ rw e
Routes-serve req o h (cert s name e u) = serve-by_prefix req h ∙ rw e (rw u)
Routes-serve req o h (bad_cert s e u) = serve-by_prefix req h ∙ rw e (rw u)
Routes-serve req o h (validity e) = serve-by_prefix req h ∙ rw e
Routes-serve req o h (health e) = serve-by_prefix req h ∙ rw e
Routes-serve req o h (metric e) = serve-by_prefix req h ∙ rw e
Routes-serve req o h (unknown k) = unknown-outcome req (serve req).0 k (serve-Routes req h)

-- For a request by GET or HEAD the outcome is the one that the routes give: the signer with the
-- text behind /priv/doc/ and its query, or with no parameter at /priv/doc; the certificates with
-- the unescaped name, or 400 where it has no unescaped form; the validity map, the health check
-- and the metrics at their own paths alone; 404 for any other path.
pub serve_iff :
    (req : Request) (o : Outcome)
    → is_allowed_method req.method ≡ true
    → ((serve req).0 ≡ o) ↔ Routes req o
serve_iff req o h = (λ e. subst (Routes req) e (serve-Routes req h), Routes-serve req o h)

-- A request by any other method is refused with 405, whatever its path and query.
pub serve-not_allowed :
    (req : Request)
    → is_allowed_method req.method ≡ false
    → (serve req).0 ≡ refuse (codes "405 method not allowed") 405
unfolding validate
serve-not_allowed req h = serve-outcome_of req ∙ rw h
