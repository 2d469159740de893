-- ===== src/Config/Valid.antt =====
-- What a configuration that `ReadConfig` returns is known to satisfy.
use mathlib.Core.Path.{subst}
use amppackager.Prelude.{
  ◌≡◌, ◌≢◌, refl, ◌⊎◌, inl, inr, Bool, true, false, not, ◌&&◌, List, [], ◌∷◌, Option, none, some,
  Result, ok, err, arith, >>=-eq-ok, ok-injective, sym, if◌then◌else◌, All, Bool-cases,
}
use amppackager.Prelude.Int.{ℤ, pos}
use amppackager.Prelude.Text.{Bytes, codes}
use amppackager.Config.{
  UrlPattern, UrlSet, Config, ConfigError, refuse_if, ◌>>◌, is_empty, is_zero, is_set, or_default,
  check_schemes, schemes_or_default, validate_forwarded_request_headers, bad_regexp, check_excludes,
  validate_url_pattern, validate_sign_url_pattern, validate_fetch_url_pattern, validate_fetch,
  validate_url_sets, loaded, no_url_sets, check_config, read_config, no_cert_file, no_key_file,
  no_ocsp_cache, OcspDir, check_ocsp_dir, no_url_set,
}

guard-eq-ok :
    {A : Type 0} (b : Bool) (e : ConfigError) (k : Result ConfigError A) {a : A}
    → (refuse_if b e >> k) ≡ ok a
    → (b ≡ false) × (k ≡ ok a)
guard-eq-ok true e k h = cc
guard-eq-ok false e k h = (refl, h)

then-eq-ok :
    {A : Type 0} (m : Result ConfigError (Unit {0})) (k : Result ConfigError A) {a : A}
    → (m >> k) ≡ ok a
    → (m ≡ ok tt) × (k ≡ ok a)
then-eq-ok (ok tt) k h = (refl, h)
then-eq-ok (err e) k h = cc

-- The two default expressions compile.
abbrev pub DefaultsValid : (Bytes → Bool) → Type 0
DefaultsValid valid_regexp = (valid_regexp (codes ".*") ≡ true) × (valid_regexp [] ≡ true)

not-false : (b : Bool) → not b ≡ false → b ≡ true
not-false true h = refl
not-false false h = cc

one_domain_lem : (a b : Bool) → (a && b) ≡ false → (not a && not b) ≡ false → a ≡ not b
one_domain_lem true true h k = cc
one_domain_lem true false h k = refl
one_domain_lem false true h k = refl
one_domain_lem false false h k = cc

module _ (valid_regexp : Bytes → Bool) (defaults : DefaultsValid valid_regexp) where
  -- The expressions are set and compile, and the length limit is not 0.
  pub record IsPattern (p : UrlPattern) : Type 0 where
    pub path_re : Bytes
    pub path_set : p.path_re ≡ some path_re
    pub path_valid : valid_regexp path_re ≡ true
    pub query_re : Bytes
    pub query_set : p.query_re ≡ some query_re
    pub query_valid : valid_regexp query_re ≡ true
    pub excludes : All (λ re. valid_regexp re ≡ true) p.path_exclude_re
    pub limited : is_zero p.max_length ≡ false

  check_excludes-All :
      (res : List Bytes)
      → check_excludes valid_regexp res ≡ ok tt
      → All (λ re. valid_regexp re ≡ true) res
  unfolding check_excludes
  check_excludes-All [] h = tt
  check_excludes-All (re ∷ res) h = elim (Bool-cases (valid_regexp re)) [
    | inl v ↦ (v, check_excludes-All res (rw v at h))
    | inr v ↦ absurd (cc (rw v at h))
  ]

  -- The pattern with its defaults.
  abbrev filled : UrlPattern → UrlPattern
  filled p = record p {
    path_re = some (or_default (codes ".*") p.path_re);
    query_re = some (or_default [] p.query_re);
    max_length = if is_zero p.max_length then pos 2000 else p.max_length;
  }

  limited_lem : (n : ℤ) → is_zero (if is_zero n then pos 2000 else n) ≡ false
  limited_lem n = elim (Bool-cases (is_zero n)) [ inl z ↦ rw z | inr z ↦ rw z z ]

  or_default_valid :
      (d : Bytes) (o : Option Bytes)
      → valid_regexp d ≡ true
      → bad_regexp valid_regexp o ≡ false
      → valid_regexp (or_default d o) ≡ true
  or_default_valid d none v h = v
  or_default_valid d (some re) v h = ground arith

  validate_url_pattern-filled :
      (p : UrlPattern) {q : UrlPattern}
      → validate_url_pattern valid_regexp p ≡ ok q
      → (q ≡ filled p) × IsPattern (filled p)
  unfolding validate_url_pattern
  validate_url_pattern-filled p h =
      let (good_path, h₁) = guard-eq-ok _ _ _ h in
      let (excludes, h₂) = then-eq-ok (check_excludes valid_regexp p.path_exclude_re) _ h₁ in
      let (good_query, h₃) = guard-eq-ok _ _ _ h₂ in
      (
        sym (ok-injective h₃),
        record {
          path_re = or_default (codes ".*") p.path_re;
          path_set = refl;
          path_valid = or_default_valid _ p.path_re defaults.0 good_path;
          query_re = or_default [] p.query_re;
          query_set = refl;
          query_valid = or_default_valid _ p.query_re defaults.1 good_query;
          excludes = check_excludes-All p.path_exclude_re excludes;
          limited = limited_lem p.max_length;
        },
      )

  pub record IsSignPattern (p : UrlPattern) : Type 0 where
    pub pattern : IsPattern p
    pub has_domain : is_empty p.domain ≡ false
    pub no_domain_re : is_empty p.domain_re ≡ true
    pub no_scheme : is_set p.scheme ≡ false
    pub no_same_path : is_set p.same_path ≡ false

  -- Exactly one of the domain and its expression is given.
  pub record IsFetchPattern (p : UrlPattern) : Type 0 where
    pub pattern : IsPattern p
    pub schemes : List Bytes
    pub schemes_set : p.scheme ≡ some schemes
    pub schemes_allowed : check_schemes schemes ≡ ok tt
    pub schemes_ne_nil : schemes ≢ []
    pub one_domain : is_empty p.domain ≡ not (is_empty p.domain_re)
    pub same_path_set : is_set p.same_path ≡ true
    pub not_stateful : p.error_on_stateful_headers ≡ false

  validate_sign-IsSignPattern :
      (o : Option UrlPattern) {q : UrlPattern}
      → validate_sign_url_pattern valid_regexp o ≡ ok q
      → IsSignPattern q
  unfolding validate_sign_url_pattern
  validate_sign-IsSignPattern none h = cc
  validate_sign-IsSignPattern (some p) h =
      let (no_scheme, h₁) = guard-eq-ok _ _ _ h in
      let (has_domain, h₂) = guard-eq-ok _ _ _ h₁ in
      let (no_domain_re, h₃) = guard-eq-ok _ _ _ h₂ in
      let (no_same_path, h₄) = guard-eq-ok _ _ _ h₃ in
      let (e, pattern) = validate_url_pattern-filled p h₄ in
      subst IsSignPattern (sym e) (record {
        pattern = pattern;
        has_domain = has_domain;
        no_domain_re = not-false _ no_domain_re;
        no_scheme = no_scheme;
        no_same_path = no_same_path;
      })

  schemes_or_default_sound :
      (o : Option (List Bytes)) {ss : List Bytes}
      → schemes_or_default o ≡ ok ss
      → (check_schemes ss ≡ ok tt) × (ss ≢ [])
  unfolding check_schemes
  schemes_or_default_sound none h = rw (← ok-injective h) (refl, λ e. cc)
  schemes_or_default_sound (some []) h = rw (← ok-injective h) (refl, λ e. cc)
  schemes_or_default_sound (some (s ∷ ss)) h =
      let (good, e) = then-eq-ok (check_schemes (s ∷ ss)) _ h in
      rw (← ok-injective e) (good, λ e. cc)

  abbrev with_fetch_defaults : UrlPattern → List Bytes → UrlPattern
  with_fetch_defaults p schemes = record p {
    scheme = some schemes;
    same_path = some (or_default true p.same_path);
  }

  validate_fetch-IsFetchPattern :
      (p : UrlPattern) {q : UrlPattern}
      → validate_fetch_url_pattern valid_regexp p ≡ ok q
      → IsFetchPattern q
  unfolding validate_fetch_url_pattern
  validate_fetch-IsFetchPattern p h =
      let (schemes, scheme_eq, h₁) = >>=-eq-ok (schemes_or_default p.scheme) _ h in
      let (some_domain, h₂) = guard-eq-ok _ _ _ h₁ in
      let (not_both, h₃) = guard-eq-ok _ _ _ h₂ in
      let (not_stateful, h₄) = guard-eq-ok _ _ _ h₃ in
      let (e, pattern) = validate_url_pattern-filled (with_fetch_defaults p schemes) h₄ in
      let (allowed, ne) = schemes_or_default_sound p.scheme scheme_eq in
      subst IsFetchPattern (sym e) (record {
        pattern = pattern;
        schemes = schemes;
        schemes_set = refl;
        schemes_allowed = allowed;
        schemes_ne_nil = ne;
        one_domain = one_domain_lem (is_empty p.domain) (is_empty p.domain_re) some_domain not_both;
        same_path_set = refl;
        not_stateful = not_stateful;
      })

  -- A set of patterns, the fetch pattern being optional.
  abbrev pub IsUrlSet : UrlSet → Type 0
  IsUrlSet s =
      ((s.fetch ≡ none) ⊎ ((p : UrlPattern) × (s.fetch ≡ some p) × IsFetchPattern p))
      × ((p : UrlPattern) × (s.sign ≡ some p) × IsSignPattern p)

  validate_fetch_sound :
      (o : Option UrlPattern) {o' : Option UrlPattern}
      → validate_fetch valid_regexp o ≡ ok o'
      → (o' ≡ none) ⊎ ((p : UrlPattern) × (o' ≡ some p) × IsFetchPattern p)
  validate_fetch_sound none h = inl (sym (ok-injective h))
  validate_fetch_sound (some p) h =
      let (q, e, h₁) = >>=-eq-ok (validate_fetch_url_pattern valid_regexp p) _ h in
      inr (q, sym (ok-injective h₁), validate_fetch-IsFetchPattern p e)

  validate_url_sets-All :
      (ss : List UrlSet) {rs : List UrlSet}
      → validate_url_sets valid_regexp ss ≡ ok rs
      → All IsUrlSet rs
  unfolding validate_url_sets
  validate_url_sets-All [] h = subst (All IsUrlSet) (ok-injective h) tt
  validate_url_sets-All (s ∷ ss) h =
      let (fetch, fetch_eq, h₁) = >>=-eq-ok (validate_fetch valid_regexp s.fetch) _ h in
      let (sign, sign_eq, h₂) = >>=-eq-ok (validate_sign_url_pattern valid_regexp s.sign) _ h₁ in
      let (rest, rest_eq, h₃) = >>=-eq-ok (validate_url_sets valid_regexp ss) _ h₂ in
      subst (All IsUrlSet) (ok-injective h₃) (
        (
          validate_fetch_sound s.fetch fetch_eq,
          (sign, refl, validate_sign-IsSignPattern s.sign sign_eq),
        ),
        validate_url_sets-All ss rest_eq,
      )

  -- What a configuration must have for the packager to start.
  pub record IsConfig (c : Config) : Type 0 where
    pub has_cert_file : is_empty c.cert_file ≡ false
    pub has_key_file : is_empty c.key_file ≡ false
    pub has_ocsp_cache : is_empty c.ocsp_cache ≡ false
    pub has_port : is_zero c.port ≡ false
    pub forwardable : validate_forwarded_request_headers c.forwarded_request_headers ≡ ok tt
    pub url_sets : All IsUrlSet c.url_set

  port_lem : (n : ℤ) → is_zero (if is_zero n then pos 8080 else n) ≡ false
  port_lem n = elim (Bool-cases (is_zero n)) [ inl z ↦ rw z | inr z ↦ rw z z ]

  abbrev finished : Config → List UrlSet → Config
  finished c sets = record c { port = if is_zero c.port then pos 8080 else c.port; url_set = sets }

  check_config-IsConfig :
      (stat_ocsp_dir : Bytes → OcspDir) (c : Config) {c' : Config}
      → check_config valid_regexp stat_ocsp_dir c ≡ ok c'
      → IsConfig c'
  unfolding check_config
  check_config-IsConfig stat_ocsp_dir c {c'} h =
      let (cert, h₁) = guard-eq-ok (is_empty c.cert_file) no_cert_file _ h in
      let (key, h₂) = guard-eq-ok (is_empty c.key_file) no_key_file _ h₁ in
      let (ocsp, h₃) = guard-eq-ok (is_empty c.ocsp_cache) no_ocsp_cache _ h₂ in
      let (forwarded, h₄) =
        then-eq-ok (validate_forwarded_request_headers c.forwarded_request_headers) _ h₃ in
      let (_, h₅) = then-eq-ok (check_ocsp_dir valid_regexp (stat_ocsp_dir c.ocsp_cache)) _ h₄ in
      let (_, h₆) = guard-eq-ok (no_url_sets c.url_set) no_url_set _ h₅ in
      let (sets, sets_eq, h₇) =
        >>=-eq-ok (validate_url_sets valid_regexp c.url_set) (λ s. ok (finished c s)) h₆ in
      let done : finished c sets ≡ c' = ok-injective h₇ in
      subst IsConfig done (record {
        has_cert_file = cert;
        has_key_file = key;
        has_ocsp_cache = ocsp;
        has_port = port_lem c.port;
        forwardable = forwarded;
        url_sets = validate_url_sets-All c.url_set sets_eq;
      })

  -- A configuration that `ReadConfig` returns names its three files and a port other than 0,
  -- forwards no header that it must not, and each of its URL sets has a sign pattern with a
  -- domain and no scheme, and a fetch pattern that is missing or has allowed schemes and exactly
  -- one of a domain and an expression; their expressions are set and compile, and no length limit
  -- is 0.
  pub read_config-IsConfig :
      (load_toml : Bytes → Option Config) (stat_ocsp_dir : Bytes → OcspDir) (config_bytes : Bytes)
      {c : Config}
      → read_config valid_regexp load_toml stat_ocsp_dir config_bytes ≡ ok c
      → IsConfig c
  unfolding read_config
  read_config-IsConfig load_toml stat_ocsp_dir config_bytes h =
      let (c, _, h₁) =
        >>=-eq-ok (loaded (load_toml config_bytes)) (check_config valid_regexp stat_ocsp_dir) h in
      check_config-IsConfig stat_ocsp_dir c h₁
