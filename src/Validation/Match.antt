-- ===== src/Validation/Match.antt =====
-- What the URLs that the signer takes satisfy.
use amppackager.Prelude.{
  ◌≡◌, refl, ◌⊎◌, inl, inr, Bool, true, false, not, ◌&&◌, List, [], ◌∷◌, Option, none, some, Result,
  ok, err, ◌>>=◌, >>=-eq-ok, ok-injective, arith, if◌then◌else◌, length, All, Any, Bool-cases,
}
use amppackager.Prelude.Int.{pos, ◌≤ℤ◌, ltb_ℤ}
use amppackager.Prelude.Text.{Bytes, codes, bytes_eq, bytes_eq_iff}
use amppackager.Config.{UrlPattern, UrlSet, is_empty}
use amppackager.Validation.Url.{UrlLib}
use amppackager.Validation.{
  MatchError, Check, refuse_if, ◌>>◌, deref, scheme_matches, schemes_of, is_fallback_url_code_point,
  all_fallback, regexp_full_match, any_full_match, url_matches, fetch_url_matches_pattern,
  fetch_url_matches, sign_url_matches, they_match, urls_match, opaque, user, path_re,
  path_exclude_re, query_re, too_long, scheme, domain, domain_re, invalid_byte, paths_differ,
}

pub guard-eq-ok :
    {A : Type 0} (b : Bool) (e : MatchError) (k : Result MatchError A) {a : A}
    → (refuse_if b e >> k) ≡ ok a
    → (b ≡ false) × (k ≡ ok a)
guard-eq-ok true e k h = cc
guard-eq-ok false e k h = (refl, h)

pub guard_ok :
    {A : Type 0} (b : Bool) (e : MatchError) (k : Result MatchError A) {a : A}
    → b ≡ false
    → k ≡ ok a
    → (refuse_if b e >> k) ≡ ok a
guard_ok b e k h q = rw h q

check-eq-ok :
    {A : Type 0} (m : Check) (k : Result MatchError A) {a : A}
    → (m >> k) ≡ ok a
    → (m ≡ ok tt) × (k ≡ ok a)
check-eq-ok (ok tt) k h = (refl, h)
check-eq-ok (err e) k h = cc

deref-eq-ok : {A : Type 0} (o : Option A) {a : A} → deref o ≡ ok a → o ≡ some a
deref-eq-ok none h = cc
deref-eq-ok (some a) h = cc

not-true : (b : Bool) → not b ≡ false → b ≡ true
not-true true h = refl
not-true false h = cc

refuse-eq-ok : (b : Bool) (e : MatchError) → refuse_if b e ≡ ok tt → b ≡ false
refuse-eq-ok true e h = cc
refuse-eq-ok false e h = refl

module _ (u : UrlLib) (match_string : Bytes → Bytes → Bool) where
  open u use {Url}

  -- The pattern allows the path, the query and the length of the URL, which has no user part and
  -- is not opaque.
  pub record UrlFits (url : Url) (p : UrlPattern) : Type 0 where
    pub not_opaque : u.opaque url ≡ []
    pub no_user : u.has_user url ≡ false
    pub path : Bytes
    pub path_set : p.path_re ≡ some path
    pub path_fits : regexp_full_match u match_string path (u.escaped_path url) ≡ true
    pub none_excludes :
        All
          (λ re. regexp_full_match u match_string re (u.escaped_path url) ≡ false)
          p.path_exclude_re
    pub query : Bytes
    pub query_set : p.query_re ≡ some query
    pub query_fits : regexp_full_match u match_string query (u.raw_query url) ≡ true
    pub short : pos (length (u.text url)) ≤ℤ p.max_length

  pub record SignFits (url : Url) (p : UrlPattern) : Type 0 where
    pub fits : UrlFits url p
    pub https : u.scheme url ≡ codes "https"
    pub on_domain : u.host url ≡ p.domain
    pub only_fallback : All (λ b. is_fallback_url_code_point b ≡ true) (u.text url)

  pub record FetchFits (url : Url) (p : UrlPattern) : Type 0 where
    pub fits : UrlFits url p
    pub scheme_listed : Any (λ s. u.scheme url ≡ s) (schemes_of p.scheme)
    pub on_domain : (p.domain ≡ []) ⊎ (u.host url ≡ p.domain)
    pub domain_fits :
        (p.domain_re ≡ []) ⊎ (regexp_full_match u match_string p.domain_re (u.host url) ≡ true)

  any_full_match-eq-false :
      (res : List Bytes) (test : Bytes)
      → any_full_match u match_string res test ≡ false
      → All (λ re. regexp_full_match u match_string re test ≡ false) res
  unfolding any_full_match
  any_full_match-eq-false [] test h = tt
  any_full_match-eq-false (re ∷ res) test h =
      elim (Bool-cases (regexp_full_match u match_string re test)) [
        | inl m ↦ absurd (cc (rw m at h))
        | inr m ↦ (m, any_full_match-eq-false res test (rw m at h))
      ]

  is_empty-eq-true : (s : Bytes) → is_empty s ≡ true → s ≡ []
  is_empty-eq-true [] h = refl
  is_empty-eq-true (c ∷ cs) h = cc

  url_matches-UrlFits :
      (url : Url) (p : UrlPattern) → url_matches u match_string url p ≡ ok tt → UrlFits url p
  unfolding url_matches
  url_matches-UrlFits url p h =
      let (not_opaque, h₁) = guard-eq-ok (not (is_empty (u.opaque url))) opaque _ h in
      let (no_user, h₂) = guard-eq-ok (u.has_user url) user _ h₁ in
      let (re, re_eq, h₃) = >>=-eq-ok (deref p.path_re) _ h₂ in
      let (path_fits, h₄) =
        guard-eq-ok (not (regexp_full_match u match_string re (u.escaped_path url))) path_re _ h₃ in
      let (none_excludes, h₅) =
        guard-eq-ok (any_full_match u match_string p.path_exclude_re (u.escaped_path url))
          path_exclude_re _ h₄ in
      let (qre, qre_eq, h₆) = >>=-eq-ok (deref p.query_re) _ h₅ in
      let (query_fits, h₇) =
        guard-eq-ok (not (regexp_full_match u match_string qre (u.raw_query url))) query_re _ h₆ in
      let short = refuse-eq-ok (ltb_ℤ p.max_length (pos (length (u.text url)))) too_long h₇ in
      record {
        not_opaque = is_empty-eq-true _ (not-true _ not_opaque);
        no_user = no_user;
        path = re;
        path_set = deref-eq-ok p.path_re re_eq;
        path_fits = not-true _ path_fits;
        none_excludes = any_full_match-eq-false p.path_exclude_re _ none_excludes;
        query = qre;
        query_set = deref-eq-ok p.query_re qre_eq;
        query_fits = not-true _ query_fits;
        short = ground arith;
      }

  all_fallback-All :
      (bs : Bytes) → all_fallback bs ≡ true → All (λ b. is_fallback_url_code_point b ≡ true) bs
  unfolding all_fallback
  all_fallback-All [] h = tt
  all_fallback-All (b ∷ bs) h = elim (Bool-cases (is_fallback_url_code_point b)) [
    | inl f ↦ (f, all_fallback-All bs (rw f at h))
    | inr f ↦ absurd (cc (rw f at h))
  ]

  scheme_matches-Any :
      (s : Bytes) (ss : List Bytes) → scheme_matches s ss ≡ true → Any (λ t. s ≡ t) ss
  unfolding scheme_matches
  scheme_matches-Any s [] h = cc
  scheme_matches-Any s (t ∷ ss) h = elim (Bool-cases (bytes_eq s t)) [
    | inl e ↦ inl ((bytes_eq_iff s t).0 e)
    | inr e ↦ inr (scheme_matches-Any s ss (rw e at h))
  ]

  sign_url_matches-SignFits :
      (url : Url) (o : Option UrlPattern)
      → sign_url_matches u match_string url o ≡ ok tt
      → (p : UrlPattern) × (o ≡ some p) × SignFits url p
  unfolding sign_url_matches
  sign_url_matches-SignFits url o h =
      let (bytes, h₁) = guard-eq-ok (not (all_fallback (u.text url))) invalid_byte _ h in
      let (https, h₂) = guard-eq-ok (not (bytes_eq (u.scheme url) (codes "https"))) scheme _ h₁ in
      let (p, p_eq, h₃) = >>=-eq-ok (deref o) _ h₂ in
      let (host, h₄) = guard-eq-ok (not (bytes_eq (u.host url) p.domain)) domain _ h₃ in
      (
        p,
        deref-eq-ok o p_eq,
        record {
          fits = url_matches-UrlFits url p h₄;
          https = (bytes_eq_iff _ _).0 (not-true _ https);
          on_domain = (bytes_eq_iff _ _).0 (not-true _ host);
          only_fallback = all_fallback-All (u.text url) (not-true _ bytes);
        },
      )

  either_empty :
      (s : Bytes) (b : Bool) → (not (is_empty s) && not b) ≡ false → (s ≡ []) ⊎ (b ≡ true)
  either_empty [] b h = inl refl
  either_empty (c ∷ cs) b h = inr (not-true b h)

  fetch_url_matches-FetchFits :
      (url : Url) (p : UrlPattern)
      → fetch_url_matches_pattern u match_string url p ≡ ok tt
      → FetchFits url p
  unfolding fetch_url_matches_pattern
  fetch_url_matches-FetchFits url p h =
      let (listed, h₁) =
        guard-eq-ok (not (scheme_matches (u.scheme url) (schemes_of p.scheme))) scheme _ h in
      let (host, h₂) =
        guard-eq-ok (not (is_empty p.domain) && not (bytes_eq (u.host url) p.domain)) domain _ h₁ in
      let (host_re, h₃) =
        guard-eq-ok
          (not (is_empty p.domain_re)
            && not (regexp_full_match u match_string p.domain_re (u.host url)))
          domain_re _ h₂ in
      record {
        fits = url_matches-UrlFits url p h₃;
        scheme_listed = scheme_matches-Any _ (schemes_of p.scheme) (not-true _ listed);
        on_domain = elim (either_empty p.domain _ host) [
          | inl e ↦ inl e
          | inr e ↦ inr ((bytes_eq_iff _ _).0 e)
        ];
        domain_fits = either_empty p.domain_re _ host_re;
      }

  -- The fetch URL of a set that allows one, or none where the set has no fetch pattern.
  abbrev pub FetchAllowed : Option Url → Url → Option UrlPattern → Type 0
  FetchAllowed none sign none = Unit
  FetchAllowed (some f) sign none = ⊥
  FetchAllowed none sign (some p) = ⊥
  FetchAllowed (some f) sign (some p) =
      FetchFits f p
      × ((p.same_path ≡ some false)
          ⊎ (p.same_path ≡ some true) × (u.request_uri f ≡ u.request_uri sign))

  -- A URL set under which the packager signs the one URL with the content of the other.
  pub record SetFits (fetch : Option Url) (sign : Url) (set : UrlSet) : Type 0 where
    pub pattern : UrlPattern
    pub pattern_set : set.sign ≡ some pattern
    pub sign_fits : SignFits sign pattern
    pub fetch_allowed : FetchAllowed fetch sign set.fetch

  same_path-lem :
      (o : Option Bool) (f sign : Url)
      → (deref o >>= λ same.
          if not same then ok true else ok (bytes_eq (u.request_uri f) (u.request_uri sign)))
        ≡ ok true
      → (o ≡ some false) ⊎ (o ≡ some true) × (u.request_uri f ≡ u.request_uri sign)
  same_path-lem none f sign h = cc
  same_path-lem (some false) f sign h = inl refl
  same_path-lem (some true) f sign h = inr (refl, (bytes_eq_iff _ _).0 (ok-injective h))

  fetch_url_matches-FetchAllowed :
      (fetch : Option Url) (sign : Url) (o : Option UrlPattern)
      → fetch_url_matches u match_string fetch o ≡ ok tt
      → they_match u match_string fetch sign o ≡ ok true
      → FetchAllowed fetch sign o
  unfolding fetch_url_matches
  fetch_url_matches-FetchAllowed none sign none h k = tt
  fetch_url_matches-FetchAllowed (some f) sign none h k = cc
  fetch_url_matches-FetchAllowed none sign (some p) h k = cc
  fetch_url_matches-FetchAllowed (some f) sign (some p) h k =
      (fetch_url_matches-FetchFits f p h, same_path-lem p.same_path f sign k)

  paths-eq-ok :
      (m : Result MatchError Bool)
      → (m >>= λ same. refuse_if (not same) paths_differ) ≡ ok tt
      → m ≡ ok true
  paths-eq-ok (ok true) h = refl
  paths-eq-ok (ok false) h = cc
  paths-eq-ok (err e) h = cc

  -- The URLs that `urlsMatch` accepts fit the set: the sign URL is an https URL on the domain of
  -- the sign pattern and fits its expressions and its length; a fetch URL is given exactly if the
  -- set has a fetch pattern, fits it, and has the path and query of the sign URL unless the pattern
  -- says otherwise.
  pub urls_match-SetFits :
      (fetch : Option Url) (sign : Url) (set : UrlSet)
      → urls_match u match_string fetch sign set ≡ ok tt
      → SetFits fetch sign set
  unfolding urls_match
  urls_match-SetFits fetch sign set h =
      let (fetched, h₁) = check-eq-ok (fetch_url_matches u match_string fetch set.fetch) _ h in
      let (signed, h₂) = check-eq-ok (sign_url_matches u match_string sign set.sign) _ h₁ in
      let (p, p_eq, fits) = sign_url_matches-SignFits sign set.sign signed in
      record {
        pattern = p;
        pattern_set = p_eq;
        sign_fits = fits;
        fetch_allowed =
            fetch_url_matches-FetchAllowed fetch sign set.fetch fetched (paths-eq-ok _ h₂);
      }
