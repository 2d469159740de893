-- ===== src/Validation.antt =====
-- packager/signer/validation.go: which fetch and sign URLs the signer takes, and which fetched
-- responses it signs. The URLs of net/url, `regexp.MatchString`, `mime.ParseMediaType` and the
-- cachecontrol library are the parameters `UrlLib`, `match_string`, `parse_media_type` and
-- `cachable`. A nil pointer that the code reads is the error `nil_pointer`.
pub mod Url
pub mod Match
pub mod Safe
pub mod Fetch
use amppackager.Prelude.{
  ℕ, Bool, true, false, not, ◌&&◌, ◌||◌, List, [], ◌∷◌, ◌++◌, Option, none, some, Result, ok, err,
  ◌>>=◌, ltb, leb, ◌==◌, if◌then◌else◌, length,
}
use amppackager.Prelude.Int.{ℤ, pos, ltb_ℤ}
use amppackager.Prelude.Text.{Bytes, codes, bytes_eq}
use amppackager.Config.{UrlPattern, UrlSet, is_empty}
use amppackager.Validation.Url.{UrlLib}

pub data MatchError : Type 0 where
  opaque user path_re path_exclude_re query_re too_long : MatchError
  fetch_given no_fetch scheme domain domain_re invalid_byte paths_differ : MatchError
  -- The code would panic.
  nil_pointer : MatchError

abbrev pub Check : Type 0
Check = Result MatchError (Unit {0})

abbrev pub refuse_if : Bool → MatchError → Check
refuse_if true e = err e
refuse_if false e = ok tt

abbrev pub is_panic : MatchError → Bool
is_panic nil_pointer = true
is_panic _ = false

infixr 6 ◌>>◌
abbrev pub ◌>>◌ {ℓ} : {A : Type ℓ} → Check → Result MatchError A → Result MatchError A
m >> k = m >>= λ _. k

-- `*p`
abbrev pub deref {ℓ} : {A : Type ℓ} → Option A → Result MatchError A
deref none = err nil_pointer
deref (some a) = ok a

unfoldable pub scheme_matches : Bytes → List Bytes → Bool
scheme_matches actual [] = false
scheme_matches actual (s ∷ ss) = if bytes_eq actual s then true else scheme_matches actual ss

-- A nil slice has no elements.
abbrev pub schemes_of : Option (List Bytes) → List Bytes
schemes_of none = []
schemes_of (some ss) = ss

unfoldable pub is_fallback_url_code_point : ℕ → Bool
is_fallback_url_code_point b =
    (leb b'a' b && leb b b'z')
    || b == b'_'
    || b == b'~'
    || (leb b'!' b
        && leb b b'Z'
        && not (b == b'"')
        && not (b == b'#')
        && not (b == b'<')
        && not (b == b'>'))

unfoldable pub all_fallback : Bytes → Bool
unfolding is_fallback_url_code_point
all_fallback [] = true
all_fallback (b ∷ bs) = if not (is_fallback_url_code_point b) then false else all_fallback bs

module _ (u : UrlLib) (match_string : Bytes → Bytes → Bool) where
  open u use {Url}

  abbrev pub regexp_full_match : Bytes → Bytes → Bool
  regexp_full_match pattern test = match_string (codes "\\A(?:" ++ (pattern ++ codes ")\\z")) test

  -- The loop over PathExcludeRE.
  unfoldable pub any_full_match : List Bytes → Bytes → Bool
  any_full_match [] test = false
  any_full_match (re ∷ res) test =
      if regexp_full_match re test then true else any_full_match res test

  unfoldable pub url_matches : Url → UrlPattern → Check
  unfolding any_full_match
  url_matches url p =
      refuse_if (not (is_empty (u.opaque url))) opaque
      >> refuse_if (u.has_user url) user
      >> (deref p.path_re >>= λ re.
          refuse_if (not (regexp_full_match re (u.escaped_path url))) path_re
          >> refuse_if (any_full_match p.path_exclude_re (u.escaped_path url)) path_exclude_re
          >> (deref p.query_re >>= λ qre.
              refuse_if (not (regexp_full_match qre (u.raw_query url))) query_re
              >> refuse_if (ltb_ℤ p.max_length (pos (length (u.text url)))) too_long))

  -- `fetchURLMatches` on a URL and a pattern that are there.
  unfoldable pub fetch_url_matches_pattern : Url → UrlPattern → Check
  unfolding url_matches scheme_matches
  fetch_url_matches_pattern url p =
      refuse_if (not (scheme_matches (u.scheme url) (schemes_of p.scheme))) scheme
      >> refuse_if (not (is_empty p.domain) && not (bytes_eq (u.host url) p.domain)) domain
      >> refuse_if (not (is_empty p.domain_re) && not (regexp_full_match p.domain_re (u.host url)))
          domain_re
      >> url_matches url p

  unfoldable pub fetch_url_matches : Option Url → Option UrlPattern → Check
  unfolding fetch_url_matches_pattern
  fetch_url_matches none none = ok tt
  fetch_url_matches (some url) none = err fetch_given
  fetch_url_matches none (some p) = err no_fetch
  fetch_url_matches (some url) (some p) = fetch_url_matches_pattern url p

  unfoldable pub sign_url_matches : Url → Option UrlPattern → Check
  unfolding url_matches all_fallback
  sign_url_matches url pattern =
      refuse_if (not (all_fallback (u.text url))) invalid_byte
      >> refuse_if (not (bytes_eq (u.scheme url) (codes "https"))) scheme
      >> (deref pattern >>= λ p.
          refuse_if (not (bytes_eq (u.host url) p.domain)) domain >> url_matches url p)

  -- `set.Fetch == nil || !*set.Fetch.SamePath || …`
  abbrev pub they_match : Option Url → Url → Option UrlPattern → Result MatchError Bool
  they_match fetch sign none = ok true
  they_match fetch sign (some p) = deref p.same_path >>= λ same.
      if not same
      then ok true
      else deref fetch >>= λ f. ok (bytes_eq (u.request_uri f) (u.request_uri sign))

  unfoldable pub urls_match : Option Url → Url → UrlSet → Check
  unfolding fetch_url_matches sign_url_matches
  urls_match fetch sign set =
      fetch_url_matches fetch set.fetch
      >> sign_url_matches sign set.sign
      >> (they_match fetch sign set.fetch >>= λ same. refuse_if (not same) paths_differ)

  -- The answers of `parseURL` and `parseURLs`; their errors are all of status 400.
  pub data UrlError : Type 0 where
    unspecified unparsable relative : UrlError
    no_config : List MatchError → UrlError
    -- The code would panic.
    panic : UrlError

  abbrev pub parsed : Option Url → Result UrlError Url
  parsed none = err unparsable
  parsed (some url) =
      if not (u.is_abs url)
      then err relative
      else (let resolved = u.resolve_reference url url in
          ok (u.set_raw_query resolved (u.path_escape (u.raw_query resolved))))

  unfoldable pub parse_url : Bytes → Result UrlError Url
  parse_url [] = err unspecified
  parse_url (c ∷ cs) = parsed (u.parse (c ∷ cs))

  abbrev pub or_url : Option Url → Url → Url
  or_url none sign = sign
  or_url (some fetch) sign = fetch

  -- `set.Sign.ErrorOnStatefulHeaders`, read where the sign pattern has matched.
  abbrev pub stateful_flag : Option UrlPattern → Bool
  stateful_flag none = false
  stateful_flag (some p) = p.error_on_stateful_headers

  -- The loop over the URL sets, with the errors so far.
  unfoldable pub find_set :
      List MatchError → Option Url → Url → List UrlSet → Result UrlError (Url × Url × Bool)
  unfolding urls_match
  find_set errs fetch sign [] = err (no_config errs)
  find_set errs fetch sign (set ∷ sets) = elim (urls_match fetch sign set) [
    | ok _ ↦ ok (or_url fetch sign, sign, stateful_flag set.sign)
    | err e ↦ elim (is_panic e) [
      | Bool.true ↦ err panic
      | Bool.false ↦ find_set (errs ++ e ∷ []) fetch sign sets
    ]
  ]

  abbrev pub parse_fetch : Bytes → Result UrlError (Option Url)
  parse_fetch [] = ok none
  parse_fetch (c ∷ cs) = parse_url (c ∷ cs) >>= λ url. ok (some url)

  unfoldable pub parse_urls : Bytes → Bytes → List UrlSet → Result UrlError (Url × Url × Bool)
  unfolding parse_url find_set
  parse_urls fetch sign sets = do
    fetch_url ← parse_fetch fetch
    sign_url ← parse_url sign
    find_set [] fetch_url sign_url sets
