-- ===== src/Validation/Safe.antt =====
-- The choice of a URL set in packager/signer/validation.go, with the URL sets that the configuration
-- check of packager/util/config.go takes.
use mathlib.Core.Path.{subst}
use amppackager.Prelude.{
  ◌≡◌, ◌≢◌, refl, sym, ◌⊎◌, inl, inr, Bool, true, false, not, List, [], ◌∷◌, ◌++◌, Option, none,
  some, Result, ok, err, ◌>>=◌, Result-cases, arith, All, Any, Bool-cases, if◌then◌else◌,
}
use amppackager.Prelude.Text.{Bytes, bytes_eq}
use amppackager.Config.{UrlPattern, UrlSet, is_set}
use amppackager.Config.Valid.{DefaultsValid, IsPattern, IsUrlSet, IsFetchPattern, IsSignPattern}
use amppackager.Validation.Url.{UrlLib}
use amppackager.Validation.{
  MatchError, paths_differ, Check, refuse_if, ◌>>◌, deref, is_panic, url_matches,
  fetch_url_matches_pattern, fetch_url_matches, sign_url_matches, they_match, urls_match, UrlError,
  panic, or_url, stateful_flag, find_set, parse_fetch, parse_url, parse_urls, parsed,
}
use amppackager.Validation.Match.{SetFits, urls_match-SetFits}

-- A value or one of the code's errors.
data NoPanic {A : Type 0} : Result MatchError A → Type 0 where
  good : {a : A} → NoPanic (ok a)
  fails : {e : MatchError} → is_panic e ≡ false → NoPanic (err e)

guard-NoPanic :
    {A : Type 0} (b : Bool) (e : MatchError) (k : Result MatchError A)
    → is_panic e ≡ false
    → NoPanic k
    → NoPanic (refuse_if b e >> k)
guard-NoPanic true e k h n = fails h
guard-NoPanic false e k h n = n

refuse-NoPanic : (b : Bool) (e : MatchError) → is_panic e ≡ false → NoPanic (refuse_if b e)
refuse-NoPanic true e h = fails h
refuse-NoPanic false e h = good

some-injective : {A : Type 0} {a b : A} → some a ≡ some b → a ≡ b
some-injective h = cc

deref-NoPanic :
    {A B : Type 0} (o : Option A) (a : A) (k : A → Result MatchError B)
    → o ≡ some a
    → NoPanic (k a)
    → NoPanic (deref o >>= k)
deref-NoPanic none a k e n = absurd (cc)
deref-NoPanic (some b) a k e n = subst (λ x. NoPanic (k x)) (sym (some-injective e)) n

check-NoPanic :
    {A : Type 0} (m : Check) (k : Result MatchError A)
    → NoPanic m
    → (m ≡ ok tt → NoPanic k)
    → NoPanic (m >> k)
check-NoPanic (ok tt) k h n = n refl
check-NoPanic (err e) k (fails h) n = fails h

set-eq-some : {A : Type 0} (o : Option A) → is_set o ≡ true → (a : A) × (o ≡ some a)
set-eq-some none h = cc
set-eq-some (some a) h = (a, refl)

module _ (u : UrlLib) (match_string : Bytes → Bytes → Bool) (valid_regexp : Bytes → Bool)
    (defaults : DefaultsValid valid_regexp) where
  open u use {Url}

  url_matches-NoPanic :
      (url : Url) (p : UrlPattern)
      → IsPattern valid_regexp defaults p
      → NoPanic (url_matches u match_string url p)
  unfolding url_matches
  url_matches-NoPanic url p v =
      search (guard-NoPanic, refuse-NoPanic, deref-NoPanic, v.path_set, v.query_set) depth 14

  fetch_url_matches-NoPanic :
      (fetch : Option Url) (o : Option UrlPattern)
      → (o ≡ none) ⊎ ((p : UrlPattern) × (o ≡ some p) × IsFetchPattern valid_regexp defaults p)
      → NoPanic (fetch_url_matches u match_string fetch o)
  unfolding fetch_url_matches fetch_url_matches_pattern
  fetch_url_matches-NoPanic none none v = good
  fetch_url_matches-NoPanic (some url) none v = fails refl
  fetch_url_matches-NoPanic none (some p) v = fails refl
  fetch_url_matches-NoPanic (some url) (some p) (inl e) = absurd (cc)
  fetch_url_matches-NoPanic (some url) (some p) (inr (q, e, v)) =
      let matched =
        url_matches-NoPanic url p
          (subst (IsPattern valid_regexp defaults) (sym (some-injective e)) v.pattern) in
      search (guard-NoPanic, matched) depth 8

  sign_url_matches-NoPanic :
      (url : Url) (o : Option UrlPattern) (p : UrlPattern)
      → o ≡ some p
      → IsSignPattern valid_regexp defaults p
      → NoPanic (sign_url_matches u match_string url o)
  unfolding sign_url_matches
  sign_url_matches-NoPanic url o p e v =
      let matched = url_matches-NoPanic url p v.pattern in
      search (guard-NoPanic, deref-NoPanic, matched, e) depth 8

  same-NoPanic :
      (o : Option Bool) (f sign : Url)
      → is_set o ≡ true
      → NoPanic (
          deref o >>= λ same.
          if not same then ok true else ok (bytes_eq (u.request_uri f) (u.request_uri sign)))
  same-NoPanic none f sign h = absurd (cc)
  same-NoPanic (some true) f sign h = good
  same-NoPanic (some false) f sign h = good

  they_match-NoPanic :
      (fetch : Option Url) (sign : Url) (o : Option UrlPattern)
      → (o ≡ none) ⊎ ((p : UrlPattern) × (o ≡ some p) × IsFetchPattern valid_regexp defaults p)
      → fetch_url_matches u match_string fetch o ≡ ok tt
      → NoPanic (they_match u match_string fetch sign o)
  unfolding fetch_url_matches
  they_match-NoPanic fetch sign none v h = good
  they_match-NoPanic none sign (some p) v h = absurd (cc)
  they_match-NoPanic (some f) sign (some p) (inl e) h = absurd (cc)
  they_match-NoPanic (some f) sign (some p) (inr (q, e, v)) h =
      same-NoPanic p.same_path f sign
        (subst (λ x. is_set x.same_path ≡ true) (sym (some-injective e)) v.same_path_set)

  paths-NoPanic :
      (m : Result MatchError Bool)
      → NoPanic m
      → NoPanic (m >>= λ same. refuse_if (not same) paths_differ)
  paths-NoPanic (ok true) n = good
  paths-NoPanic (ok false) n = fails refl
  paths-NoPanic (err e) (fails h) = fails h

  urls_match-NoPanic :
      (fetch : Option Url) (sign : Url) (set : UrlSet)
      → IsUrlSet valid_regexp defaults set
      → NoPanic (urls_match u match_string fetch sign set)
  unfolding urls_match
  urls_match-NoPanic fetch sign set (vf, (p, e, vs)) =
      check-NoPanic (fetch_url_matches u match_string fetch set.fetch) _
        (fetch_url_matches-NoPanic fetch set.fetch vf)
        (λ fetched.
          check-NoPanic (sign_url_matches u match_string sign set.sign) _
            (sign_url_matches-NoPanic sign set.sign p e vs)
            (λ _. paths-NoPanic _ (they_match-NoPanic fetch sign set.fetch vf fetched)))

  -- What the choice of a set answers: no panic, and on success the URLs of a set that they fit.
  abbrev Chosen :
      Option Url → Url → List UrlSet → Result (UrlError u match_string) (Url × Url × Bool) → Type 0
  Chosen fetch sign sets (ok (f, s, flag)) =
      (f ≡ or_url u match_string fetch sign)
      × (s ≡ sign)
      × Any
          (λ set.
            SetFits u match_string fetch sign set × (flag ≡ stateful_flag u match_string set.sign))
          sets
  Chosen fetch sign sets (err e) = e ≢ panic

  Chosen-skip :
      (fetch : Option Url) (sign : Url) (set : UrlSet) (sets : List UrlSet)
      (res : Result (UrlError u match_string) (Url × Url × Bool))
      → Chosen fetch sign sets res
      → Chosen fetch sign (set ∷ sets) res
  Chosen-skip fetch sign set sets (ok (f, s, flag)) (a, b, c) = (a, b, inr c)
  Chosen-skip fetch sign set sets (err e) h = h

  find_set-ok :
      (errs : List MatchError) (fetch : Option Url) (sign : Url) (set : UrlSet) (sets : List UrlSet)
      → urls_match u match_string fetch sign set ≡ ok tt
      → find_set u match_string errs fetch sign (set ∷ sets)
        ≡ ok (or_url u match_string fetch sign, sign, stateful_flag u match_string set.sign)
  unfolding find_set
  find_set-ok errs fetch sign set sets e = rw (e, find_set)

  find_set-err :
      (errs : List MatchError) (fetch : Option Url) (sign : Url) (set : UrlSet) (sets : List UrlSet)
      (why : MatchError)
      → urls_match u match_string fetch sign set ≡ err why
      → is_panic why ≡ false
      → find_set u match_string errs fetch sign (set ∷ sets)
        ≡ find_set u match_string (errs ++ why ∷ []) fetch sign sets
  unfolding find_set
  find_set-err errs fetch sign set sets why e h = rw (e, find_set) (rw h)

  NoPanic-err : (r : Check) (why : MatchError) → NoPanic r → r ≡ err why → is_panic why ≡ false
  NoPanic-err (ok unit) why n e = absurd (cc)
  NoPanic-err (err e) why (fails h) q = cc

  find_set-Chosen :
      (errs : List MatchError) (fetch : Option Url) (sign : Url) (sets : List UrlSet)
      → All (IsUrlSet valid_regexp defaults) sets
      → Chosen fetch sign sets (find_set u match_string errs fetch sign sets)
  unfolding find_set
  find_set-Chosen errs fetch sign [] v = λ e. cc
  find_set-Chosen errs fetch sign (set ∷ sets) (v, vs) =
      elim (Result-cases (urls_match u match_string fetch sign set)) [
        | inl (unit, e) ↦
            subst (Chosen fetch sign (set ∷ sets)) (sym (find_set-ok errs fetch sign set sets e))
              (refl, refl, inl (urls_match-SetFits u match_string fetch sign set e, refl))
        | inr (why, e) ↦
            subst (Chosen fetch sign (set ∷ sets))
              (sym (
                find_set-err errs fetch sign set sets why e
                  (NoPanic-err _ why (urls_match-NoPanic fetch sign set v) e)))
              (Chosen-skip fetch sign set sets _
                (find_set-Chosen (errs ++ why ∷ []) fetch sign sets vs))
      ]

  -- What `parseURLs` answers: no panic, and on success the sign URL as `parseURL` reads it, the
  -- fetch URL likewise (the sign URL if none is given), and the flag of a set that both fit.
  abbrev pub Answers :
      Bytes → Bytes → List UrlSet → Result (UrlError u match_string) (Url × Url × Bool) → Type 0
  Answers fetch sign sets (ok (f, s, flag)) =
      (o : Option Url) × (parse_fetch u match_string fetch ≡ ok o)
      × (parse_url u match_string sign ≡ ok s)
      × (f ≡ or_url u match_string o s)
      × Any (λ set. SetFits u match_string o s set × (flag ≡ stateful_flag u match_string set.sign))
          sets
  Answers fetch sign sets (err e) = e ≢ panic

  parsed-no_panic :
      (o : Option Url) (e : UrlError u match_string) → parsed u match_string o ≡ err e → e ≢ panic
  parsed-no_panic none e h = λ q. cc
  parsed-no_panic (some url) e h = elim (Bool-cases (u.is_abs url)) [
    | inl a ↦ λ q. ground (arith, a, h, q)
    | inr a ↦ λ q. ground (arith, a, h, q)
  ]

  parse_url-no_panic :
      (b : Bytes) (e : UrlError u match_string) → parse_url u match_string b ≡ err e → e ≢ panic
  unfolding parse_url
  parse_url-no_panic [] e h = λ q. cc
  parse_url-no_panic (c ∷ cs) e h = parsed-no_panic (u.parse (c ∷ cs)) e h

  Chosen-Answers :
      (fetch sign : Bytes) (o : Option Url) (s : Url) (sets : List UrlSet)
      (r : Result (UrlError u match_string) (Url × Url × Bool))
      → parse_fetch u match_string fetch ≡ ok o
      → parse_url u match_string sign ≡ ok s
      → Chosen o s sets r
      → Answers fetch sign sets r
  Chosen-Answers fetch sign o s sets (err e) f h c = c
  Chosen-Answers fetch sign o s sets (ok (a, b, flag)) f h (ea, eb, c) =
      subst (λ x. Answers fetch sign sets (ok (a, x, flag))) (sym eb) (o, f, h, ea, c)

  some-no_panic :
      (r : Result (UrlError u match_string) Url) (e : UrlError u match_string)
      → ((d : UrlError u match_string) → r ≡ err d → d ≢ panic)
      → (r >>= λ url. ok (some url)) ≡ err e
      → e ≢ panic
  some-no_panic (ok url) e h q = absurd (cc)
  some-no_panic (err d) e h q = λ p. h d refl cc

  fetch_url-no_panic :
      (b : Bytes) (e : UrlError u match_string) → parse_fetch u match_string b ≡ err e → e ≢ panic
  fetch_url-no_panic [] e h = λ q. cc
  fetch_url-no_panic (c ∷ cs) e h =
      some-no_panic (parse_url u match_string (c ∷ cs)) e (parse_url-no_panic (c ∷ cs)) h

  sign_url-Answers :
      (fetch sign : Bytes) (o : Option Url) (sets : List UrlSet)
      (r : Result (UrlError u match_string) Url)
      → All (IsUrlSet valid_regexp defaults) sets
      → parse_fetch u match_string fetch ≡ ok o
      → parse_url u match_string sign ≡ r
      → Answers fetch sign sets (r >>= λ s. find_set u match_string [] o s sets)
  sign_url-Answers fetch sign o sets (err e) v f h = parse_url-no_panic sign e h
  sign_url-Answers fetch sign o sets (ok s) v f h =
      Chosen-Answers fetch sign o s sets _ f h (find_set-Chosen [] o s sets v)

  fetch-Answers :
      (fetch sign : Bytes) (sets : List UrlSet) (r : Result (UrlError u match_string) (Option Url))
      → All (IsUrlSet valid_regexp defaults) sets
      → parse_fetch u match_string fetch ≡ r
      → Answers fetch sign sets
          (r >>= λ o. (parse_url u match_string sign >>= λ s. find_set u match_string [] o s sets))
  fetch-Answers fetch sign sets (err e) v h = fetch_url-no_panic fetch e h
  fetch-Answers fetch sign sets (ok o) v h =
      sign_url-Answers fetch sign o sets (parse_url u match_string sign) v h refl

  -- With URL sets that the configuration check takes, `parseURLs` reads through no nil pointer,
  -- and the URLs that it answers are the parsed ones and fit one of the sets, whose flag on
  -- stateful headers it answers.
  pub parse_urls-Answers :
      (fetch sign : Bytes) (sets : List UrlSet)
      → All (IsUrlSet valid_regexp defaults) sets
      → Answers fetch sign sets (parse_urls u match_string fetch sign sets)
  unfolding parse_urls
  parse_urls-Answers fetch sign sets v =
      fetch-Answers fetch sign sets (parse_fetch u match_string fetch) v refl
