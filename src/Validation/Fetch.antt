-- ===== src/Validation/Fetch.antt =====
-- `validateFetch` of packager/signer/validation.go: which fetched responses the signer signs.
use amppackager.Prelude.{
  ℕ, Bool, true, false, not, ◌&&◌, ◌≡◌, refl, ap, ◌⊎◌, inl, inr, List, [], ◌∷◌, Option, none, some,
  Result, ok, err, ◌>>=◌, >>=-eq-ok, if◌then◌else◌, Bool-cases,
}
use amppackager.Prelude.Split.{to_lower}
use amppackager.Prelude.Text.{Bytes, codes, bytes_eq, bytes_eq_iff, lookup}
use amppackager.Config.{is_empty}
use amppackager.Accept.{or_empty}
use amppackager.Header.{Header}
use amppackager.Header.Access.{get}

pub data FetchError : Type 0 where
  cache_headers non_cacheable content_encoding parsing_type wrong_type wrong_charset : FetchError

abbrev Checked : Type 0
Checked = Result FetchError (Unit {0})

abbrev check_cachable : Option (List Bytes) → Checked
check_cachable none = err cache_headers
check_cachable (some []) = ok tt
check_cachable (some (r ∷ rs)) = err non_cacheable

abbrev check_type : Option (Bytes × List (Bytes × Bytes)) → Checked
check_type none = err parsing_type
check_type (some (content_type, params)) =
    if not (bytes_eq content_type (codes "text/html"))
    then err wrong_type
    else (let charset = to_lower (or_empty (lookup (codes "charset") params)) in
        if not (is_empty charset) && not (bytes_eq charset (codes "utf-8"))
        then err wrong_charset
        else ok tt)

-- `cachable_response` is cachecontrol's `CachableResponse` on the request's and the response's
-- headers and the status, with the reasons against storing it in a shared cache.
module _ (cachable_response : Header → ℕ → Header → Option (List Bytes))
    (parse_media_type : Bytes → Option (Bytes × List (Bytes × Bytes))) where
  unfoldable pub validate_fetch : Header → ℕ → Header → Checked
  unfolding get
  validate_fetch request status header =
      check_cachable (cachable_response request status header) >>= λ _.
      if not (is_empty (get header (codes "Content-Encoding")))
      then err content_encoding
      else check_type (parse_media_type (get header (codes "Content-Type")))

-- A response that can be signed: cachable without reservation, with no Content-Encoding, and HTML
-- whose charset is UTF-8 or not given.
pub record IsSignable (cachable : Option (List Bytes))
    (media : Option (Bytes × List (Bytes × Bytes))) (header : Header) : Type 0 where
  pub is_cachable : cachable ≡ some []
  pub not_encoded : is_empty (get header (codes "Content-Encoding")) ≡ true
  pub params : List (Bytes × Bytes)
  pub is_html : media ≡ some (codes "text/html", params)
  pub charset :
      (to_lower (or_empty (lookup (codes "charset") params)) ≡ [])
      ⊎ (to_lower (or_empty (lookup (codes "charset") params)) ≡ codes "utf-8")

charset_cases :
    (c : Bytes)
    → (not (is_empty c) && not (bytes_eq c (codes "utf-8"))) ≡ false
    → (c ≡ []) ⊎ (c ≡ codes "utf-8")
charset_cases [] h = inl refl
charset_cases (x ∷ xs) h = elim (Bool-cases (bytes_eq (x ∷ xs) (codes "utf-8"))) [
  | inl e ↦ inr ((bytes_eq_iff (x ∷ xs) (codes "utf-8")).0 e)
  | inr e ↦ absurd (cc (rw e at h))
]

guard-eq-ok :
    (b : Bool) (e : FetchError) (k : Checked)
    → (if b then err e else k) ≡ ok tt
    → (b ≡ false) × (k ≡ ok tt)
guard-eq-ok true e k h = absurd (cc)
guard-eq-ok false e k h = (refl, h)

not-false : (x : Bool) → not x ≡ false → x ≡ true
not-false true h = refl
not-false false h = absurd (cc)

check_cachable-eq-ok : (o : Option (List Bytes)) → check_cachable o ≡ ok tt → o ≡ some []
check_cachable-eq-ok none h = absurd (cc)
check_cachable-eq-ok (some []) h = refl
check_cachable-eq-ok (some (r ∷ rs)) h = absurd (cc)

check_type-IsSignable :
    (cachable : Option (List Bytes)) (media : Option (Bytes × List (Bytes × Bytes)))
    (header : Header)
    → cachable ≡ some []
    → is_empty (get header (codes "Content-Encoding")) ≡ true
    → check_type media ≡ ok tt
    → IsSignable cachable media header
check_type-IsSignable cachable none header a b h = absurd (cc)
check_type-IsSignable cachable (some (t, params)) header a b h =
    let (html, h1) = guard-eq-ok (not (bytes_eq t (codes "text/html"))) wrong_type _ h in
    let (fits, _) = guard-eq-ok _ wrong_charset (ok tt) h1 in
    record {
      is_cachable = a;
      not_encoded = b;
      params = params;
      is_html =
          ap (λ x. some (x, params)) ((bytes_eq_iff t (codes "text/html")).0 (not-false _ html));
      charset = charset_cases _ fits;
    }

-- A response that `validateFetch` takes is cachable without reservation by a shared cache, has no
-- Content-Encoding, and is HTML whose charset is UTF-8 or not given.
pub validate_fetch-IsSignable :
    (cachable_response : Header → ℕ → Header → Option (List Bytes))
    (parse_media_type : Bytes → Option (Bytes × List (Bytes × Bytes))) (request : Header)
    (status : ℕ) (header : Header)
    → validate_fetch cachable_response parse_media_type request status header ≡ ok tt
    → IsSignable
        (cachable_response request status header)
        (parse_media_type (get header (codes "Content-Type")))
        header
unfolding validate_fetch
validate_fetch-IsSignable cachable_response parse_media_type request status header h =
    let (unit, cachable, h1) =
      >>=-eq-ok (check_cachable (cachable_response request status header)) _ h in
    let (plain, h2) =
      guard-eq-ok (not (is_empty (get header (codes "Content-Encoding")))) content_encoding _ h1 in
    check_type-IsSignable _ _ header (check_cachable-eq-ok _ cachable) (not-false _ plain) h2
