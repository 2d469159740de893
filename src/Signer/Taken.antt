-- ===== src/Signer/Taken.antt =====
-- Which fetched responses the signer of packager/signer/signer.go signs.
use amppackager.Prelude.{
  ◌≡◌, sym, Bool, true, false, not, ◌&&◌, ok, >>=-eq-ok, ok-injective, arith, length, leb, ◌==◌,
  inl, inr, ◌⊎◌,
}
use amppackager.Prelude.Int.{ℤ}
use amppackager.Prelude.Text.{Bytes, codes}
use amppackager.Accept.{can_satisfy}
use amppackager.Header.{Header}
use amppackager.Header.Access.{get_joined}
use amppackager.Validation.Url.{UrlLib}
use amppackager.Validation.Fetch.{validate_fetch}
use amppackager.Signer.Forward.{Outgoing, copy_headers}
use amppackager.Signer.{
  Reply, not_modified, Response, Backend, Signer, SxgParams, SignRequest, drop_error, check,
  proxy_unconsumed, stateful_response_headers, status_not_modified_headers, vary_header,
  max_signable_body_length, any_header, has_variants, consume_and_sign, choose_version,
  sign_fetched, answer_fetched,
}
use amppackager.Signer.Chains.{after, drop_error-eq-ok, check-eq-ok, not-false, if-test}
use amppackager.Signer.Signed.{IsSigned, serve_signed_exchange-IsSigned}

module _ (u : UrlLib) (b : Backend u) (s : Signer u) where
  open u use {Url}

  -- What makes the code sign a fetched response, or answer 304.
  pub record IsTaken (req : SignRequest) (sign_url : Url) (flag : Bool) (out : Outgoing)
      (r : Response) (x : Reply) : Type 0 where
    pub act : Bytes
    pub version : ℤ
    pub is_healthy : b.healthy ≡ true
    pub chosen : choose_version u b s req.incoming.header (proxy_unconsumed r) ≡ ok (act, version)
    pub accepted :
        s.require_headers
          && not (can_satisfy b.parse_media_type (get_joined req.incoming.header (codes "Accept")))
        ≡ false
    pub outcome :
        ((r.status ≡ 200)
          × (validate_fetch b.cachable_response b.parse_media_type out.header r.status r.header
              ≡ ok tt)
          × (flag && any_header r.header stateful_response_headers ≡ false)
          × (has_variants r.header ≡ false)
          × (leb max_signable_body_length (length r.body.content) ≡ false)
          × (r.body.fails ≡ false)
          × IsSigned u b s r
              (record {
                sign_url = sign_url;
                amp_cache_transform = act;
                transform_version = version;
              })
              x)
        ⊎ ((r.status ≡ 304)
            × (x ≡ not_modified (copy_headers r.header status_not_modified_headers vary_header)))

  consume_and_sign-eq-ok :
      (r : Response) (p : SxgParams u) (x : Reply)
      → consume_and_sign u b s r p ≡ ok x
      → (leb max_signable_body_length (length r.body.content) ≡ false)
        × (r.body.fails ≡ false)
        × IsSigned u b s r p x
  unfolding consume_and_sign
  consume_and_sign-eq-ok r p x h =
      if-test (leb max_signable_body_length (length r.body.content)) _ _ _ h (λ c e. absurd (cc))
        (λ c e.
          if-test r.body.fails _ _ _ e (λ d f. absurd (cc))
            (λ d f. (c, d, serve_signed_exchange-IsSigned u b s r p x f)))

  sign_fetched-IsFit :
      (flag : Bool) (request : Header) (r : Response) (p : SxgParams u) (x : Reply)
      → sign_fetched u b s flag request r p ≡ ok x
      → (validate_fetch b.cachable_response b.parse_media_type request r.status r.header ≡ ok tt)
        × (flag && any_header r.header stateful_response_headers ≡ false)
        × (has_variants r.header ≡ false)
        × (leb max_signable_body_length (length r.body.content) ≡ false)
        × (r.body.fails ≡ false)
        × IsSigned u b s r p x
  unfolding sign_fetched
  sign_fetched-IsFit flag request r p x h =
      let unsigned = proxy_unconsumed r in
      let validated =
        validate_fetch b.cachable_response b.parse_media_type request r.status r.header in
      let stateful = flag && any_header r.header stateful_response_headers in
      after (>>=-eq-ok (drop_error unsigned validated) _ h) λ t1 a h1.
        after (>>=-eq-ok (check stateful unsigned) _ h1) λ t2 c h2.
          after (>>=-eq-ok (check (has_variants r.header) unsigned) _ h2) λ t3 d h3.
            let (short, whole, made) = consume_and_sign-eq-ok r p x h3 in
            (
              drop_error-eq-ok unsigned validated a,
              check-eq-ok stateful unsigned c,
              check-eq-ok _ unsigned d,
              short,
              whole,
              made,
            )

  -- What `ServeHTTP` does with a fetched response that it does not proxy: the server is healthy, the
  -- request's headers ask for an exchange where they must, and either the response is a 200 that
  -- passes every test, is shorter than the limit and is signed, or it is a 304 whose headers are
  -- copied.
  pub answer_fetched-IsTaken :
      (req : SignRequest) (sign_url : Url) (flag : Bool) (out : Outgoing) (r : Response) (x : Reply)
      → answer_fetched u b s req sign_url flag out r ≡ ok x
      → IsTaken req sign_url flag out r x
  unfolding answer_fetched
  answer_fetched-IsTaken req sign_url flag out r x h =
      let unsigned = proxy_unconsumed r in
      let refused =
        s.require_headers
        && not (can_satisfy b.parse_media_type (get_joined req.incoming.header (codes "Accept"))) in
      after (>>=-eq-ok (check (not b.healthy) unsigned) _ h) λ t1 a h1.
        after (>>=-eq-ok (choose_version u b s req.incoming.header unsigned) _ h1) λ av c h2.
          after (>>=-eq-ok (check refused unsigned) _ h2) λ t3 d h3. record {
            act = av.0;
            version = av.1;
            is_healthy = not-false _ (check-eq-ok _ unsigned a);
            chosen = c;
            accepted = check-eq-ok _ unsigned d;
            outcome =
                if-test (r.status == 200) _ _ _ h3
                  (λ e f.
                    let (fit, stateless, plain, short, whole, made) =
                      sign_fetched-IsFit flag out.header r _ x f in
                    inl (ground (arith, e), fit, stateless, plain, short, whole, made))
                  (λ e f.
                    if-test (r.status == 304) _ _ _ f
                      (λ g i. inr (ground (arith, g), sym (ok-injective i))) (λ g i. absurd (cc)));
          }
